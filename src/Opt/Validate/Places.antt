-- ===== src/Opt/Validate/Places.antt =====
-- Well-formed bodies in full, and the checks of crates/glyim-opt/src/validate.rs, which pass over the
-- targets of assignments and the places of terminators.
use glyim_v.Prelude.{ℕ, ◌<◌, ◌≡◌, ◌↔◌, List, [], ◌∷◌, length, All}
use glyim_v.Layout.Types.{Ty}
use glyim_v.Mir.Types.{
  Place, Statement, assign, storage_live, storage_dead, nop, BasicBlockData, Body,
}
use glyim_v.Mir.Drop.{DropCtx}
use glyim_v.Opt.Edges.{terminator_successors}
use glyim_v.Opt.Validate.{valid, validate_body}
use glyim_v.Opt.Validate.WellFormed.{statement_places, IsNeeded}
use glyim_v.Opt.Validate.Sound.{validate_body-IsChecked}
use glyim_v.Opt.SliceDesugar.Splits.{terminator_places, AllTerminal, Clean}

-- Of a block of a body with `n` blocks: every place has a slice projection at its end only, every
-- target is a block, and a dropped place has a type that needs it.
abbrev IsWellFormedBlock : ℕ → ℕ → DropCtx → List Ty → BasicBlockData → Type 0
IsWellFormedBlock n fuel ctx locals block =
    Clean block.statements
    × AllTerminal (terminator_places block.terminator)
    × All (λ j. j < n) (terminator_successors block.terminator)
    × IsNeeded fuel ctx locals block.terminator

abbrev pub IsWellFormed : ℕ → DropCtx → Body → Type 0
IsWellFormed fuel ctx body =
    All (IsWellFormedBlock (length body.basic_blocks) fuel ctx body.locals) body.basic_blocks

abbrev target_places : Statement → List Place
target_places (assign place rvalue) = place ∷ []
target_places (storage_live local) = []
target_places (storage_dead local) = []
target_places nop = []

-- The targets of assignments and the places of terminators have slice projections at the end only.
abbrev pub HasTerminalTargets : List BasicBlockData → Type 0
HasTerminalTargets = All (λ block.
    All (λ statement. AllTerminal (target_places statement)) block.statements
    × AllTerminal (terminator_places block.terminator))

Reads : List Statement → Type 0
Reads = All (λ statement. AllTerminal (statement_places statement))

Clean-iff :
    (stmts : List Statement)
    → All (λ statement. AllTerminal (target_places statement)) stmts
    → Reads stmts ↔ Clean stmts
unfolding Reads
Clean-iff [] h = (λ r. tt, λ c. tt)
Clean-iff (assign place rvalue ∷ stmts) (t, h) =
    let (to, from) = Clean-iff stmts h in
    (λ (r, rs). ((t.0, r), to rs), λ ((p, r), rs). (r, from rs))
Clean-iff (storage_live local ∷ stmts) (t, h) =
    let (to, from) = Clean-iff stmts h in (λ (r, rs). (r, to rs), λ (r, rs). (r, from rs))
Clean-iff (storage_dead local ∷ stmts) (t, h) =
    let (to, from) = Clean-iff stmts h in (λ (r, rs). (r, to rs), λ (r, rs). (r, from rs))
Clean-iff (nop ∷ stmts) (t, h) =
    let (to, from) = Clean-iff stmts h in (λ (r, rs). (r, to rs), λ (r, rs). (r, from rs))

blocks_iff :
    (n fuel : ℕ) (ctx : DropCtx) (locals : List Ty) (blocks : List BasicBlockData)
    → HasTerminalTargets blocks
    → All
        (λ block.
          Reads block.statements
          × (All (λ j. j < n) (terminator_successors block.terminator)
              × IsNeeded fuel ctx locals block.terminator))
        blocks
      ↔ All (IsWellFormedBlock n fuel ctx locals) blocks
blocks_iff n fuel ctx locals [] h = (λ r. tt, λ c. tt)
blocks_iff n fuel ctx locals (block ∷ blocks) ((targets, last), h) =
    let (clean, reads) = Clean-iff block.statements targets in
    let (to, from) = blocks_iff n fuel ctx locals blocks h in
    (
      λ ((r, d), rest). ((clean r, last, d.0, d.1), to rest),
      λ ((c, t, d, e), rest). ((reads c, (d, e)), from rest),
    )

-- For a body in which the targets of assignments and the places of terminators have slice projections
-- at their end only: `validate_body` passes it just if all its places do, every target is a block, and
-- each dropped place has a type that needs to be dropped.
pub validate_body-IsWellFormed :
    (fuel : ℕ) (ctx : DropCtx) (body : Body)
    → HasTerminalTargets body.basic_blocks
    → (validate_body fuel ctx body ≡ valid) ↔ IsWellFormed fuel ctx body
unfolding Reads
validate_body-IsWellFormed fuel ctx body h =
    let (to, from) = validate_body-IsChecked fuel ctx body in
    let (up, down) =
      blocks_iff (length body.basic_blocks) fuel ctx body.locals body.basic_blocks h in
    (λ e. up (to e), λ w. from (down w))
