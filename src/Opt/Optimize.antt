-- ===== src/Opt/Optimize.antt =====
-- `optimize`: the validation and the passes in their order (crates/glyim-opt/src/lib.rs).
use glyim_v.Prelude.{
  ℕ, suc, ◌≤◌, ◌<◌, ◌^◌, ◌≡◌, ◌⊎◌, inl, inr, refl, sym, ap, subst, ◌∙◌, Option, none, some,
  Option-cases, if_either, List, [], ◌∷◌, map, length, All, arith,
}
use mathlib.Core.Option.{some_inj}
use glyim_v.Mir.Types.{
  LocalIdx, Place, Statement, assign, storage_live, storage_dead, nop, Terminator, drop_place,
  BasicBlockData, Body,
}
use glyim_v.Mir.Drop.{DropCtx}
use glyim_v.Opt.Edges.{terminator_successors}
use glyim_v.Opt.Unreachable.{Pass, passed, pass_panics, pass_no_fuel}
use glyim_v.Opt.Unreachable.Reach.{InRange, Reaches}
use glyim_v.Opt.Semantics.{Meaning}
use glyim_v.Opt.Dce.{retain_block, collect_used_locals}
use glyim_v.Opt.Dce
use glyim_v.Opt.Validate.{
  Validation, valid, non_terminal_slice_projection, subslice_after_desugar, unknown_target,
  unnecessary_drop, validation_panics, validation_no_fuel, validate_body, validate_no_subslice,
  ◌then_check◌, check_each, subslice_in, subslice_in_statement, subslice_in_terminator,
  subslice_in_block, has_subslice, rvalue_place,
}
use glyim_v.Opt.Validate.Sound.{validate_body-InRange}
use glyim_v.Opt.SliceDesugar
use glyim_v.Opt.SliceDesugar.Keeps.{DeclaredBlock, run-IsTerminal}
use glyim_v.Opt.ConstProp.{BlockMap}
use glyim_v.Opt.ConstProp.Evaluate.{FloatOps}
use glyim_v.Opt.ConstProp.Sweep.{replace_block, replace_blocks, with_maps, iterate, max_iterations}
use glyim_v.Opt.ConstProp.Sweep
use glyim_v.Opt.Pipeline.{clean_graph, clean_graph-InRange}

-- A validation that fails panics, and so do the passes that panic.
pub data Optimized : Type 0 where
  optimized : Body → Optimized
  rejected : Validation → Optimized
  optimize_panics optimize_no_fuel : Optimized

abbrev pub when_valid : Validation → Optimized → Optimized
when_valid valid result = result
when_valid non_terminal_slice_projection result = rejected non_terminal_slice_projection
when_valid subslice_after_desugar result = rejected subslice_after_desugar
when_valid (unknown_target b) result = rejected (unknown_target b)
when_valid (unnecessary_drop place ty) result = rejected (unnecessary_drop place ty)
when_valid validation_panics result = optimize_panics
when_valid validation_no_fuel result = optimize_no_fuel

abbrev pub or_panics : Option Body → (Body → Optimized) → Optimized
or_panics none rest = optimize_panics
or_panics (some body) rest = rest body

abbrev pub as_optimized : Pass → Optimized
as_optimized (passed body) = optimized body
as_optimized pass_panics = optimize_panics
as_optimized pass_no_fuel = optimize_no_fuel

unfoldable pub optimize : ℕ → DropCtx → FloatOps → Body → Optimized
optimize fuel ctx fs body = when_valid (validate_body fuel ctx body) (
    or_panics (SliceDesugar.run ctx.types body) (λ desugared.
      when_valid (validate_no_subslice desugared) (
        or_panics (Sweep.run fs desugared)
          (λ propagated. as_optimized (clean_graph (Dce.run propagated))))))

-- The replacement and the removal keep the number of blocks and their terminators.
abbrev AllTargets : ℕ → List BasicBlockData → Type 0
AllTargets n = All (λ block. All (λ j. j < n) (terminator_successors block.terminator))

length-replace_blocks :
    (maps : List (Option BlockMap)) (blocks : List BasicBlockData)
    → length (replace_blocks maps blocks) ≡ length blocks
unfolding replace_blocks
length-replace_blocks maps [] = refl
length-replace_blocks [] (block ∷ blocks) = refl
length-replace_blocks (m ∷ maps) (block ∷ blocks) = ap suc (length-replace_blocks maps blocks)

replace_block-terminator :
    (m : Option BlockMap) (block : BasicBlockData)
    → (replace_block m block).terminator ≡ block.terminator
replace_block-terminator none block = refl
replace_block-terminator (some locals) block = refl

replace_blocks-AllTargets :
    (n : ℕ) (maps : List (Option BlockMap)) (blocks : List BasicBlockData)
    → AllTargets n blocks
    → AllTargets n (replace_blocks maps blocks)
unfolding replace_blocks
replace_blocks-AllTargets n maps [] h = tt
replace_blocks-AllTargets n [] (block ∷ blocks) h = h
replace_blocks-AllTargets n (m ∷ maps) (block ∷ blocks) h = (
  subst (λ t. All (λ j. j < n) (terminator_successors t)) (sym (replace_block-terminator m block))
      h.0,
  replace_blocks-AllTargets n maps blocks h.1,
)

length-retain :
    (used : List LocalIdx) (blocks : List BasicBlockData)
    → length (map (retain_block used) blocks) ≡ length blocks
length-retain used [] = refl
length-retain used (block ∷ blocks) = ap suc (length-retain used blocks)

retain-AllTargets :
    (n : ℕ) (used : List LocalIdx) (blocks : List BasicBlockData)
    → AllTargets n blocks
    → AllTargets n (map (retain_block used) blocks)
retain-AllTargets n used [] h = tt
retain-AllTargets n used (block ∷ blocks) h = (h.0, retain-AllTargets n used blocks h.1)

with_maps-AllTargets :
    (n : ℕ) (body propagated : Body) (o : Option (List (Option BlockMap)))
    → with_maps body o ≡ some propagated
    → AllTargets n body.basic_blocks
    → AllTargets n propagated.basic_blocks
      × (length propagated.basic_blocks ≡ length body.basic_blocks)
with_maps-AllTargets n body propagated none e h = absurd (ground arith)
with_maps-AllTargets n body propagated (some maps) e h =
    subst
      (λ (b : Body).
        AllTargets n b.basic_blocks × (length b.basic_blocks ≡ length body.basic_blocks))
      (some_inj.0 e)
      (
        replace_blocks-AllTargets n maps body.basic_blocks h,
        length-replace_blocks maps body.basic_blocks,
      )

-- What both passes give, where the propagation does not panic.
propagated-InRange :
    (fs : FloatOps) (body propagated : Body)
    → Sweep.run fs body ≡ some propagated
    → InRange body.basic_blocks
    → InRange (Dce.run propagated).basic_blocks
      × (length (Dce.run propagated).basic_blocks ≡ length body.basic_blocks)
unfolding Sweep.run Dce.run
propagated-InRange fs body propagated e range =
    let (targets, len) =
      with_maps-AllTargets (length body.basic_blocks) body propagated _ e range in
    let used : List LocalIdx = collect_used_locals propagated in
    let len' = length-retain used propagated.basic_blocks ∙ len in
    (
      subst (λ n. AllTargets n (map (retain_block used) propagated.basic_blocks)) (sym len')
          (retain-AllTargets (length body.basic_blocks) used propagated.basic_blocks targets),
      len',
    )

-- The second validation finds nothing else.
abbrev IsSubsliceCheck : Validation → Type 0
IsSubsliceCheck v = (v ≡ valid) ⊎ (v ≡ subslice_after_desugar)

then_check-IsSubsliceCheck :
    (v w : Validation) → IsSubsliceCheck v → IsSubsliceCheck w → IsSubsliceCheck (v then_check w)
then_check-IsSubsliceCheck v w (inl e) h = subst (λ v. IsSubsliceCheck (v then_check w)) (sym e) h
then_check-IsSubsliceCheck v w (inr e) h = inr (ap (λ v. v then_check w) e)

check_each-IsSubsliceCheck :
    {A : Type 0} (check : A → Validation) (xs : List A)
    → ((x : A) → IsSubsliceCheck (check x))
    → IsSubsliceCheck (check_each check xs)
check_each-IsSubsliceCheck check [] h = inl refl
check_each-IsSubsliceCheck check (x ∷ xs) h =
    then_check-IsSubsliceCheck (check x) (check_each check xs) (h x)
      (check_each-IsSubsliceCheck check xs h)

subslice_in-IsSubsliceCheck : (o : Option Place) → IsSubsliceCheck (subslice_in o)
subslice_in-IsSubsliceCheck none = inl refl
subslice_in-IsSubsliceCheck (some place) =
    if_either IsSubsliceCheck (has_subslice place.projection) subslice_after_desugar valid
      (inr refl) (inl refl)

statement-IsSubsliceCheck : (x : Statement) → IsSubsliceCheck (subslice_in_statement x)
statement-IsSubsliceCheck (assign place rvalue) = subslice_in-IsSubsliceCheck (rvalue_place rvalue)
statement-IsSubsliceCheck (storage_live local) = inl refl
statement-IsSubsliceCheck (storage_dead local) = inl refl
statement-IsSubsliceCheck nop = inl refl

terminator-IsSubsliceCheck : (t : Terminator) → IsSubsliceCheck (subslice_in_terminator t)
terminator-IsSubsliceCheck (drop_place place target cleanup) =
    subslice_in-IsSubsliceCheck (some place)
terminator-IsSubsliceCheck _ = inl refl

validate_no_subslice-IsSubsliceCheck : (body : Body) → IsSubsliceCheck (validate_no_subslice body)
unfolding validate_no_subslice
validate_no_subslice-IsSubsliceCheck body =
    check_each-IsSubsliceCheck subslice_in_block body.basic_blocks (λ block.
      then_check-IsSubsliceCheck (check_each subslice_in_statement block.statements)
        (subslice_in_terminator block.terminator)
        (check_each-IsSubsliceCheck subslice_in_statement block.statements
          statement-IsSubsliceCheck)
        (terminator-IsSubsliceCheck block.terminator))

abbrev nothing : Meaning (Unit {0})
nothing = record {
  statement = λ x s. some s;
  value = λ x s. none;
  holds = λ x s. none;
  calls = λ f xs p s. none;
  drops = λ p s. none;
}

-- For a body that `validate_body` passes, that has a block and at most 2^32 of them, and in which every
-- place that a statement or a terminator reads, borrows, writes or drops has a declared local:
-- `optimize` refuses a slice projection that the rewriting left, or panics in the propagation of
-- constants, or else returns a body whose targets are all among its blocks and whose blocks can all be
-- reached from the start.
pub optimize-InRange :
    (fuel : ℕ) (ctx : DropCtx) (fs : FloatOps) (body : Body)
    → validate_body fuel ctx body ≡ valid
    → All (DeclaredBlock ctx.types body.locals) body.basic_blocks
    → 0 < length body.basic_blocks
    → length body.basic_blocks ≤ 2 ^ 32
    → (optimize fuel ctx fs body ≡ rejected subslice_after_desugar)
      ⊎ ((desugared : Body) × (SliceDesugar.run ctx.types body ≡ some desugared)
          × (Sweep.run fs desugared ≡ none)
          × (optimize fuel ctx fs body ≡ optimize_panics))
      ⊎ ((new : Body) × (optimize fuel ctx fs body ≡ optimized new)
          × InRange new.basic_blocks
          × ((j : ℕ) → j < length new.basic_blocks → Reaches new.basic_blocks j))
unfolding optimize
optimize-InRange fuel ctx fs body checked declared some_block small =
    let (desugared, e, clean, len, range) =
      run-IsTerminal ctx.types body declared (validate_body-InRange fuel ctx body checked) in
    let rest : Body → Optimized = λ propagated. as_optimized (clean_graph (Dce.run propagated)) in
    let after : Body → Optimized =
      λ d. when_valid (validate_no_subslice d) (or_panics (Sweep.run fs d) rest) in
    let to_check : optimize fuel ctx fs body
        ≡ when_valid (validate_no_subslice desugared) (or_panics (Sweep.run fs desugared) rest) =
      ap (λ v. when_valid v (or_panics (SliceDesugar.run ctx.types body) after)) checked
      ∙ ap (λ o. or_panics o after) e in
    elim (validate_no_subslice-IsSubsliceCheck desugared) [
      | inr q ↦ inl (to_check ∙ ap (λ v. when_valid v (or_panics (Sweep.run fs desugared) rest)) q)
      | inl q ↦
          let to_sweep : optimize fuel ctx fs body ≡ or_panics (Sweep.run fs desugared) rest =
            to_check ∙ ap (λ v. when_valid v (or_panics (Sweep.run fs desugared) rest)) q in
          elim (Option-cases (Sweep.run fs desugared)) [
            | inl p ↦ inr (inl (desugared, e, p, to_sweep ∙ ap (λ o. or_panics o rest) p))
            | inr (propagated, p) ↦
                let (range', len') = propagated-InRange fs desugared propagated p range in
                let (some', small') : (0 < length (Dce.run propagated).basic_blocks)
                    × (length (Dce.run propagated).basic_blocks ≤ 2 ^ 32) =
                  (omega (arith, len, len'), omega (arith, len, len')) in
                let (new, c, in_range, reached, same) =
                  clean_graph-InRange nothing (Dce.run propagated) range' some' small' in
                inr (
                  inr (
                    new,
                    to_sweep ∙ ap (λ o. or_panics o rest) p ∙ ap as_optimized c,
                    in_range,
                    reached,
                  ))
          ]
    ]
