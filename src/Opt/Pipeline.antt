-- ===== src/Opt/Pipeline.antt =====
-- The last two passes of `optimize` one after the other, on a body that was validated
-- (crates/glyim-opt/src/lib.rs).
use glyim_v.Prelude.{ℕ, ◌≤◌, ◌<◌, ◌^◌, ◌≡◌, sym, ap, ◌∙◌, List, length, arith}
use glyim_v.Mir.Types.{BasicBlockData, Body}
use glyim_v.Mir.Drop.{DropCtx}
use glyim_v.Opt.Semantics.{Meaning, run_from}
use glyim_v.Opt.Outcomes.{Ends-run_from, run_from-Ends, Ends-IsEnd}
use glyim_v.Opt.Unreachable.{Pass, passed, pass_panics, pass_no_fuel}
use glyim_v.Opt.Unreachable.Reach.{InRange, Reaches}
use glyim_v.Opt.Unreachable.Keeps.{run-run_from, run-InRange}
use glyim_v.Opt.CfgSimplify.Rounds.{SameEnds, SameEnds-trans}
use glyim_v.Opt.CfgSimplify.Keeps.{run-SameEnds}
use glyim_v.Opt.Validate.{valid, validate_body}
use glyim_v.Opt.Validate.Sound.{validate_body-InRange}
use glyim_v.Opt.Unreachable
use glyim_v.Opt.CfgSimplify

abbrev pub then_pass : Pass → (Body → Pass) → Pass
then_pass (passed body) pass = pass body
then_pass pass_panics pass = pass_panics
then_pass pass_no_fuel pass = pass_no_fuel

-- `cfg_simplify::run` and `unreachable_elim::run`.
unfoldable pub clean_graph : Body → Pass
clean_graph body = then_pass (CfgSimplify.run body) Unreachable.run

abbrev body_of : Body → Pass → Body
body_of default (passed body) = body
body_of default pass_panics = default
body_of default pass_no_fuel = default

passed_inj : {a b : Body} → passed a ≡ passed b → a ≡ b
passed_inj {a} e = ap (body_of a) e

module _ {S : Type 0} (m : Meaning S) where
  -- Equal runs have equal ends.
  same_runs-SameEnds :
      (old new : List BasicBlockData)
      → ((fuel : ℕ) (s : S) → run_from m fuel new 0 s ≡ run_from m fuel old 0 s)
      → SameEnds m old new
  same_runs-SameEnds old new same s r = (
    (λ d.
        let (fuel, e) = Ends-run_from m new 0 s r d in
        run_from-Ends m old fuel 0 s r (sym (same fuel s) ∙ e) (Ends-IsEnd m new 0 s r d)),
    λ d.
        let (fuel, e) = Ends-run_from m old 0 s r d in
        run_from-Ends m new fuel 0 s r (same fuel s ∙ e) (Ends-IsEnd m old 0 s r d),
  )

  -- The two passes on a body whose targets are among its blocks.
  pub clean_graph-InRange :
      (body : Body)
      → InRange body.basic_blocks
      → 0 < length body.basic_blocks
      → length body.basic_blocks ≤ 2 ^ 32
      → (new : Body) × (clean_graph body ≡ passed new)
        × InRange new.basic_blocks
        × ((j : ℕ) → j < length new.basic_blocks → Reaches new.basic_blocks j)
        × SameEnds m body.basic_blocks new.basic_blocks
  unfolding clean_graph
  clean_graph-InRange body in_range some_block small =
      let (mid, e, range, some', le, done, same) = run-SameEnds m body in_range some_block small in
      let small' : length mid.basic_blocks ≤ 2 ^ 32 = omega (arith, le) in
      let (new, q, range', reached) = run-InRange mid range some' small' in
      (
        new,
        ap (λ p. then_pass p Unreachable.run) e ∙ q,
        range',
        reached,
        SameEnds-trans m body.basic_blocks mid.basic_blocks new.basic_blocks same (
            same_runs-SameEnds mid.basic_blocks new.basic_blocks (λ fuel s.
              let (new', q', runs) = run-run_from mid range some' small' m fuel s in
              ap (λ (b : Body). run_from m fuel b.basic_blocks 0 s) (passed_inj (sym q ∙ q'))
              ∙ runs)),
      )

  -- For a validated body that has a block and at most 2^32 of them: the two passes return a body; its
  -- targets are all among its blocks, and a path of edges leads from the start to each block; and it ends
  -- in the results that the validated body ends in, for every meaning and every state.
  pub clean_graph-SameEnds :
      (fuel : ℕ) (ctx : DropCtx) (body : Body)
      → validate_body fuel ctx body ≡ valid
      → 0 < length body.basic_blocks
      → length body.basic_blocks ≤ 2 ^ 32
      → (new : Body) × (clean_graph body ≡ passed new)
        × InRange new.basic_blocks
        × ((j : ℕ) → j < length new.basic_blocks → Reaches new.basic_blocks j)
        × SameEnds m body.basic_blocks new.basic_blocks
  clean_graph-SameEnds fuel ctx body checked some_block small =
      clean_graph-InRange body (validate_body-InRange fuel ctx body checked) some_block small
