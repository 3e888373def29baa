-- ===== src/Opt/Tests.antt =====
-- The passes over the graph of blocks, on small bodies (crates/glyim-opt/src).
use glyim_v.Prelude.{
  ◌⊎◌, ℕ, suc, ◌≤◌, ◌<◌, ◌≡◌, ◌↔◌, refl, true, false, contains, Option, none, some, List, [], ◌∷◌,
  length, arith,
}
use glyim_v.Mir.Types.{
  subslice, field, copy, use_of, assign, Statement, storage_live, nop, goto, switch_int, return,
  BasicBlockData, Body,
}
use glyim_v.Mir.Drop.{
  place_ty, project_all, needs_drop, needs_drop_rec, is_copy, copy_kind, drop_kind,
}
use glyim_v.Opt.Edges.{terminator_successors}
use glyim_v.Opt.Semantics.{Meaning, run_from}
use glyim_v.Opt.Unreachable
use glyim_v.Opt.Unreachable.{found, search_loop, edge_count, reachable_set, passed}
use glyim_v.Opt.Unreachable.Reach.{InRange, Reaches, IsDistinct, reachable_set-Reaches}
use glyim_v.Opt.Unreachable.Keeps.{run-run_from, run-InRange}
use glyim_v.Opt.CfgSimplify
use glyim_v.Opt.CfgSimplify.{round}
use glyim_v.Opt.CfgSimplify.Rounds.{SameEnds}
use glyim_v.Opt.CfgSimplify.Keeps.{run-SameEnds}
use glyim_v.Opt.Validate.{
  valid, subslice_after_desugar, validate_body, check_rvalue_places, visit_place, check_terminator,
  check_target, check_drop,
}
use glyim_v.Opt.Validate.Places.{IsWellFormed, HasTerminalTargets, validate_body-IsWellFormed}
use glyim_v.Opt.ConstProp.Sweep
use glyim_v.Opt.SliceDesugar
use glyim_v.Opt.Optimize.{optimize, optimized, rejected, optimize_panics, optimize-InRange}
use glyim_v.Opt.Pipeline.{clean_graph, clean_graph-SameEnds}
use glyim_v.Opt.Bodies.{block, local_1, drop_ctx, dropping, no_floats}

-- 0 goes to 2, which goes to 3 or 4; nothing leads to 1; 3 goes to 4.
abbrev blocks : List BasicBlockData
blocks =
    block (storage_live 1 ∷ []) (goto 2)
    ∷ block (nop ∷ []) (goto 3)
    ∷ block (storage_live 2 ∷ [])
        (switch_int local_1 0 (record { branches = (7, 3) ∷ []; otherwise = 4 }))
    ∷ block (storage_live 3 ∷ []) (goto 4)
    ∷ block [] return
    ∷ []

abbrev body : Body
body = record { basic_blocks = blocks; locals = 0 ∷ 0 ∷ []; arg_count = 0; return_ty = 0 }

-- The state is how many locals are live; the switch reads it.
abbrev live_after : Statement → ℕ → Option ℕ
live_after (storage_live l) n = some (suc n)
live_after _ n = some n

abbrev counting : Meaning ℕ
counting = record {
  statement = live_after;
  value = λ _ n. some n;
  holds = λ _ n. some true;
  calls = λ _ _ _ n. none;
  drops = λ _ n. none;
}

in_range : InRange blocks
unfolding terminator_successors
in_range = (
  (omega arith, tt),
  ((omega arith, tt), ((omega arith, (omega arith, tt)), ((omega arith, tt), (tt, tt)))),
)

reachable_set-Reaches_example :
    (r : List ℕ) × (reachable_set blocks ≡ found r)
    × ((i : ℕ) → (contains r i ≡ true) ↔ Reaches blocks i)
    × IsDistinct r
reachable_set-Reaches_example = reachable_set-Reaches blocks in_range (omega arith)

run-run_from_example :
    (body' : Body) × (Unreachable.run body ≡ passed body')
    × (run_from counting 9 body'.basic_blocks 0 3 ≡ run_from counting 9 blocks 0 3)
run-run_from_example = run-run_from body in_range (omega arith) (omega arith) counting 9 3

run-InRange_example :
    (body' : Body) × (Unreachable.run body ≡ passed body')
    × InRange body'.basic_blocks
    × ((j : ℕ) → j < length body'.basic_blocks → Reaches body'.basic_blocks j)
run-InRange_example = run-InRange body in_range (omega arith) (omega arith)

run-SameEnds_example :
    (body' : Body) × (CfgSimplify.run body ≡ passed body')
    × InRange body'.basic_blocks
    × (0 < length body'.basic_blocks)
    × (length body'.basic_blocks ≤ 5)
    × ((round body'.basic_blocks).delete ≡ [])
    × SameEnds counting blocks body'.basic_blocks
run-SameEnds_example = run-SameEnds counting body in_range (omega arith) (omega arith)

reachable_now : reachable_set blocks ≡ found (3 ∷ 4 ∷ 2 ∷ 0 ∷ [])
unfolding reachable_set search_loop edge_count terminator_successors contains
reachable_now = refl

dropping-HasTerminalTargets : HasTerminalTargets dropping.basic_blocks
dropping-HasTerminalTargets = ((tt, (λ i elem e k. absurd (ground arith), tt)), ((tt, tt), tt))

validate_body-IsWellFormed_example :
    (validate_body 3 drop_ctx dropping ≡ valid) ↔ IsWellFormed 3 drop_ctx dropping
validate_body-IsWellFormed_example =
    validate_body-IsWellFormed 3 drop_ctx dropping dropping-HasTerminalTargets

dropping_is_valid : validate_body 3 drop_ctx dropping ≡ valid
unfolding validate_body check_terminator check_target check_drop place_ty project_all needs_drop
    needs_drop_rec is_copy copy_kind drop_kind contains
dropping_is_valid = refl

-- `_0[0..1].0 = _1`: the target of the assignment has a slice projection that is not its last.
abbrev sliced_target : Body
sliced_target = record dropping {
  basic_blocks =
      block
        (assign (record { local = 0; projection = subslice 0 1 false ∷ field 0 ∷ [] })
            (use_of (copy (record { local = 1; projection = [] })))
          ∷ [])
        return
      ∷ [];
}

target_is_missed : validate_body 3 drop_ctx sliced_target ≡ valid
unfolding validate_body check_terminator check_rvalue_places visit_place
target_is_missed = refl

clean_graph-SameEnds_example :
    (new : Body) × (clean_graph dropping ≡ passed new)
    × InRange new.basic_blocks
    × ((j : ℕ) → j < length new.basic_blocks → Reaches new.basic_blocks j)
    × SameEnds counting dropping.basic_blocks new.basic_blocks
clean_graph-SameEnds_example =
    clean_graph-SameEnds counting 3 drop_ctx dropping dropping_is_valid (omega arith) (omega arith)

optimize-InRange_example :
    (optimize 3 drop_ctx no_floats dropping ≡ rejected subslice_after_desugar)
    ⊎ ((desugared : Body) × (SliceDesugar.run drop_ctx.types dropping ≡ some desugared)
        × (Sweep.run no_floats desugared ≡ none)
        × (optimize 3 drop_ctx no_floats dropping ≡ optimize_panics))
    ⊎ ((new : Body) × (optimize 3 drop_ctx no_floats dropping ≡ optimized new)
        × InRange new.basic_blocks
        × ((j : ℕ) → j < length new.basic_blocks → Reaches new.basic_blocks j))
optimize-InRange_example =
    optimize-InRange 3 drop_ctx no_floats dropping dropping_is_valid
      ((tt, (omega arith, tt)), ((tt, tt), tt)) (omega arith) (omega arith)
