-- ===== src/Opt/ConstProp/Sweep.antt =====
-- `run` (crates/glyim-opt/src/constant_prop.rs): the sweeps over the blocks, and the replacement. A panic
-- is in the arithmetic, or the type of a local that is not declared.
use glyim_v.Prelude.{
  ℕ, zero, suc, ◌+◌, ◌==◌, Bool, true, false, not, Option, none, some, List, [], ◌∷◌, length,
  get_elem?, set, replicate, if◌then◌else◌,
}
use glyim_v.Layout.Types.{Ty}
use glyim_v.Mir.Types.{
  LocalIdx, Rvalue, Statement, assign, storage_live, storage_dead, nop, BasicBlockData, Body,
}
use glyim_v.Opt.CfgSimplify.{predecessors, block_at}
use glyim_v.Opt.Dce.{is_bare}
use glyim_v.Opt.ConstProp.{BlockMap, remove, insert, maps_equal, merge_maps, replace_in_rvalue}
use glyim_v.Opt.ConstProp.Evaluate.{
  FloatOps, Folded, constant_is, not_constant, fold_panics, evaluate_rvalue_to_const,
}

abbrev pub in_map_at : List (Option BlockMap) → ℕ → Option BlockMap
in_map_at [] i = none
in_map_at (m ∷ maps) zero = m
in_map_at (m ∷ maps) (suc i) = in_map_at maps i

abbrev pub merge_known : BlockMap → Option BlockMap → BlockMap
merge_known incoming none = incoming
merge_known incoming (some out) = merge_maps incoming out

abbrev pub incoming_map : List ℕ → List (Option BlockMap) → BlockMap → BlockMap
incoming_map [] in_maps incoming = incoming
incoming_map (p ∷ preds) in_maps incoming =
    incoming_map preds in_maps (merge_known incoming (in_map_at in_maps p))

abbrev pub record_constant : LocalIdx → BlockMap → Folded → Option BlockMap
record_constant l out (constant_is c) = some (insert out l (some c))
record_constant l out not_constant = some out
record_constant l out fold_panics = none

abbrev pub evaluate_at : FloatOps → Rvalue → LocalIdx → BlockMap → Option Ty → Option BlockMap
evaluate_at fs rvalue l out none = none
evaluate_at fs rvalue l out (some ty) =
    record_constant l out (evaluate_rvalue_to_const fs rvalue out ty)

-- The right-hand side is evaluated after the local is taken out of the map.
unfoldable pub flow : FloatOps → List Ty → Statement → BlockMap → Option BlockMap
flow fs locals (assign place rvalue) out =
    let evaluated =
      evaluate_at fs rvalue place.local (remove out place.local) (get_elem? locals place.local) in
    if is_bare place.projection then evaluated else some (remove out place.local)
flow fs locals (storage_live local) out = some out
flow fs locals (storage_dead local) out = some out
flow fs locals nop out = some out

abbrev pub then_flow : Option BlockMap → (BlockMap → Option BlockMap) → Option BlockMap
then_flow none f = none
then_flow (some out) f = f out

unfoldable pub flow_all : FloatOps → List Ty → List Statement → BlockMap → Option BlockMap
flow_all fs locals [] out = some out
flow_all fs locals (statement ∷ statements) out =
    then_flow (flow fs locals statement out) (flow_all fs locals statements)

abbrev pub is_changed : Option BlockMap → BlockMap → Bool
is_changed none out = true
is_changed (some old) out = not (maps_equal old out)

pub record Sweep : Type 0 where
  pub in_maps : List (Option BlockMap)
  pub changed : Bool

abbrev pub update : ℕ → Sweep → Option BlockMap → Option Sweep
update i st none = none
update i st (some out) =
    if is_changed (in_map_at st.in_maps i) out
    then some (record { in_maps = set st.in_maps i (some out); changed = true })
    else some st

abbrev pub has_none : List ℕ → Bool
has_none [] = true
has_none (p ∷ preds) = false

abbrev pub then_sweep : Option Sweep → (Sweep → Option Sweep) → Option Sweep
then_sweep none f = none
then_sweep (some st) f = f st

module _ (fs : FloatOps) (body : Body) where
  -- The round of the `for` loop for the block `i`.
  unfoldable pub sweep_block : ℕ → Sweep → Option Sweep
  sweep_block i st =
      let preds = predecessors i 0 body.basic_blocks in
      let updated = update i st (
        flow_all fs body.locals (block_at body.basic_blocks i).statements
          (incoming_map preds st.in_maps [])) in
      if has_none preds then (if i == 0 then updated else some st) else updated

  unfoldable pub sweep_from : ℕ → ℕ → Sweep → Option Sweep
  sweep_from zero i st = some st
  sweep_from (suc n) i st = then_sweep (sweep_block i st) (sweep_from n (i + 1))

  abbrev pub again :
      Option Sweep
      → (List (Option BlockMap) → Option (List (Option BlockMap)))
      → Option (List (Option BlockMap))
  again none f = none
  again (some st) f = if st.changed then f st.in_maps else some st.in_maps

  -- The `while` loop, with what is left of `MAX_ITERATIONS`.
  unfoldable pub iterate : ℕ → List (Option BlockMap) → Option (List (Option BlockMap))
  iterate zero in_maps = some in_maps
  iterate (suc iterations) in_maps =
      again
        (sweep_from (length body.basic_blocks) 0 (record { in_maps = in_maps; changed = false }))
        (iterate iterations)

abbrev pub replace_statement : BlockMap → Statement → Statement
replace_statement locals (assign place rvalue) = assign place (replace_in_rvalue rvalue locals)
replace_statement locals (storage_live local) = storage_live local
replace_statement locals (storage_dead local) = storage_dead local
replace_statement locals nop = nop

abbrev pub replace_statements : BlockMap → List Statement → List Statement
replace_statements locals [] = []
replace_statements locals (x ∷ xs) = replace_statement locals x ∷ replace_statements locals xs

abbrev pub replace_block : Option BlockMap → BasicBlockData → BasicBlockData
replace_block none block = block
replace_block (some locals) block = record block {
  statements = replace_statements locals block.statements;
}

unfoldable pub replace_blocks : List (Option BlockMap) → List BasicBlockData → List BasicBlockData
replace_blocks in_maps [] = []
replace_blocks [] (block ∷ blocks) = block ∷ blocks
replace_blocks (m ∷ in_maps) (block ∷ blocks) =
    replace_block m block ∷ replace_blocks in_maps blocks

abbrev pub max_iterations : ℕ
max_iterations = 1000

abbrev pub with_maps : Body → Option (List (Option BlockMap)) → Option Body
with_maps body none = none
with_maps body (some in_maps) =
    some (record body { basic_blocks = replace_blocks in_maps body.basic_blocks })

unfoldable pub run : FloatOps → Body → Option Body
run fs body =
    with_maps body (iterate fs body max_iterations (replicate (length body.basic_blocks) none))
