-- ===== src/Borrowck/Tests.antt =====
-- The analyses of the borrow checker on small bodies (crates/glyim-borrowck/src).
use glyim_v.Prelude.{
  ℕ, ◌+◌, ◌<◌, ◌≡◌, refl, sym, ap, ◌∙◌, Bool, true, false, none, some, List, [], ◌∷◌, length, arith,
}
use glyim_v.Mir.Types.{
  Place, ProjectionElem, index, constant_index, subslice, copy, constant, mir_uint, deref, field,
  use_of, binary_op, add_op, Statement, assign, Terminator, goto, switch_int, drop_place, return,
  BasicBlockData, Body,
}
use glyim_v.Borrowck.BitLists.{bit_lists}
use glyim_v.Borrowck.Worklist.{at, visit_block, drain, enqueue}
use glyim_v.Borrowck.Visitor.{
  walk_operand_reads, walk_rvalue_reads, walk_terminator_reads, successor_blocks,
}
use glyim_v.Borrowck.Liveness.{
  statements_capacity, terminator_capacity, blocks_capacity, local_capacity, edges_into,
  predecessors_of, targets_below, blocks_below, edges_from, all_blocks, no_block, visit_use,
  visit_gen, summarize_statements, define_destination, summarize_block, compute_block_summaries,
  union_of, flow_back, mark_all, computed, live_outs, outcome_of, drain_from, live_loop,
  compute_liveness, before_statement, stmt_liveness, compute_stmt_liveness,
}
use glyim_v.Borrowck.Liveness.Paths.{HasTargets, IsDeclared}
use glyim_v.Borrowck.Liveness.Uses.{UsedOut}
use glyim_v.Borrowck.Liveness.Used.{compute_liveness_sound}
use glyim_v.Borrowck.Conflict.{places_conflict, projections_conflict, compare_elems}
use glyim_v.Borrowck.Conflict.Regions.{
  Step, to_field, to_element, Covers, places_conflict-overlap, places_conflict_comm,
}

abbrev whole : ℕ → Place
whole l = record { local = l; projection = [] }

abbrev block : List Statement → Terminator → BasicBlockData
block statements terminator = record {
  statements = statements;
  terminator = terminator;
  is_cleanup = false;
}

abbrev body_of : List BasicBlockData → Body
body_of blocks = record {
  basic_blocks = blocks;
  locals = 0 ∷ 0 ∷ 0 ∷ [];
  arg_count = 0;
  return_ty = 0;
}

abbrev set_seven : Place → Statement
set_seven p = assign p (use_of (constant (mir_uint 7 0)))

abbrev read_into : ℕ → Place → Statement
read_into l p = assign (whole l) (use_of (copy p))

-- `_1` is set before a loop and read after it; `_2` counts in the loop.
abbrev looping : Body
looping = body_of (
    block (set_seven (whole 1) ∷ set_seven (whole 2) ∷ []) (goto 1)
    ∷ block (assign (whole 2) (binary_op add_op (copy (whole 2)) (copy (whole 2))) ∷ [])
        (switch_int (copy (whole 2)) 0 (record { branches = (7, 1) ∷ []; otherwise = 2 }))
    ∷ block (read_into 0 (whole 1) ∷ []) return
    ∷ [])

-- `_0 = _1[_2]`, and then `_1` is dropped.
abbrev dropping : Body
dropping = body_of (
    block (read_into 0 (record { local = 1; projection = index 2 ∷ [] }) ∷ []) (goto 1)
    ∷ block [] (drop_place (whole 1) 2 none)
    ∷ block [] return
    ∷ [])

dropping-HasTargets : HasTargets dropping.basic_blocks
unfolding successor_blocks
dropping-HasTargets = omega arith

dropping-IsDeclared : IsDeclared dropping
dropping-IsDeclared = omega arith

compute_liveness_sound_example :
    (out : List (List Bool)) × (compute_liveness bit_lists dropping ≡ computed out)
    × (length out ≡ 3)
    × ((i l : ℕ)
        → i < 3
        → bit_lists.has (at (bit_lists.with_capacity (local_capacity dropping)) out i) l ≡ true
        → UsedOut dropping.basic_blocks l (at no_block dropping.basic_blocks i).terminator)
compute_liveness_sound_example =
    compute_liveness_sound bit_lists dropping dropping-HasTargets dropping-IsDeclared

looping_now :
    compute_liveness bit_lists looping
    ≡ computed (
        (false ∷ true ∷ true ∷ []) ∷ (false ∷ true ∷ true ∷ []) ∷ (false ∷ false ∷ false ∷ []) ∷ [])
unfolding compute_liveness local_capacity blocks_capacity statements_capacity terminator_capacity
    compute_block_summaries summarize_block summarize_statements walk_rvalue_reads
    walk_operand_reads walk_terminator_reads visit_use define_destination blocks_below targets_below
    successor_blocks live_loop drain_from outcome_of mark_all drain visit_block enqueue flow_back
    union_of predecessors_of edges_into edges_from all_blocks live_outs
looping_now = refl

-- `_2 = 7; switch _2`: after the statement, `_2` is not taken for live.
last_read_is_missed :
    compute_stmt_liveness bit_lists
      (body_of (
        block
          (set_seven (whole 2) ∷ [])
          (switch_int (copy (whole 2)) 0 (record { branches = []; otherwise = 1 }))
        ∷ block [] return
        ∷ []))
      0
      (false ∷ false ∷ false ∷ [])
    ≡ some ((false ∷ false ∷ false ∷ []) ∷ (false ∷ false ∷ false ∷ []) ∷ [])
unfolding compute_stmt_liveness stmt_liveness before_statement visit_gen walk_rvalue_reads
    walk_operand_reads
last_read_is_missed = refl

-- `_1` before `*_1 = 7` and before `_1.0 = 7; _0 = _1`: the write through a part of it ends its life.
write_through_ends :
    (before_statement bit_lists
        (set_seven (record { local = 1; projection = deref ∷ [] }))
        (false ∷ false ∷ false ∷ [])
      ≡ some (false ∷ false ∷ false ∷ []))
    × (stmt_liveness bit_lists
          (set_seven (record { local = 1; projection = field 0 ∷ [] }) ∷ read_into 0 (whole 1) ∷ [])
          (false ∷ false ∷ false ∷ [])
        ≡ some (
            (false ∷ false ∷ false ∷ [])
            ∷ (false ∷ true ∷ false ∷ [])
            ∷ (false ∷ false ∷ false ∷ [])
            ∷ []))
unfolding stmt_liveness before_statement visit_gen walk_rvalue_reads walk_operand_reads
write_through_ends = (refl, refl)

-- `_2` is not live before `_0 = _1[_2]`.
index_is_missed :
    before_statement bit_lists
      (read_into 0 (record { local = 1; projection = index 2 ∷ [] }))
      (false ∷ false ∷ false ∷ [])
    ≡ some (false ∷ true ∷ false ∷ [])
unfolding before_statement visit_gen walk_rvalue_reads walk_operand_reads
index_is_missed = refl

abbrev of_local_1 : List ProjectionElem → Place
of_local_1 projection = record { local = 1; projection = projection }

-- `_1[_2].0` and `_1[_2]`, where `_2` is 5.
abbrev element : List ProjectionElem → Place
element rest = of_local_1 (index 2 ∷ rest)

-- Each element is one cell, its field.
abbrev IsElement : List Step → Type 0
IsElement c = (i : ℕ) × (c ≡ to_element i ∷ to_field 0 ∷ [])

abbrev element_address : List Step → ℕ
element_address (to_element i ∷ c) = i
element_address c = 0

element_address-unshared :
    (c d : List Step) → IsElement c → IsElement d → element_address c ≡ element_address d → c ≡ d
element_address-unshared c d (i, p) (j, q) e =
    let same : i ≡ j = sym (ap element_address p) ∙ e ∙ ap element_address q in
    p ∙ ap (λ k. to_element k ∷ to_field 0 ∷ []) same ∙ sym q

places_conflict-overlap_example : places_conflict (element (field 0 ∷ [])) (element []) ≡ true
places_conflict-overlap_example =
    places_conflict-overlap (λ l. l + 3) IsElement element_address (element (field 0 ∷ []))
      (element []) (to_element 5 ∷ to_field 0 ∷ []) (to_element 5 ∷ to_field 0 ∷ []) (tt, (tt, tt))
      (tt, tt) (λ l k p q e. omega (arith, e)) element_address-unshared refl (refl, (refl, tt))
      (5, refl) (refl, tt) (5, refl) refl

-- `_1.0` and `_1.1`, which have cells in common where `_1` is a union.
union_fields_are_missed :
    places_conflict (of_local_1 (field 0 ∷ [])) (of_local_1 (field 1 ∷ [])) ≡ false
unfolding places_conflict projections_conflict compare_elems
union_fields_are_missed = refl

places_conflict_comm_example :
    places_conflict (element (field 0 ∷ [])) (of_local_1 (subslice 2 4 true ∷ []))
    ≡ places_conflict (of_local_1 (subslice 2 4 true ∷ [])) (element (field 0 ∷ []))
places_conflict_comm_example =
    places_conflict_comm (element (field 0 ∷ [])) (of_local_1 (subslice 2 4 true ∷ []))

-- `_1[_2]` and `_1[_3]` have a path in common where `_2` and `_3` are equal.
equal_index_is_missed :
    (places_conflict (of_local_1 (index 2 ∷ [])) (of_local_1 (index 3 ∷ [])) ≡ false)
    × Covers (λ l. 7) (index 2 ∷ []) (to_element 7 ∷ [])
    × Covers (λ l. 7) (index 3 ∷ []) (to_element 7 ∷ [])
unfolding places_conflict projections_conflict compare_elems
equal_index_is_missed = (refl, (refl, tt), (refl, tt))

abbrev nth : ℕ → ProjectionElem
nth offset = constant_index offset 0 false

-- `_1[0..3][1]` and `_1[1][0]` have a path in common.
sliced_element_is_missed :
    (places_conflict
        (of_local_1 (subslice 0 3 false ∷ nth 1 ∷ []))
        (of_local_1 (nth 1 ∷ nth 0 ∷ []))
      ≡ false)
    × Covers (λ l. 0) (subslice 0 3 false ∷ nth 1 ∷ []) (to_element 1 ∷ to_element 0 ∷ [])
    × Covers (λ l. 0) (nth 1 ∷ nth 0 ∷ []) (to_element 1 ∷ to_element 0 ∷ [])
unfolding places_conflict projections_conflict compare_elems
sliced_element_is_missed = (refl, omega arith, omega arith)
