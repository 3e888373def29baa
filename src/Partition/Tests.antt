-- ===== src/Partition/Tests.antt =====
-- A partition into two units (crates/glyim-lower/src/partition.rs).
use glyim_v.Prelude.{ℕ, ◌≡◌, refl, List, [], ◌∷◌, arith}
use glyim_v.Partition.{
  grouped, push_entry, module_groups, insert_sorted, sort, sorted_values, smallest_from,
  largest_from, remove, extend_at, merge_equal, merge_into, round, merge_groups, partition,
}
use glyim_v.Partition.Covers.{IsGrouping, partition-IsGrouping}

-- Items of the modules 7, 5, 7, 9: the smallest unit, that of module 5, joins the largest.
abbrev items : List ℕ
items = 7 ∷ 5 ∷ 7 ∷ 9 ∷ []

partition-items : partition items 2 ≡ grouped ((0 ∷ 1 ∷ 2 ∷ []) ∷ (3 ∷ []) ∷ [])
unfolding push_entry module_groups insert_sorted sort sorted_values smallest_from largest_from
    remove extend_at merge_equal merge_into round merge_groups partition
partition-items = refl

partition-IsGrouping_example : IsGrouping 3 2 1 (partition items 2)
partition-IsGrouping_example = partition-IsGrouping items 2 3 (omega arith)
