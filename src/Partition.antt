-- ===== src/Partition.antt =====
-- Codegen-unit partitioning (crates/glyim-lower/src/partition.rs). An item is its source module; a
-- `BTreeMap` is an association list in the order of its keys, and `sort_unstable` an insertion sort.
pub mod Counts
pub mod Covers
mod Tests
use glyim_v.Prelude.{
  ℕ, zero, suc, ◌+◌, ◌-◌, Option, none, some, List, [], ◌∷◌, ◌++◌, length, map, ltb, leb, ◌==◌,
  if◌then◌else◌,
}

-- The loop panics where an `expect` or an index fails; `no_fuel` is a loop that is cut off.
pub data Outcome : Type 0 where
  grouped : List (List ℕ) → Outcome
  panics no_fuel : Outcome

-- `entry(module).or_default().push(idx)`
unfoldable pub push_entry : ℕ → ℕ → List (ℕ × List ℕ) → List (ℕ × List ℕ)
push_entry key idx [] = (key, idx ∷ []) ∷ []
push_entry key idx ((k, g) ∷ entries) =
    let rest = push_entry key idx entries in
    if key == k
    then (k, g ++ (idx ∷ [])) ∷ entries
    else if ltb key k
    then (key, idx ∷ []) ∷ (k, g) ∷ entries
    else (k, g) ∷ rest

unfoldable pub module_groups : ℕ → List ℕ → List (ℕ × List ℕ) → List (ℕ × List ℕ)
module_groups idx [] entries = entries
module_groups idx (source_module ∷ items) entries =
    module_groups (suc idx) items (push_entry source_module idx entries)

unfoldable pub insert_sorted : ℕ → List ℕ → List ℕ
insert_sorted x [] = x ∷ []
insert_sorted x (y ∷ ys) = let rest = insert_sorted x ys in if leb x y then x ∷ y ∷ ys else y ∷ rest

unfoldable pub sort : List ℕ → List ℕ
sort [] = []
sort (x ∷ xs) = insert_sorted x (sort xs)

unfoldable pub sorted_values : List (ℕ × List ℕ) → List (List ℕ)
sorted_values [] = []
sorted_values ((k, g) ∷ entries) = sort g ∷ sorted_values entries

-- `min_by_key` keeps the first of equal elements, `max_by_key` the last: the best index so far, its
-- length, and the index of the next group.
unfoldable pub smallest_from : ℕ → ℕ → ℕ → List (List ℕ) → ℕ
smallest_from best len i [] = best
smallest_from best len i (g ∷ gs) =
    let taken = smallest_from i (length g) (suc i) gs in
    let kept = smallest_from best len (suc i) gs in if ltb (length g) len then taken else kept

unfoldable pub largest_from : ℕ → ℕ → ℕ → List (List ℕ) → ℕ
largest_from best len i [] = best
largest_from best len i (g ∷ gs) =
    let taken = largest_from i (length g) (suc i) gs in
    let kept = largest_from best len (suc i) gs in if leb len (length g) then taken else kept

-- `Vec::remove`
unfoldable pub remove : ℕ → List (List ℕ) → Option (List ℕ × List (List ℕ))
remove i [] = none
remove zero (g ∷ gs) = some (g, gs)
remove (suc i) (g ∷ gs) = elim (remove i gs) [ none ↦ none | some (r, rest) ↦ some (r, g ∷ rest) ]

-- `groups[target].append(..)` and the sort of that group.
unfoldable pub extend_at : ℕ → List ℕ → List (List ℕ) → Option (List (List ℕ))
extend_at target extra [] = none
extend_at zero extra (g ∷ gs) = some (sort (g ++ extra) ∷ gs)
extend_at (suc target) extra (g ∷ gs) = elim (extend_at target extra gs) [
  | none ↦ none
  | some rest ↦ some (g ∷ rest)
]

pub data Round : Type 0 where
  merged : List (List ℕ) → Round
  stopped crashed : Round

abbrev pub or_crash : Option (List (List ℕ)) → Round
or_crash none = crashed
or_crash (some gs) = merged gs

-- The second of equal groups goes into the first.
unfoldable pub merge_equal : List (List ℕ) → Round
merge_equal (first ∷ second ∷ rest) = merged (sort (first ++ second) ∷ rest)
merge_equal _ = stopped

unfoldable pub merge_into : ℕ → ℕ → List (List ℕ) → Round
merge_into smallest_idx largest_idx groups = elim (remove smallest_idx groups) [
  | none ↦ crashed
  | some (smallest, others) ↦ or_crash (
      extend_at (if ltb smallest_idx largest_idx then largest_idx - 1 else largest_idx) smallest
        others)
]

-- One round of the `while` loop.
unfoldable pub round : List (List ℕ) → Round
round [] = crashed
round (g ∷ gs) =
    let smallest_idx = smallest_from 0 (length g) 1 gs in
    let largest_idx = largest_from 0 (length g) 1 gs in
    if smallest_idx == largest_idx
    then merge_equal (g ∷ gs)
    else merge_into smallest_idx largest_idx (g ∷ gs)

unfoldable pub merge_groups : ℕ → ℕ → List (List ℕ) → Outcome
merge_groups zero max_cgus groups = if leb (length groups) max_cgus then grouped groups else no_fuel
merge_groups (suc fuel) max_cgus groups =
    let next : Outcome = (elim (round groups) [
      | merged groups' ↦ merge_groups fuel max_cgus groups'
      | stopped ↦ grouped groups
      | crashed ↦ panics
    ]) in
    if leb (length groups) max_cgus then grouped groups else next

unfoldable pub partition : List ℕ → ℕ → Outcome
partition [] max_cgus = grouped []
partition (item ∷ items) max_cgus =
    let groups = sorted_values (module_groups 0 (item ∷ items) []) in
    merge_groups (length groups) max_cgus groups
