-- ===== src/Partition/Counts.antt =====
-- Every item is in one group, once (crates/glyim-lower/src/partition.rs).
use glyim_v.Prelude.{
  ℕ, zero, suc, ◌+◌, ◌<◌, ◌≡◌, refl, some, List, [], ◌∷◌, ◌++◌, length, ltb, leb, ◌==◌,
  if◌then◌else◌, arith,
}
use glyim_v.Partition.{
  push_entry, module_groups, insert_sorted, sort, sorted_values, smallest_from, largest_from,
  remove, extend_at,
}

-- How often a number stands in a list, and in all the groups.
unfoldable pub count : ℕ → List ℕ → ℕ
count x [] = 0
count x (y ∷ ys) = (if x == y then 1 else 0) + count x ys

unfoldable pub total : ℕ → List (List ℕ) → ℕ
total x [] = 0
total x (g ∷ gs) = count x g + total x gs

pub count-append : (x : ℕ) (xs ys : List ℕ) → count x (xs ++ ys) ≡ count x xs + count x ys
unfolding count
count-append x [] ys = omega arith
count-append x (y ∷ xs) ys = omega (arith, count-append x xs ys)

count-insert_sorted :
    (x y : ℕ) (ys : List ℕ) → count x (insert_sorted y ys) ≡ (if x == y then 1 else 0) + count x ys
unfolding count insert_sorted
count-insert_sorted x y [] = refl
count-insert_sorted x y (z ∷ ys) = ground (arith, count-insert_sorted x y ys)

pub count-sort : (x : ℕ) (xs : List ℕ) → count x (sort xs) ≡ count x xs
unfolding count sort
count-sort x [] = refl
count-sort x (y ∷ ys) = omega (arith, count-insert_sorted x y (sort ys), count-sort x ys)

total-push_entry :
    (x key idx : ℕ) (entries : List (ℕ × List ℕ))
    → total x (sorted_values (push_entry key idx entries))
      ≡ (if x == idx then 1 else 0) + total x (sorted_values entries)
unfolding total sorted_values push_entry count sort insert_sorted
total-push_entry x key idx [] = omega arith
total-push_entry x key idx ((k, g) ∷ entries) = ground (
  arith,
  total-push_entry x key idx entries,
  count-sort x (g ++ (idx ∷ [])),
  count-sort x g,
  count-append x g (idx ∷ []),
)

pub total-module_groups :
    (x idx : ℕ) (items : List ℕ) (entries : List (ℕ × List ℕ))
    → total x (sorted_values (module_groups idx items entries))
      ≡ (if leb idx x then (if ltb x (idx + length items) then 1 else 0) else 0)
        + total x (sorted_values entries)
unfolding module_groups
total-module_groups x idx [] entries = ground arith
total-module_groups x idx (m ∷ items) entries = ground (
  arith,
  total-module_groups x (suc idx) items (push_entry m idx entries),
  total-push_entry x m idx entries,
)

pub total-remove :
    (x i : ℕ) (gs : List (List ℕ))
    → i < length gs
    → (g : List ℕ) × (rest : List (List ℕ)) × (remove i gs ≡ some (g, rest))
      × (count x g + total x rest ≡ total x gs)
      × (suc (length rest) ≡ length gs)
unfolding remove total
total-remove x i [] h = absurd (omega arith)
total-remove x zero (g ∷ gs) h = (g, gs, refl, refl, refl)
total-remove x (suc i) (g ∷ gs) h =
    let (r, rest, e, t, l) = total-remove x i gs (omega arith) in
    (r, g ∷ rest, rw e refl, omega (arith, t), omega (arith, l))

pub total-extend_at :
    (x i : ℕ) (extra : List ℕ) (gs : List (List ℕ))
    → i < length gs
    → (out : List (List ℕ)) × (extend_at i extra gs ≡ some out)
      × (total x out ≡ count x extra + total x gs)
      × (length out ≡ length gs)
unfolding extend_at total
total-extend_at x i extra [] h = absurd (omega arith)
total-extend_at x zero extra (g ∷ gs) h = (
  sort (g ++ extra) ∷ gs,
  refl,
  omega (arith, count-sort x (g ++ extra), count-append x g extra),
  refl,
)
total-extend_at x (suc i) extra (g ∷ gs) h =
    let (rest, e, t, l) = total-extend_at x i extra gs (omega arith) in
    (g ∷ rest, rw e refl, omega (arith, t), omega (arith, l))

pub smallest_from-lt :
    (best len i : ℕ) (gs : List (List ℕ))
    → best < i + length gs
    → smallest_from best len i gs < i + length gs
unfolding smallest_from
smallest_from-lt best len i [] h = h
smallest_from-lt best len i (g ∷ gs) h = ground (
  arith,
  smallest_from-lt i (length g) (suc i) gs (omega arith),
  smallest_from-lt best len (suc i) gs (omega arith),
)

pub largest_from-lt :
    (best len i : ℕ) (gs : List (List ℕ))
    → best < i + length gs
    → largest_from best len i gs < i + length gs
unfolding largest_from
largest_from-lt best len i [] h = h
largest_from-lt best len i (g ∷ gs) h = ground (
  arith,
  largest_from-lt i (length g) (suc i) gs (omega arith),
  largest_from-lt best len (suc i) gs (omega arith),
)
