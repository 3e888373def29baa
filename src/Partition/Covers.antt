-- ===== src/Partition/Covers.antt =====
-- The merging loop keeps every item, ends, and leaves at most the allowed number of groups
-- (crates/glyim-lower/src/partition.rs).
use glyim_v.Prelude.{
  ℕ, zero, suc, ◌-◌, ◌≤◌, ◌<◌, ◌≡◌, refl, ◌∙◌, inl, inr, false, Bool-cases, List, [], ◌∷◌, ◌++◌,
  length, ltb, leb, ◌==◌, if◌then◌else◌, arith,
}
use glyim_v.Partition.{
  Outcome, grouped, module_groups, sort, sorted_values, smallest_from, largest_from, Round, merged,
  merge_equal, merge_into, round, merge_groups, partition,
}
use glyim_v.Partition.Counts.{
  total, count-append, count-sort, total-module_groups, total-remove, total-extend_at,
  smallest_from-lt, largest_from-lt,
}

-- A merge that keeps the items and takes one group away.
abbrev IsMerge : ℕ → List (List ℕ) → Round → Type 0
IsMerge x gs r =
    (out : List (List ℕ)) × (r ≡ merged out)
    × (total x out ≡ total x gs)
    × (suc (length out) ≡ length gs)

merge_equal-IsMerge : (x : ℕ) (gs : List (List ℕ)) → 2 ≤ length gs → IsMerge x gs (merge_equal gs)
unfolding merge_equal total
merge_equal-IsMerge x [] h = absurd (omega arith)
merge_equal-IsMerge x (g ∷ []) h = absurd (omega arith)
merge_equal-IsMerge x (g ∷ k ∷ gs) h = (
  sort (g ++ k) ∷ gs,
  refl,
  omega (arith, count-sort x (g ++ k), count-append x g k),
  omega arith,
)

merge_into-IsMerge :
    (x s l : ℕ) (gs : List (List ℕ))
    → s < length gs
    → l < length gs
    → (s == l) ≡ false
    → IsMerge x gs (merge_into s l gs)
unfolding merge_into
merge_into-IsMerge x s l gs hs hl e =
    let (g, rest, er, t, n) = total-remove x s gs hs in
    let target = if ltb s l then l - 1 else l in
    let (out, eo, u, k) = total-extend_at x target g rest (ground arith) in
    (out, simp (merge_into, er, eo), omega (arith, t, u), omega (arith, n, k))

round-IsMerge : (x : ℕ) (gs : List (List ℕ)) → 2 ≤ length gs → IsMerge x gs (round gs)
unfolding round
round-IsMerge x [] h = absurd (omega arith)
round-IsMerge x (g ∷ gs) h =
    let s = smallest_from 0 (length g) 1 gs in
    let l = largest_from 0 (length g) 1 gs in
    elim (Bool-cases (s == l)) [
      | inl e ↦ rw e (merge_equal-IsMerge x (g ∷ gs) h)
      | inr e ↦ rw e (
          merge_into-IsMerge x s l (g ∷ gs)
            (omega (arith, smallest_from-lt 0 (length g) 1 gs (omega arith)))
            (omega (arith, largest_from-lt 0 (length g) 1 gs (omega arith))) e)
    ]

-- The groups that a call leaves: no more than allowed, and with `n` times the item `x`.
abbrev pub IsGrouping : ℕ → ℕ → ℕ → Outcome → Type 0
IsGrouping x max_cgus n r =
    (gs : List (List ℕ)) × (r ≡ grouped gs) × (length gs ≤ max_cgus) × (total x gs ≡ n)

merge_groups-IsGrouping :
    (x fuel max_cgus : ℕ) (gs : List (List ℕ))
    → 1 ≤ max_cgus
    → length gs ≤ fuel
    → IsGrouping x max_cgus (total x gs) (merge_groups fuel max_cgus gs)
unfolding merge_groups
merge_groups-IsGrouping x zero max_cgus gs h k = (gs, ground arith, omega arith, refl)
merge_groups-IsGrouping x (suc fuel) max_cgus gs h k =
    elim (Bool-cases (leb (length gs) max_cgus)) [
      | inl e ↦ (gs, rw e refl, ground arith, refl)
      | inr e ↦
          (let (out, er, t, n) = round-IsMerge x gs (ground arith) in
            let (res, eres, le, u) =
              merge_groups-IsGrouping x fuel max_cgus out h (omega (arith, n)) in
            (res, simp (e, er, eres), le, u ∙ t))
    ]

-- With room for at least one codegen unit, the partition of any items ends with at most as many units
-- as allowed, and a number is in the units once in all if it is the index of an item, and not at
-- all otherwise.
pub partition-IsGrouping :
    (items : List ℕ) (max_cgus x : ℕ)
    → 1 ≤ max_cgus
    → IsGrouping x max_cgus (if ltb x (length items) then 1 else 0) (partition items max_cgus)
unfolding partition total sorted_values
partition-IsGrouping [] max_cgus x h = ([], refl, omega arith, ground arith)
partition-IsGrouping (item ∷ items) max_cgus x h =
    let gs = sorted_values (module_groups 0 (item ∷ items) []) in
    let (out, e, le, t) = merge_groups-IsGrouping x (length gs) max_cgus gs h (omega arith) in
    (out, e, le, ground (arith, t, total-module_groups x 0 (item ∷ items) []))
