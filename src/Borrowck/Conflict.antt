-- ===== src/Borrowck/Conflict.antt =====
-- `places_conflict` (crates/glyim-borrowck/src/visitor.rs).
pub mod Regions
use glyim_v.Prelude.{ℕ, ltb, leb, Bool, true, false, ◌&&◌, List, [], ◌∷◌, ◌==◌, if◌then◌else◌}
use glyim_v.Mir.Types.{
  Place, ProjectionElem, deref, field, index, downcast, constant_index, subslice,
}

-- What one round of the loop says of the two elements at an index.
pub data Verdict : Type 0 where
  go_on conflict disjoint : Verdict

abbrev pub go_on_if : Bool → Verdict
go_on_if same = if same then go_on else disjoint

unfoldable pub compare_elems : ProjectionElem → ProjectionElem → Verdict
compare_elems deref deref = go_on
compare_elems (field f1) (field f2) = go_on_if (f1 == f2)
compare_elems (downcast v1) (downcast v2) = go_on_if (v1 == v2)
compare_elems (index l1) (index l2) = go_on_if (l1 == l2)
compare_elems (constant_index o1 m1 false) (constant_index o2 m2 false) = go_on_if (o1 == o2)
compare_elems (field f) (index l) = disjoint
compare_elems (index l) (field f) = disjoint
compare_elems (subslice f1 t1 false) (subslice f2 t2 false) = go_on_if (ltb f1 t2 && ltb f2 t1)
compare_elems (subslice from to false) (constant_index offset m false) =
    go_on_if (leb from offset && ltb offset to)
compare_elems (constant_index offset m false) (subslice from to false) =
    go_on_if (leb from offset && ltb offset to)
compare_elems _ _ = conflict

-- The loop over the common length.
unfoldable pub projections_conflict : List ProjectionElem → List ProjectionElem → Bool
projections_conflict [] bs = true
projections_conflict (a ∷ rest) [] = true
projections_conflict (a ∷ rest) (b ∷ bs) = elim (compare_elems a b) [
  | go_on ↦ projections_conflict rest bs
  | conflict ↦ true
  | disjoint ↦ false
]

unfoldable pub places_conflict : Place → Place → Bool
places_conflict a b =
    if a.local == b.local then projections_conflict a.projection b.projection else false
