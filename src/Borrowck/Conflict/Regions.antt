-- ===== src/Borrowck/Conflict/Regions.antt =====
-- What `places_conflict` (crates/glyim-borrowck/src/visitor.rs) says of the memory that two places share.
use glyim_v.Prelude.{
  ℕ, ◌-◌, ◌≤◌, ◌<◌, ◌≡◌, ◌≢◌, refl, sym, subst, ◌∙◌, inl, inr, ◌⊎◌, true, false, List, [], ◌∷◌,
  contains, arith,
}
use glyim_v.Mir.Types.{
  LocalIdx, Place, ProjectionElem, deref, field, index, downcast, constant_index, subslice,
}
use glyim_v.Borrowck.Conflict.{
  Verdict, go_on, conflict, disjoint, compare_elems, projections_conflict, places_conflict,
}

-- A step on an access path, which leads to a part of a local or of what it points to.
pub data Step : Type 0 where
  to_target : Step
  to_field to_variant to_element : ℕ → Step

-- No slice projection but at the end.
abbrev pub EndsInSlice : ProjectionElem → List ProjectionElem → Type 0
EndsInSlice (subslice from to from_end) rest = rest ≡ []
EndsInSlice _ rest = Unit

abbrev pub SlicesLast : List ProjectionElem → Type 0
SlicesLast [] = Unit
SlicesLast (e ∷ rest) = EndsInSlice e rest × SlicesLast rest

-- The locals that index.
abbrev pub index_locals : List ProjectionElem → List LocalIdx
index_locals [] = []
index_locals (index l ∷ rest) = l ∷ index_locals rest
index_locals (_ ∷ rest) = index_locals rest

compare_elems_comm : (a b : ProjectionElem) → compare_elems a b ≡ compare_elems b a
unfolding compare_elems
compare_elems_comm a b = ground arith

projections_conflict_comm :
    (xs bs : List ProjectionElem) → projections_conflict xs bs ≡ projections_conflict bs xs
unfolding projections_conflict
projections_conflict_comm [] [] = refl
projections_conflict_comm [] (b ∷ bs) = refl
projections_conflict_comm (a ∷ xs) [] = refl
projections_conflict_comm (a ∷ xs) (b ∷ bs) =
    ground (arith, compare_elems_comm a b, projections_conflict_comm xs bs)

conflict-nil : (bs : List ProjectionElem) → projections_conflict [] bs ≡ true
unfolding projections_conflict
conflict-nil bs = refl

Verdict-cases : (v : Verdict) → (v ≡ go_on) ⊎ (v ≡ conflict) ⊎ (v ≡ disjoint)
Verdict-cases go_on = inl refl
Verdict-cases conflict = inr (inl refl)
Verdict-cases disjoint = inr (inr refl)

index_locals-tail :
    (e : ProjectionElem) (rest : List ProjectionElem) (l : LocalIdx)
    → (contains (index_locals rest) l ≡ true → contains (index_locals (e ∷ rest)) l ≡ true)
      × (contains (index_locals (e ∷ [])) l ≡ true → contains (index_locals (e ∷ rest)) l ≡ true)
unfolding contains
index_locals-tail (index k) rest l = ((λ h. ground arith), λ h. ground arith)
index_locals-tail e rest l = ((λ h. h), λ h. cc)

-- The conflict of two places does not depend on their order.
pub places_conflict_comm : (a b : Place) → places_conflict a b ≡ places_conflict b a
unfolding places_conflict
places_conflict_comm a b = ground (arith, projections_conflict_comm a.projection b.projection)

-- The values of the index locals.
module _ (value : LocalIdx → ℕ) where
  -- An element of a projection that takes the step. An index from the end takes it to any element.
  abbrev pub Meets : ProjectionElem → Step → Type 0
  Meets deref to_target = Unit
  Meets (field f) (to_field g) = f ≡ g
  Meets (downcast v) (to_variant w) = v ≡ w
  Meets (index l) (to_element i) = value l ≡ i
  Meets (constant_index offset m false) (to_element i) = offset ≡ i
  Meets (constant_index offset m true) (to_element i) = Unit
  Meets (subslice from to false) (to_element i) = (from ≤ i) × (i < to)
  Meets (subslice from to true) (to_element i) = from ≤ i
  Meets _ _ = ⊥

  -- A slice counts its elements from its start.
  abbrev pub beyond : ProjectionElem → Step → List Step → List Step
  beyond (subslice from to from_end) (to_element i) c = to_element (i - from) ∷ c
  beyond _ s c = c

  -- The path leads into the place.
  abbrev pub Covers : List ProjectionElem → List Step → Type 0
  Covers [] c = Unit
  Covers (e ∷ rest) [] = ⊥
  Covers (e ∷ rest) (s ∷ c) = Meets e s × Covers rest (beyond e s c)

  -- Index locals of the two places with one value are one local.
  abbrev pub Apart : List ProjectionElem → List ProjectionElem → Type 0
  Apart xs bs =
      (l k : LocalIdx)
      → contains (index_locals xs) l ≡ true
      → contains (index_locals bs) k ≡ true
      → value l ≡ value k
      → l ≡ k

  Meets-compare :
      (a b : ProjectionElem) (s : Step)
      → Apart (a ∷ []) (b ∷ [])
      → Meets a s
      → Meets b s
      → compare_elems a b ≢ disjoint
  unfolding compare_elems contains
  Meets-compare (index l) (index k) (to_element i) apart p q =
      ground (arith, apart l k (ground arith) (ground arith))
  Meets-compare a b s apart p q = ground arith

  Apart-tail :
      (a b : ProjectionElem) (xs bs : List ProjectionElem) → Apart (a ∷ xs) (b ∷ bs) → Apart xs bs
  Apart-tail a b xs bs h l k p q =
      h l k ((index_locals-tail a xs l).0 p) ((index_locals-tail b bs k).0 q)

  Apart-head :
      (a b : ProjectionElem) (xs bs : List ProjectionElem)
      → Apart (a ∷ xs) (b ∷ bs)
      → Apart (a ∷ []) (b ∷ [])
  Apart-head a b xs bs h l k p q =
      h l k ((index_locals-tail a xs l).1 p) ((index_locals-tail b bs k).1 q)

  -- Elements that go on are slices at the end, or leave one path.
  beyond_cases :
      (a b : ProjectionElem) (xs bs : List ProjectionElem) (s : Step) (c : List Step)
      → EndsInSlice a xs
      → EndsInSlice b bs
      → (xs ≡ []) ⊎ (bs ≡ []) ⊎ (beyond a s c ≡ c) × (beyond b s c ≡ c)
  beyond_cases (subslice from to from_end) b xs bs s c ha hb = inl ha
  beyond_cases deref (subslice from to from_end) xs bs s c ha hb = inr (inl hb)
  beyond_cases (field f) (subslice from to from_end) xs bs s c ha hb = inr (inl hb)
  beyond_cases (index l) (subslice from to from_end) xs bs s c ha hb = inr (inl hb)
  beyond_cases (downcast v) (subslice from to from_end) xs bs s c ha hb = inr (inl hb)
  beyond_cases (constant_index o m e) (subslice from to from_end) xs bs s c ha hb = inr (inl hb)
  beyond_cases a b xs bs s c ha hb = ground arith

  projections_conflict-overlap :
      (xs bs : List ProjectionElem) (c : List Step)
      → SlicesLast xs
      → SlicesLast bs
      → Apart xs bs
      → Covers xs c
      → Covers bs c
      → projections_conflict xs bs ≡ true
  unfolding projections_conflict
  projections_conflict-overlap [] bs c hx hb apart p q = refl
  projections_conflict-overlap (a ∷ xs) [] c hx hb apart p q = refl
  projections_conflict-overlap (a ∷ xs) (b ∷ bs) [] hx hb apart p q = absurd p
  projections_conflict-overlap (a ∷ xs) (b ∷ bs) (s ∷ c) hx hb apart p q =
      let meet = Meets-compare a b s (Apart-head a b xs bs apart) p.0 q.0 in
      elim (Verdict-cases (compare_elems a b)) [
        | inl on ↦
            rw (projections_conflict, on)
              (elim (beyond_cases a b xs bs s c hx.0 hb.0) [
                | inl e ↦ rw e (conflict-nil bs)
                | inr (inl e) ↦ rw e (projections_conflict_comm xs [] ∙ conflict-nil xs)
                | inr (inr (ea, eb)) ↦
                    projections_conflict-overlap xs bs c hx.1 hb.1 (Apart-tail a b xs bs apart)
                      (subst (Covers xs) ea p.1) (subst (Covers bs) eb q.1)
              ])
        | inr (inl e) ↦ rw (projections_conflict, e) refl
        | inr (inr e) ↦ absurd (meet e)
      ]

  -- Which paths lead to a cell of memory, and to which.
  module _ (IsCell : List Step → Type 0) (address : List Step → ℕ) where
    -- For two places of one local whose slice projections stand at their ends, where index locals of
    -- the one and of the other with one value are the same local, and where different paths lead to
    -- different cells, so that no two fields of a union and no two variants of an enum have a cell in
    -- common: if a path into the one place and a path into the other lead to the same cell, then the
    -- places conflict.
    pub places_conflict-overlap :
        (a b : Place) (c d : List Step)
        → SlicesLast a.projection
        → SlicesLast b.projection
        → Apart a.projection b.projection
        → ((c d : List Step) → IsCell c → IsCell d → address c ≡ address d → c ≡ d)
        → a.local ≡ b.local
        → Covers a.projection c
        → IsCell c
        → Covers b.projection d
        → IsCell d
        → address c ≡ address d
        → places_conflict a b ≡ true
    unfolding places_conflict
    places_conflict-overlap a b c d ha hb apart unshared same p cell q cell' shared =
        let q' : Covers b.projection c =
          subst (Covers b.projection) (sym (unshared c d cell cell' shared)) q in
        ground (arith, projections_conflict-overlap a.projection b.projection c ha hb apart p q')
