-- ===== src/Layout/Placement.antt =====
-- Where the placement loop puts the fields (crates/glyim-layout/src/lib.rs).
use glyim_v.Prelude.{
  ◌+◌, ◌-◌, ◌≤◌, ◌<◌, min, max, ◌≡◌, refl, sym, ap, subst, ◌∙◌, List, [], ◌∷◌, ◌++◌, All, arith,
}
use glyim_v.Prelude.Mask.{IsMultiple}
use mathlib.Core.List.{append-nil, append_assoc}
use glyim_v.Layout.Types.{Ty}
use glyim_v.Layout.Shape.{
  Size, Align, Outcome, ok, u64_size, align_to, saturating_add, arbitrary, Layout, size_of,
  align_of, fields_of,
}
use glyim_v.Layout.Align.{IsAlign, IsRoundUp, >>=-ok, ok-inj, align_to-IsRoundUp, max-IsAlign}
use glyim_v.Layout.Fields.{Placed, start, place, finish, place_fields, lay_out, layouts_of}

-- The fields stand in order between two bounds, each at a multiple of its alignment and none before
-- the end of the one in front of it.
abbrev pub FieldsAt : List Layout → List Size → Size → Size → Type 0
FieldsAt [] [] from to = from ≤ to
FieldsAt (l ∷ ls) (o ∷ os) from to =
    (from ≤ o) × IsMultiple (align_of l) o × FieldsAt ls os (o + size_of l) to
FieldsAt _ _ from to = ⊥

FieldsAt-le :
    (ls : List Layout) (os : List Size) (from to to' : Size)
    → to ≤ to'
    → FieldsAt ls os from to
    → FieldsAt ls os from to'
FieldsAt-le [] [] from to to' h k = omega arith
FieldsAt-le [] (o ∷ os) from to to' h k = absurd k
FieldsAt-le (l ∷ ls) [] from to to' h k = absurd k
FieldsAt-le (l ∷ ls) (o ∷ os) from to to' h k =
    (k.0, k.1, FieldsAt-le ls os (o + size_of l) to to' h k.2)

-- No alignment is above the whole's.
abbrev pub AlignedBy : Align → List Layout → Type 0
AlignedBy align ls = All (λ l. align_of l ≤ align) ls

AlignedBy-le : (ls : List Layout) (a b : Align) → a ≤ b → AlignedBy a ls → AlignedBy b ls
AlignedBy-le [] a b h k = tt
AlignedBy-le (l ∷ ls) a b h k = (omega (arith, k.0), AlignedBy-le ls a b h k.1)

-- A round of the loop.
abbrev IsPlaced : Layout → Placed → Placed → Type 0
IsPlaced l p p' =
    (at : Size) × IsRoundUp (align_of l) p.current at
    × (p'.offsets ≡ p.offsets ++ (at ∷ []))
    × (p'.align ≡ max p.align (align_of l))
    × (p'.current ≡ min (at + size_of l) (u64_size - 1))

pub place-IsPlaced :
    (l : Layout) (p p' : Placed) → IsAlign (align_of l) → place l p ≡ ok p' → IsPlaced l p p'
unfolding place saturating_add
place-IsPlaced l p p' h e =
    let (at, ea, er) = >>=-ok (align_to p.current (align_of l)) _ p' e in
    let same = sym (ok-inj _ p' er) in
    (
      at,
      align_to-IsRoundUp p.current (align_of l) at h ea,
      ap (λ p. p.offsets) same,
      ap (λ p. p.align) same,
      ap (λ p. p.current) same,
    )

-- A structure of these fields: its offsets are those of its fields in order, no field has a larger
-- alignment, no two overlap, and none sticks out.
abbrev pub IsStructure : (Ty → Outcome Layout) → List Ty → Layout → Type 0
IsStructure layout_of tys l =
    (ls : List Layout) × (os : List Size) × (layouts_of layout_of tys ≡ ok ls)
    × (fields_of l ≡ arbitrary os)
    × AlignedBy (align_of l) ls
    × FieldsAt ls os 0 (size_of l)

module _ (layout_of : Ty → Outcome Layout)
    (layout_of-IsAlign : (t : Ty) (l : Layout) → layout_of t ≡ ok l → IsAlign (align_of l)) where
  pub place_fields-IsAlign :
      (tys : List Ty) (p p' : Placed)
      → IsAlign p.align
      → place_fields layout_of tys p ≡ ok p'
      → IsAlign p'.align
  unfolding place_fields
  place_fields-IsAlign [] p p' h e = subst IsAlign (ap (λ p. p.align) (ok-inj p p' e)) h
  place_fields-IsAlign (t ∷ ts) p p' h e =
      let (l, el, e1) = >>=-ok (layout_of t) _ p' e in
      let (p1, ep, e2) = >>=-ok (place l p) _ p' e1 in
      let (_, _, _, ea, _) = place-IsPlaced l p p1 (layout_of-IsAlign t l el) ep in
      place_fields-IsAlign ts p1 p'
        (subst IsAlign (sym ea) (max-IsAlign p.align (align_of l) h (layout_of-IsAlign t l el))) e2

  -- All the rounds.
  abbrev IsRun : List Ty → Placed → Placed → Type 0
  IsRun tys p p' =
      (ls : List Layout) × (os : List Size) × (layouts_of layout_of tys ≡ ok ls)
      × (p'.offsets ≡ p.offsets ++ os)
      × (p.align ≤ p'.align)
      × AlignedBy p'.align ls
      × (p.current ≤ p'.current)
      × (p'.current < u64_size - 1 → FieldsAt ls os p.current p'.current)

  layouts_of-cons :
      (t : Ty) (ts : List Ty) (l : Layout) (ls : List Layout)
      → layout_of t ≡ ok l
      → layouts_of layout_of ts ≡ ok ls
      → layouts_of layout_of (t ∷ ts) ≡ ok (l ∷ ls)
  unfolding layouts_of
  layouts_of-cons t ts l ls e k = simp (e, k)

  place_fields-IsRun :
      (tys : List Ty) (p p' : Placed)
      → p.current < u64_size
      → place_fields layout_of tys p ≡ ok p'
      → IsRun tys p p'
  unfolding place_fields layouts_of
  place_fields-IsRun [] p p' h e =
      let same = ok-inj p p' e in
      (
        [],
        [],
        refl,
        sym (ap (λ p. p.offsets) same) ∙ sym (append-nil p.offsets),
        omega (arith, ap (λ p. p.align) same),
        tt,
        omega (arith, ap (λ p. p.current) same),
        λ _. omega (arith, ap (λ p. p.current) same),
      )
  place_fields-IsRun (t ∷ ts) p p' h e =
      let (l, el, e1) = >>=-ok (layout_of t) _ p' e in
      let (p1, ep, e2) = >>=-ok (place l p) _ p' e1 in
      let (at, (aligned, low, _, bound), eo, ea, ec) =
        place-IsPlaced l p p1 (layout_of-IsAlign t l el) ep in
      let (ls, os, els, eos, le, by, cur, at_rest) =
        place_fields-IsRun ts p1 p' (omega (arith, ec)) e2 in
      (
        l ∷ ls,
        at ∷ os,
        layouts_of-cons t ts l ls el els,
        eos ∙ ap (λ xs. xs ++ os) eo ∙ append_assoc p.offsets (at ∷ []) os,
        omega (arith, le, ea),
        (omega (arith, le, ea), by),
        omega (arith, cur, low, ec, bound, h),
        λ small. (
          low,
          aligned,
          subst (λ c. FieldsAt ls os c p'.current) (omega (arith, ec, cur, small)) (at_rest small),
        ),
      )

  pub lay_out-IsStructure :
      (tys : List Ty) (l : Layout)
      → lay_out layout_of tys ≡ ok l
      → size_of l < u64_size - 1
      → IsStructure layout_of tys l
  unfolding lay_out finish
  lay_out-IsStructure tys l e small =
      let (p, ep, e1) = >>=-ok (place_fields layout_of tys start) _ l e in
      let (size, es, e2) = >>=-ok (align_to p.current p.align) _ l e1 in
      let same = ok-inj _ l e2 in
      let align = place_fields-IsAlign tys start p (0, omega arith, omega arith) ep in
      let (_, low, _, _) = align_to-IsRoundUp p.current p.align size align es in
      let (ls, os, els, eos, _, by, _, at) = place_fields-IsRun tys start p (omega arith) ep in
      let current_small : p.current < u64_size - 1 = omega (arith, low, ap size_of same, small) in
      (
        ls,
        os,
        els,
        sym (ap fields_of same) ∙ ap arbitrary eos,
        AlignedBy-le ls p.align (align_of l) (omega (arith, ap align_of same)) by,
        FieldsAt-le ls os 0 p.current (size_of l) (omega (arith, low, ap size_of same))
            (at current_small),
      )
