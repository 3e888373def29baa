-- ===== src/Layout/Sound.antt =====
-- The size and the alignment of every layout that the loops of crates/glyim-layout/src/lib.rs make from
-- layouts that are in order themselves.
use glyim_v.Prelude.{
  ℕ, ◌*◌, max, ◌≡◌, refl, sym, ap, subst, Option, none, some, false, List, [], ◌∷◌, All, inl, inr,
  if_cases, leb, ltb, length, arith,
}
use glyim_v.Prelude.Mask.{IsMultiple}
use mathlib.Core.Option.{some_inj}
use glyim_v.Layout.Types.{Ty, GenericArg, ConstKind, AdtDef}
use glyim_v.Layout.Shape.{
  Size, Align, size_overflow, Outcome, ok, err, ◌>>=◌, u64_size, align_to, checked_mul, from_bytes,
  array, Layout, layout, single, unit, size_of, align_of,
}
use glyim_v.Layout.Align.{
  IsAlign, >>=-ok, ok-inj, align_to-IsRoundUp, from_bytes-IsAlign, max-IsAlign,
}
use glyim_v.Layout.Fields.{
  Placed, start, place, finish, arg_tys, place_all, overlay, array_count, place_fields, lay_out,
  layout_tuple, layout_array, overlay_fields, layout_union, layouts_of, layout_closure,
}
use glyim_v.Layout.Enum.{discriminant_info, tag_variants, max_align, all_align, direct_tag_encoding}
use glyim_v.Layout.Placement.{place-IsPlaced, place_fields-IsAlign}

-- The alignment is a power of two that divides the size.
abbrev pub IsSound : Layout → Type 0
IsSound l = IsAlign (align_of l) × IsMultiple (align_of l) (size_of l)

abbrev pub one-IsAlign : IsAlign 1
one-IsAlign = (0, omega arith, omega arith)

pub unit-IsSound : IsSound unit
unfolding unit
unit-IsSound = (one-IsAlign, (0, omega arith))

finish-IsSound : (p : Placed) (l : Layout) → IsAlign p.align → finish p ≡ ok l → IsSound l
unfolding finish
finish-IsSound p l h e =
    let (size, es, el) = >>=-ok (align_to p.current p.align) _ l e in
    subst IsSound (ok-inj _ l el) (h, (align_to-IsRoundUp p.current p.align size h es).0)

place_all-IsAlign :
    (ls : List Layout) (p p' : Placed)
    → All IsSound ls
    → IsAlign p.align
    → place_all ls p ≡ ok p'
    → IsAlign p'.align
unfolding place_all
place_all-IsAlign [] p p' hs h e = subst IsAlign (ap (λ p. p.align) (ok-inj p p' e)) h
place_all-IsAlign (l ∷ ls) p p' hs h e =
    let (p1, ep, e1) = >>=-ok (place l p) _ p' e in
    let (_, _, _, ea, _) = place-IsPlaced l p p1 hs.0.0 ep in
    place_all-IsAlign ls p1 p' hs.1
      (subst IsAlign (sym ea) (max-IsAlign p.align (align_of l) h hs.0.0)) e1

pub max_align-IsAlign :
    (a : Align) (ls : List Layout) → IsAlign a → All IsSound ls → IsAlign (max_align a ls)
unfolding max_align
max_align-IsAlign a [] h hs = h
max_align-IsAlign a (l ∷ ls) h hs =
    max_align-IsAlign (max a (align_of l)) ls (max-IsAlign a (align_of l) h hs.0.0) hs.1

tag_variants-IsAlign :
    (tag_size : Size) (ls : List Layout) (acc acc' : Size × Align)
    → IsAlign acc.1
    → All IsSound ls
    → tag_variants tag_size ls acc ≡ ok acc'
    → IsAlign acc'.1
unfolding tag_variants
tag_variants-IsAlign tag_size [] acc acc' h hs e = subst (λ a. IsAlign a.1) (ok-inj acc acc' e) h
tag_variants-IsAlign tag_size (l ∷ ls) (most, align) acc' h hs e =
    let (data_start, es, e1) = >>=-ok (align_to tag_size (align_of l)) _ acc' e in
    tag_variants-IsAlign tag_size ls _ acc' (max-IsAlign align (align_of l) h hs.0.0) hs.1 e1

discriminant_info-IsAlign :
    (n : ℕ) (info : Size × Align × Ty) → discriminant_info n ≡ ok info → IsAlign info.1
unfolding discriminant_info
discriminant_info-IsAlign n info e = elim (if_cases (leb n 256) e) [
  | inl (_, k) ↦ subst (λ i. IsAlign i.1) (ok-inj _ info k) one-IsAlign
  | inr (_, k) ↦ elim (if_cases (leb n 65536) k) [
    | inl (_, k) ↦
        (let (a, ea, k) = >>=-ok (from_bytes 2) _ info k in
          subst (λ i. IsAlign i.1) (ok-inj _ info k) (from_bytes-IsAlign 2 a ea).1)
    | inr (_, k) ↦ elim (if_cases (leb n 4294967296) k) [
      | inl (_, k) ↦
          (let (a, ea, k) = >>=-ok (from_bytes 4) _ info k in
            subst (λ i. IsAlign i.1) (ok-inj _ info k) (from_bytes-IsAlign 4 a ea).1)
      | inr (_, k) ↦ subst (λ i. IsAlign i.1) (ok-inj _ info k) (3, omega arith, omega arith)
    ]
  ]
]

pub direct_tag_encoding-IsSound :
    (ls : List Layout) (l : Layout) → All IsSound ls → direct_tag_encoding ls ≡ ok l → IsSound l
unfolding direct_tag_encoding
direct_tag_encoding-IsSound ls l hs e =
    let (info, ei, e1) = >>=-ok (discriminant_info (length ls)) _ l e in
    let (ends, ee, e2) = >>=-ok (tag_variants info.0 ls (0, info.1)) _ l e1 in
    let (size, es, e3) = >>=-ok (align_to ends.0 ends.1) _ l e2 in
    let (_, _, e4) = >>=-ok (align_to info.0 (all_align ls)) _ l e3 in
    let align =
      tag_variants-IsAlign info.0 ls (0, info.1) ends (discriminant_info-IsAlign _ info ei) hs ee in
    subst IsSound (ok-inj _ l e4) (align, (align_to-IsRoundUp ends.0 ends.1 size align es).0)

module _ (layout_of : Ty → Outcome Layout)
    (layout_of-IsSound : (t : Ty) (l : Layout) → layout_of t ≡ ok l → IsSound l) where
  pub lay_out-IsSound : (tys : List Ty) (l : Layout) → lay_out layout_of tys ≡ ok l → IsSound l
  unfolding lay_out
  lay_out-IsSound tys l e =
      let (p, ep, e1) = >>=-ok (place_fields layout_of tys start) _ l e in
      let align =
        place_fields-IsAlign layout_of (λ t l e. (layout_of-IsSound t l e).0) tys start p
          one-IsAlign ep in
      finish-IsSound p l align e1

  pub layout_tuple-IsSound :
      (args : List GenericArg) (l : Layout) → layout_tuple layout_of args ≡ ok l → IsSound l
  unfolding layout_tuple
  layout_tuple-IsSound [] l e = subst IsSound (ok-inj unit l e) unit-IsSound
  layout_tuple-IsSound (arg ∷ args) l e = lay_out-IsSound (arg_tys (arg ∷ args)) l e

  layouts_of-IsSound :
      (tys : List Ty) (ls : List Layout) → layouts_of layout_of tys ≡ ok ls → All IsSound ls
  unfolding layouts_of
  layouts_of-IsSound [] ls e = subst (All IsSound) (ok-inj [] ls e) tt
  layouts_of-IsSound (t ∷ ts) ls e =
      let (l, el, e1) = >>=-ok (layout_of t) _ ls e in
      let (rest, er, e2) = >>=-ok (layouts_of layout_of ts) _ ls e1 in
      subst (All IsSound) (ok-inj (l ∷ rest) ls e2)
        (layout_of-IsSound t l el, layouts_of-IsSound ts rest er)

  pub layout_closure-IsSound :
      (args : List GenericArg) (l : Layout) → layout_closure layout_of args ≡ ok l → IsSound l
  unfolding layout_closure
  layout_closure-IsSound args l e =
      let (ls, els, e1) = >>=-ok (layouts_of layout_of (arg_tys args)) _ l e in
      placed ls (layouts_of-IsSound (arg_tys args) ls els) e1
    where
      placed :
          (ls : List Layout)
          → All IsSound ls
          → (elim ls [
            | [] ↦ ok unit
            | field ∷ others ↦ (do placed ← place_all (field ∷ others) start; finish placed)
          ])
            ≡ ok l
          → IsSound l
      placed [] hs e = subst IsSound (ok-inj unit l e) unit-IsSound
      placed (field ∷ others) hs e =
          let (p, ep, e1) = >>=-ok (place_all (field ∷ others) start) _ l e in
          finish-IsSound p l (place_all-IsAlign (field ∷ others) start p hs one-IsAlign ep) e1

  overlay_fields-IsAlign :
      (tys : List Ty) (p p' : Placed)
      → IsAlign p.align
      → overlay_fields layout_of tys p ≡ ok p'
      → IsAlign p'.align
  unfolding overlay_fields overlay
  overlay_fields-IsAlign [] p p' h e = subst IsAlign (ap (λ p. p.align) (ok-inj p p' e)) h
  overlay_fields-IsAlign (t ∷ ts) p p' h e =
      let (l, el, e1) = >>=-ok (layout_of t) _ p' e in
      overlay_fields-IsAlign ts (overlay l p) p'
        (max-IsAlign p.align (align_of l) h (layout_of-IsSound t l el).0) e1

  pub layout_union-IsSound :
      (adt_def : AdtDef) (l : Layout) → layout_union layout_of adt_def ≡ ok l → IsSound l
  unfolding layout_union
  layout_union-IsSound adt_def l e =
      let (p, ep, e1) = >>=-ok (overlay_fields layout_of adt_def.fields start) _ l e in
      finish-IsSound p l (overlay_fields-IsAlign adt_def.fields start p one-IsAlign ep) e1

  checked_mul-IsMultiple :
      (stride count size a : ℕ)
      → IsMultiple a stride
      → checked_mul stride count ≡ some size
      → IsMultiple a size
  unfolding checked_mul
  checked_mul-IsMultiple stride count size a (q, e) k = (q * count, product)
    where
      product : size ≡ q * count * a
      product = elim (if_cases (ltb (stride * count) u64_size) k) [
        | inl (_, k) ↦ omega (arith, ap (λ t. t * count) e, some_inj.0 k)
        | inr (_, k) ↦ cc
      ]

  pub layout_array-IsSound :
      (inner : Ty) (count : ConstKind) (ty : Ty) (l : Layout)
      → layout_array layout_of inner count ty ≡ ok l
      → IsSound l
  unfolding layout_array
  layout_array-IsSound inner count ty l e =
      let (il, ei, e1) = >>=-ok (layout_of inner) _ l e in
      let (n, en, e2) = >>=-ok (array_count count ty) _ l e1 in
      let (stride, es, e3) = >>=-ok (align_to (size_of il) (align_of il)) _ l e2 in
      let (h, _) = layout_of-IsSound inner il ei in
      let multiple = (align_to-IsRoundUp (size_of il) (align_of il) stride h es).0 in
      sized (align_of il) stride n h (checked_mul stride n)
        (λ size k. checked_mul-IsMultiple stride n size (align_of il) multiple k) e3
    where
      sized :
          (align stride n : ℕ)
          → IsAlign align
          → (o : Option Size) → ((size : Size) → o ≡ some size → IsMultiple align size)
          → (elim o [
            | none ↦ err (size_overflow ty)
            | some size ↦ ok (layout size align (array stride n) (single 0) false)
          ])
            ≡ ok l
          → IsSound l
      sized align stride n h none m e = cc
      sized align stride n h (some size) m e = subst IsSound (ok-inj _ l e) (h, m size refl)
