-- ===== src/Layout/Declared.antt =====
-- The size and the alignment of enums and of other declared types
-- (crates/glyim-layout/src/lib.rs).
use glyim_v.Prelude.{ℕ, ◌-◌, ◌≡◌, subst, Option, none, some, List, [], ◌∷◌, All, length}
use mathlib.Core.Option.{some_inj}
use glyim_v.Layout.Types.{
  TargetInfo, Ty, TyCtx, AdtDef, AdtKind, struct_kind, enum_kind, union_kind, AdtRepr, VariantDef,
}
use glyim_v.Layout.Shape.{unknown_type, Outcome, ok, err, ◌>>=◌, align_to, Layout}
use glyim_v.Layout.Align.{>>=-ok, ok-inj, align_to-IsRoundUp}
use glyim_v.Layout.Fields.{lay_out, layout_struct, layout_repr, layout_union, layout_variant_data}
use glyim_v.Layout.Enum.{
  max_align, max_size, direct_tag_encoding, build_niche_layout, find_niche, try_niche_encoding,
  variant_layouts, layout_enum,
}
use glyim_v.Layout.Compute.{layout_adt}
use glyim_v.Layout.Sound.{
  IsSound, one-IsAlign, max_align-IsAlign, direct_tag_encoding-IsSound, lay_out-IsSound,
  layout_union-IsSound,
}

module _ (ctx : TyCtx) (target : TargetInfo) where
  module _ (inside : Ty → Outcome Layout)
      (inside-IsSound : (t : Ty) (l : Layout) → inside t ≡ ok l → IsSound l) where
    variant_layouts-IsSound :
        (vs : List VariantDef) (ls : List Layout)
        → variant_layouts ctx target inside vs ≡ ok ls
        → All IsSound ls
    unfolding variant_layouts layout_variant_data
    variant_layouts-IsSound [] ls e = subst (All IsSound) (ok-inj [] ls e) tt
    variant_layouts-IsSound (v ∷ vs) ls e =
        let (l, el, e1) = >>=-ok (layout_variant_data inside v) _ ls e in
        let (rest, er, e2) = >>=-ok (variant_layouts ctx target inside vs) _ ls e1 in
        subst (All IsSound) (ok-inj (l ∷ rest) ls e2)
          (lay_out-IsSound inside inside-IsSound v.fields l el, variant_layouts-IsSound vs rest er)

    build_niche_layout-IsSound :
        (ls : List Layout) (data_layout : Layout) (vi fi : ℕ) (ty : Ty) (first : ℕ) (l : Layout)
        → All IsSound ls
        → build_niche_layout ctx target inside ls data_layout vi fi ty first ≡ ok l
        → IsSound l
    unfolding build_niche_layout
    build_niche_layout-IsSound ls data_layout vi fi ty first l hs e =
        let (size, es, e1) = >>=-ok (align_to (max_size 0 ls) (max_align 1 ls)) _ l e in
        let (_, _, e2) = >>=-ok (inside ty) _ l e1 in
        let h = max_align-IsAlign 1 ls one-IsAlign hs in
        subst IsSound (ok-inj _ l e2)
          (h, (align_to-IsRoundUp (max_size 0 ls) (max_align 1 ls) size h es).0)

    try_niche_encoding-IsSound :
        (adt_def : AdtDef) (ls : List Layout) (l : Layout)
        → All IsSound ls
        → try_niche_encoding ctx target inside adt_def ls ≡ ok (some l)
        → IsSound l
    unfolding try_niche_encoding
    try_niche_encoding-IsSound adt_def ls l hs e =
        let (found, _, e1) =
          >>=-ok (find_niche ctx target inside (length adt_def.variants - 1) 0 adt_def.variants ls)
            _ (some l) e in
        built found e1
      where
        built :
            (found : Option (ℕ × Layout × ℕ × Ty × ℕ))
            → (elim found [
              | none ↦ ok none
              | some (variant_idx, data_layout, field_idx, field_ty, niche_start) ↦ (do
                l ←
                    build_niche_layout ctx target inside ls data_layout variant_idx field_idx
                      field_ty niche_start
                ok (some l))
            ])
              ≡ ok (some l)
            → IsSound l
        built none e = cc
        built (some (vi, d, fi, ty, first)) e =
            let (k, ek, e1) =
              >>=-ok (build_niche_layout ctx target inside ls d vi fi ty first) _ (some l) e in
            subst IsSound (some_inj.0 (ok-inj (some k) (some l) e1))
              (build_niche_layout-IsSound ls d vi fi ty first k hs ek)

    layout_enum-IsSound :
        (adt_def : AdtDef) (ty : Ty) (l : Layout)
        → layout_enum ctx target inside adt_def ty ≡ ok l
        → IsSound l
    unfolding layout_enum
    layout_enum-IsSound adt_def ty l e = by_count adt_def.variants e
      where
        encode :
            (ls : List Layout) (o : Option Layout)
            → All IsSound ls
            → try_niche_encoding ctx target inside adt_def ls ≡ ok o
            → (elim o [ none ↦ direct_tag_encoding ls | some l ↦ ok l ]) ≡ ok l
            → IsSound l
        encode ls none hs t e = direct_tag_encoding-IsSound ls l hs e
        encode ls (some k) hs t e =
            subst IsSound (ok-inj k l e) (try_niche_encoding-IsSound adt_def ls k hs t)

        by_count :
            (vs : List VariantDef)
            → (elim vs [
              | [] ↦ err (unknown_type ty)
              | variant ∷ [] ↦ lay_out inside variant.fields
              | _ ∷ _ ∷ _ ↦ (do
                layouts ← variant_layouts ctx target inside adt_def.variants
                encoded ← try_niche_encoding ctx target inside adt_def layouts
                elim encoded [ none ↦ direct_tag_encoding layouts | some l ↦ ok l ])
            ])
              ≡ ok l
            → IsSound l
        by_count [] e = cc
        by_count (v ∷ []) e = lay_out-IsSound inside inside-IsSound v.fields l e
        by_count (v ∷ w ∷ vs) e =
            let (ls, els, e1) = >>=-ok (variant_layouts ctx target inside adt_def.variants) _ l e in
            let (o, eo, e2) = >>=-ok (try_niche_encoding ctx target inside adt_def ls) _ l e1 in
            encode ls o (variant_layouts-IsSound adt_def.variants ls els) eo e2

    by_kind :
        (adt_def : AdtDef) (ty : Ty) (l : Layout) (kind : AdtKind)
        → (elim kind [
          | struct_kind ↦ layout_struct inside adt_def
          | enum_kind ↦ layout_enum ctx target inside adt_def ty
          | union_kind ↦ layout_union inside adt_def
        ])
          ≡ ok l
        → IsSound l
    unfolding layout_struct
    by_kind adt_def ty l struct_kind e = lay_out-IsSound inside inside-IsSound adt_def.fields l e
    by_kind adt_def ty l enum_kind e = layout_enum-IsSound adt_def ty l e
    by_kind adt_def ty l union_kind e = layout_union-IsSound inside inside-IsSound adt_def l e

    pub layout_adt-IsSound :
        (adt_id : ℕ) (ty : Ty) (l : Layout)
        → layout_adt ctx target inside adt_id ty ≡ ok l
        → IsSound l
    unfolding layout_adt layout_repr
    layout_adt-IsSound adt_id ty l e = registered (ctx.adt_def adt_id) (ctx.adt_repr adt_id) e
      where
        registered :
            (o : Option AdtDef) (r : Option AdtRepr)
            → (elim o [
              | none ↦ elim r [ none ↦ err (unknown_type ty) | some repr ↦ layout_repr inside repr ]
              | some adt_def ↦ elim adt_def.kind [
                | struct_kind ↦ layout_struct inside adt_def
                | enum_kind ↦ layout_enum ctx target inside adt_def ty
                | union_kind ↦ layout_union inside adt_def
              ]
            ])
              ≡ ok l
            → IsSound l
        registered none none e = cc
        registered none (some repr) e = lay_out-IsSound inside inside-IsSound repr.field_tys l e
        registered (some adt_def) r e = by_kind adt_def ty l adt_def.kind e
