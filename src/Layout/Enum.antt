-- ===== src/Layout/Enum.antt =====
-- Enum layouts of `SimpleLayoutComputer` (crates/glyim-layout/src/lib.rs): the choice between a niche and
-- a direct tag, the width of the tag, and the niche that a type leaves. `layout_of` is the method on
-- the types inside.
use glyim_v.Prelude.{
  ℕ, zero, suc, ◌-◌, ◌^◌, max, Option, none, some, List, [], ◌∷◌, length, leb, ltb, ◌==◌,
  if◌then◌else◌, false,
}
use glyim_v.Layout.Types.{
  TargetInfo, int_bit_width, uint_bit_width, Ty, ty_u8, ty_u16, ty_u32, ty_u64, bool_ty, char_ty,
  int_ty, uint_ty, adt_ty, ref_ty, raw_ptr_ty, enum_kind, VariantDef, AdtDef, TyCtx,
}
use glyim_v.Layout.Shape.{
  Size, Align, unknown_type, Outcome, ok, err, panics, no_fuel, ◌>>=◌, align_to, from_bytes,
  saturating_add, FieldsShape, primitive, array, arbitrary, TagEncoding, direct, niche, Layout,
  layout, single, multiple, of_list, size_of, align_of, fields_of, variants_of,
}
use glyim_v.Layout.Fields.{layout_variant_data, lay_out}

-- `u32::try_from(n).unwrap_or(default)`
unfoldable pub as_u32 : ℕ → ℕ → ℕ
as_u32 n default = if ltb n (2 ^ 32) then n else default

-- A variant's tag: its size, its alignment and its type.
unfoldable pub discriminant_info : ℕ → Outcome (Size × Align × Ty)
discriminant_info variant_count =
    if leb variant_count 256
    then ok (1, 1, ty_u8)
    else if leb variant_count 65536
    then (do align ← from_bytes 2; ok (2, align, ty_u16))
    else if leb variant_count 4294967296
    then (do align ← from_bytes 4; ok (4, align, ty_u32))
    else ok (8, 8, ty_u64)

-- The loop over the variants: the largest end of a variant's data, and the alignment of all.
unfoldable pub tag_variants : Size → List Layout → (Size × Align) → Outcome (Size × Align)
tag_variants tag_size [] acc = ok acc
tag_variants tag_size (variant ∷ variants) (max_variant_size, overall_align) = do
  data_start ← align_to tag_size (align_of variant)
  let variant_end = saturating_add data_start (size_of variant)
  tag_variants tag_size variants
      (max max_variant_size variant_end, max overall_align (align_of variant))

-- `map(|v| v.align).max()`, or `unwrap_or` for no variants.
unfoldable pub max_align : Align → List Layout → Align
max_align least [] = least
max_align least (variant ∷ variants) = max_align (max least (align_of variant)) variants

unfoldable pub all_align : List Layout → Align
all_align [] = 1
all_align (variant ∷ variants) = max_align (align_of variant) variants

unfoldable pub direct_tag_encoding : List Layout → Outcome Layout
direct_tag_encoding variant_layouts = do
  info ← discriminant_info (length variant_layouts)
  let (tag_size, tag_align, tag_ty) = info
  ends ← tag_variants tag_size variant_layouts (0, tag_align)
  size ← align_to ends.0 ends.1
  data_start ← align_to tag_size (all_align variant_layouts)
  ok (
      layout size ends.1 (arbitrary (0 ∷ data_start ∷ []))
        (multiple tag_ty 0 direct (of_list variant_layouts) tag_size tag_align) false)

unfoldable pub max_size : Size → List Layout → Size
max_size least [] = least
max_size least (variant ∷ variants) = max_size (max least (size_of variant)) variants

-- The offsets that an array's elements get in a niche layout.
unfoldable pub array_offsets : Size → ℕ → Size → List Size
array_offsets stride zero at = []
array_offsets stride (suc count) at = at ∷ array_offsets stride count (saturating_add at stride)

unfoldable pub shape_offsets : FieldsShape → List Size
shape_offsets (arbitrary offsets) = offsets
shape_offsets primitive = 0 ∷ []
shape_offsets (array stride count) = array_offsets stride count 0

-- The variants that a niche stands for: those after the first, or those before another one.
unfoldable pub niche_range : ℕ → ℕ → (ℕ × ℕ)
niche_range zero variant_count = (1, as_u32 (variant_count - 1) (2 ^ 32 - 1))
niche_range (suc before) variant_count = (0, as_u32 before 0)

module _ (ctx : TyCtx) (target : TargetInfo) (layout_of : Ty → Outcome Layout) where
  unfoldable pub build_niche_layout : List Layout → Layout → ℕ → ℕ → Ty → ℕ → Outcome Layout
  build_niche_layout variant_layouts data_layout variant_idx field_idx field_ty niche_start = do
    let range = niche_range variant_idx (length variant_layouts)
    let align = max_align 1 variant_layouts
    size ← align_to (max_size 0 variant_layouts) align
    niche_layout ← layout_of field_ty
    ok (
        layout size align (arbitrary (shape_offsets (fields_of data_layout)))
          (multiple field_ty (as_u32 field_idx 0)
            (niche (as_u32 variant_idx 0) range.0 range.1 niche_start) (of_list variant_layouts)
            (size_of niche_layout) (align_of niche_layout))
          false)

  -- How many values the tag type has; `checked_shl` refuses a width of 128 or more.
  unfoldable pub tag_value_count : Ty → Option ℕ
  tag_value_count tag_ty = elim (ctx.ty_kind tag_ty) [
    | bool_ty ↦ some 256
    | int_ty i ↦
        (if ltb (int_bit_width i target) 128 then some (2 ^ int_bit_width i target) else none)
    | uint_ty i ↦
        (if ltb (uint_bit_width i target) 128 then some (2 ^ uint_bit_width i target) else none)
    | _ ↦ none
  ]

  -- The values that an enum's own tag leaves free.
  unfoldable pub free_values : ℕ → ℕ → TagEncoding → Option (ℕ × ℕ)
  free_values full used direct = if ltb used full then some (used, full - used) else none
  free_values full used (niche untagged zero last niche_start) =
      if ltb 0 (full - suc last) then some (suc last, full - suc last) else none
  free_values full used (niche untagged (suc first) last niche_start) = some (0, suc first)

  -- The arm of `niche_info_inner` for enums; `ok()?` turns an error into `None`.
  unfoldable pub enum_niche : AdtDef → Outcome Layout → Outcome (Option (ℕ × ℕ))
  enum_niche adt_def (ok l) = elim (variants_of l) [
    | single _ ↦ ok none
    | multiple tag _ encoding _ _ _ ↦ elim (tag_value_count tag) [
      | none ↦ ok none
      | some full ↦ ok (free_values full (length adt_def.variants) encoding)
    ]
  ]
  enum_niche adt_def (err _) = ok none
  enum_niche adt_def panics = panics
  enum_niche adt_def no_fuel = no_fuel

  unfoldable pub int_niche : ℕ → Option (ℕ × ℕ)
  int_niche width =
      if width == 8
      then some (2 ^ 7, 1)
      else if width == 16
      then some (2 ^ 15, 1)
      else if width == 32
      then some (2 ^ 31, 1)
      else if width == 64
      then some (2 ^ 63, 1)
      else none

  -- `niche_info`, which starts `niche_info_inner` at depth 0; that never calls itself.
  unfoldable pub niche_info : Ty → Outcome (Option (ℕ × ℕ))
  niche_info ty = elim (ctx.ty_kind ty) [
    | bool_ty ↦ ok (some (2, 254))
    | ref_ty _ ↦ ok (some (0, 1))
    | raw_ptr_ty _ ↦ ok (some (0, 1))
    | int_ty i ↦ ok (int_niche (int_bit_width i target))
    | char_ty ↦ ok (some (1114112, 2 ^ 128 - 1114112))
    | adt_ty adt_id _ ↦ elim (ctx.adt_def adt_id) [
      | none ↦ ok none
      | some adt_def ↦ elim adt_def.kind [
        | enum_kind ↦ enum_niche adt_def (layout_of ty)
        | _ ↦ ok none
      ]
    ]
    | _ ↦ ok none
  ]

  -- The first field of a variant whose niche has `needed` values, from the field `idx` on.
  unfoldable pub find_in_fields : ℕ → ℕ → List Ty → Outcome (Option (ℕ × Ty × ℕ))
  find_in_fields needed idx [] = ok none
  find_in_fields needed idx (ty ∷ tys) = do
    info ← niche_info ty
    let rest = find_in_fields needed (suc idx) tys
    elim info [
      | none ↦ rest
      | some (niche_start, niche_count) ↦
          (if leb needed niche_count then ok (some (idx, ty, niche_start)) else rest)
    ]

  -- The same over the variants, from the variant `idx` on, beside their layouts.
  unfoldable pub find_niche :
      ℕ → ℕ → List VariantDef → List Layout → Outcome (Option (ℕ × Layout × ℕ × Ty × ℕ))
  find_niche needed idx (variant ∷ variants) (data_layout ∷ layouts) = do
    found ← find_in_fields needed 0 variant.fields
    elim found [
      | none ↦ find_niche needed (suc idx) variants layouts
      | some (field_idx, field_ty, niche_start) ↦
          ok (some (idx, data_layout, field_idx, field_ty, niche_start))
    ]
  find_niche needed idx _ _ = ok none

  unfoldable pub try_niche_encoding : AdtDef → List Layout → Outcome (Option Layout)
  try_niche_encoding adt_def variant_layouts = do
    found ← find_niche (length adt_def.variants - 1) 0 adt_def.variants variant_layouts
    elim found [
      | none ↦ ok none
      | some (variant_idx, data_layout, field_idx, field_ty, niche_start) ↦ (do
        l ←
            build_niche_layout variant_layouts data_layout variant_idx field_idx field_ty
              niche_start
        ok (some l))
    ]

  unfoldable pub variant_layouts : List VariantDef → Outcome (List Layout)
  variant_layouts [] = ok []
  variant_layouts (variant ∷ variants) = do
    l ← layout_variant_data layout_of variant
    ls ← variant_layouts variants
    ok (l ∷ ls)

  -- One variant has no tag; more have a niche where there is one.
  unfoldable pub layout_enum : AdtDef → Ty → Outcome Layout
  layout_enum adt_def outer_ty = elim adt_def.variants [
    | [] ↦ err (unknown_type outer_ty)
    | variant ∷ [] ↦ lay_out layout_of variant.fields
    | _ ∷ _ ∷ _ ↦ (do
      layouts ← variant_layouts adt_def.variants
      encoded ← try_niche_encoding adt_def layouts
      elim encoded [ none ↦ direct_tag_encoding layouts | some l ↦ ok l ])
  ]
