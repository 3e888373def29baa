-- ===== src/Layout/Fields.antt =====
-- The field placement loops of `SimpleLayoutComputer` (crates/glyim-layout/src/lib.rs): structs,
-- tuples, arrays, unions, closures and the variants of an enum. `layout_of` is the method on the types
-- inside, and `lay_out` is the loop that the source repeats for each of them.
use glyim_v.Prelude.{ℕ, max, none, some, List, [], ◌∷◌, ◌++◌, ltb, if◌then◌else◌, false}
use glyim_v.Prelude.Int.{ℤ}
use glyim_v.Layout.Types.{
  Ty, ConstKind, const_int, const_uint, GenericArg, arg_ty, AdtDef, VariantDef, AdtRepr,
}
use glyim_v.Layout.Shape.{
  Size, Align, unknown_type, size_overflow, Outcome, ok, err, ◌>>=◌, u64_size, align_to,
  checked_mul, saturating_add, array, arbitrary, Layout, layout, single, unit, size_of, align_of,
}

-- The local variables of a loop.
pub record Placed : Type 0 where
  pub offsets : List Size
  pub align : Align
  pub current : Size

abbrev pub start : Placed
start = record { offsets = []; align = 1; current = 0 }

-- One round, for a field with this layout.
unfoldable pub place : Layout → Placed → Outcome Placed
place field placed = do
  at ← align_to placed.current (align_of field)
  ok (record {
    offsets = placed.offsets ++ (at ∷ []);
    align = max placed.align (align_of field);
    current = saturating_add at (size_of field);
  })

unfoldable pub finish : Placed → Outcome Layout
finish placed = do
  size ← align_to placed.current placed.align
  ok (layout size placed.align (arbitrary placed.offsets) (single 0) false)

-- The types among generic arguments.
unfoldable pub arg_tys : List GenericArg → List Ty
arg_tys [] = []
arg_tys (arg_ty t ∷ args) = t ∷ arg_tys args
arg_tys (_ ∷ args) = arg_tys args

-- The loop of `layout_closure` over layouts that are there already.
unfoldable pub place_all : List Layout → Placed → Outcome Placed
place_all [] placed = ok placed
place_all (field ∷ fields) placed = do placed' ← place field placed; place_all fields placed'

-- `Align::max` and `Size::max` over the fields of a union.
unfoldable pub overlay : Layout → Placed → Placed
overlay field placed = record {
  offsets = placed.offsets ++ (0 ∷ []);
  align = max placed.align (align_of field);
  current = max placed.current (size_of field);
}

-- `u64::try_from` of an array's length.
unfoldable pub array_count : ConstKind → Ty → Outcome ℕ
array_count (const_uint n) outer_ty = if ltb n u64_size then ok n else err (size_overflow outer_ty)
array_count (const_int (ℤ.negsuc n)) outer_ty = err (size_overflow outer_ty)
array_count (const_int (ℤ.pos n)) outer_ty =
    if ltb n u64_size then ok n else err (size_overflow outer_ty)
array_count _ outer_ty = err (unknown_type outer_ty)

module _ (layout_of : Ty → Outcome Layout) where
  -- The loop over the fields, from where it stands.
  unfoldable pub place_fields : List Ty → Placed → Outcome Placed
  place_fields [] placed = ok placed
  place_fields (ty ∷ tys) placed = do
    field ← layout_of ty
    placed' ← place field placed
    place_fields tys placed'

  unfoldable pub lay_out : List Ty → Outcome Layout
  lay_out tys = do placed ← place_fields tys start; finish placed

  unfoldable pub layout_tuple : List GenericArg → Outcome Layout
  layout_tuple [] = ok unit
  layout_tuple (arg ∷ args) = lay_out (arg_tys (arg ∷ args))

  unfoldable pub layout_struct : AdtDef → Outcome Layout
  layout_struct adt_def = lay_out adt_def.fields

  unfoldable pub layout_repr : AdtRepr → Outcome Layout
  layout_repr repr = lay_out repr.field_tys

  unfoldable pub layout_variant_data : VariantDef → Outcome Layout
  layout_variant_data variant = lay_out variant.fields

  unfoldable pub layout_array : Ty → ConstKind → Ty → Outcome Layout
  layout_array inner count outer_ty = do
    inner_layout ← layout_of inner
    count_val ← array_count count outer_ty
    stride ← align_to (size_of inner_layout) (align_of inner_layout)
    elim (checked_mul stride count_val) [
      | none ↦ err (size_overflow outer_ty)
      | some size ↦
          ok (layout size (align_of inner_layout) (array stride count_val) (single 0) false)
    ]

  unfoldable pub overlay_fields : List Ty → Placed → Outcome Placed
  overlay_fields [] placed = ok placed
  overlay_fields (ty ∷ tys) placed = do
    field ← layout_of ty
    overlay_fields tys (overlay field placed)

  unfoldable pub layout_union : AdtDef → Outcome Layout
  layout_union adt_def = do placed ← overlay_fields adt_def.fields start; finish placed

  unfoldable pub layouts_of : List Ty → Outcome (List Layout)
  layouts_of [] = ok []
  layouts_of (ty ∷ tys) = do field ← layout_of ty; fields ← layouts_of tys; ok (field ∷ fields)

  -- The arm of `layout_of` for closures.
  unfoldable pub layout_closure : List GenericArg → Outcome Layout
  layout_closure args = do
    fields ← layouts_of (arg_tys args)
    elim fields [
      | [] ↦ ok unit
      | field ∷ others ↦ (do placed ← place_all (field ∷ others) start; finish placed)
    ]
