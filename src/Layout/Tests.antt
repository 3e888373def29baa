-- ===== src/Layout/Tests.antt =====
-- Layouts of concrete types (crates/glyim-layout/src/lib.rs).
use glyim_v.Prelude.{
  ℕ, ◌+◌, ◌*◌, ◌≤◌, map, false, ◌^◌, ◌<◌, ◌≡◌, refl, ◌==◌, if◌then◌else◌, none, some, [], ◌∷◌,
  arith,
}
use glyim_v.Layout.Types.{
  TraitDef, abi_glyim, TargetInfo, pointer_size, pointer_align, int_bit_width, ty_u16, bool_ty,
  int_ty, adt_ty, unit_ty, int_64, AdtDef, struct_kind, TyCtx,
}
use glyim_v.Layout.Shape.{
  ok, no_fuel, align_to, saturating_add, any_power, from_bytes, Layout, layout, arbitrary, single,
  scalar,
}
use glyim_v.Layout.Fields.{place, finish, place_fields, lay_out, layout_struct}
use glyim_v.Layout.Enum.{discriminant_info, niche_info, int_niche}
use glyim_v.Layout.Compute.{within_align_max, scalar_bytes, layout_adt, layout_kind, layout_of}
use glyim_v.Layout.Placement.{IsStructure}
use glyim_v.Layout.Sound.{IsSound}
use glyim_v.Layout.Invariant.{layout_of-IsSound}
use glyim_v.Layout.Structs.{layout_of-IsStructure, layout_of-recursive}
use glyim_v.Layout.Vtable.{VTableLayout, memory_size, method_offset, vtable_entry, vtable_of}
use glyim_v.Layout.Slots.{vtable_of-slots}
use glyim_v.Layout.Tags.{IsTagFor, discriminant_info-IsTagFor, niche_info-int}

abbrev target : TargetInfo
target = record { pointer_width = 64 }

-- `struct { bool, i64, bool }`, and a struct of itself.
abbrev mixed : AdtDef
mixed = record { kind = struct_kind; fields = 0 ∷ 1 ∷ 0 ∷ []; variants = [] }

abbrev looping : AdtDef
looping = record { kind = struct_kind; fields = 3 ∷ []; variants = [] }

abbrev ctx : TyCtx
ctx = record {
  ty_kind = λ ty.
      if ty == 0
      then bool_ty
      else if ty == 1
      then int_ty int_64
      else if ty == 2
      then adt_ty 0 0
      else if ty == 3
      then adt_ty 1 0
      else unit_ty;
  substitution_args = λ _. [];
  adt_def = λ id. if id == 0 then some mixed else if id == 1 then some looping else none;
  adt_repr = λ _. none;
  trait_def = λ _. none;
}

abbrev mixed_layout : Layout
mixed_layout = layout 24 8 (arbitrary (0 ∷ 8 ∷ 16 ∷ [])) (single 0) false

mixed_has_layout : layout_of ctx target 2 2 ≡ ok mixed_layout
unfolding layout_of layout_kind layout_adt layout_struct lay_out place_fields place finish
    within_align_max scalar_bytes scalar align_to saturating_add any_power from_bytes pointer_align
    pointer_size int_bit_width
mixed_has_layout = refl

layout_of-IsSound_example : IsSound mixed_layout
layout_of-IsSound_example =
    layout_of-IsSound ctx target 2 2 mixed_layout (omega arith) mixed_has_layout

layout_of-IsStructure_example : IsStructure (layout_of ctx target 1) (0 ∷ 1 ∷ 0 ∷ []) mixed_layout
layout_of-IsStructure_example =
    layout_of-IsStructure ctx target 1 2 0 0 mixed mixed_layout (omega arith) refl refl refl
      mixed_has_layout (omega arith)

pointers_aligned : from_bytes (pointer_align target) ≡ ok 8
unfolding from_bytes pointer_align pointer_size any_power
pointers_aligned = refl

layout_of-recursive_example : layout_of ctx target 1000 3 ≡ no_fuel
layout_of-recursive_example =
    layout_of-recursive ctx target 1000 3 1 0 looping [] 8 pointers_aligned refl refl refl refl

tag_of_300 : discriminant_info 300 ≡ ok (2, 2, ty_u16)
unfolding discriminant_info from_bytes any_power
tag_of_300 = refl

discriminant_info-IsTagFor_example :
    (info : ℕ × ℕ × ℕ) × (discriminant_info 300 ≡ ok info) × IsTagFor 300 info
discriminant_info-IsTagFor_example = discriminant_info-IsTagFor 300 (omega arith)

niche_of_i64 : niche_info ctx target (layout_of ctx target 1) 1 ≡ ok (some (2 ^ 63, 1))
unfolding niche_info int_niche int_bit_width
niche_of_i64 = refl

niche_info-int_example : 2 ^ 63 < 2 ^ int_bit_width int_64 target
niche_info-int_example =
    niche_info-int ctx target (layout_of ctx target 1) 1 int_64 (2 ^ 63) 1 refl niche_of_i64

-- A trait with two methods, and its vtable for `bool`.
abbrev shape : TraitDef
shape = record {
  methods =
      record {
        name = 0;
        sig = record { inputs = 0; output = 0; c_variadic = false; abi = abi_glyim };
        fn_def_id = some 5;
      }
      ∷ record {
        name = 1;
        sig = record { inputs = 0; output = 0; c_variadic = false; abi = abi_glyim };
        fn_def_id = none;
      }
      ∷ [];
}

abbrev traits : TyCtx
traits = record ctx { trait_def = λ _. some shape }

abbrev table : VTableLayout
table = record {
  trait_def_id = 0;
  concrete_ty = 0;
  size = 1;
  align = 1;
  drop_fn = none;
  methods = map vtable_entry shape.methods;
}

has_table : vtable_of traits target 1 0 0 ≡ ok table
unfolding vtable_of layout_of layout_kind within_align_max scalar from_bytes any_power pointer_align
    pointer_size
has_table = refl

pointers_are_eight : pointer_size target ≡ 8
unfolding pointer_size
pointers_are_eight = refl

vtable_of-slots_example :
    let p = pointer_size target in
    (total : ℕ) × (memory_size table p ≡ ok (record { size = total; align = p }))
    × (total ≡ (3 + 2) * p)
    × ((j : ℕ)
        → j < 2
        → (slot : ℕ) × (method_offset table j p ≡ ok slot)
          × (3 * p ≤ slot)
          × (slot + p ≤ total)
          × ((i earlier : ℕ) → i < j → method_offset table i p ≡ ok earlier → earlier + p ≤ slot))
vtable_of-slots_example =
    vtable_of-slots traits target 1 0 0 shape table refl has_table
      (rw pointers_are_eight (omega arith)) (rw pointers_are_eight (omega arith))
