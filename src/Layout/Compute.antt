-- ===== src/Layout/Compute.antt =====
-- `layout_of`, `layout_adt`, `pass_mode_for` and `fn_abi_of` of `SimpleLayoutComputer`
-- (crates/glyim-layout/src/lib.rs). The recursion through a type's parts is on fuel.
use glyim_v.Prelude.{
  ℕ, zero, suc, ◌/◌, Bool, false, ◌&&◌, not, none, some, List, [], ◌∷◌, ltb, ◌==◌, if◌then◌else◌,
}
use glyim_v.Layout.Types.{
  TargetInfo, pointer_size, pointer_align, int_bit_width, uint_bit_width, float_bit_width, Abi,
  abi_c, abi_glyim, abi_system, Ty, FnSig, TyKind, never_ty, unit_ty, bool_ty, char_ty, string_ty,
  int_ty, uint_ty, float_ty, adt_ty, closure_ty, fn_ptr_ty, ref_ty, raw_ptr_ty, slice_ty, array_ty,
  tuple_ty, dynamic_ty, GenericArg, arg_ty, arg_lifetime, arg_const, struct_kind, enum_kind,
  union_kind, TyCtx,
}
use glyim_v.Layout.Shape.{
  Align, unknown_type, unsized, alignment_exceeds_runtime, Outcome, ok, err, panics, no_fuel, ◌>>=◌,
  saturating_mul, from_bytes, arbitrary, Layout, layout, single, scalar, unit, size_of, align_of,
  is_unsized,
}
use glyim_v.Layout.Fields.{
  layout_tuple, layout_struct, layout_repr, layout_array, layout_union, layout_closure,
}
use glyim_v.Layout.Enum.{layout_enum}

pub data CallConvention : Type 0 where
  glyim_call c_call system_call : CallConvention

-- `From<Abi> for CallConvention`
unfoldable pub call_convention : Abi → CallConvention
call_convention abi_c = c_call
call_convention abi_glyim = glyim_call
call_convention abi_system = system_call

mutual
  pub data PassMode : Type 0 where
    pass_direct pass_ignore : PassMode
    pass_indirect : (meta_attrs : Bool) → PassMode
    pass_cast : (to : Ty) (cast_int : Bool) → PassMode
    pass_homogeneous : (element_ty : Ty) (count : ℕ) → PassMode
    pass_split : PassModes → PassMode

  pub data PassModes : Type 0 where
    no_pieces : PassModes
    add_piece : PassMode → PassModes → PassModes

pub record ArgAbi : Type 0 where
  pub ty : Ty
  pub layout : Layout
  pub mode : PassMode

pub record FnAbi : Type 0 where
  pub args : List ArgAbi
  pub ret : ArgAbi
  pub conv : CallConvention
  pub c_variadic : Bool

-- `ALIGN_MAX` (crates/glyim-core/src/abi.rs)
abbrev pub align_max : ℕ
align_max = 64

-- The check at the end of `layout_of`.
unfoldable pub within_align_max : Ty → Layout → Outcome Layout
within_align_max ty l =
    if ltb align_max (align_of l)
    then err (alignment_exceeds_runtime ty (align_of l) align_max)
    else ok l

-- A scalar of `byte_width` bytes that is aligned to its width.
unfoldable pub scalar_bytes : ℕ → Outcome Layout
scalar_bytes byte_width = do align ← from_bytes byte_width; ok (scalar byte_width align)

unfoldable pub by_convention : Layout → CallConvention → PassMode
by_convention l glyim_call = pass_direct
by_convention l _ = if ltb 16 (size_of l) then pass_indirect false else pass_direct

module _ (ctx : TyCtx) (target : TargetInfo) where
  -- Two pointers side by side: `Dynamic` and `String`.
  unfoldable pub wide_pointer : Align → Layout
  wide_pointer ptr_align =
      let raw_size = pointer_size target in
      layout (saturating_mul raw_size 2) ptr_align (arbitrary (0 ∷ raw_size ∷ [])) (single 0) false

  unfoldable pub layout_adt : (Ty → Outcome Layout) → ℕ → Ty → Outcome Layout
  layout_adt layout_of adt_id outer_ty = elim (ctx.adt_def adt_id) [
    | none ↦ elim (ctx.adt_repr adt_id) [
      | none ↦ err (unknown_type outer_ty)
      | some repr ↦ layout_repr layout_of repr
    ]
    | some adt_def ↦ elim adt_def.kind [
      | struct_kind ↦ layout_struct layout_of adt_def
      | enum_kind ↦ layout_enum ctx target layout_of adt_def outer_ty
      | union_kind ↦ layout_union layout_of adt_def
    ]
  ]

  -- The `match` of `layout_of`; the arms that do not `return` go on to the check of the alignment.
  unfoldable pub layout_kind : (Ty → Outcome Layout) → Ty → Align → TyKind → Outcome Layout
  layout_kind layout_of ty ptr_align bool_ty = within_align_max ty (scalar 1 1)
  layout_kind layout_of ty ptr_align (int_ty i) = do
    l ← scalar_bytes (int_bit_width i target / 8)
    within_align_max ty l
  layout_kind layout_of ty ptr_align (uint_ty u) = do
    l ← scalar_bytes (uint_bit_width u target / 8)
    within_align_max ty l
  layout_kind layout_of ty ptr_align (float_ty f) = do
    l ← scalar_bytes (float_bit_width f / 8)
    within_align_max ty l
  layout_kind layout_of ty ptr_align char_ty = do l ← scalar_bytes 4; within_align_max ty l
  layout_kind layout_of ty ptr_align never_ty = within_align_max ty (scalar 0 1)
  layout_kind layout_of ty ptr_align unit_ty = within_align_max ty unit
  layout_kind layout_of ty ptr_align (ref_ty _) =
      within_align_max ty (scalar (pointer_size target) ptr_align)
  layout_kind layout_of ty ptr_align (raw_ptr_ty _) =
      within_align_max ty (scalar (pointer_size target) ptr_align)
  layout_kind layout_of ty ptr_align (fn_ptr_ty _) =
      within_align_max ty (scalar (pointer_size target) ptr_align)
  layout_kind layout_of ty ptr_align dynamic_ty = within_align_max ty (wide_pointer ptr_align)
  layout_kind layout_of ty ptr_align string_ty = within_align_max ty (wide_pointer ptr_align)
  layout_kind layout_of ty ptr_align (slice_ty _) = err (unsized ty)
  layout_kind layout_of ty ptr_align (tuple_ty substs) =
      layout_tuple layout_of (ctx.substitution_args substs)
  layout_kind layout_of ty ptr_align (array_ty inner count) = layout_array layout_of inner count ty
  layout_kind layout_of ty ptr_align (adt_ty adt_id _) = layout_adt layout_of adt_id ty
  layout_kind layout_of ty ptr_align (closure_ty _ substs) = elim (ctx.substitution_args substs) [
    | [] ↦ ok unit
    | arg ∷ args ↦ (do l ← layout_closure layout_of (arg ∷ args); within_align_max ty l)
  ]
  layout_kind layout_of ty ptr_align _ = err (unknown_type ty)

  unfoldable pub layout_of : ℕ → Ty → Outcome Layout
  layout_of zero ty = no_fuel
  layout_of (suc fuel) ty = do
    ptr_align ← from_bytes (pointer_align target)
    layout_kind (layout_of fuel) ty ptr_align (ctx.ty_kind ty)

  unfoldable pub pass_mode_for : Ty → Layout → CallConvention → PassMode
  pass_mode_for ty l conv = elim (ctx.ty_kind ty) [
    | never_ty ↦ pass_ignore
    | unit_ty ↦ pass_ignore
    | _ ↦ (if size_of l == 0 && not (is_unsized l) then pass_ignore else by_convention l conv)
  ]

  -- The arguments' ABIs: one whose type has no layout is left out.
  unfoldable pub arg_abis : ℕ → CallConvention → List GenericArg → Outcome (List ArgAbi)
  arg_abis fuel conv [] = ok []
  arg_abis fuel conv (arg_ty t ∷ args) =
      let rest = arg_abis fuel conv args in
      elim (layout_of fuel t) [
        | ok l ↦ (do
          abis ← rest
          ok (record { ty = t; layout = l; mode = pass_mode_for t l conv } ∷ abis))
        | err _ ↦ rest
        | panics ↦ panics
        | no_fuel ↦ no_fuel
      ]
  arg_abis fuel conv (arg_lifetime ∷ args) = arg_abis fuel conv args
  arg_abis fuel conv (arg_const _ ∷ args) = arg_abis fuel conv args

  unfoldable pub fn_abi_of : ℕ → FnSig → Outcome FnAbi
  fn_abi_of fuel sig = do
    let conv = call_convention sig.abi
    args ← arg_abis fuel conv (ctx.substitution_args sig.inputs)
    l ← layout_of fuel sig.output
    ok (record {
      args = args;
      ret = record { ty = sig.output; layout = l; mode = pass_mode_for sig.output l conv };
      conv = conv;
      c_variadic = sig.c_variadic;
    })
