-- ===== src/Mir/Drop.antt =====
-- The type of a place (crates/glyim-mir/src/lib.rs), and which types need drop glue
-- (crates/glyim-type/src/ty_ctx.rs). A recursion through the types of a context has fuel, and `none` is
-- out of it.
use glyim_v.Prelude.{
  ℕ, zero, suc, Bool, true, false, Option, none, some, List, [], ◌∷◌, get_elem?, contains,
  if◌then◌else◌,
}
use glyim_v.Layout.Types.{
  Ty, TyKind, never_ty, unit_ty, bool_ty, char_ty, string_ty, int_ty, uint_ty, float_ty, adt_ty,
  closure_ty, ref_ty, raw_ptr_ty, slice_ty, array_ty, tuple_ty, GenericArg, arg_ty, arg_lifetime,
  arg_const, AdtDef, struct_kind, enum_kind, union_kind, TyCtx,
}
use glyim_v.Mir.Types.{
  ProjectionElem, deref, field, index, downcast, constant_index, subslice, Place,
}

-- The type context with the types that have a `Drop` implementation.
pub record DropCtx : Type 0 where
  pub types : TyCtx
  pub drop_impls : List ℕ

abbrev pub ty_error : Ty
ty_error = 0

abbrev pub or_error : Option Ty → Ty
or_error none = ty_error
or_error (some ty) = ty

unfoldable pub field_ty : TyCtx → ℕ → ℕ → Ty
field_ty ctx adt_id field_idx = elim (ctx.adt_def adt_id) [
  | some def ↦ or_error (get_elem? def.fields field_idx)
  | none ↦ elim (ctx.adt_repr adt_id) [
    | some repr ↦ or_error (get_elem? repr.field_tys field_idx)
    | none ↦ ty_error
  ]
]

abbrev pub arg_type : Option GenericArg → Ty
arg_type (some (arg_ty ty)) = ty
arg_type _ = ty_error

abbrev pub deref_kind : TyKind → Ty
deref_kind (ref_ty inner) = inner
deref_kind (raw_ptr_ty inner) = inner
deref_kind _ = ty_error

abbrev pub field_kind : TyCtx → ℕ → TyKind → Ty
field_kind ctx idx (tuple_ty substs) = arg_type (get_elem? (ctx.substitution_args substs) idx)
field_kind ctx idx (adt_ty adt_id substs) = field_ty ctx adt_id idx
field_kind ctx idx _ = ty_error

abbrev pub element_kind : TyKind → Ty
element_kind (array_ty inner len) = inner
element_kind (slice_ty inner) = inner
element_kind _ = ty_error

abbrev pub subslice_kind : Ty → TyKind → Ty
subslice_kind ty (slice_ty inner) = ty
subslice_kind ty (array_ty inner len) = inner
subslice_kind ty _ = ty_error

unfoldable pub project_ty : TyCtx → Ty → ProjectionElem → Ty
project_ty ctx ty deref = deref_kind (ctx.ty_kind ty)
project_ty ctx ty (field idx) = field_kind ctx idx (ctx.ty_kind ty)
project_ty ctx ty (index local) = element_kind (ctx.ty_kind ty)
project_ty ctx ty (downcast variant) = ty
project_ty ctx ty (constant_index offset min_length from_end) = element_kind (ctx.ty_kind ty)
project_ty ctx ty (subslice from to from_end) = subslice_kind ty (ctx.ty_kind ty)

unfoldable pub project_all : TyCtx → Ty → List ProjectionElem → Ty
project_all ctx ty [] = ty
project_all ctx ty (elem ∷ projection) = project_all ctx (project_ty ctx ty elem) projection

-- `Place::ty`: a local that is not declared panics.
unfoldable pub place_ty : TyCtx → List Ty → Place → Option Ty
place_ty ctx locals place = elim (get_elem? locals place.local) [
  | none ↦ none
  | some ty ↦ some (project_all ctx ty place.projection)
]

-- `any` and `all` over tests that may be out of fuel, from left to right.
unfoldable pub any_of : {A : Type 0} → (A → Option Bool) → List A → Option Bool
any_of test [] = some false
any_of test (x ∷ xs) = elim (test x) [
  | none ↦ none
  | some true ↦ some true
  | some false ↦ any_of test xs
]

abbrev pub negated : Option Bool → Option Bool
negated none = none
negated (some true) = some false
negated (some false) = some true

abbrev pub copy_arg : (Ty → Option Bool) → GenericArg → Option Bool
copy_arg rec (arg_ty ty) = negated (rec ty)
copy_arg rec arg_lifetime = some false
copy_arg rec (arg_const value) = some false

unfoldable pub copy_kind : TyCtx → (Ty → Option Bool) → TyKind → Option Bool
copy_kind ctx rec bool_ty = some true
copy_kind ctx rec (int_ty size) = some true
copy_kind ctx rec (uint_ty size) = some true
copy_kind ctx rec (float_ty size) = some true
copy_kind ctx rec char_ty = some true
copy_kind ctx rec never_ty = some true
copy_kind ctx rec unit_ty = some true
copy_kind ctx rec (array_ty inner len) = rec inner
copy_kind ctx rec (tuple_ty substs) = negated (any_of (copy_arg rec) (ctx.substitution_args substs))
copy_kind ctx rec _ = some false

unfoldable pub is_copy : ℕ → TyCtx → Ty → Option Bool
is_copy zero ctx ty = none
is_copy (suc fuel) ctx ty = copy_kind ctx (is_copy fuel ctx) (ctx.ty_kind ty)

abbrev pub has_drop_impl : DropCtx → ℕ → Bool
has_drop_impl ctx adt_id = contains ctx.drop_impls adt_id

abbrev pub drop_arg : (Ty → Option Bool) → GenericArg → Option Bool
drop_arg rec (arg_ty ty) = rec ty
drop_arg rec arg_lifetime = some false
drop_arg rec (arg_const value) = some false

abbrev pub drop_def : (Ty → Option Bool) → Option AdtDef → Option Bool
drop_def rec none = some false
drop_def rec (some def) = elim def.kind [
  | union_kind ↦ some true
  | struct_kind ↦ any_of (λ variant. any_of rec variant.fields) def.variants
  | enum_kind ↦ any_of (λ variant. any_of rec variant.fields) def.variants
]

unfoldable pub drop_kind : DropCtx → (Ty → Option Bool) → TyKind → Option Bool
drop_kind ctx rec string_ty = some true
drop_kind ctx rec (slice_ty inner) = rec inner
drop_kind ctx rec (array_ty inner len) = rec inner
drop_kind ctx rec (tuple_ty substs) = any_of (drop_arg rec) (ctx.types.substitution_args substs)
drop_kind ctx rec (closure_ty id substs) =
    any_of (drop_arg rec) (ctx.types.substitution_args substs)
drop_kind ctx rec (adt_ty adt_id substs) =
    if has_drop_impl ctx adt_id then some true else drop_def rec (ctx.types.adt_def adt_id)
drop_kind ctx rec _ = some false

-- `visited` holds the types on the path to this one.
unfoldable pub needs_drop_rec : ℕ → DropCtx → List Ty → Ty → Option Bool
needs_drop_rec zero ctx visited ty = none
needs_drop_rec (suc fuel) ctx visited ty = elim (is_copy fuel ctx.types ty) [
  | none ↦ none
  | some true ↦ some false
  | some false ↦
      let explore = drop_kind ctx (needs_drop_rec fuel ctx (ty ∷ visited)) (ctx.types.ty_kind ty) in
      if contains visited ty then some false else explore
]

unfoldable pub needs_drop : ℕ → DropCtx → Ty → Option Bool
needs_drop fuel ctx ty = needs_drop_rec fuel ctx [] ty
