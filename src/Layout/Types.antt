-- ===== src/Layout/Types.antt =====
-- The types as the layout engine sees them: `TargetInfo` and the primitive types
-- (crates/glyim-core/src/primitives.rs), `TyKind`, `GenericArg`, `Const`, `AdtDef`, `AdtRepr`,
-- `FnSig`, `TraitDef` (crates/glyim-type/src). Identifiers of interned data are numbers; the payloads
-- that the engine never reads (regions, names, binders, styles) are left out.
use glyim_v.Prelude.{ℕ, ◌/◌, Bool, Option, List}
use glyim_v.Prelude.Int.{ℤ}

-- The triple and its ABI are not read here.
pub record TargetInfo : Type 0 where
  pub pointer_width : ℕ

unfoldable pub pointer_size : TargetInfo → ℕ
pointer_size target = target.pointer_width / 8

unfoldable pub pointer_align : TargetInfo → ℕ
pointer_align target = pointer_size target

pub data IntTy : Type 0 where
  int_8 int_16 int_32 int_64 int_size : IntTy

pub data UintTy : Type 0 where
  uint_8 uint_16 uint_32 uint_64 uint_size : UintTy

pub data FloatTy : Type 0 where
  float_32 float_64 : FloatTy

-- The three `bit_width` methods.
unfoldable pub int_bit_width : IntTy → TargetInfo → ℕ
int_bit_width int_8 target = 8
int_bit_width int_16 target = 16
int_bit_width int_32 target = 32
int_bit_width int_64 target = 64
int_bit_width int_size target = target.pointer_width

unfoldable pub uint_bit_width : UintTy → TargetInfo → ℕ
uint_bit_width uint_8 target = 8
uint_bit_width uint_16 target = 16
uint_bit_width uint_32 target = 32
uint_bit_width uint_64 target = 64
uint_bit_width uint_size target = target.pointer_width

unfoldable pub float_bit_width : FloatTy → ℕ
float_bit_width float_32 = 32
float_bit_width float_64 = 64

pub data Abi : Type 0 where
  abi_c abi_glyim abi_system : Abi

-- An interned type, with the constants of the tag types.
abbrev pub Ty : Type 0
Ty = ℕ

abbrev pub ty_u8 : Ty
ty_u8 = 4

abbrev pub ty_u16 : Ty
ty_u16 = 5

abbrev pub ty_u32 : Ty
ty_u32 = 6

abbrev pub ty_u64 : Ty
ty_u64 = 7

pub data ConstKind : Type 0 where
  const_int : ℤ → ConstKind
  const_uint : ℕ → ConstKind
  const_float_bits : ℕ → ConstKind
  const_bool : Bool → ConstKind
  const_char : ℕ → ConstKind
  const_string const_unit const_infer const_param const_error : ConstKind

pub record FnSig : Type 0 where
  pub inputs : ℕ
  pub output : Ty
  pub c_variadic : Bool
  pub abi : Abi

pub data TyKind : Type 0 where
  never_ty unit_ty bool_ty char_ty string_ty infer_ty error_ty : TyKind
  int_ty : IntTy → TyKind
  uint_ty : UintTy → TyKind
  float_ty : FloatTy → TyKind
  adt_ty : ℕ → ℕ → TyKind
  fn_def_ty closure_ty opaque_ty : ℕ → ℕ → TyKind
  fn_ptr_ty : FnSig → TyKind
  ref_ty raw_ptr_ty slice_ty : Ty → TyKind
  array_ty : Ty → ConstKind → TyKind
  tuple_ty : ℕ → TyKind
  dynamic_ty projection_ty param_ty bound_ty : TyKind

pub data GenericArg : Type 0 where
  arg_ty : Ty → GenericArg
  arg_lifetime : GenericArg
  arg_const : ConstKind → GenericArg

pub data AdtKind : Type 0 where
  struct_kind enum_kind union_kind : AdtKind

-- `FieldDef` without its name, and `VariantDef` without its name and its style.
abbrev pub FieldDef : Type 0
FieldDef = Ty

pub record VariantDef : Type 0 where
  pub fields : List FieldDef

pub record AdtDef : Type 0 where
  pub kind : AdtKind
  pub fields : List FieldDef
  pub variants : List VariantDef

pub record AdtRepr : Type 0 where
  pub field_tys : List Ty

pub record MethodDef : Type 0 where
  pub name : ℕ
  pub sig : FnSig
  pub fn_def_id : Option ℕ

pub record TraitDef : Type 0 where
  pub methods : List MethodDef

-- What the engine asks of the type context.
pub record TyCtx : Type 0 where
  pub ty_kind : Ty → TyKind
  pub substitution_args : ℕ → List GenericArg
  pub adt_def : ℕ → Option AdtDef
  pub adt_repr : ℕ → Option AdtRepr
  pub trait_def : ℕ → Option TraitDef
