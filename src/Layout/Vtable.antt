-- ===== src/Layout/Vtable.antt =====
-- Vtables (crates/glyim-layout/src/vtable.rs, and `vtable_of` in crates/glyim-layout/src/lib.rs).
use glyim_v.Prelude.{ℕ, ◌+◌, ◌*◌, Option, none, some, List, length, map, ltb, if◌then◌else◌}
use glyim_v.Layout.Types.{TargetInfo, Ty, FnSig, MethodDef, TyCtx}
use glyim_v.Layout.Shape.{
  Size, Align, unknown_trait, Outcome, ok, err, panics, ◌>>=◌, u64_size, size_of, align_of,
}
use glyim_v.Layout.Compute.{layout_of}

pub record VTableEntry : Type 0 where
  pub name : ℕ
  pub sig : FnSig
  pub fn_def_id : ℕ

pub record VTableLayout : Type 0 where
  pub trait_def_id : ℕ
  pub concrete_ty : Ty
  pub size : Size
  pub align : Align
  pub drop_fn : Option ℕ
  pub methods : List VTableEntry

pub record VTableSize : Type 0 where
  pub size : ℕ
  pub align : ℕ

-- A sum of two `usize`s and a product of two `u64`s, which panic when they overflow.
unfoldable pub add_usize : ℕ → ℕ → Outcome ℕ
add_usize a b = if ltb (a + b) u64_size then ok (a + b) else panics

unfoldable pub mul_u64 : ℕ → ℕ → Outcome ℕ
mul_u64 a b = if ltb (a * b) u64_size then ok (a * b) else panics

unfoldable pub memory_size : VTableLayout → ℕ → Outcome VTableSize
memory_size vtable ptr_size = do
  entry_count ← add_usize 3 (length vtable.methods)
  size ← mul_u64 entry_count ptr_size
  ok (record { size = size; align = ptr_size })

unfoldable pub method_offset : VTableLayout → ℕ → ℕ → Outcome ℕ
method_offset vtable index ptr_size = do entry ← add_usize 3 index; mul_u64 entry ptr_size

-- `u32::MAX` stands for a method that is not known yet.
unfoldable pub vtable_entry : MethodDef → VTableEntry
vtable_entry method = record {
  name = method.name;
  sig = method.sig;
  fn_def_id = elim method.fn_def_id [ none ↦ 4294967295 | some id ↦ id ];
}

unfoldable pub vtable_of : TyCtx → TargetInfo → ℕ → ℕ → Ty → Outcome VTableLayout
vtable_of ctx target fuel trait_def_id concrete_ty = do
  concrete_layout ← layout_of ctx target fuel concrete_ty
  elim (ctx.trait_def trait_def_id) [
    | none ↦ err (unknown_trait trait_def_id)
    | some trait_def ↦ ok (record {
      trait_def_id = trait_def_id;
      concrete_ty = concrete_ty;
      size = size_of concrete_layout;
      align = align_of concrete_layout;
      drop_fn = none;
      methods = map vtable_entry trait_def.methods;
    })
  ]
