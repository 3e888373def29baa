-- ===== src/Layout/Invariant.antt =====
-- The size and the alignment of every layout (crates/glyim-layout/src/lib.rs), through enums and
-- the recursion of `layout_of`.
use glyim_v.Prelude.{
  ℕ, zero, suc, ◌/◌, ◌^◌, ◌<◌, ◌≡◌, subst, List, [], ◌∷◌, inl, inr, if_cases, ltb, arith,
}
use glyim_v.Layout.Types.{
  TargetInfo, pointer_size, pointer_align, int_bit_width, uint_bit_width, float_bit_width, Ty,
  TyCtx, GenericArg, TyKind, never_ty, unit_ty, bool_ty, char_ty, string_ty, infer_ty, error_ty,
  int_ty, uint_ty, float_ty, adt_ty, fn_def_ty, closure_ty, opaque_ty, fn_ptr_ty, ref_ty,
  raw_ptr_ty, slice_ty, array_ty, tuple_ty, dynamic_ty, projection_ty, param_ty, bound_ty,
}
use glyim_v.Layout.Shape.{
  Align, Outcome, ok, ◌>>=◌, from_bytes, saturating_mul, Layout, scalar, unit, align_of,
}
use glyim_v.Layout.Align.{IsAlign, >>=-ok, ok-inj, from_bytes-IsAlign}
use glyim_v.Layout.Fields.{layout_closure}
use glyim_v.Layout.Compute.{within_align_max, scalar_bytes, wide_pointer, layout_kind, layout_of}
use glyim_v.Layout.Sound.{
  IsSound, one-IsAlign, unit-IsSound, layout_tuple-IsSound, layout_closure-IsSound,
  layout_array-IsSound,
}
use glyim_v.Layout.Declared.{layout_adt-IsSound}

within_align_max-IsSound :
    (ty : Ty) (k l : Layout) → IsSound k → within_align_max ty k ≡ ok l → IsSound l
unfolding within_align_max
within_align_max-IsSound ty k l h e = elim (if_cases (ltb 64 (align_of k)) e) [
  | inl (_, e) ↦ cc
  | inr (_, e) ↦ subst IsSound (ok-inj k l e) h
]

-- A size that is its own alignment.
scalar-IsSound : (n : ℕ) → IsAlign n → IsSound (scalar n n)
unfolding scalar
scalar-IsSound n h = (h, (1, omega arith))

empty-IsSound : IsSound (scalar 0 1)
unfolding scalar
empty-IsSound = (one-IsAlign, (0, omega arith))

scalar_bytes-IsSound :
    (n : ℕ) (ty : Ty) (l : Layout) → (scalar_bytes n >>= within_align_max ty) ≡ ok l → IsSound l
unfolding scalar_bytes
scalar_bytes-IsSound n ty l e =
    let (k, ek, e1) = >>=-ok (scalar_bytes n) (within_align_max ty) l e in
    let (a, ea, e2) = >>=-ok (from_bytes n) _ k ek in
    let (same, h) = from_bytes-IsAlign n a ea in
    within_align_max-IsSound ty k l
      (subst IsSound (ok-inj _ k e2) (subst (λ n. IsSound (scalar n a)) same (scalar-IsSound a h)))
      e1

module _ (ctx : TyCtx) (target : TargetInfo) where
  module _ (inside : Ty → Outcome Layout)
      (inside-IsSound : (t : Ty) (l : Layout) → inside t ≡ ok l → IsSound l) where
    wide_pointer-IsSound :
        (a : Align)
        → target.pointer_width < 2 ^ 32
        → IsAlign a
        → a ≡ pointer_size target
        → IsSound (wide_pointer ctx target a)
    unfolding wide_pointer saturating_mul pointer_size
    wide_pointer-IsSound a w h e = (h, (2, omega (arith, e, w)))

    closure-IsSound :
        (args : List GenericArg) (ty : Ty) (l : Layout)
        → (elim args [
          | [] ↦ ok unit
          | arg ∷ args ↦ (do l ← layout_closure inside (arg ∷ args); within_align_max ty l)
        ])
          ≡ ok l
        → IsSound l
    closure-IsSound [] ty l e = subst IsSound (ok-inj unit l e) unit-IsSound
    closure-IsSound (arg ∷ args) ty l e =
        let (k, ek, e1) = >>=-ok (layout_closure inside (arg ∷ args)) _ l e in
        within_align_max-IsSound ty k l
          (layout_closure-IsSound inside inside-IsSound (arg ∷ args) k ek) e1

    layout_kind-IsSound :
        (ty : Ty) (a : Align) (kind : TyKind) (l : Layout)
        → target.pointer_width < 2 ^ 32
        → IsAlign a
        → a ≡ pointer_size target
        → layout_kind ctx target inside ty a kind ≡ ok l
        → IsSound l
    unfolding layout_kind
    layout_kind-IsSound ty a never_ty l w h ea e = within_align_max-IsSound ty _ l empty-IsSound e
    layout_kind-IsSound ty a unit_ty l w h ea e = within_align_max-IsSound ty unit l unit-IsSound e
    layout_kind-IsSound ty a bool_ty l w h ea e =
        within_align_max-IsSound ty _ l (scalar-IsSound 1 one-IsAlign) e
    layout_kind-IsSound ty a char_ty l w h ea e = scalar_bytes-IsSound 4 ty l e
    layout_kind-IsSound ty a string_ty l w h ea e =
        within_align_max-IsSound ty _ l (wide_pointer-IsSound a w h ea) e
    layout_kind-IsSound ty a infer_ty l w h ea e = cc
    layout_kind-IsSound ty a error_ty l w h ea e = cc
    layout_kind-IsSound ty a (int_ty i) l w h ea e =
        scalar_bytes-IsSound (int_bit_width i target / 8) ty l e
    layout_kind-IsSound ty a (uint_ty i) l w h ea e =
        scalar_bytes-IsSound (uint_bit_width i target / 8) ty l e
    layout_kind-IsSound ty a (float_ty f) l w h ea e =
        scalar_bytes-IsSound (float_bit_width f / 8) ty l e
    layout_kind-IsSound ty a (adt_ty id _) l w h ea e =
        layout_adt-IsSound ctx target inside inside-IsSound id ty l e
    layout_kind-IsSound ty a (fn_def_ty _ _) l w h ea e = cc
    layout_kind-IsSound ty a (closure_ty _ substs) l w h ea e =
        closure-IsSound (ctx.substitution_args substs) ty l e
    layout_kind-IsSound ty a (opaque_ty _ _) l w h ea e = cc
    layout_kind-IsSound ty a (fn_ptr_ty _) l w h ea e =
        within_align_max-IsSound ty _ l (subst (λ n. IsSound (scalar n a)) ea (scalar-IsSound a h))
          e
    layout_kind-IsSound ty a (ref_ty _) l w h ea e =
        within_align_max-IsSound ty _ l (subst (λ n. IsSound (scalar n a)) ea (scalar-IsSound a h))
          e
    layout_kind-IsSound ty a (raw_ptr_ty _) l w h ea e =
        within_align_max-IsSound ty _ l (subst (λ n. IsSound (scalar n a)) ea (scalar-IsSound a h))
          e
    layout_kind-IsSound ty a (slice_ty _) l w h ea e = cc
    layout_kind-IsSound ty a (array_ty inner count) l w h ea e =
        layout_array-IsSound inside inside-IsSound inner count ty l e
    layout_kind-IsSound ty a (tuple_ty substs) l w h ea e =
        layout_tuple-IsSound inside inside-IsSound (ctx.substitution_args substs) l e
    layout_kind-IsSound ty a dynamic_ty l w h ea e =
        within_align_max-IsSound ty _ l (wide_pointer-IsSound a w h ea) e
    layout_kind-IsSound ty a projection_ty l w h ea e = cc
    layout_kind-IsSound ty a param_ty l w h ea e = cc
    layout_kind-IsSound ty a bound_ty l w h ea e = cc

  -- Every layout that is computed, of whatever kind of type, has a power of two as its alignment, and
  -- its size is a multiple of that; the target's pointer width is a `u32`.
  pub layout_of-IsSound :
      (fuel : ℕ) (ty : Ty) (l : Layout)
      → target.pointer_width < 2 ^ 32
      → layout_of ctx target fuel ty ≡ ok l
      → IsSound l
  unfolding layout_of pointer_align
  layout_of-IsSound zero ty l w e = cc
  layout_of-IsSound (suc fuel) ty l w e =
      let (a, ea, e1) = >>=-ok (from_bytes (pointer_align target)) _ l e in
      let (same, h) = from_bytes-IsAlign (pointer_align target) a ea in
      layout_kind-IsSound (layout_of ctx target fuel) (λ t l e. layout_of-IsSound fuel t l w e) ty a
        (ctx.ty_kind ty) l w h same e1
