-- ===== src/Layout/Tags.antt =====
-- Tags and niches of enums (crates/glyim-layout/src/lib.rs).
use glyim_v.Prelude.{
  ℕ, ◌^◌, ◌≤◌, ◌<◌, ◌≡◌, refl, sym, ◌∙◌, ◌⊎◌, inl, inr, Bool-cases, leb, some, arith,
}
use glyim_v.Layout.Types.{
  TargetInfo, int_bit_width, IntTy, Ty, TyCtx, int_ty, ty_u8, ty_u16, ty_u32, ty_u64,
}
use glyim_v.Layout.Shape.{Size, Align, Outcome, ok, from_bytes, any_power, Layout}
use glyim_v.Layout.Align.{ok-inj}
use glyim_v.Layout.Enum.{discriminant_info, int_niche, niche_info}

-- The tag of `n` variants: the first of the four unsigned integer types that has `n` values, with
-- its size in bytes, which is its alignment too.
abbrev pub IsTagFor : ℕ → Size × Align × Ty → Type 0
IsTagFor n info =
    ((info ≡ (1, 1, ty_u8)) × (n ≤ 2 ^ 8))
    ⊎ ((info ≡ (2, 2, ty_u16)) × (2 ^ 8 < n) × (n ≤ 2 ^ 16))
    ⊎ ((info ≡ (4, 4, ty_u32)) × (2 ^ 16 < n) × (n ≤ 2 ^ 32))
    ⊎ ((info ≡ (8, 8, ty_u64)) × (2 ^ 32 < n) × (n ≤ 2 ^ 64))

-- For at most two to the 64 variants, `discriminant_info` returns without a panic, and what it
-- returns is the least of u8, u16, u32 and u64 that has as many values as there are variants, with
-- its size of 1, 2, 4 or 8 bytes as size and as alignment.
pub discriminant_info-IsTagFor :
    (n : ℕ)
    → n ≤ 2 ^ 64
    → (info : Size × Align × Ty) × (discriminant_info n ≡ ok info) × IsTagFor n info
unfolding discriminant_info from_bytes any_power
discriminant_info-IsTagFor n h = elim (Bool-cases (leb n 256)) [
  | inl t ↦ ((1, 1, ty_u8), rw (discriminant_info, t) refl, inl (refl, ground arith))
  | inr f1 ↦ elim (Bool-cases (leb n 65536)) [
    | inl t ↦ (
      (2, 2, ty_u16),
      rw (discriminant_info, f1, t) refl,
      inr (inl (refl, ground arith, ground arith)),
    )
    | inr f2 ↦ elim (Bool-cases (leb n 4294967296)) [
      | inl t ↦ (
        (4, 4, ty_u32),
        rw (discriminant_info, f1, f2, t) refl,
        inr (inr (inl (refl, ground arith, ground arith))),
      )
      | inr f3 ↦ (
        (8, 8, ty_u64),
        rw (discriminant_info, f1, f2, f3) refl,
        inr (inr (inr (refl, ground arith, h))),
      )
    ]
  ]
]

module _ (ctx : TyCtx) (target : TargetInfo) (inside : Ty → Outcome Layout) where
  int_niche-lt :
      (width start count : ℕ)
      → int_niche ctx target inside width ≡ some (start, count)
      → start < 2 ^ width
  unfolding int_niche
  int_niche-lt width start count e = ground arith

  -- The niche that the engine reports for a signed integer type starts at a number below two to the
  -- type's width, so it is the bit pattern of one of the type's own values.
  pub niche_info-int :
      (ty : Ty) (i : IntTy) (start count : ℕ)
      → ctx.ty_kind ty ≡ int_ty i
      → niche_info ctx target inside ty ≡ ok (some (start, count))
      → start < 2 ^ int_bit_width i target
  unfolding niche_info
  niche_info-int ty i start count et e =
      let r : niche_info ctx target inside ty
          ≡ ok (int_niche ctx target inside (int_bit_width i target)) =
        simp (niche_info, et) in
      int_niche-lt (int_bit_width i target) start count (ok-inj _ _ (sym r ∙ e))
