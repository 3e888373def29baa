-- ===== src/Layout/Align.antt =====
-- What `Size::align_to` and the sums of sizes give (crates/glyim-layout/src/lib.rs).
use glyim_v.Prelude.{
  ℕ, zero, suc, ◌+◌, ◌-◌, ◌*◌, ◌^◌, ◌≤◌, ◌<◌, max, bit_and, ◌≡◌, refl, sym, ap, subst, ◌∙◌, ◌⊎◌,
  inl, inr, true, if_cases, ◌==◌, arith,
}
use glyim_v.Prelude.Mask.{IsMultiple, bit_and-mask, one_le_pow, pow_le}
use glyim_v.Layout.Shape.{
  Size, Align, Outcome, ok, err, panics, no_fuel, ◌>>=◌, u64_size, align_to, any_power, from_bytes,
}

-- A power of two that a `u64` holds.
abbrev pub IsAlign : ℕ → Type 0
IsAlign a = (k : ℕ) × (k < 64) × (a ≡ 2 ^ k)

-- The next multiple of the alignment, if there is no overflow: never below the size, and less than
-- an alignment above it.
abbrev pub IsRoundUp : Align → Size → Size → Type 0
IsRoundUp a x r = IsMultiple a r × (x ≤ r) × (r < x + a) × (r < u64_size)

pub >>=-ok {ℓ κ} :
    {A : Type ℓ} {B : Type κ} (m : Outcome A) (f : A → Outcome B) (b : B)
    → (m >>= f) ≡ ok b
    → (a : A) × (m ≡ ok a) × (f a ≡ ok b)
>>=-ok (ok a) f b e = (a, refl, e)
>>=-ok (err _) f b e = cc
>>=-ok panics f b e = cc
>>=-ok no_fuel f b e = cc

pub ok-inj {ℓ} : {A : Type ℓ} (a b : A) → (let m : Outcome A = ok a in m ≡ ok b) → a ≡ b
ok-inj a b e = cc

align_to_ok :
    (x a r : ℕ)
    → align_to x a ≡ ok r
    → (x + (a - 1) < u64_size) × (r ≡ bit_and (x + (a - 1)) (u64_size - 1 - (a - 1)))
unfolding align_to
align_to_ok x a r e = ground arith

pub align_to-IsRoundUp : (x a r : ℕ) → IsAlign a → align_to x a ≡ ok r → IsRoundUp a x r
align_to-IsRoundUp x a r (k, hk, ea) e =
    let (fits, er) = align_to_ok x a r e in
    let pk = one_le_pow k in
    let pw = pow_le k 64 (omega arith) in
    let mask : u64_size - 1 - (a - 1) ≡ 2 ^ 64 - 2 ^ k = omega (arith, ea, pk, pw) in
    let ((q, m), low, high) = bit_and-mask 64 k (x + (a - 1)) (omega (arith, fits)) (omega arith) in
    let er' = er ∙ ap (bit_and (x + (a - 1))) mask in
    (
      (q, er' ∙ m ∙ ap (λ t. q * t) (sym ea)),
      omega (arith, er', high, ea, pk),
      omega (arith, er', low, ea, pk),
      omega (arith, er', low, fits),
    )

any_power-IsAlign : (j a : ℕ) → j ≤ 64 → any_power j a ≡ true → IsAlign a
unfolding any_power
any_power-IsAlign zero a h e = cc
any_power-IsAlign (suc j) a h e = elim (if_cases (a == 2 ^ j) e) [
  | inl (t, _) ↦ (j, omega arith, ground arith)
  | inr (_, f) ↦ any_power-IsAlign j a (omega arith) f
]

pub from_bytes-IsAlign : (n a : ℕ) → from_bytes n ≡ ok a → (a ≡ n) × IsAlign a
unfolding from_bytes
from_bytes-IsAlign n a e = elim (if_cases (any_power 64 n) e) [
  | inl (t, f) ↦
      (let same = ok-inj n a f in
        (sym same, subst IsAlign same (any_power-IsAlign 64 n (omega arith) t)))
  | inr (_, f) ↦ cc
]

max-either : (a b : ℕ) → (max a b ≡ a) ⊎ (max a b ≡ b)
max-either a b = ground arith

pub max-IsAlign : (a b : ℕ) → IsAlign a → IsAlign b → IsAlign (max a b)
max-IsAlign a b h k = elim (max-either a b) [
  | inl e ↦ subst IsAlign (sym e) h
  | inr e ↦ subst IsAlign (sym e) k
]
