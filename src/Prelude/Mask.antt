-- ===== src/Prelude/Mask.antt =====
-- Multiples, and the mask that clears the low bits of a number.
use Prim.Native.Nat.{
  ℕ, zero, suc, ◌+◌, ◌-◌, ◌*◌, ◌/◌, ◌^◌, ◌≤◌, ◌<◌, min, bit_and, digits, bit_and-bitwise,
}
use mathlib.Core.Path.{◌≡◌, refl, ap}
use native.Mathlib.Omega.{arith}
use native.Mathlib.Nat.{pow-suc}

abbrev pub IsMultiple : ℕ → ℕ → Type 0
IsMultiple a n = (q : ℕ) × (n ≡ q * a)

-- The low bits are cleared: a multiple is left, at most `2 ^ k - 1` below.
abbrev pub IsRoundDown : ℕ → ℕ → ℕ → Type 0
IsRoundDown k a r = IsMultiple (2 ^ k) r × (r ≤ a) × (a < r + 2 ^ k)

pub one_le_pow : (k : ℕ) → 1 ≤ 2 ^ k
one_le_pow zero = omega arith
one_le_pow (suc k) = omega (arith, pow-suc 2 k, one_le_pow k)

pub pow_le : (k w : ℕ) → k ≤ w → 2 ^ k ≤ 2 ^ w
pow_le zero w h = one_le_pow w
pow_le (suc k) zero h = absurd (omega arith)
pow_le (suc k) (suc w) h = omega (arith, pow-suc 2 k, pow-suc 2 w, pow_le k w (omega arith))

digits-all : (n w a : ℕ) → a ≤ n → a < 2 ^ w → digits (λ _. 0) min n a (2 ^ w - 1) ≡ a
digits-all zero w a h ha = omega arith
digits-all (suc n) w zero h ha = refl
digits-all (suc n) zero (suc a) h ha = absurd (omega arith)
digits-all (suc n) (suc w) (suc a) h ha =
    let half : (2 ^ suc w - 1) / 2 ≡ 2 ^ w - 1 = omega (arith, pow-suc 2 w, one_le_pow w) in
    let ih : digits (λ _. 0) min n (suc a / 2) ((2 ^ suc w - 1) / 2) ≡ suc a / 2 =
      rw half (digits-all n w (suc a / 2) (omega arith) (omega (arith, pow-suc 2 w))) in
    omega (arith, ih, pow-suc 2 w, one_le_pow w)

double : (q m r : ℕ) → r ≡ q * m → r * 2 ≡ q * (m * 2)
double q m r e = omega (arith, e)

digits-mask :
    (n w k a : ℕ)
    → a ≤ n
    → a < 2 ^ w
    → k ≤ w
    → IsRoundDown k a (digits (λ _. 0) min n a (2 ^ w - 2 ^ k))
digits-mask n w zero a h ha hk =
    let e = digits-all n w a h ha in ((a, omega (arith, e)), omega (arith, e), omega (arith, e))
digits-mask zero w (suc k) a h ha hk =
    ((0, omega arith), omega arith, omega (arith, one_le_pow (suc k)))
digits-mask (suc n) w (suc k) zero h ha hk =
    ((0, omega arith), omega arith, omega (arith, one_le_pow (suc k)))
digits-mask (suc n) zero (suc k) (suc a) h ha hk = absurd (omega arith)
digits-mask (suc n) (suc w) (suc k) (suc a) h ha hk =
    let pk = pow-suc 2 k in
    let pw = pow-suc 2 w in
    let le = pow_le k w (omega arith) in
    let half : (2 ^ suc w - 2 ^ suc k) / 2 ≡ 2 ^ w - 2 ^ k = omega (arith, pk, pw, le) in
    let ((q, e), low, high) : IsRoundDown k (suc a / 2)
        (digits (λ _. 0) min n (suc a / 2) ((2 ^ suc w - 2 ^ suc k) / 2)) =
      rw half (digits-mask n w k (suc a / 2) (omega arith) (omega (arith, pw)) (omega arith)) in
    (
      (q, omega (arith, pk, pw, le, double q (2 ^ k) _ e, ap (λ t. q * t) pk)),
      omega (arith, low, high, pk, pw),
      omega (arith, low, high, pk, pw, le),
    )

-- The mask of `Size::align_to`.
pub bit_and-mask : (w k a : ℕ) → a < 2 ^ w → k ≤ w → IsRoundDown k a (bit_and a (2 ^ w - 2 ^ k))
bit_and-mask w k a ha hk = rw bit_and-bitwise (digits-mask a w k a (omega arith) ha hk)
