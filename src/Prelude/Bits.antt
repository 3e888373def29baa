-- ===== src/Prelude/Bits.antt =====
-- Bounds of the native bit operations at variables: they keep every width.
use Prim.Native.Nat.{
  ℕ, zero, suc, ◌/◌, ◌%◌, ◌^◌, ◌<◌, min, max, bit_and, bit_or, bit_xor, digits, differ,
  bit_and-bitwise, bit_or-bitwise, bit_xor-bitwise,
}
use native.Mathlib.Omega.{arith}
use native.Mathlib.Nat.{pow-suc}

-- What an operation on digits must do to keep a width: `z` serves when the first number has run
-- out, and `f` on two digits.
module _ (z : ℕ → ℕ) (f : ℕ → ℕ → ℕ) (z_keeps : (k b : ℕ) → b < 2 ^ k → z b < 2 ^ k)
    (f_digit : (x y : ℕ) → x < 2 → y < 2 → f x y < 2) where
  digits-lt : (n k a b : ℕ) → a < 2 ^ k → b < 2 ^ k → digits z f n a b < 2 ^ k
  digits-lt zero k a b ha hb = z_keeps k b hb
  digits-lt (suc n) k zero b ha hb = z_keeps k b hb
  digits-lt (suc n) zero (suc a) b ha hb = absurd (omega arith)
  digits-lt (suc n) (suc k) (suc a) b ha hb =
      let p = pow-suc 2 k in
      let rest = digits-lt n k (suc a / 2) (b / 2) (omega (arith, p)) (omega (arith, p)) in
      omega (arith, p, rest, f_digit (suc a % 2) (b % 2) (omega arith) (omega arith))

pub bit_and-lt : (k a b : ℕ) → a < 2 ^ k → b < 2 ^ k → bit_and a b < 2 ^ k
bit_and-lt k a b ha hb =
    rw bit_and-bitwise
      (digits-lt (λ _. 0) min (λ k b h. omega arith) (λ x y p q. omega arith) a k a b ha hb)

pub bit_or-lt : (k a b : ℕ) → a < 2 ^ k → b < 2 ^ k → bit_or a b < 2 ^ k
bit_or-lt k a b ha hb =
    rw bit_or-bitwise (digits-lt (λ b. b) max (λ k b h. h) (λ x y p q. omega arith) a k a b ha hb)

differ-lt : (x y : ℕ) → x < 2 → y < 2 → differ x y < 2
differ-lt zero y p q = q
differ-lt (suc x) zero p q = p
differ-lt (suc x) (suc y) p q = differ-lt x y (omega arith) (omega arith)

pub bit_xor-lt : (k a b : ℕ) → a < 2 ^ k → b < 2 ^ k → bit_xor a b < 2 ^ k
bit_xor-lt k a b ha hb =
    rw bit_xor-bitwise (digits-lt (λ b. b) differ (λ k b h. h) differ-lt a k a b ha hb)
