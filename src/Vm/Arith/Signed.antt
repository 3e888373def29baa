-- ===== src/Vm/Arith/Signed.antt =====
-- The machine's arithmetic on patterns is arithmetic on the signed integers that they stand for
-- (crates/glyim-bytecode-vm/src/lib.rs, `Vm::binop`).
use glyim_v.Prelude.{
  ℕ, ◌+◌, ◌-◌, ◌/◌, ◌%◌, ◌^◌, ◌≤◌, ◌<◌, ◌≡◌, ◌≢◌, refl, ap, ◌↔◌, ◌⊎◌, inl, inr, Bool, true, false,
  not, ◌==◌, xor, Option, some, arith,
}
use native.Mathlib.Nat.{le_trans}
use glyim_v.Prelude.Int.{ℤ, pos, negsuc, pos_part, neg_part, sub_ℕ, ◌+ℤ◌, ◌-ℤ◌, ◌≤ℤ◌, ◌<ℤ◌, signed}
use glyim_v.Vm.Opcode.{Opcode}
use glyim_v.Vm.Arith.{
  binop, wrapping_add, wrapping_sub, lt_i64, checked_div, checked_rem, unwrap_or, unsigned_abs,
  with_sign, is_negative, of_bool,
}

-- The bounds of an i64.
abbrev pub Fits : ℤ → Type 0
Fits z = (negsuc (2 ^ 63 - 1) ≤ℤ z) × (z ≤ℤ pos (2 ^ 63 - 1))

add_signed :
    (a b : ℕ)
    → a < 2 ^ 64
    → b < 2 ^ 64
    → Fits (signed a +ℤ signed b)
    → signed (wrapping_add a b) ≡ signed a +ℤ signed b
unfolding ◌+ℤ◌
add_signed a b ha hb h = ground arith

sub_signed :
    (a b : ℕ)
    → a < 2 ^ 64
    → b < 2 ^ 64
    → Fits (signed a -ℤ signed b)
    → signed (wrapping_sub a b) ≡ signed a -ℤ signed b
unfolding ◌-ℤ◌
sub_signed a b ha hb h = ground arith

lt_signed : (a b : ℕ) → a < 2 ^ 64 → b < 2 ^ 64 → (lt_i64 a b ≡ true) ↔ (signed a <ℤ signed b)
lt_signed a b ha hb = ground arith

-- Where the true sum of two i64s fits an i64, `Add` gives it.
pub binop-add_signed :
    (a b : ℕ)
    → a < 2 ^ 64
    → b < 2 ^ 64
    → Fits (signed a +ℤ signed b)
    → (r : ℕ) × (binop Opcode.add a b ≡ some r) × (signed r ≡ signed a +ℤ signed b)
unfolding binop
binop-add_signed a b ha hb h = (_, refl, add_signed a b ha hb h)

-- Where the true difference of two i64s fits an i64, `Sub` gives it.
pub binop-sub_signed :
    (a b : ℕ)
    → a < 2 ^ 64
    → b < 2 ^ 64
    → Fits (signed a -ℤ signed b)
    → (r : ℕ) × (binop Opcode.sub a b ≡ some r) × (signed r ≡ signed a -ℤ signed b)
unfolding binop
binop-sub_signed a b ha hb h = (_, refl, sub_signed a b ha hb h)

-- The result is 1 where the statement holds, and 0 where it does not.
abbrev pub Tells : Option ℕ → Type 0 → Type 0
Tells result statement = ((result ≡ some 1) × statement) ⊎ ((result ≡ some 0) × ¬ statement)

tells : (t : Bool) (P : Type 0) → (t ≡ true) ↔ P → Tells (some (of_bool t)) P
tells true P h = inl (refl, h.0 refl)
tells false P h = inr (refl, λ p. cc (h.1 p))

-- On patterns of 64 bits each of the six comparison opcodes pushes 1 if the signed numbers compare so,
-- and 0 if they do not.
pub binop_compares :
    (a b : ℕ)
    → a < 2 ^ 64
    → b < 2 ^ 64
    → Tells (binop Opcode.lt a b) (signed a <ℤ signed b)
      × Tells (binop Opcode.gt a b) (signed b <ℤ signed a)
      × Tells (binop Opcode.le a b) (signed a ≤ℤ signed b)
      × Tells (binop Opcode.ge a b) (signed b ≤ℤ signed a)
      × Tells (binop Opcode.eq a b) (signed a ≡ signed b)
      × Tells (binop Opcode.ne a b) (signed a ≢ signed b)
unfolding binop
binop_compares a b ha hb = (
  tells (lt_i64 a b) _ (ground arith),
  tells (lt_i64 b a) _ (ground arith),
  tells (not (lt_i64 b a)) _ (ground arith),
  tells (not (lt_i64 a b)) _ (ground arith),
  tells (a == b) _ (ground arith),
  tells (not (a == b)) _ (ground arith),
)

abbrev pub magnitude : ℤ → ℕ
magnitude z = pos_part z + neg_part z

-- The integer of this sign and magnitude.
abbrev pub of_parts : Bool → ℕ → ℤ
of_parts true m = sub_ℕ 0 m
of_parts false m = pos m

signed-with_sign :
    (s : Bool) (m : ℕ)
    → m ≤ 2 ^ 63
    → (s ≡ false → m < 2 ^ 63)
    → signed (with_sign s m) ≡ of_parts s m
signed-with_sign true m h k = ground arith
signed-with_sign false m h k = ground arith

magnitude-signed : (a : ℕ) → a < 2 ^ 64 → magnitude (signed a) ≡ unsigned_abs a
magnitude-signed a h = ground arith

unsigned_abs-le : (a : ℕ) → a < 2 ^ 64 → unsigned_abs a ≤ 2 ^ 63
unsigned_abs-le a h = ground arith

-- A zero divisor and the one overflow.
abbrev pub IsDefined : ℕ → ℕ → Type 0
IsDefined a b = (b ≢ 0) × (a ≡ 2 ^ 63 → b ≢ 2 ^ 64 - 1)

div-by-two : (x y : ℕ) → 2 ≤ y → x ≤ 2 ^ 63 → x / y < 2 ^ 63
div-by-two x y h k = grind arith

div-le : (x y : ℕ) → x / y ≤ x
div-le x y = omega arith

div-small : (x y : ℕ) → x < 2 ^ 63 → x / y < 2 ^ 63
div-small x y h = omega arith

rem-small : (x y : ℕ) → 0 < y → y ≤ 2 ^ 63 → x % y < 2 ^ 63
rem-small x y h k = omega arith

-- Without overflow the quotient of two numbers of like sign fits.
quotient_fits :
    (a b : ℕ)
    → a < 2 ^ 64
    → b < 2 ^ 64
    → IsDefined a b
    → xor (is_negative a) (is_negative b) ≡ false
    → unsigned_abs a / unsigned_abs b < 2 ^ 63
quotient_fits a b ha hb d e = ground (
  arith,
  div-by-two (unsigned_abs a) (unsigned_abs b),
  div-small (unsigned_abs a) (unsigned_abs b),
)

checked_div_lem :
    (a b : ℕ)
    → IsDefined a b
    → checked_div a b
      ≡ some (with_sign (xor (is_negative a) (is_negative b)) (unsigned_abs a / unsigned_abs b))
checked_div_lem a b d = ground arith

checked_rem_lem :
    (a b : ℕ)
    → IsDefined a b
    → checked_rem a b ≡ some (with_sign (is_negative a) (unsigned_abs a % unsigned_abs b))
checked_rem_lem a b d = ground arith

rem_fits : (a b : ℕ) → a < 2 ^ 64 → b < 2 ^ 64 → b ≢ 0 → unsigned_abs a % unsigned_abs b < 2 ^ 63
rem_fits a b ha hb d = ground (arith, rem-small (unsigned_abs a) (unsigned_abs b))

-- Where it is defined, which is for a divisor other than 0 and not for `i64::MIN` by -1, `Div`
-- truncates towards zero: its result is the quotient of the magnitudes, negative if the signs
-- differ; and `Rem` is the remainder of the magnitudes, with the sign of the dividend.
pub binop-div_rem_signed :
    (a b : ℕ)
    → a < 2 ^ 64
    → b < 2 ^ 64
    → IsDefined a b
    → (q : ℕ) × (r : ℕ) × (binop Opcode.div a b ≡ some q)
      × (binop Opcode.rem a b ≡ some r)
      × (signed q
          ≡ of_parts
              (xor (is_negative a) (is_negative b))
              (magnitude (signed a) / magnitude (signed b)))
      × (signed r ≡ of_parts (is_negative a) (magnitude (signed a) % magnitude (signed b)))
unfolding binop
binop-div_rem_signed a b ha hb d = (
  _,
  _,
  ap some (ap (λ o. unwrap_or o 0) (checked_div_lem a b d)),
  ap some (ap (λ o. unwrap_or o 0) (checked_rem_lem a b d)),
  rw (magnitude-signed a ha, magnitude-signed b hb)
      (signed-with_sign (xor (is_negative a) (is_negative b)) _
        (le_trans (div-le (unsigned_abs a) (unsigned_abs b)) (unsigned_abs-le a ha))
        (quotient_fits a b ha hb d)),
  rw (magnitude-signed a ha, magnitude-signed b hb)
      (signed-with_sign (is_negative a) _ (omega (arith, rem_fits a b ha hb d.0))
        (λ _. rem_fits a b ha hb d.0)),
)
