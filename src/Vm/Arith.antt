-- ===== src/Vm/Arith.antt =====
-- `Vm::binop` and `Vm::unop` (crates/glyim-bytecode-vm/src/lib.rs) on 64-bit patterns. The helpers
-- are the methods of `i64` that they call, on the pattern of a two's complement number.
pub mod Bounds
pub mod Signed
use glyim_v.Prelude.{
  ℕ, ◌+◌, ◌-◌, ◌*◌, ◌/◌, ◌%◌, ◌^◌, bit_and, bit_or, bit_xor, Bool, not, xor, ◌&&◌, ◌||◌, Option,
  none, some, ltb, leb, ◌==◌, if◌then◌else◌,
}
use glyim_v.Vm.Opcode.{Opcode}

abbrev pub word : ℕ
word = 2 ^ 64

abbrev pub half_word : ℕ
half_word = 2 ^ 63

abbrev pub wrapping_add : ℕ → ℕ → ℕ
wrapping_add a b = (a + b) % 2 ^ 64

abbrev pub wrapping_sub : ℕ → ℕ → ℕ
wrapping_sub a b = (a + 2 ^ 64 - b) % 2 ^ 64

abbrev pub wrapping_mul : ℕ → ℕ → ℕ
wrapping_mul a b = (a * b) % 2 ^ 64

abbrev pub wrapping_neg : ℕ → ℕ
wrapping_neg a = (2 ^ 64 - a) % 2 ^ 64

abbrev pub is_negative : ℕ → Bool
is_negative a = leb (2 ^ 63) a

-- The absolute value, and the pattern of a sign and an absolute value.
abbrev pub unsigned_abs : ℕ → ℕ
unsigned_abs a = if is_negative a then 2 ^ 64 - a else a

abbrev pub with_sign : Bool → ℕ → ℕ
with_sign s m = if s then (2 ^ 64 - m) % 2 ^ 64 else m

-- `None` for a zero divisor and for `i64::MIN / -1`.
abbrev pub checked_div : ℕ → ℕ → Option ℕ
checked_div a b =
    if b == 0
    then none
    else if (a == 2 ^ 63) && (b == 2 ^ 64 - 1)
    then none
    else some (with_sign (xor (is_negative a) (is_negative b)) (unsigned_abs a / unsigned_abs b))

abbrev pub checked_rem : ℕ → ℕ → Option ℕ
checked_rem a b =
    if b == 0
    then none
    else if (a == 2 ^ 63) && (b == 2 ^ 64 - 1)
    then none
    else some (with_sign (is_negative a) (unsigned_abs a % unsigned_abs b))

abbrev pub unwrap_or : Option ℕ → ℕ → ℕ
unwrap_or none d = d
unwrap_or (some v) d = v

-- The signed order: patterns with the sign bit flipped.
abbrev pub flip_sign : ℕ → ℕ
flip_sign a = (a + 2 ^ 63) % 2 ^ 64

abbrev pub lt_i64 : ℕ → ℕ → Bool
lt_i64 a b = ltb (flip_sign a) (flip_sign b)

abbrev pub of_bool : Bool → ℕ
of_bool b = if b then 1 else 0

-- `b as u32`, then the low six bits of it.
abbrev pub shift_amount : ℕ → ℕ
shift_amount b = b % 2 ^ 32 % 64

abbrev pub wrapping_shl : ℕ → ℕ → ℕ
wrapping_shl a b = (a * 2 ^ shift_amount b) % 2 ^ 64

-- The shift of a signed number copies the sign bit.
abbrev pub wrapping_shr : ℕ → ℕ → ℕ
wrapping_shr a b =
    if is_negative a
    then 2 ^ 64 - 1 - (2 ^ 64 - 1 - a) / 2 ^ shift_amount b
    else a / 2 ^ shift_amount b

-- `unreachable!()` is `none`.
unfoldable pub binop : Opcode → ℕ → ℕ → Option ℕ
binop Opcode.add a b = some (wrapping_add a b)
binop Opcode.sub a b = some (wrapping_sub a b)
binop Opcode.mul a b = some (wrapping_mul a b)
binop Opcode.div a b = some (unwrap_or (checked_div a b) 0)
binop Opcode.rem a b = some (unwrap_or (checked_rem a b) 0)
binop Opcode.eq a b = some (of_bool (a == b))
binop Opcode.ne a b = some (of_bool (not (a == b)))
binop Opcode.lt a b = some (of_bool (lt_i64 a b))
binop Opcode.gt a b = some (of_bool (lt_i64 b a))
binop Opcode.le a b = some (of_bool (not (lt_i64 b a)))
binop Opcode.ge a b = some (of_bool (not (lt_i64 a b)))
binop Opcode.and_op a b = some (of_bool (not (a == 0) && not (b == 0)))
binop Opcode.or_op a b = some (of_bool (not (a == 0) || not (b == 0)))
binop Opcode.bit_and a b = some (bit_and a b)
binop Opcode.bit_or a b = some (bit_or a b)
binop Opcode.bit_xor a b = some (bit_xor a b)
binop Opcode.shl a b = some (wrapping_shl a b)
binop Opcode.shr a b = some (wrapping_shr a b)
binop _ a b = none

unfoldable pub unop : Opcode → ℕ → Option ℕ
unop Opcode.not_op a = some (of_bool (a == 0))
unop Opcode.neg a = some (wrapping_neg a)
unop _ a = none
