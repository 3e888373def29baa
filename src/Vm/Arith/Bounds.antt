-- ===== src/Vm/Arith/Bounds.antt =====
-- The results of `Vm::binop` and `Vm::unop` (crates/glyim-bytecode-vm/src/lib.rs) are i64s, and
-- the two functions are defined exactly on the opcodes that the driver passes to them.
use glyim_v.Prelude.{
  ℕ, ◌-◌, ◌/◌, ◌%◌, ◌^◌, ◌<◌, ◌≡◌, Bool, xor, ◌&&◌, none, some, arith, ◌==◌, if_either,
}
use glyim_v.Prelude.Bits.{bit_and-lt, bit_or-lt, bit_xor-lt}
use glyim_v.Vm.Opcode.{Opcode}
use glyim_v.Vm.Arith.{
  binop, unop, checked_div, checked_rem, unwrap_or, is_negative, unsigned_abs, with_sign, of_bool,
  wrapping_shr,
}

of_bool-lt : (b : Bool) → of_bool b < 2 ^ 64
of_bool-lt b = ground arith

with_sign-lt : (s : Bool) (m : ℕ) → m < 2 ^ 64 → with_sign s m < 2 ^ 64
with_sign-lt s m h = ground arith

unsigned_abs-lt : (a : ℕ) → a < 2 ^ 64 → unsigned_abs a < 2 ^ 64
unsigned_abs-lt a h = ground arith

div-lt : (x y n : ℕ) → x < n → x / y < n
div-lt x y n h = omega arith

rem-lt : (x y n : ℕ) → x < n → x % y < n
rem-lt x y n h = omega arith

checked_div-lt : (a b : ℕ) → a < 2 ^ 64 → b < 2 ^ 64 → unwrap_or (checked_div a b) 0 < 2 ^ 64
checked_div-lt a b ha hb =
    let q = unsigned_abs a / unsigned_abs b in
    let h =
      with_sign-lt (xor (is_negative a) (is_negative b)) q
        (div-lt (unsigned_abs a) (unsigned_abs b) _ (unsigned_abs-lt a ha)) in
    if_either (λ o. unwrap_or o 0 < 2 ^ 64) (b == 0) _ _ (omega arith)
      (if_either (λ o. unwrap_or o 0 < 2 ^ 64) ((a == 2 ^ 63) && (b == 2 ^ 64 - 1)) none (some _)
        (omega arith) h)

checked_rem-lt : (a b : ℕ) → a < 2 ^ 64 → b < 2 ^ 64 → unwrap_or (checked_rem a b) 0 < 2 ^ 64
checked_rem-lt a b ha hb =
    let h =
      with_sign-lt (is_negative a) (unsigned_abs a % unsigned_abs b)
        (rem-lt (unsigned_abs a) (unsigned_abs b) _ (unsigned_abs-lt a ha)) in
    if_either (λ o. unwrap_or o 0 < 2 ^ 64) (b == 0) _ _ (omega arith)
      (if_either (λ o. unwrap_or o 0 < 2 ^ 64) ((a == 2 ^ 63) && (b == 2 ^ 64 - 1)) none (some _)
        (omega arith) h)

wrapping_shr-lt : (a b : ℕ) → a < 2 ^ 64 → b < 2 ^ 64 → wrapping_shr a b < 2 ^ 64
wrapping_shr-lt a b ha hb = ground arith

-- Where a binary opcode has a result on two patterns below `2 ^ 64`, the result is below it too.
pub binop-lt :
    (op : Opcode) (a b r : ℕ) → a < 2 ^ 64 → b < 2 ^ 64 → binop op a b ≡ some r → r < 2 ^ 64
unfolding binop
binop-lt Opcode.add a b r ha hb e = ground arith
binop-lt Opcode.sub a b r ha hb e = ground arith
binop-lt Opcode.mul a b r ha hb e = ground arith
binop-lt Opcode.div a b r ha hb e = ground (arith, checked_div-lt a b ha hb)
binop-lt Opcode.rem a b r ha hb e = ground (arith, checked_rem-lt a b ha hb)
binop-lt Opcode.bit_and a b r ha hb e = ground (arith, bit_and-lt 64 a b ha hb)
binop-lt Opcode.bit_or a b r ha hb e = ground (arith, bit_or-lt 64 a b ha hb)
binop-lt Opcode.bit_xor a b r ha hb e = ground (arith, bit_xor-lt 64 a b ha hb)
binop-lt Opcode.shl a b r ha hb e = ground arith
binop-lt Opcode.shr a b r ha hb e = ground (arith, wrapping_shr-lt a b ha hb)
binop-lt op a b r ha hb e = ground arith

-- So do negation and logical not.
pub unop-lt : (op : Opcode) (a r : ℕ) → a < 2 ^ 64 → unop op a ≡ some r → r < 2 ^ 64
unfolding unop
unop-lt Opcode.not_op a r ha e = ground arith
unop-lt op a r ha e = ground arith
