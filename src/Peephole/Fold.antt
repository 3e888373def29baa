-- ===== src/Peephole/Fold.antt =====
-- `fold_int_binop` and `is_foldable_binop` (crates/glyim-codegen/src/lib.rs). An i64 is its 64-bit
-- pattern, and the methods of i64 are those of the virtual machine's model.
use glyim_v.Prelude.{
  ℕ, bit_and, bit_or, bit_xor, Bool, not, ◌&&◌, ◌||◌, Option, none, some, ◌==◌, if◌then◌else◌,
}
use glyim_v.Vm.Arith.{
  wrapping_add, wrapping_sub, wrapping_mul, checked_div, checked_rem, lt_i64, of_bool, wrapping_shl,
  wrapping_shr,
}
use glyim_v.Peephole.Ops.{
  op_add, op_sub, op_mul, op_div, op_rem, op_eq, op_ne, op_lt, op_gt, op_le, op_ge, op_and, op_or,
  op_bitand, op_bitor, op_bitxor, op_shl, op_shr,
}

-- `panics` is the remainder by zero, or of `i64::MIN` by -1.
pub data Folding : Type 0 where
  folded : ℕ → Folding
  not_folded panics : Folding

-- `a.checked_div(b)?`
abbrev pub or_not_folded : Option ℕ → Folding
or_not_folded none = not_folded
or_not_folded (some r) = folded r

-- `a.rem(b)`
abbrev pub or_panics : Option ℕ → Folding
or_panics none = panics
or_panics (some r) = folded r

unfoldable pub fold_int_binop : ℕ → ℕ → ℕ → Folding
fold_int_binop op a b =
    if op == op_add
    then folded (wrapping_add a b)
    else if op == op_sub
    then folded (wrapping_sub a b)
    else if op == op_mul
    then folded (wrapping_mul a b)
    else if op == op_div
    then or_not_folded (checked_div a b)
    else if op == op_rem
    then or_panics (checked_rem a b)
    else if op == op_eq
    then folded (of_bool (a == b))
    else if op == op_ne
    then folded (of_bool (not (a == b)))
    else if op == op_lt
    then folded (of_bool (lt_i64 a b))
    else if op == op_gt
    then folded (of_bool (lt_i64 b a))
    else if op == op_le
    then folded (of_bool (not (lt_i64 b a)))
    else if op == op_ge
    then folded (of_bool (not (lt_i64 a b)))
    else if op == op_and
    then folded (of_bool (not (a == 0) && not (b == 0)))
    else if op == op_or
    then folded (of_bool (not (a == 0) || not (b == 0)))
    else if op == op_bitand
    then folded (bit_and a b)
    else if op == op_bitor
    then folded (bit_or a b)
    else if op == op_bitxor
    then folded (bit_xor a b)
    else if op == op_shl
    then folded (wrapping_shl a b)
    else if op == op_shr
    then folded (wrapping_shr a b)
    else not_folded

unfoldable pub is_foldable_binop : ℕ → Bool
is_foldable_binop op =
    op == op_add
    || op == op_sub
    || op == op_mul
    || op == op_div
    || op == op_rem
    || op == op_eq
    || op == op_ne
    || op == op_lt
    || op == op_gt
    || op == op_le
    || op == op_ge
    || op == op_and
    || op == op_or
    || op == op_bitand
    || op == op_bitor
    || op == op_bitxor
    || op == op_shl
    || op == op_shr
