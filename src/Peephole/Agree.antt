-- ===== src/Peephole/Agree.antt =====
-- The constant folder (crates/glyim-codegen/src/lib.rs) against the machine's arithmetic
-- (crates/glyim-bytecode-vm/src/lib.rs).
use glyim_v.Prelude.{ℕ, ◌≡◌, ◌≢◌, ◌↔◌, true, none, some, arith}
use glyim_v.Vm.Opcode.{Opcode, to_u8}
use glyim_v.Vm.Arith.{binop, checked_div, checked_rem, unwrap_or}
use glyim_v.Vm.Arith.Signed.{IsDefined}
use glyim_v.Peephole.Fold.{
  folded, not_folded, panics, fold_int_binop, is_foldable_binop, or_not_folded, or_panics,
}

div_agrees :
    (a b r : ℕ) → or_not_folded (checked_div a b) ≡ folded r → unwrap_or (checked_div a b) 0 ≡ r
div_agrees a b r e = ground arith

rem_agrees :
    (a b r : ℕ) → or_panics (checked_rem a b) ≡ folded r → unwrap_or (checked_rem a b) 0 ≡ r
rem_agrees a b r e = ground arith

-- A fold that succeeds gives what the machine computes for the opcode.
pub fold_int_binop-binop :
    (op : Opcode) (a b r : ℕ) → fold_int_binop (to_u8 op) a b ≡ folded r → binop op a b ≡ some r
unfolding fold_int_binop to_u8 binop
fold_int_binop-binop Opcode.div a b r e = ground (arith, div_agrees a b r)
fold_int_binop-binop Opcode.rem a b r e = ground (arith, rem_agrees a b r)
fold_int_binop-binop op a b r e = ground arith

is_foldable_binop-binop :
    (op : Opcode) (a b : ℕ) → (is_foldable_binop (to_u8 op) ≡ true) ↔ (binop op a b ≢ none)
unfolding is_foldable_binop to_u8 binop
is_foldable_binop-binop Opcode.add a b = ground arith
is_foldable_binop-binop op a b = ground arith

-- The opcodes whose fold may be refused.
abbrev pub IsDivision : Opcode → Type 0
IsDivision Opcode.div = Unit
IsDivision Opcode.rem = Unit
IsDivision _ = ⊥

-- Where the machine computes a result the fold gives it too, if the opcode is not a division or a
-- remainder, or the divisor is not 0 and the operands are not `i64::MIN` and -1.
pub binop-fold_int_binop :
    (op : Opcode) (a b r : ℕ)
    → (IsDivision op → IsDefined a b)
    → binop op a b ≡ some r
    → fold_int_binop (to_u8 op) a b ≡ folded r
unfolding fold_int_binop to_u8 binop
binop-fold_int_binop Opcode.div a b r d e = ground (arith, d tt)
binop-fold_int_binop Opcode.rem a b r d e = ground (arith, d tt)
binop-fold_int_binop op a b r d e = ground arith

-- With a divisor of 0, or `i64::MIN` by -1, the fold of the quotient is refused, that of the
-- remainder panics in the compiler, and the machine computes 0 for both.
pub fold_undefined :
    (a b : ℕ)
    → ¬ IsDefined a b
    → (fold_int_binop (to_u8 Opcode.div) a b ≡ not_folded)
      × (fold_int_binop (to_u8 Opcode.rem) a b ≡ panics)
      × (binop Opcode.div a b ≡ some 0)
      × (binop Opcode.rem a b ≡ some 0)
unfolding fold_int_binop to_u8 binop
fold_undefined a b u = (ground arith, ground arith, ground arith, ground arith)
