-- ===== src/Peephole/Meaning.antt =====
-- What straight-line instructions do to an operand stack of i64s, by the machine's own arithmetic
-- (crates/glyim-bytecode-vm/src/lib.rs, `Vm::drive`). The opcodes that the peephole pass does not
-- touch have any meaning that keeps the stack's values i64s.
use glyim_v.Prelude.{
  ℕ, ◌^◌, ◌<◌, Option, none, some, List, [], ◌∷◌, from_le_bytes, ◌==◌, if◌then◌else◌,
}
use glyim_v.Vm.Opcode.{Opcode, from_u8}
use glyim_v.Vm.Arith.{binop, wrapping_neg}
use glyim_v.Peephole.Ops.{op_load_const, op_neg}
use glyim_v.Peephole.Fold.{is_foldable_binop}
use glyim_v.Peephole.Instr.{Instr}

abbrev pub Stack : Type 0
Stack = List ℕ

abbrev pub IsI64 : ℕ → Type 0
IsI64 v = v < 2 ^ 64

-- `Neg` pops one value and pushes its negation.
abbrev pub negate : Stack → Option Stack
negate [] = none
negate (a ∷ st) = some (wrapping_neg a ∷ st)

abbrev pub push_result : Stack → Option ℕ → Option Stack
push_result st none = none
push_result st (some r) = some (r ∷ st)

-- A binary opcode pops its right operand first.
abbrev pub apply_binop : Option Opcode → Stack → Option Stack
apply_binop (some op) (b ∷ a ∷ st) = push_result st (binop op a b)
apply_binop _ st = none

abbrev pub and_then : Option Stack → (Stack → Option Stack) → Option Stack
and_then none f = none
and_then (some st) f = f st

module _ (other : Instr → Stack → Option Stack) where
  unfoldable pub exec : Instr → Stack → Option Stack
  exec i st =
      if i.op == op_load_const
      then some (from_le_bytes 8 i.operand ∷ st)
      else if i.op == op_neg
      then negate st
      else if is_foldable_binop i.op
      then apply_binop (from_u8 i.op) st
      else other i st

  unfoldable pub exec_all : List Instr → Stack → Option Stack
  exec_all [] st = some st
  exec_all (i ∷ is) st = and_then (exec i st) (exec_all is)
