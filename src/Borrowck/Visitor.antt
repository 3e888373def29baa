-- ===== src/Borrowck/Visitor.antt =====
-- The walks over what a statement or a terminator reads, and the successors of a block
-- (crates/glyim-borrowck/src/visitor.rs). A visitor is a state with its `visit_read`, which can panic.
use glyim_v.Prelude.{Option, none, some, List, [], ◌∷◌, ◌++◌, ℕ}
use glyim_v.Mir.Types.{
  BasicBlockIdx, Place, Operand, copy, move, constant, Rvalue, use_of, ref_of, binary_op, unary_op,
  aggregate, discriminant, len_of, cast, repeat, Terminator, goto, switch_int, return, unreachable,
  call, assert, drop_place,
}
use glyim_v.Borrowck.BitSets.{◌>>=◌}

module _ {S : Type 0} (visit_read : Place → S → Option S) where
  unfoldable pub walk_operand_reads : Operand → S → Option S
  walk_operand_reads (copy place) s = visit_read place s
  walk_operand_reads (move place) s = visit_read place s
  walk_operand_reads (constant c) s = some s

  unfoldable pub walk_operands : List Operand → S → Option S
  walk_operands [] s = some s
  walk_operands (op ∷ operands) s = walk_operand_reads op s >>= walk_operands operands

  unfoldable pub walk_rvalue_reads : Rvalue → S → Option S
  walk_rvalue_reads (use_of operand) s = walk_operand_reads operand s
  walk_rvalue_reads (ref_of place kind) s = visit_read place s
  walk_rvalue_reads (binary_op op left right) s =
      walk_operand_reads left s >>= walk_operand_reads right
  walk_rvalue_reads (unary_op op operand) s = walk_operand_reads operand s
  walk_rvalue_reads (aggregate kind operands) s = walk_operands operands s
  walk_rvalue_reads (discriminant place) s = visit_read place s
  walk_rvalue_reads (len_of place) s = visit_read place s
  walk_rvalue_reads (cast kind operand ty) s = walk_operand_reads operand s
  walk_rvalue_reads (repeat operand c) s = walk_operand_reads operand s

  unfoldable pub walk_terminator_reads : Terminator → S → Option S
  walk_terminator_reads (goto target) s = some s
  walk_terminator_reads return s = some s
  walk_terminator_reads unreachable s = some s
  walk_terminator_reads (switch_int discr ty targets) s = walk_operand_reads discr s
  walk_terminator_reads (call func args destination target cleanup) s =
      walk_operand_reads func s >>= walk_operands args
  walk_terminator_reads (assert cond expected target cleanup msg) s = walk_operand_reads cond s
  walk_terminator_reads (drop_place place target cleanup) s = some s

-- An optional target.
abbrev pub target_of : Option BasicBlockIdx → List BasicBlockIdx
target_of none = []
target_of (some t) = t ∷ []

abbrev pub targets_of : List (ℕ × BasicBlockIdx) → List BasicBlockIdx
targets_of [] = []
targets_of ((value, bb) ∷ branches) = bb ∷ targets_of branches

unfoldable pub successor_blocks : Terminator → List BasicBlockIdx
successor_blocks (goto target) = target ∷ []
successor_blocks (switch_int discr ty targets) =
    targets_of targets.branches ++ (targets.otherwise ∷ [])
successor_blocks return = []
successor_blocks unreachable = []
successor_blocks (call func args destination target cleanup) = target_of target ++ target_of cleanup
successor_blocks (assert cond expected target cleanup msg) = target ∷ target_of cleanup
successor_blocks (drop_place place target cleanup) = target ∷ target_of cleanup
