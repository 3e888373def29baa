-- ===== src/Opt/Dce.antt =====
-- crates/glyim-opt/src/dce.rs: assignments to locals that nothing is seen to read are removed. The set
-- of used locals is a list.
pub mod Uses
pub mod Plain
pub mod Agree
pub mod Keeps
use glyim_v.Prelude.{
  ℕ, zero, suc, ◌+◌, ◌-◌, ◌^◌, ltb, Bool, true, false, contains, List, [], ◌∷◌, map, if◌then◌else◌,
}
use glyim_v.Mir.Types.{
  LocalIdx, ProjectionElem, Place, Operand, copy, move, constant, Rvalue, use_of, ref_of, binary_op,
  unary_op, aggregate, discriminant, len_of, cast, repeat, Statement, assign, storage_live,
  storage_dead, nop, Terminator, goto, switch_int, return, unreachable, call, assert, drop_place,
  BasicBlockData, Body,
}

abbrev pub is_bare : List ProjectionElem → Bool
is_bare [] = true
is_bare (elem ∷ projection) = false

abbrev pub collect_place : Place → List LocalIdx → List LocalIdx
collect_place place used = if is_bare place.projection then place.local ∷ used else used

unfoldable pub collect_operand_uses : Operand → List LocalIdx → List LocalIdx
collect_operand_uses (copy place) used = collect_place place used
collect_operand_uses (move place) used = collect_place place used
collect_operand_uses (constant value) used = used

abbrev pub collect_operands : List Operand → List LocalIdx → List LocalIdx
collect_operands [] used = used
collect_operands (operand ∷ operands) used =
    collect_operands operands (collect_operand_uses operand used)

unfoldable pub collect_uses_in_rvalue : Rvalue → List LocalIdx → List LocalIdx
collect_uses_in_rvalue (use_of operand) used = collect_operand_uses operand used
collect_uses_in_rvalue (binary_op op left right) used =
    collect_operand_uses right (collect_operand_uses left used)
collect_uses_in_rvalue (ref_of place kind) used = collect_place place used
collect_uses_in_rvalue (aggregate kind operands) used = collect_operands operands used
collect_uses_in_rvalue (discriminant place) used = collect_place place used
collect_uses_in_rvalue (len_of place) used = collect_place place used
collect_uses_in_rvalue (cast kind operand ty) used = collect_operand_uses operand used
collect_uses_in_rvalue (repeat operand count) used = collect_operand_uses operand used
collect_uses_in_rvalue (unary_op op operand) used = used

unfoldable pub collect_uses_in_terminator : Terminator → List LocalIdx → List LocalIdx
collect_uses_in_terminator (call func args destination target cleanup) used =
    collect_operands args (collect_operand_uses func used)
collect_uses_in_terminator (switch_int discr ty targets) used = collect_operand_uses discr used
collect_uses_in_terminator (assert cond expected target cleanup msg) used =
    collect_operand_uses cond used
collect_uses_in_terminator (goto target) used = used
collect_uses_in_terminator return used = used
collect_uses_in_terminator unreachable used = used
collect_uses_in_terminator (drop_place place target cleanup) used = used

abbrev pub collect_statement : Statement → List LocalIdx → List LocalIdx
collect_statement (assign place rvalue) used = collect_uses_in_rvalue rvalue used
collect_statement (storage_live local) used = used
collect_statement (storage_dead local) used = used
collect_statement nop used = used

abbrev pub collect_statements : List Statement → List LocalIdx → List LocalIdx
collect_statements [] used = used
collect_statements (statement ∷ statements) used =
    collect_statements statements (collect_statement statement used)

abbrev pub collect_blocks : List BasicBlockData → List LocalIdx → List LocalIdx
collect_blocks [] used = used
collect_blocks (block ∷ blocks) used =
    collect_blocks blocks
      (collect_uses_in_terminator block.terminator (collect_statements block.statements used))

-- The arguments from number `i` on: an index that a `u32` has no room for becomes the largest.
abbrev pub insert_arguments : ℕ → ℕ → List LocalIdx → List LocalIdx
insert_arguments zero i used = used
insert_arguments (suc n) i used =
    insert_arguments n (i + 1) ((if ltb (i + 1) (2 ^ 32) then i + 1 else 2 ^ 32 - 1) ∷ used)

unfoldable pub collect_used_locals : Body → List LocalIdx
collect_used_locals body =
    collect_blocks body.basic_blocks (insert_arguments body.arg_count 0 (0 ∷ []))

unfoldable pub is_kept : List LocalIdx → Statement → Bool
is_kept used (assign place rvalue) =
    if is_bare place.projection then contains used place.local else true
is_kept used (storage_live local) = true
is_kept used (storage_dead local) = true
is_kept used nop = true

unfoldable pub retain : List LocalIdx → List Statement → List Statement
retain used [] = []
retain used (statement ∷ statements) =
    let rest = retain used statements in if is_kept used statement then statement ∷ rest else rest

abbrev pub retain_block : List LocalIdx → BasicBlockData → BasicBlockData
retain_block used block = record block { statements = retain used block.statements }

unfoldable pub run : Body → Body
run body = record body {
  basic_blocks = map (retain_block (collect_used_locals body)) body.basic_blocks;
}
