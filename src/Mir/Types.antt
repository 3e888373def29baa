-- ===== src/Mir/Types.antt =====
-- Bodies, blocks, statements, terminators, places and operands (crates/glyim-mir/src/lib.rs).
-- Indices and interned data are numbers. Spans, names and debug information are left out, as no pass
-- reads them.
use glyim_v.Prelude.{ℕ, Bool, Option, List}
use glyim_v.Prelude.Int.{ℤ}
use glyim_v.Layout.Types.{Ty}

abbrev pub BasicBlockIdx : Type 0
BasicBlockIdx = ℕ

abbrev pub LocalIdx : Type 0
LocalIdx = ℕ

pub data ProjectionElem : Type 0 where
  deref : ProjectionElem
  field : ℕ → ProjectionElem
  index : LocalIdx → ProjectionElem
  downcast : ℕ → ProjectionElem
  constant_index : (offset min_length : ℕ) (from_end : Bool) → ProjectionElem
  subslice : (from to : ℕ) (from_end : Bool) → ProjectionElem

pub record Place : Type 0 where
  pub local : LocalIdx
  pub projection : List ProjectionElem

-- The vector inside `Aggregate` is the second type of the block.
mutual
  pub data MirConst : Type 0 where
    mir_int : ℤ → Ty → MirConst
    mir_uint mir_float_bits mir_char mir_string : ℕ → Ty → MirConst
    mir_bool : Bool → Ty → MirConst
    mir_unit mir_error : Ty → MirConst
    mir_fn mir_const_ref mir_virtual_method : ℕ → ℕ → Ty → MirConst
    mir_aggregate : MirConsts → Ty → MirConst

  pub data MirConsts : Type 0 where
    no_consts : MirConsts
    add_const : MirConst → MirConsts → MirConsts

pub data Operand : Type 0 where
  copy move : Place → Operand
  constant : MirConst → Operand

pub data BinOp : Type 0 where
  add_op sub_op mul_op div_op rem_op eq_op ne_op lt_op gt_op lt_eq_op gt_eq_op : BinOp
  and_op or_op bit_and_op bit_or_op bit_xor_op shl_op shr_op : BinOp

pub data UnOp : Type 0 where
  not_op neg_op deref_op : UnOp

pub data BorrowKind : Type 0 where
  shared unique : BorrowKind
  mutable : (allow_two_phase_borrow : Bool) → BorrowKind

pub data CastKind : Type 0 where
  int_to_int float_to_int int_to_float float_to_float ptr_to_ptr fn_ptr_to_ptr ptr_to_int : CastKind
  int_to_ptr : CastKind

pub data AggregateKind : Type 0 where
  array_of : Ty → AggregateKind
  tuple_of : AggregateKind
  adt_of : (adt variant substs : ℕ) → AggregateKind
  closure_of : (closure substs : ℕ) → AggregateKind

pub data Rvalue : Type 0 where
  use_of : Operand → Rvalue
  ref_of : Place → BorrowKind → Rvalue
  binary_op : BinOp → Operand → Operand → Rvalue
  unary_op : UnOp → Operand → Rvalue
  aggregate : AggregateKind → List Operand → Rvalue
  discriminant len_of : Place → Rvalue
  cast : CastKind → Operand → Ty → Rvalue
  repeat : Operand → MirConst → Rvalue

pub data Statement : Type 0 where
  assign : Place → Rvalue → Statement
  storage_live storage_dead : LocalIdx → Statement
  nop : Statement

pub data AssertMessage : Type 0 where
  overflow : BinOp → AssertMessage
  division_by_zero remainder_by_zero bounds_check : AssertMessage

pub record SwitchTargets : Type 0 where
  pub branches : List (ℕ × BasicBlockIdx)
  pub otherwise : BasicBlockIdx

-- `call` has the function, the arguments, the destination, the target and the cleanup; `assert` has the
-- condition, what is expected of it, the target, the cleanup and the message.
pub data Terminator : Type 0 where
  goto : BasicBlockIdx → Terminator
  switch_int : Operand → Ty → SwitchTargets → Terminator
  return unreachable : Terminator
  call : Operand → List Operand → Place → Option BasicBlockIdx → Option BasicBlockIdx → Terminator
  assert : Operand → Bool → BasicBlockIdx → Option BasicBlockIdx → AssertMessage → Terminator
  drop_place : Place → BasicBlockIdx → (cleanup : Option BasicBlockIdx) → Terminator

pub record BasicBlockData : Type 0 where
  pub statements : List Statement
  pub terminator : Terminator
  pub is_cleanup : Bool

-- The declaration of a local is its type.
pub record Body : Type 0 where
  pub basic_blocks : List BasicBlockData
  pub locals : List Ty
  pub arg_count : ℕ
  pub return_ty : Ty
