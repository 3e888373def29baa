-- ===== src/Opt/ConstProp/Evaluate.antt =====
-- `evaluate_rvalue_to_const` (crates/glyim-opt/src/constant_prop.rs). Overflow checks are on, so that
-- 128-bit arithmetic panics. The operations on `f64` bits are a parameter.
use glyim_v.Prelude.{
  ℕ, ◌+◌, ◌-◌, ◌*◌, ◌/◌, ◌%◌, ◌^◌, ltb, leb, ◌==◌, xor, Bool, ◌&&◌, ◌||◌, not, Option, none, some,
  List, [], ◌∷◌, if◌then◌else◌,
}
use glyim_v.Prelude.Int.{ℤ, pos, pos_part, neg_part, sub_ℕ, ◌+ℤ◌, ◌-ℤ◌}
use glyim_v.Layout.Types.{Ty}
use glyim_v.Mir.Types.{
  MirConst, MirConsts, mir_int, mir_uint, mir_float_bits, mir_bool, mir_unit, mir_aggregate,
  no_consts, add_const, BinOp, add_op, sub_op, mul_op, div_op, rem_op, eq_op, ne_op, lt_op, gt_op,
  lt_eq_op, gt_eq_op, and_op, or_op, UnOp, not_op, neg_op, AggregateKind, closure_of, Operand,
  Rvalue, use_of, ref_of, binary_op, unary_op, aggregate, discriminant, len_of, cast, repeat,
}
use glyim_v.Opt.ConstProp.{BlockMap, bool_eq, operand_to_const}

-- The `f64` operations on bit patterns, and the patterns of 0.0 and 1.0.
pub record FloatOps : Type 0 where
  pub plus : ℕ → ℕ → ℕ
  pub minus : ℕ → ℕ → ℕ
  pub times : ℕ → ℕ → ℕ
  pub over : ℕ → ℕ → ℕ
  pub same : ℕ → ℕ → Bool
  pub less : ℕ → ℕ → Bool
  pub negated : ℕ → ℕ
  pub float_zero : ℕ
  pub float_one : ℕ

-- What an evaluation comes to.
pub data Folded : Type 0 where
  constant_is : MirConst → Folded
  not_constant fold_panics : Folded

abbrev pub magnitude : ℤ → ℕ
magnitude a = pos_part a + neg_part a

abbrev pub is_negative : ℤ → Bool
is_negative a = ltb 0 (neg_part a)

abbrev pub with_sign : Bool → ℕ → ℤ
with_sign negative n = if negative then sub_ℕ 0 n else sub_ℕ n 0

-- A result of `i128` arithmetic, and one of `u128` arithmetic.
abbrev pub fits_i128 : ℤ → Bool
fits_i128 a = ltb (pos_part a) (2 ^ 127) && leb (neg_part a) (2 ^ 127)

abbrev pub int_result : Ty → ℤ → Folded
int_result ty a = if fits_i128 a then constant_is (mir_int a ty) else fold_panics

abbrev pub uint_result : Ty → ℕ → Folded
uint_result ty a = if ltb a (2 ^ 128) then constant_is (mir_uint a ty) else fold_panics

abbrev pub int_quotient : ℤ → ℤ → ℤ
int_quotient l r = with_sign (xor (is_negative l) (is_negative r)) (magnitude l / magnitude r)

-- Where the quotient overflows the remainder panics too.
unfoldable pub fold_int : BinOp → Ty → ℤ → ℤ → Folded
fold_int add_op ty l r = int_result ty (l +ℤ r)
fold_int sub_op ty l r = int_result ty (l -ℤ r)
fold_int mul_op ty l r =
    int_result ty (with_sign (xor (is_negative l) (is_negative r)) (magnitude l * magnitude r))
fold_int div_op ty l r =
    if magnitude r == 0 then constant_is (mir_int (pos 0) ty) else int_result ty (int_quotient l r)
fold_int rem_op ty l r =
    if magnitude r == 0
    then constant_is (mir_int (pos 0) ty)
    else if fits_i128 (int_quotient l r)
    then constant_is (mir_int (with_sign (is_negative l) (magnitude l % magnitude r)) ty)
    else fold_panics
fold_int _ ty l r = not_constant

unfoldable pub fold_uint : BinOp → Ty → ℕ → ℕ → Folded
fold_uint add_op ty l r = uint_result ty (l + r)
fold_uint sub_op ty l r = if ltb l r then fold_panics else constant_is (mir_uint (l - r) ty)
fold_uint mul_op ty l r = uint_result ty (l * r)
fold_uint div_op ty l r = constant_is (mir_uint (if r == 0 then 0 else l / r) ty)
fold_uint rem_op ty l r = constant_is (mir_uint (if r == 0 then 0 else l % r) ty)
fold_uint _ ty l r = not_constant

unfoldable pub fold_bool : BinOp → Ty → Bool → Bool → Folded
fold_bool and_op ty l r = constant_is (mir_bool (l && r) ty)
fold_bool or_op ty l r = constant_is (mir_bool (l || r) ty)
fold_bool eq_op ty l r = constant_is (mir_bool (bool_eq l r) ty)
fold_bool ne_op ty l r = constant_is (mir_bool (xor l r) ty)
fold_bool _ ty l r = not_constant

module _ (fs : FloatOps) where
  abbrev pub as_float : Ty → Bool → Folded
  as_float ty b = constant_is (mir_float_bits (if b then fs.float_one else fs.float_zero) ty)

  unfoldable pub fold_float : BinOp → Ty → ℕ → ℕ → Folded
  fold_float add_op ty l r = constant_is (mir_float_bits (fs.plus l r) ty)
  fold_float sub_op ty l r = constant_is (mir_float_bits (fs.minus l r) ty)
  fold_float mul_op ty l r = constant_is (mir_float_bits (fs.times l r) ty)
  fold_float div_op ty l r =
      constant_is
        (mir_float_bits (if fs.same r fs.float_zero then fs.float_zero else fs.over l r) ty)
  fold_float eq_op ty l r = as_float ty (fs.same l r)
  fold_float ne_op ty l r = as_float ty (not (fs.same l r))
  fold_float lt_op ty l r = as_float ty (fs.less l r)
  fold_float gt_op ty l r = as_float ty (fs.less r l)
  fold_float lt_eq_op ty l r = as_float ty (fs.less l r || fs.same l r)
  fold_float gt_eq_op ty l r = as_float ty (fs.less r l || fs.same l r)
  fold_float _ ty l r = not_constant

  unfoldable pub fold_binary : BinOp → MirConst → MirConst → Folded
  fold_binary op (mir_int l ty) (mir_int r _) = fold_int op ty l r
  fold_binary op (mir_uint l ty) (mir_uint r _) = fold_uint op ty l r
  fold_binary op (mir_bool l ty) (mir_bool r _) = fold_bool op ty l r
  fold_binary op (mir_float_bits l ty) (mir_float_bits r _) = fold_float op ty l r
  fold_binary op _ _ = not_constant

  unfoldable pub fold_unary : UnOp → MirConst → Folded
  fold_unary neg_op (mir_int v ty) = int_result ty (sub_ℕ (neg_part v) (pos_part v))
  fold_unary not_op (mir_int v ty) = constant_is (mir_int (sub_ℕ (neg_part v) (pos_part v + 1)) ty)
  fold_unary not_op (mir_uint v ty) = constant_is (mir_uint (2 ^ 128 - 1 - v) ty)
  fold_unary not_op (mir_bool v ty) = constant_is (mir_bool (not v) ty)
  fold_unary neg_op (mir_float_bits v ty) = constant_is (mir_float_bits (fs.negated v) ty)
  fold_unary op _ = not_constant

  abbrev pub fold_both : BinOp → Option MirConst → Option MirConst → Folded
  fold_both op (some l) (some r) = fold_binary op l r
  fold_both op none right = not_constant
  fold_both op (some l) none = not_constant

  abbrev pub fold_one : UnOp → Option MirConst → Folded
  fold_one op none = not_constant
  fold_one op (some c) = fold_unary op c

  abbrev pub as_folded : Option MirConst → Folded
  as_folded none = not_constant
  as_folded (some c) = constant_is c

  abbrev pub add_field : Option MirConst → Option MirConsts → Option MirConsts
  add_field none fields = none
  add_field (some c) none = none
  add_field (some c) (some fields) = some (add_const c fields)

  abbrev pub field_consts : List Operand → BlockMap → Option MirConsts
  field_consts [] locals = some no_consts
  field_consts (operand ∷ operands) locals =
      add_field (operand_to_const operand locals) (field_consts operands locals)

  -- `Ty::UNIT` is 2.
  abbrev pub aggregate_of : AggregateKind → Ty → Option MirConsts → Folded
  aggregate_of kind ty none = not_constant
  aggregate_of (closure_of id substs) ty (some fields) = not_constant
  aggregate_of _ ty (some no_consts) = constant_is (mir_unit 2)
  aggregate_of _ ty (some (add_const c fields)) =
      constant_is (mir_aggregate (add_const c fields) ty)

  unfoldable pub evaluate_rvalue_to_const : Rvalue → BlockMap → Ty → Folded
  evaluate_rvalue_to_const (use_of operand) locals ty = as_folded (operand_to_const operand locals)
  evaluate_rvalue_to_const (binary_op op left right) locals ty =
      fold_both op (operand_to_const left locals) (operand_to_const right locals)
  evaluate_rvalue_to_const (unary_op op operand) locals ty =
      fold_one op (operand_to_const operand locals)
  evaluate_rvalue_to_const (aggregate kind operands) locals ty =
      aggregate_of kind ty (field_consts operands locals)
  evaluate_rvalue_to_const (ref_of place kind) locals ty = not_constant
  evaluate_rvalue_to_const (cast kind operand _) locals ty =
      as_folded (operand_to_const operand locals)
  evaluate_rvalue_to_const (repeat operand count) locals ty =
      as_folded (operand_to_const operand locals)
  evaluate_rvalue_to_const (discriminant place) locals ty = not_constant
  evaluate_rvalue_to_const (len_of place) locals ty = not_constant
