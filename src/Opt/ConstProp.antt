-- ===== src/Opt/ConstProp.antt =====
-- crates/glyim-opt/src/constant_prop.rs: constants of locals are carried from block to block and put
-- for the operands that read them. A map is a list of pairs with one pair for each local; the order of a
-- `HashMap` does not count.
pub mod Evaluate
pub mod Sweep
pub mod Keeps
use glyim_v.Prelude.{
  ℕ, zero, suc, ◌+◌, ◌-◌, ◌*◌, ◌/◌, ◌%◌, ◌^◌, ltb, leb, ◌==◌, xor, Bool, true, false, ◌&&◌, ◌||◌,
  not, Option, none, some, List, [], ◌∷◌, ◌++◌, length, get_elem?, set, replicate, if◌then◌else◌,
}
use glyim_v.Prelude.Int.{ℤ, pos, negsuc, pos_part, neg_part, sub_ℕ, ◌+ℤ◌, ◌-ℤ◌}
use glyim_v.Layout.Types.{Ty}
use glyim_v.Mir.Types.{
  LocalIdx, ProjectionElem, Place, MirConst, MirConsts, mir_int, mir_uint, mir_float_bits, mir_char,
  mir_string, mir_bool, mir_unit, mir_error, mir_fn, mir_const_ref, mir_virtual_method,
  mir_aggregate, no_consts, add_const, BinOp, add_op, sub_op, mul_op, div_op, rem_op, eq_op, ne_op,
  lt_op, gt_op, lt_eq_op, gt_eq_op, and_op, or_op, UnOp, not_op, neg_op, AggregateKind, closure_of,
  array_of, tuple_of, adt_of, Operand, copy, move, constant, Rvalue, use_of, ref_of, binary_op,
  unary_op, aggregate, discriminant, len_of, cast, repeat, Statement, assign, storage_live,
  storage_dead, nop, BasicBlockData, Body,
}
use glyim_v.Opt.CfgSimplify.{predecessors}
use glyim_v.Opt.Dce.{is_bare}

abbrev pub int_eq : ℤ → ℤ → Bool
int_eq a b = (pos_part a == pos_part b) && (neg_part a == neg_part b)

abbrev pub bool_eq : Bool → Bool → Bool
bool_eq a b = not (xor a b)

unfoldable mutual
  pub const_eq : MirConst → MirConst → Bool
  const_eq (mir_int a s) (mir_int b t) = (s == t) && int_eq a b
  const_eq (mir_uint a s) (mir_uint b t) = (s == t) && (a == b)
  const_eq (mir_bool a s) (mir_bool b t) = (s == t) && bool_eq a b
  const_eq (mir_char a s) (mir_char b t) = (s == t) && (a == b)
  const_eq (mir_float_bits a s) (mir_float_bits b t) = (s == t) && (a == b)
  const_eq (mir_unit s) (mir_unit t) = s == t
  const_eq (mir_aggregate xs s) (mir_aggregate ys t) = (s == t) && consts_eq xs ys
  const_eq _ _ = false

  pub consts_eq : MirConsts → MirConsts → Bool
  consts_eq no_consts no_consts = true
  consts_eq (add_const a xs) (add_const b ys) = const_eq a b && consts_eq xs ys
  consts_eq _ _ = false

-- `None` in the map is a local that is known not to be constant.
abbrev pub BlockMap : Type 0
BlockMap = List (LocalIdx × Option MirConst)

unfoldable pub get : BlockMap → LocalIdx → Option (Option MirConst)
get [] l = none
get ((k, v) ∷ locals) l = let rest = get locals l in if k == l then some v else rest

unfoldable pub remove : BlockMap → LocalIdx → BlockMap
remove [] l = []
remove ((k, v) ∷ locals) l = let rest = remove locals l in if k == l then rest else (k, v) ∷ rest

abbrev pub insert : BlockMap → LocalIdx → Option MirConst → BlockMap
insert locals l v = (l, v) ∷ remove locals l

abbrev pub same_value : Option MirConst → Option MirConst → Bool
same_value none none = true
same_value (some a) (some b) = const_eq a b
same_value none (some b) = false
same_value (some a) none = false

abbrev pub same_entry : Option MirConst → Option (Option MirConst) → Bool
same_entry v none = false
same_entry v (some w) = same_value v w

abbrev pub entries_in : BlockMap → BlockMap → Bool
entries_in [] b = true
entries_in ((k, v) ∷ a) b = same_entry v (get b k) && entries_in a b

abbrev pub is_some : Option (Option MirConst) → Bool
is_some none = false
is_some (some v) = true

abbrev pub keys_in : BlockMap → BlockMap → Bool
keys_in [] a = true
keys_in ((k, v) ∷ b) a = is_some (get a k) && keys_in b a

unfoldable pub maps_equal : BlockMap → BlockMap → Bool
maps_equal a b = (length a == length b) && entries_in a b && keys_in b a

abbrev pub merge_entry : BlockMap → LocalIdx → Option MirConst → Option (Option MirConst) → BlockMap
merge_entry into l v none = insert into l v
merge_entry into l v (some existing) = if same_value existing v then into else insert into l none

unfoldable pub merge_maps : BlockMap → BlockMap → BlockMap
merge_maps into [] = into
merge_maps into ((l, v) ∷ other) = merge_maps (merge_entry into l v (get into l)) other

abbrev pub known : Option (Option MirConst) → Option MirConst
known none = none
known (some v) = v

unfoldable pub operand_to_const : Operand → BlockMap → Option MirConst
operand_to_const (constant c) locals = some c
operand_to_const (copy place) locals =
    if is_bare place.projection then known (get locals place.local) else none
operand_to_const (move place) locals =
    if is_bare place.projection then known (get locals place.local) else none

abbrev pub put : Operand → Option MirConst → Operand
put operand none = operand
put operand (some c) = constant c

unfoldable pub replace_operand : Operand → BlockMap → Operand
replace_operand (copy place) locals =
    put (copy place) (if is_bare place.projection then known (get locals place.local) else none)
replace_operand (move place) locals =
    put (move place) (if is_bare place.projection then known (get locals place.local) else none)
replace_operand (constant c) locals = constant c

abbrev pub replace_operands : List Operand → BlockMap → List Operand
replace_operands [] locals = []
replace_operands (operand ∷ operands) locals =
    replace_operand operand locals ∷ replace_operands operands locals

unfoldable pub replace_in_rvalue : Rvalue → BlockMap → Rvalue
replace_in_rvalue (use_of operand) locals = use_of (replace_operand operand locals)
replace_in_rvalue (binary_op op left right) locals =
    binary_op op (replace_operand left locals) (replace_operand right locals)
replace_in_rvalue (unary_op op operand) locals = unary_op op (replace_operand operand locals)
replace_in_rvalue (ref_of place kind) locals = ref_of place kind
replace_in_rvalue (aggregate kind operands) locals =
    aggregate kind (replace_operands operands locals)
replace_in_rvalue (discriminant place) locals = discriminant place
replace_in_rvalue (len_of place) locals = len_of place
replace_in_rvalue (cast kind operand ty) locals = cast kind (replace_operand operand locals) ty
replace_in_rvalue (repeat operand count) locals = repeat (replace_operand operand locals) count
