-- ===== src/Opt/ValueTests.antt =====
-- The passes that change statements, on small bodies (crates/glyim-opt/src).
use glyim_v.Prelude.{
  ◌==◌, if◌then◌else◌, ◌+◌, map, ℕ, ◌≡◌, refl, true, false, contains, none, some, List, [], ◌∷◌,
  length, All, arith,
}
use glyim_v.Mir.Types.{
  Rvalue, Place, copy, constant, mir_uint, deref, index, subslice, use_of, ref_of, shared, unary_op,
  binary_op, add_op, neg_op, cast, ptr_to_ptr, Statement, assign, goto, switch_int, return,
  BasicBlockData, Body,
}
use glyim_v.Opt.Edges.{terminator_successors}
use glyim_v.Opt.Semantics.{run_from}
use glyim_v.Opt.Unreachable.Reach.{InRange}
use glyim_v.Opt.CfgSimplify
use glyim_v.Opt.CfgSimplify.{predecessors}
use glyim_v.Opt.Validate.{
  valid, subslice_after_desugar, is_slice, validate_no_subslice, rvalue_place, has_subslice,
}
use glyim_v.Opt.Dce
use glyim_v.Opt.Dce.{
  collect_used_locals, collect_uses_in_rvalue, collect_uses_in_terminator, collect_operand_uses,
  retain, is_kept,
}
use glyim_v.Opt.ConstProp.Sweep
use glyim_v.Opt.ConstProp.{
  BlockMap, get, remove, maps_equal, const_eq, merge_maps, operand_to_const, replace_in_rvalue,
  replace_operand,
}
use glyim_v.Opt.ConstProp.Evaluate.{evaluate_rvalue_to_const}
use glyim_v.Opt.ConstProp.Sweep.{iterate, sweep_from, sweep_block, flow_all, flow, replace_blocks}
use glyim_v.Opt.ConstProp.Keeps.{replace_in_rvalue-value}
use glyim_v.Opt.Dce.Plain.{rvalue_value, Values, locals_meaning, AgreeResult}
use glyim_v.Opt.Dce.Keeps.{run-Agree}
use glyim_v.Opt.SliceDesugar
use glyim_v.Opt.SliceDesugar.{
  desugar_blocks, desugar_block, desugar_statements, desugar_statement, desugar_rvalue,
  desugar_place, desugar_rounds, split_at, desugar_terminator,
}
use glyim_v.Layout.Types.{TyCtx, int_ty, int_64, slice_ty, ref_ty}
use glyim_v.Mir.Drop.{place_ty, project_all, project_ty}
use glyim_v.Opt.SliceDesugar.{Rewriting}
use glyim_v.Opt.SliceDesugar.Typed.{HasTy, Retypes, desugar_place-Retypes}
use glyim_v.Opt.SliceDesugar.Keeps.{CleanBlock, run-IsTerminal}
use glyim_v.Opt.Bodies.{block, local_1, drop_ctx, no_floats}

-- `_0 = copy (*_1)[1..2][_0]`, where the slice projection is not the last.
abbrev nested : Place
nested = record { local = 1; projection = deref ∷ subslice 1 2 false ∷ index 0 ∷ [] }

abbrev return_place : Place
return_place = record { local = 0; projection = [] }

abbrev slicing : Place → Body
slicing place = record {
  basic_blocks = block (assign return_place (use_of (copy place)) ∷ []) return ∷ [];
  locals = 0 ∷ 2 ∷ [];
  arg_count = 1;
  return_ty = 0;
}

slicing_is_InRange : InRange (slicing nested).basic_blocks
unfolding terminator_successors
slicing_is_InRange = (tt, tt)

run-IsTerminal_example :
    (new : Body) × (SliceDesugar.run drop_ctx.types (slicing nested) ≡ some new)
    × All (CleanBlock drop_ctx.types) new.basic_blocks
    × (length new.basic_blocks ≡ 1)
    × InRange new.basic_blocks
run-IsTerminal_example =
    run-IsTerminal drop_ctx.types (slicing nested)
      ((((omega arith, (omega arith, tt)), tt), tt), tt) slicing_is_InRange

-- Type 0 is `i64`, type 2 a slice of it, and any other a reference to that.
abbrev slices : TyCtx
slices = record drop_ctx.types {
  ty_kind = λ ty. if ty == 0 then int_ty int_64 else if ty == 2 then slice_ty 0 else ref_ty 2;
}

abbrev before_desugar : Rewriting
before_desugar = record { locals = 0 ∷ 3 ∷ []; statements = [] }

nested-HasTy : HasTy slices before_desugar.locals nested 0
unfolding place_ty project_all project_ty
nested-HasTy = record { declared = omega arith; typed = refl }

desugar_place-Retypes_example :
    (st' : Rewriting) × (new : Place) × (desugar_place slices nested before_desugar
      ≡ some (st', new))
    × Retypes slices before_desugar nested 0 st' new
desugar_place-Retypes_example = desugar_place-Retypes slices nested before_desugar 0 nested-HasTy

-- A slice projection at the end is kept, and then the check that follows refuses it.
abbrev ends_in_subslice : Place
ends_in_subslice = record { local = 1; projection = deref ∷ subslice 1 2 false ∷ [] }

subslice_is_kept :
    SliceDesugar.run drop_ctx.types (slicing ends_in_subslice) ≡ some (slicing ends_in_subslice)
unfolding SliceDesugar.run desugar_blocks desugar_block desugar_statements desugar_statement
    desugar_rvalue desugar_place desugar_rounds split_at is_slice desugar_terminator
subslice_is_kept = refl

subslice_is_refused : validate_no_subslice (slicing ends_in_subslice) ≡ subslice_after_desugar
unfolding validate_no_subslice rvalue_place has_subslice
subslice_is_refused = refl

-- It passes where it is an operand of a cast.
abbrev casting : Body
casting = record (slicing ends_in_subslice) {
  basic_blocks =
      block (assign return_place (cast ptr_to_ptr (copy ends_in_subslice) 0) ∷ []) return ∷ [];
}

subslice_is_missed : validate_no_subslice casting ≡ valid
unfolding validate_no_subslice rvalue_place has_subslice
subslice_is_missed = refl

-- `_1 = 7; _0 = -_1`: the first assignment is removed.
abbrev negating : List Statement → Body
negating statements = record (slicing return_place) {
  basic_blocks = block statements return ∷ [];
  arg_count = 0;
}

abbrev negate : Statement
negate = assign return_place (unary_op neg_op local_1)

negated_is_removed :
    Dce.run (
      negating (
        assign (record { local = 1; projection = [] }) (use_of (constant (mir_uint 7 0)))
        ∷ negate
        ∷ []))
    ≡ negating (negate ∷ [])
unfolding Dce.run collect_used_locals collect_uses_in_rvalue collect_uses_in_terminator
    collect_operand_uses retain is_kept contains
negated_is_removed = refl

-- `_1 = &_0; _0 = *_1`: so is the first of these.
abbrev read_through : Statement
read_through = assign return_place (use_of (copy (record { local = 1; projection = deref ∷ [] })))

dereferenced_is_removed :
    Dce.run (
      negating (
        assign (record { local = 1; projection = [] }) (ref_of return_place shared)
        ∷ read_through
        ∷ []))
    ≡ negating (read_through ∷ [])
unfolding Dce.run collect_used_locals collect_uses_in_rvalue collect_uses_in_terminator
    collect_operand_uses retain is_kept contains
dereferenced_is_removed = refl

-- Whole locals over natural numbers.
abbrev numbers : Values ℕ
numbers = record {
  const_value = λ c. 7;
  project = λ p s v. v;
  borrow = λ place kind s. 0;
  binary = λ op a b. a + b;
  unary = λ op a. a;
  build = λ kind vs. length vs;
  tag = λ v. v;
  count = λ v. v;
  convert = λ kind v ty. v;
  fill = λ v c. v;
  store = λ p s old v. v;
  number = λ v. some v;
  truth = λ v. some true;
  apply = λ f vs. some (true, f);
  destroy = λ place s. none;
}

-- `_1 = 7; _2 = _1; _0 = _1 + _1`, where `_2` is not read.
abbrev local_place : ℕ → Place
local_place l = record { local = l; projection = [] }

abbrev adding : Body
adding = record {
  basic_blocks =
      block
        (assign (local_place 1) (use_of (constant (mir_uint 7 0)))
          ∷ assign (local_place 2) (use_of (copy (local_place 1)))
          ∷ assign (local_place 0) (binary_op add_op (copy (local_place 1)) (copy (local_place 1)))
          ∷ [])
        return
      ∷ [];
  locals = 0 ∷ 0 ∷ 0 ∷ [];
  arg_count = 0;
  return_ty = 0;
}

adding_is_shorter : map (λ b. length b.statements) (Dce.run adding).basic_blocks ≡ 2 ∷ []
unfolding Dce.run collect_used_locals collect_uses_in_rvalue collect_uses_in_terminator
    collect_operand_uses retain is_kept contains
adding_is_shorter = refl

run-Agree_example :
    AgreeResult numbers
      (collect_used_locals adding)
      (run_from (locals_meaning numbers) 3 adding.basic_blocks 0 (λ l. l))
      (run_from (locals_meaning numbers) 3 (Dce.run adding).basic_blocks 0 (λ l. l))
    × (contains (collect_used_locals adding) 0 ≡ true)
run-Agree_example =
    run-Agree numbers adding ((((refl, tt), ((refl, refl), ((refl, (refl, refl)), tt))), tt), tt) 3
      (λ l. l)

abbrev seven_known : BlockMap
seven_known = (1, some (mir_uint 7 0)) ∷ []

abbrev double : Rvalue
double = binary_op add_op (copy (local_place 1)) (copy (local_place 2))

replace_in_rvalue-value_example :
    rvalue_value numbers (replace_in_rvalue double seven_known) (λ l. 7)
    ≡ rvalue_value numbers double (λ l. 7)
replace_in_rvalue-value_example =
    replace_in_rvalue-value numbers seven_known (λ l. 7) (λ l c e. refl) double

abbrev set_to : ℕ → ℕ → Statement
set_to l v = assign (local_place l) (use_of (constant (mir_uint v 0)))

abbrev three_locals : List BasicBlockData → Body
three_locals bs = record {
  basic_blocks = bs;
  locals = 0 ∷ 0 ∷ 0 ∷ [];
  arg_count = 0;
  return_ty = 0;
}

-- `_1 = 3; _0 = _1; _1 = 5`: the middle statement becomes `_0 = 5`.
later_value_is_used :
    Sweep.run no_floats (
      three_locals (
        block
          (set_to 1 3 ∷ assign (local_place 0) (use_of (copy (local_place 1))) ∷ set_to 1 5 ∷ [])
          return
        ∷ []))
    ≡ some (three_locals (block (set_to 1 3 ∷ set_to 0 5 ∷ set_to 1 5 ∷ []) return ∷ []))
unfolding Sweep.run iterate sweep_from sweep_block flow_all flow predecessors CfgSimplify.count
    terminator_successors get remove maps_equal const_eq merge_maps operand_to_const
    evaluate_rvalue_to_const replace_blocks replace_in_rvalue replace_operand
later_value_is_used = refl

-- One way sets `_1` to 5 and the other to the unknown `_2`; after both, `_1` is taken for 5.
abbrev joining : Statement → Body
joining last = three_locals (
    block []
      (switch_int (copy (local_place 2)) 0 (record { branches = (7, 1) ∷ []; otherwise = 2 }))
    ∷ block (set_to 1 5 ∷ []) (goto 3)
    ∷ block (assign (local_place 1) (use_of (copy (local_place 2))) ∷ []) (goto 3)
    ∷ block (last ∷ []) return
    ∷ [])

one_way_is_used :
    Sweep.run no_floats (joining (assign (local_place 0) (use_of (copy (local_place 1)))))
    ≡ some (joining (set_to 0 5))
unfolding Sweep.run iterate sweep_from sweep_block flow_all flow predecessors CfgSimplify.count
    terminator_successors get remove maps_equal const_eq merge_maps operand_to_const
    evaluate_rvalue_to_const replace_blocks replace_in_rvalue replace_operand
one_way_is_used = refl
