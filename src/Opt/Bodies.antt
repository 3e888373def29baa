-- ===== src/Opt/Bodies.antt =====
-- Small bodies and contexts for the tests of the passes (crates/glyim-opt/src).
use glyim_v.Prelude.{false, none, List, [], ◌∷◌, ◌==◌, if◌then◌else◌}
use glyim_v.Layout.Types.{int_ty, int_64, string_ty, slice_ty}
use glyim_v.Mir.Types.{
  Operand, copy, Statement, Terminator, return, drop_place, BasicBlockData, Body,
}
use glyim_v.Mir.Drop.{DropCtx}
use glyim_v.Opt.ConstProp.Evaluate.{FloatOps}

abbrev pub block : List Statement → Terminator → BasicBlockData
block statements terminator = record {
  statements = statements;
  terminator = terminator;
  is_cleanup = false;
}

abbrev pub local_1 : Operand
local_1 = copy (record { local = 1; projection = [] })

-- One context: type 0 is `i64`, type 1 is `String`, and any other is a slice of type 0.
abbrev pub drop_ctx : DropCtx
drop_ctx = record {
  types = record {
    ty_kind = λ ty. if ty == 0 then int_ty int_64 else if ty == 1 then string_ty else slice_ty 0;
    substitution_args = λ _. [];
    adt_def = λ _. none;
    adt_repr = λ _. none;
    trait_def = λ _. none;
  };
  drop_impls = [];
}

-- `_1` is dropped on the way to the end.
abbrev pub dropping : Body
dropping = record {
  basic_blocks =
      block [] (drop_place (record { local = 1; projection = [] }) 1 none) ∷ block [] return ∷ [];
  locals = 0 ∷ 1 ∷ [];
  arg_count = 0;
  return_ty = 0;
}

-- Operations that no test reaches.
abbrev pub no_floats : FloatOps
no_floats = record {
  plus = λ a b. 0;
  minus = λ a b. 0;
  times = λ a b. 0;
  over = λ a b. 0;
  same = λ a b. false;
  less = λ a b. false;
  negated = λ a. 0;
  float_zero = 0;
  float_one = 0;
}
