-- ===== src/Opt/SliceDesugar.antt =====
-- crates/glyim-opt/src/slice_desugar.rs: a place with a slice projection before its end is split there,
-- over a new local. `none` is a panic: the type of a place whose local is not declared.
pub mod Splits
pub mod Terminal
pub mod Typed
pub mod Keeps
use glyim_v.Prelude.{
  ℕ, zero, suc, Bool, true, false, Option, none, some, List, [], ◌∷◌, ◌++◌, length, if◌then◌else◌,
}
use glyim_v.Layout.Types.{Ty, TyCtx}
use glyim_v.Mir.Types.{
  ProjectionElem, Place, Operand, copy, move, constant, Rvalue, use_of, ref_of, binary_op, unary_op,
  aggregate, discriminant, len_of, cast, repeat, Statement, assign, storage_live, storage_dead, nop,
  Terminator, goto, switch_int, return, unreachable, call, assert, drop_place, BasicBlockData, Body,
}
use glyim_v.Mir.Drop.{place_ty}
use glyim_v.Opt.Validate.{is_slice}

-- The declared locals, which grow, and the statements to put before the one that is rewritten.
pub record Rewriting : Type 0 where
  pub locals : List Ty
  pub statements : List Statement

abbrev pub Rewritten : Type 0 → Type 0
Rewritten A = Option (Rewriting × A)

infixr 20 ◌then◌
abbrev pub ◌then◌ : {A B : Type 0} → Rewritten A → (A → Rewriting → Rewritten B) → Rewritten B
none then f = none
(some (st, a)) then f = f a st

abbrev pub as_value : {A B : Type 0} → (A → B) → Rewritten A → Rewritten B
as_value f none = none
as_value f (some (st, a)) = some (st, f a)

-- `split_at`, with the projections up to it and those after it.
abbrev pub with_first :
    ProjectionElem
    → Option (List ProjectionElem × List ProjectionElem)
    → Option (List ProjectionElem × List ProjectionElem)
with_first elem none = none
with_first elem (some (before, after)) = some (elem ∷ before, after)

unfoldable pub split_at : List ProjectionElem → Option (List ProjectionElem × List ProjectionElem)
split_at [] = none
split_at (elem ∷ []) = none
split_at (elem ∷ next ∷ rest) =
    let later = with_first elem (split_at (next ∷ rest)) in
    if is_slice elem then some (elem ∷ [], next ∷ rest) else later

-- The new local, and the two statements that fill it.
abbrev pub materialize : Place → Ty → Rewriting → Rewriting
materialize prefix ty st = record {
  locals = st.locals ++ (ty ∷ []);
  statements =
      st.statements
      ++ (storage_live (length st.locals)
          ∷ assign (record { local = length st.locals; projection = [] }) (use_of (copy prefix))
          ∷ []);
}

abbrev pub on_temporary :
    Place → Option Ty → Rewriting → (Rewriting → Rewritten Place) → Rewritten Place
on_temporary prefix none st continue = none
on_temporary prefix (some ty) st continue = continue (materialize prefix ty st)

-- The recursion is on projections that get shorter: one round for each is enough.
unfoldable pub desugar_rounds : ℕ → TyCtx → Place → Rewriting → Rewritten Place
desugar_rounds zero types place st = some (st, place)
desugar_rounds (suc fuel) types place st = elim (split_at place.projection) [
  | none ↦ some (st, place)
  | some (before, after) ↦
      on_temporary (record { local = place.local; projection = before })
        (place_ty types st.locals (record { local = place.local; projection = before })) st
        (desugar_rounds fuel types (record { local = length st.locals; projection = after }))
]

unfoldable pub desugar_place : TyCtx → Place → Rewriting → Rewritten Place
desugar_place types place st = desugar_rounds (length place.projection) types place st

abbrev pub desugar_operand : TyCtx → Operand → Rewriting → Rewritten Operand
desugar_operand types (copy place) st = as_value copy (desugar_place types place st)
desugar_operand types (move place) st = as_value move (desugar_place types place st)
desugar_operand types (constant value) st = some (st, constant value)

abbrev pub desugar_operands : TyCtx → List Operand → Rewriting → Rewritten (List Operand)
desugar_operands types [] st = some (st, [])
desugar_operands types (operand ∷ operands) st = desugar_operand types operand st then λ new st1.
    as_value (λ rest. new ∷ rest) (desugar_operands types operands st1)

unfoldable pub desugar_rvalue : TyCtx → Rvalue → Rewriting → Rewritten Rvalue
desugar_rvalue types (use_of operand) st = as_value use_of (desugar_operand types operand st)
desugar_rvalue types (binary_op op left right) st = desugar_operand types left st then λ new st1.
    as_value (binary_op op new) (desugar_operand types right st1)
desugar_rvalue types (unary_op op operand) st =
    as_value (unary_op op) (desugar_operand types operand st)
desugar_rvalue types (ref_of place kind) st =
    as_value (λ new. ref_of new kind) (desugar_place types place st)
desugar_rvalue types (aggregate kind operands) st =
    as_value (aggregate kind) (desugar_operands types operands st)
desugar_rvalue types (discriminant place) st = as_value discriminant (desugar_place types place st)
desugar_rvalue types (len_of place) st = as_value len_of (desugar_place types place st)
desugar_rvalue types (cast kind operand ty) st =
    as_value (λ new. cast kind new ty) (desugar_operand types operand st)
desugar_rvalue types (repeat operand count) st =
    as_value (λ new. repeat new count) (desugar_operand types operand st)

unfoldable pub desugar_statement : TyCtx → Statement → Rewriting → Rewritten Statement
desugar_statement types (assign place rvalue) st = desugar_rvalue types rvalue st then λ new st1.
    as_value (λ target. assign target new) (desugar_place types place st1)
desugar_statement types (storage_live local) st = some (st, storage_live local)
desugar_statement types (storage_dead local) st = some (st, storage_dead local)
desugar_statement types nop st = some (st, nop)

unfoldable pub desugar_terminator : TyCtx → Terminator → Rewriting → Rewritten Terminator
desugar_terminator types (switch_int discr ty targets) st =
    as_value (λ new. switch_int new ty targets) (desugar_operand types discr st)
desugar_terminator types (call func args destination target cleanup) st =
    desugar_operand types func st then λ func' st1.
    desugar_operands types args st1 then λ args' st2.
    as_value (λ place. call func' args' place target cleanup) (desugar_place types destination st2)
desugar_terminator types (assert cond expected target cleanup msg) st =
    as_value (λ new. assert new expected target cleanup msg) (desugar_operand types cond st)
desugar_terminator types (drop_place place target cleanup) st =
    as_value (λ new. drop_place new target cleanup) (desugar_place types place st)
desugar_terminator types (goto target) st = some (st, goto target)
desugar_terminator types return st = some (st, return)
desugar_terminator types unreachable st = some (st, unreachable)

-- The preludes and the statements after them go to the same list, in the order of the block.
abbrev pub pushed : Statement → Rewriting → Rewriting
pushed statement st = record st { statements = st.statements ++ (statement ∷ []) }

unfoldable pub desugar_statements : TyCtx → List Statement → Rewriting → Rewritten Unit
desugar_statements types [] st = some (st, tt)
desugar_statements types (statement ∷ statements) st =
    desugar_statement types statement st then λ new st1.
    desugar_statements types statements (pushed new st1)

abbrev pub rebuilt : BasicBlockData → Rewritten Terminator → Option (List Ty × BasicBlockData)
rebuilt block none = none
rebuilt block (some (st, terminator)) =
    some (st.locals, record block { statements = st.statements; terminator = terminator })

unfoldable pub desugar_block : TyCtx → List Ty → BasicBlockData → Option (List Ty × BasicBlockData)
desugar_block types locals block = rebuilt block (
    desugar_statements types block.statements (record { locals = locals; statements = [] })
    then λ _ st1. desugar_terminator types block.terminator st1)

abbrev pub add_block :
    BasicBlockData → Option (List Ty × List BasicBlockData) → Option (List Ty × List BasicBlockData)
add_block block none = none
add_block block (some (locals, blocks)) = some (locals, block ∷ blocks)

abbrev pub then_blocks :
    Option (List Ty × BasicBlockData)
    → (List Ty → Option (List Ty × List BasicBlockData))
    → Option (List Ty × List BasicBlockData)
then_blocks none rest = none
then_blocks (some (locals, block)) rest = add_block block (rest locals)

unfoldable pub desugar_blocks :
    TyCtx → List Ty → List BasicBlockData → Option (List Ty × List BasicBlockData)
desugar_blocks types locals [] = some (locals, [])
desugar_blocks types locals (block ∷ blocks) =
    then_blocks (desugar_block types locals block) (λ locals'. desugar_blocks types locals' blocks)

abbrev pub with_blocks : Body → Option (List Ty × List BasicBlockData) → Option Body
with_blocks body none = none
with_blocks body (some (locals, blocks)) =
    some (record body { basic_blocks = blocks; locals = locals })

unfoldable pub run : TyCtx → Body → Option Body
run types body = with_blocks body (desugar_blocks types body.locals body.basic_blocks)
