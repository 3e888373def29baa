-- ===== src/Opt/Validate.antt =====
-- crates/glyim-opt/src/validate.rs: the checks on a body before and between the passes.
pub mod WellFormed
pub mod Sound
pub mod Places
use glyim_v.Prelude.{
  ℕ, zero, suc, Bool, true, false, ltb, not, ◌&&◌, ◌||◌, Option, none, some, List, [], ◌∷◌, length,
  if◌then◌else◌,
}
use glyim_v.Layout.Types.{Ty}
use glyim_v.Mir.Types.{
  BasicBlockIdx, ProjectionElem, deref, field, index, downcast, constant_index, subslice, Place,
  Operand, copy, move, constant, Rvalue, use_of, ref_of, binary_op, unary_op, aggregate,
  discriminant, len_of, cast, repeat, Statement, assign, storage_live, storage_dead, nop,
  Terminator, goto, switch_int, return, unreachable, call, assert, drop_place, BasicBlockData, Body,
}
use glyim_v.Mir.Drop.{DropCtx, place_ty, needs_drop}

-- The first violation. A place whose local is not declared panics, and the types have fuel.
pub data Validation : Type 0 where
  valid non_terminal_slice_projection subslice_after_desugar : Validation
  unknown_target : BasicBlockIdx → Validation
  unnecessary_drop : Place → Ty → Validation
  validation_panics validation_no_fuel : Validation

-- The check that follows, where nothing was found before.
infixr 30 ◌then_check◌
abbrev pub ◌then_check◌ : Validation → Validation → Validation
valid then_check w = w
non_terminal_slice_projection then_check w = non_terminal_slice_projection
subslice_after_desugar then_check w = subslice_after_desugar
(unknown_target b) then_check w = unknown_target b
(unnecessary_drop place ty) then_check w = unnecessary_drop place ty
validation_panics then_check w = validation_panics
validation_no_fuel then_check w = validation_no_fuel

abbrev pub check_each : {A : Type 0} → (A → Validation) → List A → Validation
check_each check [] = valid
check_each check (x ∷ xs) = check x then_check check_each check xs

unfoldable pub is_slice : ProjectionElem → Bool
is_slice deref = false
is_slice (field idx) = false
is_slice (index local) = false
is_slice (downcast variant) = false
is_slice (constant_index offset min_length from_end) = true
is_slice (subslice from to from_end) = true

unfoldable pub visit_place : List ProjectionElem → Validation
visit_place [] = valid
visit_place (elem ∷ []) = valid
visit_place (elem ∷ next ∷ rest) =
    let later = visit_place (next ∷ rest) in
    if is_slice elem then non_terminal_slice_projection else later

abbrev pub visit_operand : Operand → Validation
visit_operand (copy place) = visit_place place.projection
visit_operand (move place) = visit_place place.projection
visit_operand (constant value) = valid

unfoldable pub check_rvalue_places : Rvalue → Validation
check_rvalue_places (use_of operand) = visit_operand operand
check_rvalue_places (unary_op op operand) = visit_operand operand
check_rvalue_places (ref_of place kind) = visit_place place.projection
check_rvalue_places (binary_op op left right) = visit_operand left then_check visit_operand right
check_rvalue_places (aggregate kind operands) = check_each visit_operand operands
check_rvalue_places (discriminant place) = visit_place place.projection
check_rvalue_places (len_of place) = visit_place place.projection
check_rvalue_places (cast kind operand ty) = visit_operand operand
check_rvalue_places (repeat operand count) = visit_operand operand

abbrev pub check_statement : Statement → Validation
check_statement (assign place rvalue) = check_rvalue_places rvalue
check_statement (storage_live local) = valid
check_statement (storage_dead local) = valid
check_statement nop = valid

unfoldable pub check_target : ℕ → BasicBlockIdx → Validation
check_target n_blocks b = if ltb b n_blocks then valid else unknown_target b

abbrev pub check_optional : ℕ → Option BasicBlockIdx → Validation
check_optional n_blocks none = valid
check_optional n_blocks (some b) = check_target n_blocks b

abbrev pub check_branches : ℕ → List (ℕ × BasicBlockIdx) → Validation
check_branches n_blocks [] = valid
check_branches n_blocks ((v, b) ∷ branches) =
    check_target n_blocks b then_check check_branches n_blocks branches

abbrev pub unless_needed : Place → Ty → Option Bool → Validation
unless_needed place ty none = validation_no_fuel
unless_needed place ty (some true) = valid
unless_needed place ty (some false) = unnecessary_drop place ty

abbrev pub check_drop_ty : ℕ → DropCtx → Place → Option Ty → Validation
check_drop_ty fuel ctx place none = validation_panics
check_drop_ty fuel ctx place (some ty) = unless_needed place ty (needs_drop fuel ctx ty)

unfoldable pub check_drop : ℕ → DropCtx → List Ty → Place → Validation
check_drop fuel ctx locals place = check_drop_ty fuel ctx place (place_ty ctx.types locals place)

unfoldable pub check_terminator : ℕ → DropCtx → List Ty → ℕ → Terminator → Validation
check_terminator fuel ctx locals n_blocks (goto target) = check_target n_blocks target
check_terminator fuel ctx locals n_blocks (drop_place place target cleanup) =
    check_target n_blocks target
    then_check check_optional n_blocks cleanup
    then_check check_drop fuel ctx locals place
check_terminator fuel ctx locals n_blocks (assert cond expected target cleanup msg) =
    check_target n_blocks target then_check check_optional n_blocks cleanup
check_terminator fuel ctx locals n_blocks (switch_int discr ty targets) =
    check_target n_blocks targets.otherwise then_check check_branches n_blocks targets.branches
check_terminator fuel ctx locals n_blocks (call func args destination target cleanup) =
    check_optional n_blocks target then_check check_optional n_blocks cleanup
check_terminator fuel ctx locals n_blocks return = valid
check_terminator fuel ctx locals n_blocks unreachable = valid

abbrev pub check_block : ℕ → DropCtx → List Ty → ℕ → BasicBlockData → Validation
check_block fuel ctx locals n_blocks block =
    check_each check_statement block.statements
    then_check check_terminator fuel ctx locals n_blocks block.terminator

unfoldable pub validate_body : ℕ → DropCtx → Body → Validation
validate_body fuel ctx body =
    check_each (check_block fuel ctx body.locals (length body.basic_blocks)) body.basic_blocks

abbrev pub is_subslice : ProjectionElem → Bool
is_subslice (subslice from to from_end) = true
is_subslice _ = false

unfoldable pub has_subslice : List ProjectionElem → Bool
has_subslice [] = false
has_subslice (elem ∷ rest) = is_subslice elem || has_subslice rest

unfoldable pub rvalue_place : Rvalue → Option Place
rvalue_place (ref_of place kind) = some place
rvalue_place (discriminant place) = some place
rvalue_place (len_of place) = some place
rvalue_place (use_of (copy place)) = some place
rvalue_place (use_of (move place)) = some place
rvalue_place _ = none

abbrev pub subslice_in : Option Place → Validation
subslice_in none = valid
subslice_in (some place) = if has_subslice place.projection then subslice_after_desugar else valid

abbrev pub subslice_in_statement : Statement → Validation
subslice_in_statement (assign place rvalue) = subslice_in (rvalue_place rvalue)
subslice_in_statement (storage_live local) = valid
subslice_in_statement (storage_dead local) = valid
subslice_in_statement nop = valid

abbrev pub subslice_in_terminator : Terminator → Validation
subslice_in_terminator (drop_place place target cleanup) = subslice_in (some place)
subslice_in_terminator _ = valid

abbrev pub subslice_in_block : BasicBlockData → Validation
subslice_in_block block =
    check_each subslice_in_statement block.statements
    then_check subslice_in_terminator block.terminator

unfoldable pub validate_no_subslice : Body → Validation
validate_no_subslice body = check_each subslice_in_block body.basic_blocks
