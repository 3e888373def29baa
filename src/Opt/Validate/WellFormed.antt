-- ===== src/Opt/Validate/WellFormed.antt =====
-- What is checked, stated apart from the checks of crates/glyim-opt/src/validate.rs.
use glyim_v.Prelude.{ℕ, suc, ◌<◌, ◌≡◌, true, some, List, [], ◌∷◌, ◌++◌, length, get_elem?, All}
use glyim_v.Layout.Types.{Ty}
use glyim_v.Mir.Types.{
  ProjectionElem, Place, Operand, copy, move, constant, Rvalue, use_of, ref_of, binary_op, unary_op,
  aggregate, discriminant, len_of, cast, repeat, Statement, assign, storage_live, storage_dead, nop,
  Terminator, drop_place, Body,
}
use glyim_v.Mir.Drop.{DropCtx, place_ty, needs_drop}
use glyim_v.Opt.Edges.{terminator_successors}
use glyim_v.Opt.Validate.{is_slice}

-- A slice projection stands at the end only.
abbrev pub IsTerminal : List ProjectionElem → Type 0
IsTerminal projection =
    (i : ℕ) (elem : ProjectionElem)
    → get_elem? projection i ≡ some elem
    → is_slice elem ≡ true
    → suc i ≡ length projection

abbrev pub operand_places : Operand → List Place
operand_places (copy place) = place ∷ []
operand_places (move place) = place ∷ []
operand_places (constant value) = []

abbrev pub places_of : List Operand → List Place
places_of [] = []
places_of (operand ∷ operands) = operand_places operand ++ places_of operands

-- The places that a right-hand side reads or borrows.
abbrev pub rvalue_places : Rvalue → List Place
rvalue_places (use_of operand) = operand_places operand
rvalue_places (ref_of place kind) = place ∷ []
rvalue_places (binary_op op left right) = operand_places left ++ operand_places right
rvalue_places (unary_op op operand) = operand_places operand
rvalue_places (aggregate kind operands) = places_of operands
rvalue_places (discriminant place) = place ∷ []
rvalue_places (len_of place) = place ∷ []
rvalue_places (cast kind operand ty) = operand_places operand
rvalue_places (repeat operand count) = operand_places operand

abbrev pub statement_places : Statement → List Place
statement_places (assign place rvalue) = rvalue_places rvalue
statement_places (storage_live local) = []
statement_places (storage_dead local) = []
statement_places nop = []

-- A dropped place has a type that needs it.
abbrev pub IsNeeded : ℕ → DropCtx → List Ty → Terminator → Type 0
IsNeeded fuel ctx locals (drop_place place target cleanup) =
    (ty : Ty) × (place_ty ctx.types locals place ≡ some ty) × (needs_drop fuel ctx ty ≡ some true)
IsNeeded fuel ctx locals _ = Unit

abbrev pub IsChecked : ℕ → DropCtx → Body → Type 0
IsChecked fuel ctx body =
    All
      (λ block.
        All (λ statement. All (λ place. IsTerminal place.projection) (statement_places statement))
          block.statements
        × (All (λ j. j < length body.basic_blocks) (terminator_successors block.terminator)
            × IsNeeded fuel ctx body.locals block.terminator))
      body.basic_blocks
