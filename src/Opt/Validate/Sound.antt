-- ===== src/Opt/Validate/Sound.antt =====
-- What the checks find (crates/glyim-opt/src/validate.rs).
use glyim_v.Prelude.{
  ℕ, zero, suc, ◌<◌, ◌≡◌, ◌↔◌, inl, inr, refl, ap, ◌∙◌, Bool, true, false, Option, none, some, List,
  [], ◌∷◌, ◌++◌, length, All, All-left, All-right, All-append, Bool-cases, if_cases, arith,
}
use mathlib.Core.Option.{some_inj}
use glyim_v.Layout.Types.{Ty}
use glyim_v.Mir.Types.{
  BasicBlockIdx, ProjectionElem, Place, Operand, copy, move, constant, Rvalue, use_of, ref_of,
  binary_op, unary_op, aggregate, discriminant, len_of, cast, repeat, Statement, assign,
  storage_live, storage_dead, nop, Terminator, goto, switch_int, return, unreachable, call, assert,
  drop_place, BasicBlockData, Body,
}
use glyim_v.Mir.Drop.{DropCtx, place_ty, needs_drop}
use glyim_v.Opt.Edges.{terminator_successors, branch_targets, optional}
use glyim_v.Opt.Unreachable.Reach.{InRange}
use glyim_v.Opt.Validate.{
  Validation, valid, non_terminal_slice_projection, subslice_after_desugar, unknown_target,
  unnecessary_drop, validation_panics, validation_no_fuel, ◌then_check◌, check_each, is_slice,
  visit_place, visit_operand, check_rvalue_places, check_statement, check_target, check_optional,
  check_branches, unless_needed, check_drop, check_drop_ty, check_terminator, check_block,
  validate_body,
}
use glyim_v.Opt.Validate.WellFormed.{
  IsTerminal, operand_places, places_of, rvalue_places, statement_places, IsNeeded, IsChecked,
}

then_check-valid : (v w : Validation) → (v then_check w ≡ valid) ↔ ((v ≡ valid) × (w ≡ valid))
then_check-valid valid w = (λ e. (refl, e), λ (_, e). e)
then_check-valid non_terminal_slice_projection w =
    (λ e. absurd (ground arith), λ (e, _). absurd (ground arith))
then_check-valid subslice_after_desugar w =
    (λ e. absurd (ground arith), λ (e, _). absurd (ground arith))
then_check-valid (unknown_target b) w =
    (λ e. absurd (ground arith), λ (e, _). absurd (ground arith))
then_check-valid (unnecessary_drop place ty) w =
    (λ e. absurd (ground arith), λ (e, _). absurd (ground arith))
then_check-valid validation_panics w = (λ e. absurd (ground arith), λ (e, _). absurd (ground arith))
then_check-valid validation_no_fuel w =
    (λ e. absurd (ground arith), λ (e, _). absurd (ground arith))

-- Two checks, by what each finds.
then_check_iff :
    {P Q : Type 0} (v w : Validation)
    → (v ≡ valid) ↔ P
    → (w ≡ valid) ↔ Q
    → (v then_check w ≡ valid) ↔ (P × Q)
then_check_iff v w (f, g) (h, k) =
    let (to, from) = then_check-valid v w in
    (λ e. let (a, b) = to e in (f a, h b), λ (p, q). from (g p, k q))

check_each_iff :
    {A : Type 0} (check : A → Validation) (P : A → Type 0) (xs : List A)
    → ((x : A) → (check x ≡ valid) ↔ P x)
    → (check_each check xs ≡ valid) ↔ All P xs
check_each_iff check P [] h = (λ e. tt, λ e. refl)
check_each_iff check P (x ∷ xs) h =
    then_check_iff (check x) (check_each check xs) (h x) (check_each_iff check P xs h)

pub IsTerminal-one : (elem : ProjectionElem) → IsTerminal (elem ∷ [])
IsTerminal-one elem zero elem' e k = refl
IsTerminal-one elem (suc i) elem' e k = absurd (ground arith)

pub IsTerminal-cons :
    (elem : ProjectionElem) (rest : List ProjectionElem)
    → is_slice elem ≡ false
    → IsTerminal rest
    → IsTerminal (elem ∷ rest)
IsTerminal-cons elem rest h k zero elem' e q =
    let z : is_slice elem ≡ is_slice elem' = ap is_slice (some_inj.0 e) in
    absurd (ground (arith, h, q, z))
IsTerminal-cons elem rest h k (suc i) elem' e q = omega (arith, k i elem' e q)

IsTerminal-tail :
    (elem next : ProjectionElem) (rest : List ProjectionElem)
    → IsTerminal (elem ∷ next ∷ rest)
    → (is_slice elem ≡ false) × IsTerminal (next ∷ rest)
IsTerminal-tail elem next rest h = (
  elim (Bool-cases (is_slice elem)) [
    | inl k ↦ absurd (let z = h 0 elem refl k in omega (arith, z))
    | inr k ↦ k
  ],
  λ i elem' e q. omega (arith, h (suc i) elem' e q),
)

visit_place-IsTerminal :
    (projection : List ProjectionElem) → (visit_place projection ≡ valid) ↔ IsTerminal projection
unfolding visit_place
visit_place-IsTerminal [] = ((λ _ i elem e. absurd (ground arith)), λ _. refl)
visit_place-IsTerminal (elem ∷ []) = ((λ _. IsTerminal-one elem), λ _. refl)
visit_place-IsTerminal (elem ∷ next ∷ rest) =
    let (to, from) = visit_place-IsTerminal (next ∷ rest) in
    (
      (λ e. elim (if_cases (is_slice elem) e) [
        | inl (k, q) ↦ absurd (ground (arith, q))
        | inr (k, q) ↦ IsTerminal-cons elem (next ∷ rest) k (to q)
      ]),
      λ h. let (k, t) = IsTerminal-tail elem next rest h in rw k (from t),
    )

abbrev AllTerminal : List Place → Type 0
AllTerminal = All (λ place. IsTerminal place.projection)

AllTerminal-one :
    (place : Place) → (visit_place place.projection ≡ valid) ↔ AllTerminal (place ∷ [])
AllTerminal-one place =
    let (to, from) = visit_place-IsTerminal place.projection in (λ e. (to e, tt), λ h. from h.0)

visit_operand-AllTerminal :
    (operand : Operand) → (visit_operand operand ≡ valid) ↔ AllTerminal (operand_places operand)
visit_operand-AllTerminal (copy place) = AllTerminal-one place
visit_operand-AllTerminal (move place) = AllTerminal-one place
visit_operand-AllTerminal (constant value) = (λ _. tt, λ _. refl)

-- Both of two lists.
All-append_iff :
    {A : Type 0} (P : A → Type 0) (xs ys : List A) {Q : Type 0}
    → Q ↔ (All P xs × All P ys)
    → Q ↔ All P (xs ++ ys)
All-append_iff P xs ys (f, g) =
    ((λ q. All-append P xs ys (f q).0 (f q).1), λ h. g (All-left P xs ys h, All-right P xs ys h))

operands-AllTerminal :
    (operands : List Operand)
    → (check_each visit_operand operands ≡ valid) ↔ AllTerminal (places_of operands)
operands-AllTerminal [] = (λ _. tt, λ _. refl)
operands-AllTerminal (operand ∷ operands) =
    All-append_iff _ (operand_places operand) (places_of operands) (
      then_check_iff (visit_operand operand) (check_each visit_operand operands)
        (visit_operand-AllTerminal operand) (operands-AllTerminal operands))

check_rvalue_places-AllTerminal :
    (rvalue : Rvalue) → (check_rvalue_places rvalue ≡ valid) ↔ AllTerminal (rvalue_places rvalue)
unfolding check_rvalue_places
check_rvalue_places-AllTerminal (use_of operand) = visit_operand-AllTerminal operand
check_rvalue_places-AllTerminal (ref_of place kind) = AllTerminal-one place
check_rvalue_places-AllTerminal (binary_op op left right) =
    All-append_iff _ (operand_places left) (operand_places right) (
      then_check_iff (visit_operand left) (visit_operand right) (visit_operand-AllTerminal left)
        (visit_operand-AllTerminal right))
check_rvalue_places-AllTerminal (unary_op op operand) = visit_operand-AllTerminal operand
check_rvalue_places-AllTerminal (aggregate kind operands) = operands-AllTerminal operands
check_rvalue_places-AllTerminal (discriminant place) = AllTerminal-one place
check_rvalue_places-AllTerminal (len_of place) = AllTerminal-one place
check_rvalue_places-AllTerminal (cast kind operand ty) = visit_operand-AllTerminal operand
check_rvalue_places-AllTerminal (repeat operand count) = visit_operand-AllTerminal operand

check_statement-AllTerminal :
    (statement : Statement)
    → (check_statement statement ≡ valid) ↔ AllTerminal (statement_places statement)
check_statement-AllTerminal (assign place rvalue) = check_rvalue_places-AllTerminal rvalue
check_statement-AllTerminal (storage_live local) = (λ _. tt, λ _. refl)
check_statement-AllTerminal (storage_dead local) = (λ _. tt, λ _. refl)
check_statement-AllTerminal nop = (λ _. tt, λ _. refl)

unless_needed_iff :
    (place : Place) (ty : Ty) (o : Option Bool)
    → (unless_needed place ty o ≡ valid) ↔ (o ≡ some true)
unless_needed_iff place ty none = (λ e. absurd (ground arith), λ e. absurd (ground arith))
unless_needed_iff place ty (some true) = (λ _. refl, λ _. refl)
unless_needed_iff place ty (some false) = (λ e. absurd (ground arith), λ e. absurd (ground arith))

check_drop_ty_iff :
    (fuel : ℕ) (ctx : DropCtx) (place : Place) (o : Option Ty)
    → (check_drop_ty fuel ctx place o ≡ valid)
      ↔ ((ty : Ty) × (o ≡ some ty) × (needs_drop fuel ctx ty ≡ some true))
check_drop_ty_iff fuel ctx place none = (
  (λ e. absurd (ground arith)),
  λ (ty, e, _). absurd (let z : none ≡ some ty = e in ground (arith, z)),
)
check_drop_ty_iff fuel ctx place (some ty) =
    let (f, g) = unless_needed_iff place ty (needs_drop fuel ctx ty) in
    ((λ e. (ty, refl, f e)), λ (ty', e, h). g (ap (needs_drop fuel ctx) (some_inj.0 e) ∙ h))

and_unit : {P Q : Type 0} → Q ↔ P → Q ↔ (P × Unit {0})
and_unit (f, g) = ((λ q. (f q, tt)), λ (p, _). g p)

module _ (n : ℕ) where
  check_target-lt : (b : BasicBlockIdx) → (check_target n b ≡ valid) ↔ (b < n)
  unfolding check_target
  check_target-lt b = ((λ e. ground arith), λ h. ground arith)

  check_optional-All :
      (o : Option BasicBlockIdx) → (check_optional n o ≡ valid) ↔ All (λ j. j < n) (optional o)
  check_optional-All none = (λ _. tt, λ _. refl)
  check_optional-All (some b) = let (f, g) = check_target-lt b in (λ e. (f e, tt), λ h. g h.0)

  check_branches-All :
      (branches : List (ℕ × BasicBlockIdx))
      → (check_branches n branches ≡ valid) ↔ All (λ j. j < n) (branch_targets branches)
  check_branches-All [] = (λ _. tt, λ _. refl)
  check_branches-All ((v, b) ∷ branches) =
      then_check_iff (check_target n b) (check_branches n branches) (check_target-lt b)
        (check_branches-All branches)

  check_target-optional :
      (target : BasicBlockIdx) (cleanup : Option BasicBlockIdx)
      → (check_target n target then_check check_optional n cleanup ≡ valid)
        ↔ All (λ j. j < n) (target ∷ optional cleanup)
  check_target-optional target cleanup =
      then_check_iff (check_target n target) (check_optional n cleanup) (check_target-lt target)
        (check_optional-All cleanup)

  module _ (fuel : ℕ) (ctx : DropCtx) (locals : List Ty) where
    check_drop-needed :
        (place : Place)
        → (check_drop fuel ctx locals place ≡ valid) ↔ (
            (ty : Ty) × (place_ty ctx.types locals place ≡ some ty)
            × (needs_drop fuel ctx ty ≡ some true))
    unfolding check_drop
    check_drop-needed place = check_drop_ty_iff fuel ctx place (place_ty ctx.types locals place)

    check_terminator_iff :
        (t : Terminator)
        → (check_terminator fuel ctx locals n t ≡ valid)
          ↔ (All (λ j. j < n) (terminator_successors t) × IsNeeded fuel ctx locals t)
    unfolding check_terminator terminator_successors
    check_terminator_iff (goto target) =
        let (f, g) = check_target-lt target in ((λ e. ((f e, tt), tt)), λ ((h, _), _). g h)
    check_terminator_iff (switch_int discr ty targets) =
        let (f, g) =
          then_check_iff (check_target n targets.otherwise) (check_branches n targets.branches)
            (check_target-lt targets.otherwise) (check_branches-All targets.branches) in
        and_unit (
          All-append_iff _ (branch_targets targets.branches) (targets.otherwise ∷ [])
            ((λ e. ((f e).1, ((f e).0, tt))), λ (h, (k, _)). g (k, h)))
    check_terminator_iff return = ((λ _. (tt, tt)), λ _. refl)
    check_terminator_iff unreachable = ((λ _. (tt, tt)), λ _. refl)
    check_terminator_iff (call func args destination target cleanup) = and_unit (
        All-append_iff _ (optional target) (optional cleanup) (
          then_check_iff (check_optional n target) (check_optional n cleanup)
            (check_optional-All target) (check_optional-All cleanup)))
    check_terminator_iff (assert cond expected target cleanup msg) =
        and_unit (check_target-optional target cleanup)
    check_terminator_iff (drop_place place target cleanup) =
        let (f, g) =
          then_check_iff (check_target n target)
            (check_optional n cleanup then_check check_drop fuel ctx locals place)
            (check_target-lt target)
            (then_check_iff (check_optional n cleanup) (check_drop fuel ctx locals place)
              (check_optional-All cleanup) (check_drop-needed place)) in
        ((λ e. (((f e).0, (f e).1.0), (f e).1.1)), λ ((h, k), q). g (h, (k, q)))

-- A body passes the checks just if each place that a right-hand side reads or borrows
-- has a slice projection at its end only, each target is a block of the body, and each dropped place has
-- a declared local and a type that needs dropping, as found within the fuel.
pub validate_body-IsChecked :
    (fuel : ℕ) (ctx : DropCtx) (body : Body)
    → (validate_body fuel ctx body ≡ valid) ↔ IsChecked fuel ctx body
unfolding validate_body
validate_body-IsChecked fuel ctx body =
    check_each_iff (check_block fuel ctx body.locals (length body.basic_blocks)) _ body.basic_blocks
      (λ block.
        then_check_iff (check_each check_statement block.statements)
          (check_terminator fuel ctx body.locals (length body.basic_blocks) block.terminator)
          (check_each_iff check_statement _ block.statements check_statement-AllTerminal)
          (check_terminator_iff (length body.basic_blocks) fuel ctx body.locals block.terminator))

All-targets :
    (fuel : ℕ) (ctx : DropCtx) (locals : List Ty) (n : ℕ) (blocks : List BasicBlockData)
    → All
        (λ block.
          All
            (λ statement. All (λ place. IsTerminal place.projection) (statement_places statement))
            block.statements
          × (All (λ j. j < n) (terminator_successors block.terminator)
              × IsNeeded fuel ctx locals block.terminator))
        blocks
    → All (λ block. All (λ j. j < n) (terminator_successors block.terminator)) blocks
All-targets fuel ctx locals n [] h = tt
All-targets fuel ctx locals n (block ∷ blocks) h =
    (h.0.1.0, All-targets fuel ctx locals n blocks h.1)

pub validate_body-InRange :
    (fuel : ℕ) (ctx : DropCtx) (body : Body)
    → validate_body fuel ctx body ≡ valid
    → InRange body.basic_blocks
validate_body-InRange fuel ctx body e =
    All-targets fuel ctx body.locals (length body.basic_blocks) body.basic_blocks
      ((validate_body-IsChecked fuel ctx body).0 e)
