-- ===== src/Opt/Dce/Plain.antt =====
-- The meaning of a body of whole locals, over any operations on values. This is not code:
-- crates/glyim-opt/src/dce.rs and crates/glyim-opt/src/constant_prop.rs are stated against it.
use glyim_v.Prelude.{
  ℕ, ◌≡◌, Bool, true, contains, ◌==◌, Option, none, some, List, [], ◌∷◌, if◌then◌else◌,
}
use glyim_v.Layout.Types.{Ty}
use glyim_v.Mir.Types.{
  LocalIdx, ProjectionElem, Place, MirConst, BinOp, UnOp, BorrowKind, CastKind, AggregateKind,
  Operand, copy, move, constant, Rvalue, use_of, ref_of, binary_op, unary_op, aggregate,
  discriminant, len_of, cast, repeat, Statement, assign, storage_live, storage_dead, nop,
}
use glyim_v.Opt.Semantics.{
  Meaning, Next, to, leaves, unwinds, stuck, Result, returned, unwound, faulted, running,
}

-- The operations on values. A borrow and a projection may read any local.
pub record Values (V : Type 0) : Type 0 where
  pub const_value : MirConst → V
  pub project : List ProjectionElem → (LocalIdx → V) → V → V
  pub borrow : Place → BorrowKind → (LocalIdx → V) → V
  pub binary : BinOp → V → V → V
  pub unary : UnOp → V → V
  pub build : AggregateKind → List V → V
  pub tag : V → V
  pub count : V → V
  pub convert : CastKind → V → Ty → V
  pub fill : V → MirConst → V
  pub store : List ProjectionElem → (LocalIdx → V) → V → V → V
  pub number : V → Option ℕ
  pub truth : V → Option Bool
  pub apply : V → List V → Option (Bool × V)
  pub destroy : Place → (LocalIdx → V) → Option (Bool × (LocalIdx → V))

module _ {V : Type 0} (vs : Values V) where
  abbrev pub State : Type 0
  State = LocalIdx → V

  abbrev pub read_projected : List ProjectionElem → State → V → V
  read_projected [] s v = v
  read_projected (elem ∷ projection) s v = vs.project (elem ∷ projection) s v

  abbrev pub place_value : Place → State → V
  place_value place s = read_projected place.projection s (s place.local)

  abbrev pub operand_value : Operand → State → V
  operand_value (copy place) s = place_value place s
  operand_value (move place) s = place_value place s
  operand_value (constant value) s = vs.const_value value

  abbrev pub operand_values : List Operand → State → List V
  operand_values [] s = []
  operand_values (operand ∷ operands) s = operand_value operand s ∷ operand_values operands s

  abbrev pub rvalue_value : Rvalue → State → V
  rvalue_value (use_of operand) s = operand_value operand s
  rvalue_value (ref_of place kind) s = vs.borrow place kind s
  rvalue_value (binary_op op left right) s =
      vs.binary op (operand_value left s) (operand_value right s)
  rvalue_value (unary_op op operand) s = vs.unary op (operand_value operand s)
  rvalue_value (aggregate kind operands) s = vs.build kind (operand_values operands s)
  rvalue_value (discriminant place) s = vs.tag (place_value place s)
  rvalue_value (len_of place) s = vs.count (place_value place s)
  rvalue_value (cast kind operand ty) s = vs.convert kind (operand_value operand s) ty
  rvalue_value (repeat operand count) s = vs.fill (operand_value operand s) count

  abbrev pub written : List ProjectionElem → State → V → V → V
  written [] s old v = v
  written (elem ∷ projection) s old v = vs.store (elem ∷ projection) s old v

  abbrev pub write : Place → V → State → State
  write place v s l = if l == place.local then written place.projection s (s l) v else s l

  abbrev pub statement_state : Statement → State → Option State
  statement_state (assign place rvalue) s = some (write place (rvalue_value rvalue s) s)
  statement_state (storage_live local) s = some s
  statement_state (storage_dead local) s = some s
  statement_state nop s = some s

  abbrev pub into_place : Place → State → Option (Bool × V) → Option (Bool × State)
  into_place place s none = none
  into_place place s (some (goes_on, v)) = some (goes_on, write place v s)

  -- What a body does, from the operations on values.
  abbrev pub locals_meaning : Meaning (LocalIdx → V)
  locals_meaning = record {
    statement = statement_state;
    value = λ operand s. vs.number (operand_value operand s);
    holds = λ operand s. vs.truth (operand_value operand s);
    calls = λ func args destination s.
        into_place destination s (vs.apply (operand_value func s) (operand_values args s));
    drops = vs.destroy;
  }

  -- The same value in each local of the set.
  abbrev pub Agree : List LocalIdx → State → State → Type 0
  Agree used s t = (l : LocalIdx) → contains used l ≡ true → s l ≡ t l

  abbrev pub AgreeNext : List LocalIdx → Next State → Next State → Type 0
  AgreeNext used (to b s) (to c t) = (b ≡ c) × Agree used s t
  AgreeNext used (leaves s) (leaves t) = Agree used s t
  AgreeNext used (unwinds s) (unwinds t) = Agree used s t
  AgreeNext used stuck stuck = Unit
  AgreeNext used _ _ = ⊥

  -- Both end alike, with the same values in the locals of the set, or both are still running.
  abbrev pub AgreeResult : List LocalIdx → Result State → Result State → Type 0
  AgreeResult used (returned s) (returned t) = Agree used s t
  AgreeResult used (unwound s) (unwound t) = Agree used s t
  AgreeResult used faulted faulted = Unit
  AgreeResult used running running = Unit
  AgreeResult used _ _ = ⊥
