-- ===== src/Opt/Semantics.antt =====
-- What a body does, over any meaning of its statements, operands, calls and drops. This is not code:
-- the passes of crates/glyim-opt/src are stated against it.
use glyim_v.Prelude.{
  ℕ, zero, suc, Bool, true, false, Option, none, some, List, [], ◌∷◌, get_elem?, ◌==◌,
  if◌then◌else◌,
}
use glyim_v.Mir.Types.{
  BasicBlockIdx, Place, Operand, Statement, SwitchTargets, Terminator, goto, switch_int, return,
  unreachable, call, assert, drop_place, BasicBlockData,
}

-- `none` is a fault. A call or a drop goes on (`true`) or unwinds.
pub record Meaning (S : Type 0) : Type 0 where
  pub statement : Statement → S → Option S
  pub value : Operand → S → Option ℕ
  pub holds : Operand → S → Option Bool
  pub calls : Operand → List Operand → Place → S → Option (Bool × S)
  pub drops : Place → S → Option (Bool × S)

-- Where a block leads to: another block, out of the body by a return or an unwinding, or nowhere.
pub data Next (S : Type 0) : Type 0 where
  to : BasicBlockIdx → S → Next S
  leaves unwinds : S → Next S
  stuck : Next S

pub data Result (S : Type 0) : Type 0 where
  returned unwound : S → Result S
  faulted running : Result S

unfoldable pub choose : List (ℕ × BasicBlockIdx) → BasicBlockIdx → ℕ → BasicBlockIdx
choose [] otherwise v = otherwise
choose ((w, b) ∷ branches) otherwise v = if w == v then b else choose branches otherwise v

module _ {S : Type 0} where
  abbrev pub go : Option BasicBlockIdx → Next S → S → Next S
  go none missing s = missing
  go (some b) missing s = to b s

  abbrev pub go_or_unwind : Option BasicBlockIdx → Option BasicBlockIdx → Option (Bool × S) → Next S
  go_or_unwind target cleanup none = stuck
  go_or_unwind target cleanup (some (true, s)) = go target stuck s
  go_or_unwind target cleanup (some (false, s)) = go cleanup (unwinds s) s

  abbrev pub switch : SwitchTargets → S → Option ℕ → Next S
  switch targets s none = stuck
  switch targets s (some v) = to (choose targets.branches targets.otherwise v) s

  abbrev pub as_expected : Bool → S → Option Bool → Option (Bool × S)
  as_expected expected s none = none
  as_expected true s (some b) = some (b, s)
  as_expected false s (some true) = some (false, s)
  as_expected false s (some false) = some (true, s)

abbrev pub then_exec : {S : Type 0} → (S → Option S) → Option S → Option S
then_exec rest none = none
then_exec rest (some s) = rest s

-- The outcome, where the function says what happens from the next block on.
abbrev pub follow : {S : Type 0} → (BasicBlockIdx → S → Result S) → Next S → Result S
follow continue (to b s) = continue b s
follow continue (leaves s) = returned s
follow continue (unwinds s) = unwound s
follow continue stuck = faulted

module _ {S : Type 0} (m : Meaning S) where
  unfoldable pub step : Terminator → S → Next S
  step (goto target) s = to target s
  step (switch_int discr ty targets) s = switch targets s (m.value discr s)
  step return s = leaves s
  step unreachable s = stuck
  step (call func args destination target cleanup) s =
      go_or_unwind target cleanup (m.calls func args destination s)
  step (assert cond expected target cleanup msg) s =
      go_or_unwind (some target) cleanup (as_expected expected s (m.holds cond s))
  step (drop_place place target cleanup) s = go_or_unwind (some target) cleanup (m.drops place s)

  unfoldable pub exec_all : List Statement → S → Option S
  exec_all [] s = some s
  exec_all (x ∷ xs) s = then_exec (exec_all xs) (m.statement x s)

  abbrev pub then_step : Terminator → Option S → Next S
  then_step t none = stuck
  then_step t (some s) = step t s

  unfoldable pub exec_block : BasicBlockData → S → Next S
  exec_block b s = then_step b.terminator (exec_all b.statements s)

  abbrev pub at_block : (BasicBlockIdx → S → Result S) → Option BasicBlockData → S → Result S
  at_block continue none s = faulted
  at_block continue (some block) s = follow continue (exec_block block s)

  -- At most `fuel` blocks, from block `b`.
  unfoldable pub run_from : ℕ → List BasicBlockData → BasicBlockIdx → S → Result S
  run_from zero blocks b s = running
  run_from (suc fuel) blocks b s = at_block (run_from fuel blocks) (get_elem? blocks b) s
