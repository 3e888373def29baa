-- ===== src/Borrowck/Worklist.antt =====
-- The loop over a worklist that liveness.rs and move_analysis.rs of crates/glyim-borrowck/src have
-- alike: a block whose facts change puts the blocks that depend on it back. The list has the block that
-- is popped next first.
pub mod Marks
pub mod Fixpoint
pub mod Ends
use glyim_v.Prelude.{ℕ, zero, suc, ◌+◌, Bool, true, false, Option, none, some, List, [], ◌∷◌, set}
use glyim_v.Borrowck.BitSets.{BitSets, ◌>>=◌}

-- The entry for a block; every index is in range here.
abbrev pub at {ℓ} : {A : Type ℓ} → A → List A → ℕ → A
at d [] i = d
at d (x ∷ xs) zero = x
at d (x ∷ xs) (suc i) = at d xs i

-- What one analysis brings to the loop: the facts of a block, how they follow from those of all
-- blocks, the test for a change, and the blocks that depend on a block.
pub record Analysis : Type 1 where
  pub Fact : Type 0
  pub bottom : Fact
  pub recompute : List Fact → ℕ → Fact
  pub is_same : Fact → Fact → Bool
  pub dependents : ℕ → List ℕ

module _ (sets : BitSets) where
  open sets use {BitSet, has, insert, remove}

  pub record Queue : Type 0 where
    pub worklist : List ℕ
    pub in_worklist : BitSet

  -- The `for` loop over the dependents.
  unfoldable pub enqueue : List ℕ → Queue → Option Queue
  enqueue [] q = some q
  enqueue (p ∷ ps) q = elim (has q.in_worklist p) [
    | true ↦ enqueue ps q
    | false ↦ elim (insert q.in_worklist p) [
      | none ↦ none
      | some marked ↦ enqueue ps (record { worklist = p ∷ q.worklist; in_worklist = marked })
    ]
  ]

  module _ (a : Analysis) where
    open a use {Fact, bottom, recompute, is_same, dependents}

    pub record Work : Type 0 where
      pub facts : List Fact
      pub queue : Queue

    pub data Drained : Type 0 where
      drained : List Fact → Drained
      drain_panics drain_no_fuel : Drained

    -- The body of the loop for the block `bi`, which is off the list.
    unfoldable pub visit_block : ℕ → List Fact → List ℕ → BitSet → Option Work
    visit_block bi facts rest in_worklist = elim (remove in_worklist bi) [
      | none ↦ none
      | some unmarked ↦
          let new = recompute facts bi in
          let queue : Queue = record { worklist = rest; in_worklist = unmarked } in
          elim (is_same new (at bottom facts bi)) [
            | true ↦ some (record { facts = facts; queue = queue })
            | false ↦ enqueue (dependents bi) queue >>= λ queue'.
                some (record { facts = set facts bi new; queue = queue' })
          ]
    ]

    -- `while let Some(bi) = worklist.pop()`.
    unfoldable pub drain : ℕ → List Fact → List ℕ → BitSet → Drained
    drain fuel facts [] in_worklist = drained facts
    drain zero facts (bi ∷ rest) in_worklist = drain_no_fuel
    drain (suc fuel) facts (bi ∷ rest) in_worklist = elim (visit_block bi facts rest in_worklist) [
      | none ↦ drain_panics
      | some w ↦ drain fuel w.facts w.queue.worklist w.queue.in_worklist
    ]
