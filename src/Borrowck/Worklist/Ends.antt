-- ===== src/Borrowck/Worklist/Ends.antt =====
-- The loop over a worklist ends, at facts that each follow from the others (liveness.rs and
-- move_analysis.rs of crates/glyim-borrowck/src).
use glyim_v.Prelude.{
  ℕ, zero, suc, ◌+◌, ◌*◌, ◌≤◌, ◌<◌, ◌≡◌, refl, subst, inl, inr, true, some, List, [], ◌∷◌, length,
  set, Bool-cases, contains, arith,
}
use glyim_v.Borrowck.BitSets.{BitSets}
use glyim_v.Borrowck.Worklist.{Analysis, at, Work, drained, visit_block, drain}
use glyim_v.Borrowck.Worklist.Marks.{IsQueue, enqueue-IsQueue, pop-IsQueue}
use glyim_v.Borrowck.Worklist.Fixpoint.{
  IsMonotone, room, room-set, room-le, IsBelow, IsBelow-pop, IsBelow-change,
}

mul_room : (a b d : ℕ) → a < b → a * suc d + suc d ≤ b * suc d
mul_room a b d h = grind arith

mul_le : (a b d : ℕ) → a ≤ b → a * suc d ≤ b * suc d
mul_le a b d h = grind arith

module _ (sets : BitSets) (a : Analysis) (n bound degree : ℕ) (P : ℕ → a.Fact → Type 0)
    (Le : a.Fact → a.Fact → Type 0) (weight : a.Fact → ℕ)
    (m : IsMonotone a n bound degree P Le weight) where
  open a use {Fact, bottom, recompute, is_same, dependents}
  open sets use {BitSet}

  abbrev Below : List Fact → List ℕ → Type 0
  Below = IsBelow a n bound degree P Le weight m

  abbrev left : List Fact → ℕ
  left = room a n bound degree P Le weight m

  -- What the loop ends with.
  pub record IsSolved (F : List Fact) : Type 0 where
    pub sized : length F ≡ n
    pub kept : (i : ℕ) → i < n → P i (at bottom F i)
    pub fixed : (j : ℕ) → j < n → is_same (recompute F j) (at bottom F j) ≡ true

  -- A round keeps what the facts and the worklist have, and comes nearer to the end.
  visit_block-IsBelow :
      (F : List Fact) (i : ℕ) (rest : List ℕ) (marks : BitSet)
      → Below F (i ∷ rest)
      → IsQueue sets n (i ∷ rest) marks
      → (w : Work sets a) × (visit_block sets a i F rest marks ≡ some w)
        × Below w.facts w.queue.worklist
        × IsQueue sets n w.queue.worklist w.queue.in_worklist
        × (left w.facts * suc degree + length w.queue.worklist
            < left F * suc degree + suc (length rest))
  unfolding visit_block
  visit_block-IsBelow F i rest marks h hq =
      let (unmarked, e, popped) = pop-IsQueue sets n i rest marks hq in
      let lt : i < n = hq.range.0 in
      elim (Bool-cases (is_same (recompute F i) (at bottom F i))) [
        | inl same ↦ (
          record { facts = F; queue = record { worklist = rest; in_worklist = unmarked } },
          rw (visit_block, e, same) refl,
          IsBelow-pop a n bound degree P Le weight m F i rest same h,
          popped,
          omega arith,
        )
        | inr differs ↦
            let (q, e', hq', len, all) =
              enqueue-IsQueue sets n (dependents i) rest unmarked (m.in_range i lt) popped in
            let v : Fact = recompute F i in
            let pv : P i v = m.keeps F h.kept i lt in
            let heavier = m.grows i (at bottom F i) v (h.kept i lt) pv (h.below i lt) differs in
            let smaller =
              room-set a n bound degree P Le weight m F i v (omega (arith, h.sized)) heavier
                (m.light i v pv) in
            (
              record { facts = set F i v; queue = q },
              rw (visit_block, e, differs, e') refl,
              IsBelow-change a n bound degree P Le weight m F i rest q.worklist lt h all,
              hq',
              omega (arith, m.few i lt, mul_room (left (set F i v)) (left F) degree smaller),
            )
      ]

  -- With the fuel for the growth that is left and for the list.
  drain-IsSolved :
      (fuel : ℕ) (F : List Fact) (worklist : List ℕ) (marks : BitSet)
      → left F * suc degree + length worklist ≤ fuel
      → Below F worklist
      → IsQueue sets n worklist marks
      → (G : List Fact) × (drain sets a fuel F worklist marks ≡ drained G) × IsSolved G
  unfolding drain contains
  drain-IsSolved fuel F [] marks enough h hq =
      (F, refl, record { sized = h.sized; kept = h.kept; fixed = λ j k. h.fixed j k refl })
  drain-IsSolved zero F (i ∷ rest) marks enough h hq = absurd (omega arith)
  drain-IsSolved (suc fuel) F (i ∷ rest) marks enough h hq =
      let (w, e, h', hq', less) = visit_block-IsBelow F i rest marks h hq in
      let (G, e', solved) =
        drain-IsSolved fuel w.facts w.queue.worklist w.queue.in_worklist (omega arith) h' hq' in
      (G, rw (drain, e) e', solved)

  pub drain_ends :
      (fuel : ℕ) (F : List Fact) (worklist : List ℕ) (marks : BitSet)
      → n * bound * suc degree + length worklist ≤ fuel
      → Below F worklist
      → IsQueue sets n worklist marks
      → (G : List Fact) × (drain sets a fuel F worklist marks ≡ drained G) × IsSolved G
  drain_ends fuel F worklist marks enough h hq =
      let most : left F ≤ n * bound =
        subst (λ k. left F ≤ k * bound) h.sized (room-le a n bound degree P Le weight m F) in
      drain-IsSolved fuel F worklist marks (omega (arith, mul_le (left F) (n * bound) degree most))
        h hq
