-- ===== src/Borrowck/Worklist/Marks.antt =====
-- The worklist with the set beside it, `in_worklist` (liveness.rs and move_analysis.rs of
-- crates/glyim-borrowck/src).
use glyim_v.Prelude.{
  ℕ, ◌+◌, ◌≤◌, ◌<◌, ◌≡◌, refl, sym, ap, subst, ◌∙◌, inl, inr, true, false, ◌||◌, some, List, [],
  ◌∷◌, length, All, ◌==◌, Bool-cases, contains, arith,
}
use glyim_v.Opt.Unreachable.Reach.{IsDistinct}
use glyim_v.Borrowck.BitSets.{BitSets}
use glyim_v.Borrowck.Worklist.{Queue, enqueue}

module _ (sets : BitSets) where
  open sets use {BitSet, size, has, insert, insert_in, remove_in}

  -- The set beside the worklist has what the list has, each once.
  pub record IsQueue (n : ℕ) (worklist : List ℕ) (marks : BitSet) : Type 0 where
    pub marked : size marks ≡ n
    pub listed : (j : ℕ) → has marks j ≡ contains worklist j
    pub once : IsDistinct worklist
    pub range : All (λ j. j < n) worklist

  enqueue-new :
      (p : ℕ) (ps worklist : List ℕ) (marks marks' : BitSet)
      → has marks p ≡ false
      → insert marks p ≡ some marks'
      → enqueue sets (p ∷ ps) (record { worklist = worklist; in_worklist = marks })
        ≡ enqueue sets ps (record { worklist = p ∷ worklist; in_worklist = marks' })
  unfolding enqueue
  enqueue-new p ps worklist marks marks' new e = rw (enqueue, new, e) refl

  pub enqueue-IsQueue :
      (n : ℕ) (ps worklist : List ℕ) (marks : BitSet)
      → All (λ j. j < n) ps
      → IsQueue n worklist marks
      → (q : Queue sets) × (enqueue sets ps (record { worklist = worklist; in_worklist = marks })
          ≡ some q)
        × IsQueue n q.worklist q.in_worklist
        × (length q.worklist ≤ length worklist + length ps)
        × ((j : ℕ) → contains q.worklist j ≡ (contains ps j || contains worklist j))
  unfolding enqueue contains
  enqueue-IsQueue n [] worklist marks lt h =
      (record { worklist = worklist; in_worklist = marks }, refl, h, omega arith, λ j. refl)
  enqueue-IsQueue n (p ∷ ps) worklist marks lt h = elim (Bool-cases (has marks p)) [
    | inl there ↦
        let (q, e, h', len, all) = enqueue-IsQueue n ps worklist marks lt.1 h in
        (
          q,
          rw (enqueue, there) e,
          h',
          omega arith,
          λ j. elim (Bool-cases (p == j)) [
            | inl same ↦
                let k : contains worklist j ≡ true =
                  sym (h.listed j) ∙ subst (λ i. has marks i ≡ true) (ground arith) there in
                ground (arith, all j)
            | inr other ↦ ground (arith, all j)
          ],
        )
    | inr new ↦
        let (marks', e, sz, bits) = insert_in marks p (omega (arith, h.marked, lt.0)) in
        let next : IsQueue n (p ∷ worklist) marks' = record {
          marked = sz ∙ h.marked;
          listed = λ j. bits j ∙ ap (λ b. (p == j) || b) (h.listed j);
          once = (sym (h.listed p) ∙ new, h.once);
          range = (lt.0, h.range);
        } in
        let (q, e', h', len, all) = enqueue-IsQueue n ps (p ∷ worklist) marks' lt.1 next in
        (
          q,
          enqueue-new p ps worklist marks marks' new e ∙ e',
          h',
          omega arith,
          λ j. ground (arith, all j),
        )
  ]

  pub pop-IsQueue :
      (n i : ℕ) (rest : List ℕ) (marks : BitSet)
      → IsQueue n (i ∷ rest) marks
      → (t : BitSet) × (sets.remove marks i ≡ some t) × IsQueue n rest t
  unfolding contains
  pop-IsQueue n i rest marks h =
      let (t, e, sz, bits) = remove_in marks i (omega (arith, h.marked, h.range.0)) in
      (
        t,
        e,
        record {
          marked = sz ∙ h.marked;
          listed = λ j. elim (Bool-cases (i == j)) [
            | inl q ↦
                let gone : contains rest j ≡ false =
                  subst (λ k. contains rest k ≡ false) (ground arith) h.once.0 in
                ground (arith, bits j, gone)
            | inr q ↦ ground (arith, bits j, h.listed j)
          ];
          once = h.once.1;
          range = h.range.1;
        },
      )
