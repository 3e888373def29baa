-- ===== src/Opt/CfgSimplify/Rounds.antt =====
-- The loop over the blocks in one round (crates/glyim-opt/src/cfg_simplify.rs).
use glyim_v.Prelude.{
  ℕ, zero, suc, ◌+◌, ◌≤◌, ◌<◌, ◌≡◌, ◌≢◌, ◌↔◌, ◌⊎◌, refl, sym, ap, subst, ◌∙◌, inl, inr, true, false,
  not, some, List, [], ◌∷◌, length, get_elem?, All, eq-cases, Bool-cases, arith,
}
use mathlib.Core.Option.{some_inj}
use glyim_v.Mir.Types.{
  Terminator, goto, switch_int, return, unreachable, call, assert, drop_place, BasicBlockData,
}
use glyim_v.Opt.Edges.{terminator_successors}
use glyim_v.Opt.Semantics.{Meaning, Result}
use glyim_v.Opt.Outcomes.{Ends}
use glyim_v.Opt.Renumber.{IsClosed}
use glyim_v.Prelude.{contains}
use glyim_v.Opt.CfgSimplify.{
  block_at, count, predecessors, is_goto, Merging, merge, visit, visit_from,
}
use glyim_v.Opt.CfgSimplify.Merged.{merged-Ends, Ends-merged}
use glyim_v.Opt.CfgSimplify.Edit.{
  edges_to, length-predecessors, count-All, get_elem?-block_at, edges_to-two, moved, length-moved,
  moved-others, edges_to-moved, statements-moved, terminator-moved, moved_self,
}

is_goto-goto : (t : Terminator) (i : ℕ) → is_goto t i ≡ true → t ≡ goto i
unfolding is_goto
is_goto-goto (goto target) i e = ap goto (ground arith)
is_goto-goto (switch_int _ _ _) i e = absurd (ground arith)
is_goto-goto return i e = absurd (ground arith)
is_goto-goto unreachable i e = absurd (ground arith)
is_goto-goto (call _ _ _ _ _) i e = absurd (ground arith)
is_goto-goto (assert _ _ _ _ _) i e = absurd (ground arith)
is_goto-goto (drop_place _ _ _) i e = absurd (ground arith)

-- A block that ends in a `Goto` is not the one given for an index out of range.
block_at-lt :
    (blocks : List BasicBlockData) (p i : ℕ)
    → (block_at blocks p).terminator ≡ goto i
    → p < length blocks
block_at-lt [] p i e = absurd (ground arith)
block_at-lt (b ∷ blocks) zero i e = omega arith
block_at-lt (b ∷ blocks) (suc p) i e = omega (arith, block_at-lt blocks p i e)

-- What a round's state has in common with the blocks that the round began with, and what is deleted.
abbrev pub IsMerging : List BasicBlockData → Merging → Type 0
IsMerging before st =
    (length st.blocks ≡ length before)
    × ((k : ℕ) → edges_to k st.blocks ≤ edges_to k before)
    × IsClosed (λ j. not (contains st.delete j)) st.blocks
    × (contains st.delete 0 ≡ false)
    × All (λ d. d < length before) st.delete

-- The condition of a merging.
abbrev Merges : List BasicBlockData → ℕ → ℕ → Merging → Type 0
Merges before p i st =
    (edges_to i before ≡ 1)
    × (contains st.delete i ≡ false)
    × (contains st.delete p ≡ false)
    × ((block_at st.blocks p).terminator ≡ goto i)

visit-merge :
    (before : List BasicBlockData) (i : ℕ) (st : Merging) (ps : List ℕ)
    → length ps ≡ edges_to i before
    → (visit ps i st ≡ st) ⊎ ((p : ℕ) × (visit ps i st ≡ merge p i st) × Merges before p i st)
unfolding visit
visit-merge before i st [] e = inl refl
visit-merge before i st (p ∷ _ ∷ _) e = inl refl
visit-merge before i st (p ∷ []) e = elim (Bool-cases (contains st.delete i)) [
  | inl h ↦ inl (rw h refl)
  | inr h ↦ elim (Bool-cases (contains st.delete p)) [
    | inl k ↦ inl (rw (h, k) refl)
    | inr k ↦ elim (Bool-cases (is_goto (block_at st.blocks p).terminator i)) [
      | inl g ↦ inr (p, rw (h, k, g) refl, (omega (arith, e), h, k, is_goto-goto _ i g))
      | inr g ↦ inl (rw (h, k, g) refl)
    ]
  ]
]

All-both :
    (P Q R : ℕ → Type 0) (xs : List ℕ)
    → ((j : ℕ) → P j → Q j → R j)
    → All P xs
    → All Q xs
    → All R xs
All-both P Q R [] f h k = tt
All-both P Q R (x ∷ xs) f h k = (f x h.0 k.0, All-both P Q R xs f h.1 k.1)

module _ (before : List BasicBlockData) (p i : ℕ) (st : Merging) (inv : IsMerging before st)
    (merges : Merges before p i st) (some_i : 0 < i) (hi : i < length before) where
  i_lt : i < length st.blocks
  i_lt = omega (arith, inv.0, hi)

  p_lt : p < length st.blocks
  p_lt = block_at-lt st.blocks p i merges.3

  at_i : get_elem? st.blocks i ≡ some (block_at st.blocks i)
  at_i = get_elem?-block_at st.blocks i i_lt

  at_p : get_elem? st.blocks p ≡ some (block_at st.blocks p)
  at_p = get_elem?-block_at st.blocks p p_lt

  -- No other block leads to `i`.
  only_edge :
      (b : ℕ) (block : BasicBlockData)
      → b ≢ p
      → get_elem? st.blocks b ≡ some block
      → All (λ j. j ≢ i) (terminator_successors block.terminator)
  unfolding count terminator_successors
  only_edge b block n e =
      let goes_once : count i (terminator_successors (block_at st.blocks p).terminator) ≡ 1 =
        ap (λ t. count i (terminator_successors t)) merges.3 ∙ ground arith in
      count-All i (terminator_successors block.terminator) (
        omega (
          arith,
          goes_once,
          edges_to-two i st.blocks p b (block_at st.blocks p) block at_p e (λ z. n (sym z)),
          inv.1 i,
          merges.0,
        ))

  -- The targets of the merged blocks.
  moved-IsClosed : IsClosed (λ j. not (contains (i ∷ st.delete) j)) (moved p i st.blocks)
  unfolding contains
  moved-IsClosed b block e kept =
      let closed = inv.2 in
      let nb : b ≢ i = λ q. ground arith in
      let elsewhere =
        λ (t : Terminator)
            (h : All (λ j. (not (contains st.delete j) ≡ true) × (j < length st.blocks))
              (terminator_successors t))
            (k : All (λ j. j ≢ i) (terminator_successors t)).
          All-both _ _
            (λ j. (not (contains (i ∷ st.delete) j) ≡ true) × (j < length (moved p i st.blocks)))
            (terminator_successors t)
            (λ j q r. (ground (arith, q.0, r), omega (arith, q.1, length-moved p i st.blocks))) h
            k in
      elim (eq-cases b p) [
        | inl q ↦
            let same : block ≡ block_at (moved p i st.blocks) p = some_inj.0 (
              sym e
              ∙ ap (get_elem? (moved p i st.blocks)) q
              ∙ get_elem?-block_at (moved p i st.blocks) p
                  (omega (arith, p_lt, length-moved p i st.blocks))) in
            let t : block.terminator ≡ (block_at st.blocks i).terminator =
              ap (λ c. c.terminator) same ∙ terminator-moved p i st.blocks p_lt i_lt in
            subst
              (λ t.
                All
                  (λ j.
                    (not (contains (i ∷ st.delete) j) ≡ true) × (j < length (moved p i st.blocks)))
                  (terminator_successors t))
              (sym t)
              (elsewhere (block_at st.blocks i).terminator
                (closed i (block_at st.blocks i) at_i (ground (arith, merges.1)))
                (only_edge i (block_at st.blocks i) (λ z. nb (q ∙ sym z)) at_i))
        | inr q ↦
            let e' = sym (moved-others p i st.blocks b q nb) ∙ e in
            elsewhere block.terminator (closed b block e' (ground (arith, kept)))
              (only_edge b block q e')
      ]

  merge-IsMerging : IsMerging before (merge p i st)
  unfolding merge contains
  merge-IsMerging = (
    length-moved p i st.blocks ∙ inv.0,
    (λ k. omega (arith, edges_to-moved p i st.blocks p_lt i_lt k, inv.1 k)),
    moved-IsClosed,
    ground (arith, inv.3),
    (hi, inv.4),
  )

  module _ {S : Type 0} (m : Meaning S) where
    -- Merging a block with itself changes nothing.
    moved-same : p ≡ i → moved p i st.blocks ≡ st.blocks
    moved-same e = ap (λ q. moved q i st.blocks) e ∙ moved_self i st.blocks i_lt

    merge-Ends :
        (s : S) (r : Result S) → Ends m (moved p i st.blocks) 0 s r ↔ Ends m st.blocks 0 s r
    merge-Ends s r = elim (eq-cases p i) [
      | inl e ↦
          subst (λ bs. Ends m bs 0 s r ↔ Ends m st.blocks 0 s r) (sym (moved-same e))
            (λ d. d, λ d. d)
      | inr n ↦
          let new : List BasicBlockData = moved p i st.blocks in
          let both : BasicBlockData = block_at new p in
          let a : BasicBlockData = block_at st.blocks p in
          let c : BasicBlockData = block_at st.blocks i in
          let x = statements-moved p i st.blocks p_lt i_lt n in
          let y = terminator-moved p i st.blocks p_lt i_lt in
          let at_both : get_elem? new p ≡ some both =
            get_elem?-block_at new p (omega (arith, p_lt, length-moved p i st.blocks)) in
          let others = moved-others p i st.blocks in
          let z : 0 ≢ i = λ q. ground arith in
          (
            λ d.
                Ends-merged m p i a c both merges.3 x y n st.blocks new at_p at_i at_both others
                  only_edge 0 s r d z,
            λ d.
                (merged-Ends m p i a c both merges.3 x y n st.blocks new at_p at_i at_both others
                    only_edge 0 s r d).0
                  z,
          )
    ]

abbrev pub SameEnds : {S : Type 0} → Meaning S → (old new : List BasicBlockData) → Type 0
SameEnds {S} m old new = (s : S) (r : Result S) → Ends m new 0 s r ↔ Ends m old 0 s r

pub SameEnds-trans :
    {S : Type 0} (m : Meaning S) (a b c : List BasicBlockData)
    → SameEnds m a b
    → SameEnds m b c
    → SameEnds m a c
SameEnds-trans m a b c h k s r = (λ d. (h s r).0 ((k s r).0 d), λ d. (k s r).1 ((h s r).1 d))

merge-SameEnds :
    (before : List BasicBlockData) (p i : ℕ) (st : Merging) (inv : IsMerging before st)
    (merges : Merges before p i st) (some_i : 0 < i) (hi : i < length before) {S : Type 0}
    (m : Meaning S)
    → SameEnds m st.blocks (merge p i st).blocks
unfolding merge
merge-SameEnds before p i st inv merges some_i hi m s r =
    merge-Ends before p i st inv merges some_i hi m s r

module _ {S : Type 0} (m : Meaning S) (before : List BasicBlockData) where
  visit-IsMerging :
      (i : ℕ) (st : Merging)
      → IsMerging before st
      → 0 < i
      → i < length before
      → IsMerging before (visit (predecessors i 0 before) i st)
        × SameEnds m st.blocks (visit (predecessors i 0 before) i st).blocks
  visit-IsMerging i st inv some_i hi =
      elim (visit-merge before i st (predecessors i 0 before) (length-predecessors i 0 before)) [
        | inl e ↦ (
          subst (IsMerging before) (sym e) inv,
          subst (λ (st' : Merging). SameEnds m st.blocks st'.blocks) (sym e)
              (λ s r. (λ d. d, λ d. d)),
        )
        | inr (p, e, merges) ↦ (
          subst (IsMerging before) (sym e) (merge-IsMerging before p i st inv merges some_i hi),
          subst (λ (st' : Merging). SameEnds m st.blocks st'.blocks) (sym e)
              (merge-SameEnds before p i st inv merges some_i hi m),
        )
      ]

  pub visit_from-IsMerging :
      (n i : ℕ) (st : Merging)
      → IsMerging before st
      → 0 < i
      → i + n ≤ length before
      → IsMerging before (visit_from before n i st)
        × SameEnds m st.blocks (visit_from before n i st).blocks
  unfolding visit_from
  visit_from-IsMerging zero i st inv some_i le = (inv, λ s r. (λ d. d, λ d. d))
  visit_from-IsMerging (suc n) i st inv some_i le =
      let (inv1, same1) = visit-IsMerging i st inv some_i (omega arith) in
      let (inv2, same2) =
        visit_from-IsMerging n (suc i) (visit (predecessors i 0 before) i st) inv1 (omega arith)
          (omega arith) in
      (inv2, SameEnds-trans m _ _ _ same1 same2)
