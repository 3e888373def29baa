-- ===== src/Opt/CfgSimplify/Keeps.antt =====
-- The rounds one after the other (crates/glyim-opt/src/cfg_simplify.rs).
use glyim_v.Prelude.{
  ℕ, zero, suc, ◌+◌, ◌-◌, ◌≤◌, ◌<◌, ◌^◌, ◌≡◌, refl, sym, ap, subst, ◌∙◌, inl, inr, Bool, false, not,
  some, List, [], ◌∷◌, length, All, All-get_elem?, eq-cases, List-cases, arith,
}
use glyim_v.Mir.Types.{BasicBlockData, Body}
use glyim_v.Opt.Edges.{terminator_successors}
use glyim_v.Opt.Semantics.{Meaning, run_from}
use glyim_v.Opt.Outcomes.{Ends-run_from, run_from-Ends, Ends-IsEnd}
use glyim_v.Opt.Rank.{rank, rank-le, rank-all, rank-lt}
use glyim_v.Opt.Renumber.{IsClosed, run_from-compact}
use glyim_v.Prelude.{contains}
use glyim_v.Opt.Unreachable.{compact, passed}
use glyim_v.Opt.Unreachable.Reach.{InRange}
use glyim_v.Opt.Unreachable.Targets.{compact-InRange, length-compact}
use glyim_v.Opt.CfgSimplify.{round, simplify, run}
use glyim_v.Opt.CfgSimplify.Rounds.{IsMerging, SameEnds, SameEnds-trans, visit_from-IsMerging}

All-imp {κ μ} :
    (P : ℕ → Type κ) (Q : ℕ → Type μ) (xs : List ℕ) → ((j : ℕ) → P j → Q j) → All P xs → All Q xs
All-imp P Q [] f h = tt
All-imp P Q (x ∷ xs) f h = (f x h.0, All-imp P Q xs f h.1)

InRange-IsClosed :
    (blocks : List BasicBlockData) → InRange blocks → IsClosed (λ j. not (contains [] j)) blocks
unfolding contains
InRange-IsClosed blocks range i b e k =
    All-imp _ _ (terminator_successors b.terminator) (λ j h. (refl, h))
      (All-get_elem? _ blocks i range e)

module _ {S : Type 0} (m : Meaning S) (blocks : List BasicBlockData) (range : InRange blocks)
    (some_block : 0 < length blocks) where
  round-IsMerging : IsMerging blocks (round blocks) × SameEnds m blocks (round blocks).blocks
  unfolding round contains
  round-IsMerging =
      visit_from-IsMerging m blocks (length blocks - 1) 1 (record { blocks = blocks; delete = [] })
        (refl, (λ k. omega arith), InRange-IsClosed blocks range, refl, tt) (omega arith)
        (omega arith)

  -- The blocks that are left, under their new numbers.
  abbrev left : List BasicBlockData
  left = compact (λ i. not (contains (round blocks).delete i)) (round blocks).blocks

  left-InRange : length blocks ≤ 2 ^ 32 → InRange left
  left-InRange small =
      let inv = round-IsMerging.0 in
      compact-InRange (λ i. not (contains (round blocks).delete i)) (round blocks).blocks
        (omega (arith, inv.0)) inv.2

  left-SameEnds : length blocks ≤ 2 ^ 32 → SameEnds m blocks left
  left-SameEnds small =
      let (inv, same) = round-IsMerging in
      let kept : ℕ → Bool = λ i. not (contains (round blocks).delete i) in
      let same_run : (fuel : ℕ) (s : S)
          → run_from m fuel left 0 s ≡ run_from m fuel (round blocks).blocks 0 s =
        λ fuel s.
          run_from-compact kept (round blocks).blocks (omega (arith, inv.0)) m inv.2 fuel 0 s
            (ground (arith, inv.3)) (omega (arith, inv.0)) in
      SameEnds-trans m blocks (round blocks).blocks left same (λ s r. (
        λ d.
            let (fuel, e) = Ends-run_from m left 0 s r d in
            run_from-Ends m (round blocks).blocks fuel 0 s r (sym (same_run fuel s) ∙ e)
              (Ends-IsEnd m left 0 s r d),
        λ d.
            let (fuel, e) = Ends-run_from m (round blocks).blocks 0 s r d in
            run_from-Ends m left fuel 0 s r (same_run fuel s ∙ e)
              (Ends-IsEnd m (round blocks).blocks 0 s r d),
      ))

  left-some : 0 < length left
  left-some =
      let inv = round-IsMerging.0 in
      let kept : ℕ → Bool = λ i. not (contains (round blocks).delete i) in
      omega (
        arith,
        length-compact kept (round blocks).blocks,
        rank-lt kept 0 0 (length (round blocks).blocks) (ground (arith, inv.3))
            (omega (arith, inv.0)),
      )

  -- A round that deletes a block leaves fewer.
  left-lt : (d : ℕ) (ds : List ℕ) → (round blocks).delete ≡ d ∷ ds → length left < length blocks
  unfolding contains
  left-lt d ds e =
      let inv = round-IsMerging.0 in
      let kept : ℕ → Bool = λ i. not (contains (round blocks).delete i) in
      let n : ℕ = length (round blocks).blocks in
      let gone : kept (0 + d) ≡ false = ap (λ l. not (contains l (0 + d))) e ∙ ground arith in
      let in_range : d < length blocks = (subst (All (λ d. d < length blocks)) e inv.4).0 in
      let le = rank-le kept 0 n in
      elim (eq-cases (rank kept 0 n) n) [
        | inl q ↦
            let k = rank-all kept 0 d n q (omega (arith, in_range, inv.0)) in
            absurd (ground (arith, gone, k))
        | inr q ↦ omega (arith, length-compact kept (round blocks).blocks, inv.0, le, q)
      ]

simplify-done :
    (fuel : ℕ) (blocks : List BasicBlockData)
    → (round blocks).delete ≡ []
    → simplify (suc fuel) blocks ≡ some blocks
unfolding simplify
simplify-done fuel blocks e = rw (simplify, e) refl

simplify-more :
    (fuel : ℕ) (blocks : List BasicBlockData) (d : ℕ) (ds : List ℕ)
    → (round blocks).delete ≡ d ∷ ds
    → simplify (suc fuel) blocks
      ≡ simplify fuel (compact (λ i. not (contains (round blocks).delete i)) (round blocks).blocks)
unfolding simplify
simplify-more fuel blocks d ds e =
    ap
      (λ l. elim l [
        | [] ↦ some blocks
        | _ ∷ _ ↦
            simplify fuel
              (compact (λ i. not (contains (round blocks).delete i)) (round blocks).blocks)
      ])
      e

-- The rounds end, and what is left has no `Goto` to merge.
simplify-SameEnds :
    {S : Type 0} (m : Meaning S) (fuel : ℕ) (blocks : List BasicBlockData)
    → InRange blocks
    → 0 < length blocks
    → length blocks ≤ 2 ^ 32
    → length blocks ≤ fuel
    → (new : List BasicBlockData) × (simplify fuel blocks ≡ some new)
      × InRange new
      × (0 < length new)
      × (length new ≤ length blocks)
      × ((round new).delete ≡ [])
      × SameEnds m blocks new
unfolding simplify
simplify-SameEnds m zero blocks range some_block small enough = absurd (omega arith)
simplify-SameEnds m (suc fuel) blocks range some_block small enough =
    elim (List-cases (round blocks).delete) [
      | inl e ↦ (
        blocks,
        simplify-done fuel blocks e,
        range,
        some_block,
        omega arith,
        e,
        λ s r. (λ d. d, λ d. d),
      )
      | inr (d, ds, e) ↦
          let lt = left-lt m blocks range some_block d ds e in
          let (new, q, range', some', le, done, same) =
            simplify-SameEnds m fuel (left m blocks range some_block)
              (left-InRange m blocks range some_block small) (left-some m blocks range some_block)
              (omega (arith, lt)) (omega (arith, lt)) in
          (
            new,
            simplify-more fuel blocks d ds e ∙ q,
            range',
            some',
            omega (arith, le, lt),
            done,
            SameEnds-trans m blocks (left m blocks range some_block) new
                (left-SameEnds m blocks range some_block small) same,
          )
    ]

run-passed :
    (body : Body) (new : List BasicBlockData)
    → simplify (length body.basic_blocks) body.basic_blocks ≡ some new
    → run body ≡ passed (record body { basic_blocks = new })
unfolding run
run-passed body new e = rw (run, e) refl

module _ {S : Type 0} (m : Meaning S) (body : Body) (range : InRange body.basic_blocks)
    (some_block : 0 < length body.basic_blocks) (small : length body.basic_blocks ≤ 2 ^ 32) where
  -- For a body that has a block, has every target among its blocks, and has at most 2^32 of them: the
  -- pass ends; the new body has no more blocks than the old, again at least one and every target among
  -- them; a further round would merge nothing; and for every meaning of statements, operands, calls and
  -- drops, and every state, the new body ends in the results that the old body ends in.
  pub run-SameEnds :
      (body' : Body) × (run body ≡ passed body')
      × InRange body'.basic_blocks
      × (0 < length body'.basic_blocks)
      × (length body'.basic_blocks ≤ length body.basic_blocks)
      × ((round body'.basic_blocks).delete ≡ [])
      × SameEnds m body.basic_blocks body'.basic_blocks
  run-SameEnds =
      let (new, e, range', some', le, done, same) =
        simplify-SameEnds m (length body.basic_blocks) body.basic_blocks range some_block small
          (omega arith) in
      (record body { basic_blocks = new }, run-passed body new e, range', some', le, done, same)
