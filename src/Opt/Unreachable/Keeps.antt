-- ===== src/Opt/Unreachable/Keeps.antt =====
-- The whole pass (crates/glyim-opt/src/unreachable_elim.rs).
use glyim_v.Prelude.{
  ℕ, ◌+◌, ◌≤◌, ◌<◌, ◌^◌, ◌≡◌, refl, ap, subst, ◌∙◌, inl, inr, ◌↔◌, true, false, List, length, ◌==◌,
  arith, Bool-cases,
}
use glyim_v.Mir.Types.{BasicBlockData, Body}
use glyim_v.Opt.Edges.{terminator_successors}
use glyim_v.Opt.Semantics.{Meaning, run_from}
use glyim_v.Opt.Rank.{rank-onto, rank-all, rank-contains}
use glyim_v.Opt.Renumber.{IsClosed, run_from-compact}
use glyim_v.Prelude.{contains}
use glyim_v.Opt.Unreachable.{compact, found, reachable_set, passed, run}
use glyim_v.Opt.Unreachable.Reach.{
  InRange, Reaches, start, edge, reachable_set-Reaches, Reaches-lt, contains-All,
}
use glyim_v.Opt.Unreachable.Targets.{compact-InRange, Reaches-compact, length-compact}

run-same :
    (body : Body) (r : List ℕ)
    → reachable_set body.basic_blocks ≡ found r
    → (length r == length body.basic_blocks) ≡ true
    → run body ≡ passed body
unfolding run
run-same body r e q = rw (run, e, q) refl

run-less :
    (body : Body) (r : List ℕ)
    → reachable_set body.basic_blocks ≡ found r
    → (length r == length body.basic_blocks) ≡ false
    → run body ≡ passed (record body { basic_blocks = compact (contains r) body.basic_blocks })
unfolding run
run-less body r e q = rw (run, e, q) refl

module _ (body : Body) (range : InRange body.basic_blocks)
    (some_block : 0 < length body.basic_blocks) (small : length body.basic_blocks ≤ 2 ^ 32) where
  -- The found set is closed: it has what the start reaches.
  found-IsClosed :
      (r : List ℕ)
      → ((i : ℕ) → (contains r i ≡ true) ↔ Reaches body.basic_blocks i)
      → IsClosed (contains r) body.basic_blocks
  found-IsClosed r iff i b e k = contains-All _ (terminator_successors b.terminator) (λ j h.
      let w = edge b ((iff i).0 k) e h in
      ((iff j).1 w, Reaches-lt body.basic_blocks range some_block j w))

  -- For a body that has a block, has every target among its blocks, and has at most 2^32 of them: the
  -- pass returns a body that, under every meaning of statements, operands, calls and drops, runs from
  -- every state as the old body does, with the same result after the same number of blocks.
  pub run-run_from :
      {S : Type 0} (m : Meaning S) (fuel : ℕ) (s : S)
      → (body' : Body) × (run body ≡ passed body')
        × (run_from m fuel body'.basic_blocks 0 s ≡ run_from m fuel body.basic_blocks 0 s)
  run-run_from m fuel s =
      let (r, e, iff, once) = reachable_set-Reaches body.basic_blocks range some_block in
      elim (Bool-cases (length r == length body.basic_blocks)) [
        | inl q ↦ (body, run-same body r e q, refl)
        | inr q ↦ (
          record body { basic_blocks = compact (contains r) body.basic_blocks },
          run-less body r e q,
          run_from-compact (contains r) body.basic_blocks small m (found-IsClosed r iff) fuel 0 s
              ((iff 0).1 start) some_block,
        )
      ]

  -- For such a body, the pass returns one whose targets are all among its blocks, and which has no block
  -- but those that a path of edges leads to from the start.
  pub run-InRange :
      (body' : Body) × (run body ≡ passed body')
      × InRange body'.basic_blocks
      × ((j : ℕ) → j < length body'.basic_blocks → Reaches body'.basic_blocks j)
  run-InRange =
      let blocks : List BasicBlockData = body.basic_blocks in
      let (r, e, iff, once) = reachable_set-Reaches blocks range some_block in
      let keeps : (i : ℕ) → Reaches blocks i → (contains r i ≡ true) × (i < length blocks) =
        λ i w. ((iff i).1 w, Reaches-lt blocks range some_block i w) in
      elim (Bool-cases (length r == length blocks)) [
        | inl q ↦
            let same : length r ≡ length blocks = ground arith in
            let full =
              rank-contains r (length blocks) once
                (contains-All _ r (λ j h. (keeps j ((iff j).0 h)).1))
              ∙ same in
            (
              body,
              run-same body r e q,
              range,
              λ j l. (iff j).0 (
                  ap (contains r) (let q : j ≡ 0 + j = omega arith in q)
                  ∙ rank-all (contains r) 0 j (length blocks) full l),
            )
        | inr q ↦ (
          record body { basic_blocks = compact (contains r) blocks },
          run-less body r e q,
          compact-InRange (contains r) blocks small (found-IsClosed r iff),
          λ j l.
              let (i, k, l', e') =
                rank-onto (contains r) 0 (length blocks) j
                  (subst (λ n. j < n) (length-compact (contains r) blocks) l) in
              subst (Reaches (compact (contains r) blocks)) e' (
                Reaches-compact (contains r) blocks small (found-IsClosed r iff) keeps i
                  ((iff i).0 (ap (contains r) (let q : i ≡ 0 + i = omega arith in q) ∙ k))),
        )
      ]
