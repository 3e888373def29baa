-- ===== src/Borrowck/Liveness/Initial.antt =====
-- The loop of `compute_liveness` at its start (crates/glyim-borrowck/src/liveness.rs).
use glyim_v.Prelude.{
  ℕ, ◌+◌, ◌<◌, ◌≡◌, refl, sym, subst, inl, inr, List, length, replicate, length-replicate,
  Bool-cases, ltb, arith,
}
use glyim_v.Mir.Types.{BasicBlockData}
use glyim_v.Borrowck.BitSets.{BitSets}
use glyim_v.Borrowck.Worklist.{at}
use glyim_v.Borrowck.Worklist.Fixpoint.{IsMonotone, IsBelow}
use glyim_v.Borrowck.Liveness.{
  edges_from, all_blocks, Summary, Live, no_live, flow_back, live_analysis,
}
use glyim_v.Borrowck.Liveness.Paths.{HasTargets}
use glyim_v.Borrowck.Liveness.Summaries.{Sums}
use glyim_v.Borrowck.Liveness.Edges.{
  at-replicate, predecessors_of-lt, length-predecessors_of, contains-all_blocks,
}
use glyim_v.Borrowck.Liveness.Flow.{bit_count-le, bit_count_mono, same_of_count}
use glyim_v.Borrowck.Liveness.Sound.{
  n, no_summary, block, IsLiveFact, Le, weight, flow-IsLiveFact, flow_mono, flow-set,
}

module _ (sets : BitSets) (cap : ℕ) (blocks : List BasicBlockData) (ss : List (Summary sets))
    (targets : HasTargets blocks)
    (sums : (i : ℕ)
      → i < n sets cap blocks ss
      → Sums sets cap (block sets cap blocks ss i) (at (no_summary sets cap blocks ss) ss i)) where
  open sets use {has, with_capacity}

  abbrev pub len : ℕ
  len = length blocks

  abbrev pub entry : List (Live sets) → ℕ → Live sets
  entry F i = at (no_live sets cap) F i

  abbrev pub redone : List (Live sets) → ℕ → Live sets
  redone F i = flow_back sets cap blocks ss F i

  abbrev pub IsFact : ℕ → Live sets → Type 0
  IsFact = IsLiveFact sets cap blocks ss

  pub live-IsMonotone :
      IsMonotone
        (live_analysis sets cap blocks ss)
        len
        (cap + cap)
        (edges_from blocks)
        IsFact
        (Le sets cap blocks ss)
        (weight sets cap blocks ss)
  live-IsMonotone = record {
    keeps = flow-IsLiveFact sets cap blocks ss targets sums;
    Le_refl = λ f. ((λ l h. h), (λ l h. h));
    Le_trans = λ f g k p q. ((λ l h. q.0 l (p.0 l h)), (λ l h. q.1 l (p.1 l h)));
    mono = flow_mono sets cap blocks ss targets sums;
    same_self = λ f.
        let e = sets.same_of_bits f.live_in f.live_in refl (λ i. refl) in
        let e' = sets.same_of_bits f.live_out f.live_out refl (λ i. refl) in ground (arith, e, e');
    depends = λ F i j v hi hj out. flow-set sets cap blocks ss targets sums F i j v hi hj out;
    grows = λ i f g pf pg le differs.
        let mi = bit_count_mono sets cap f.live_in g.live_in le.0 in
        let mo = bit_count_mono sets cap f.live_out g.live_out le.1 in
        elim (Bool-cases (ltb (weight sets cap blocks ss f) (weight sets cap blocks ss g))) [
          | inl lt ↦ ground (arith, lt)
          | inr ge ↦
              let ei =
                same_of_count sets cap f.live_in g.live_in pf.size_in pg.size_in le.0
                  (ground (arith, ge, mi, mo)) in
              let eo =
                same_of_count sets cap f.live_out g.live_out pf.size_out pg.size_out le.1
                  (ground (arith, ge, mi, mo)) in
              absurd (ground (arith, differs, ei, eo))
        ];
    light =
        λ i f p. omega (arith, bit_count-le sets cap f.live_in, bit_count-le sets cap f.live_out);
    in_range = λ i h. predecessors_of-lt len i 0 blocks (omega arith);
    few = λ i h. length-predecessors_of i 0 blocks;
  }

  abbrev pub start : List (Live sets)
  start = replicate len (no_live sets cap)

  entry-start : (i : ℕ) → entry start i ≡ no_live sets cap
  entry-start i = at-replicate (no_live sets cap) len i

  no_live-IsFact : (i : ℕ) → IsFact i (no_live sets cap)
  no_live-IsFact i = record {
    size_in = sets.size_empty cap;
    size_out = sets.size_empty cap;
    sound_in = λ l h. absurd (ground (arith, h, sets.has_empty cap l));
    sound_out = λ l h. absurd (ground (arith, h, sets.has_empty cap l));
  }

  pub start-IsBelow :
      IsBelow
        (live_analysis sets cap blocks ss)
        len
        (cap + cap)
        (edges_from blocks)
        IsFact
        (Le sets cap blocks ss)
        (weight sets cap blocks ss)
        live-IsMonotone
        start
        (all_blocks len)
  start-IsBelow = record {
    sized = length-replicate len (no_live sets cap);
    kept = λ i h. subst (IsFact i) (sym (entry-start i)) (no_live-IsFact i);
    below = λ i h.
        subst (λ f. Le sets cap blocks ss f (redone start i)) (sym (entry-start i))
          (
            (λ l k. absurd (ground (arith, k, sets.has_empty cap l))),
            (λ l k. absurd (ground (arith, k, sets.has_empty cap l))),
          );
    fixed = λ j h out. absurd (ground (arith, contains-all_blocks len j h, out));
  }
