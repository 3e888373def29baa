-- ===== src/Borrowck/Liveness/Exits.antt =====
-- `compute_liveness` (crates/glyim-borrowck/src/liveness.rs) ends, with what is live on exit from each
-- block.
use glyim_v.Prelude.{
  ℕ, zero, suc, ◌+◌, ◌<◌, ◌≡◌, refl, sym, ap, subst, ◌∙◌, inl, inr, ◌⊎◌, ◌↔◌, true, false, ◌&&◌,
  ◌||◌, not, List, [], ◌∷◌, length, ◌==◌, contains, arith,
}
use glyim_v.Mir.Types.{LocalIdx, Place, Rvalue, Statement, assign, Terminator, BasicBlockData, Body}
use glyim_v.Borrowck.BitSets.{BitSets}
use glyim_v.Borrowck.Visitor.{successor_blocks}
use glyim_v.Borrowck.Worklist.{at}
use glyim_v.Borrowck.Worklist.Ends.{drain_ends}
use glyim_v.Borrowck.Liveness.{
  edges_from, all_blocks, no_block, Summary, Live, no_live, flow_back, live_analysis, computed,
  live_outs, live_fuel, live_loop, outcome_of, drain_from, local_capacity, compute_liveness,
}
use glyim_v.Borrowck.Liveness.Paths.{
  LiveAt, reads, past, past_live, past_dead, past_nop, reads_last, leaves, LiveOut, HasTargets,
  overwrites, terminator_locals, IsDeclared,
}
use glyim_v.Borrowck.Liveness.Summaries.{Sums, read_first, assigned}
use glyim_v.Borrowck.Liveness.Edges.{
  get_elem?-in, length-all_blocks, mark_all-IsQueue, blocks_below-true,
  compute_block_summaries-Sums,
}
use glyim_v.Borrowck.Liveness.Flow.{union_of-new}
use glyim_v.Borrowck.Liveness.Sound.{
  n, no_summary, block, succs, IsLiveFact, Le, weight, has-flow_in,
}
use glyim_v.Borrowck.Liveness.Capacity.{IsDeclared-le, blocks_capacity-below}
use glyim_v.Borrowck.Liveness.Initial.{live-IsMonotone, start, start-IsBelow}

length-live_outs : (sets : BitSets) (F : List (Live sets)) → length (live_outs sets F) ≡ length F
unfolding live_outs
length-live_outs sets [] = refl
length-live_outs sets (f ∷ F) = ap suc (length-live_outs sets F)

at-live_outs :
    (sets : BitSets) (d : Live sets) (F : List (Live sets)) (i : ℕ)
    → at d.live_out (live_outs sets F) i ≡ (at d F i).live_out
unfolding live_outs
at-live_outs sets d [] i = refl
at-live_outs sets d (f ∷ F) zero = refl
at-live_outs sets d (f ∷ F) (suc i) = at-live_outs sets d F i

module _ (sets : BitSets) (cap : ℕ) (blocks : List BasicBlockData) (ss : List (Summary sets))
    (targets : HasTargets blocks)
    (sums : (i : ℕ)
      → i < n sets cap blocks ss
      → Sums sets cap (block sets cap blocks ss i) (at (no_summary sets cap blocks ss) ss i)) where
  open sets use {has, with_capacity}

  abbrev len : ℕ
  len = length blocks

  abbrev entry : List (Live sets) → ℕ → Live sets
  entry F i = at (no_live sets cap) F i

  abbrev redone : List (Live sets) → ℕ → Live sets
  redone F i = flow_back sets cap blocks ss F i

  abbrev IsFact : ℕ → Live sets → Type 0
  IsFact = IsLiveFact sets cap blocks ss

  -- Facts that do not change have all that is live.
  module _ (F : List (Live sets))
      (fixed : (j : ℕ)
        → j < len
        → (sets.same (redone F j).live_in (entry F j).live_in
            && sets.same (redone F j).live_out (entry F j).live_out)
          ≡ true) where
    fixed_in : (j l : ℕ) → j < len → has (redone F j).live_in l ≡ has (entry F j).live_in l
    fixed_in j l h =
        sets.same_bits (redone F j).live_in (entry F j).live_in (ground (arith, fixed j h)) l

    fixed_out : (j l : ℕ) → j < len → has (redone F j).live_out l ≡ has (entry F j).live_out l
    fixed_out j l h =
        sets.same_bits (redone F j).live_out (entry F j).live_out (ground (arith, fixed j h)) l

    -- Why a local is live before the rest of a block: it is read there, or live in a successor.
    Reason : LocalIdx → List Statement → Terminator → Type 0
    Reason l stmts t =
        ((read_first stmts l || (not (assigned stmts l) && contains (terminator_locals t) l))
          ≡ true)
        ⊎ (((assigned stmts l || overwrites t l) ≡ false)
            × (j : ℕ) × (contains (successor_blocks t) j ≡ true)
            × (has (entry F j).live_in l ≡ true))

    after_assign :
        (l : LocalIdx) (p : Place) (r : Rvalue) (stmts : List Statement) (t : Terminator)
        → (p.local == l) ≡ false
        → Reason l stmts t
        → Reason l (assign p r ∷ stmts) t
    unfolding Reason
    after_assign l p r stmts t other (inl h) = inl (ground (arith, h, other))
    after_assign l p r stmts t other (inr (h, j, mem, live)) =
        inr (ground (arith, h, other), j, mem, live)

    Reason-has :
        (j l : ℕ)
        → j < len
        → Reason l (block sets cap blocks ss j).statements (block sets cap blocks ss j).terminator
        → has (entry F j).live_in l ≡ true
    unfolding Reason
    Reason-has j l lt (inl h) =
        ground (arith, h, has-flow_in sets cap blocks ss targets sums F j l lt, fixed_in j l lt)
    Reason-has j l lt (inr (h, k, mem, live)) =
        let out : has (redone F j).live_out l ≡ true =
          unfold flow_back in
          union_of-new sets (no_live sets cap) F (succs sets cap blocks ss j) (with_capacity cap) k
            l mem live in
        ground
          (arith, h, out, has-flow_in sets cap blocks ss targets sums F j l lt, fixed_in j l lt)

    LiveAt-Reason :
        (l : LocalIdx) (stmts : List Statement) (t : Terminator)
        → LiveAt blocks l stmts t
        → Reason l stmts t
    unfolding Reason
    LiveAt-Reason l _ _ (reads {p} {r} {stmts} {t} h) = inl (ground (arith, h))
    LiveAt-Reason l _ _ (past {p} {r} {stmts} {t} other w) =
        after_assign l p r stmts t other (LiveAt-Reason l stmts t w)
    LiveAt-Reason l _ _ (past_live {k} {stmts} {t} w) = LiveAt-Reason l stmts t w
    LiveAt-Reason l _ _ (past_dead {k} {stmts} {t} w) = LiveAt-Reason l stmts t w
    LiveAt-Reason l _ _ (past_nop {stmts} {t} w) = LiveAt-Reason l stmts t w
    LiveAt-Reason l _ _ (reads_last {t} h) = inl (ground (arith, h))
    LiveAt-Reason l _ _ (leaves {t} j b stays edge found w) =
        let (lt, e) = get_elem?-in no_block blocks j b found in
        let why : Reason l b.statements b.terminator =
          LiveAt-Reason l b.statements b.terminator w in
        inr (
          ground (arith, stays),
          j,
          edge,
          Reason-has j l lt (subst (λ c. Reason l c.statements c.terminator) (sym e) why),
        )

    LiveOut-has :
        (j l : ℕ)
        → j < len
        → LiveOut blocks l (block sets cap blocks ss j).terminator
        → has (entry F j).live_out l ≡ true
    LiveOut-has j l lt w =
        let (lt', e) = get_elem?-in no_block blocks w.succ w.next w.found in
        let why = LiveAt-Reason l w.next.statements w.next.terminator w.live in
        let live =
          Reason-has w.succ l lt' (subst (λ c. Reason l c.statements c.terminator) (sym e) why) in
        let out : has (redone F j).live_out l ≡ true =
          unfold flow_back in
          union_of-new sets (no_live sets cap) F (succs sets cap blocks ss j) (with_capacity cap)
            w.succ l w.edge live in
        sym (fixed_out j l lt) ∙ out

  live_loop-IsLive :
      (out : List sets.BitSet) × (live_loop sets cap blocks ss ≡ computed out)
      × (length out ≡ len)
      × ((i : ℕ) → i < len → sets.size (at (with_capacity cap) out i) ≡ cap)
      × ((i l : ℕ)
          → i < len
          → (has (at (with_capacity cap) out i) l ≡ true)
            ↔ LiveOut blocks l (block sets cap blocks ss i).terminator)
  unfolding live_loop drain_from outcome_of
  live_loop-IsLive =
      let (marks, e, queue) = mark_all-IsQueue sets len in
      let (F, e', solved) =
        drain_ends sets (live_analysis sets cap blocks ss) len (cap + cap) (edges_from blocks)
          IsFact (Le sets cap blocks ss) (weight sets cap blocks ss)
          (live-IsMonotone sets cap blocks ss targets sums) (live_fuel sets cap blocks)
          (start sets cap blocks ss targets sums) (all_blocks len) marks
          (omega (arith, length-all_blocks len)) (start-IsBelow sets cap blocks ss targets sums)
          queue in
      (
        live_outs sets F,
        rw (live_loop, e) (ap (outcome_of sets cap blocks ss) e'),
        length-live_outs sets F ∙ solved.sized,
        λ i lt.
            ap sets.size (at-live_outs sets (no_live sets cap) F i) ∙ (solved.kept i lt).size_out,
        λ i l lt.
            let same = at-live_outs sets (no_live sets cap) F i in
            (
              λ h. (solved.kept i lt).sound_out l (subst (λ s. has s l ≡ true) same h),
              λ w. subst (λ s. has s l ≡ true) (sym same) (LiveOut-has F solved.fixed i l lt w),
            ),
      )

-- For a body whose targets are blocks and that reads declared locals only: the analysis ends without a
-- panic, with a set for each block; the sets have the capacity for the locals, and a local is in the
-- set of a block just if some path from the block's end reads it before it is assigned, in whole or in
-- part. The reads are those of the local of an operand or of a place that is borrowed or inspected.
pub compute_liveness-LiveOut :
    (sets : BitSets) (body : Body)
    → HasTargets body.basic_blocks
    → IsDeclared body
    → (out : List sets.BitSet) × (compute_liveness sets body ≡ computed out)
      × (length out ≡ length body.basic_blocks)
      × ((i : ℕ)
          → i < length body.basic_blocks
          → sets.size (at (sets.with_capacity (local_capacity body)) out i) ≡ local_capacity body)
      × ((i l : ℕ)
          → i < length body.basic_blocks
          → (sets.has (at (sets.with_capacity (local_capacity body)) out i) l ≡ true)
            ↔ LiveOut body.basic_blocks l (at no_block body.basic_blocks i).terminator)
unfolding compute_liveness local_capacity
compute_liveness-LiveOut sets body targets declared =
    let blocks : List BasicBlockData = body.basic_blocks in
    let cap : ℕ = local_capacity body in
    let (le, assigns) = blocks_capacity-below blocks (length body.locals) in
    let (ss, e, sums) =
      compute_block_summaries-Sums sets cap
        (record { uses = sets.with_capacity cap; defs = sets.with_capacity cap }) blocks
        (IsDeclared-le (length body.locals) cap blocks le declared) assigns in
    let (out, e', len, sized, live) = live_loop-IsLive sets cap blocks ss targets sums in
    (
      out,
      rw (compute_liveness, e, blocks_below-true (length blocks) blocks targets) e',
      len,
      sized,
      live,
    )
