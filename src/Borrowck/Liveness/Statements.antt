-- ===== src/Borrowck/Liveness/Statements.antt =====
-- `compute_stmt_liveness` (crates/glyim-borrowck/src/liveness.rs) at what is live on exit from a block.
use glyim_v.Prelude.{
  ℕ, zero, suc, ◌≤◌, ◌<◌, ◌≡◌, refl, sym, ap, subst, ◌∙◌, inl, inr, ◌⊎◌, ◌↔◌, true, false, some,
  List, [], ◌∷◌, length, drop, get_elem?, All, All-get_elem?, ◌==◌, Bool-cases, contains, arith,
}
use glyim_v.Mir.Types.{
  LocalIdx, Place, Rvalue, Statement, assign, storage_live, storage_dead, nop, Terminator,
  BasicBlockData, Body,
}
use glyim_v.Borrowck.BitSets.{BitSets}
use glyim_v.Borrowck.Visitor.{successor_blocks}
use glyim_v.Borrowck.Worklist.{at}
use glyim_v.Borrowck.Liveness.{
  no_block, local_capacity, visit_gen, computed, compute_liveness, before_statement, stmt_liveness,
  compute_stmt_liveness,
}
use glyim_v.Borrowck.Liveness.Gather.{rvalue-Adds}
use glyim_v.Borrowck.Liveness.Capacity.{AssignsBelow, blocks_capacity-below, IsDeclared-le}
use glyim_v.Borrowck.Liveness.Summaries.{visit_gen-Adds}
use glyim_v.Borrowck.Liveness.Edges.{get_elem?-in}
use glyim_v.Borrowck.Liveness.Exits.{compute_liveness-LiveOut}
use glyim_v.Borrowck.Liveness.Paths.{
  LiveAt, reads, past, past_live, past_dead, past_nop, reads_last, leaves, LiveOut, overwrites,
  terminator_locals, rvalue_locals, ReadsBelow, HasTargets, IsDeclared,
}

-- No statement ends the storage of a local.
abbrev pub NoneDies : List Statement → Type 0
NoneDies [] = Unit
NoneDies (assign p r ∷ stmts) = NoneDies stmts
NoneDies (storage_live k ∷ stmts) = NoneDies stmts
NoneDies (storage_dead k ∷ stmts) = ⊥
NoneDies (nop ∷ stmts) = NoneDies stmts

tail_assigns :
    (n : ℕ) (stmt : Statement) (stmts : List Statement)
    → AssignsBelow n (stmt ∷ stmts)
    → AssignsBelow n stmts
tail_assigns n (assign p r) stmts h = h.1
tail_assigns n (storage_live k) stmts h = h
tail_assigns n (storage_dead k) stmts h = h
tail_assigns n nop stmts h = h

tail_reads :
    (n : ℕ) (stmt : Statement) (stmts : List Statement)
    → ReadsBelow n (stmt ∷ stmts)
    → ReadsBelow n stmts
tail_reads n (assign p r) stmts h = h.1
tail_reads n (storage_live k) stmts h = h
tail_reads n (storage_dead k) stmts h = h
tail_reads n nop stmts h = h

tail_dies : (stmt : Statement) (stmts : List Statement) → NoneDies (stmt ∷ stmts) → NoneDies stmts
tail_dies (assign p r) stmts h = h
tail_dies (storage_live k) stmts h = h
tail_dies (storage_dead k) stmts h = absurd h
tail_dies nop stmts h = h

module _ (blocks : List BasicBlockData) (t : Terminator) (reads_none : terminator_locals t ≡ [])
    (writes_none : (l : LocalIdx) → overwrites t l ≡ false) where
  -- Past the last statement only the successors count.
  end-LiveAt : (l : LocalIdx) → LiveOut blocks l t → LiveAt blocks l [] t
  end-LiveAt l out = leaves out.succ out.next (writes_none l) out.edge out.found out.live

  LiveAt-end :
      (l : LocalIdx) (stmts : List Statement) (t' : Terminator)
      → t' ≡ t
      → stmts ≡ []
      → LiveAt blocks l stmts t'
      → LiveOut blocks l t
  unfolding contains
  LiveAt-end l _ _ q e (reads h) = cc
  LiveAt-end l _ _ q e (past other w) = cc
  LiveAt-end l _ _ q e (past_live w) = cc
  LiveAt-end l _ _ q e (past_dead w) = cc
  LiveAt-end l _ _ q e (past_nop w) = cc
  LiveAt-end l _ _ q e (reads_last h) =
      let none_read = ap (λ xs. contains xs l) (ap terminator_locals q ∙ reads_none) in
      cc (sym none_read ∙ h)
  LiveAt-end l _ _ q e (leaves j b stays edge found w) = record {
    succ = j;
    next = b;
    edge = subst (λ s. contains (successor_blocks s) j ≡ true) q edge;
    found = found;
    live = w;
  }

  module _ (l : LocalIdx) (stmts : List Statement) where
    LiveAt-assign :
        (p : Place) (r : Rvalue)
        → LiveAt blocks l (assign p r ∷ stmts) t
        → (contains (rvalue_locals r) l ≡ true) ⊎ ((p.local == l) ≡ false) × LiveAt blocks l stmts t
    LiveAt-assign p r (reads h) = inl h
    LiveAt-assign p r (past other w) = inr (other, w)

    LiveAt-storage_live :
        (k : LocalIdx) → LiveAt blocks l (storage_live k ∷ stmts) t → LiveAt blocks l stmts t
    LiveAt-storage_live k (past_live w) = w

    LiveAt-nop : LiveAt blocks l (nop ∷ stmts) t → LiveAt blocks l stmts t
    LiveAt-nop (past_nop w) = w

  module _ (sets : BitSets) (n : ℕ) (live_out : sets.BitSet) (sized : sets.size live_out ≡ n)
      (exact : (l : LocalIdx) → (sets.has live_out l ≡ true) ↔ LiveOut blocks l t) where
    open sets use {BitSet, size, has, remove_in}

    -- The set has what is live before the statements.
    abbrev Holds : List Statement → BitSet → Type 0
    Holds stmts s = (size s ≡ n) × ((l : LocalIdx) → (has s l ≡ true) ↔ LiveAt blocks l stmts t)

    Holds-assign :
        (p : Place) (r : Rvalue) (stmts : List Statement) (s : BitSet)
        → p.local < n
        → All (λ l. l < n) (rvalue_locals r)
        → Holds stmts s
        → (s' : BitSet) × (before_statement sets (assign p r) s ≡ some s')
          × Holds (assign p r ∷ stmts) s'
    unfolding before_statement
    Holds-assign p r stmts s lt below (sz, live) =
        let (s1, e, sz1, bits) = remove_in s p.local (omega (arith, sz, lt)) in
        let (s2, e', sz2, bits') =
          rvalue-Adds sets n (λ j. true) (visit_gen sets) (visit_gen-Adds sets n) r below s1
            (sz1 ∙ sz) in
        (
          s2,
          rw (before_statement, e) e',
          (
            sz2,
            λ l. (
              (λ h. elim (Bool-cases (contains (rvalue_locals r) l)) [
                | inl now ↦ reads now
                | inr later ↦
                    past (ground (arith, bits' l, bits l, later, h))
                      ((live l).0 (ground (arith, bits' l, bits l, later, h)))
              ]),
              (λ w. elim (LiveAt-assign l stmts p r w) [
                | inl now ↦ ground (arith, bits' l, now)
                | inr (other, w') ↦ ground (arith, bits' l, bits l, other, (live l).1 w')
              ]),
            ),
          ),
        )

    Holds-before :
        (stmt : Statement) (stmts : List Statement) (s : BitSet)
        → AssignsBelow n (stmt ∷ stmts)
        → ReadsBelow n (stmt ∷ stmts)
        → NoneDies (stmt ∷ stmts)
        → Holds stmts s
        → (s' : BitSet) × (before_statement sets stmt s ≡ some s') × Holds (stmt ∷ stmts) s'
    unfolding before_statement
    Holds-before (assign p r) stmts s ha hr alive holds = Holds-assign p r stmts s ha.0 hr.0 holds
    Holds-before (storage_live k) stmts s ha hr alive (sz, live) = (
      s,
      refl,
      (
        sz,
        λ l. ((λ h. past_live ((live l).0 h)), λ w. (live l).1 (LiveAt-storage_live l stmts k w)),
      ),
    )
    Holds-before (storage_dead k) stmts s ha hr alive holds = absurd alive
    Holds-before nop stmts s ha hr alive (sz, live) = (
      s,
      refl,
      (sz, λ l. ((λ h. past_nop ((live l).0 h)), λ w. (live l).1 (LiveAt-nop l stmts w))),
    )

    -- Each entry of the vector has what is live before the statements from its index on.
    abbrev AllHold : List Statement → List BitSet → Type 0
    AllHold stmts sets_before =
        (length sets_before ≡ suc (length stmts))
        × ((k : ℕ) → k ≤ length stmts → Holds (drop k stmts) (at live_out sets_before k))

    AllHold-cons :
        (stmt : Statement) (stmts : List Statement) (s : BitSet) (later : List BitSet)
        → Holds (stmt ∷ stmts) s
        → AllHold stmts later
        → AllHold (stmt ∷ stmts) (s ∷ later)
    AllHold-cons stmt stmts s later here (len, rest) = (omega (arith, len), λ k h. by_index k h)
      where
        by_index :
            (k : ℕ)
            → k ≤ suc (length stmts)
            → Holds (drop k (stmt ∷ stmts)) (at live_out (s ∷ later) k)
        by_index zero h = here
        by_index (suc k) h = rest k (omega arith)

    stmt_liveness-AllHold :
        (stmts : List Statement)
        → AssignsBelow n stmts
        → ReadsBelow n stmts
        → NoneDies stmts
        → (rs : List BitSet) × (stmt_liveness sets stmts live_out ≡ some rs) × AllHold stmts rs
    unfolding stmt_liveness
    stmt_liveness-AllHold [] ha hr alive = (
      live_out ∷ [],
      refl,
      (
        refl,
        λ k h.
            let e : k ≡ 0 = omega arith in
            rw e (
              sized,
              λ l. (
                (λ h'. end-LiveAt l ((exact l).0 h')),
                λ w. (exact l).1 (LiveAt-end l [] t refl refl w),
              ),
            ),
      ),
    )
    stmt_liveness-AllHold (stmt ∷ stmts) ha hr alive =
        let (rs, e, (len, all)) =
          stmt_liveness-AllHold stmts (tail_assigns n stmt stmts ha) (tail_reads n stmt stmts hr)
            (tail_dies stmt stmts alive) in
        let (s, e', here) =
          Holds-before stmt stmts (at live_out rs 0) ha hr alive (all 0 (omega arith)) in
        (s ∷ rs, rw (stmt_liveness, e, e') refl, AllHold-cons stmt stmts s rs here (len, all))

-- A terminator that reads no local and writes none.
pub record IsQuiet (t : Terminator) : Type 0 where
  pub reads_none : terminator_locals t ≡ []
  pub writes_none : (l : LocalIdx) → overwrites t l ≡ false

compute_stmt_liveness-found :
    (sets : BitSets) (body : Body) (i : ℕ) (b : BasicBlockData) (live_out : sets.BitSet)
    → get_elem? body.basic_blocks i ≡ some b
    → compute_stmt_liveness sets body i live_out ≡ stmt_liveness sets b.statements live_out
unfolding compute_stmt_liveness
compute_stmt_liveness-found sets body i b live_out found = rw (compute_stmt_liveness, found) refl

-- For a body whose targets are blocks and that reads declared locals only, with the sets that
-- `compute_liveness` ends with: in a block whose terminator neither reads nor writes a local and where
-- no storage ends, the sets are one more than the statements, and the set before each statement, and
-- the one after the last, has just the locals that some path from there reads before they are
-- assigned, in whole or in part.
pub compute_stmt_liveness-LiveAt :
    (sets : BitSets) (body : Body)
    → HasTargets body.basic_blocks
    → IsDeclared body
    → (out : List sets.BitSet) × (compute_liveness sets body ≡ computed out)
      × ((i : ℕ) (b : BasicBlockData)
          → get_elem? body.basic_blocks i ≡ some b
          → IsQuiet b.terminator
          → NoneDies b.statements
          → let live_out = at (sets.with_capacity (local_capacity body)) out i in
            (rs : List sets.BitSet) × (compute_stmt_liveness sets body i live_out ≡ some rs)
            × (length rs ≡ suc (length b.statements))
            × ((k l : ℕ)
                → k ≤ length b.statements
                → (sets.has (at live_out rs k) l ≡ true)
                  ↔ LiveAt body.basic_blocks l (drop k b.statements) b.terminator))
unfolding local_capacity
compute_stmt_liveness-LiveAt sets body targets declared =
    let blocks : List BasicBlockData = body.basic_blocks in
    let cap : ℕ = local_capacity body in
    let (out, e, len, sized, exact) = compute_liveness-LiveOut sets body targets declared in
    let (le, assigns) = blocks_capacity-below blocks (length body.locals) in
    let below = IsDeclared-le (length body.locals) cap blocks le declared in
    (
      out,
      e,
      λ i b found quiet alive.
          let (lt, q) = get_elem?-in no_block blocks i b found in
          let (rs, e', (n, all)) =
            stmt_liveness-AllHold blocks b.terminator quiet.reads_none quiet.writes_none sets cap
              (at (sets.with_capacity cap) out i) (sized i lt)
              (λ l.
                subst
                  (λ c.
                    (sets.has (at (sets.with_capacity cap) out i) l ≡ true)
                    ↔ LiveOut blocks l c.terminator)
                  q (exact i l lt))
              b.statements (All-get_elem? _ blocks i assigns found).0
              (All-get_elem? _ blocks i below found).0 alive in
          (rs, compute_stmt_liveness-found sets body i b _ found ∙ e', n, λ k l h. (all k h).1 l),
    )
