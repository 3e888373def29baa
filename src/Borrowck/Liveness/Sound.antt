-- ===== src/Borrowck/Liveness/Sound.antt =====
-- A recomputation in `compute_liveness` (crates/glyim-borrowck/src/liveness.rs) keeps to what is live.
use glyim_v.Prelude.{
  ℕ, ◌+◌, ◌<◌, ◌≡◌, refl, subst, ◌∙◌, inl, inr, true, false, ◌&&◌, ◌||◌, not, List, [], ◌∷◌, length,
  set, All, Bool-cases, contains, arith,
}
use glyim_v.Mir.Types.{BasicBlockIdx, LocalIdx, BasicBlockData}
use glyim_v.Opt.Unreachable.Reach.{All-contains}
use glyim_v.Borrowck.BitSets.{BitSets}
use glyim_v.Borrowck.Visitor.{successor_blocks}
use glyim_v.Borrowck.Worklist.{at}
use glyim_v.Borrowck.Liveness.{
  predecessors_of, no_block, Summary, Live, union_of, no_live, flow_back,
}
use glyim_v.Borrowck.Liveness.Paths.{
  LiveAt, reads_last, leaves, LiveOut, HasTargets, overwrites, terminator_locals,
}
use glyim_v.Borrowck.Liveness.Summaries.{
  Sums, read_first, assigned, read_first-LiveAt, unassigned-LiveAt,
}
use glyim_v.Borrowck.Liveness.Edges.{get_elem?-at, All-at, contains-predecessors_of}
use glyim_v.Borrowck.Liveness.Flow.{
  size-union_of, union_of-split, union_of-old, union_of-new, union_of-set, bit_count,
}

module _ (sets : BitSets) (cap : ℕ) (blocks : List BasicBlockData) (ss : List (Summary sets)) where
  open sets use {BitSet, size, has, has_union, has_difference, with_capacity}

  abbrev pub n : ℕ
  n = length blocks

  abbrev pub no_summary : Summary sets
  no_summary = record { uses = with_capacity cap; defs = with_capacity cap }

  abbrev pub block : ℕ → BasicBlockData
  block i = at no_block blocks i

  abbrev pub succs : ℕ → List BasicBlockIdx
  succs i = successor_blocks (block i).terminator

  abbrev pub fact : List (Live sets) → ℕ → Live sets
  fact F i = at (no_live sets cap) F i

  abbrev pub anew : List (Live sets) → ℕ → Live sets
  anew F i = flow_back sets cap blocks ss F i

  -- What a fact of block `i` has: its bits are live.
  pub record IsLiveFact (i : ℕ) (f : Live sets) : Type 0 where
    pub size_in : size f.live_in ≡ cap
    pub size_out : size f.live_out ≡ cap
    pub sound_in :
        (l : LocalIdx)
        → has f.live_in l ≡ true
        → LiveAt blocks l (block i).statements (block i).terminator
    pub sound_out : (l : LocalIdx) → has f.live_out l ≡ true → LiveOut blocks l (block i).terminator

  abbrev pub Le : Live sets → Live sets → Type 0
  Le f g =
      ((l : LocalIdx) → has f.live_in l ≡ true → has g.live_in l ≡ true)
      × ((l : LocalIdx) → has f.live_out l ≡ true → has g.live_out l ≡ true)

  abbrev pub weight : Live sets → ℕ
  weight f = bit_count sets cap f.live_in + bit_count sets cap f.live_out

  module _ (targets : HasTargets blocks)
      (sums : (i : ℕ) → i < n → Sums sets cap (block i) (at no_summary ss i)) where
    pub succs-lt : (i : ℕ) → i < n → All (λ j. j < n) (succs i)
    succs-lt i h =
        All-at (λ b. All (λ j. j < n) (successor_blocks b.terminator)) no_block blocks i targets h

    All-imp : (P Q : ℕ → Type 0) (xs : List ℕ) → ((j : ℕ) → P j → Q j) → All P xs → All Q xs
    All-imp P Q [] f h = tt
    All-imp P Q (x ∷ xs) f h = (f x h.0, All-imp P Q xs f h.1)

    -- Live before the block: from what is read in it, or from what is live after it.
    pub has-flow_in :
        (F : List (Live sets)) (i : ℕ) (l : LocalIdx)
        → i < n
        → has (anew F i).live_in l ≡ (
            ((contains (terminator_locals (block i).terminator) l
                && not (assigned (block i).statements l))
              || read_first (block i).statements l)
            || (has (anew F i).live_out l
                && not (overwrites (block i).terminator l || assigned (block i).statements l)))
    unfolding flow_back
    has-flow_in F i l lt =
        let s : Summary sets = at no_summary ss i in
        let out : BitSet = union_of sets (no_live sets cap) F (succs i) (with_capacity cap) in
        ground (
          arith,
          has_union s.uses (sets.difference_with out s.defs) l,
          has_difference out s.defs l,
          (sums i lt).uses_bits l,
          (sums i lt).defs_bits l,
        )

    flow-sound_out :
        (F : List (Live sets)) (i : ℕ) (l : LocalIdx)
        → i < n
        → ((j : ℕ) → j < n → IsLiveFact j (fact F j))
        → has (anew F i).live_out l ≡ true
        → LiveOut blocks l (block i).terminator
    unfolding flow_back
    flow-sound_out F i l lt ok h =
        elim (union_of-split sets (no_live sets cap) F (succs i) (with_capacity cap) l h) [
          | inl old ↦ absurd (ground (arith, sets.has_empty cap l, old))
          | inr (j, mem, live) ↦
              let jlt = All-contains (λ k. k < n) (succs i) j (succs-lt i lt) mem in
              record {
                succ = j;
                next = block j;
                edge = mem;
                found = get_elem?-at no_block blocks j jlt;
                live = (ok j jlt).sound_in l live;
              }
        ]

    flow-sound_in :
        (F : List (Live sets)) (i : ℕ) (l : LocalIdx)
        → i < n
        → ((j : ℕ) → j < n → IsLiveFact j (fact F j))
        → has (anew F i).live_in l ≡ true
        → LiveAt blocks l (block i).statements (block i).terminator
    flow-sound_in F i l lt ok h =
        let b : BasicBlockData = block i in
        let e = has-flow_in F i l lt in
        elim (Bool-cases (read_first b.statements l)) [
          | inl now ↦ read_first-LiveAt blocks l b.terminator b.statements now
          | inr later ↦
              let kept : assigned b.statements l ≡ false = ground (arith, e, later) in
              unassigned-LiveAt blocks l b.terminator b.statements kept
                (elim (Bool-cases (contains (terminator_locals b.terminator) l)) [
                  | inl last ↦ reads_last last
                  | inr beyond ↦
                      let out = flow-sound_out F i l lt ok (ground (arith, e, later, beyond)) in
                      leaves out.succ out.next (ground (arith, e, later, beyond)) out.edge out.found
                        out.live
                ])
        ]

    pub flow-IsLiveFact :
        (F : List (Live sets))
        → ((j : ℕ) → j < n → IsLiveFact j (fact F j))
        → (i : ℕ) → i < n
        → IsLiveFact i (anew F i)
    unfolding flow_back
    flow-IsLiveFact F ok i lt =
        let s : Summary sets = at no_summary ss i in
        let out : BitSet = union_of sets (no_live sets cap) F (succs i) (with_capacity cap) in
        let szo : size out ≡ cap =
          size-union_of sets (no_live sets cap) F cap (succs i) (with_capacity cap)
            (All-imp _ _ (succs i) (λ j h. (ok j h).size_in) (succs-lt i lt))
            (sets.size_empty cap) in
        let szu = (sums i lt).uses_size in
        record {
          size_in =
              sets.size_union s.uses (sets.difference_with out s.defs)
                (omega (arith, sets.size_difference out s.defs, szo, szu))
              ∙ szu;
          size_out = szo;
          sound_in = λ l h. flow-sound_in F i l lt ok h;
          sound_out = λ l h. flow-sound_out F i l lt ok h;
        }

    pub flow_mono :
        (F G : List (Live sets))
        → ((i : ℕ) → i < n → Le (fact F i) (fact G i))
        → (i : ℕ) → i < n
        → Le (anew F i) (anew G i)
    unfolding flow_back
    flow_mono F G le i lt =
        let d : Live sets = no_live sets cap in
        let empty : BitSet = with_capacity cap in
        let out : (l : LocalIdx)
            → has (anew F i).live_out l ≡ true
            → has (anew G i).live_out l ≡ true =
          λ l h. elim (union_of-split sets d F (succs i) empty l h) [
            | inl old ↦ union_of-old sets d G (succs i) empty l old
            | inr (j, mem, live) ↦
                union_of-new sets d G (succs i) empty j l mem
                  ((le j (All-contains (λ k. k < n) (succs i) j (succs-lt i lt) mem)).0 l live)
          ] in
        ((λ l h. ground (arith, has-flow_in F i l lt, has-flow_in G i l lt, out l)), out)

    pub flow-set :
        (F : List (Live sets)) (i j : ℕ) (v : Live sets)
        → i < n
        → j < n
        → contains (predecessors_of i 0 blocks) j ≡ false
        → anew (set F i v) j ≡ anew F j
    unfolding flow_back
    flow-set F i j v hi hj out = elim (Bool-cases (contains (succs j) i)) [
      | inl mem ↦
          let there = contains-predecessors_of i 0 j blocks hj mem in
          let e : 0 + j ≡ j = omega arith in
          cc (subst (λ k. contains (predecessors_of i 0 blocks) k ≡ true) e there)
      | inr free ↦
          rw (union_of-set sets (no_live sets cap) F i v (succs j) (with_capacity cap) free) refl
    ]
