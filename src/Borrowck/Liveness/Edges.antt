-- ===== src/Borrowck/Liveness/Edges.antt =====
-- The predecessors of a block, the summaries by index, and the worklist at the start
-- (crates/glyim-borrowck/src/liveness.rs).
use glyim_v.Prelude.{
  ℕ, zero, suc, ◌+◌, ◌≤◌, ◌<◌, ◌≡◌, refl, ap, ◌∙◌, inl, inr, true, false, ◌||◌, some, List, [], ◌∷◌,
  length, length-append, get_elem?, replicate, All, All-append, ◌==◌, Bool-cases, contains, arith,
}
use mathlib.Core.Option.{some_inj}
use glyim_v.Mir.Types.{BasicBlockIdx, BasicBlockData}
use glyim_v.Opt.Unreachable.Reach.{IsDistinct}
use glyim_v.Borrowck.BitSets.{BitSets, ◌>>=◌}
use glyim_v.Borrowck.Visitor.{successor_blocks}
use glyim_v.Borrowck.Worklist.{at}
use glyim_v.Borrowck.Worklist.Marks.{IsQueue}
use glyim_v.Borrowck.Liveness.{
  edges_into, predecessors_of, targets_below, blocks_below, edges_from, all_blocks, no_block,
  mark_all, Summary, compute_block_summaries,
}
use glyim_v.Borrowck.Liveness.Gather.{contains-append}
use glyim_v.Borrowck.Liveness.Paths.{ReadsBelow, terminator_locals}
use glyim_v.Borrowck.Liveness.Capacity.{AssignsBelow, DestinationBelow}
use glyim_v.Borrowck.Liveness.Summaries.{Sums, summarize_block-Sums}

pub get_elem?-at {ℓ} :
    {A : Type ℓ} (d : A) (xs : List A) (i : ℕ) → i < length xs → get_elem? xs i ≡ some (at d xs i)
get_elem?-at d [] i h = absurd (omega arith)
get_elem?-at d (x ∷ xs) zero h = refl
get_elem?-at d (x ∷ xs) (suc i) h = get_elem?-at d xs i (omega arith)

pub get_elem?-in {ℓ} :
    {A : Type ℓ} (d : A) (xs : List A) (i : ℕ) (x : A)
    → get_elem? xs i ≡ some x
    → (i < length xs) × (at d xs i ≡ x)
get_elem?-in d [] i x e = absurd (ground arith)
get_elem?-in d (y ∷ xs) zero x e = (omega arith, some_inj.0 e)
get_elem?-in d (y ∷ xs) (suc i) x e =
    let (lt, q) = get_elem?-in d xs i x e in (omega (arith, lt), q)

pub All-at {ℓ κ} :
    {A : Type ℓ} (P : A → Type κ) (d : A) (xs : List A) (i : ℕ)
    → All P xs
    → i < length xs
    → P (at d xs i)
All-at P d [] i h lt = absurd (omega arith)
All-at P d (x ∷ xs) zero h lt = h.0
All-at P d (x ∷ xs) (suc i) h lt = All-at P d xs i h.1 (omega arith)

pub at-replicate {ℓ} : {A : Type ℓ} (d : A) (n i : ℕ) → at d (replicate n d) i ≡ d
at-replicate d zero i = refl
at-replicate d (suc n) zero = refl
at-replicate d (suc n) (suc i) = at-replicate d n i

contains-edges_into :
    (i k : ℕ) (succs : List BasicBlockIdx)
    → contains succs i ≡ true
    → contains (edges_into i k succs) k ≡ true
unfolding contains edges_into
contains-edges_into i k [] h = cc
contains-edges_into i k (s ∷ succs) h = ground (arith, contains-edges_into i k succs)

-- The source of an edge is among the predecessors.
pub contains-predecessors_of :
    (i k j : ℕ) (blocks : List BasicBlockData)
    → j < length blocks
    → contains (successor_blocks (at no_block blocks j).terminator) i ≡ true
    → contains (predecessors_of i k blocks) (k + j) ≡ true
unfolding predecessors_of
contains-predecessors_of i k j [] lt h = absurd (omega arith)
contains-predecessors_of i k zero (b ∷ blocks) lt h =
    let rest : List ℕ = predecessors_of i (suc k) blocks in
    let here = contains-edges_into i k (successor_blocks b.terminator) h in
    let e : k + 0 ≡ k = omega arith in
    rw e (
      ground (arith, contains-append (edges_into i k (successor_blocks b.terminator)) rest k, here))
contains-predecessors_of i k (suc j) (b ∷ blocks) lt h =
    let rest : List ℕ = predecessors_of i (suc k) blocks in
    let there = contains-predecessors_of i (suc k) j blocks (omega arith) h in
    let e : k + suc j ≡ suc k + j = omega arith in
    rw e (
      ground (
        arith,
        contains-append (edges_into i k (successor_blocks b.terminator)) rest (suc k + j),
        there,
      ))

edges_into-All :
    (P : ℕ → Type 0) (i k : ℕ) (succs : List BasicBlockIdx) → P k → All P (edges_into i k succs)
unfolding edges_into
edges_into-All P i k [] h = tt
edges_into-All P i k (s ∷ succs) h = elim (Bool-cases (s == i)) [
  | inl q ↦ rw (edges_into, q) (h, edges_into-All P i k succs h)
  | inr q ↦ rw (edges_into, q) (edges_into-All P i k succs h)
]

pub predecessors_of-lt :
    (n i k : ℕ) (blocks : List BasicBlockData)
    → k + length blocks ≤ n
    → All (λ j. j < n) (predecessors_of i k blocks)
unfolding predecessors_of
predecessors_of-lt n i k [] h = tt
predecessors_of-lt n i k (b ∷ blocks) h =
    All-append _ (edges_into i k (successor_blocks b.terminator)) (predecessors_of i (suc k) blocks)
      (edges_into-All (λ j. j < n) i k (successor_blocks b.terminator) (omega arith))
      (predecessors_of-lt n i (suc k) blocks (omega arith))

length-edges_into :
    (i k : ℕ) (succs : List BasicBlockIdx) → length (edges_into i k succs) ≤ length succs
unfolding edges_into
length-edges_into i k [] = omega arith
length-edges_into i k (s ∷ succs) = ground (arith, length-edges_into i k succs)

pub length-predecessors_of :
    (i k : ℕ) (blocks : List BasicBlockData)
    → length (predecessors_of i k blocks) ≤ edges_from blocks
unfolding predecessors_of edges_from
length-predecessors_of i k [] = omega arith
length-predecessors_of i k (b ∷ blocks) =
    let succs : List BasicBlockIdx = successor_blocks b.terminator in
    omega (
      arith,
      length-append {0} (edges_into i k succs) (predecessors_of i (suc k) blocks),
      length-edges_into i k succs,
      length-predecessors_of i (suc k) blocks,
    )

targets_below-true :
    (n : ℕ) (succs : List BasicBlockIdx) → All (λ j. j < n) succs → targets_below n succs ≡ true
unfolding targets_below
targets_below-true n [] h = refl
targets_below-true n (s ∷ succs) h = ground (arith, targets_below-true n succs h.1, h.0)

pub blocks_below-true :
    (n : ℕ) (blocks : List BasicBlockData)
    → All (λ b. All (λ j. j < n) (successor_blocks b.terminator)) blocks
    → blocks_below n blocks ≡ true
unfolding blocks_below
blocks_below-true n [] h = refl
blocks_below-true n (b ∷ blocks) h = ground (
  arith,
  targets_below-true n (successor_blocks b.terminator) h.0,
  blocks_below-true n blocks h.1,
)

pub contains-all_blocks : (n j : ℕ) → j < n → contains (all_blocks n) j ≡ true
unfolding contains all_blocks
contains-all_blocks zero j h = absurd (omega arith)
contains-all_blocks (suc n) j h = elim (Bool-cases (n == j)) [
  | inl q ↦ ground (arith, q)
  | inr q ↦ ground (arith, q, contains-all_blocks n j (ground (arith, q)))
]

all_blocks-out : (n j : ℕ) → n ≤ j → contains (all_blocks n) j ≡ false
unfolding contains all_blocks
all_blocks-out zero j h = refl
all_blocks-out (suc n) j h = ground (arith, all_blocks-out n j (omega arith))

all_blocks-IsDistinct : (n : ℕ) → IsDistinct (all_blocks n)
unfolding all_blocks
all_blocks-IsDistinct zero = tt
all_blocks-IsDistinct (suc n) = (all_blocks-out n n (omega arith), all_blocks-IsDistinct n)

all_blocks-lt : (m n : ℕ) → n ≤ m → All (λ j. j < m) (all_blocks n)
unfolding all_blocks
all_blocks-lt m zero h = tt
all_blocks-lt m (suc n) h = (omega arith, all_blocks-lt m n (omega arith))

pub length-all_blocks : (n : ℕ) → length (all_blocks n) ≡ n
unfolding all_blocks
length-all_blocks zero = refl
length-all_blocks (suc n) = ap suc (length-all_blocks n)

module _ (sets : BitSets) where
  open sets use {BitSet, size, has, insert_in}

  mark_all-bits :
      (n k : ℕ) (s : BitSet)
      → k ≤ n
      → size s ≡ n
      → ((j : ℕ) → has s j ≡ false)
      → (t : BitSet) × (mark_all sets k s ≡ some t)
        × (size t ≡ n)
        × ((j : ℕ) → has t j ≡ contains (all_blocks k) j)
  unfolding mark_all contains all_blocks
  mark_all-bits n zero s h sz nothing = (s, refl, sz, nothing)
  mark_all-bits n (suc k) s h sz nothing =
      let (t, e, sz', bits) = mark_all-bits n k s (omega arith) sz nothing in
      let (u, e', sz'', bits') = insert_in t k (omega (arith, sz')) in
      (
        u,
        ap (λ o. o >>= λ m. sets.insert m k) e ∙ e',
        sz'' ∙ sz',
        λ j. bits' j ∙ ap (λ b. (k == j) || b) (bits j),
      )

  -- Every block is on the list at the start.
  pub mark_all-IsQueue :
      (n : ℕ)
      → (t : BitSet) × (mark_all sets n (sets.with_capacity n) ≡ some t)
        × IsQueue sets n (all_blocks n) t
  mark_all-IsQueue n =
      let (t, e, sz, bits) =
        mark_all-bits n n (sets.with_capacity n) (omega arith) (sets.size_empty n)
          (sets.has_empty n) in
      (
        t,
        e,
        record {
          marked = sz;
          listed = bits;
          once = all_blocks-IsDistinct n;
          range = all_blocks-lt n n (omega arith);
        },
      )

  pub compute_block_summaries-Sums :
      (n : ℕ) (d : Summary sets) (blocks : List BasicBlockData)
      → All
          (λ b. ReadsBelow n b.statements × All (λ l. l < n) (terminator_locals b.terminator))
          blocks
      → All (λ b. AssignsBelow n b.statements × DestinationBelow n b.terminator) blocks
      → (ss : List (Summary sets)) × (compute_block_summaries sets n blocks ≡ some ss)
        × ((i : ℕ) → i < length blocks → Sums sets n (at no_block blocks i) (at d ss i))
  unfolding compute_block_summaries
  compute_block_summaries-Sums n d [] hr ha = ([], refl, λ i h. absurd (omega arith))
  compute_block_summaries-Sums n d (b ∷ blocks) (hr, hrs) (ha, has') =
      let (s, e, sum) = summarize_block-Sums sets n b hr.0 hr.1 ha.0 ha.1 in
      let (ss, e', rest) = compute_block_summaries-Sums n d blocks hrs has' in
      (s ∷ ss, rw (compute_block_summaries, e, e') refl, λ i h. by_index s ss sum rest i h)
    where
      by_index :
          (s : Summary sets) (ss : List (Summary sets))
          → Sums sets n b s
          → ((i : ℕ) → i < length blocks → Sums sets n (at no_block blocks i) (at d ss i))
          → (i : ℕ) → i < suc (length blocks)
          → Sums sets n (at no_block (b ∷ blocks) i) (at d (s ∷ ss) i)
      by_index s ss sum rest zero h = sum
      by_index s ss sum rest (suc i) h = rest i (omega arith)
