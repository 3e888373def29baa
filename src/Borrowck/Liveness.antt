-- ===== src/Borrowck/Liveness.antt =====
-- crates/glyim-borrowck/src/liveness.rs: the locals that are live on exit from each block, and before
-- each statement of a block.
pub mod Paths
pub mod Gather
pub mod Capacity
pub mod Summaries
pub mod Edges
pub mod Flow
pub mod Sound
pub mod Initial
pub mod Uses
pub mod Reads
pub mod Plain
pub mod Exits
pub mod Statements
pub mod Used
use glyim_v.Prelude.{
  ℕ, zero, suc, ◌+◌, ◌*◌, max, Bool, true, false, ◌&&◌, Option, none, some, List, [], ◌∷◌, ◌++◌,
  map, length, get_elem?, replicate, ltb, ◌==◌, if◌then◌else◌,
}
use glyim_v.Mir.Types.{
  BasicBlockIdx, LocalIdx, Place, Statement, assign, storage_live, storage_dead, nop, Terminator,
  call, return, BasicBlockData, Body,
}
use glyim_v.Borrowck.BitSets.{BitSets, ◌>>=◌}
use glyim_v.Borrowck.Visitor.{walk_rvalue_reads, walk_terminator_reads, successor_blocks}
use glyim_v.Borrowck.Worklist.{at, Analysis, Drained, drained, drain_panics, drain_no_fuel, drain}

-- The loops of `local_capacity`, over statements and over blocks.
unfoldable pub statements_capacity : List Statement → ℕ → ℕ
statements_capacity [] max_idx = max_idx
statements_capacity (assign place rvalue ∷ stmts) max_idx =
    statements_capacity stmts (max max_idx (place.local + 1))
statements_capacity (storage_live l ∷ stmts) max_idx = statements_capacity stmts max_idx
statements_capacity (storage_dead l ∷ stmts) max_idx = statements_capacity stmts max_idx
statements_capacity (nop ∷ stmts) max_idx = statements_capacity stmts max_idx

unfoldable pub terminator_capacity : Terminator → ℕ → ℕ
terminator_capacity (call func args destination target cleanup) max_idx =
    max max_idx (destination.local + 1)
terminator_capacity _ max_idx = max_idx

unfoldable pub blocks_capacity : List BasicBlockData → ℕ → ℕ
blocks_capacity [] max_idx = max_idx
blocks_capacity (b ∷ blocks) max_idx =
    blocks_capacity blocks
      (terminator_capacity b.terminator (statements_capacity b.statements max_idx))

unfoldable pub local_capacity : Body → ℕ
local_capacity body = blocks_capacity body.basic_blocks (length body.locals)

-- The sources of the edges to block `i` that leave the block `k` and those after it.
unfoldable pub edges_into : ℕ → ℕ → List BasicBlockIdx → List ℕ
edges_into i k [] = []
edges_into i k (succ ∷ succs) =
    let rest = edges_into i k succs in if succ == i then k ∷ rest else rest

unfoldable pub predecessors_of : ℕ → ℕ → List BasicBlockData → List ℕ
predecessors_of i k [] = []
predecessors_of i k (b ∷ blocks) =
    edges_into i k (successor_blocks b.terminator) ++ predecessors_of i (suc k) blocks

-- Whether `predecessors[succ]` is in range for each edge.
unfoldable pub targets_below : ℕ → List BasicBlockIdx → Bool
targets_below n [] = true
targets_below n (succ ∷ succs) = ltb succ n && targets_below n succs

unfoldable pub blocks_below : ℕ → List BasicBlockData → Bool
blocks_below n [] = true
blocks_below n (b ∷ blocks) =
    targets_below n (successor_blocks b.terminator) && blocks_below n blocks

unfoldable pub edges_from : List BasicBlockData → ℕ
edges_from [] = 0
edges_from (b ∷ blocks) = length (successor_blocks b.terminator) + edges_from blocks

-- The indices below `n` as they are popped.
unfoldable pub all_blocks : ℕ → List ℕ
all_blocks zero = []
all_blocks (suc n) = n ∷ all_blocks n

abbrev pub no_block : BasicBlockData
no_block = record { statements = []; terminator = return; is_cleanup = false }

module _ (sets : BitSets) where
  open sets use {BitSet, with_capacity, has, insert, remove, union_with, difference_with, same}

  -- The entries of `BlockSummary` for a block.
  pub record Summary : Type 0 where
    pub uses : BitSet
    pub defs : BitSet

  -- `LivenessUseCollector` and `LivenessGen`.
  unfoldable pub visit_use : BitSet → Place → BitSet → Option BitSet
  visit_use defs place uses = if has defs place.local then some uses else insert uses place.local

  unfoldable pub visit_gen : Place → BitSet → Option BitSet
  visit_gen place live = insert live place.local

  unfoldable pub summarize_statements : List Statement → Summary → Option Summary
  summarize_statements [] s = some s
  summarize_statements (assign place rvalue ∷ stmts) s =
      walk_rvalue_reads (visit_use s.defs) rvalue s.uses >>= λ uses.
      insert s.defs place.local >>= λ defs.
      summarize_statements stmts (record { uses = uses; defs = defs })
  summarize_statements (storage_live l ∷ stmts) s = summarize_statements stmts s
  summarize_statements (storage_dead l ∷ stmts) s = summarize_statements stmts s
  summarize_statements (nop ∷ stmts) s = summarize_statements stmts s

  unfoldable pub define_destination : Terminator → BitSet → Option BitSet
  define_destination (call func args destination target cleanup) defs =
      insert defs destination.local
  define_destination _ defs = some defs

  -- The body of the loop over the blocks.
  unfoldable pub summarize_block : ℕ → BasicBlockData → Option Summary
  summarize_block capacity b =
      summarize_statements b.statements
        (record { uses = with_capacity capacity; defs = with_capacity capacity })
      >>= λ s. walk_terminator_reads (visit_use s.defs) b.terminator s.uses >>= λ uses.
          define_destination b.terminator s.defs >>= λ defs.
          some (record { uses = uses; defs = defs })

  unfoldable pub compute_block_summaries : ℕ → List BasicBlockData → Option (List Summary)
  compute_block_summaries capacity [] = some []
  compute_block_summaries capacity (b ∷ blocks) = summarize_block capacity b >>= λ s.
      compute_block_summaries capacity blocks >>= λ rest. some (s ∷ rest)

  -- The entries of `live_in` and `live_out` for a block.
  pub record Live : Type 0 where
    pub live_in : BitSet
    pub live_out : BitSet

  unfoldable pub union_of : Live → List Live → List BasicBlockIdx → BitSet → BitSet
  union_of bottom facts [] out = out
  union_of bottom facts (succ ∷ succs) out =
      union_of bottom facts succs (union_with out (at bottom facts succ).live_in)

  abbrev pub no_live : ℕ → Live
  no_live capacity = record { live_in = with_capacity capacity; live_out = with_capacity capacity }

  -- `new_live_in` and `new_live_out` of the block `bi`.
  unfoldable pub flow_back : ℕ → List BasicBlockData → List Summary → List Live → ℕ → Live
  flow_back capacity blocks summaries facts bi =
      let empty = with_capacity capacity in
      let succs = successor_blocks (at no_block blocks bi).terminator in
      let new_live_out = union_of (no_live capacity) facts succs empty in
      let s : Summary = at (record { uses = empty; defs = empty }) summaries bi in
      record {
        live_in = union_with s.uses (difference_with new_live_out s.defs);
        live_out = new_live_out;
      }

  abbrev pub live_analysis : ℕ → List BasicBlockData → List Summary → Analysis
  live_analysis capacity blocks summaries = record {
    Fact = Live;
    bottom = no_live capacity;
    recompute = flow_back capacity blocks summaries;
    is_same = λ new old. same new.live_in old.live_in && same new.live_out old.live_out;
    dependents = λ i. predecessors_of i 0 blocks;
  }

  -- The loop that marks every block below `n`.
  unfoldable pub mark_all : ℕ → BitSet → Option BitSet
  mark_all zero marks = some marks
  mark_all (suc n) marks = mark_all n marks >>= λ marked. insert marked n

  pub data Liveness : Type 0 where
    computed : List BitSet → Liveness
    liveness_panics liveness_no_fuel : Liveness

  unfoldable pub live_outs : List Live → List BitSet
  live_outs [] = []
  live_outs (f ∷ facts) = f.live_out ∷ live_outs facts

  abbrev pub or_panics : {A : Type 0} → Option A → (A → Liveness) → Liveness
  or_panics none f = liveness_panics
  or_panics (some x) f = f x

  -- Rounds for each change of a fact, and for each block at the start.
  abbrev pub live_fuel : ℕ → List BasicBlockData → ℕ
  live_fuel capacity blocks =
      length blocks * (capacity + capacity) * suc (edges_from blocks) + length blocks

  module _ (capacity : ℕ) (blocks : List BasicBlockData) (summaries : List Summary) where
    unfoldable pub outcome_of : Drained sets (live_analysis capacity blocks summaries) → Liveness
    outcome_of (drained facts) = computed (live_outs facts)
    outcome_of drain_panics = liveness_panics
    outcome_of drain_no_fuel = liveness_no_fuel

    unfoldable pub drain_from : BitSet → Liveness
    drain_from in_worklist = outcome_of (
        drain sets (live_analysis capacity blocks summaries) (live_fuel capacity blocks)
          (replicate (length blocks) (no_live capacity)) (all_blocks (length blocks)) in_worklist)

    -- The worklist and its loop.
    unfoldable pub live_loop : Liveness
    live_loop = let n = length blocks in or_panics (mark_all n (with_capacity n)) drain_from

  unfoldable pub compute_liveness : Body → Liveness
  compute_liveness body =
      let blocks = body.basic_blocks in
      let n = length blocks in
      let capacity = local_capacity body in
      or_panics (compute_block_summaries capacity blocks) λ summaries.
        if blocks_below n blocks then live_loop capacity blocks summaries else liveness_panics

  -- What is live before a statement, from what is live after it.
  unfoldable pub before_statement : Statement → BitSet → Option BitSet
  before_statement (assign place rvalue) live =
      remove live place.local >>= walk_rvalue_reads visit_gen rvalue
  before_statement (storage_dead l) live = remove live l
  before_statement (storage_live l) live = some live
  before_statement nop live = some live

  -- The vector of `compute_stmt_liveness`, from some statement on.
  unfoldable pub stmt_liveness : List Statement → BitSet → Option (List BitSet)
  stmt_liveness [] live_out = some (live_out ∷ [])
  stmt_liveness (stmt ∷ stmts) live_out = stmt_liveness stmts live_out >>= λ later.
      before_statement stmt (at live_out later 0) >>= λ current. some (current ∷ later)

  unfoldable pub compute_stmt_liveness : Body → BasicBlockIdx → BitSet → Option (List BitSet)
  compute_stmt_liveness body block live_out = elim (get_elem? body.basic_blocks block) [
    | none ↦ none
    | some block_data ↦ stmt_liveness block_data.statements live_out
  ]
