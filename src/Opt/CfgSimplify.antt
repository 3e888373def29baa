-- ===== src/Opt/CfgSimplify.antt =====
-- crates/glyim-opt/src/cfg_simplify.rs: blocks that one `Goto` leads to are appended to its block. The
-- vector `delete` is the list of the indices that are set in it. No index is out of range here.
pub mod Merged
pub mod Edit
pub mod Rounds
pub mod Keeps
use glyim_v.Prelude.{
  ℕ, zero, suc, ◌+◌, ◌-◌, Bool, true, false, ◌&&◌, not, Option, none, some, List, [], ◌∷◌, ◌++◌,
  length, get_elem?, set, replicate, ◌==◌, if◌then◌else◌,
}
use glyim_v.Mir.Types.{BasicBlockIdx, Statement, Terminator, goto, return, BasicBlockData, Body}
use glyim_v.Opt.Edges.{terminator_successors}
use glyim_v.Prelude.{contains}
use glyim_v.Opt.Unreachable.{compact, Pass, passed, pass_panics, pass_no_fuel}

abbrev pub empty_block : BasicBlockData
empty_block = record { statements = []; terminator = return; is_cleanup = false }

abbrev pub block_at : List BasicBlockData → ℕ → BasicBlockData
block_at [] i = empty_block
block_at (b ∷ blocks) zero = b
block_at (b ∷ blocks) (suc i) = block_at blocks i

-- How often a block stands in a list of successors.
unfoldable pub count : ℕ → List BasicBlockIdx → ℕ
count i [] = 0
count i (x ∷ xs) = (if x == i then 1 else 0) + count i xs

-- `preds[i]`, with the block `k` first in the list: each edge to `i` gives its source once.
unfoldable pub predecessors : ℕ → ℕ → List BasicBlockData → List ℕ
predecessors i k [] = []
predecessors i k (b ∷ blocks) =
    replicate (count i (terminator_successors b.terminator)) k ++ predecessors i (suc k) blocks

unfoldable pub is_goto : Terminator → ℕ → Bool
is_goto (goto target) i = target == i
is_goto _ i = false

pub record Merging : Type 0 where
  pub blocks : List BasicBlockData
  pub delete : List ℕ

-- The writes in their order, which counts where `p` is `i`.
unfoldable pub merge : ℕ → ℕ → Merging → Merging
merge p i st =
    let stmts = (block_at st.blocks i).statements in
    let blocks1 = set st.blocks i (record (block_at st.blocks i) { statements = [] }) in
    let blocks2 =
      set blocks1 p
        (record (block_at blocks1 p) { statements = (block_at blocks1 p).statements ++ stmts }) in
    let term = (block_at blocks2 i).terminator in
    let blocks3 = set blocks2 i (record (block_at blocks2 i) { terminator = return }) in
    record {
      blocks = set blocks3 p (record (block_at blocks3 p) { terminator = term });
      delete = i ∷ st.delete;
    }

-- The body of the `for` loop, at the predecessors that block `i` had when the round began.
unfoldable pub visit : List ℕ → ℕ → Merging → Merging
visit [] i st = st
visit (p ∷ []) i st =
    if not (contains st.delete i)
      && not (contains st.delete p)
      && is_goto (block_at st.blocks p).terminator i
    then merge p i st
    else st
visit (_ ∷ _ ∷ _) i st = st

unfoldable pub visit_from : List BasicBlockData → ℕ → ℕ → Merging → Merging
visit_from before zero i st = st
visit_from before (suc n) i st = visit_from before n (suc i) (visit (predecessors i 0 before) i st)

-- One round of the `while` loop, up to the test of `changed`.
unfoldable pub round : List BasicBlockData → Merging
round blocks = visit_from blocks (length blocks - 1) 1 (record { blocks = blocks; delete = [] })

unfoldable pub simplify : ℕ → List BasicBlockData → Option (List BasicBlockData)
simplify zero blocks = elim (round blocks).delete [ [] ↦ some blocks | _ ∷ _ ↦ none ]
simplify (suc fuel) blocks = elim (round blocks).delete [
  | [] ↦ some blocks
  | _ ∷ _ ↦
      simplify fuel (compact (λ i. not (contains (round blocks).delete i)) (round blocks).blocks)
]

unfoldable pub run : Body → Pass
run body = elim (simplify (length body.basic_blocks) body.basic_blocks) [
  | none ↦ pass_no_fuel
  | some blocks ↦ passed (record body { basic_blocks = blocks })
]
