-- ===== src/Opt/Unreachable.antt =====
-- crates/glyim-opt/src/unreachable_elim.rs: the removal of blocks that the start cannot reach. The set
-- is a list of indices, with the latest first.
pub mod Reach
pub mod Targets
pub mod Keeps
use glyim_v.Prelude.{
  ℕ, zero, suc, ◌+◌, ◌*◌, Bool, true, false, ◌||◌, Option, none, some, List, [], ◌∷◌, ◌++◌, map,
  reverse, length, get_elem?, contains, ◌==◌, if◌then◌else◌,
}
use glyim_v.Mir.Types.{BasicBlockIdx, BasicBlockData, Body}
use glyim_v.Opt.Edges.{terminator_successors, remap_block}

-- What the loop leaves: an index out of range panics.
pub data Search : Type 0 where
  found : List ℕ → Search
  panics no_fuel : Search

-- The `while` loop over the stack, whose top is the head.
unfoldable pub search_loop : ℕ → List BasicBlockData → List ℕ → List ℕ → Search
search_loop fuel blocks visited [] = found visited
search_loop zero blocks visited (i ∷ stack) = no_fuel
search_loop (suc fuel) blocks visited (i ∷ stack) = elim (contains visited i) [
  | true ↦ search_loop fuel blocks visited stack
  | false ↦ elim (get_elem? blocks i) [
    | none ↦ panics
    | some block ↦
        search_loop fuel blocks (i ∷ visited)
          (reverse (terminator_successors block.terminator) ++ stack)
  ]
]

-- Each block is expanded once, and each of its edges is popped once.
unfoldable pub edge_count : List BasicBlockData → ℕ
edge_count [] = 0
edge_count (b ∷ blocks) = length (terminator_successors b.terminator) + edge_count blocks

unfoldable pub reachable_set : List BasicBlockData → Search
reachable_set blocks = search_loop (1 + edge_count blocks) blocks [] (0 ∷ [])

-- The loop that keeps some of the blocks, from the block `i` on, which may become block `next`.
unfoldable pub keep_blocks : (ℕ → Bool) → ℕ → List BasicBlockData → List BasicBlockData
keep_blocks kept i [] = []
keep_blocks kept i (b ∷ blocks) =
    let rest = keep_blocks kept (suc i) blocks in if kept i then b ∷ rest else rest

unfoldable pub new_indices : (ℕ → Bool) → ℕ → ℕ → List BasicBlockData → List (Option ℕ)
new_indices kept i next [] = []
new_indices kept i next (b ∷ blocks) =
    let here = some next ∷ new_indices kept (suc i) (suc next) blocks in
    let gone = none ∷ new_indices kept (suc i) next blocks in if kept i then here else gone

-- The blocks that are kept, under their new numbers.
unfoldable pub compact : (ℕ → Bool) → List BasicBlockData → List BasicBlockData
compact kept blocks = map (remap_block (new_indices kept 0 0 blocks)) (keep_blocks kept 0 blocks)

pub data Pass : Type 0 where
  passed : Body → Pass
  pass_panics pass_no_fuel : Pass

unfoldable pub run : Body → Pass
run body = elim (reachable_set body.basic_blocks) [
  | panics ↦ pass_panics
  | no_fuel ↦ pass_no_fuel
  | found reachable ↦
      (if length reachable == length body.basic_blocks
        then passed body
        else passed (record body { basic_blocks = compact (contains reachable) body.basic_blocks }))
]
