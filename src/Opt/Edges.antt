-- ===== src/Opt/Edges.antt =====
-- `terminator_successors` and `remap_terminator` (crates/glyim-opt/src/cfg_simplify.rs).
use glyim_v.Prelude.{ℕ, ◌%◌, ◌^◌, Option, none, some, List, [], ◌∷◌, ◌++◌, get_elem?}
use glyim_v.Mir.Types.{
  BasicBlockIdx, Terminator, goto, switch_int, return, unreachable, call, assert, drop_place,
  BasicBlockData,
}

abbrev pub optional : Option BasicBlockIdx → List BasicBlockIdx
optional none = []
optional (some b) = b ∷ []

abbrev pub branch_targets : List (ℕ × BasicBlockIdx) → List BasicBlockIdx
branch_targets [] = []
branch_targets ((v, t) ∷ branches) = t ∷ branch_targets branches

unfoldable pub terminator_successors : Terminator → List BasicBlockIdx
terminator_successors (goto target) = target ∷ []
terminator_successors (switch_int discr ty targets) =
    branch_targets targets.branches ++ (targets.otherwise ∷ [])
terminator_successors return = []
terminator_successors unreachable = []
terminator_successors (call func args destination target cleanup) =
    optional target ++ optional cleanup
terminator_successors (assert cond expected target cleanup msg) = target ∷ optional cleanup
terminator_successors (drop_place place target cleanup) = target ∷ optional cleanup

-- The closure `map`: a block with no new index becomes block 0. `as u32` wraps.
abbrev pub renamed : Option (Option ℕ) → BasicBlockIdx
renamed (some (some new)) = new % 2 ^ 32
renamed (some none) = 0
renamed none = 0

unfoldable pub map_idx : List (Option ℕ) → BasicBlockIdx → BasicBlockIdx
map_idx remap idx = renamed (get_elem? remap idx)

abbrev pub map_opt : List (Option ℕ) → Option BasicBlockIdx → Option BasicBlockIdx
map_opt remap none = none
map_opt remap (some idx) = some (map_idx remap idx)

abbrev pub map_branches : List (Option ℕ) → List (ℕ × BasicBlockIdx) → List (ℕ × BasicBlockIdx)
map_branches remap [] = []
map_branches remap ((v, t) ∷ branches) = (v, map_idx remap t) ∷ map_branches remap branches

unfoldable pub remap_terminator : List (Option ℕ) → Terminator → Terminator
remap_terminator remap (goto target) = goto (map_idx remap target)
remap_terminator remap (switch_int discr ty targets) = switch_int discr ty (record {
  branches = map_branches remap targets.branches;
  otherwise = map_idx remap targets.otherwise;
})
remap_terminator remap return = return
remap_terminator remap unreachable = unreachable
remap_terminator remap (call func args destination target cleanup) =
    call func args destination (map_opt remap target) (map_opt remap cleanup)
remap_terminator remap (assert cond expected target cleanup msg) =
    assert cond expected (map_idx remap target) (map_opt remap cleanup) msg
remap_terminator remap (drop_place place target cleanup) =
    drop_place place (map_idx remap target) (map_opt remap cleanup)

-- The call for a block, which changes its terminator.
unfoldable pub remap_block : List (Option ℕ) → BasicBlockData → BasicBlockData
remap_block remap block = record block { terminator = remap_terminator remap block.terminator }
