-- ===== src/Borrowck/Liveness/Used.antt =====
-- What the sets of `compute_liveness` and `compute_stmt_liveness`
-- (crates/glyim-borrowck/src/liveness.rs) say of the uses of locals.
use glyim_v.Prelude.{ℕ, ◌<◌, ◌≡◌, true, List, length}
use glyim_v.Mir.Types.{Body}
use glyim_v.Borrowck.BitSets.{BitSets}
use glyim_v.Borrowck.Worklist.{at}
use glyim_v.Borrowck.Liveness.{no_block, local_capacity, computed, compute_liveness}
use glyim_v.Borrowck.Liveness.Paths.{HasTargets, IsDeclared}
use glyim_v.Borrowck.Liveness.Uses.{UsedOut}
use glyim_v.Borrowck.Liveness.Plain.{LiveOut-UsedOut}
use glyim_v.Borrowck.Liveness.Exits.{compute_liveness-LiveOut}

-- For every body whose targets are blocks and in which the locals of the places that are read are
-- declared: the analysis ends without a panic, with a set for each block, and each local in the set of a
-- block is used behind it: some path from the block's end reads the local with no assignment to the whole
-- of it before that.
pub compute_liveness_sound :
    (sets : BitSets) (body : Body)
    → HasTargets body.basic_blocks
    → IsDeclared body
    → (out : List sets.BitSet) × (compute_liveness sets body ≡ computed out)
      × (length out ≡ length body.basic_blocks)
      × ((i l : ℕ)
          → i < length body.basic_blocks
          → sets.has (at (sets.with_capacity (local_capacity body)) out i) l ≡ true
          → UsedOut body.basic_blocks l (at no_block body.basic_blocks i).terminator)
compute_liveness_sound sets body targets declared =
    let (out, e, len, sized, exact) = compute_liveness-LiveOut sets body targets declared in
    (
      out,
      e,
      len,
      λ i l lt h.
          LiveOut-UsedOut body.basic_blocks l (at no_block body.basic_blocks i).terminator
            ((exact i l lt).0 h),
    )
