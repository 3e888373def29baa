-- ===== src/Opt/Renumber.antt =====
-- The runs of the blocks that are kept, under their new numbers (crates/glyim-opt/src/cfg_simplify.rs,
-- crates/glyim-opt/src/unreachable_elim.rs).
use glyim_v.Prelude.{
  ℕ, zero, suc, ◌^◌, ◌≤◌, ◌<◌, ◌≡◌, refl, sym, ap, ◌∙◌, Bool, true, false, Option, none, some, List,
  [], ◌∷◌, ◌++◌, map, length, get_elem?, All, ◌==◌, if_either, All-left, All-right, get_elem?-lt,
  arith,
}
use native.Mathlib.Nat.{mod-eq_of_lt}
use glyim_v.Mir.Types.{
  BasicBlockIdx, SwitchTargets, Terminator, goto, switch_int, return, unreachable, call, assert,
  drop_place, BasicBlockData,
}
use glyim_v.Opt.Edges.{
  optional, branch_targets, terminator_successors, renamed, map_idx, map_opt, map_branches,
  remap_terminator, remap_block,
}
use glyim_v.Opt.Semantics.{
  Meaning, Next, to, leaves, unwinds, stuck, Result, go, go_or_unwind, choose, switch, as_expected,
  step, exec_all, exec_block, then_step, run_from, follow, at_block,
}
use glyim_v.Opt.Rank.{rank, rank-le, from_zero, new_indices-rank, keep_blocks-rank}
use glyim_v.Opt.Unreachable.{keep_blocks, new_indices, compact}

pub get_elem?-map {ℓ κ} :
    {A : Type ℓ} {B : Type κ} (f : A → B) (xs : List A) (i : ℕ) (a : A)
    → get_elem? xs i ≡ some a
    → get_elem? (map f xs) i ≡ some (f a)
get_elem?-map f [] i a e = cc
get_elem?-map f (x ∷ xs) zero a e = cc
get_elem?-map f (x ∷ xs) (suc i) a e = get_elem?-map f xs i a e

-- A step leads where the renamed terminator leads, under the new number.
abbrev pub rename : {S : Type 0} → (BasicBlockIdx → BasicBlockIdx) → Next S → Next S
rename f (to b s) = to (f b) s
rename f (leaves s) = leaves s
rename f (unwinds s) = unwinds s
rename f stuck = stuck

choose-map_branches :
    (remap : List (Option ℕ)) (branches : List (ℕ × BasicBlockIdx)) (otherwise : BasicBlockIdx)
    (v : ℕ)
    → choose (map_branches remap branches) (map_idx remap otherwise) v
      ≡ map_idx remap (choose branches otherwise v)
unfolding choose
choose-map_branches remap [] otherwise v = refl
choose-map_branches remap ((w, b) ∷ branches) otherwise v =
    ground (arith, choose-map_branches remap branches otherwise v)

module _ {S : Type 0} (remap : List (Option ℕ)) where
  go-rename :
      (target : Option BasicBlockIdx) (missing : Next S) (s : S)
      → rename (map_idx remap) missing ≡ missing
      → go (map_opt remap target) missing s ≡ rename (map_idx remap) (go target missing s)
  go-rename none missing s e = sym e
  go-rename (some b) missing s e = refl

  go_or_unwind-rename :
      (target cleanup : Option BasicBlockIdx) (r : Option (Bool × S))
      → go_or_unwind (map_opt remap target) (map_opt remap cleanup) r
        ≡ rename (map_idx remap) (go_or_unwind target cleanup r)
  go_or_unwind-rename target cleanup none = refl
  go_or_unwind-rename target cleanup (some (true, s)) = go-rename target stuck s refl
  go_or_unwind-rename target cleanup (some (false, s)) = go-rename cleanup (unwinds s) s refl

  module _ (m : Meaning S) where
    switch-rename :
        (targets : SwitchTargets) (s : S) (o : Option ℕ)
        → switch
            (record {
              branches = map_branches remap targets.branches;
              otherwise = map_idx remap targets.otherwise;
            })
            s
            o
          ≡ rename (map_idx remap) (switch targets s o)
    switch-rename targets s none = refl
    switch-rename targets s (some v) =
        ap (λ b. to b s) (choose-map_branches remap targets.branches targets.otherwise v)

    step-rename :
        (t : Terminator) (s : S)
        → step m (remap_terminator remap t) s ≡ rename (map_idx remap) (step m t s)
    unfolding step remap_terminator
    step-rename (goto target) s = refl
    step-rename (switch_int discr ty targets) s = switch-rename targets s (m.value discr s)
    step-rename return s = refl
    step-rename unreachable s = refl
    step-rename (call func args destination target cleanup) s =
        go_or_unwind-rename target cleanup (m.calls func args destination s)
    step-rename (assert cond expected target cleanup msg) s =
        go_or_unwind-rename (some target) cleanup (as_expected expected s (m.holds cond s))
    step-rename (drop_place place target cleanup) s =
        go_or_unwind-rename (some target) cleanup (m.drops place s)

    exec_block-rename :
        (b : BasicBlockData) (s : S)
        → exec_block m (remap_block remap b) s ≡ rename (map_idx remap) (exec_block m b s)
    unfolding exec_block remap_block
    exec_block-rename b s = stepped (exec_all m b.statements s)
      where
        stepped :
            (o : Option S)
            → then_step m (remap_terminator remap b.terminator) o
              ≡ rename (map_idx remap) (then_step m b.terminator o)
        stepped none = refl
        stepped (some s) = step-rename b.terminator s

-- A predicate on the block that is next.
abbrev pub AllNext : {S : Type 0} → (BasicBlockIdx → Type 0) → Next S → Type 0
AllNext P (to b s) = P b
AllNext P (leaves s) = Unit
AllNext P (unwinds s) = Unit
AllNext P stuck = Unit

choose-All :
    (P : BasicBlockIdx → Type 0) (branches : List (ℕ × BasicBlockIdx)) (otherwise : BasicBlockIdx)
    (v : ℕ)
    → All P (branch_targets branches ++ (otherwise ∷ []))
    → P (choose branches otherwise v)
unfolding choose
choose-All P [] otherwise v h = h.0
choose-All P ((w, b) ∷ branches) otherwise v h =
    if_either P (w == v) b (choose branches otherwise v) h.0 (choose-All P branches otherwise v h.1)

module _ {S : Type 0} (P : BasicBlockIdx → Type 0) where
  go-All :
      (target : Option BasicBlockIdx) (missing : Next S) (s : S)
      → All P (optional target)
      → AllNext P missing
      → AllNext P (go target missing s)
  go-All none missing s h k = k
  go-All (some b) missing s h k = h.0

  go_or_unwind-All :
      (target cleanup : Option BasicBlockIdx) (r : Option (Bool × S))
      → All P (optional target)
      → All P (optional cleanup)
      → AllNext P (go_or_unwind target cleanup r)
  go_or_unwind-All target cleanup none h k = tt
  go_or_unwind-All target cleanup (some (true, s)) h k = go-All target stuck s h tt
  go_or_unwind-All target cleanup (some (false, s)) h k = go-All cleanup (unwinds s) s k tt

  switch-All :
      (targets : SwitchTargets) (s : S) (o : Option ℕ)
      → All P (branch_targets targets.branches ++ (targets.otherwise ∷ []))
      → AllNext P (switch targets s o)
  switch-All targets s none h = tt
  switch-All targets s (some v) h = choose-All P targets.branches targets.otherwise v h

  module _ (m : Meaning S) where
    step-All : (t : Terminator) (s : S) → All P (terminator_successors t) → AllNext P (step m t s)
    unfolding step terminator_successors
    step-All (goto target) s h = h.0
    step-All (switch_int discr ty targets) s h = switch-All targets s (m.value discr s) h
    step-All return s h = tt
    step-All unreachable s h = tt
    step-All (call func args destination target cleanup) s h =
        go_or_unwind-All target cleanup (m.calls func args destination s)
          (All-left P (optional target) (optional cleanup) h)
          (All-right P (optional target) (optional cleanup) h)
    step-All (assert cond expected target cleanup msg) s h =
        go_or_unwind-All (some target) cleanup (as_expected expected s (m.holds cond s)) (h.0, tt)
          h.1
    step-All (drop_place place target cleanup) s h =
        go_or_unwind-All (some target) cleanup (m.drops place s) (h.0, tt) h.1

    pub exec_block-All :
        (b : BasicBlockData) (s : S)
        → All P (terminator_successors b.terminator)
        → AllNext P (exec_block m b s)
    unfolding exec_block
    exec_block-All b s h = stepped (exec_all m b.statements s)
      where
        stepped : (o : Option S) → AllNext P (then_step m b.terminator o)
        stepped none = tt
        stepped (some s) = step-All b.terminator s h

-- The kept blocks lead to kept blocks only.
abbrev pub IsClosed : (ℕ → Bool) → List BasicBlockData → Type 0
IsClosed kept blocks =
    (i : ℕ) (b : BasicBlockData)
    → get_elem? blocks i ≡ some b
    → kept i ≡ true
    → All (λ j. (kept j ≡ true) × (j < length blocks)) (terminator_successors b.terminator)

module _ (kept : ℕ → Bool) (blocks : List BasicBlockData) (small : length blocks ≤ 2 ^ 32) where
  pub map_idx-rank :
      (j : ℕ)
      → kept j ≡ true
      → j < length blocks
      → map_idx (new_indices kept 0 0 blocks) j ≡ rank kept 0 j
  unfolding map_idx
  map_idx-rank j h l =
      ap renamed (new_indices-rank kept 0 0 blocks j (from_zero kept j h) l)
      ∙ mod-eq_of_lt (omega (arith, rank-le kept 0 j))
      ∙ omega arith

  pub compact-rank :
      (i : ℕ) (b : BasicBlockData)
      → kept i ≡ true
      → get_elem? blocks i ≡ some b
      → get_elem? (compact kept blocks) (rank kept 0 i)
        ≡ some (remap_block (new_indices kept 0 0 blocks) b)
  unfolding compact
  compact-rank i b h e =
      get_elem?-map (remap_block (new_indices kept 0 0 blocks)) (keep_blocks kept 0 blocks)
        (rank kept 0 i) b (keep_blocks-rank kept 0 blocks i (from_zero kept i h) ∙ e)

  follow-rename :
      {S : Type 0} (new old : BasicBlockIdx → S → Result S)
      → ((j : ℕ) (s : S) → kept j ≡ true → j < length blocks → new (rank kept 0 j) s ≡ old j s)
      → (n : Next S) → AllNext (λ j. (kept j ≡ true) × (j < length blocks)) n
      → follow new (rename (map_idx (new_indices kept 0 0 blocks)) n) ≡ follow old n
  follow-rename new old same (to j s) q =
      ap (λ k. new k s) (map_idx-rank j q.0 q.1) ∙ same j s q.0 q.1
  follow-rename new old same (leaves s) q = refl
  follow-rename new old same (unwinds s) q = refl
  follow-rename new old same stuck q = refl

  module _ {S : Type 0} (m : Meaning S) (closed : IsClosed kept blocks) where
    -- Running the compacted blocks is running the blocks.
    pub run_from-compact :
        (fuel i : ℕ) (s : S)
        → kept i ≡ true
        → i < length blocks
        → run_from m fuel (compact kept blocks) (rank kept 0 i) s ≡ run_from m fuel blocks i s
    unfolding run_from
    run_from-compact zero i s h l = refl
    run_from-compact (suc fuel) i s h l =
        let (b, e) = get_elem?-lt blocks i l in
        ap (λ o. at_block m (run_from m fuel (compact kept blocks)) o s) (compact-rank i b h e)
        ∙ ap (follow (run_from m fuel (compact kept blocks)))
            (exec_block-rename (new_indices kept 0 0 blocks) m b s)
        ∙ follow-rename (run_from m fuel (compact kept blocks)) (run_from m fuel blocks)
            (λ j s' h l. run_from-compact fuel j s' h l) (exec_block m b s)
            (exec_block-All _ m b s (closed i b e h))
        ∙ ap (λ o. at_block m (run_from m fuel blocks) o s) (sym e)
