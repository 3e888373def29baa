-- ===== src/Opt/Unreachable/Targets.antt =====
-- The targets of the blocks that are kept (crates/glyim-opt/src/unreachable_elim.rs).
use glyim_v.Prelude.{
  ℕ, suc, ◌+◌, ◌≤◌, ◌<◌, ◌^◌, ◌≡◌, refl, sym, ap, subst, ◌∙◌, inl, inr, Bool, true, Option, none,
  some, List, [], ◌∷◌, ◌++◌, map, length, All, ◌==◌, arith, Bool-cases,
}
use glyim_v.Mir.Types.{
  BasicBlockIdx, Terminator, goto, switch_int, return, unreachable, call, assert, drop_place,
  BasicBlockData,
}
use glyim_v.Opt.Edges.{
  optional, branch_targets, terminator_successors, map_idx, map_opt, map_branches, remap_terminator,
  remap_block,
}
use glyim_v.Opt.Rank.{rank, from_zero, rank-lt, length-keep_blocks, keep_blocks-All}
use glyim_v.Opt.Renumber.{IsClosed, map_idx-rank, compact-rank}
use glyim_v.Prelude.{contains}
use glyim_v.Opt.Unreachable.{keep_blocks, new_indices, compact}
use glyim_v.Opt.Unreachable.Reach.{InRange, Reaches, start, edge}

map-append {ℓ κ} :
    {A : Type ℓ} {B : Type κ} (f : A → B) (xs ys : List A) → map f (xs ++ ys) ≡ map f xs ++ map f ys
map-append f [] ys = refl
map-append f (x ∷ xs) ys = ap (λ l. f x ∷ l) (map-append f xs ys)

optional-map_opt :
    (remap : List (Option ℕ)) (o : Option BasicBlockIdx)
    → optional (map_opt remap o) ≡ map (map_idx remap) (optional o)
optional-map_opt remap none = refl
optional-map_opt remap (some b) = refl

branch_targets-map_branches :
    (remap : List (Option ℕ)) (branches : List (ℕ × BasicBlockIdx))
    → branch_targets (map_branches remap branches) ≡ map (map_idx remap) (branch_targets branches)
branch_targets-map_branches remap [] = refl
branch_targets-map_branches remap ((v, t) ∷ branches) =
    ap (λ l. map_idx remap t ∷ l) (branch_targets-map_branches remap branches)

-- The renamed terminator leads to the renamed targets.
terminator_successors-remap_terminator :
    (remap : List (Option ℕ)) (t : Terminator)
    → terminator_successors (remap_terminator remap t)
      ≡ map (map_idx remap) (terminator_successors t)
unfolding terminator_successors remap_terminator
terminator_successors-remap_terminator remap (goto target) = refl
terminator_successors-remap_terminator remap (switch_int discr ty targets) =
    ap (λ l. l ++ (map_idx remap targets.otherwise ∷ []))
      (branch_targets-map_branches remap targets.branches)
    ∙ sym (map-append (map_idx remap) (branch_targets targets.branches) (targets.otherwise ∷ []))
terminator_successors-remap_terminator remap return = refl
terminator_successors-remap_terminator remap unreachable = refl
terminator_successors-remap_terminator remap (call func args destination target cleanup) = cc (
  optional-map_opt remap target,
  optional-map_opt remap cleanup,
  map-append (map_idx remap) (optional target) (optional cleanup),
)
terminator_successors-remap_terminator remap (assert cond expected target cleanup msg) =
    ap (λ l. map_idx remap target ∷ l) (optional-map_opt remap cleanup)
terminator_successors-remap_terminator remap (drop_place place target cleanup) =
    ap (λ l. map_idx remap target ∷ l) (optional-map_opt remap cleanup)

All-map :
    {A B : Type 0} (f : A → B) (P : A → Type 0) (Q : B → Type 0) (xs : List A)
    → ((x : A) → P x → Q (f x))
    → All P xs
    → All Q (map f xs)
All-map f P Q [] h k = tt
All-map f P Q (x ∷ xs) h k = (h x k.0, All-map f P Q xs h k.1)

contains-map :
    (f : ℕ → ℕ) (xs : List ℕ) (i : ℕ) → contains xs i ≡ true → contains (map f xs) (f i) ≡ true
unfolding contains
contains-map f [] i h = absurd (ground arith)
contains-map f (x ∷ xs) i h = elim (Bool-cases (x == i)) [
  | inl e ↦ let e' : x ≡ i = ground arith in ground (arith, ap f e')
  | inr e ↦ ground (arith, contains-map f xs i (ground (arith, e)))
]

length-map : {A B : Type 0} (f : A → B) (xs : List A) → length (map f xs) ≡ length xs
length-map f [] = refl
length-map f (x ∷ xs) = ap suc (length-map f xs)

pub length-compact :
    (kept : ℕ → Bool) (blocks : List BasicBlockData)
    → length (compact kept blocks) ≡ rank kept 0 (length blocks)
unfolding compact
length-compact kept blocks =
    length-map (remap_block (new_indices kept 0 0 blocks)) (keep_blocks kept 0 blocks)
    ∙ length-keep_blocks kept 0 blocks

successors-remap_block :
    (remap : List (Option ℕ)) (b : BasicBlockData)
    → terminator_successors (remap_block remap b).terminator
      ≡ map (map_idx remap) (terminator_successors b.terminator)
unfolding remap_block
successors-remap_block remap b = terminator_successors-remap_terminator remap b.terminator

module _ (kept : ℕ → Bool) (blocks : List BasicBlockData) (small : length blocks ≤ 2 ^ 32)
    (closed : IsClosed kept blocks) where
  pub compact-InRange : InRange (compact kept blocks)
  unfolding compact
  compact-InRange = rw (length-compact kept blocks) (
      All-map (remap_block (new_indices kept 0 0 blocks))
        (λ b. All (λ j. (kept j ≡ true) × (j < length blocks)) (terminator_successors b.terminator))
        (λ b. All (λ j. j < rank kept 0 (length blocks)) (terminator_successors b.terminator))
        (keep_blocks kept 0 blocks)
        (λ b h. subst (All _) (sym (successors-remap_block (new_indices kept 0 0 blocks) b)) (
          All-map (map_idx (new_indices kept 0 0 blocks)) _ _ (terminator_successors b.terminator)
            (λ j q.
              subst (λ r. r < rank kept 0 (length blocks))
                (sym (map_idx-rank kept blocks small j q.0 q.1))
                (rank-lt kept 0 j (length blocks) (from_zero kept j q.0) q.1))
            h))
        (keep_blocks-All _ kept 0 blocks
          (λ j b e k. closed j b e (ap kept (let q : j ≡ 0 + j = omega arith in q) ∙ k))))

  -- What the start reaches is reached under its new number.
  pub Reaches-compact :
      ((i : ℕ) → Reaches blocks i → (kept i ≡ true) × (i < length blocks))
      → (i : ℕ) → Reaches blocks i
      → Reaches (compact kept blocks) (rank kept 0 i)
  Reaches-compact keeps _ start = start
  Reaches-compact keeps _ (edge {i} {j} b w q k) =
      let (kj, lj) = keeps j (edge b w q k) in
      edge (remap_block (new_indices kept 0 0 blocks) b) (Reaches-compact keeps i w)
        (compact-rank kept blocks small i b (keeps i w).0 q)
        (ap (λ l. contains l (rank kept 0 j))
            (successors-remap_block (new_indices kept 0 0 blocks) b)
          ∙ ap
              (contains
                (map (map_idx (new_indices kept 0 0 blocks)) (terminator_successors b.terminator)))
              (sym (map_idx-rank kept blocks small j kj lj))
          ∙ contains-map (map_idx (new_indices kept 0 0 blocks))
              (terminator_successors b.terminator) j k)
