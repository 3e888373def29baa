-- ===== src/Opt/Rank.antt =====
-- The numbers that kept blocks get: the loops of crates/glyim-opt/src/unreachable_elim.rs and
-- crates/glyim-opt/src/cfg_simplify.rs that keep some of the blocks.
use glyim_v.Prelude.{
  ℕ, zero, suc, ◌+◌, ◌≤◌, ◌<◌, ◌≡◌, refl, sym, ap, ◌∙◌, inl, inr, Bool, true, false, some, List, [],
  ◌∷◌, length, get_elem?, All, ◌==◌, if◌then◌else◌, arith, Bool-cases,
}
use glyim_v.Mir.Types.{BasicBlockData}
use glyim_v.Prelude.{contains}
use glyim_v.Opt.Unreachable.{keep_blocks, new_indices}
use glyim_v.Opt.Unreachable.Reach.{IsDistinct}

-- How many blocks are kept among the `n` blocks from `i` on.
pub from_zero : (kept : ℕ → Bool) (i : ℕ) → kept i ≡ true → kept (0 + i) ≡ true
from_zero kept i h = let e : 0 + i ≡ i = omega arith in ap kept e ∙ h

abbrev pub rank : (ℕ → Bool) → ℕ → ℕ → ℕ
rank kept i zero = 0
rank kept i (suc n) = (if kept i then 1 else 0) + rank kept (suc i) n

pub rank-le : (kept : ℕ → Bool) (i n : ℕ) → rank kept i n ≤ n
rank-le kept i zero = omega arith
rank-le kept i (suc n) = ground (arith, rank-le kept (suc i) n)

pub new_indices-rank :
    (kept : ℕ → Bool) (i next : ℕ) (blocks : List BasicBlockData) (n : ℕ)
    → kept (i + n) ≡ true
    → n < length blocks
    → get_elem? (new_indices kept i next blocks) n ≡ some (some (next + rank kept i n))
unfolding new_indices
new_indices-rank kept i next [] n h l = absurd (omega arith)
new_indices-rank kept i next (b ∷ blocks) zero h l = ground arith
new_indices-rank kept i next (b ∷ blocks) (suc n) h l =
    let e : suc i + n ≡ i + suc n = omega arith in
    let h' = ap kept e ∙ h in
    ground (
      arith,
      new_indices-rank kept (suc i) (suc next) blocks n h' (omega arith),
      new_indices-rank kept (suc i) next blocks n h' (omega arith),
    )

pub keep_blocks-rank :
    (kept : ℕ → Bool) (i : ℕ) (blocks : List BasicBlockData) (n : ℕ)
    → kept (i + n) ≡ true
    → get_elem? (keep_blocks kept i blocks) (rank kept i n) ≡ get_elem? blocks n
unfolding keep_blocks
keep_blocks-rank kept i [] n h = refl
keep_blocks-rank kept i (b ∷ blocks) zero h = ground arith
keep_blocks-rank kept i (b ∷ blocks) (suc n) h = ground (
  arith,
  keep_blocks-rank kept (suc i) blocks n
      (ap kept (let e : suc i + n ≡ i + suc n = omega arith in e) ∙ h),
)

-- A kept block has a number below the count of kept blocks.
pub rank-lt :
    (kept : ℕ → Bool) (i j n : ℕ) → kept (i + j) ≡ true → j < n → rank kept i j < rank kept i n
rank-lt kept i j zero h l = absurd (omega arith)
rank-lt kept i zero (suc n) h l =
    let e : i + 0 ≡ i = omega arith in let h' = ap kept (sym e) ∙ h in ground arith
rank-lt kept i (suc j) (suc n) h l =
    let e : suc i + j ≡ i + suc j = omega arith in
    ground (arith, rank-lt kept (suc i) j n (ap kept e ∙ h) (omega arith))

pub rank-onto_kept :
    (kept : ℕ → Bool) (i n r : ℕ)
    → kept i ≡ true
    → r < rank kept i (suc n)
    → ((r' : ℕ)
        → r' < rank kept (suc i) n
        → (j : ℕ) × (kept (suc i + j) ≡ true) × (j < n) × (rank kept (suc i) j ≡ r'))
    → (j : ℕ) × (kept (i + j) ≡ true) × (j < suc n) × (rank kept i j ≡ r)
rank-onto_kept kept i n zero k h later =
    (0, ap kept (let q : i + 0 ≡ i = omega arith in q) ∙ k, omega arith, refl)
rank-onto_kept kept i n (suc r) k h later =
    let (j, k', l, e) = later r (ground (arith, k)) in
    (
      suc j,
      ap kept (let q : i + suc j ≡ suc i + j = omega arith in q) ∙ k',
      omega (arith, l),
      ground (arith, k, e),
    )

-- Each number below it is the number of a kept block.
pub rank-onto :
    (kept : ℕ → Bool) (i n r : ℕ)
    → r < rank kept i n
    → (j : ℕ) × (kept (i + j) ≡ true) × (j < n) × (rank kept i j ≡ r)
rank-onto kept i zero r h = absurd (omega arith)
rank-onto kept i (suc n) r h = elim (Bool-cases (kept i)) [
  | inl k ↦ rank-onto_kept kept i n r k h (λ r' h'. rank-onto kept (suc i) n r' h')
  | inr k ↦
      let (j, k', l, e) = rank-onto kept (suc i) n r (ground (arith, k)) in
      (
        suc j,
        ap kept (let q : i + suc j ≡ suc i + j = omega arith in q) ∙ k',
        omega (arith, l),
        ground (arith, k, e),
      )
]

pub length-keep_blocks :
    (kept : ℕ → Bool) (i : ℕ) (blocks : List BasicBlockData)
    → length (keep_blocks kept i blocks) ≡ rank kept i (length blocks)
unfolding keep_blocks
length-keep_blocks kept i [] = refl
length-keep_blocks kept i (b ∷ blocks) = ground (arith, length-keep_blocks kept (suc i) blocks)

-- Where all are counted, all are kept.
pub rank-all : (kept : ℕ → Bool) (i j n : ℕ) → rank kept i n ≡ n → j < n → kept (i + j) ≡ true
rank-all kept i j zero h l = absurd (omega arith)
rank-all kept i zero (suc n) h l =
    ap kept (let q : i + 0 ≡ i = omega arith in q) ∙ ground (arith, rank-le kept (suc i) n)
rank-all kept i (suc j) (suc n) h l =
    ap kept (let q : i + suc j ≡ suc i + j = omega arith in q)
    ∙ rank-all kept (suc i) j n (ground (arith, rank-le kept (suc i) n)) (omega arith)

pub rank-nil : (i n : ℕ) → rank (contains []) i n ≡ 0
unfolding contains
rank-nil i zero = refl
rank-nil i (suc n) = omega (arith, rank-nil (suc i) n)

pub rank-later :
    (x : ℕ) (xs : List ℕ) (i n : ℕ) → x < i → rank (contains (x ∷ xs)) i n ≡ rank (contains xs) i n
unfolding contains
rank-later x xs i zero h = refl
rank-later x xs i (suc n) h = ground (arith, rank-later x xs (suc i) n (omega arith))

pub rank-cons :
    (x : ℕ) (xs : List ℕ) (i n : ℕ)
    → contains xs x ≡ false
    → i ≤ x
    → x < i + n
    → rank (contains (x ∷ xs)) i n ≡ suc (rank (contains xs) i n)
unfolding contains
rank-cons x xs i zero h l u = absurd (omega arith)
rank-cons x xs i (suc n) h l u = elim (Bool-cases (x == i)) [
  | inl e ↦
      let e' : x ≡ i = ground arith in
      ground (arith, e, ap (contains xs) (sym e') ∙ h, rank-later x xs (suc i) n (omega arith))
  | inr e ↦
      let l' : suc i ≤ x = ground arith in
      ground (arith, e, rank-cons x xs (suc i) n h l' (omega arith))
]

-- A list without repetitions has as many elements as blocks it contains.
pub rank-contains :
    (xs : List ℕ) (n : ℕ) → IsDistinct xs → All (λ x. x < n) xs → rank (contains xs) 0 n ≡ length xs
rank-contains [] n d h = rank-nil 0 n
rank-contains (x ∷ xs) n d h =
    rank-cons x xs 0 n d.0 (omega arith) (omega (arith, h.0)) ∙ ap suc (rank-contains xs n d.1 h.1)

pub keep_blocks-All :
    (P : BasicBlockData → Type 0) (kept : ℕ → Bool) (i : ℕ) (blocks : List BasicBlockData)
    → ((j : ℕ) (b : BasicBlockData) → get_elem? blocks j ≡ some b → kept (i + j) ≡ true → P b)
    → All P (keep_blocks kept i blocks)
unfolding keep_blocks
keep_blocks-All P kept i [] h = tt
keep_blocks-All P kept i (b ∷ blocks) h =
    let rest =
      keep_blocks-All P kept (suc i) blocks (λ j c e k.
        h (suc j) c e (ap kept (let q : i + suc j ≡ suc i + j = omega arith in q) ∙ k)) in
    elim (Bool-cases (kept i)) [
      | inl k ↦ rw k (h zero b refl (ap kept (let q : i + 0 ≡ i = omega arith in q) ∙ k), rest)
      | inr k ↦ rw k rest
    ]
