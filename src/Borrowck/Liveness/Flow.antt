-- ===== src/Borrowck/Liveness/Flow.antt =====
-- One recomputation of a block's facts, `flow_back` (crates/glyim-borrowck/src/liveness.rs).
use glyim_v.Prelude.{
  ℕ, zero, suc, ◌+◌, ◌≤◌, ◌<◌, ◌≡◌, refl, sym, subst, ◌∙◌, inl, inr, ◌⊎◌, true, false, List, [],
  ◌∷◌, set, All, ◌==◌, if◌then◌else◌, Bool-cases, contains, ltb, arith,
}
use glyim_v.Mir.Types.{BasicBlockIdx}
use glyim_v.Borrowck.BitSets.{BitSets}
use glyim_v.Borrowck.Worklist.{at}
use glyim_v.Borrowck.Worklist.Fixpoint.{at-set_ne}
use glyim_v.Borrowck.Liveness.{Live, union_of}

module _ (sets : BitSets) where
  open sets use {BitSet, size, has, has_union, size_union, has_difference, size_difference}

  module _ (d : Live sets) (F : List (Live sets)) where
    pub size-union_of :
        (n : ℕ) (succs : List BasicBlockIdx) (out : BitSet)
        → All (λ j. size (at d F j).live_in ≡ n) succs
        → size out ≡ n
        → size (union_of sets d F succs out) ≡ n
    unfolding union_of
    size-union_of n [] out h sz = sz
    size-union_of n (j ∷ succs) out h sz =
        let more = size_union out (at d F j).live_in (omega (arith, h.0, sz)) in
        size-union_of n succs (sets.union_with out (at d F j).live_in) h.1 (more ∙ sz)

    pub union_of-split :
        (succs : List BasicBlockIdx) (out : BitSet) (l : ℕ)
        → has (union_of sets d F succs out) l ≡ true
        → (has out l ≡ true)
          ⊎ ((j : ℕ) × (contains succs j ≡ true) × (has (at d F j).live_in l ≡ true))
    unfolding union_of contains
    union_of-split [] out l h = inl h
    union_of-split (j ∷ succs) out l h =
        elim (union_of-split succs (sets.union_with out (at d F j).live_in) l h) [
          | inl before ↦ elim (Bool-cases (has out l)) [
            | inl old ↦ inl old
            | inr new ↦
                inr (j, ground arith, ground (arith, new, has_union out (at d F j).live_in l))
          ]
          | inr (k, mem, live) ↦ inr (k, ground (arith, mem), live)
        ]

    pub union_of-old :
        (succs : List BasicBlockIdx) (out : BitSet) (l : ℕ)
        → has out l ≡ true
        → has (union_of sets d F succs out) l ≡ true
    unfolding union_of
    union_of-old [] out l h = h
    union_of-old (j ∷ succs) out l h =
        union_of-old succs (sets.union_with out (at d F j).live_in) l
          (ground (arith, h, has_union out (at d F j).live_in l))

    pub union_of-new :
        (succs : List BasicBlockIdx) (out : BitSet) (j l : ℕ)
        → contains succs j ≡ true
        → has (at d F j).live_in l ≡ true
        → has (union_of sets d F succs out) l ≡ true
    unfolding union_of contains
    union_of-new [] out j l mem h = cc
    union_of-new (k ∷ succs) out j l mem h = elim (Bool-cases (k == j)) [
      | inl q ↦
          let hk : has (at d F k).live_in l ≡ true =
            subst (λ i. has (at d F i).live_in l ≡ true) (sym (ground arith)) h in
          union_of-old succs (sets.union_with out (at d F k).live_in) l
            (ground (arith, hk, has_union out (at d F k).live_in l))
      | inr q ↦
          union_of-new succs (sets.union_with out (at d F k).live_in) j l (ground (arith, q)) h
    ]

  -- A fact of a block that is no successor does not matter.
  pub union_of-set :
      (d : Live sets) (F : List (Live sets)) (i : ℕ) (v : Live sets) (succs : List BasicBlockIdx)
      (out : BitSet)
      → contains succs i ≡ false
      → union_of sets d (set F i v) succs out ≡ union_of sets d F succs out
  unfolding union_of contains
  union_of-set d F i v [] out h = refl
  union_of-set d F i v (j ∷ succs) out h =
      let other : (i == j) ≡ false = ground arith in
      rw (at-set_ne d v F i j other)
        (union_of-set d F i v succs (sets.union_with out (at d F j).live_in) (ground arith))

  -- How many of the first `n` bits are set.
  abbrev pub bit_count : ℕ → BitSet → ℕ
  bit_count zero s = 0
  bit_count (suc n) s = (if has s n then 1 else 0) + bit_count n s

  pub bit_count-le : (n : ℕ) (s : BitSet) → bit_count n s ≤ n
  bit_count-le zero s = omega arith
  bit_count-le (suc n) s = ground (arith, bit_count-le n s)

  pub bit_count_mono :
      (n : ℕ) (s t : BitSet)
      → ((i : ℕ) → has s i ≡ true → has t i ≡ true)
      → bit_count n s ≤ bit_count n t
  bit_count_mono zero s t h = omega arith
  bit_count_mono (suc n) s t h = ground (arith, bit_count_mono n s t h, h n)

  bit_count_same :
      (n : ℕ) (s t : BitSet)
      → ((i : ℕ) → has s i ≡ true → has t i ≡ true)
      → bit_count n t ≤ bit_count n s
      → (i : ℕ) → i < n
      → has s i ≡ has t i
  bit_count_same zero s t h le i lt = absurd (omega arith)
  bit_count_same (suc n) s t h le i lt =
      let less = bit_count_mono n s t h in
      elim (Bool-cases (i == n)) [
        | inl q ↦
            let here : has s n ≡ has t n = ground (arith, less, h n) in
            subst (λ k. has s k ≡ has t k) (sym (ground arith)) here
        | inr q ↦ bit_count_same n s t h (ground (arith, less, h n)) i (ground (arith, q))
      ]

  -- Sets of one size of which one has as many bits as the other, and all of its bits, are the same.
  pub same_of_count :
      (n : ℕ) (s t : BitSet)
      → size s ≡ n
      → size t ≡ n
      → ((i : ℕ) → has s i ≡ true → has t i ≡ true)
      → bit_count n t ≤ bit_count n s
      → sets.same t s ≡ true
  same_of_count n s t hs ht sub le = sets.same_of_bits t s (ht ∙ sym hs) λ i.
      elim (Bool-cases (ltb i n)) [
        | inl lt ↦ sym (bit_count_same n s t sub le i (ground (arith, lt)))
        | inr ge ↦
            sets.has_out t i (ground (arith, ge, ht))
            ∙ sym (sets.has_out s i (ground (arith, ge, hs)))
      ]
