-- ===== src/Borrowck/BitSets.antt =====
-- `FixedBitSet` of the crate fixedbitset, whose code is not in the repository: the operations that the
-- borrow checker calls, with what the crate documents of them.
use glyim_v.Prelude.{ℕ, ◌≤◌, ◌<◌, ◌≡◌, ◌==◌, Bool, true, false, ◌&&◌, ◌||◌, not, Option, none, some}

-- `insert` and `remove` panic on an index that is not below the length.
pub record BitSets : Type 1 where
  pub BitSet : Type 0
  pub with_capacity : ℕ → BitSet
  pub size : BitSet → ℕ
  pub has : BitSet → ℕ → Bool
  pub insert : BitSet → ℕ → Option BitSet
  pub remove : BitSet → ℕ → Option BitSet
  pub union_with : BitSet → BitSet → BitSet
  pub difference_with : BitSet → BitSet → BitSet
  pub same : BitSet → BitSet → Bool
  pub size_empty : (n : ℕ) → size (with_capacity n) ≡ n
  pub has_empty : (n i : ℕ) → has (with_capacity n) i ≡ false
  pub has_out : (s : BitSet) (i : ℕ) → size s ≤ i → has s i ≡ false
  pub insert_in :
      (s : BitSet) (i : ℕ)
      → i < size s
      → (t : BitSet) × (insert s i ≡ some t)
        × (size t ≡ size s)
        × ((j : ℕ) → has t j ≡ ((i == j) || has s j))
  pub insert_out : (s : BitSet) (i : ℕ) → size s ≤ i → insert s i ≡ none
  pub remove_in :
      (s : BitSet) (i : ℕ)
      → i < size s
      → (t : BitSet) × (remove s i ≡ some t)
        × (size t ≡ size s)
        × ((j : ℕ) → has t j ≡ (not (i == j) && has s j))
  pub has_union : (s t : BitSet) (i : ℕ) → has (union_with s t) i ≡ (has s i || has t i)
  pub size_union : (s t : BitSet) → size t ≤ size s → size (union_with s t) ≡ size s
  pub has_difference :
      (s t : BitSet) (i : ℕ) → has (difference_with s t) i ≡ (has s i && not (has t i))
  pub size_difference : (s t : BitSet) → size (difference_with s t) ≡ size s
  pub same_bits : (s t : BitSet) → same s t ≡ true → (i : ℕ) → has s i ≡ has t i
  pub same_of_bits :
      (s t : BitSet) → size s ≡ size t → ((i : ℕ) → has s i ≡ has t i) → same s t ≡ true

-- What follows a call that can panic.
infixl 5 ◌>>=◌
abbrev pub ◌>>=◌ {ℓ κ} : {A : Type ℓ} {B : Type κ} → Option A → (A → Option B) → Option B
none >>= f = none
some a >>= f = f a
