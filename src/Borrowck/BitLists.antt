-- ===== src/Borrowck/BitLists.antt =====
-- Sets of indices as lists of bits: what `FixedBitSet` is taken for can be had.
use glyim_v.Prelude.{
  ℕ, zero, suc, ◌≤◌, ◌<◌, ◌≡◌, refl, ap, ◌∙◌, Bool, true, false, ◌&&◌, ◌||◌, not, Option, none,
  some, List, [], ◌∷◌, length, length-set, length-replicate, set, replicate, ltb, ◌==◌,
  if◌then◌else◌, arith,
}
use glyim_v.Borrowck.BitSets.{BitSets}
use glyim_v.Borrowck.Worklist.{at}
use glyim_v.Borrowck.Liveness.Edges.{at-replicate}

abbrev bit : List Bool → ℕ → Bool
bit s i = at false s i

abbrev write_bit : Bool → List Bool → ℕ → Option (List Bool)
write_bit v s i = if ltb i (length s) then some (set s i v) else none

abbrev union : List Bool → List Bool → List Bool
union [] t = t
union (x ∷ s) [] = x ∷ s
union (x ∷ s) (y ∷ t) = (x || y) ∷ union s t

abbrev difference : List Bool → List Bool → List Bool
difference [] t = []
difference (x ∷ s) [] = x ∷ s
difference (x ∷ s) (y ∷ t) = (x && not y) ∷ difference s t

abbrev same_bit : Bool → Bool → Bool
same_bit true b = b
same_bit false b = not b

abbrev equal : List Bool → List Bool → Bool
equal [] [] = true
equal [] (y ∷ t) = false
equal (x ∷ s) [] = false
equal (x ∷ s) (y ∷ t) = same_bit x y && equal s t

pub bit_out : (s : List Bool) (i : ℕ) → length s ≤ i → bit s i ≡ false
bit_out [] i h = refl
bit_out (x ∷ s) zero h = absurd (omega arith)
bit_out (x ∷ s) (suc i) h = bit_out s i (omega arith)

bit-set :
    (v : Bool) (s : List Bool) (i j : ℕ)
    → i < length s
    → bit (set s i v) j ≡ (if i == j then v else bit s j)
bit-set v [] i j h = absurd (omega arith)
bit-set v (x ∷ s) zero zero h = refl
bit-set v (x ∷ s) zero (suc j) h = ground arith
bit-set v (x ∷ s) (suc i) zero h = ground arith
bit-set v (x ∷ s) (suc i) (suc j) h = ground (arith, bit-set v s i j (omega arith))

pub write_bit_in :
    (v : Bool) (s : List Bool) (i : ℕ)
    → i < length s
    → (t : List Bool) × (write_bit v s i ≡ some t)
      × (length t ≡ length s)
      × ((j : ℕ) → bit t j ≡ (if i == j then v else bit s j))
write_bit_in v s i h = (set s i v, ground arith, length-set s i v, λ j. bit-set v s i j h)

pub write_bit_out : (v : Bool) (s : List Bool) (i : ℕ) → length s ≤ i → write_bit v s i ≡ none
write_bit_out v s i h = ground arith

pub bit-union : (s t : List Bool) (i : ℕ) → bit (union s t) i ≡ (bit s i || bit t i)
bit-union [] t i = refl
bit-union (x ∷ s) [] i = ground arith
bit-union (x ∷ s) (y ∷ t) zero = refl
bit-union (x ∷ s) (y ∷ t) (suc i) = bit-union s t i

pub length-union : (s t : List Bool) → length t ≤ length s → length (union s t) ≡ length s
length-union [] [] h = refl
length-union [] (y ∷ t) h = absurd (omega arith)
length-union (x ∷ s) [] h = refl
length-union (x ∷ s) (y ∷ t) h = ap suc (length-union s t (omega arith))

pub bit-difference : (s t : List Bool) (i : ℕ) → bit (difference s t) i ≡ (bit s i && not (bit t i))
bit-difference [] t i = refl
bit-difference (x ∷ s) [] i = ground arith
bit-difference (x ∷ s) (y ∷ t) zero = refl
bit-difference (x ∷ s) (y ∷ t) (suc i) = bit-difference s t i

pub length-difference : (s t : List Bool) → length (difference s t) ≡ length s
length-difference [] t = refl
length-difference (x ∷ s) [] = refl
length-difference (x ∷ s) (y ∷ t) = ap suc (length-difference s t)

pub equal_bits : (s t : List Bool) → equal s t ≡ true → (i : ℕ) → bit s i ≡ bit t i
equal_bits [] [] h i = refl
equal_bits [] (y ∷ t) h i = cc
equal_bits (x ∷ s) [] h i = cc
equal_bits (x ∷ s) (y ∷ t) h zero = ground arith
equal_bits (x ∷ s) (y ∷ t) h (suc i) = equal_bits s t (ground arith) i

pub equal_of_bits :
    (s t : List Bool) → length s ≡ length t → ((i : ℕ) → bit s i ≡ bit t i) → equal s t ≡ true
equal_of_bits [] [] e h = refl
equal_of_bits [] (y ∷ t) e h = absurd (omega arith)
equal_of_bits (x ∷ s) [] e h = absurd (omega arith)
equal_of_bits (x ∷ s) (y ∷ t) e h =
    ground (arith, equal_of_bits s t (omega arith) (λ i. h (suc i)), h 0)

pub if_true : (b c : Bool) → (if b then true else c) ≡ (b || c)
if_true b c = ground arith

pub if_false : (b c : Bool) → (if b then false else c) ≡ (not b && c)
if_false b c = ground arith

abbrev pub bit_lists : BitSets
bit_lists = record {
  BitSet = List Bool;
  with_capacity = λ n. replicate n false;
  size = λ s. length s;
  has = bit;
  insert = write_bit true;
  remove = write_bit false;
  union_with = union;
  difference_with = difference;
  same = equal;
  size_empty = λ n. length-replicate n false;
  has_empty = at-replicate false;
  has_out = bit_out;
  insert_in = λ s i h.
      let (t, e, n, bits) = write_bit_in true s i h in
      (t, e, n, λ j. bits j ∙ if_true (i == j) (bit s j));
  insert_out = write_bit_out true;
  remove_in = λ s i h.
      let (t, e, n, bits) = write_bit_in false s i h in
      (t, e, n, λ j. bits j ∙ if_false (i == j) (bit s j));
  has_union = bit-union;
  size_union = length-union;
  has_difference = bit-difference;
  size_difference = length-difference;
  same_bits = equal_bits;
  same_of_bits = equal_of_bits;
}
