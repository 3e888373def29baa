-- ===== src/Vm/Valid/Words.antt =====
-- Values that fit their type: an i64 is a pattern below 2 ^ 64, a code byte is below 256.
use glyim_v.Prelude.{
  from_le_bytes-lt, ℕ, ◌^◌, ◌<◌, ◌≡◌, some, List, [], ◌∷◌, All, IsByte, drop, All-drop, arith,
}
use glyim_v.Vm.Value.{Value, Values, int, tuple, nil, cons, as_int, elements, of_elements}
use glyim_v.Vm.Code.{read_u32, read_i64}

abbrev mutual
  pub IsWord : Value → Type 0
  IsWord (int v) = v < 2 ^ 64
  IsWord (tuple vs) = AllWord vs

  pub AllWord : Values → Type 0
  AllWord nil = Unit
  AllWord (cons v vs) = IsWord v × AllWord vs

pub as_int-lt : (v : Value) → IsWord v → as_int v < 2 ^ 64
as_int-lt (int v) h = h
as_int-lt (tuple vs) h = omega arith

pub IsWord-of_elements : (vs : List Value) → All IsWord vs → AllWord (of_elements vs)
unfolding of_elements
IsWord-of_elements [] h = tt
IsWord-of_elements (v ∷ vs) h = (h.0, IsWord-of_elements vs h.1)

pub IsWord-elements : (vs : Values) → AllWord vs → All IsWord (elements vs)
unfolding elements
IsWord-elements nil h = tt
IsWord-elements (cons v vs) h = (h.0, IsWord-elements vs h.1)

pub read_u32-lt :
    (code : List ℕ) (pc v pc' : ℕ) → All IsByte code → read_u32 code pc ≡ some (v, pc') → v < 2 ^ 32
unfolding read_u32
read_u32-lt code pc v pc' h e =
    ground (arith, from_le_bytes-lt 4 (drop pc code) (All-drop IsByte pc code h))

pub read_i64-lt :
    (code : List ℕ) (pc v pc' : ℕ) → All IsByte code → read_i64 code pc ≡ some (v, pc') → v < 2 ^ 64
unfolding read_i64
read_i64-lt code pc v pc' h e =
    ground (arith, from_le_bytes-lt 8 (drop pc code) (All-drop IsByte pc code h))
