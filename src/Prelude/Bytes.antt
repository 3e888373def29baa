-- ===== src/Prelude/Bytes.antt =====
-- `to_le_bytes` and `from_le_bytes` of the unsigned integers, on byte lists.
use Prim.Native.Nat.{ℕ, zero, suc, ◌+◌, ◌*◌, ◌/◌, ◌%◌, ◌^◌, ◌<◌}
use mathlib.Core.Path.{◌≡◌, refl, sym, ap, ◌∙◌}
use mathlib.Core.List.{List, [], ◌∷◌, ◌++◌, append-nil}
use native.Mathlib.Omega.{arith}
use native.Mathlib.Nat.{pow-suc}
use glyim_v.Prelude.Lists.{length, All}

-- The number of the first `n` bytes; missing bytes count as 0.
abbrev pub from_le_bytes : ℕ → List ℕ → ℕ
from_le_bytes zero bs = 0
from_le_bytes (suc n) [] = 0
from_le_bytes (suc n) (b ∷ bs) = b + 256 * from_le_bytes n bs

abbrev pub to_le_bytes : ℕ → ℕ → List ℕ
to_le_bytes zero v = []
to_le_bytes (suc n) v = (v % 256) ∷ to_le_bytes n (v / 256)

pub length-to_le_bytes : (n v : ℕ) → length (to_le_bytes n v) ≡ n
length-to_le_bytes zero v = refl
length-to_le_bytes (suc n) v = omega (arith, length-to_le_bytes n (v / 256))

-- Reading what was written, whatever follows.
pub from_le_bytes-to_le_bytes :
    (n v : ℕ) (rest : List ℕ) → v < 256 ^ n → from_le_bytes n (to_le_bytes n v ++ rest) ≡ v
from_le_bytes-to_le_bytes zero v rest h = omega arith
from_le_bytes-to_le_bytes (suc n) v rest h = omega (
  arith,
  pow-suc 256 n,
  from_le_bytes-to_le_bytes n (v / 256) rest (omega (arith, pow-suc 256 n)),
)

abbrev pub IsByte : ℕ → Type 0
IsByte b = b < 256

pub from_le_bytes-lt : (n : ℕ) (bs : List ℕ) → All IsByte bs → from_le_bytes n bs < 256 ^ n
from_le_bytes-lt zero bs h = omega arith
from_le_bytes-lt (suc n) [] h = grind (arith, pow-suc 256 n, from_le_bytes-lt n [] tt)
from_le_bytes-lt (suc n) (b ∷ bs) h = omega (arith, pow-suc 256 n, from_le_bytes-lt n bs h.1, h.0)

pub from_le_bytes-to_le_bytes_all : (n v : ℕ) → v < 256 ^ n → from_le_bytes n (to_le_bytes n v) ≡ v
from_le_bytes-to_le_bytes_all n v h =
    ap (from_le_bytes n) (sym (append-nil (to_le_bytes n v))) ∙ from_le_bytes-to_le_bytes n v [] h

pub to_le_bytes-IsByte : (n v : ℕ) → All IsByte (to_le_bytes n v)
to_le_bytes-IsByte zero v = tt
to_le_bytes-IsByte (suc n) v = (omega arith, to_le_bytes-IsByte n (v / 256))
