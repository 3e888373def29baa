-- ===== src/Vm/Code/Bytes.antt =====
-- The machine reads back the operands that `to_le_bytes` wrote into the code
-- (crates/glyim-bytecode-vm/src/lib.rs), and refuses to read past its end.
use glyim_v.Prelude.{
  ℕ, ◌+◌, ◌^◌, ◌≤◌, ◌<◌, ◌≡◌, some, List, ◌++◌, length, length-append, drop, drop-append_length,
  from_le_bytes, to_le_bytes, length-to_le_bytes, from_le_bytes-to_le_bytes, arith, le→ltb_false,
}
use glyim_v.Vm.Code.{read_u32, read_i64}

module _ (before : List ℕ) (n v : ℕ) (rest : List ℕ) where
  room : length before + n ≤ length (before ++ (to_le_bytes n v ++ rest))
  room = omega (
    arith,
    length-append before (to_le_bytes n v ++ rest),
    length-append (to_le_bytes n v) rest,
    length-to_le_bytes n v,
  )

  value :
      v < 256 ^ n → from_le_bytes n (drop (length before) (before ++ (to_le_bytes n v ++ rest))) ≡ v
  value h = rw drop-append_length (from_le_bytes-to_le_bytes n v rest h)

-- A number below `2 ^ 32` that stands anywhere in the code in four little-endian bytes is read back
-- by `read_u32`, and the program counter is behind it.
pub read_u32-to_le_bytes :
    (before : List ℕ) (v : ℕ) (rest : List ℕ)
    → v < 2 ^ 32
    → read_u32 (before ++ (to_le_bytes 4 v ++ rest)) (length before) ≡ some (v, length before + 4)
unfolding read_u32
read_u32-to_le_bytes before v rest h =
    rw (le→ltb_false _ _ (room before 4 v rest)) (rw (value before 4 v rest (omega arith)))

-- A pattern below `2 ^ 64` that stands anywhere in the code in eight little-endian bytes is read back
-- by `read_i64`, and the program counter is behind it.
pub read_i64-to_le_bytes :
    (before : List ℕ) (v : ℕ) (rest : List ℕ)
    → v < 2 ^ 64
    → read_i64 (before ++ (to_le_bytes 8 v ++ rest)) (length before) ≡ some (v, length before + 8)
unfolding read_i64
read_i64-to_le_bytes before v rest h =
    rw (le→ltb_false _ _ (room before 8 v rest)) (rw (value before 8 v rest (omega arith)))
