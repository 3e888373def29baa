-- ===== src/Vm/Code.antt =====
-- Reading operands and resolving targets (crates/glyim-bytecode-vm/src/lib.rs): `Vm::read_u32`,
-- `Vm::read_i64`, `Function::resolve_target`.
pub mod Bytes
use glyim_v.Prelude.{
  from_le_bytes, ℕ, zero, suc, ◌+◌, ◌*◌, Option, none, some, List, [], ◌∷◌, length, get_elem?, drop,
  ltb, if◌then◌else◌,
}
use glyim_v.Vm.State.{Function}

-- The value, and the new program counter; `none` is `UnexpectedEndOfCode`.
unfoldable pub read_u32 : List ℕ → ℕ → Option (ℕ × ℕ)
read_u32 code pc =
    if ltb (length code) (pc + 4) then none else some (from_le_bytes 4 (drop pc code), pc + 4)

unfoldable pub read_i64 : List ℕ → ℕ → Option (ℕ × ℕ)
read_i64 code pc =
    if ltb (length code) (pc + 8) then none else some (from_le_bytes 8 (drop pc code), pc + 8)

-- `none` is the panic of an index out of range.
abbrev resolve_in : List ℕ → ℕ → Option ℕ
resolve_in [] target = some target
resolve_in (o ∷ os) target = get_elem? (o ∷ os) target

unfoldable pub resolve_target : Function → ℕ → Option ℕ
resolve_target f target = resolve_in f.block_offsets target
