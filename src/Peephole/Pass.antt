-- ===== src/Peephole/Pass.antt =====
-- `peephole` (crates/glyim-codegen/src/lib.rs).
use glyim_v.Prelude.{
  ℕ, zero, suc, Bool, true, false, ◌&&◌, List, [], ◌∷◌, length, drop, from_le_bytes, to_le_bytes,
  leb, ◌==◌, if◌then◌else◌,
}
use glyim_v.Peephole.Ops.{op_load_const, op_neg}
use glyim_v.Peephole.Fold.{Folding, folded, not_folded, fold_int_binop, is_foldable_binop}
use glyim_v.Peephole.Instr.{
  Instr, Decoded, decoded, panics, no_fuel, ◌>>=◌, decode_bytecode, encode_bytecode,
}

-- `int_iter.next().unwrap_or(false)`, and the flags behind it.
abbrev pub next_flag : List Bool → Bool
next_flag [] = false
next_flag (b ∷ bs) = b

abbrev pub rest_flags : List Bool → List Bool
rest_flags [] = []
rest_flags (b ∷ bs) = bs

-- What the loop does with the instructions from `k` on: it keeps one, replaces three by one, or
-- drops two; the flags that are left go with it.
pub data Action : Type 0 where
  keep : List Bool → Action
  replace : Instr → List Bool → Action
  cancel crash : Action

abbrev pub constant : ℕ → Instr
constant v = record { op = op_load_const; operand = to_le_bytes 8 v }

abbrev pub folded_action : Folding → List Bool → Action
folded_action (folded r) flags = replace (constant r) (rest_flags flags)
folded_action not_folded flags = keep flags
folded_action Folding.panics flags = crash

-- The second constant's eight bytes are read too.
abbrev pub fold_pair : Instr → Instr → Instr → List Bool → Action
fold_pair x y z flags =
    if leb 8 (length y.operand)
    then folded_action (fold_int_binop z.op (from_le_bytes 8 x.operand) (from_le_bytes 8 y.operand))
        flags
    else crash

-- At a constant that is an integer, `flags` being those behind it.
abbrev pub at_constant : Bool → Instr → List Instr → List Bool → Action
at_constant true x (y ∷ z ∷ _) flags =
    if y.op == op_load_const && next_flag flags && is_foldable_binop z.op
    then fold_pair x y z flags
    else keep flags
at_constant _ x rest flags = keep flags

abbrev pub at_neg : List Instr → List Bool → Action
at_neg [] flags = keep flags
at_neg (y ∷ _) flags = if y.op == op_neg then cancel else keep flags

unfoldable pub action : Instr → List Instr → List Bool → Action
action x rest flags =
    if x.op == op_load_const
    then (if leb 8 (length x.operand)
        then at_constant (next_flag flags) x rest (rest_flags flags)
        else crash)
    else if x.op == op_neg
    then at_neg rest flags
    else keep flags

-- The `while` loop: an instruction leaves the list in each round.
unfoldable pub peephole_loop : ℕ → List Instr → List Bool → Decoded (List Instr)
peephole_loop fuel [] flags = decoded []
peephole_loop zero (x ∷ rest) flags = no_fuel
peephole_loop (suc fuel) (x ∷ rest) flags = elim (action x rest flags) [
  | keep flags' ↦ (do out ← peephole_loop fuel rest flags'; decoded (x ∷ out))
  | replace y flags' ↦ (do out ← peephole_loop fuel (drop 2 rest) flags'; decoded (y ∷ out))
  | cancel ↦ peephole_loop fuel (drop 1 rest) flags
  | crash ↦ panics
]

-- The pass over a function's bytes, with the record of which constants are integers.
unfoldable pub peephole : List ℕ → List Bool → Decoded (List ℕ)
peephole bc flags = do
  instrs ← decode_bytecode (length bc) bc
  out ← peephole_loop (length instrs) instrs flags
  decoded (encode_bytecode out)
