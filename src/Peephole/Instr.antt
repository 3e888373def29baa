-- ===== src/Peephole/Instr.antt =====
-- Decoded instructions, `decode_bytecode`, `decode_operand`, `inner_encoded_len` and
-- `encode_bytecode` (crates/glyim-codegen/src/lib.rs). Each closure call `take(n)` there starts at
-- the same index `i`, and so do the calls here.
use glyim_v.Prelude.{
  ℕ, zero, suc, ◌+◌, ◌||◌, Option, none, some, List, [], ◌∷◌, ◌++◌, length, take, drop,
  from_le_bytes, leb, ◌==◌, if◌then◌else◌,
}
use glyim_v.Peephole.Ops.{
  op_load_const, op_load_local, op_store_local, op_jump, op_jump_if, op_len, op_discriminant,
  op_cast, op_assert, op_aggregate, op_call, op_call_indirect, op_switch_int,
}

pub record Instr : Type 0 where
  pub op : ℕ
  pub operand : List ℕ

unfoldable pub inner_encoded_len : Instr → ℕ
inner_encoded_len instr = 1 + length instr.operand

unfoldable pub encode_bytecode : List Instr → List ℕ
encode_bytecode [] = []
encode_bytecode (instr ∷ instrs) = instr.op ∷ (instr.operand ++ encode_bytecode instrs)

-- What a decoding leaves: `panics` is a slice out of range, `no_fuel` a loop of the model cut off.
pub data Decoded {ℓ} (A : Type ℓ) : Type ℓ where
  decoded : A → Decoded A
  panics no_fuel : Decoded A

infixl 5 ◌>>=◌
abbrev pub ◌>>=◌ {ℓ κ} : {A : Type ℓ} {B : Type κ} → Decoded A → (A → Decoded B) → Decoded B
decoded a >>= f = f a
panics >>= f = panics
no_fuel >>= f = no_fuel

-- An operand with the bytes that it consumes.
abbrev pub Operand : Type 0
Operand = List ℕ × ℕ

-- `take(n)` at the start `rest` of the operand: the bytes, and how many there were.
abbrev pub take_bytes : List ℕ → ℕ → Operand
take_bytes rest n = (take n rest, length (take n rest))

-- `OP_ASSERT`
abbrev pub assert_operand : List ℕ → Operand
assert_operand rest =
    let (a, c1) = take_bytes rest 1 in let (b, c2) = take_bytes rest 4 in (a ++ b, c1 + c2)

-- The loop over the pairs of `OP_SWITCH_INT`.
unfoldable pub switch_pairs : List ℕ → ℕ → Operand → Operand
switch_pairs rest zero (v, consumed) = (v, consumed)
switch_pairs rest (suc count) (v, consumed) =
    let (pair, c) = take_bytes rest 12 in switch_pairs rest count (v ++ pair, consumed + c)

abbrev pub switch_operand : List ℕ → Operand
switch_operand rest =
    let cnt_bytes = take 4 rest in
    if length cnt_bytes == 4
    then (let (v, consumed) = switch_pairs rest (from_le_bytes 4 cnt_bytes) (cnt_bytes, 4) in
        let (otherwise, c) = take_bytes rest 4 in (v ++ otherwise, consumed + c))
    else (cnt_bytes, 4)

-- One inner instruction of `OP_AGGREGATE` and `OP_CALL`: the first of those decoded from `at` on.
abbrev pub inner_slice : List ℕ → Operand → List Instr → Decoded (Option Operand)
inner_slice at (v, consumed) [] = decoded none
inner_slice at (v, consumed) (first ∷ _) =
    let used = inner_encoded_len first in
    if leb used (length at) then decoded (some (v ++ take used at, consumed + used)) else panics

-- The loop over the inner instructions, over the decoder of a byte stream.
unfoldable pub inner_instrs :
    (List ℕ → Decoded (List Instr)) → List ℕ → ℕ → Operand → Decoded Operand
inner_instrs decode rest zero acc = decoded acc
inner_instrs decode rest (suc count) (v, consumed) =
    let at = drop consumed rest in
    let more = (do
      inner ← decode at
      next ← inner_slice at (v, consumed) inner
      elim next [ none ↦ decoded (v, consumed) | some acc ↦ inner_instrs decode rest count acc ]) in
    if leb (length rest) consumed then decoded (v, consumed) else more

unfoldable pub decode_operand : (List ℕ → Decoded (List Instr)) → List ℕ → ℕ → Decoded Operand
decode_operand decode rest op =
    let counted = take 4 rest in
    let count = from_le_bytes 4 counted in
    if op == op_load_const
    then decoded (take_bytes rest 8)
    else if op == op_load_local
        || op == op_store_local
        || op == op_jump
        || op == op_jump_if
        || op == op_len
        || op == op_discriminant
    then decoded (take_bytes rest 4)
    else if op == op_cast
    then decoded (take_bytes rest 1)
    else if op == op_assert
    then decoded (assert_operand rest)
    else if op == op_aggregate
    then (if length counted == 4
        then inner_instrs decode rest count (counted, 4)
        else decoded (counted, 4))
    else if op == op_call || op == op_call_indirect
    then (if length counted == 4
        then (do
          acc ← inner_instrs decode rest count (counted, 4)
          let last = take_bytes rest 8
          decoded (acc.0 ++ last.0, acc.1 + last.1))
        else decoded (counted, 4))
    else if op == op_switch_int
    then decoded (switch_operand rest)
    else decoded ([], 0)

-- The loop of `decode_bytecode`; an inner stream is shorter, so one fuel serves for both.
unfoldable pub decode_bytecode : ℕ → List ℕ → Decoded (List Instr)
decode_bytecode fuel [] = decoded []
decode_bytecode zero (op ∷ rest) = no_fuel
decode_bytecode (suc fuel) (op ∷ rest) = do
  r ← decode_operand (decode_bytecode fuel) rest op
  instrs ← decode_bytecode fuel (drop r.1 rest)
  decoded (record { op = op; operand = r.0 } ∷ instrs)
