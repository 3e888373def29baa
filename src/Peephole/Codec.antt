-- ===== src/Peephole/Codec.antt =====
-- Decoding undoes encoding (crates/glyim-codegen/src/lib.rs) for instructions of fixed width other than
-- four, and does not for the `OP_ASSERT` that the backend emits.
use glyim_v.Prelude.{
  ℕ, zero, suc, ◌+◌, ◌*◌, ◌^◌, ◌%◌, ◌≤◌, ◌<◌, ◌≡◌, refl, ap, ◌↔◌, Bool, false, ◌||◌, Option, List,
  [], ◌∷◌, ◌++◌, All, length, length-append, take, drop-append_length, to_le_bytes, from_le_bytes,
  ◌==◌, if◌then◌else◌, arith,
}
use glyim_v.Peephole.Ops.{
  op_load_const, op_load_local, op_store_local, op_load_local_addr, op_jump, op_jump_if, op_len,
  op_discriminant, op_cast, op_assert, op_aggregate, op_call, op_call_indirect, op_switch_int,
}
use glyim_v.Peephole.Instr.{
  Instr, Decoded, decoded, take_bytes, decode_operand, decode_bytecode, encode_bytecode,
}
use glyim_v.Peephole.Pass.{action, peephole_loop, peephole}

-- How many operand bytes the emitter writes behind an opcode; `none` where their number varies or
-- instructions are nested in the operand.
abbrev pub emitted_width : ℕ → Option ℕ
emitted_width op =
    if op == op_load_const
    then Option.some 8
    else if op == op_load_local
        || op == op_store_local
        || op == op_load_local_addr
        || op == op_jump
        || op == op_jump_if
    then Option.some 4
    else if op == op_cast
    then Option.some 1
    else if op == op_assert
    then Option.some 5
    else if op == op_aggregate || op == op_call || op == op_call_indirect || op == op_switch_int
    then Option.none
    else Option.some 0

-- The opcodes of fixed width whose operand the decoder does not read as it is written.
abbrev pub is_misread : ℕ → Bool
is_misread op = op == op_load_local_addr || op == op_len || op == op_discriminant || op == op_assert

-- An instruction of fixed width with a whole operand, of an opcode that is not misread.
abbrev pub IsFixed : Instr → Type 0
IsFixed i = (emitted_width i.op ≡ Option.some (length i.operand)) × (is_misread i.op ≡ false)

take-append_length {ℓ} : {A : Type ℓ} (xs ys : List A) → take (length xs) (xs ++ ys) ≡ xs
take-append_length [] ys = refl
take-append_length (x ∷ xs) ys = ap (λ t. x ∷ t) (take-append_length xs ys)

module _ (decode : List ℕ → Decoded (List Instr)) where
  decode_operand-width :
      (op n : ℕ) (rest : List ℕ)
      → emitted_width op ≡ Option.some n
      → is_misread op ≡ false
      → decode_operand decode rest op ≡ decoded (take_bytes rest n)
  unfolding decode_operand
  decode_operand-width op n rest e read = ground arith

-- Decoding undoes encoding: on the encoding of instructions that are all of a fixed width, with an operand
-- as long as the emitter writes it, and none of them a LOAD_LOCAL_ADDR, LEN, DISCRIMINANT or ASSERT,
-- and with at least as much fuel as there are bytes, the decoder returns them.
pub decode_bytecode-encode :
    (fuel : ℕ) (is : List Instr)
    → All IsFixed is
    → length (encode_bytecode is) ≤ fuel
    → decode_bytecode fuel (encode_bytecode is) ≡ decoded is
unfolding decode_bytecode encode_bytecode
decode_bytecode-encode fuel [] _ h = refl
decode_bytecode-encode zero (i ∷ is) _ h = absurd (omega arith)
decode_bytecode-encode (suc fuel) (i ∷ is) (f, fs) h =
    let tail = encode_bytecode is in
    let taken = take-append_length i.operand tail in
    let dropped = drop-append_length i.operand tail in
    let ih = decode_bytecode-encode fuel is fs (omega (arith, length-append i.operand tail)) in
    simp (
      arith,
      decode_operand-width (decode_bytecode fuel) i.op (length i.operand) (i.operand ++ tail) f.0
          f.1,
      taken,
      dropped,
      ih,
    )

-- The pass on a lone `OP_ASSERT` as the backend emits it, an expected byte `e` and a jump target
-- `t` in four bytes: it returns the opcode, `e` again and then four bytes of the target
-- `(e + 256 * t) % 2 ^ 32`, which is `t` just if `2 ^ 32` divides `e + 255 * t`.
pub peephole-assert :
    (e t : ℕ) (flags : List Bool)
    → e < 256
    → t < 2 ^ 32
    → (out : List ℕ) × (peephole (op_assert ∷ e ∷ to_le_bytes 4 t) flags
        ≡ decoded (op_assert ∷ e ∷ out))
      × (length out ≡ 4)
      × (from_le_bytes 4 out ≡ (e + 256 * t) % 2 ^ 32)
      × ((from_le_bytes 4 out ≡ t) ↔ ((e + 255 * t) % 2 ^ 32 ≡ 0))
unfolding peephole decode_bytecode decode_operand encode_bytecode peephole_loop action
peephole-assert e t flags he ht =
    let target : from_le_bytes 4 (e ∷ take 3 (to_le_bytes 4 t)) ≡ (e + 256 * t) % 2 ^ 32 =
      omega arith in
    (
      e ∷ take 3 (to_le_bytes 4 t),
      refl,
      refl,
      target,
      ((λ same. omega (arith, target, same)), (λ k. omega (arith, target, k))),
    )
