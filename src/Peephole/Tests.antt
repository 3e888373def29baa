-- ===== src/Peephole/Tests.antt =====
-- The peephole pass (crates/glyim-codegen/src/lib.rs) on `2 + 3`.
use glyim_v.Prelude.{
  ℕ, ◌+◌, ◌*◌, ◌^◌, ◌%◌, ◌≤◌, ◌≡◌, ◌≢◌, ◌↔◌, refl, Bool, true, some, none, List, [], ◌∷◌, length,
  to_le_bytes, from_le_bytes, to_le_bytes-IsByte, arith,
}
use glyim_v.Vm.Opcode.{Opcode, to_u8, from_u8}
use glyim_v.Vm.Arith.{binop}
use glyim_v.Peephole.Ops.{
  op_load_const, op_add, op_assert, op_load_local_addr, op_len, op_store_local,
}
use glyim_v.Peephole.Fold.{folded, not_folded, panics, fold_int_binop, is_foldable_binop}
use glyim_v.Peephole.Agree.{fold_int_binop-binop, binop-fold_int_binop, fold_undefined}
use glyim_v.Peephole.Instr.{
  Instr, decoded, no_fuel, encode_bytecode, decode_operand, decode_bytecode,
}
use glyim_v.Peephole.Pass.{peephole_loop, peephole, action}
use glyim_v.Peephole.Meaning.{exec, exec_all}
use glyim_v.Peephole.Sound.{peephole_loop_sound}
use glyim_v.Peephole.Ends.{peephole-Ends}
use glyim_v.Peephole.Codec.{decode_bytecode-encode, peephole-assert}

abbrev constant : ℕ → Instr
constant v = record { op = op_load_const; operand = to_le_bytes 8 v }

abbrev two_plus_three : List Instr
two_plus_three = constant 2 ∷ constant 3 ∷ record { op = op_add; operand = [] } ∷ []

fold_sum : fold_int_binop (to_u8 Opcode.add) 2 3 ≡ folded 5
unfolding fold_int_binop to_u8
fold_sum = refl

fold_int_binop-binop_example : binop Opcode.add 2 3 ≡ some 5
fold_int_binop-binop_example = fold_int_binop-binop Opcode.add 2 3 5 fold_sum

binop_div : binop Opcode.div 7 2 ≡ some 3
unfolding binop
binop_div = refl

binop-fold_int_binop_example : fold_int_binop (to_u8 Opcode.div) 7 2 ≡ folded 3
binop-fold_int_binop_example =
    binop-fold_int_binop Opcode.div 7 2 3 (λ _. (omega arith, λ _. omega arith)) binop_div

fold_undefined_example :
    (fold_int_binop (to_u8 Opcode.div) 7 0 ≡ not_folded)
    × (fold_int_binop (to_u8 Opcode.rem) 7 0 ≡ panics)
    × (binop Opcode.div 7 0 ≡ some 0)
    × (binop Opcode.rem 7 0 ≡ some 0)
fold_undefined_example = fold_undefined 7 0 (λ d. d.0 refl)

abbrev flags : List Bool
flags = true ∷ true ∷ []

loop_folds : peephole_loop 3 two_plus_three flags ≡ decoded (constant 5 ∷ [])
unfolding peephole_loop action fold_int_binop is_foldable_binop
loop_folds = refl

program_runs : exec_all (λ _ _. none) two_plus_three [] ≡ some (5 ∷ [])
unfolding exec_all exec binop is_foldable_binop from_u8
program_runs = refl

peephole_loop_sound_example : exec_all (λ _ _. none) (constant 5 ∷ []) [] ≡ some (5 ∷ [])
peephole_loop_sound_example =
    peephole_loop_sound (λ _ _. none) (λ _ st st' _ e. cc) 3 two_plus_three flags (constant 5 ∷ [])
      [] (5 ∷ []) (to_le_bytes-IsByte 8 2, (to_le_bytes-IsByte 8 3, (tt, tt))) tt loop_folds
      program_runs

peephole-Ends_example : peephole (encode_bytecode two_plus_three) flags ≢ no_fuel
peephole-Ends_example = peephole-Ends (encode_bytecode two_plus_three) flags

encoded_length : length (encode_bytecode two_plus_three) ≤ 19
unfolding encode_bytecode
encoded_length = omega arith

decode_bytecode-encode_example :
    decode_bytecode 19 (encode_bytecode two_plus_three) ≡ decoded two_plus_three
decode_bytecode-encode_example =
    decode_bytecode-encode 19 two_plus_three ((refl, refl), ((refl, refl), ((refl, refl), tt)))
      encoded_length

peephole-assert_example :
    (out : List ℕ) × (peephole (op_assert ∷ 1 ∷ to_le_bytes 4 40) []
      ≡ decoded (op_assert ∷ 1 ∷ out))
    × (length out ≡ 4)
    × (from_le_bytes 4 out ≡ (1 + 256 * 40) % 2 ^ 32)
    × ((from_le_bytes 4 out ≡ 40) ↔ ((1 + 255 * 40) % 2 ^ 32 ≡ 0))
peephole-assert_example = peephole-assert 1 40 [] (omega arith) (omega arith)

-- LOAD_LOCAL_ADDR of local 2: the bytes of the local are read as four instructions. And LEN, behind which
-- the emitter writes nothing, takes the STORE_LOCAL of local 2 that follows it for its operand.
address_is_misread :
    (decode_bytecode 5 (op_load_local_addr ∷ to_le_bytes 4 2)
      ≡ decoded (
          record { op = op_load_local_addr; operand = [] }
          ∷ record { op = 2; operand = [] }
          ∷ record { op = 0; operand = [] }
          ∷ record { op = 0; operand = [] }
          ∷ record { op = 0; operand = [] }
          ∷ []))
    × (decode_bytecode 6 (op_len ∷ op_store_local ∷ to_le_bytes 4 2)
        ≡ decoded (
            record { op = op_len; operand = op_store_local ∷ 2 ∷ 0 ∷ 0 ∷ [] }
            ∷ record { op = 0; operand = [] }
            ∷ []))
unfolding decode_bytecode decode_operand
address_is_misread = (refl, refl)
