-- ===== src/Vm/Tests.antt =====
-- Runs of the machine, after the tests of crates/glyim-bytecode-vm/src/lib.rs.
use glyim_v.Vm.Frames.{new_frame, push_frame}
use glyim_v.Vm.Handlers.{continue, exec_return}
use glyim_v.Vm.Protocol.{push_frame-exec_return}
use glyim_v.Prelude.{
  set, IsByte, All, Bool, true, ltb, ◌&&◌, ℕ, ◌+◌, ◌-◌, ◌/◌, ◌%◌, ◌^◌, ◌≡◌, ◌≢◌, ◌↔◌, refl, xor,
  some, List, [], ◌∷◌, ◌++◌, length, to_le_bytes, arith,
}
use glyim_v.Prelude.Int.{◌+ℤ◌, ◌-ℤ◌, ◌≤ℤ◌, ◌<ℤ◌, signed}
use glyim_v.Vm.Value.{int}
use glyim_v.Vm.Opcode.{Opcode, to_u8, from_u8}
use glyim_v.Vm.Opcode.Wire.{from_u8_iff}
use glyim_v.Vm.Arith.{binop, is_negative}
use glyim_v.Vm.Arith.Signed.{
  Fits, Tells, magnitude, of_parts, binop-add_signed, binop-sub_signed, binop_compares,
  binop-div_rem_signed,
}
use glyim_v.Vm.Code.{resolve_target, read_u32, read_i64}
use glyim_v.Vm.Code.Bytes.{read_u32-to_le_bytes, read_i64-to_le_bytes}
use glyim_v.Vm.State.{Function, Frame, ok, ◌>>=◌, ◌>>◌, Module, new}
use glyim_v.Vm.Valid.Runs.{RunIsValid, run_module-IsValid}
use glyim_v.Vm.Drive.{returned, run_module, run, run_chunk, step}

-- (3 + 4) * 2
abbrev arithmetic : List ℕ
arithmetic =
    1 ∷ 3 ∷ 0 ∷ 0 ∷ 0 ∷ 0 ∷ 0 ∷ 0 ∷ 0 ∷ 1 ∷ 4 ∷ 0 ∷ 0 ∷ 0 ∷ 0 ∷ 0 ∷ 0 ∷ 0 ∷ 2 ∷ 1 ∷ 2 ∷ 0 ∷ 0 ∷ 0
    ∷ 0 ∷ 0 ∷ 0 ∷ 0 ∷ 4 ∷ 0x18 ∷ []

arithmetic_runs :
    run_chunk 7 (record { code = arithmetic; n_locals = 0; entry = 0 }) new
    ≡ returned (int 14) (record { stack = []; frames = [] })
unfolding run_chunk
arithmetic_runs = refl

abbrev all_bytes : List ℕ → Bool
all_bytes [] = true
all_bytes (b ∷ bs) = ltb b 256 && all_bytes bs

all_bytes-IsByte : (bs : List ℕ) → all_bytes bs ≡ true → All IsByte bs
all_bytes-IsByte [] e = tt
all_bytes-IsByte (b ∷ bs) e = (ground arith, all_bytes-IsByte bs (ground arith))

-- The first function calls the second on 7 and returns what that returns, its own argument.
abbrev caller : List ℕ
caller =
    1 ∷ 1 ∷ 0 ∷ 0 ∷ 0 ∷ 0 ∷ 0 ∷ 0 ∷ 0 ∷ 1 ∷ 7 ∷ 0 ∷ 0 ∷ 0 ∷ 0 ∷ 0 ∷ 0 ∷ 0 ∷ 0x1b ∷ 1 ∷ 0 ∷ 0 ∷ 0 ∷ 0
    ∷ 0 ∷ 0 ∷ 0 ∷ 31 ∷ 0 ∷ 0 ∷ 0 ∷ 0x16 ∷ 0 ∷ 0 ∷ 0 ∷ 0 ∷ 0x18 ∷ []

abbrev callee : List ℕ
callee = 0x16 ∷ 0 ∷ 0 ∷ 0 ∷ 0 ∷ 0x18 ∷ []

abbrev calls : Module
calls = record {
  functions =
      record { code = caller; n_locals = 1; arg_count = 0; block_offsets = [] }
      ∷ record { code = callee; n_locals = 1; arg_count = 1; block_offsets = [] }
      ∷ [];
  entry = 0;
}

run-calls : run 9 calls ≡ returned (int 7) (record { stack = []; frames = [] })
unfolding run
run-calls = refl

run_module-IsValid_example : RunIsValid calls (run_module 9 calls new)
run_module-IsValid_example =
    run_module-IsValid 9 calls new
      (all_bytes-IsByte caller refl, (all_bytes-IsByte callee refl, tt))
      (record { depth = omega arith; frames = tt; stack = tt })

from_u8_iff_example : (from_u8 2 ≡ some Opcode.add) ↔ (2 ≡ to_u8 Opcode.add)
from_u8_iff_example = from_u8_iff 2 Opcode.add

sum-Fits : Fits (signed (2 ^ 64 - 5) +ℤ signed 3)
unfolding ◌+ℤ◌
sum-Fits = (omega arith, omega arith)

binop-add_signed_example :
    (r : ℕ) × (binop Opcode.add (2 ^ 64 - 5) 3 ≡ some r)
    × (signed r ≡ signed (2 ^ 64 - 5) +ℤ signed 3)
binop-add_signed_example = binop-add_signed (2 ^ 64 - 5) 3 (omega arith) (omega arith) sum-Fits

difference-Fits : Fits (signed 3 -ℤ signed (2 ^ 64 - 5))
unfolding ◌-ℤ◌
difference-Fits = (omega arith, omega arith)

binop-sub_signed_example :
    (r : ℕ) × (binop Opcode.sub 3 (2 ^ 64 - 5) ≡ some r)
    × (signed r ≡ signed 3 -ℤ signed (2 ^ 64 - 5))
binop-sub_signed_example =
    binop-sub_signed 3 (2 ^ 64 - 5) (omega arith) (omega arith) difference-Fits

binop_compares_example :
    Tells (binop Opcode.lt (2 ^ 64 - 5) 3) (signed (2 ^ 64 - 5) <ℤ signed 3)
    × Tells (binop Opcode.gt (2 ^ 64 - 5) 3) (signed 3 <ℤ signed (2 ^ 64 - 5))
    × Tells (binop Opcode.le (2 ^ 64 - 5) 3) (signed (2 ^ 64 - 5) ≤ℤ signed 3)
    × Tells (binop Opcode.ge (2 ^ 64 - 5) 3) (signed 3 ≤ℤ signed (2 ^ 64 - 5))
    × Tells (binop Opcode.eq (2 ^ 64 - 5) 3) (signed (2 ^ 64 - 5) ≡ signed 3)
    × Tells (binop Opcode.ne (2 ^ 64 - 5) 3) (signed (2 ^ 64 - 5) ≢ signed 3)
binop_compares_example = binop_compares (2 ^ 64 - 5) 3 (omega arith) (omega arith)

binop-div_rem_signed_example :
    (q : ℕ) × (r : ℕ) × (binop Opcode.div (2 ^ 64 - 7) 2 ≡ some q)
    × (binop Opcode.rem (2 ^ 64 - 7) 2 ≡ some r)
    × (signed q
        ≡ of_parts
            (xor (is_negative (2 ^ 64 - 7)) (is_negative 2))
            (magnitude (signed (2 ^ 64 - 7)) / magnitude (signed 2)))
    × (signed r
        ≡ of_parts
            (is_negative (2 ^ 64 - 7))
            (magnitude (signed (2 ^ 64 - 7)) % magnitude (signed 2)))
binop-div_rem_signed_example =
    binop-div_rem_signed (2 ^ 64 - 7) 2 (omega arith) (omega arith) (omega arith, λ _. omega arith)

abbrev before : List ℕ
before = 1 ∷ []

read_u32-to_le_bytes_example :
    read_u32 (before ++ (to_le_bytes 4 258 ++ [])) (length before) ≡ some (258, length before + 4)
read_u32-to_le_bytes_example = read_u32-to_le_bytes before 258 [] (omega arith)

read_i64-to_le_bytes_example :
    read_i64 (before ++ (to_le_bytes 8 258 ++ [])) (length before) ≡ some (258, length before + 8)
read_i64-to_le_bytes_example = read_i64-to_le_bytes before 258 [] (omega arith)

abbrev caller_frame : Frame
caller_frame = record {
  locals = int 0 ∷ [];
  mem = [];
  func = 0;
  pc = 31;
  resume_target = 0;
  dest_local = 0;
}

abbrev calling : Function
calling = record { code = caller; n_locals = 1; arg_count = 0; block_offsets = [] }

abbrev called : Function
called = record { code = callee; n_locals = 1; arg_count = 1; block_offsets = [] }

resolves : resolve_target calling 31 ≡ some 31
unfolding resolve_target
resolves = refl

-- The frame of the second function, and that frame when it has loaded its argument.
abbrev called_frame : Frame
called_frame = new_frame 1 1 (int 7 ∷ []) 31 0

loads :
    step calls (record { stack = []; frames = called_frame ∷ caller_frame ∷ [] })
    ≡ ok continue
        (record { stack = int 7 ∷ []; frames = record called_frame { pc = 5 } ∷ caller_frame ∷ [] })
unfolding run
loads = refl

push_frame-exec_return_example :
    (push_frame calls 1 (int 7 ∷ []) 31 0 >> (step calls >>= (λ _. exec_return calls)))
      (record { stack = []; frames = caller_frame ∷ [] })
    ≡ ok continue (record {
      stack = [];
      frames = record caller_frame { locals = set (int 0 ∷ []) 0 (int 7); pc = 31 } ∷ [];
    })
unfolding new_frame
push_frame-exec_return_example =
    push_frame-exec_return calls (step calls) continue 1 (int 7 ∷ []) 31 0 caller_frame
      (record called_frame { pc = 5 }) [] [] [] (int 7) calling called 31 (omega arith) refl refl
      resolves (omega arith) loads refl refl
