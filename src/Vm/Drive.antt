-- ===== src/Vm/Drive.antt =====
-- The driver (crates/glyim-bytecode-vm/src/lib.rs): `Vm::drive`, `Vm::run_module`, `Vm::run` and
-- `Module::run`. The loop runs on fuel, one unit for each instruction.
use glyim_v.Prelude.{ℕ, zero, suc, ◌+◌, ◌-◌, ◌^◌, Option, none, List, [], ◌∷◌, get_elem?}
use glyim_v.Vm.Value.{Value}
use glyim_v.Vm.Opcode.{Opcode, from_u8}
use glyim_v.Vm.State.{
  Function, Module, Vm, VmError, Exec, ok, err, panic, M, ◌>>=◌, ◌>>◌, return, throw, or_panic,
  or_throw, new,
}
use glyim_v.Vm.Frames.{push_frame, set_pc, top_frame}
use glyim_v.Vm.Handlers.{
  Next, continue, finish, pop_or_empty, exec_load_const, exec_load_local, exec_store_local,
  exec_load_local_addr, exec_store_field, exec_deref, exec_binop, exec_unop, exec_cast, exec_jump,
  exec_jump_if, exec_switch_int, exec_assert, exec_len, exec_discriminant, exec_aggregate,
  exec_drop, exec_repeat, exec_return, exec_call, arms,
}

unfoldable pub then_continue : M (Unit {0}) → M Next
then_continue m = do m; return continue

-- The match on the opcode.
unfoldable pub dispatch : Module → Function → Opcode → M Next
dispatch m f Opcode.load_const = then_continue (exec_load_const f.code)
dispatch m f Opcode.load_local = then_continue (exec_load_local f.code)
dispatch m f Opcode.store_local = then_continue (exec_store_local f.code)
dispatch m f Opcode.load_local_addr = then_continue (exec_load_local_addr f.code)
dispatch m f Opcode.store_field = then_continue exec_store_field
dispatch m f Opcode.deref = then_continue exec_deref
dispatch m f Opcode.not_op = then_continue (exec_unop Opcode.not_op)
dispatch m f Opcode.neg = then_continue (exec_unop Opcode.neg)
dispatch m f Opcode.cast = then_continue (exec_cast f.code)
dispatch m f Opcode.jump = then_continue (exec_jump f)
dispatch m f Opcode.jump_if = then_continue (exec_jump_if f)
dispatch m f Opcode.switch_int = then_continue (exec_switch_int f)
dispatch m f Opcode.assert = then_continue (exec_assert f)
dispatch m f Opcode.len = then_continue (exec_len f.code)
dispatch m f Opcode.discriminant = then_continue exec_discriminant
dispatch m f Opcode.aggregate = then_continue (exec_aggregate f.code)
dispatch m f Opcode.drop_op = then_continue (exec_drop f)
dispatch m f Opcode.repeat = then_continue exec_repeat
dispatch m f Opcode.return_op = exec_return m
dispatch m f Opcode.call = then_continue (exec_call m f.code)
dispatch m f Opcode.call_indirect = then_continue (exec_call m f.code)
dispatch m f Opcode.trap = throw VmError.abnormal_termination
-- the arithmetic, logic and comparison opcodes share an arm
dispatch m f op = then_continue (exec_binop op)

-- The driver's reading of one instruction at `pc` of the function `f`.
unfoldable pub fetch : Module → Function → ℕ → M Next
fetch m f pc = do
  raw ← or_throw VmError.unexpected_end_of_code (get_elem? f.code pc)
  op ← or_throw (VmError.unknown_opcode raw) (from_u8 raw)
  set_pc (pc + 1)
  dispatch m f op

unfoldable pub in_frame : Module → M Next
in_frame m = do fr ← top_frame; f ← or_panic (get_elem? m.functions fr.func); fetch m f fr.pc

-- `frames.is_empty()`
unfoldable pub no_frame : M Next
no_frame = do v ← pop_or_empty; return (finish v)

-- One round of the loop.
unfoldable pub step : Module → M Next
step m vm = elim vm.frames [ [] ↦ no_frame vm | _ ∷ _ ↦ in_frame m vm ]

-- A run that has not ended when the fuel is used up is `running`.
pub data Run : Type 0 where
  returned : Value → Vm → Run
  failed : VmError → Vm → Run
  panicked : Run
  running : Vm → Run

unfoldable pub drive : ℕ → Module → Vm → Run
drive zero m vm = running vm
drive (suc fuel) m vm = elim (step m vm) [
  | ok n vm' ↦ elim n [ continue ↦ drive fuel m vm' | finish v ↦ returned v vm' ]
  | err e vm' ↦ failed e vm'
  | panic ↦ panicked
]

-- `u32::MAX` and `usize::MAX`
abbrev pub u32_max : ℕ
u32_max = 2 ^ 32 - 1

abbrev pub usize_max : ℕ
usize_max = 2 ^ 64 - 1

abbrev pub drive_from : ℕ → Module → Exec (Unit {0}) → Run
drive_from fuel m (ok _ vm) = drive fuel m vm
drive_from fuel m (err e vm) = failed e vm
drive_from fuel m panic = panicked

unfoldable pub run_module : ℕ → Module → Vm → Run
run_module fuel m vm = elim m.functions [
  | [] ↦ failed (VmError.function_out_of_bounds 0) vm
  | _ ∷ _ ↦ drive_from fuel m (push_frame m m.entry [] u32_max usize_max vm)
]

-- `Module::run`
unfoldable pub run : ℕ → Module → Run
unfolding run_module drive step in_frame no_frame fetch then_continue dispatch from_u8 arms
run fuel m = run_module fuel m new

-- `Vm::local`: a slot of the top frame.
unfoldable pub local : Vm → ℕ → Option Value
local vm idx = elim vm.frames [ [] ↦ none | fr ∷ _ ↦ get_elem? fr.locals idx ]

-- The single-function interface: `Function::new`, `Chunk` and `Vm::run`.
unfoldable pub function_new : List ℕ → ℕ → ℕ → Function
function_new code n_locals arg_count = record {
  code = code;
  n_locals = n_locals;
  arg_count = arg_count;
  block_offsets = [];
}

pub record Chunk : Type 0 where
  pub code : List ℕ
  pub n_locals : ℕ
  pub entry : ℕ

unfoldable pub run_chunk : ℕ → Chunk → Vm → Run
unfolding function_new run_module drive step in_frame no_frame fetch then_continue dispatch from_u8
    arms
run_chunk fuel chunk vm =
    run_module fuel
      (record { functions = function_new chunk.code chunk.n_locals 0 ∷ []; entry = 0 }) vm
