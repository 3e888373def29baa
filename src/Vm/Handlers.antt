-- ===== src/Vm/Handlers.antt =====
-- The arms of the match in `Vm::drive` (crates/glyim-bytecode-vm/src/lib.rs), one function each. An
-- arm starts with the program counter behind the opcode.
use glyim_v.Prelude.{
  ℕ, zero, suc, ◌+◌, ◌%◌, ◌^◌, xor, not, Option, none, some, List, [], ◌∷◌, length, get_elem?, set,
  replicate, reverse, ltb, ◌==◌, if◌then◌else◌,
}
use glyim_v.Vm.Value.{Value, int, tuple, as_int, elements, of_elements}
use glyim_v.Vm.Opcode.{Opcode}
use glyim_v.Vm.Arith.{binop, unop, is_negative}
use glyim_v.Vm.State.{
  Function, Frame, Module, VmError, Exec, ok, err, panic, M, ◌>>=◌, ◌>>◌, return, throw, or_panic,
  or_throw,
}
use glyim_v.Vm.Code.{read_u32, read_i64, resolve_target}
use glyim_v.Vm.Frames.{
  push_frame, pop, push, top_frame, put_frame, set_pc, local_ref, set_local, read_mem, set_mem,
  methods,
}

-- A value that was read, with the program counter behind it.
unfoldable pub advance : ℕ × ℕ → M ℕ
advance (v, pc) = do set_pc pc; return v

-- `Vm::read_u32(code, &mut self.frames[frame_idx].pc)?`
unfoldable pub fetch_u32 : List ℕ → M ℕ
fetch_u32 code = do
  fr ← top_frame
  r ← or_throw VmError.unexpected_end_of_code (read_u32 code fr.pc)
  advance r

unfoldable pub fetch_i64 : List ℕ → M ℕ
fetch_i64 code = do
  fr ← top_frame
  r ← or_throw VmError.unexpected_end_of_code (read_i64 code fr.pc)
  advance r

-- `code[self.frames[frame_idx].pc]` and the increment behind it
unfoldable pub fetch_u8 : List ℕ → M ℕ
fetch_u8 code = do fr ← top_frame; b ← or_panic (get_elem? code fr.pc); set_pc (fr.pc + 1); return b

unfoldable pub resolve : Function → ℕ → M ℕ
resolve f target = or_panic (resolve_target f target)

-- `self.pop()?.as_int()`
unfoldable pub pop_int : M ℕ
pop_int = do v ← pop; return (as_int v)

unfoldable pub exec_load_const : List ℕ → M (Unit {0})
exec_load_const code = do v ← fetch_i64 code; push (int v)

unfoldable pub exec_load_local : List ℕ → M (Unit {0})
exec_load_local code = do idx ← fetch_u32 code; v ← local_ref idx; push v

unfoldable pub exec_store_local : List ℕ → M (Unit {0})
exec_store_local code = do idx ← fetch_u32 code; v ← pop; set_local idx v

unfoldable pub exec_load_local_addr : List ℕ → M (Unit {0})
exec_load_local_addr code = do idx ← fetch_u32 code; push (int idx)

unfoldable pub exec_store_field : M (Unit {0})
exec_store_field = do addr ← pop_int; v ← pop; set_mem addr v

unfoldable pub exec_deref : M (Unit {0})
exec_deref = do addr ← pop_int; v ← read_mem addr; push v

unfoldable pub exec_binop : Opcode → M (Unit {0})
exec_binop op = do b ← pop_int; a ← pop_int; r ← or_panic (binop op a b); push (int r)

unfoldable pub exec_unop : Opcode → M (Unit {0})
exec_unop op = do a ← pop_int; r ← or_panic (unop op a); push (int r)

unfoldable pub exec_cast : List ℕ → M (Unit {0})
exec_cast code = do _kind ← fetch_u8 code; return tt

unfoldable pub exec_jump : Function → M (Unit {0})
exec_jump f = do target ← fetch_u32 f.code; off ← resolve f target; set_pc off

unfoldable pub exec_jump_if : Function → M (Unit {0})
exec_jump_if f = do
  target ← fetch_u32 f.code
  off ← resolve f target
  cond ← pop_int
  if cond == 0 then return tt else set_pc off

-- The last arm with the value wins.
unfoldable pub switch_arms : List ℕ → ℕ → ℕ → Option ℕ → M (Option ℕ)
switch_arms code discr zero taken = return taken
switch_arms code discr (suc count) taken = do
  v ← fetch_i64 code
  t ← fetch_u32 code
  switch_arms code discr count (if v == discr then some t else taken)

abbrev switch_target : Option ℕ → ℕ → ℕ
switch_target none otherwise = otherwise
switch_target (some t) otherwise = t

unfoldable pub exec_switch_int : Function → M (Unit {0})
exec_switch_int f = do
  discr ← pop_int
  count ← fetch_u32 f.code
  taken ← switch_arms f.code discr count none
  otherwise ← fetch_u32 f.code
  off ← resolve f (switch_target taken otherwise)
  set_pc off

unfoldable pub exec_assert : Function → M (Unit {0})
exec_assert f = do
  expected ← fetch_u8 f.code
  target ← fetch_u32 f.code
  cond ← pop_int
  if xor (not (cond == 0)) (not (expected == 0))
      then throw VmError.assertion_failed
      else (do off ← resolve f target; set_pc off)

unfoldable pub exec_len : List ℕ → M (Unit {0})
exec_len code = do _local ← fetch_u32 code; push (int 0)

-- `elems.len() as i64`
abbrev pub discriminant_of : Value → ℕ
discriminant_of (tuple es) = length (elements es) % 2 ^ 64
discriminant_of (int _) = 0

unfoldable pub exec_discriminant : M (Unit {0})
exec_discriminant = do v ← pop; push (int (discriminant_of v))

-- The popped values, the first popped first.
unfoldable pub pop_n : ℕ → M (List Value)
pop_n zero = return []
pop_n (suc n) = do v ← pop; vs ← pop_n n; return (v ∷ vs)

unfoldable pub exec_aggregate : List ℕ → M (Unit {0})
exec_aggregate code = do
  n ← fetch_u32 code
  elems ← pop_n n
  push (tuple (of_elements (reverse elems)))

unfoldable pub exec_drop : Function → M (Unit {0})
exec_drop f = do _addr ← pop; target ← fetch_u32 f.code; off ← resolve f target; set_pc off

unfoldable pub exec_repeat : M (Unit {0})
exec_repeat = do
  value ← pop
  count ← pop_int
  push (tuple (of_elements (replicate (if is_negative count then 0 else count) value)))

-- `self.pop().map_err(|_| VmError::EmptyReturn)`
unfoldable pub pop_or_empty : M Value
pop_or_empty vm = elim (pop vm) [
  | ok v vm' ↦ ok v vm'
  | err _ vm' ↦ err VmError.empty_return vm'
  | panic ↦ panic
]

-- Whether the loop of `drive` goes on, or the machine has its result.
pub data Next : Type 0 where
  continue : Next
  finish : Value → Next

-- The caller of a frame that has returned: its slot, if it has it, and where it resumes.
unfoldable pub resume_caller : ℕ → Value → ℕ → Frame → Frame
resume_caller dest retval pc caller =
    if ltb dest (length caller.locals)
    then record caller { locals = set caller.locals dest retval; pc = pc }
    else record caller { pc = pc }

-- `frames.pop().unwrap()`, `frames.is_empty()` and what is done with the caller.
unfoldable pub resume : Module → Value → Frame → M Next
resume m retval finished = do
  caller ← top_frame
  f ← or_panic (get_elem? m.functions caller.func)
  pc ← resolve f finished.resume_target
  put_frame (resume_caller finished.dest_local retval pc caller)
  return continue

abbrev pub return_to : Module → Value → List Frame → M Next
return_to m retval [] vm = Exec.panic
return_to m retval (finished ∷ []) vm = ok (finish retval) (record vm { frames = [] })
return_to m retval (finished ∷ caller ∷ rest) vm =
    resume m retval finished (record vm { frames = caller ∷ rest })

unfoldable pub pop_frame : Module → Value → M Next
pop_frame m retval vm = return_to m retval vm.frames vm

unfoldable pub exec_return : Module → M Next
exec_return m = do retval ← pop_or_empty; pop_frame m retval

unfoldable pub exec_call : Module → List ℕ → M (Unit {0})
exec_call m code = do
  argc ← fetch_u32 code
  dest_local ← fetch_u32 code
  target ← fetch_u32 code
  args ← pop_n argc
  fn_idx ← pop_int
  push_frame m fn_idx (reverse args) target dest_local

-- To name on an `unfolding` line: the arms above, opened.
unfoldable pub arms : Unit {0}
unfolding methods or_panic read_u32 read_i64 resolve_target binop unop advance fetch_u32 fetch_i64
    fetch_u8 resolve pop_int exec_load_const exec_load_local exec_store_local exec_load_local_addr
    exec_store_field exec_deref exec_binop exec_unop exec_cast exec_jump exec_jump_if switch_arms
    exec_switch_int exec_assert exec_len exec_discriminant pop_n exec_aggregate exec_drop
    exec_repeat pop_or_empty resume_caller resume pop_frame exec_return exec_call elements
    of_elements
arms = tt
