-- ===== src/Vm/Valid/Runs.antt =====
-- Every run keeps the invariant (crates/glyim-bytecode-vm/src/lib.rs, `Vm::drive`).
use glyim_v.Prelude.{IsByte, ℕ, zero, suc, List, [], ◌∷◌, All, All-get_elem?}
use glyim_v.Vm.Opcode.{Opcode}
use glyim_v.Vm.State.{Function, Frame, Module, Vm, VmError, Exec, ok, err, panic, M}
use glyim_v.Vm.Frames.{push_frame}
use glyim_v.Vm.Handlers.{Next, continue, finish}
use glyim_v.Vm.Drive.{
  then_continue, dispatch, fetch, in_frame, no_frame, step, Run, returned, failed, panicked,
  running, drive, drive_from, run_module, u32_max, usize_max,
}
use glyim_v.Vm.Valid.Words.{IsWord}
use glyim_v.Vm.Valid.Ensures.{
  Post, Ensures, Ensures-return, Ensures-throw, Ensures-or_panic, Ensures-or_throw, Ensures-bind,
}
use glyim_v.Vm.Valid.Stacks.{IsValid, Any, top_frame-Ensures, set_pc-Ensures, push_frame-Ensures}
use glyim_v.Vm.Valid.Fetch.{
  exec_load_const-Ensures, exec_load_local-Ensures, exec_store_local-Ensures,
  exec_load_local_addr-Ensures, exec_cast-Ensures, exec_len-Ensures,
}
use glyim_v.Vm.Valid.Stack.{
  exec_store_field-Ensures, exec_deref-Ensures, exec_binop-Ensures, exec_unop-Ensures,
  exec_discriminant-Ensures, exec_repeat-Ensures,
}
use glyim_v.Vm.Valid.Calls.{
  NextWord, pop_or_empty-Ensures, exec_return-Ensures, exec_jump-Ensures, exec_jump_if-Ensures,
  exec_switch_int-Ensures, exec_assert-Ensures, exec_drop-Ensures, exec_aggregate-Ensures,
  exec_call-Ensures,
}

-- The code of every function is a vector of bytes.
abbrev pub IsCode : Module → Type 0
IsCode m = All (λ f. All IsByte f.code) m.functions

then_continue-Ensures :
    (m : Module) (act : M (Unit {0}))
    → Ensures (IsValid m) Any act
    → Ensures (IsValid m) NextWord (then_continue act)
unfolding then_continue
then_continue-Ensures m act h = Ensures-bind h λ _ _. Ensures-return _ continue tt

module _ (m : Module) (f : Function) (bytes : All IsByte f.code) where
  dispatch-Ensures : (op : Opcode) → Ensures (IsValid m) NextWord (dispatch m f op)
  unfolding dispatch
  dispatch-Ensures Opcode.load_const =
      then_continue-Ensures m _ (exec_load_const-Ensures m f.code bytes)
  dispatch-Ensures Opcode.load_local =
      then_continue-Ensures m _ (exec_load_local-Ensures m f.code bytes)
  dispatch-Ensures Opcode.store_local =
      then_continue-Ensures m _ (exec_store_local-Ensures m f.code bytes)
  dispatch-Ensures Opcode.load_local_addr =
      then_continue-Ensures m _ (exec_load_local_addr-Ensures m f.code bytes)
  dispatch-Ensures Opcode.store_field = then_continue-Ensures m _ (exec_store_field-Ensures m)
  dispatch-Ensures Opcode.deref = then_continue-Ensures m _ (exec_deref-Ensures m)
  dispatch-Ensures Opcode.not_op = then_continue-Ensures m _ (exec_unop-Ensures m _)
  dispatch-Ensures Opcode.neg = then_continue-Ensures m _ (exec_unop-Ensures m _)
  dispatch-Ensures Opcode.cast = then_continue-Ensures m _ (exec_cast-Ensures m f.code bytes)
  dispatch-Ensures Opcode.jump = then_continue-Ensures m _ (exec_jump-Ensures m f bytes)
  dispatch-Ensures Opcode.jump_if = then_continue-Ensures m _ (exec_jump_if-Ensures m f bytes)
  dispatch-Ensures Opcode.switch_int = then_continue-Ensures m _ (exec_switch_int-Ensures m f bytes)
  dispatch-Ensures Opcode.assert = then_continue-Ensures m _ (exec_assert-Ensures m f bytes)
  dispatch-Ensures Opcode.len = then_continue-Ensures m _ (exec_len-Ensures m f.code bytes)
  dispatch-Ensures Opcode.discriminant = then_continue-Ensures m _ (exec_discriminant-Ensures m)
  dispatch-Ensures Opcode.aggregate = then_continue-Ensures m _ (exec_aggregate-Ensures m f bytes)
  dispatch-Ensures Opcode.drop_op = then_continue-Ensures m _ (exec_drop-Ensures m f bytes)
  dispatch-Ensures Opcode.repeat = then_continue-Ensures m _ (exec_repeat-Ensures m)
  dispatch-Ensures Opcode.return_op = exec_return-Ensures m
  dispatch-Ensures Opcode.call = then_continue-Ensures m _ (exec_call-Ensures m f bytes)
  dispatch-Ensures Opcode.call_indirect = then_continue-Ensures m _ (exec_call-Ensures m f bytes)
  dispatch-Ensures Opcode.trap = Ensures-throw _ _
  dispatch-Ensures op = then_continue-Ensures m _ (exec_binop-Ensures m op)

  fetch-Ensures : (pc : ℕ) → Ensures (IsValid m) NextWord (fetch m f pc)
  unfolding fetch
  fetch-Ensures pc = Ensures-bind {Q = Any} (Ensures-or_throw _ _ _ λ _ _. tt) λ raw _.
      Ensures-bind {Q = Any} (Ensures-or_throw _ _ _ λ _ _. tt)
        λ op _. Ensures-bind (set_pc-Ensures m _) λ _ _. dispatch-Ensures op

module _ (m : Module) (bytes : IsCode m) where
  in_frame-Ensures : Ensures (IsValid m) NextWord (in_frame m)
  unfolding in_frame
  in_frame-Ensures = Ensures-bind (top_frame-Ensures m) λ fr _.
      Ensures-bind
        (Ensures-or_panic (λ f. All IsByte f.code) _
          λ f e. All-get_elem? (λ f. All IsByte f.code) m.functions fr.func bytes e)
        λ f k. fetch-Ensures m f k fr.pc

  no_frame-Ensures : Ensures (IsValid m) NextWord no_frame
  unfolding no_frame
  no_frame-Ensures = Ensures-bind (pop_or_empty-Ensures m) λ v w. Ensures-return _ (finish v) w

  step-Post :
      (frs : List Frame) (vm : Vm)
      → IsValid m vm
      → Post (IsValid m) NextWord (elim frs [ [] ↦ no_frame vm | _ ∷ _ ↦ in_frame m vm ])
  step-Post [] vm i = no_frame-Ensures.at vm i
  step-Post (_ ∷ _) vm i = in_frame-Ensures.at vm i

  -- Whatever the instruction, a round of the driver keeps the invariant.
  step-Ensures : Ensures (IsValid m) NextWord (step m)
  unfolding step
  step-Ensures = record { at = λ vm i. step-Post vm.frames vm i }

-- What holds where a run stands or has ended.
abbrev pub RunIsValid : Module → Run → Type 0
RunIsValid m (returned v vm) = IsWord v × IsValid m vm
RunIsValid m (failed e vm) = IsValid m vm
RunIsValid m panicked = Unit
RunIsValid m (running vm) = IsValid m vm

module _ (m : Module) (bytes : IsCode m) where
  drive-IsValid : (fuel : ℕ) (vm : Vm) → IsValid m vm → RunIsValid m (drive fuel m vm)
  unfolding drive
  drive-IsValid zero vm i = i
  drive-IsValid (suc fuel) vm i =
      after (step m vm) ((step-Ensures m bytes).at vm i) (drive-IsValid fuel)
    where
      after :
          (r : Exec Next)
          → Post (IsValid m) NextWord r
          → ((vm : Vm) → IsValid m vm → RunIsValid m (drive fuel m vm))
          → RunIsValid m (elim r [
            | ok n vm' ↦ elim n [ continue ↦ drive fuel m vm' | finish v ↦ returned v vm' ]
            | err e vm' ↦ failed e vm'
            | panic ↦ panicked
          ])
      after (ok continue vm) h k = k vm h.1
      after (ok (finish v) vm) h k = h
      after (err e vm) h k = h
      after panic h k = tt

  drive_from-IsValid :
      (fuel : ℕ) (r : Exec (Unit {0})) → Post (IsValid m) Any r → RunIsValid m (drive_from fuel m r)
  drive_from-IsValid fuel (ok _ vm) h = drive-IsValid fuel vm h.1
  drive_from-IsValid fuel (err e vm) h = h
  drive_from-IsValid fuel panic h = tt

-- Run for any number of instructions from a valid machine, a module whose code is bytes leaves,
-- where it stands, returns or fails with an error, but not where it panics, a valid machine: at most `max_call_depth` frames, each running a function of the
-- module with at least that function's local slots and eight memory cells for each, and 64-bit
-- values on the stack and in the slots; the value that it returns is a 64-bit one.
pub run_module-IsValid :
    (fuel : ℕ) (m : Module) (vm : Vm)
    → IsCode m
    → IsValid m vm
    → RunIsValid m (run_module fuel m vm)
unfolding run_module
run_module-IsValid fuel m vm bytes i = started m.functions
  where
    started :
        (fs : List Function)
        → RunIsValid m (elim fs [
          | [] ↦ failed (VmError.function_out_of_bounds 0) vm
          | _ ∷ _ ↦ drive_from fuel m (push_frame m m.entry [] u32_max usize_max vm)
        ])
    started [] = i
    started (_ ∷ _) =
        drive_from-IsValid m bytes fuel _ ((push_frame-Ensures m m.entry [] _ _ tt).at vm i)
