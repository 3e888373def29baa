-- ===== src/Vm/Valid/Calls.antt =====
-- Jumps, calls and returns keep the invariant.
use glyim_v.Prelude.{
  IsByte, ℕ, ◌≤◌, ◌≡◌, refl, none, List, [], ◌∷◌, All, All-reverse, All-set, length, length-set,
  set, reverse, if_either, arith,
}
use glyim_v.Vm.Value.{Value}
use glyim_v.Vm.State.{Function, Frame, Module, Vm, VmError, Exec, ok, err, panic, max_call_depth}
use glyim_v.Vm.Frames.{pop}
use glyim_v.Vm.Handlers.{
  Next, continue, finish, exec_jump, exec_jump_if, exec_switch_int, exec_assert, exec_aggregate,
  exec_drop, pop_or_empty, resume_caller, resume, return_to, pop_frame, exec_return, exec_call,
}
use glyim_v.Vm.Valid.Words.{IsWord, IsWord-of_elements}
use glyim_v.Vm.Valid.Fetch.{fetch_u32-Ensures, fetch_u8-Ensures, switch_arms-Ensures}
use glyim_v.Vm.Valid.Stack.{pop_int-Ensures, pop_n-Ensures, resolve-Ensures, jump_to-Ensures}
use glyim_v.Vm.Valid.Ensures.{
  Post, Ensures, Ensures-return, Ensures-throw, Ensures-or_panic, Ensures-if, Ensures-bind,
}
use glyim_v.Vm.Valid.Stacks.{
  IsFrame, IsValid, Any, top_frame-Ensures, put_frame-Ensures, pop-Ensures, push-Ensures,
  set_pc-Ensures, push_frame-Ensures,
}

-- A result of the driver is a 64-bit value.
abbrev pub NextWord : Next → Type 0
NextWord continue = Unit
NextWord (finish v) = IsWord v

module _ (m : Module) where
  pub pop_or_empty-Ensures : Ensures (IsValid m) IsWord pop_or_empty
  unfolding pop_or_empty
  pop_or_empty-Ensures = record { at = λ vm v. mapped (pop vm) ((pop-Ensures m).at vm v) }
    where
      mapped :
          (r : Exec Value)
          → Post (IsValid m) IsWord r
          → Post (IsValid m) IsWord (elim r [
            | ok v vm ↦ ok v vm
            | err _ vm ↦ err VmError.empty_return vm
            | panic ↦ panic
          ])
      mapped (ok v vm) h = h
      mapped (err e vm) h = h
      mapped panic h = tt

  pub resume_caller-IsFrame :
      (dest : ℕ) (v : Value) (pc : ℕ) (fr : Frame)
      → IsWord v
      → IsFrame m fr
      → IsFrame m (resume_caller dest v pc fr)
  unfolding resume_caller
  resume_caller-IsFrame dest v pc fr w h =
      if_either (IsFrame m) _ _ _
        (moved (set fr.locals dest v) (length-set fr.locals dest v)
          (All-set IsWord fr.locals dest v h.locals_word w))
        (moved fr.locals refl h.locals_word)
    where
      moved :
          (locals : List Value)
          → length locals ≡ length fr.locals
          → All IsWord locals
          → IsFrame m (record fr { locals = locals; pc = pc })
      moved locals size k = record {
        runs = h.runs;
        exists = h.exists;
        locals_fit = omega (arith, h.locals_fit);
        mem_fit = omega (arith, h.mem_fit);
        locals_word = k;
        mem_word = h.mem_word;
      }

  pub resume-Ensures :
      (v : Value) (finished : Frame) → IsWord v → Ensures (IsValid m) NextWord (resume m v finished)
  unfolding resume
  resume-Ensures v finished w = Ensures-bind (top_frame-Ensures m) λ caller h.
      Ensures-bind {Q = Any} (Ensures-or_panic _ _ λ _ _. tt) λ f _.
        Ensures-bind (resolve-Ensures m f _) λ pc _.
          Ensures-bind (put_frame-Ensures m _ (resume_caller-IsFrame _ v pc caller w h))
            λ _ _. Ensures-return _ continue tt

  pub return_to-Post :
      (v : Value) (frs : List Frame) (vm : Vm)
      → IsWord v
      → IsValid m vm
      → length frs ≤ max_call_depth
      → All (IsFrame m) frs
      → Post (IsValid m) NextWord (return_to m v frs vm)
  return_to-Post v [] vm w i d h = tt
  return_to-Post v (fr ∷ []) vm w i d h =
      (w, record { depth = omega arith; frames = tt; stack = i.stack })
  return_to-Post v (fr ∷ caller ∷ rest) vm w i d h =
      (resume-Ensures v fr w).at _ (record { depth = omega arith; frames = h.1; stack = i.stack })

  pub exec_return-Ensures : Ensures (IsValid m) NextWord (exec_return m)
  unfolding exec_return pop_frame
  exec_return-Ensures =
      Ensures-bind pop_or_empty-Ensures
        λ v w. record { at = λ vm i. return_to-Post v vm.frames vm w i i.depth i.frames }

module _ (m : Module) (f : Function) (bytes : All IsByte f.code) where
  pub exec_jump-Ensures : Ensures (IsValid m) Any (exec_jump f)
  unfolding exec_jump
  exec_jump-Ensures = Ensures-bind (fetch_u32-Ensures m f.code bytes) λ t _. jump_to-Ensures m f t

  pub exec_jump_if-Ensures : Ensures (IsValid m) Any (exec_jump_if f)
  unfolding exec_jump_if
  exec_jump_if-Ensures = Ensures-bind (fetch_u32-Ensures m f.code bytes) λ t _.
      Ensures-bind (resolve-Ensures m f t) λ off _.
        Ensures-bind (pop_int-Ensures m)
          λ cond _. Ensures-if _ _ _ _ (Ensures-return _ tt tt) (set_pc-Ensures m off)

  pub exec_switch_int-Ensures : Ensures (IsValid m) Any (exec_switch_int f)
  unfolding exec_switch_int
  exec_switch_int-Ensures = Ensures-bind (pop_int-Ensures m) λ discr _.
      Ensures-bind (fetch_u32-Ensures m f.code bytes) λ count _.
        Ensures-bind (switch_arms-Ensures m f.code bytes discr count none) λ taken _.
          Ensures-bind (fetch_u32-Ensures m f.code bytes) λ otherwise _. jump_to-Ensures m f _

  pub exec_assert-Ensures : Ensures (IsValid m) Any (exec_assert f)
  unfolding exec_assert
  exec_assert-Ensures = Ensures-bind (fetch_u8-Ensures m f.code bytes) λ expected _.
      Ensures-bind (fetch_u32-Ensures m f.code bytes) λ t _.
        Ensures-bind (pop_int-Ensures m)
          λ cond _. Ensures-if _ _ _ _ (Ensures-throw _ _) (jump_to-Ensures m f t)

  pub exec_drop-Ensures : Ensures (IsValid m) Any (exec_drop f)
  unfolding exec_drop
  exec_drop-Ensures =
      Ensures-bind (pop-Ensures m)
        λ _ _. Ensures-bind (fetch_u32-Ensures m f.code bytes) λ t _. jump_to-Ensures m f t

  pub exec_aggregate-Ensures : Ensures (IsValid m) Any (exec_aggregate f.code)
  unfolding exec_aggregate
  exec_aggregate-Ensures = Ensures-bind (fetch_u32-Ensures m f.code bytes) λ n _.
      Ensures-bind (pop_n-Ensures m n)
        λ vs h. push-Ensures m _ (IsWord-of_elements _ (All-reverse IsWord vs h))

  pub exec_call-Ensures : Ensures (IsValid m) Any (exec_call m f.code)
  unfolding exec_call
  exec_call-Ensures = Ensures-bind (fetch_u32-Ensures m f.code bytes) λ argc _.
      Ensures-bind (fetch_u32-Ensures m f.code bytes) λ dest _.
        Ensures-bind (fetch_u32-Ensures m f.code bytes) λ t _.
          Ensures-bind (pop_n-Ensures m argc) λ args h. Ensures-bind (pop_int-Ensures m) λ fn_idx _.
            push_frame-Ensures m fn_idx (reverse args) t dest (All-reverse IsWord args h)
