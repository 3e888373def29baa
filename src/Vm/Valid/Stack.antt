-- ===== src/Vm/Valid/Stack.antt =====
-- The arms that compute on the operand stack keep the invariant.
use glyim_v.Prelude.{ℕ, zero, suc, ◌^◌, ◌<◌, [], ◌∷◌, All, All-replicate, arith}
use glyim_v.Vm.Value.{Value, int, tuple, as_int}
use glyim_v.Vm.Opcode.{Opcode}
use glyim_v.Vm.Arith.Bounds.{binop-lt, unop-lt}
use glyim_v.Vm.State.{Function, Module, ◌>>=◌}
use glyim_v.Vm.Frames.{set_pc}
use glyim_v.Vm.Handlers.{
  resolve, pop_int, exec_store_field, exec_deref, exec_binop, exec_unop, exec_discriminant,
  discriminant_of, pop_n, exec_repeat,
}
use glyim_v.Vm.Valid.Words.{IsWord, as_int-lt, IsWord-of_elements}
use glyim_v.Vm.Valid.Fetch.{Below}
use glyim_v.Vm.Valid.Ensures.{Ensures, Ensures-return, Ensures-or_panic, Ensures-bind}
use glyim_v.Vm.Valid.Stacks.{
  IsValid, Any, pop-Ensures, push-Ensures, set_pc-Ensures, read_mem-Ensures, set_mem-Ensures,
}

module _ (m : Module) where
  pub pop_int-Ensures : Ensures (IsValid m) (Below (2 ^ 64)) pop_int
  unfolding pop_int
  pop_int-Ensures = Ensures-bind (pop-Ensures m) λ v h. Ensures-return _ (as_int v) (as_int-lt v h)

  pub resolve-Ensures : (f : Function) (target : ℕ) → Ensures (IsValid m) Any (resolve f target)
  unfolding resolve
  resolve-Ensures f target = Ensures-or_panic _ _ λ _ _. tt

  pub jump_to-Ensures :
      (f : Function) (target : ℕ) → Ensures (IsValid m) Any (resolve f target >>= λ off. set_pc off)
  jump_to-Ensures f target = Ensures-bind (resolve-Ensures f target) λ off _. set_pc-Ensures m off

  pub exec_store_field-Ensures : Ensures (IsValid m) Any exec_store_field
  unfolding exec_store_field
  exec_store_field-Ensures =
      Ensures-bind pop_int-Ensures
        λ addr _. Ensures-bind (pop-Ensures m) λ v h. set_mem-Ensures m addr v h

  pub exec_deref-Ensures : Ensures (IsValid m) Any exec_deref
  unfolding exec_deref
  exec_deref-Ensures =
      Ensures-bind pop_int-Ensures
        λ addr _. Ensures-bind (read_mem-Ensures m addr) λ v h. push-Ensures m v h

  pub exec_binop-Ensures : (op : Opcode) → Ensures (IsValid m) Any (exec_binop op)
  unfolding exec_binop
  exec_binop-Ensures op = Ensures-bind pop_int-Ensures λ b hb. Ensures-bind pop_int-Ensures λ a ha.
      Ensures-bind (Ensures-or_panic (Below (2 ^ 64)) _ λ r e. binop-lt op a b r ha hb e)
        λ r h. push-Ensures m (int r) h

  pub exec_unop-Ensures : (op : Opcode) → Ensures (IsValid m) Any (exec_unop op)
  unfolding exec_unop
  exec_unop-Ensures op = Ensures-bind pop_int-Ensures λ a ha.
      Ensures-bind (Ensures-or_panic (Below (2 ^ 64)) _ λ r e. unop-lt op a r ha e)
        λ r h. push-Ensures m (int r) h

  pub discriminant_of-lt : (v : Value) → discriminant_of v < 2 ^ 64
  discriminant_of-lt (int v) = omega arith
  discriminant_of-lt (tuple es) = omega arith

  pub exec_discriminant-Ensures : Ensures (IsValid m) Any exec_discriminant
  unfolding exec_discriminant
  exec_discriminant-Ensures =
      Ensures-bind (pop-Ensures m) λ v _. push-Ensures m _ (discriminant_of-lt v)

  pub pop_n-Ensures : (n : ℕ) → Ensures (IsValid m) (All IsWord) (pop_n n)
  unfolding pop_n
  pop_n-Ensures zero = Ensures-return _ [] tt
  pop_n-Ensures (suc n) =
      Ensures-bind (pop-Ensures m)
        λ v h. Ensures-bind (pop_n-Ensures n) λ vs k. Ensures-return _ (v ∷ vs) (h, k)

  pub exec_repeat-Ensures : Ensures (IsValid m) Any exec_repeat
  unfolding exec_repeat
  exec_repeat-Ensures = Ensures-bind (pop-Ensures m) λ v h.
      Ensures-bind pop_int-Ensures
        λ count _. push-Ensures m _ (IsWord-of_elements _ (All-replicate IsWord _ v h))
