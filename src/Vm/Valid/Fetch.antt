-- ===== src/Vm/Valid/Fetch.antt =====
-- Reading operands, and the arms that only read the code and the stacks, keep the invariant.
use glyim_v.Prelude.{IsByte, ℕ, zero, suc, ◌^◌, ◌<◌, Option, List, All, arith}
use glyim_v.Vm.Value.{int}
use glyim_v.Vm.State.{Module}
use glyim_v.Vm.Handlers.{
  advance, fetch_u32, fetch_i64, fetch_u8, exec_load_const, exec_load_local, exec_store_local,
  exec_load_local_addr, exec_cast, switch_arms, exec_len,
}
use glyim_v.Vm.Valid.Words.{read_u32-lt, read_i64-lt}
use glyim_v.Vm.Valid.Ensures.{
  Ensures, Ensures-return, Ensures-or_panic, Ensures-or_throw, Ensures-bind,
}
use glyim_v.Vm.Valid.Stacks.{
  IsValid, Any, top_frame-Ensures, pop-Ensures, push-Ensures, set_pc-Ensures, local_ref-Ensures,
  set_local-Ensures,
}

abbrev pub Below : ℕ → ℕ → Type 0
Below n v = v < n

module _ (m : Module) (code : List ℕ) (bytes : All IsByte code) where
  pub fetch_u32-Ensures : Ensures (IsValid m) (Below (2 ^ 32)) (fetch_u32 code)
  unfolding fetch_u32 advance
  fetch_u32-Ensures = Ensures-bind (top_frame-Ensures m) λ fr h.
      Ensures-bind {Q = λ r. r.0 < 2 ^ 32}
        (Ensures-or_throw _ _ _ λ r e. read_u32-lt code fr.pc r.0 r.1 bytes e)
        λ r k. Ensures-bind {Q = Any} (set_pc-Ensures m r.1) λ _ _. Ensures-return _ r.0 k

  pub fetch_i64-Ensures : Ensures (IsValid m) (Below (2 ^ 64)) (fetch_i64 code)
  unfolding fetch_i64 advance
  fetch_i64-Ensures = Ensures-bind (top_frame-Ensures m) λ fr h.
      Ensures-bind {Q = λ r. r.0 < 2 ^ 64}
        (Ensures-or_throw _ _ _ λ r e. read_i64-lt code fr.pc r.0 r.1 bytes e)
        λ r k. Ensures-bind {Q = Any} (set_pc-Ensures m r.1) λ _ _. Ensures-return _ r.0 k

  pub fetch_u8-Ensures : Ensures (IsValid m) Any (fetch_u8 code)
  unfolding fetch_u8
  fetch_u8-Ensures = Ensures-bind (top_frame-Ensures m) λ fr h.
      Ensures-bind {Q = Any} (Ensures-or_panic _ _ λ _ _. tt)
        λ b _. Ensures-bind {Q = Any} (set_pc-Ensures m _) λ _ _. Ensures-return _ b tt

  pub exec_load_const-Ensures : Ensures (IsValid m) Any (exec_load_const code)
  unfolding exec_load_const
  exec_load_const-Ensures = Ensures-bind fetch_i64-Ensures λ v h. push-Ensures m (int v) h

  pub exec_load_local-Ensures : Ensures (IsValid m) Any (exec_load_local code)
  unfolding exec_load_local
  exec_load_local-Ensures =
      Ensures-bind fetch_u32-Ensures
        λ idx _. Ensures-bind (local_ref-Ensures m idx) λ v h. push-Ensures m v h

  pub exec_store_local-Ensures : Ensures (IsValid m) Any (exec_store_local code)
  unfolding exec_store_local
  exec_store_local-Ensures =
      Ensures-bind fetch_u32-Ensures
        λ idx _. Ensures-bind (pop-Ensures m) λ v h. set_local-Ensures m idx v h

  pub exec_load_local_addr-Ensures : Ensures (IsValid m) Any (exec_load_local_addr code)
  unfolding exec_load_local_addr
  exec_load_local_addr-Ensures =
      Ensures-bind fetch_u32-Ensures λ idx h. push-Ensures m (int idx) (omega arith)

  pub exec_cast-Ensures : Ensures (IsValid m) Any (exec_cast code)
  unfolding exec_cast
  exec_cast-Ensures = Ensures-bind fetch_u8-Ensures λ _ _. Ensures-return _ tt tt

  pub exec_len-Ensures : Ensures (IsValid m) Any (exec_len code)
  unfolding exec_len
  exec_len-Ensures = Ensures-bind fetch_u32-Ensures λ _ _. push-Ensures m (int 0) (omega arith)

  pub switch_arms-Ensures :
      (discr count : ℕ) (taken : Option ℕ)
      → Ensures (IsValid m) Any (switch_arms code discr count taken)
  unfolding switch_arms
  switch_arms-Ensures discr zero taken = Ensures-return _ taken tt
  switch_arms-Ensures discr (suc count) taken =
      Ensures-bind fetch_i64-Ensures
        λ v _. Ensures-bind fetch_u32-Ensures λ t _. switch_arms-Ensures discr count _
