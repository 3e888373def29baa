-- ===== src/Vm/State.antt =====
-- The machine's state and its errors (crates/glyim-bytecode-vm/src/lib.rs), and the monad of the
-- methods of `Vm`: a method changes the machine and returns a value, an error or a panic.
use glyim_v.Prelude.{ℕ, Option, none, some, List, []}
use glyim_v.Vm.Value.{Value}
use glyim_v.Vm.Opcode.{Opcode}

pub record Function : Type 0 where
  pub code : List ℕ
  pub n_locals : ℕ
  pub arg_count : ℕ
  pub block_offsets : List ℕ

pub record Module : Type 0 where
  pub functions : List Function
  pub entry : ℕ

pub data VmError : Type 0 where
  unexpected_end_of_code : VmError
  unknown_opcode : ℕ → VmError
  unsupported_opcode : Opcode → VmError
  stack_underflow : VmError
  local_out_of_bounds : ℕ → VmError
  empty_return abnormal_termination assertion_failed call_frame_overflow : VmError
  function_out_of_bounds : ℕ → VmError
  switch_no_target : VmError

-- `MAX_CALL_DEPTH`
abbrev pub max_call_depth : ℕ
max_call_depth = 1024

pub record Frame : Type 0 where
  pub locals : List Value
  pub mem : List Value
  pub func : ℕ
  pub pc : ℕ
  pub resume_target : ℕ
  pub dest_local : ℕ

-- The head of each list is the top of the stack, the last element of the vector.
pub record Vm : Type 0 where
  pub stack : List Value
  pub frames : List Frame

-- `Vm::new`
abbrev pub new : Vm
new = record { stack = []; frames = [] }

-- What a method leaves: the machine keeps its changes when an error is returned. A panic is an
-- index out of range, an overflow or an `unreachable!()`.
pub data Exec {ℓ} (A : Type ℓ) : Type ℓ where
  ok : A → Vm → Exec A
  err : VmError → Vm → Exec A
  panic : Exec A

abbrev pub M {ℓ} : Type ℓ → Type ℓ
M A = Vm → Exec A

unfoldable pub return {ℓ} : {A : Type ℓ} → A → M A
return a vm = ok a vm

unfoldable pub throw {ℓ} : {A : Type ℓ} → VmError → M A
throw e vm = err e vm

unfoldable pub abort {ℓ} : {A : Type ℓ} → M A
abort vm = panic

-- Rust's `?`. Opening it opens the other actions too.
infixl 5 ◌>>=◌ ◌>>◌
unfoldable pub ◌>>=◌ {ℓ κ} : {A : Type ℓ} {B : Type κ} → M A → (A → M B) → M B
unfolding return throw abort
◌>>=◌ m f vm = elim (m vm) [ ok a vm' ↦ f a vm' | err e vm' ↦ err e vm' | panic ↦ panic ]

abbrev pub ◌>>◌ {ℓ} : {B : Type ℓ} → M (Unit {0}) → M B → M B
m >> k = m >>= λ _. k

-- An index that may be out of range: a panic, or the error that is given.
unfoldable pub or_panic {ℓ} : {A : Type ℓ} → Option A → M A
or_panic none = abort
or_panic (some a) = return a

unfoldable pub or_throw {ℓ} : {A : Type ℓ} → VmError → Option A → M A
or_throw e none = throw e
or_throw e (some a) = return a
