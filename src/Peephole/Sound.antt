-- ===== src/Peephole/Sound.antt =====
-- The peephole pass (crates/glyim-codegen/src/lib.rs) keeps the meaning of straight-line code.
use glyim_v.Prelude.{
  ℕ, zero, suc, ◌^◌, ◌<◌, ◌≡◌, refl, sym, ◌∙◌, Bool, true, false, ◌&&◌, Option, none, some, List,
  [], ◌∷◌, All, length, drop, from_le_bytes, from_le_bytes-to_le_bytes_all, leb, ◌==◌, arith,
  Bool-cases, ==_iff, if_either, Option-cases, inl, inr, subst, All-drop, if_cases, IsByte,
  from_le_bytes-lt, to_le_bytes-IsByte,
}
use mathlib.Core.Option.{some_inj}
use mathlib.Core.Bool.{false≢true}
use glyim_v.Vm.Opcode.{Opcode, from_u8, to_u8}
use glyim_v.Vm.Opcode.Wire.{to_u8-from_u8}
use glyim_v.Vm.Arith.{binop, wrapping_neg}
use glyim_v.Vm.Arith.Bounds.{binop-lt}
use glyim_v.Peephole.Ops.{op_load_const, op_neg}
use glyim_v.Peephole.Fold.{Folding, folded, not_folded, fold_int_binop, is_foldable_binop}
use glyim_v.Peephole.Agree.{fold_int_binop-binop}
use glyim_v.Peephole.Instr.{Instr, Decoded, decoded, panics, no_fuel, ◌>>=◌}
use glyim_v.Peephole.Meaning.{
  Stack, IsI64, negate, push_result, apply_binop, and_then, exec, exec_all,
}
use glyim_v.Peephole.Pass.{
  Action, keep, replace, cancel, crash, constant, folded_action, fold_pair, at_constant, at_neg,
  next_flag, action, peephole_loop,
}

-- An instruction that is decoded holds bytes.
abbrev pub IsInstr : Instr → Type 0
IsInstr i = All IsByte i.operand

-- The stacks at which a run can arrive hold i64s.
abbrev pub Keeps : (Stack → Option Stack) → Type 0
Keeps f = (st st' : Stack) → All IsI64 st → f st ≡ some st' → All IsI64 st'

All-some : {st st' : Stack} → some st ≡ some st' → All IsI64 st → All IsI64 st'
All-some e h = subst (All IsI64) (some_inj.0 e) h

negate-Keeps : Keeps negate
negate-Keeps [] st' w e = cc
negate-Keeps (a ∷ st) st' w e = All-some e (omega arith, w.1)

push_result-word :
    (o : Option ℕ) (st st' : Stack)
    → ((r : ℕ) → o ≡ some r → IsI64 r)
    → All IsI64 st
    → push_result st o ≡ some st'
    → All IsI64 st'
push_result-word none st st' h w e = cc
push_result-word (some r) st st' h w e = All-some e (h r refl, w)

apply_binop-Keeps : (o : Option Opcode) → Keeps (apply_binop o)
apply_binop-Keeps none st st' w e = cc
apply_binop-Keeps (some op) [] st' w e = cc
apply_binop-Keeps (some op) (b ∷ []) st' w e = cc
apply_binop-Keeps (some op) (b ∷ a ∷ st) st' w e =
    push_result-word (binop op a b) st st' (λ r. binop-lt op a b r w.1.0 w.0) w.1.1 e

refused : (n : ℕ) → from_u8 n ≡ none → is_foldable_binop n ≡ false
unfolding from_u8 is_foldable_binop
refused n e = ground arith

-- A number that the folder accepts is an opcode's.
foldable_decodes :
    (n : ℕ) → is_foldable_binop n ≡ true → (op : Opcode) × (from_u8 n ≡ some op) × (to_u8 op ≡ n)
foldable_decodes n h = elim (Option-cases (from_u8 n)) [
  | inl e ↦ absurd (false≢true (sym (refused n e) ∙ h))
  | inr (op, e) ↦ (op, e, to_u8-from_u8 n op e)
]

constant_and_binop :
    (n : ℕ) (f g : Bool) → (n == op_load_const && f && g) ≡ true → (n ≡ op_load_const) × (g ≡ true)
constant_and_binop n f g t = (ground arith, ground arith)

foldable_other :
    (n : ℕ) → is_foldable_binop n ≡ true → ((n == op_load_const) ≡ false) × ((n == op_neg) ≡ false)
unfolding is_foldable_binop
foldable_other n e = (ground arith, ground arith)

wrapping_neg_twice : (a : ℕ) → a < 2 ^ 64 → wrapping_neg (wrapping_neg a) ≡ a
wrapping_neg_twice a h = omega arith

and_then-eq_some :
    (o : Option Stack) (f : Stack → Option Stack) {st : Stack}
    → and_then o f ≡ some st
    → (s : Stack) × (o ≡ some s) × (f s ≡ some st)
and_then-eq_some none f e = cc
and_then-eq_some (some s) f e = (s, refl, e)

>>=-eq_decoded {ℓ κ} :
    {A : Type ℓ} {B : Type κ} (m : Decoded A) (f : A → Decoded B) {b : B}
    → (m >>= f) ≡ decoded b
    → (a : A) × (m ≡ decoded a) × (f a ≡ decoded b)
>>=-eq_decoded (decoded a) f e = (a, refl, e)
>>=-eq_decoded panics f e = cc
>>=-eq_decoded no_fuel f e = cc

decoded_inj : {A : Type 0} {a b : A} → decoded a ≡ decoded b → a ≡ b
decoded_inj e = cc

module _ (other : Instr → Stack → Option Stack) (other_keeps : (i : Instr) → Keeps (other i)) where
  exec-Keeps : (i : Instr) → IsInstr i → Keeps (exec other i)
  unfolding exec
  exec-Keeps i h st st' w e = elim (if_cases (i.op == op_load_const) e) [
    | inl (_, p) ↦ All-some p (omega (arith, from_le_bytes-lt 8 i.operand h), w)
    | inr (_, p) ↦ elim (if_cases (i.op == op_neg) p) [
      | inl (_, q) ↦ negate-Keeps st st' w q
      | inr (_, q) ↦ elim (if_cases (is_foldable_binop i.op) q) [
        | inl (_, r) ↦ apply_binop-Keeps (from_u8 i.op) st st' w r
        | inr (_, r) ↦ other_keeps i st st' w r
      ]
    ]
  ]

  -- What an action of the loop must do to the meaning of the instructions ahead.
  abbrev Means : Instr → List Instr → Action → Type 0
  Means x rest (keep flags) = Unit
  Means x rest (replace y flags) =
      IsInstr y
      × ((st : Stack) → exec_all other (y ∷ drop 2 rest) st ≡ exec_all other (x ∷ rest) st)
  Means x rest cancel =
      (st st' : Stack)
      → All IsI64 st
      → exec_all other (x ∷ rest) st ≡ some st'
      → exec_all other (drop 1 rest) st ≡ some st'
  Means x rest crash = Unit

  exec-const :
      (x : Instr) (st : Stack)
      → x.op ≡ op_load_const
      → exec other x st ≡ some (from_le_bytes 8 x.operand ∷ st)
  unfolding exec
  exec-const x st e = rw e

  exec-neg : (x : Instr) (st : Stack) → x.op ≡ op_neg → exec other x st ≡ negate st
  unfolding exec
  exec-neg x st e = rw e

  -- A foldable opcode is neither of the two above.
  exec-binop :
      (z : Instr) (st : Stack)
      → is_foldable_binop z.op ≡ true
      → exec other z st ≡ apply_binop (from_u8 z.op) st
  unfolding exec
  exec-binop z st e = rw ((foldable_other z.op e).0, (foldable_other z.op e).1, e)

  folded_result :
      (z : Instr) (a b r : ℕ) (st : Stack)
      → is_foldable_binop z.op ≡ true
      → fold_int_binop z.op a b ≡ folded r
      → (exec other z (b ∷ a ∷ st) ≡ some (r ∷ st)) × (a < 2 ^ 64 → b < 2 ^ 64 → r < 2 ^ 64)
  folded_result z a b r st ez ef =
      let (op, d, t) = foldable_decodes z.op ez in
      let e : binop op a b ≡ some r = fold_int_binop-binop op a b r (rw t ef) in
      (exec-binop z (b ∷ a ∷ st) ez ∙ rw (d, e), λ ha hb. binop-lt op a b r ha hb e)

  fold-Means :
      (x y z : Instr) (rest : List Instr) (flags : List Bool)
      → IsInstr x
      → IsInstr y
      → x.op ≡ op_load_const
      → y.op ≡ op_load_const
      → is_foldable_binop z.op ≡ true
      → (f : Folding)
      → fold_int_binop z.op (from_le_bytes 8 x.operand) (from_le_bytes 8 y.operand) ≡ f
      → Means x (y ∷ z ∷ rest) (folded_action f flags)
  unfolding exec_all
  fold-Means x y z rest flags hx hy ex ey ez not_folded ef = tt
  fold-Means x y z rest flags hx hy ex ey ez Folding.panics ef = tt
  fold-Means x y z rest flags hx hy ex ey ez (folded r) ef = (
    to_le_bytes-IsByte 8 r,
    λ st.
        let (run, small) = folded_result z _ _ r st ez ef in
        let word =
          small (omega (arith, from_le_bytes-lt 8 x.operand hx))
            (omega (arith, from_le_bytes-lt 8 y.operand hy)) in
        rw (exec-const (constant r) st refl, from_le_bytes-to_le_bytes_all 8 r (omega arith))
          (rw (exec-const x st ex) (rw (exec-const y _ ey) (rw run))),
  )

  cancel-Means :
      (x y : Instr) (rest : List Instr) → x.op ≡ op_neg → y.op ≡ op_neg → Means x (y ∷ rest) cancel
  unfolding exec_all
  cancel-Means x y rest ex ey [] st' w e = let stuck = rw (exec-neg x [] ex) at e in cc
  cancel-Means x y rest ex ey (a ∷ st) st' w e =
      rw (exec-neg x _ ex, exec-neg y _ ey, wrapping_neg_twice a w.0) at e

  fold_pair-Means :
      (x y z : Instr) (rest : List Instr) (flags : List Bool)
      → IsInstr x
      → IsInstr y
      → x.op ≡ op_load_const
      → y.op ≡ op_load_const
      → is_foldable_binop z.op ≡ true
      → Means x (y ∷ z ∷ rest) (fold_pair x y z flags)
  fold_pair-Means x y z rest flags hx hy ex ey ez =
      if_either (Means x (y ∷ z ∷ rest)) (leb 8 (length y.operand)) _ crash
        (fold-Means x y z rest flags hx hy ex ey ez _ refl) tt

  at_constant-Means :
      (b : Bool) (x : Instr) (rest : List Instr) (flags : List Bool)
      → All IsInstr (x ∷ rest)
      → x.op ≡ op_load_const
      → Means x rest (at_constant b x rest flags)
  at_constant-Means true x (y ∷ z ∷ rest) flags h ex =
      elim (Bool-cases (y.op == op_load_const && next_flag flags && is_foldable_binop z.op)) [
        | inl t ↦ rw t (
            fold_pair-Means x y z rest flags h.0 h.1.0 ex
              (constant_and_binop y.op (next_flag flags) _ t).0
              (constant_and_binop y.op (next_flag flags) _ t).1)
        | inr f ↦ rw f tt
      ]
  at_constant-Means true x (y ∷ []) flags h ex = tt
  at_constant-Means true x [] flags h ex = tt
  at_constant-Means false x rest flags h ex = tt

  at_neg-Means :
      (x : Instr) (rest : List Instr) (flags : List Bool)
      → x.op ≡ op_neg
      → Means x rest (at_neg rest flags)
  at_neg-Means x [] flags ex = tt
  at_neg-Means x (y ∷ rest) flags ex = elim (Bool-cases (y.op == op_neg)) [
    | inl t ↦ rw t (cancel-Means x y rest ex ((==_iff y.op op_neg).0 t))
    | inr f ↦ rw f tt
  ]

  action-Means :
      (x : Instr) (rest : List Instr) (flags : List Bool)
      → All IsInstr (x ∷ rest)
      → Means x rest (action x rest flags)
  unfolding action
  action-Means x rest flags h = elim (Bool-cases (x.op == op_load_const)) [
    | inl t ↦ rw t (
        if_either (Means x rest) (leb 8 (length x.operand)) _ crash
          (at_constant-Means _ x rest _ h ((==_iff x.op op_load_const).0 t)) tt)
    | inr f ↦ elim (Bool-cases (x.op == op_neg)) [
      | inl t ↦ rw (f, t) (at_neg-Means x rest flags ((==_iff x.op op_neg).0 t))
      | inr g ↦ rw (f, g) tt
    ]
  ]

  -- The loop from a given point, for every list of instructions.
  abbrev LoopSound : ℕ → Type 0
  LoopSound fuel =
      (is : List Instr) (flags : List Bool) (out : List Instr) (st st' : Stack)
      → All IsInstr is
      → All IsI64 st
      → peephole_loop fuel is flags ≡ decoded out
      → exec_all other is st ≡ some st'
      → exec_all other out st ≡ some st'

  exec_all-cons :
      (x : Instr) (rest out : List Instr) (st st' : Stack)
      → IsInstr x
      → All IsI64 st
      → exec_all other (x ∷ rest) st ≡ some st'
      → ((s : Stack)
          → All IsI64 s
          → exec_all other rest s ≡ some st'
          → exec_all other out s ≡ some st')
      → exec_all other (x ∷ out) st ≡ some st'
  unfolding exec_all
  exec_all-cons x rest out st st' h w e k =
      let (s, first, after) = and_then-eq_some (exec other x st) _ e in
      rw first (k s (exec-Keeps x h st s w first) after)

  loop_after :
      (fuel : ℕ) (x : Instr) (rest : List Instr) (flags : List Bool) (out : List Instr)
      (st st' : Stack) (a : Action)
      → LoopSound fuel
      → Means x rest a
      → All IsInstr (x ∷ rest)
      → All IsI64 st
      → (elim a [
        | keep flags' ↦ (peephole_loop fuel rest flags' >>= λ out. decoded (x ∷ out))
        | replace y flags' ↦ (peephole_loop fuel (drop 2 rest) flags' >>= λ out. decoded (y ∷ out))
        | cancel ↦ peephole_loop fuel (drop 1 rest) flags
        | crash ↦ panics
      ])
        ≡ decoded out
      → exec_all other (x ∷ rest) st ≡ some st'
      → exec_all other out st ≡ some st'
  loop_after fuel x rest flags out st st' (keep flags') ih m h w e r =
      let (o, run, same) = >>=-eq_decoded (peephole_loop fuel rest flags') _ e in
      rw (← decoded_inj same)
        (exec_all-cons x rest o st st' h.0 w r λ s ws k. ih rest flags' o s st' h.1 ws run k)
  loop_after fuel x rest flags out st st' (replace y flags') ih m h w e r =
      let (o, run, same) = >>=-eq_decoded (peephole_loop fuel (drop 2 rest) flags') _ e in
      rw (← decoded_inj same) (
        exec_all-cons y (drop 2 rest) o st st' m.0 w (m.1 st ∙ r)
          λ s ws k. ih (drop 2 rest) flags' o s st' (All-drop IsInstr 2 rest h.1) ws run k)
  loop_after fuel x rest flags out st st' cancel ih m h w e r =
      ih (drop 1 rest) flags out st st' (All-drop IsInstr 1 rest h.1) w e (m st st' w r)
  loop_after fuel x rest flags out st st' crash ih m h w e r = cc

  -- The loop by induction on the fuel.
  peephole_loop-exec_all : (fuel : ℕ) → LoopSound fuel
  unfolding peephole_loop
  peephole_loop-exec_all fuel [] flags out st st' h w e r = rw (← decoded_inj e) r
  peephole_loop-exec_all zero (x ∷ rest) flags out st st' h w e r = cc
  peephole_loop-exec_all (suc fuel) (x ∷ rest) flags out st st' h w e r =
      loop_after fuel x rest flags out st st' (action x rest flags) (peephole_loop-exec_all fuel)
        (action-Means x rest flags h) h w e r

-- Whenever the loop of the peephole pass returns, the instructions that it leaves take a stack of
-- i64s, by the machine's arithmetic, to the stack that the instructions it was given take it to. The
-- opcodes that the pass does not touch may mean anything that keeps the values i64s, and the flags
-- that say which constants are integers may be any.
pub peephole_loop_sound :
    (other : Instr → Stack → Option Stack)
    → ((i : Instr) → Keeps (other i))
    → (fuel : ℕ) (is : List Instr) (flags : List Bool) (out : List Instr) (st st' : Stack)
    → All IsInstr is
    → All IsI64 st
    → peephole_loop fuel is flags ≡ decoded out
    → exec_all other is st ≡ some st'
    → exec_all other out st ≡ some st'
peephole_loop_sound other keeps fuel is flags out st st' =
    peephole_loop-exec_all other keeps fuel is flags out st st'
