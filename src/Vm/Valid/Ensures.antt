-- ===== src/Vm/Valid/Ensures.antt =====
-- Postconditions of the machine's methods: one rule for each way to build a method.
use glyim_v.Prelude.{◌≡◌, refl, Bool, true, false, Option, none, some, if◌then◌else◌}
use glyim_v.Vm.State.{
  Vm, VmError, Exec, ok, err, panic, M, return, throw, abort, ◌>>=◌, or_panic, or_throw,
}

-- The state satisfies `P` on every exit but a panic, and a result satisfies `Q`.
abbrev pub Post : {A : Type 0} → (Vm → Type 0) → (A → Type 0) → Exec A → Type 0
Post P Q (ok a vm) = Q a × P vm
Post P Q (err e vm) = P vm
Post P Q panic = Unit

pub record Ensures {A : Type 0} (P : Vm → Type 0) (Q : A → Type 0) (m : M A) : Type 0 where
  pub at : (vm : Vm) → P vm → Post P Q (m vm)

module _ {A : Type 0} {P : Vm → Type 0} where
  pub Ensures-return : (Q : A → Type 0) (a : A) → Q a → Ensures P Q (return a)
  unfolding return
  Ensures-return Q a h = record { at = λ vm p. (h, p) }

  pub Ensures-throw : (Q : A → Type 0) (e : VmError) → Ensures P Q (throw e)
  unfolding throw
  Ensures-throw Q e = record { at = λ vm p. p }

  pub Ensures-abort : (Q : A → Type 0) → Ensures P Q abort
  unfolding abort
  Ensures-abort Q = record { at = λ vm p. tt }

  pub Ensures-or_panic :
      (Q : A → Type 0) (o : Option A) → ((a : A) → o ≡ some a → Q a) → Ensures P Q (or_panic o)
  unfolding or_panic return abort
  Ensures-or_panic Q none h = record { at = λ vm p. tt }
  Ensures-or_panic Q (some a) h = record { at = λ vm p. (h a refl, p) }

  pub Ensures-or_throw :
      (Q : A → Type 0) (e : VmError) (o : Option A)
      → ((a : A) → o ≡ some a → Q a)
      → Ensures P Q (or_throw e o)
  unfolding or_throw return throw
  Ensures-or_throw Q e none h = record { at = λ vm p. p }
  Ensures-or_throw Q e (some a) h = record { at = λ vm p. (h a refl, p) }

  pub Ensures-if :
      (Q : A → Type 0) (b : Bool) (m n : M A)
      → Ensures P Q m
      → Ensures P Q n
      → Ensures P Q (if b then m else n)
  Ensures-if Q true m n hm hn = hm
  Ensures-if Q false m n hm hn = hn

module _ {A B : Type 0} {P : Vm → Type 0} {Q : A → Type 0} {R : B → Type 0} where
  Post-bind :
      (r : Exec A) (f : A → M B)
      → Post P Q r
      → ((a : A) → Q a → Ensures P R (f a))
      → Post P R (elim r [ ok a vm ↦ f a vm | err e vm ↦ err e vm | panic ↦ panic ])
  Post-bind (ok a vm) f h k = (k a h.0).at vm h.1
  Post-bind (err e vm) f h k = h
  Post-bind panic f h k = tt

  pub Ensures-bind :
      {m : M A} {f : A → M B}
      → Ensures P Q m
      → ((a : A) → Q a → Ensures P R (f a))
      → Ensures P R (m >>= f)
  unfolding ◌>>=◌
  Ensures-bind {m} {f} hm hf = record { at = λ vm p. Post-bind (m vm) f (hm.at vm p) hf }
