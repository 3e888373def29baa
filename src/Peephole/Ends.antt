-- ===== src/Peephole/Ends.antt =====
-- The loops of the peephole pass (crates/glyim-codegen/src/lib.rs) end: the fuel that the pass is
-- run with is enough, whatever the bytes.
use glyim_v.Prelude.{
  ℕ, zero, suc, ◌+◌, ◌≤◌, ◌≡◌, ◌≢◌, refl, Bool, Option, none, some, List, [], ◌∷◌, ◌++◌, length,
  take, drop, length-drop, from_le_bytes, leb, if_either, arith,
}
use glyim_v.Peephole.Instr.{
  Instr, Decoded, decoded, panics, no_fuel, ◌>>=◌, Operand, take_bytes, inner_slice, inner_instrs,
  decode_operand, decode_bytecode,
}
use glyim_v.Peephole.Pass.{Action, keep, replace, cancel, crash, action, peephole_loop, peephole}

>>=-Ends {ℓ κ} :
    {A : Type ℓ} {B : Type κ} (m : Decoded A) (f : A → Decoded B)
    → m ≢ no_fuel
    → ((a : A) → f a ≢ no_fuel)
    → (m >>= f) ≢ no_fuel
>>=-Ends (decoded a) f h k = k a
>>=-Ends panics f h k = cc
>>=-Ends no_fuel f h k = absurd (h refl)

decoded-Ends {ℓ} : {A : Type ℓ} (a : A) → decoded a ≢ no_fuel
decoded-Ends a = cc

panics-Ends {ℓ} : {A : Type ℓ} → (let m : Decoded A = panics in m ≢ no_fuel)
panics-Ends = cc

inner_slice-Ends : (at : List ℕ) (acc : Operand) (is : List Instr) → inner_slice at acc is ≢ no_fuel
inner_slice-Ends at acc [] = cc
inner_slice-Ends at acc (i ∷ is) = if_either (λ m. m ≢ no_fuel) _ _ _ (decoded-Ends _) panics-Ends

-- An inner instruction moves the end of the operand on.
inner_slice-le :
    (at : List ℕ) (acc : Operand) (is : List Instr) (acc' : Operand)
    → inner_slice at acc is ≡ decoded (some acc')
    → acc.1 ≤ acc'.1
inner_slice-le at acc [] acc' e = cc
inner_slice-le at (v, n) (i ∷ is) acc' e = ground arith

after_slice :
    (next : Decoded (Option Operand)) (d : Operand) (k : Operand → Decoded Operand)
    → next ≢ no_fuel
    → ((acc : Operand) → next ≡ decoded (some acc) → k acc ≢ no_fuel)
    → (next >>= λ o. elim o [ none ↦ decoded d | some acc ↦ k acc ]) ≢ no_fuel
after_slice (decoded none) d k h m = cc
after_slice (decoded (some acc)) d k h m = m acc refl
after_slice panics d k h m = cc
after_slice no_fuel d k h m = absurd (h refl)

-- The inner streams are those behind the operand's first four bytes.
module _ (decode : List ℕ → Decoded (List Instr)) (rest : List ℕ)
    (decode_ends : (k : ℕ) → 4 ≤ k → decode (drop k rest) ≢ no_fuel) where
  inner_instrs-Ends :
      (count : ℕ) (acc : Operand) → 4 ≤ acc.1 → inner_instrs decode rest count acc ≢ no_fuel
  unfolding inner_instrs
  inner_instrs-Ends zero acc h = cc
  inner_instrs-Ends (suc count) (v, consumed) h =
      if_either (λ m. m ≢ no_fuel) (leb (length rest) consumed) (decoded (v, consumed)) _ (cc)
        (>>=-Ends (decode (drop consumed rest)) _ (decode_ends consumed h) λ inner.
          after_slice (inner_slice (drop consumed rest) (v, consumed) inner) (v, consumed)
            (inner_instrs decode rest count) (inner_slice-Ends _ _ inner)
            λ acc e.
              inner_instrs-Ends count acc
                (omega (arith, inner_slice-le (drop consumed rest) (v, consumed) inner acc e)))

  decode_operand-Ends : (op : ℕ) → decode_operand decode rest op ≢ no_fuel
  unfolding decode_operand
  decode_operand-Ends op =
      let counted = take 4 rest in
      let inner = inner_instrs-Ends (from_le_bytes 4 counted) (counted, 4) (omega arith) in
      let called =
        >>=-Ends {A = Operand} {B = Operand}
          (inner_instrs decode rest (from_le_bytes 4 counted) (counted, 4))
          (λ acc. (let last = take_bytes rest 8 in decoded (acc.0 ++ last.0, acc.1 + last.1))) inner
          λ acc. decoded-Ends _ in
      ground (arith, inner, called)

decode_bytecode-Ends :
    (fuel : ℕ) (bc : List ℕ) → length bc ≤ fuel → decode_bytecode fuel bc ≢ no_fuel
unfolding decode_bytecode
decode_bytecode-Ends fuel [] h = cc
decode_bytecode-Ends zero (op ∷ rest) h = absurd (omega arith)
decode_bytecode-Ends (suc fuel) (op ∷ rest) h =
    let shorter : (k : ℕ) → decode_bytecode fuel (drop k rest) ≢ no_fuel =
      λ k. decode_bytecode-Ends fuel (drop k rest) (omega (arith, length-drop k rest)) in
    >>=-Ends (decode_operand (decode_bytecode fuel) rest op) _
      (decode_operand-Ends (decode_bytecode fuel) rest (λ k _. shorter k) op)
      λ r. >>=-Ends (decode_bytecode fuel (drop r.1 rest)) _ (shorter r.1) λ is. (cc)

peephole_loop-Ends :
    (fuel : ℕ) (is : List Instr) (flags : List Bool)
    → length is ≤ fuel
    → peephole_loop fuel is flags ≢ no_fuel
unfolding peephole_loop
peephole_loop-Ends fuel [] flags h = cc
peephole_loop-Ends zero (x ∷ rest) flags h = absurd (omega arith)
peephole_loop-Ends (suc fuel) (x ∷ rest) flags h =
    after (action x rest flags)
      (λ k flags. peephole_loop-Ends fuel (drop k rest) flags (omega (arith, length-drop k rest)))
  where
    after :
        (a : Action)
        → ((k : ℕ) (flags : List Bool) → peephole_loop fuel (drop k rest) flags ≢ no_fuel)
        → (elim a [
          | keep flags' ↦ (peephole_loop fuel rest flags' >>= λ out. decoded (x ∷ out))
          | replace y flags' ↦
              (peephole_loop fuel (drop 2 rest) flags' >>= λ out. decoded (y ∷ out))
          | cancel ↦ peephole_loop fuel (drop 1 rest) flags
          | crash ↦ panics
        ])
          ≢ no_fuel
    after (keep flags') ih = >>=-Ends _ _ (ih 0 flags') λ out. (cc)
    after (replace y flags') ih = >>=-Ends _ _ (ih 2 flags') λ out. (cc)
    after cancel ih = ih 1 flags
    after crash ih = cc

-- Whatever the bytes and the flags, the pass ends: it returns bytes or panics, and neither the
-- decoder, which calls itself on what follows an operand's count, nor the loop is cut off.
pub peephole-Ends : (bc : List ℕ) (flags : List Bool) → peephole bc flags ≢ no_fuel
unfolding peephole
peephole-Ends bc flags =
    >>=-Ends (decode_bytecode (length bc) bc) _ (decode_bytecode-Ends (length bc) bc (omega arith))
      λ is.
        >>=-Ends (peephole_loop (length is) is flags) _
          (peephole_loop-Ends (length is) is flags (omega arith)) λ out. (cc)
