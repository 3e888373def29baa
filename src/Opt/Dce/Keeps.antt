-- ===== src/Opt/Dce/Keeps.antt =====
-- The runs of the body that is left (crates/glyim-opt/src/dce.rs).
use glyim_v.Prelude.{
  ℕ, zero, suc, ◌≡◌, refl, sym, ap, subst, ◌∙◌, inl, inr, true, contains, none, some, Option-cases,
  List, [], ◌∷◌, map, get_elem?, All, All-get_elem?, arith,
}
use glyim_v.Mir.Types.{
  LocalIdx, BasicBlockIdx, Terminator, goto, switch_int, return, unreachable, call, assert,
  drop_place, BasicBlockData, Body,
}
use glyim_v.Opt.Semantics.{
  Next, to, leaves, unwinds, stuck, Result, faulted, go_or_unwind, switch, as_expected, step,
  then_step, exec_block, follow, at_block, run_from,
}
use glyim_v.Opt.Renumber.{get_elem?-map}
use glyim_v.Opt.Dce.{retain_block, collect_used_locals, run}
use glyim_v.Opt.Dce.Uses.{
  IsPlainTerminator, IsPlainBlock, HasTerminator, HasBlock, collect_used_locals-HasBlock,
}
use glyim_v.Opt.Dce.Plain.{
  Values, State, operand_value, operand_values, into_place, locals_meaning, Agree, AgreeNext,
  AgreeResult,
}
use glyim_v.Opt.Dce.Agree.{
  exec_all-retain, switch-Agree, call-Agree, assert-Agree, operand_value-Agree,
  operand_values-Agree,
}

get_elem?-map-none :
    {A B : Type 0} (f : A → B) (xs : List A) (i : ℕ)
    → get_elem? xs i ≡ none
    → get_elem? (map f xs) i ≡ none
get_elem?-map-none f [] i e = refl
get_elem?-map-none f (x ∷ xs) zero e = absurd (ground arith)
get_elem?-map-none f (x ∷ xs) (suc i) e = get_elem?-map-none f xs i e

module _ {V : Type 0} (vs : Values V) (used : List LocalIdx) where
  step-Agree :
      (t : Terminator) (s s' : State vs)
      → Agree vs used s s'
      → IsPlainTerminator t
      → HasTerminator used t
      → AgreeNext vs used (step (locals_meaning vs) t s) (step (locals_meaning vs) t s')
  unfolding step
  step-Agree (goto target) s s' a b h = (refl, a)
  step-Agree (switch_int discr ty targets) s s' a b h =
      subst
        (λ v.
          AgreeNext vs used (switch targets s (vs.number (operand_value vs discr s)))
            (switch targets s' (vs.number v)))
        (operand_value-Agree vs used discr s s' a b h)
        (switch-Agree vs used targets s s' (vs.number (operand_value vs discr s)) a)
  step-Agree return s s' a b h = a
  step-Agree unreachable s s' a b h = tt
  step-Agree (call func args destination target cleanup) s s' a b h =
      let r = λ (f : V) (xs : List V).
        go_or_unwind target cleanup (into_place vs destination s' (vs.apply f xs)) in
      let e : vs.apply (operand_value vs func s) (operand_values vs args s)
          ≡ vs.apply (operand_value vs func s') (operand_values vs args s') =
        ap (λ f. vs.apply f (operand_values vs args s))
          (operand_value-Agree vs used func s s' a b.0 h.0)
        ∙ ap (vs.apply (operand_value vs func s'))
            (operand_values-Agree vs used args s s' a b.1 h.1) in
      subst
        (λ o.
          AgreeNext vs used
            (go_or_unwind target cleanup (
              into_place vs destination s
                (vs.apply (operand_value vs func s) (operand_values vs args s))))
            (go_or_unwind target cleanup (into_place vs destination s' o)))
        e
        (call-Agree vs used target cleanup destination s s'
          (vs.apply (operand_value vs func s) (operand_values vs args s)) b.2 a)
  step-Agree (assert cond expected target cleanup msg) s s' a b h =
      subst
        (λ v.
          AgreeNext vs used
            (go_or_unwind (some target) cleanup
              (as_expected expected s (vs.truth (operand_value vs cond s))))
            (go_or_unwind (some target) cleanup (as_expected expected s' (vs.truth v))))
        (operand_value-Agree vs used cond s s' a b h)
        (assert-Agree vs used (some target) cleanup expected s s'
          (vs.truth (operand_value vs cond s)) a)
  step-Agree (drop_place place target cleanup) s s' a b h = absurd b

  exec_block-Agree :
      (block : BasicBlockData) (s t : State vs)
      → Agree vs used s t
      → IsPlainBlock block
      → HasBlock used block
      → AgreeNext vs used
          (exec_block (locals_meaning vs) block s)
          (exec_block (locals_meaning vs) (retain_block used block) t)
  unfolding exec_block
  exec_block-Agree block s t a b h =
      let (s', t', e, e', a') = exec_all-retain vs used block.statements s t a b.0 h.0 in
      subst
        (λ o.
          AgreeNext vs used (then_step (locals_meaning vs) block.terminator o)
            (exec_block (locals_meaning vs) (retain_block used block) t))
        (sym e)
        (subst
          (λ o.
            AgreeNext vs used (step (locals_meaning vs) block.terminator s')
              (then_step (locals_meaning vs) block.terminator o))
          (sym e') (step-Agree block.terminator s' t' a' b.1 h.1))

  follow-Agree :
      (old new : BasicBlockIdx → State vs → Result (State vs))
      → ((b : BasicBlockIdx) (s t : State vs)
          → Agree vs used s t
          → AgreeResult vs used (old b s) (new b t))
      → (n n' : Next (State vs)) → AgreeNext vs used n n'
      → AgreeResult vs used (follow old n) (follow new n')
  follow-Agree old new h (to b s) (to c t) (e, a) =
      subst (λ c. AgreeResult vs used (old b s) (new c t)) e (h b s t a)
  follow-Agree old new h (leaves s) (leaves t) a = a
  follow-Agree old new h (unwinds s) (unwinds t) a = a
  follow-Agree old new h stuck stuck a = tt
  follow-Agree old new h _ _ a = absurd a

  run_from-Agree :
      (blocks : List BasicBlockData)
      → All IsPlainBlock blocks
      → All (HasBlock used) blocks
      → (fuel b : ℕ) (s t : State vs) → Agree vs used s t
      → AgreeResult vs used
          (run_from (locals_meaning vs) fuel blocks b s)
          (run_from (locals_meaning vs) fuel (map (retain_block used) blocks) b t)
  unfolding run_from
  run_from-Agree blocks p h zero b s t a = tt
  run_from-Agree blocks p h (suc fuel) b s t a =
      let m = locals_meaning vs in
      let new : List BasicBlockData = map (retain_block used) blocks in
      elim (Option-cases (get_elem? blocks b)) [
        | inl e ↦
            subst
              (λ o.
                AgreeResult vs used (at_block m (run_from m fuel blocks) o s)
                  (run_from m (suc fuel) new b t))
              (sym e)
              (subst (λ o. AgreeResult vs used faulted (at_block m (run_from m fuel new) o t))
                (sym (get_elem?-map-none (retain_block used) blocks b e)) tt)
        | inr (block, e) ↦
            subst
              (λ o.
                AgreeResult vs used (at_block m (run_from m fuel blocks) o s)
                  (run_from m (suc fuel) new b t))
              (sym e)
              (subst
                (λ o.
                  AgreeResult vs used (follow (run_from m fuel blocks) (exec_block m block s))
                    (at_block m (run_from m fuel new) o t))
                (sym (get_elem?-map (retain_block used) blocks b block e))
                (follow-Agree (run_from m fuel blocks) (run_from m fuel new)
                  (λ b' s' t' a'. run_from-Agree blocks p h fuel b' s' t' a') (exec_block m block s)
                  (exec_block m (retain_block used block) t)
                  (exec_block-Agree block s t a (All-get_elem? _ blocks b p e)
                    (All-get_elem? _ blocks b h e))))
      ]

-- For a body whose places are all whole locals, and which borrows nothing, drops nothing and has no
-- `UnaryOp`: under all operations on values, the new body runs as the old does from every state and for
-- every number of blocks. Both end alike, with the same values in the used locals, or are both still
-- running. The return place is a used local.
pub run-Agree :
    {V : Type 0} (vs : Values V) (body : Body)
    → All IsPlainBlock body.basic_blocks
    → (fuel : ℕ) (s : LocalIdx → V)
    → AgreeResult vs
        (collect_used_locals body)
        (run_from (locals_meaning vs) fuel body.basic_blocks 0 s)
        (run_from (locals_meaning vs) fuel (run body).basic_blocks 0 s)
      × (contains (collect_used_locals body) 0 ≡ true)
unfolding run
run-Agree vs body p fuel s =
    let (has, return_place) = collect_used_locals-HasBlock body p in
    (
      run_from-Agree vs (collect_used_locals body) body.basic_blocks p has fuel 0 s s (λ l h. refl),
      return_place,
    )
