-- ===== src/Opt/Dce/Agree.antt =====
-- Statements and terminators of whole locals, from states that agree on the used locals
-- (crates/glyim-opt/src/dce.rs).
use glyim_v.Prelude.{
  ℕ, ◌≡◌, refl, ap, ◌∙◌, ◌⊎◌, inl, inr, Bool, true, false, Bool-cases, contains, ◌==◌, Option, none,
  some, List, [], ◌∷◌, All, arith,
}
use glyim_v.Mir.Types.{
  LocalIdx, ProjectionElem, BasicBlockIdx, Place, Operand, copy, move, constant, Rvalue, use_of,
  ref_of, binary_op, unary_op, aggregate, discriminant, len_of, cast, repeat, Statement, assign,
  storage_live, storage_dead, nop, SwitchTargets,
}
use glyim_v.Opt.Semantics.{
  Next, unwinds, stuck, go, go_or_unwind, switch, as_expected, then_exec, exec_all,
}
use glyim_v.Opt.Dce.{is_bare, is_kept, retain}
use glyim_v.Opt.Dce.Uses.{
  IsPlainOperand, IsPlainRvalue, IsPlainStatement, Has, HasOperand, HasRvalue, HasStatement,
}
use glyim_v.Opt.Dce.Plain.{
  Values, State, read_projected, place_value, operand_value, operand_values, rvalue_value, written,
  write, statement_state, into_place, locals_meaning, Agree, AgreeNext,
}

module _ {V : Type 0} (vs : Values V) (used : List LocalIdx) where
  place_value-Agree :
      (place : Place) (s t : State vs)
      → Agree vs used s t
      → is_bare place.projection ≡ true
      → Has used place
      → place_value vs place s ≡ place_value vs place t
  place_value-Agree place s t a b h = bare place.projection b
    where
      bare :
          (p : List ProjectionElem)
          → is_bare p ≡ true
          → read_projected vs p s (s place.local) ≡ read_projected vs p t (t place.local)
      bare [] b = a place.local h
      bare (elem ∷ projection) b = absurd (ground arith)

  pub operand_value-Agree :
      (operand : Operand) (s t : State vs)
      → Agree vs used s t
      → IsPlainOperand operand
      → HasOperand used operand
      → operand_value vs operand s ≡ operand_value vs operand t
  operand_value-Agree (copy place) s t a b h = place_value-Agree place s t a b h
  operand_value-Agree (move place) s t a b h = place_value-Agree place s t a b h
  operand_value-Agree (constant value) s t a b h = refl

  pub operand_values-Agree :
      (operands : List Operand) (s t : State vs)
      → Agree vs used s t
      → All IsPlainOperand operands
      → All (HasOperand used) operands
      → operand_values vs operands s ≡ operand_values vs operands t
  operand_values-Agree [] s t a b h = refl
  operand_values-Agree (operand ∷ operands) s t a b h =
      let e = operand_value-Agree operand s t a b.0 h.0 in
      let es = operand_values-Agree operands s t a b.1 h.1 in cc (e, es)

  rvalue_value-Agree :
      (rvalue : Rvalue) (s t : State vs)
      → Agree vs used s t
      → IsPlainRvalue rvalue
      → HasRvalue used rvalue
      → rvalue_value vs rvalue s ≡ rvalue_value vs rvalue t
  rvalue_value-Agree (use_of operand) s t a b h = operand_value-Agree operand s t a b h
  rvalue_value-Agree (ref_of place kind) s t a b h = absurd b
  rvalue_value-Agree (binary_op op left right) s t a b h =
      let e = operand_value-Agree left s t a b.0 h.0 in
      let e' = operand_value-Agree right s t a b.1 h.1 in
      ap (λ v. vs.binary op v (operand_value vs right s)) e
      ∙ ap (vs.binary op (operand_value vs left t)) e'
  rvalue_value-Agree (unary_op op operand) s t a b h = absurd b
  rvalue_value-Agree (aggregate kind operands) s t a b h =
      ap (vs.build kind) (operand_values-Agree operands s t a b h)
  rvalue_value-Agree (discriminant place) s t a b h = ap vs.tag (place_value-Agree place s t a b h)
  rvalue_value-Agree (len_of place) s t a b h = ap vs.count (place_value-Agree place s t a b h)
  rvalue_value-Agree (cast kind operand ty) s t a b h =
      ap (λ v. vs.convert kind v ty) (operand_value-Agree operand s t a b h)
  rvalue_value-Agree (repeat operand count) s t a b h =
      ap (λ v. vs.fill v count) (operand_value-Agree operand s t a b h)

  written-bare :
      (p : List ProjectionElem) (s t : State vs) (old old' v w : V)
      → is_bare p ≡ true
      → v ≡ w
      → written vs p s old v ≡ written vs p t old' w
  written-bare [] s t old old' v w b e = e
  written-bare (elem ∷ projection) s t old old' v w b e = absurd (ground arith)

  write-Agree :
      (place : Place) (v w : V) (s t : State vs)
      → is_bare place.projection ≡ true
      → v ≡ w
      → Agree vs used s t
      → Agree vs used (write vs place v s) (write vs place w t)
  write-Agree place v w s t b e a l h = elim (Bool-cases (l == place.local)) [
    | inl k ↦ rw k (written-bare place.projection s t (s l) (t l) v w b e)
    | inr k ↦ rw k (a l h)
  ]

  -- A write vs to a local that is not in the set.
  write-Agree_unused :
      (place : Place) (v : V) (s t : State vs)
      → contains used place.local ≡ false
      → Agree vs used s t
      → Agree vs used (write vs place v s) t
  write-Agree_unused place v s t n a l h = elim (Bool-cases (l == place.local)) [
    | inl k ↦
        let q : l ≡ place.local = ground arith in
        let z : contains used l ≡ contains used place.local = ap (contains used) q in
        absurd (ground (arith, z, n, h))
    | inr k ↦ rw k (a l h)
  ]

  -- A statement that is kept takes agreeing states to agreeing states; one that is removed changes no
  -- local of the set.
  abbrev IsStep : Statement → State vs → State vs → Type 0
  IsStep x s t =
      (s' : State vs) × (statement_state vs x s ≡ some s')
      × ((is_kept used x ≡ true)
            × ((t' : State vs) × (statement_state vs x t ≡ some t') × Agree vs used s' t')
          ⊎ (is_kept used x ≡ false) × Agree vs used s' t)

  is_kept-IsStep :
      (x : Statement) (s t : State vs)
      → Agree vs used s t
      → IsPlainStatement x
      → HasStatement used x
      → IsStep x s t
  unfolding is_kept
  is_kept-IsStep (assign place rvalue) s t a b h = (
    write vs place (rvalue_value vs rvalue s) s,
    refl,
    elim (Bool-cases (contains used place.local)) [
      | inl k ↦ inl (
        rw b.0 k,
        (
          write vs place (rvalue_value vs rvalue t) t,
          refl,
          write-Agree place _ _ s t b.0 (rvalue_value-Agree rvalue s t a b.1 h) a,
        ),
      )
      | inr k ↦ inr (rw b.0 k, write-Agree_unused place _ s t k a)
    ],
  )
  is_kept-IsStep (storage_live local) s t a b h = (s, refl, inl (refl, (t, refl, a)))
  is_kept-IsStep (storage_dead local) s t a b h = (s, refl, inl (refl, (t, refl, a)))
  is_kept-IsStep nop s t a b h = (s, refl, inl (refl, (t, refl, a)))

  retain-kept :
      (x : Statement) (xs : List Statement)
      → is_kept used x ≡ true
      → retain used (x ∷ xs) ≡ x ∷ retain used xs
  unfolding retain
  retain-kept x xs k = rw k refl

  retain-removed :
      (x : Statement) (xs : List Statement)
      → is_kept used x ≡ false
      → retain used (x ∷ xs) ≡ retain used xs
  unfolding retain
  retain-removed x xs k = rw k refl

  pub exec_all-retain :
      (xs : List Statement) (s t : State vs)
      → Agree vs used s t
      → All IsPlainStatement xs
      → All (HasStatement used) xs
      → (s' : State vs) × (t' : State vs) × (exec_all (locals_meaning vs) xs s ≡ some s')
        × (exec_all (locals_meaning vs) (retain used xs) t ≡ some t')
        × Agree vs used s' t'
  unfolding exec_all retain
  exec_all-retain [] s t a b h = (s, t, refl, refl, a)
  exec_all-retain (x ∷ xs) s t a b h =
      let rest : State vs → Option (State vs) = exec_all (locals_meaning vs) xs in
      let (s1, e, way) = is_kept-IsStep x s t a b.0 h.0 in
      elim way [
        | inl (k, (t1, q, a1)) ↦
            let (s', t', e', q', a') = exec_all-retain xs s1 t1 a1 b.1 h.1 in
            (
              s',
              t',
              ap (then_exec rest) e ∙ e',
              ap (λ l. exec_all (locals_meaning vs) l t) (retain-kept x xs k)
                  ∙ ap (then_exec (exec_all (locals_meaning vs) (retain used xs))) q
                  ∙ q',
              a',
            )
        | inr (k, a1) ↦
            let (s', t', e', q', a') = exec_all-retain xs s1 t a1 b.1 h.1 in
            (
              s',
              t',
              ap (then_exec rest) e ∙ e',
              ap (λ l. exec_all (locals_meaning vs) l t) (retain-removed x xs k) ∙ q',
              a',
            )
      ]

  pub switch-Agree :
      (targets : SwitchTargets) (s t : State vs) (o : Option ℕ)
      → Agree vs used s t
      → AgreeNext vs used (switch targets s o) (switch targets t o)
  switch-Agree targets s t none a = tt
  switch-Agree targets s t (some v) a = (refl, a)

  go-Agree :
      (target : Option BasicBlockIdx) (missing missing' : Next (State vs)) (s t : State vs)
      → AgreeNext vs used missing missing'
      → Agree vs used s t
      → AgreeNext vs used (go target missing s) (go target missing' t)
  go-Agree none missing missing' s t n a = n
  go-Agree (some b) missing missing' s t n a = (refl, a)

  pub call-Agree :
      (target cleanup : Option BasicBlockIdx) (place : Place) (s t : State vs)
      (r : Option (Bool × V))
      → is_bare place.projection ≡ true
      → Agree vs used s t
      → AgreeNext vs used
          (go_or_unwind target cleanup (into_place vs place s r))
          (go_or_unwind target cleanup (into_place vs place t r))
  call-Agree target cleanup place s t none b a = tt
  call-Agree target cleanup place s t (some (true, v)) b a =
      go-Agree target stuck stuck _ _ tt (write-Agree place v v s t b refl a)
  call-Agree target cleanup place s t (some (false, v)) b a =
      let a' = write-Agree place v v s t b refl a in
      go-Agree cleanup (unwinds _) (unwinds _) _ _ a' a'

  pub assert-Agree :
      (target cleanup : Option BasicBlockIdx) (expected : Bool) (s t : State vs) (o : Option Bool)
      → Agree vs used s t
      → AgreeNext vs used
          (go_or_unwind target cleanup (as_expected expected s o))
          (go_or_unwind target cleanup (as_expected expected t o))
  assert-Agree target cleanup expected s t none a = tt
  assert-Agree target cleanup true s t (some true) a = go-Agree target stuck stuck s t tt a
  assert-Agree target cleanup true s t (some false) a =
      go-Agree cleanup (unwinds s) (unwinds t) s t a a
  assert-Agree target cleanup false s t (some true) a =
      go-Agree cleanup (unwinds s) (unwinds t) s t a a
  assert-Agree target cleanup false s t (some false) a = go-Agree target stuck stuck s t tt a
