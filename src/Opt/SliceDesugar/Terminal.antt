-- ===== src/Opt/SliceDesugar/Terminal.antt =====
-- The places that the rewriting gives (crates/glyim-opt/src/slice_desugar.rs).
use glyim_v.Prelude.{
  ℕ, zero, suc, ◌≤◌, ◌<◌, ◌≡◌, refl, ◌∙◌, inl, inr, none, some, Option-cases, List, [], ◌∷◌, length,
  All-append, All-left, All-right, arith,
}
use glyim_v.Layout.Types.{Ty, TyCtx}
use glyim_v.Mir.Types.{
  ProjectionElem, Place, Operand, copy, move, constant, Rvalue, use_of, ref_of, binary_op, unary_op,
  aggregate, discriminant, len_of, cast, repeat,
}
use glyim_v.Mir.Drop.{place_ty}
use glyim_v.Opt.Validate.WellFormed.{IsTerminal, operand_places, places_of, rvalue_places}
use glyim_v.Opt.SliceDesugar.{
  Rewriting, as_value, split_at, materialize, desugar_rounds, desugar_place, desugar_operand,
  desugar_operands, desugar_rvalue,
}
use glyim_v.Opt.SliceDesugar.Splits.{
  AllTerminal, AllDeclared, Gives, Gives-as_value, Gives-then, declared-le, split_at-none,
  split_at-some, IsTerminal-nil, place_ty-some, materialize-Grows,
}

-- The rounds are enough, and the place they give has no split left.
module _ (types : TyCtx) where
  pub rounds-done :
      (fuel : ℕ) (place : Place) (st : Rewriting)
      → split_at place.projection ≡ none
      → desugar_rounds (suc fuel) types place st ≡ some (st, place)
  unfolding desugar_rounds
  rounds-done fuel place st e = rw (desugar_rounds, e) refl

  pub rounds-split :
      (fuel : ℕ) (place : Place) (st : Rewriting)
      (parts : List ProjectionElem × List ProjectionElem) (ty : Ty)
      → split_at place.projection ≡ some parts
      → place_ty types st.locals (record { local = place.local; projection = parts.0 }) ≡ some ty
      → desugar_rounds (suc fuel) types place st
        ≡ desugar_rounds fuel types
            (record { local = length st.locals; projection = parts.1 })
            (materialize (record { local = place.local; projection = parts.0 }) ty st)
  unfolding desugar_rounds
  rounds-split fuel place st parts ty e q = rw (desugar_rounds, e, q) refl

  desugar_rounds-Gives :
      (fuel : ℕ) (place : Place) (st : Rewriting)
      → length place.projection ≤ fuel
      → place.local < length st.locals
      → Gives (λ new. IsTerminal new.projection) st (desugar_rounds fuel types place st)
  unfolding desugar_rounds
  desugar_rounds-Gives zero place st enough h =
      (st, place, refl, IsTerminal-nil place.projection enough, (omega arith, λ c. c))
  desugar_rounds-Gives (suc fuel) place st enough h =
      elim (Option-cases (split_at place.projection)) [
        | inl e ↦ (
          st,
          place,
          rounds-done fuel place st e,
          split_at-none place.projection e,
          (omega arith, λ c. c),
        )
        | inr (parts, e) ↦
            let (terminal, shorter) = split_at-some place.projection parts e in
            let prefix : Place = record { local = place.local; projection = parts.0 } in
            let (ty, q) = place_ty-some types st.locals prefix h in
            let ((le, c), lt) = materialize-Grows prefix ty st terminal in
            let (st', new, q', t, (le', c')) =
              desugar_rounds-Gives fuel (record { local = length st.locals; projection = parts.1 })
                (materialize prefix ty st) (omega (arith, shorter)) lt in
            (
              st',
              new,
              rounds-split fuel place st parts ty e q ∙ q',
              t,
              (omega (arith, le, le'), λ k. c' (c k)),
            )
      ]

  pub desugar_place-Gives :
      (place : Place) (st : Rewriting)
      → place.local < length st.locals
      → Gives (λ new. IsTerminal new.projection) st (desugar_place types place st)
  unfolding desugar_place
  desugar_place-Gives place st h =
      desugar_rounds-Gives (length place.projection) place st (omega arith) h

  -- A place in the form of a list of one.
  pub place-Gives :
      {B : Type 0} (Q : B → Type 0) (f : Place → B) (place : Place) (st : Rewriting)
      → ((new : Place) → IsTerminal new.projection → Q (f new))
      → place.local < length st.locals
      → Gives Q st (as_value f (desugar_place types place st))
  place-Gives Q f place st h l =
      Gives-as_value (λ new. IsTerminal new.projection) Q f st (desugar_place types place st) h
        (desugar_place-Gives place st l)

  abbrev pub IsClean : Operand → Type 0
  IsClean operand = AllTerminal (operand_places operand)

  pub desugar_operand-Gives :
      (operand : Operand) (st : Rewriting)
      → AllDeclared st.locals (operand_places operand)
      → Gives IsClean st (desugar_operand types operand st)
  desugar_operand-Gives (copy place) st h = place-Gives IsClean copy place st (λ new t. (t, tt)) h.0
  desugar_operand-Gives (move place) st h = place-Gives IsClean move place st (λ new t. (t, tt)) h.0
  desugar_operand-Gives (constant value) st h =
      (st, constant value, refl, tt, (omega arith, λ c. c))

  pub operand-Gives :
      {B : Type 0} (Q : B → Type 0) (f : Operand → B) (operand : Operand) (st : Rewriting)
      → ((new : Operand) → IsClean new → Q (f new))
      → AllDeclared st.locals (operand_places operand)
      → Gives Q st (as_value f (desugar_operand types operand st))
  operand-Gives Q f operand st h l =
      Gives-as_value IsClean Q f st (desugar_operand types operand st) h
        (desugar_operand-Gives operand st l)

  pub desugar_operands-Gives :
      (operands : List Operand) (st : Rewriting)
      → AllDeclared st.locals (places_of operands)
      → Gives (λ new. AllTerminal (places_of new)) st (desugar_operands types operands st)
  desugar_operands-Gives [] st h = (st, [], refl, tt, (omega arith, λ c. c))
  desugar_operands-Gives (operand ∷ operands) st h =
      Gives-then IsClean (λ new. AllTerminal (places_of new)) _ st
        (desugar_operand types operand st)
        (λ new st1 clean le.
          Gives-as_value (λ rest. AllTerminal (places_of rest)) (λ new. AllTerminal (places_of new))
            (λ rest. new ∷ rest) st1 (desugar_operands types operands st1)
            (λ rest k. All-append _ (operand_places new) (places_of rest) clean k)
            (desugar_operands-Gives operands st1 (
              declared-le st.locals st1.locals (places_of operands) le
                (All-right _ (operand_places operand) (places_of operands) h))))
        (desugar_operand-Gives operand st
          (All-left _ (operand_places operand) (places_of operands) h))

  abbrev pub IsCleanRvalue : Rvalue → Type 0
  IsCleanRvalue rvalue = AllTerminal (rvalue_places rvalue)

  pub desugar_rvalue-Gives :
      (rvalue : Rvalue) (st : Rewriting)
      → AllDeclared st.locals (rvalue_places rvalue)
      → Gives IsCleanRvalue st (desugar_rvalue types rvalue st)
  unfolding desugar_rvalue
  desugar_rvalue-Gives (use_of operand) st h =
      operand-Gives IsCleanRvalue use_of operand st (λ _ k. k) h
  desugar_rvalue-Gives (binary_op op left right) st h =
      Gives-then IsClean IsCleanRvalue _ st (desugar_operand types left st)
        (λ new st1 clean le.
          operand-Gives IsCleanRvalue (binary_op op new) right st1
            (λ new' k. All-append _ (operand_places new) (operand_places new') clean k)
            (declared-le st.locals st1.locals (operand_places right) le
              (All-right _ (operand_places left) (operand_places right) h)))
        (desugar_operand-Gives left st (All-left _ (operand_places left) (operand_places right) h))
  desugar_rvalue-Gives (unary_op op operand) st h =
      operand-Gives IsCleanRvalue (unary_op op) operand st (λ _ k. k) h
  desugar_rvalue-Gives (ref_of place kind) st h =
      place-Gives IsCleanRvalue (λ new. ref_of new kind) place st (λ _ k. (k, tt)) h.0
  desugar_rvalue-Gives (aggregate kind operands) st h =
      Gives-as_value _ IsCleanRvalue (aggregate kind) st (desugar_operands types operands st)
        (λ _ k. k) (desugar_operands-Gives operands st h)
  desugar_rvalue-Gives (discriminant place) st h =
      place-Gives IsCleanRvalue discriminant place st (λ _ k. (k, tt)) h.0
  desugar_rvalue-Gives (len_of place) st h =
      place-Gives IsCleanRvalue len_of place st (λ _ k. (k, tt)) h.0
  desugar_rvalue-Gives (cast kind operand ty) st h =
      operand-Gives IsCleanRvalue (λ new. cast kind new ty) operand st (λ _ k. k) h
  desugar_rvalue-Gives (repeat operand count) st h =
      operand-Gives IsCleanRvalue (λ new. repeat new count) operand st (λ _ k. k) h
