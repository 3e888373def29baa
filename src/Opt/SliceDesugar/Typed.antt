-- ===== src/Opt/SliceDesugar/Typed.antt =====
-- The types of the places that the rewriting gives (crates/glyim-opt/src/slice_desugar.rs).
use glyim_v.Prelude.{
  ℕ, zero, suc, ◌<◌, ◌≡◌, refl, sym, ap, subst, ◌∙◌, inl, inr, some, Option-cases, List, [], ◌∷◌,
  ◌++◌, length, length-append, get_elem?-lt, get_elem?-append_left, get_elem?-append_length,
  if_cases, arith,
}
use mathlib.Core.Option.{some_inj}
use mathlib.Core.List.{append_assoc, append-nil}
use glyim_v.Layout.Types.{Ty, TyCtx}
use glyim_v.Mir.Types.{ProjectionElem, Place, copy, use_of, Statement, assign, storage_live}
use glyim_v.Mir.Drop.{place_ty, project_all, project_ty}
use glyim_v.Opt.Validate.{is_slice}
use glyim_v.Opt.SliceDesugar.{Rewriting, split_at, materialize, desugar_rounds, desugar_place}
use glyim_v.Opt.SliceDesugar.Splits.{with_first-some, place_ty-known}
use glyim_v.Opt.SliceDesugar.Terminal.{rounds-done, rounds-split}

split_at-append :
    (projection : List ProjectionElem) (parts : List ProjectionElem × List ProjectionElem)
    → split_at projection ≡ some parts
    → parts.0 ++ parts.1 ≡ projection
unfolding split_at
split_at-append [] parts e = absurd (ground arith)
split_at-append (elem ∷ []) parts e = absurd (ground arith)
split_at-append (elem ∷ next ∷ rest) parts e = elim (if_cases (is_slice elem) e) [
  | inl (k, q) ↦ sym (ap (λ p. p.0 ++ p.1) (some_inj.0 q))
  | inr (k, q) ↦
      let (before, o, b) = with_first-some elem (split_at (next ∷ rest)) parts q in
      ap (λ xs. xs ++ parts.1) b
      ∙ ap (λ xs. elem ∷ xs) (split_at-append (next ∷ rest) (before, parts.1) o)
]

module _ (types : TyCtx) where
  project_all-append :
      (ty : Ty) (xs ys : List ProjectionElem)
      → project_all types (project_all types ty xs) ys ≡ project_all types ty (xs ++ ys)
  unfolding project_all
  project_all-append ty [] ys = refl
  project_all-append ty (x ∷ xs) ys = project_all-append (project_ty types ty x) xs ys

  -- The place has the type.
  pub record HasTy (locals : List Ty) (place : Place) (ty : Ty) : Type 0 where
    pub declared : place.local < length locals
    pub typed : place_ty types locals place ≡ some ty

  -- Locals from `start` on, of these types, are filled: in turn each one becomes live and is assigned a
  -- copy of a place of its type.
  abbrev pub Fills : List Ty → ℕ → List Ty → List Statement → Type 0
  Fills locals start [] statements = statements ≡ []
  Fills locals start (ty ∷ tys) statements =
      (source : Place) × (rest : List Statement) × (statements
        ≡ storage_live start
          ∷ assign (record { local = start; projection = [] }) (use_of (copy source))
          ∷ rest)
      × HasTy locals (record { local = start; projection = [] }) ty
      × HasTy locals source ty
      × Fills locals (suc start) tys rest

  HasTy-append :
      (locals more : List Ty) (place : Place) (ty : Ty)
      → HasTy locals place ty
      → HasTy (locals ++ more) place ty
  unfolding place_ty
  HasTy-append locals more place ty h =
      let same = get_elem?-append_left locals more place.local h.declared in
      let (base, e) = get_elem?-lt locals place.local h.declared in
      record {
        declared = omega (arith, h.declared, length-append locals more);
        typed =
            place_ty-known types (locals ++ more) place base (same ∙ e)
            ∙ sym (place_ty-known types locals place base e)
            ∙ h.typed;
      }

  -- The rewriting gives a place of the type, with new locals and the statements that
  -- fill each of them in turn.
  pub record Retypes (st : Rewriting) (place : Place) (ty : Ty) (st' : Rewriting) (new : Place)
      : Type 0 where
    pub locals : List Ty
    pub statements : List Statement
    pub declares : st'.locals ≡ st.locals ++ locals
    pub adds : st'.statements ≡ st.statements ++ statements
    pub fills : Fills st'.locals (length st.locals) locals statements
    pub kept : HasTy st'.locals new ty

  -- The new local and its two statements.
  module _ (st : Rewriting) (prefix : Place) (ty : Ty) (known : HasTy st.locals prefix ty) where
    abbrev filled : Rewriting
    filled = materialize prefix ty st

    abbrev temporary : List ProjectionElem → Place
    temporary projection = record { local = length st.locals; projection = projection }

    temporary-HasTy :
        (projection : List ProjectionElem)
        → HasTy filled.locals (temporary projection) (project_all types ty projection)
    temporary-HasTy projection = record {
      declared = omega (arith, length-append st.locals (ty ∷ []));
      typed =
          place_ty-known types filled.locals (temporary projection) ty
            (get_elem?-append_length st.locals ty []);
    }

    Retypes-filled :
        (projection : List ProjectionElem) (goal : Ty) (place : Place) (st' : Rewriting)
        (new : Place)
        → Retypes filled (temporary projection) goal st' new
        → Retypes st place goal st' new
    unfolding project_all
    Retypes-filled projection goal place st' new h =
        let fill : List Statement =
          storage_live (length st.locals) ∷ assign (temporary []) (use_of (copy prefix)) ∷ [] in
        let up : (place : Place) → HasTy filled.locals place ty → HasTy st'.locals place ty =
          λ place k.
            subst (λ ls. HasTy ls place ty) (sym h.declares)
              (HasTy-append filled.locals h.locals place ty k) in
        let next : length filled.locals ≡ suc (length st.locals) =
          omega (arith, length-append st.locals (ty ∷ [])) in
        record {
          locals = ty ∷ h.locals;
          statements = fill ++ h.statements;
          declares = h.declares ∙ append_assoc st.locals (ty ∷ []) h.locals;
          adds = h.adds ∙ append_assoc st.statements fill h.statements;
          fills = (
            prefix,
            h.statements,
            refl,
            up (temporary []) (temporary-HasTy []),
            up prefix (HasTy-append st.locals (ty ∷ []) prefix ty known),
            subst (λ k. Fills st'.locals k h.locals h.statements) next h.fills,
          );
          kept = h.kept;
        }

  desugar_rounds-Retypes :
      (fuel : ℕ) (place : Place) (st : Rewriting) (ty : Ty)
      → HasTy st.locals place ty
      → (st' : Rewriting) × (new : Place) × (desugar_rounds fuel types place st ≡ some (st', new))
        × Retypes st place ty st' new
  unfolding desugar_rounds
  desugar_rounds-Retypes zero place st ty h = (
    st,
    place,
    refl,
    record {
      locals = [];
      statements = [];
      declares = sym (append-nil st.locals);
      adds = sym (append-nil st.statements);
      fills = refl;
      kept = h;
    },
  )
  desugar_rounds-Retypes (suc fuel) place st ty h =
      elim (Option-cases (split_at place.projection)) [
        | inl e ↦ (
          st,
          place,
          rounds-done types fuel place st e,
          record {
            locals = [];
            statements = [];
            declares = sym (append-nil st.locals);
            adds = sym (append-nil st.statements);
            fills = refl;
            kept = h;
          },
        )
        | inr (parts, e) ↦
            let (base, found) = get_elem?-lt st.locals place.local h.declared in
            let prefix : Place = record { local = place.local; projection = parts.0 } in
            let middle : Ty = project_all types base parts.0 in
            let known : HasTy st.locals prefix middle = record {
              declared = h.declared;
              typed = place_ty-known types st.locals prefix base found;
            } in
            let goal : project_all types middle parts.1 ≡ ty =
              project_all-append base parts.0 parts.1
              ∙ ap (project_all types base) (split_at-append place.projection parts e)
              ∙ some_inj.0 (sym (place_ty-known types st.locals place base found) ∙ h.typed) in
            let (st', new, e', k) =
              desugar_rounds-Retypes fuel (temporary st prefix middle known parts.1)
                (materialize prefix middle st) ty
                (subst
                  (HasTy (materialize prefix middle st).locals
                    (temporary st prefix middle known parts.1))
                  goal (temporary-HasTy st prefix middle known parts.1)) in
            (
              st',
              new,
              rounds-split types fuel place st parts middle e known.typed ∙ e',
              Retypes-filled st prefix middle known parts.1 ty place st' new k,
            )
      ]

  -- For a place of a declared local that has a type: `desugar_place` does not panic, it declares locals
  -- after those there are, it adds for each of them in turn two statements and no others, one that makes
  -- it live and one that assigns it a copy of a place of the local's own type, and the place it returns
  -- has the type of the place it was given.
  pub desugar_place-Retypes :
      (place : Place) (st : Rewriting) (ty : Ty)
      → HasTy st.locals place ty
      → (st' : Rewriting) × (new : Place) × (desugar_place types place st ≡ some (st', new))
        × Retypes st place ty st' new
  unfolding desugar_place
  desugar_place-Retypes place st ty h =
      desugar_rounds-Retypes (length place.projection) place st ty h
