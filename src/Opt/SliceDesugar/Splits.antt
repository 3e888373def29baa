-- ===== src/Opt/SliceDesugar/Splits.antt =====
-- Where places are split, and what a rewriting gives (crates/glyim-opt/src/slice_desugar.rs).
use glyim_v.Prelude.{
  suc, ◌≤◌, ◌<◌, ◌≡◌, refl, sym, ap, subst, ◌∙◌, inl, inr, Option, none, some, List, [], ◌∷◌, ◌++◌,
  length, length-append, get_elem?, get_elem?-lt, All, All-append, if_cases, if◌then◌else◌, arith,
}
use mathlib.Core.Option.{some_inj}
use glyim_v.Layout.Types.{Ty, TyCtx}
use glyim_v.Mir.Types.{
  ProjectionElem, Place, Statement, assign, storage_live, storage_dead, nop, Terminator, goto,
  switch_int, return, unreachable, call, assert, drop_place,
}
use glyim_v.Mir.Drop.{place_ty, project_all}
use glyim_v.Opt.Validate.{is_slice}
use glyim_v.Opt.Validate.WellFormed.{IsTerminal, operand_places, places_of, rvalue_places}
use glyim_v.Opt.Validate.Sound.{IsTerminal-one, IsTerminal-cons}
use glyim_v.Opt.SliceDesugar.{
  Rewriting, Rewritten, ◌then◌, as_value, with_first, split_at, materialize,
}

-- The places that a statement or a terminator reads, borrows, writes or drops.
abbrev pub touched_places : Statement → List Place
touched_places (assign place rvalue) = place ∷ rvalue_places rvalue
touched_places (storage_live local) = []
touched_places (storage_dead local) = []
touched_places nop = []

abbrev pub terminator_places : Terminator → List Place
terminator_places (goto target) = []
terminator_places (switch_int discr ty targets) = operand_places discr
terminator_places return = []
terminator_places unreachable = []
terminator_places (call func args destination target cleanup) =
    destination ∷ (operand_places func ++ places_of args)
terminator_places (assert cond expected target cleanup msg) = operand_places cond
terminator_places (drop_place place target cleanup) = place ∷ []

abbrev pub AllTerminal : List Place → Type 0
AllTerminal = All (λ place. IsTerminal place.projection)

-- The places have declared locals.
abbrev pub AllDeclared : List Ty → List Place → Type 0
AllDeclared locals = All (λ place. place.local < length locals)

abbrev pub Clean : List Statement → Type 0
Clean = All (λ statement. AllTerminal (touched_places statement))

-- A rewriting only declares locals, and adds statements without a split left to make.
abbrev pub Grows : Rewriting → Rewriting → Type 0
Grows st st' = (length st.locals ≤ length st'.locals) × (Clean st.statements → Clean st'.statements)

abbrev pub Gives : {A : Type 0} → (A → Type 0) → Rewriting → Rewritten A → Type 0
Gives {A} P st r = (st' : Rewriting) × (a : A) × (r ≡ some (st', a)) × P a × Grows st st'

pub Gives-as_value :
    {A B : Type 0} (P : A → Type 0) (Q : B → Type 0) (f : A → B) (st : Rewriting) (r : Rewritten A)
    → ((a : A) → P a → Q (f a))
    → Gives P st r
    → Gives Q st (as_value f r)
Gives-as_value P Q f st r h (st', a, e, p, g) = (st', f a, ap (as_value f) e, h a p, g)

pub Gives-then :
    {A B : Type 0} (P : A → Type 0) (Q : B → Type 0) (f : A → Rewriting → Rewritten B)
    (st : Rewriting) (r : Rewritten A)
    → ((a : A) (st' : Rewriting)
        → P a
        → length st.locals ≤ length st'.locals
        → Gives Q st' (f a st'))
    → Gives P st r
    → Gives Q st (r then f)
Gives-then P Q f st r h (st1, a, e, p, (le, c)) =
    let (st2, b, e', q, (le', c')) = h a st1 p le in
    (st2, b, ap (λ r. r then f) e ∙ e', q, (omega (arith, le, le'), λ k. c' (c k)))

-- `split_at` finds the first split, or there is none to make.
pub with_first-none :
    (elem : ProjectionElem) (o : Option (List ProjectionElem × List ProjectionElem))
    → with_first elem o ≡ none
    → o ≡ none
with_first-none elem none e = refl
with_first-none elem (some (before, after)) e = absurd (ground arith)

pub split_at-none :
    (projection : List ProjectionElem) → split_at projection ≡ none → IsTerminal projection
unfolding split_at
split_at-none [] e = λ i elem q. absurd (ground arith)
split_at-none (elem ∷ []) e = IsTerminal-one elem
split_at-none (elem ∷ next ∷ rest) e = elim (if_cases (is_slice elem) e) [
  | inl (k, q) ↦ absurd (ground (arith, q))
  | inr (k, q) ↦
      IsTerminal-cons elem (next ∷ rest) k
        (split_at-none (next ∷ rest) (with_first-none elem (split_at (next ∷ rest)) q))
]

pub with_first-some :
    (elem : ProjectionElem) (o : Option (List ProjectionElem × List ProjectionElem))
    (parts : List ProjectionElem × List ProjectionElem)
    → with_first elem o ≡ some parts
    → (before : List ProjectionElem) × (o ≡ some (before, parts.1)) × (parts.0 ≡ elem ∷ before)
with_first-some elem none parts e = absurd (ground arith)
with_first-some elem (some (before, after)) parts e =
    let q = some_inj.0 e in (before, ap (λ p. some (before, p.1)) q, sym (ap (λ p. p.0) q))

pub split_at-some :
    (projection : List ProjectionElem) (parts : List ProjectionElem × List ProjectionElem)
    → split_at projection ≡ some parts
    → IsTerminal parts.0 × (length parts.1 < length projection)
unfolding split_at
split_at-some [] parts e = absurd (ground arith)
split_at-some (elem ∷ []) parts e = absurd (ground arith)
split_at-some (elem ∷ next ∷ rest) parts e = elim (if_cases (is_slice elem) e) [
  | inl (k, q) ↦
      let q' = some_inj.0 q in
      (
        subst IsTerminal (ap (λ p. p.0) q') (IsTerminal-one elem),
        subst (λ l. length l < suc (suc (length rest))) (ap (λ p. p.1) q') (omega arith),
      )
  | inr (k, q) ↦
      let (before, o, b) = with_first-some elem (split_at (next ∷ rest)) parts q in
      let (t, l) = split_at-some (next ∷ rest) (before, parts.1) o in
      (subst IsTerminal (sym b) (IsTerminal-cons elem before k t), omega (arith, l))
]

pub IsTerminal-nil :
    (projection : List ProjectionElem) → length projection ≤ 0 → IsTerminal projection
IsTerminal-nil [] h = λ i elem e. absurd (ground arith)
IsTerminal-nil (elem ∷ rest) h = absurd (omega arith)

pub place_ty-known :
    (types : TyCtx) (locals : List Ty) (place : Place) (ty : Ty)
    → get_elem? locals place.local ≡ some ty
    → place_ty types locals place ≡ some (project_all types ty place.projection)
unfolding place_ty
place_ty-known types locals place ty e = rw (place_ty, e) refl

pub place_ty-some :
    (types : TyCtx) (locals : List Ty) (place : Place)
    → place.local < length locals
    → (ty : Ty) × (place_ty types locals place ≡ some ty)
place_ty-some types locals place h =
    let (ty, e) = get_elem?-lt locals place.local h in
    (project_all types ty place.projection, place_ty-known types locals place ty e)

pub materialize-Grows :
    (prefix : Place) (ty : Ty) (st : Rewriting)
    → IsTerminal prefix.projection
    → Grows st (materialize prefix ty st)
      × (length st.locals < length (materialize prefix ty st).locals)
materialize-Grows prefix ty st h =
    let l = length-append st.locals (ty ∷ []) in
    (
      (
        omega (arith, l),
        λ c.
            All-append _ st.statements _ c
              (tt, (((λ i elem e. absurd (ground arith)), (h, tt)), tt)),
      ),
      omega (arith, l),
    )

pub declared-le :
    (locals locals' : List Ty) (places : List Place)
    → length locals ≤ length locals'
    → AllDeclared locals places
    → AllDeclared locals' places
declared-le locals locals' [] le h = tt
declared-le locals locals' (place ∷ places) le h =
    (omega (arith, h.0), declared-le locals locals' places le h.1)
