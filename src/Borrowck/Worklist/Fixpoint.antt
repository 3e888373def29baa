-- ===== src/Borrowck/Worklist/Fixpoint.antt =====
-- The facts between the rounds of the loop over a worklist (liveness.rs and move_analysis.rs of
-- crates/glyim-borrowck/src).
use glyim_v.Prelude.{
  ℕ, zero, suc, ◌+◌, ◌-◌, ◌*◌, ◌≤◌, ◌<◌, ◌≡◌, refl, sym, subst, ◌∙◌, inl, inr, true, false, ◌||◌,
  ◌⊎◌, List, [], ◌∷◌, length, length-set, set, All, ◌==◌, Bool-cases, contains, arith,
}
use glyim_v.Borrowck.Worklist.{Analysis, at}

module _ {ℓ} {A : Type ℓ} (d v : A) where
  pub at-set_self : (xs : List A) (i : ℕ) → i < length xs → at d (set xs i v) i ≡ v
  at-set_self [] i h = absurd (omega arith)
  at-set_self (x ∷ xs) zero h = refl
  at-set_self (x ∷ xs) (suc i) h = at-set_self xs i (omega arith)

  pub at-set_ne : (xs : List A) (i j : ℕ) → (i == j) ≡ false → at d (set xs i v) j ≡ at d xs j
  at-set_ne [] i j h = refl
  at-set_ne (x ∷ xs) zero zero h = cc
  at-set_ne (x ∷ xs) zero (suc j) h = refl
  at-set_ne (x ∷ xs) (suc i) zero h = refl
  at-set_ne (x ∷ xs) (suc i) (suc j) h = at-set_ne xs i j (ground arith)

-- What the facts of an analysis over `n` blocks have to satisfy: `P` says what each fact keeps, `Le` is
-- the order in which facts grow, and `weight` counts how far one has grown.
pub record IsMonotone (a : Analysis) (n bound degree : ℕ) (P : ℕ → a.Fact → Type 0)
    (Le : a.Fact → a.Fact → Type 0) (weight : a.Fact → ℕ) : Type 0 where
  pub keeps :
      (F : List a.Fact)
      → ((i : ℕ) → i < n → P i (at a.bottom F i))
      → (i : ℕ) → i < n
      → P i (a.recompute F i)
  pub Le_refl : (x : a.Fact) → Le x x
  pub Le_trans : (x y z : a.Fact) → Le x y → Le y z → Le x z
  pub mono :
      (F G : List a.Fact)
      → ((i : ℕ) → i < n → Le (at a.bottom F i) (at a.bottom G i))
      → (i : ℕ) → i < n
      → Le (a.recompute F i) (a.recompute G i)
  pub same_self : (x : a.Fact) → a.is_same x x ≡ true
  pub depends :
      (F : List a.Fact) (i j : ℕ) (v : a.Fact)
      → i < n
      → j < n
      → contains (a.dependents i) j ≡ false
      → a.recompute (set F i v) j ≡ a.recompute F j
  pub grows :
      (i : ℕ) (x y : a.Fact) → P i x → P i y → Le x y → a.is_same y x ≡ false → weight x < weight y
  pub light : (i : ℕ) (x : a.Fact) → P i x → weight x ≤ bound
  pub in_range : (i : ℕ) → i < n → All (λ j. j < n) (a.dependents i)
  pub few : (i : ℕ) → i < n → length (a.dependents i) ≤ degree

module _ (a : Analysis) (n bound degree : ℕ) (P : ℕ → a.Fact → Type 0)
    (Le : a.Fact → a.Fact → Type 0) (weight : a.Fact → ℕ)
    (m : IsMonotone a n bound degree P Le weight) where
  open a use {Fact, bottom, recompute, is_same, dependents}

  -- How far the facts can still grow.
  abbrev pub room : List Fact → ℕ
  room [] = 0
  room (x ∷ xs) = (bound - weight x) + room xs

  pub room-set :
      (F : List Fact) (i : ℕ) (v : Fact)
      → i < length F
      → weight (at bottom F i) < weight v
      → weight v ≤ bound
      → room (set F i v) < room F
  room-set [] i v h g l = absurd (omega arith)
  room-set (x ∷ xs) zero v h g l = omega arith
  room-set (x ∷ xs) (suc i) v h g l = omega (arith, room-set xs i v (omega arith) g l)

  pub room-le : (F : List Fact) → room F ≤ length F * bound
  room-le [] = omega arith
  room-le (x ∷ xs) = grind (arith, room-le xs)

  -- The facts of a run between two rounds.
  pub record IsBelow (F : List Fact) (worklist : List ℕ) : Type 0 where
    pub sized : length F ≡ n
    pub kept : (i : ℕ) → i < n → P i (at bottom F i)
    pub below : (i : ℕ) → i < n → Le (at bottom F i) (recompute F i)
    pub fixed :
        (j : ℕ)
        → j < n
        → contains worklist j ≡ false
        → is_same (recompute F j) (at bottom F j) ≡ true

  -- A round that finds no change.
  pub IsBelow-pop :
      (F : List Fact) (i : ℕ) (rest : List ℕ)
      → is_same (recompute F i) (at bottom F i) ≡ true
      → IsBelow F (i ∷ rest)
      → IsBelow F rest
  unfolding contains
  IsBelow-pop F i rest e h = record {
    sized = h.sized;
    kept = h.kept;
    below = h.below;
    fixed = λ j lt out. elim (Bool-cases (i == j)) [
      | inl q ↦ subst (λ k. is_same (recompute F k) (at bottom F k) ≡ true) (ground arith) e
      | inr q ↦ h.fixed j lt (ground arith)
    ];
  }

  -- A round that changes the facts of `i`.
  module _ (F : List Fact) (i : ℕ) (rest next : List ℕ) (lt : i < n)
      (h : IsBelow F (i ∷ rest)) where
    abbrev pub changed : List Fact
    changed = set F i (recompute F i)

    at-changed :
        (j : ℕ)
        → (at bottom changed j ≡ recompute F i) × (i ≡ j)
          ⊎ (at bottom changed j ≡ at bottom F j) × ((i == j) ≡ false)
    at-changed j = elim (Bool-cases (i == j)) [
      | inl q ↦
          let e : i ≡ j = ground arith in
          inl (
            subst (λ k. at bottom changed k ≡ recompute F i) e
                (at-set_self bottom (recompute F i) F i (omega (arith, h.sized))),
            e,
          )
      | inr q ↦ inr (at-set_ne bottom (recompute F i) F i j q, q)
    ]

    grown : (j : ℕ) → j < n → Le (at bottom F j) (at bottom changed j)
    grown j k = elim (at-changed j) [
      | inl (e, q) ↦
          subst (Le (at bottom F j)) (sym e)
            (subst (λ l. Le (at bottom F l) (recompute F i)) q (h.below i lt))
      | inr (e, q) ↦ subst (Le (at bottom F j)) (sym e) (m.Le_refl (at bottom F j))
    ]

    pub IsBelow-change :
        ((j : ℕ) → contains next j ≡ (contains (dependents i) j || contains rest j))
        → IsBelow changed next
    unfolding contains
    IsBelow-change all = record {
      sized = length-set F i (recompute F i) ∙ h.sized;
      kept = λ j k. elim (at-changed j) [
        | inl (e, q) ↦
            subst (P j) (sym e) (subst (λ l. P l (recompute F i)) q (m.keeps F h.kept i lt))
        | inr (e, q) ↦ subst (P j) (sym e) (h.kept j k)
      ];
      below = λ j k.
          let step : Le (recompute F j) (recompute changed j) = m.mono F changed grown j k in
          elim (at-changed j) [
            | inl (e, q) ↦
                subst (λ x. Le x (recompute changed j)) (sym e)
                  (subst (λ l. Le (recompute F i) (recompute changed l)) q
                    (m.mono F changed grown i lt))
            | inr (e, q) ↦
                subst (λ x. Le x (recompute changed j)) (sym e)
                  (m.Le_trans _ _ _ (h.below j k) step)
          ];
      fixed = λ j k out.
          let same = m.depends F i j (recompute F i) lt k (ground (arith, all j)) in
          elim (at-changed j) [
            | inl (e, q) ↦
                rw (same, e)
                  (subst (λ l. is_same (recompute F l) (recompute F i) ≡ true) q
                    (m.same_self (recompute F i)))
            | inr (e, q) ↦ rw (same, e) (h.fixed j k (ground (arith, all j)))
          ];
    }
