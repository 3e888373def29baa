-- ===== src/Opt/CfgSimplify/Merged.antt =====
-- A block with the block appended that it alone leads to (crates/glyim-opt/src/cfg_simplify.rs).
use glyim_v.Prelude.{
  ℕ, ◌≡◌, ◌≢◌, refl, sym, ap, subst, ◌∙◌, inl, inr, Option, none, some, List, [], ◌∷◌, ◌++◌,
  get_elem?, All, Option-cases, eq-cases, arith,
}
use mathlib.Core.Option.{some_inj}
use glyim_v.Mir.Types.{BasicBlockIdx, Statement, goto, BasicBlockData}
use glyim_v.Opt.Edges.{terminator_successors}
use glyim_v.Opt.Semantics.{
  Meaning, to, stuck, Result, step, exec_all, then_exec, then_step, exec_block,
}
use glyim_v.Opt.Outcomes.{ending, Ends, missing, stops, goes}
use glyim_v.Opt.Renumber.{AllNext, exec_block-All}

module _ {S : Type 0} (m : Meaning S) where
  then_exec-then_exec :
      (f g h : S → Option S)
      → ((s : S) → h s ≡ then_exec g (f s))
      → (o : Option S) → then_exec h o ≡ then_exec g (then_exec f o)
  then_exec-then_exec f g h e none = refl
  then_exec-then_exec f g h e (some s) = e s

  exec_all-append :
      (xs ys : List Statement) (s : S)
      → exec_all m (xs ++ ys) s ≡ then_exec (exec_all m ys) (exec_all m xs s)
  unfolding exec_all
  exec_all-append [] ys s = refl
  exec_all-append (x ∷ xs) ys s =
      then_exec-then_exec (exec_all m xs) (exec_all m ys) (exec_all m (xs ++ ys))
        (exec_all-append xs ys) (m.statement x s)

  -- The block `p` leads to the block `i` only, and `both` is `p` with `i` appended.
  module _ (p i : BasicBlockIdx) (at_p at_i both : BasicBlockData)
      (leads : at_p.terminator ≡ goto i)
      (statements : both.statements ≡ at_p.statements ++ at_i.statements)
      (terminator : both.terminator ≡ at_i.terminator) (apart : p ≢ i) where
    first-fails :
        (s : S)
        → exec_all m at_p.statements s ≡ none
        → (exec_block m at_p s ≡ stuck) × (exec_block m both s ≡ stuck)
    unfolding exec_block
    first-fails s e = (
      ap (then_step m at_p.terminator) e,
      ap (then_step m both.terminator) (
          ap (λ l. exec_all m l s) statements
          ∙ exec_all-append at_p.statements at_i.statements s
          ∙ ap (then_exec (exec_all m at_i.statements)) e),
    )

    first-runs :
        (s s' : S)
        → exec_all m at_p.statements s ≡ some s'
        → (exec_block m at_p s ≡ to i s') × (exec_block m both s ≡ exec_block m at_i s')
    unfolding exec_block step
    first-runs s s' e = (
      ap (then_step m at_p.terminator) e ∙ ap (λ t. step m t s') leads,
      ap (λ t. then_step m t (exec_all m both.statements s)) terminator
          ∙ ap (then_step m at_i.terminator) (
              ap (λ l. exec_all m l s) statements
              ∙ exec_all-append at_p.statements at_i.statements s
              ∙ ap (then_exec (exec_all m at_i.statements)) e),
    )

    -- In the new blocks `both` stands at `p`, and no other block leads to `i` before or after.
    module _ (old new : List BasicBlockData) (old_p : get_elem? old p ≡ some at_p)
        (old_i : get_elem? old i ≡ some at_i) (new_p : get_elem? new p ≡ some both)
        (others : (b : ℕ) → b ≢ p → b ≢ i → get_elem? new b ≡ get_elem? old b)
        (only : (b : ℕ) (block : BasicBlockData)
          → b ≢ p
          → get_elem? old b ≡ some block
          → All (λ j. j ≢ i) (terminator_successors block.terminator)) where
      lands-elsewhere :
          (block : BasicBlockData) (s s' : S) (b : BasicBlockIdx)
          → All (λ j. j ≢ i) (terminator_successors block.terminator)
          → exec_block m block s ≡ to b s'
          → b ≢ i
      lands-elsewhere block s s' b h e =
          subst (AllNext (λ j. j ≢ i)) e (exec_block-All (λ j. j ≢ i) m block s h)

      -- A block that ends the run at `p`, and one that goes on from there.
      stops-both : (s : S) (r : Result S) → ending (exec_block m at_p s) ≡ some r → Ends m new p s r
      stops-both s r x = elim (Option-cases (exec_all m at_p.statements s)) [
        | inl h ↦ let (f, g) = first-fails s h in stops both new_p (ap ending (g ∙ sym f) ∙ x)
        | inr (s1, h) ↦
            let z = ap ending (sym (first-runs s s1 h).0) ∙ x in absurd (ground (arith, z))
      ]

      goes-both :
          (s : S) (b' : BasicBlockIdx) (s' : S)
          → exec_block m at_p s ≡ to b' s'
          → (b' ≡ i) × (exec_block m both s ≡ exec_block m at_i s')
      goes-both s b' s' x = elim (Option-cases (exec_all m at_p.statements s)) [
        | inl h ↦
            let z : stuck ≡ to b' s' = sym (first-fails s h).0 ∙ x in absurd (ground (arith, z))
        | inr (s1, h) ↦
            let (f, g) = first-runs s s1 h in
            let z : to i s1 ≡ to b' s' = sym f ∙ x in (cc z, g ∙ ap (exec_block m at_i) (cc z))
      ]

      both-stops : (s : S) (r : Result S) → ending (exec_block m both s) ≡ some r → Ends m old p s r
      both-stops s r x = elim (Option-cases (exec_all m at_p.statements s)) [
        | inl h ↦ let (f, g) = first-fails s h in stops at_p old_p (ap ending (f ∙ sym g) ∙ x)
        | inr (s1, h) ↦
            let (f, g) = first-runs s s1 h in
            goes at_p old_p f (stops at_i old_i (ap ending (sym g) ∙ x))
      ]

      both-goes :
          (s : S) (b' : BasicBlockIdx) (s' : S) (r : Result S)
          → exec_block m both s ≡ to b' s'
          → (b' ≢ i → Ends m old b' s' r)
          → Ends m old p s r
      both-goes s b' s' r x later = elim (Option-cases (exec_all m at_p.statements s)) [
        | inl h ↦
            let z : stuck ≡ to b' s' = sym (first-fails s h).1 ∙ x in absurd (ground (arith, z))
        | inr (s1, h) ↦
            let (f, g) = first-runs s s1 h in
            let x' = sym g ∙ x in
            goes at_p old_p f (
              goes at_i old_i x'
                (later (lands-elsewhere at_i s1 s' b' (only i at_i (λ z. apart (sym z)) old_i) x')))
      ]

      -- From the old blocks to the new; second, when the run stands at `i`, where `both` has got to.
      pub merged-Ends :
          (b : BasicBlockIdx) (s : S) (r : Result S)
          → Ends m old b s r
          → (b ≢ i → Ends m new b s r)
            × (b ≡ i → (s0 : S) → exec_block m both s0 ≡ exec_block m at_i s → Ends m new p s0 r)
      merged-Ends b s _ (missing e) = (
        (λ n. missing (
            others b
              (λ q. absurd (let z = sym e ∙ ap (get_elem? old) q ∙ old_p in ground (arith, z))) n
            ∙ e)),
        λ q s0 x. absurd (let z = sym e ∙ ap (get_elem? old) q ∙ old_i in ground (arith, z)),
      )
      merged-Ends b s r (stops block e x) = (
        (λ n. elim (eq-cases b p) [
          | inl q ↦
              let same : block ≡ at_p = some_inj.0 (sym e ∙ ap (get_elem? old) q ∙ old_p) in
              subst (λ c. Ends m new c s r) (sym q)
                (stops-both s r (ap (λ c. ending (exec_block m c s)) (sym same) ∙ x))
          | inr q ↦ stops block (others b q n ∙ e) x
        ]),
        λ q s0 y.
            let same : block ≡ at_i = some_inj.0 (sym e ∙ ap (get_elem? old) q ∙ old_i) in
            stops both new_p (ap ending y ∙ ap (λ c. ending (exec_block m c s)) (sym same) ∙ x),
      )
      merged-Ends b s r (goes {b'} {s'} block e x d) =
          let rest = merged-Ends b' s' r d in
          (
            (λ n. elim (eq-cases b p) [
              | inl q ↦
                  let same : block ≡ at_p = some_inj.0 (sym e ∙ ap (get_elem? old) q ∙ old_p) in
                  let (b'-is, x') = goes-both s b' s' (ap (λ c. exec_block m c s) (sym same) ∙ x) in
                  subst (λ c. Ends m new c s r) (sym q) (rest.1 b'-is s x')
              | inr q ↦
                  goes block (others b q n ∙ e) x
                    (rest.0 (lands-elsewhere block s s' b' (only b block q e) x))
            ]),
            λ q s0 y.
                let same : block ≡ at_i = some_inj.0 (sym e ∙ ap (get_elem? old) q ∙ old_i) in
                goes both new_p (y ∙ ap (λ c. exec_block m c s) (sym same) ∙ x) (
                  rest.0
                    (lands-elsewhere block s s' b' (only b block (λ z. apart (sym z ∙ q)) e) x)),
          )

      -- From the new blocks to the old.
      pub Ends-merged :
          (b : BasicBlockIdx) (s : S) (r : Result S) → Ends m new b s r → b ≢ i → Ends m old b s r
      Ends-merged b s _ (missing e) n = missing (
          sym (
            others b
              (λ q. absurd (let z = sym e ∙ ap (get_elem? new) q ∙ new_p in ground (arith, z))) n)
          ∙ e)
      Ends-merged b s r (stops block e x) n = elim (eq-cases b p) [
        | inl q ↦
            let same : block ≡ both = some_inj.0 (sym e ∙ ap (get_elem? new) q ∙ new_p) in
            subst (λ c. Ends m old c s r) (sym q)
              (both-stops s r (ap (λ c. ending (exec_block m c s)) (sym same) ∙ x))
        | inr q ↦ stops block (sym (others b q n) ∙ e) x
      ]
      Ends-merged b s r (goes {b'} {s'} block e x d) n = elim (eq-cases b p) [
        | inl q ↦
            let same : block ≡ both = some_inj.0 (sym e ∙ ap (get_elem? new) q ∙ new_p) in
            subst (λ c. Ends m old c s r) (sym q)
              (both-goes s b' s' r (ap (λ c. exec_block m c s) (sym same) ∙ x)
                (Ends-merged b' s' r d))
        | inr q ↦
            let e' = sym (others b q n) ∙ e in
            goes block e' x
              (Ends-merged b' s' r d (lands-elsewhere block s s' b' (only b block q e') x))
      ]
