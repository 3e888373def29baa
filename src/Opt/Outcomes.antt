-- ===== src/Opt/Outcomes.antt =====
-- How a body ends, as a relation, and the fuel that a run which ends needs. This is not code:
-- crates/glyim-opt/src/cfg_simplify.rs is stated against it.
use glyim_v.Prelude.{
  ℕ, zero, suc, ◌≡◌, subst, refl, sym, ap, ◌∙◌, Option, none, some, List, get_elem?, Option-cases,
  inl, inr, arith,
}
use mathlib.Core.Option.{some_inj}
use glyim_v.Mir.Types.{BasicBlockIdx, BasicBlockData}
use glyim_v.Opt.Semantics.{
  Meaning, Next, to, leaves, unwinds, stuck, Result, returned, unwound, faulted, running,
  exec_block, follow, at_block, run_from,
}

abbrev pub ending : {S : Type 0} → Next S → Option (Result S)
ending (to b s) = none
ending (leaves s) = some (returned s)
ending (unwinds s) = some (unwound s)
ending stuck = some faulted

abbrev pub IsEnd : {S : Type 0} → Result S → Type 0
IsEnd (returned s) = Unit
IsEnd (unwound s) = Unit
IsEnd faulted = Unit
IsEnd running = ⊥

-- From a block and a state, the body ends in the result.
pub data Ends {S : Type 0} (m : Meaning S) (blocks : List BasicBlockData)
    : BasicBlockIdx → S → Result S → Type 0 where
  missing : {b : BasicBlockIdx} {s : S} → get_elem? blocks b ≡ none → Ends m blocks b s faulted
  stops :
      {b : BasicBlockIdx} {s : S} {r : Result S} (block : BasicBlockData)
      → get_elem? blocks b ≡ some block
      → ending (exec_block m block s) ≡ some r
      → Ends m blocks b s r
  goes :
      {b b' : BasicBlockIdx} {s s' : S} {r : Result S} (block : BasicBlockData)
      → get_elem? blocks b ≡ some block
      → exec_block m block s ≡ to b' s'
      → Ends m blocks b' s' r
      → Ends m blocks b s r

module _ {S : Type 0} (m : Meaning S) (blocks : List BasicBlockData) where
  follow-ending :
      (continue : BasicBlockIdx → S → Result S) (n : Next S) (r : Result S)
      → ending n ≡ some r
      → follow continue n ≡ r
  follow-ending continue (to b s) r e = cc
  follow-ending continue (leaves s) r e = cc
  follow-ending continue (unwinds s) r e = cc
  follow-ending continue stuck r e = cc

  pub Ends-run_from :
      (b : BasicBlockIdx) (s : S) (r : Result S)
      → Ends m blocks b s r
      → (fuel : ℕ) × (run_from m fuel blocks b s ≡ r)
  unfolding run_from
  Ends-run_from b s _ (missing e) = (1, ap (λ o. at_block m (run_from m 0 blocks) o s) e)
  Ends-run_from b s r (stops block e x) = (
    1,
    ap (λ o. at_block m (run_from m 0 blocks) o s) e
        ∙ follow-ending (run_from m 0 blocks) (exec_block m block s) r x,
  )
  Ends-run_from b s r (goes {b'} {s'} block e x d) =
      let (fuel, q) = Ends-run_from b' s' r d in
      (
        suc fuel,
        ap (λ o. at_block m (run_from m fuel blocks) o s) e
            ∙ ap (follow (run_from m fuel blocks)) x
            ∙ q,
      )

  -- From what a block leads to, given what the next block ends in.
  continues :
      (continue : BasicBlockIdx → S → Result S) (b : BasicBlockIdx) (s : S) (r : Result S)
      → ((b' : BasicBlockIdx) (s' : S) → continue b' s' ≡ r → Ends m blocks b' s' r)
      → (block : BasicBlockData) → get_elem? blocks b ≡ some block
      → (n : Next S) → exec_block m block s ≡ n
      → follow continue n ≡ r
      → Ends m blocks b s r
  continues continue b s r later block e (to b' s') x q = goes block e x (later b' s' q)
  continues continue b s r later block e (leaves s') x q = stops block e (ap ending x ∙ ap some q)
  continues continue b s r later block e (unwinds s') x q = stops block e (ap ending x ∙ ap some q)
  continues continue b s r later block e stuck x q = stops block e (ap ending x ∙ ap some q)

  pub run_from-Ends :
      (fuel : ℕ) (b : BasicBlockIdx) (s : S) (r : Result S)
      → run_from m fuel blocks b s ≡ r
      → IsEnd r
      → Ends m blocks b s r
  unfolding run_from
  run_from-Ends zero b s r q k = absurd (subst IsEnd (sym q) k)
  run_from-Ends (suc fuel) b s r q k = elim (Option-cases (get_elem? blocks b)) [
    | inl e ↦
        subst (Ends m blocks b s) (sym (ap (λ o. at_block m (run_from m fuel blocks) o s) e) ∙ q)
          (missing e)
    | inr (block, e) ↦
        continues (run_from m fuel blocks) b s r (λ b' s' q'. run_from-Ends fuel b' s' r q' k) block
          e (exec_block m block s) refl
          (sym (ap (λ o. at_block m (run_from m fuel blocks) o s) e) ∙ q)
  ]

  pub Ends-IsEnd : (b : BasicBlockIdx) (s : S) (r : Result S) → Ends m blocks b s r → IsEnd r
  Ends-IsEnd b s _ (missing e) = tt
  Ends-IsEnd b s r (stops block e x) = ending-IsEnd (exec_block m block s) r x
    where
      ending-IsEnd : (n : Next S) (r : Result S) → ending n ≡ some r → IsEnd r
      ending-IsEnd (to b s) r x = absurd (ground arith)
      ending-IsEnd (leaves s) r x = subst IsEnd (some_inj.0 x) tt
      ending-IsEnd (unwinds s) r x = subst IsEnd (some_inj.0 x) tt
      ending-IsEnd stuck r x = subst IsEnd (some_inj.0 x) tt
  Ends-IsEnd b s r (goes {b'} {s'} block e x d) = Ends-IsEnd b' s' r d
