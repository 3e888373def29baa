-- ===== src/Borrowck/Liveness/Summaries.antt =====
-- The summaries of the blocks: `compute_block_summaries` and `local_capacity`
-- (crates/glyim-borrowck/src/liveness.rs).
use glyim_v.Prelude.{
  ℕ, ◌<◌, ◌≡◌, refl, subst, ◌∙◌, inl, inr, Bool, true, false, ◌&&◌, ◌||◌, not, some, List, [], ◌∷◌,
  All, ◌==◌, Bool-cases, contains, arith,
}
use glyim_v.Mir.Types.{
  LocalIdx, Place, Statement, assign, storage_live, storage_dead, nop, Terminator, goto, switch_int,
  return, unreachable, call, assert, drop_place, BasicBlockData,
}
use glyim_v.Borrowck.BitSets.{BitSets}
use glyim_v.Borrowck.Liveness.{
  Summary, visit_use, visit_gen, summarize_statements, define_destination, summarize_block,
}
use glyim_v.Borrowck.Liveness.Paths.{
  rvalue_locals, terminator_locals, overwrites, ReadsBelow, LiveAt, reads, past, past_live,
  past_dead, past_nop,
}
use glyim_v.Borrowck.Liveness.Gather.{Adds, rvalue-Adds, terminator-Adds}
use glyim_v.Borrowck.Liveness.Capacity.{AssignsBelow, DestinationBelow}

-- Whether the statements read a local before they assign it, and whether they assign it.
abbrev pub read_first : List Statement → LocalIdx → Bool
read_first [] l = false
read_first (assign p r ∷ stmts) l =
    contains (rvalue_locals r) l || (not (p.local == l) && read_first stmts l)
read_first (storage_live k ∷ stmts) l = read_first stmts l
read_first (storage_dead k ∷ stmts) l = read_first stmts l
read_first (nop ∷ stmts) l = read_first stmts l

abbrev pub assigned : List Statement → LocalIdx → Bool
assigned [] l = false
assigned (assign p r ∷ stmts) l = (p.local == l) || assigned stmts l
assigned (storage_live k ∷ stmts) l = assigned stmts l
assigned (storage_dead k ∷ stmts) l = assigned stmts l
assigned (nop ∷ stmts) l = assigned stmts l

module _ (blocks : List BasicBlockData) (l : LocalIdx) (t : Terminator) where
  pub read_first-LiveAt :
      (stmts : List Statement) → read_first stmts l ≡ true → LiveAt blocks l stmts t
  read_first-LiveAt [] h = cc
  read_first-LiveAt (assign p r ∷ stmts) h = elim (Bool-cases (contains (rvalue_locals r) l)) [
    | inl now ↦ reads now
    | inr later ↦ past (ground (arith, later)) (read_first-LiveAt stmts (ground (arith, later)))
  ]
  read_first-LiveAt (storage_live k ∷ stmts) h = past_live (read_first-LiveAt stmts h)
  read_first-LiveAt (storage_dead k ∷ stmts) h = past_dead (read_first-LiveAt stmts h)
  read_first-LiveAt (nop ∷ stmts) h = past_nop (read_first-LiveAt stmts h)

  pub unassigned-LiveAt :
      (stmts : List Statement)
      → assigned stmts l ≡ false
      → LiveAt blocks l [] t
      → LiveAt blocks l stmts t
  unassigned-LiveAt [] h w = w
  unassigned-LiveAt (assign p r ∷ stmts) h w =
      past (ground arith) (unassigned-LiveAt stmts (ground arith) w)
  unassigned-LiveAt (storage_live k ∷ stmts) h w = past_live (unassigned-LiveAt stmts h w)
  unassigned-LiveAt (storage_dead k ∷ stmts) h w = past_dead (unassigned-LiveAt stmts h w)
  unassigned-LiveAt (nop ∷ stmts) h w = past_nop (unassigned-LiveAt stmts h w)

module _ (sets : BitSets) (n : ℕ) where
  open sets use {BitSet, size, has, insert_in}

  visit_use-Adds :
      (defs : BitSet) (p : Place)
      → p.local < n
      → Adds sets n (λ j. not (has defs j)) (p.local ∷ []) (visit_use sets defs p)
  unfolding visit_use contains
  visit_use-Adds defs p lt s h = elim (Bool-cases (has defs p.local)) [
    | inl d ↦ (
      s,
      rw (visit_use, d) refl,
      h,
      λ j. elim (Bool-cases (p.local == j)) [
        | inl q ↦
            let dj : has defs j ≡ true = subst (λ k. has defs k ≡ true) (ground arith) d in
            ground (arith, dj)
        | inr q ↦ ground (arith, q)
      ],
    )
    | inr d ↦
        let (t, e, sz, bits) = insert_in s p.local (omega (arith, h, lt)) in
        (
          t,
          rw (visit_use, d) e,
          sz ∙ h,
          λ j. elim (Bool-cases (p.local == j)) [
            | inl q ↦
                let dj : has defs j ≡ false = subst (λ k. has defs k ≡ false) (ground arith) d in
                ground (arith, bits j, dj)
            | inr q ↦ ground (arith, bits j, q)
          ],
        )
  ]

  pub visit_gen-Adds :
      (p : Place) → p.local < n → Adds sets n (λ j. true) (p.local ∷ []) (visit_gen sets p)
  unfolding visit_gen contains
  visit_gen-Adds p lt s h =
      let (t, e, sz, bits) = insert_in s p.local (omega (arith, h, lt)) in
      (t, e, sz ∙ h, λ j. ground (arith, bits j))

  -- What statements do to the two sets.
  abbrev Summarized : (before after : Summary sets) → List Statement → Type 0
  Summarized before after stmts =
      (size after.uses ≡ n)
      × (size after.defs ≡ n)
      × ((j : ℕ) → has after.defs j ≡ (has before.defs j || assigned stmts j))
      × ((j : ℕ)
          → has after.uses j
            ≡ ((not (has before.defs j) && read_first stmts j) || has before.uses j))

  summarize_statements-Summarized :
      (stmts : List Statement) (s : Summary sets)
      → size s.uses ≡ n
      → size s.defs ≡ n
      → ReadsBelow n stmts
      → AssignsBelow n stmts
      → (s' : Summary sets) × (summarize_statements sets stmts s ≡ some s') × Summarized s s' stmts
  unfolding summarize_statements
  summarize_statements-Summarized [] s hu hd hr ha =
      (s, refl, (hu, hd, (λ j. ground arith), (λ j. ground arith)))
  summarize_statements-Summarized (assign p r ∷ stmts) s hu hd hr ha =
      let (u, e, szu, bu) =
        rvalue-Adds sets n (λ j. not (has s.defs j)) (visit_use sets s.defs) (visit_use-Adds s.defs)
          r hr.0 s.uses hu in
      let (d, e', szd, bd) = insert_in s.defs p.local (omega (arith, hd, ha.0)) in
      let (s', e'', (szu', szd', bd', bu')) =
        summarize_statements-Summarized stmts (record { uses = u; defs = d }) szu (szd ∙ hd) hr.1
          ha.1 in
      (
        s',
        rw (summarize_statements, e, e') e'',
        (szu', szd', (λ j. ground (arith, bd' j, bd j)), (λ j. ground (arith, bu' j, bu j, bd j))),
      )
  summarize_statements-Summarized (storage_live k ∷ stmts) s hu hd hr ha =
      summarize_statements-Summarized stmts s hu hd hr ha
  summarize_statements-Summarized (storage_dead k ∷ stmts) s hu hd hr ha =
      summarize_statements-Summarized stmts s hu hd hr ha
  summarize_statements-Summarized (nop ∷ stmts) s hu hd hr ha =
      summarize_statements-Summarized stmts s hu hd hr ha

  define_destination-bits :
      (t : Terminator) (d : BitSet)
      → size d ≡ n
      → DestinationBelow n t
      → (d' : BitSet) × (define_destination sets t d ≡ some d')
        × (size d' ≡ n)
        × ((j : ℕ) → has d' j ≡ (overwrites t j || has d j))
  unfolding define_destination
  define_destination-bits (call f xs p t c) d h k =
      let (d', e, sz, bits) = insert_in d p.local (omega (arith, h, k)) in (d', e, sz ∙ h, bits)
  define_destination-bits (goto b) d h k = (d, refl, h, λ j. refl)
  define_destination-bits (switch_int x ty targets) d h k = (d, refl, h, λ j. refl)
  define_destination-bits return d h k = (d, refl, h, λ j. refl)
  define_destination-bits unreachable d h k = (d, refl, h, λ j. refl)
  define_destination-bits (assert c e t cl msg) d h k = (d, refl, h, λ j. refl)
  define_destination-bits (drop_place p t c) d h k = (d, refl, h, λ j. refl)

  -- The sets of a block say what is read first in it, and what it assigns.
  pub record Sums (b : BasicBlockData) (s : Summary sets) : Type 0 where
    pub uses_size : size s.uses ≡ n
    pub uses_bits :
        (j : ℕ)
        → has s.uses j ≡ (
            (contains (terminator_locals b.terminator) j && not (assigned b.statements j))
            || read_first b.statements j)
    pub defs_bits : (j : ℕ) → has s.defs j ≡ (overwrites b.terminator j || assigned b.statements j)

  pub summarize_block-Sums :
      (b : BasicBlockData)
      → ReadsBelow n b.statements
      → All (λ l. l < n) (terminator_locals b.terminator)
      → AssignsBelow n b.statements
      → DestinationBelow n b.terminator
      → (s : Summary sets) × (summarize_block sets n b ≡ some s) × Sums b s
  unfolding summarize_block
  summarize_block-Sums b hr ht ha hd =
      let empty : BitSet = sets.with_capacity n in
      let (s, e, (szu, szd, bd, bu)) =
        summarize_statements-Summarized b.statements (record { uses = empty; defs = empty })
          (sets.size_empty n) (sets.size_empty n) hr ha in
      let (u, e', szu', bu') =
        terminator-Adds sets n (λ j. not (has s.defs j)) (visit_use sets s.defs)
          (visit_use-Adds s.defs) b.terminator ht s.uses szu in
      let (d, e'', szd', bd') = define_destination-bits b.terminator s.defs szd hd in
      (
        record { uses = u; defs = d },
        rw (summarize_block, e, e', e'') refl,
        record {
          uses_size = szu';
          uses_bits = λ j. ground (arith, bu' j, bu j, bd j, sets.has_empty n j);
          defs_bits = λ j. ground (arith, bd' j, bd j, sets.has_empty n j);
        },
      )
