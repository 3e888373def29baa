-- ===== src/Opt/Unreachable/Reach.antt =====
-- The search of the blocks that the start reaches: `reachable_set`
-- (crates/glyim-opt/src/unreachable_elim.rs).
use glyim_v.Prelude.{
  ℕ, zero, suc, ◌+◌, ◌≤◌, ◌<◌, ◌≡◌, refl, sym, ap, subst, ◌∙◌, inl, inr, ◌↔◌, true, false, ◌||◌,
  some, List, [], ◌∷◌, ◌++◌, reverse, length, length-append, length-reverse, get_elem?,
  get_elem?-lt, All, All-append, All-reverse, All-get_elem?, ◌==◌, if◌then◌else◌, arith, Bool-cases,
}
use mathlib.Core.List.{reverse-append}
use mathlib.Core.Option.{some_inj}
use glyim_v.Mir.Types.{BasicBlockData}
use glyim_v.Opt.Edges.{terminator_successors}
use glyim_v.Prelude.{contains}
use glyim_v.Opt.Unreachable.{found, search_loop, edge_count, reachable_set}

-- Every target is a block.
abbrev pub InRange : List BasicBlockData → Type 0
InRange blocks = All (λ b. All (λ j. j < length blocks) (terminator_successors b.terminator)) blocks

-- There is a path of edges from the start.
pub data Reaches (blocks : List BasicBlockData) : ℕ → Type 0 where
  start : Reaches blocks 0
  edge :
      {i j : ℕ} (b : BasicBlockData)
      → Reaches blocks i
      → get_elem? blocks i ≡ some b
      → contains (terminator_successors b.terminator) j ≡ true
      → Reaches blocks j

contains-append :
    (xs ys : List ℕ) (i : ℕ) → contains (xs ++ ys) i ≡ (contains xs i || contains ys i)
unfolding contains
contains-append [] ys i = refl
contains-append (x ∷ xs) ys i = ground (arith, contains-append xs ys i)

contains-reverse : (xs : List ℕ) (i : ℕ) → contains (reverse xs) i ≡ contains xs i
unfolding contains
contains-reverse [] i = refl
contains-reverse (x ∷ xs) i =
    ap (λ l. contains l i) (reverse-append (x ∷ []) xs)
    ∙ contains-append (reverse xs) (x ∷ []) i
    ∙ ground (arith, contains-reverse xs i)

-- The edges of the blocks that are not visited, from the block `k` on.
abbrev pub remaining : List ℕ → ℕ → List BasicBlockData → ℕ
remaining visited k [] = 0
remaining visited k (b ∷ blocks) =
    (if contains visited k then 0 else length (terminator_successors b.terminator))
    + remaining visited (suc k) blocks

remaining-nil : (k : ℕ) (blocks : List BasicBlockData) → remaining [] k blocks ≡ edge_count blocks
unfolding edge_count contains
remaining-nil k [] = refl
remaining-nil k (b ∷ blocks) = omega (arith, remaining-nil (suc k) blocks)

remaining-later :
    (visited : List ℕ) (i k : ℕ) (blocks : List BasicBlockData)
    → i < k
    → remaining (i ∷ visited) k blocks ≡ remaining visited k blocks
unfolding contains
remaining-later visited i k [] h = refl
remaining-later visited i k (b ∷ blocks) h =
    ground (arith, remaining-later visited i (suc k) blocks (omega arith))

remaining-visit :
    (visited : List ℕ) (i k n : ℕ) (blocks : List BasicBlockData) (b : BasicBlockData)
    → k + n ≡ i
    → contains visited i ≡ false
    → get_elem? blocks n ≡ some b
    → remaining (i ∷ visited) k blocks + length (terminator_successors b.terminator)
      ≡ remaining visited k blocks
unfolding contains
remaining-visit visited i k n [] b q h e = ground arith
remaining-visit visited i k zero (b' ∷ blocks) b q h e =
    let q' : i ≡ k = omega arith in
    let e' : b' ≡ b = some_inj.0 e in
    let h' = ap (contains visited) (sym q') ∙ h in
    let rest = remaining-later visited i (suc k) blocks (omega arith) in
    ground (arith, rest, ap (λ c. length (terminator_successors c.terminator)) e')
remaining-visit visited i k (suc n) (b' ∷ blocks) b q h e =
    ground (arith, remaining-visit visited i (suc k) n blocks b (omega arith) h e)

abbrev Pending : List BasicBlockData → List ℕ → List ℕ → Type 0
Pending blocks visited stack =
    (i j : ℕ) (b : BasicBlockData)
    → contains visited i ≡ true
    → get_elem? blocks i ≡ some b
    → contains (terminator_successors b.terminator) j ≡ true
    → (contains visited j || contains stack j) ≡ true

abbrev pub IsDistinct : List ℕ → Type 0
IsDistinct [] = Unit
IsDistinct (x ∷ xs) = (contains xs x ≡ false) × IsDistinct xs

-- What the loop's result has: the edges of its blocks stay in it, each is reached, and it has what was
-- visited or stacked, each block once.
abbrev Outcome : List BasicBlockData → List ℕ → List ℕ → List ℕ → Type 0
Outcome blocks visited stack r =
    ((i j : ℕ) (b : BasicBlockData)
      → contains r i ≡ true
      → get_elem? blocks i ≡ some b
      → contains (terminator_successors b.terminator) j ≡ true
      → contains r j ≡ true)
    × All (Reaches blocks) r
    × ((j : ℕ) → (contains visited j || contains stack j) ≡ true → contains r j ≡ true)
    × IsDistinct r

pub contains-All :
    (P : ℕ → Type 0) (xs : List ℕ) → ((j : ℕ) → contains xs j ≡ true → P j) → All P xs
unfolding contains
contains-All P [] h = tt
contains-All P (x ∷ xs) h = (h x (ground arith), contains-All P xs (λ j k. h j (ground arith)))

Pending-visit :
    (blocks : List BasicBlockData) (i : ℕ) (b : BasicBlockData) (visited stack : List ℕ)
    → get_elem? blocks i ≡ some b
    → Pending blocks visited (i ∷ stack)
    → Pending blocks (i ∷ visited) (reverse (terminator_successors b.terminator) ++ stack)
unfolding contains
Pending-visit blocks i b visited stack q pending i' j b' h q' k =
    let succ : List ℕ = terminator_successors b.terminator in
    elim (Bool-cases (contains visited i')) [
      | inl v ↦ ground (arith, pending i' j b' v q' k, contains-append (reverse succ) stack j)
      | inr v ↦
          let e : i ≡ i' = ground arith in
          let e' : b ≡ b' = some_inj.0 (sym q ∙ ap (get_elem? blocks) e ∙ q') in
          let k' : contains succ j ≡ true =
            ap (λ c. contains (terminator_successors c.terminator) j) e' ∙ k in
          ground (arith, contains-append (reverse succ) stack j, contains-reverse succ j, k')
    ]

pub All-contains : (P : ℕ → Type 0) (xs : List ℕ) (i : ℕ) → All P xs → contains xs i ≡ true → P i
unfolding contains
All-contains P [] i h e = absurd (ground arith)
All-contains P (x ∷ xs) i h e = elim (Bool-cases (x == i)) [
  | inl q ↦ let q' : x ≡ i = ground arith in subst P q' h.0
  | inr q ↦ All-contains P xs i h.1 (ground (arith, q))
]

Reaches-contains :
    {blocks : List BasicBlockData} (r : List ℕ)
    → ((i j : ℕ) (b : BasicBlockData)
        → contains r i ≡ true
        → get_elem? blocks i ≡ some b
        → contains (terminator_successors b.terminator) j ≡ true
        → contains r j ≡ true)
    → contains r 0 ≡ true
    → (i : ℕ) → Reaches blocks i
    → contains r i ≡ true
Reaches-contains r closed h _ start = h
Reaches-contains r closed h _ (edge {i} {j} b w q k) =
    closed i j b (Reaches-contains r closed h i w) q k

search_loop-seen :
    (fuel : ℕ) (blocks : List BasicBlockData) (visited : List ℕ) (i : ℕ) (stack : List ℕ)
    → contains visited i ≡ true
    → search_loop (suc fuel) blocks visited (i ∷ stack) ≡ search_loop fuel blocks visited stack
unfolding search_loop
search_loop-seen fuel blocks visited i stack h = rw (search_loop, h) refl

search_loop-new :
    (fuel : ℕ) (blocks : List BasicBlockData) (visited : List ℕ) (i : ℕ) (stack : List ℕ)
    (b : BasicBlockData)
    → contains visited i ≡ false
    → get_elem? blocks i ≡ some b
    → search_loop (suc fuel) blocks visited (i ∷ stack)
      ≡ search_loop fuel blocks
          (i ∷ visited)
          (reverse (terminator_successors b.terminator) ++ stack)
unfolding search_loop
search_loop-new fuel blocks visited i stack b h q = rw (search_loop, h, q) refl

module _ (blocks : List BasicBlockData) (range : InRange blocks) where
  -- The loop ends with the fuel for the stack and the edges that are left.
  search_loop-Outcome :
      (fuel : ℕ) (visited stack : List ℕ)
      → All (λ j. j < length blocks) stack
      → length stack + remaining visited 0 blocks ≤ fuel
      → Pending blocks visited stack
      → All (Reaches blocks) visited
      → IsDistinct visited
      → All (Reaches blocks) stack
      → (r : List ℕ) × (search_loop fuel blocks visited stack ≡ found r)
        × Outcome blocks visited stack r
  unfolding search_loop contains
  search_loop-Outcome fuel visited [] lt enough pending rv dv rs = (
    visited,
    refl,
    ((λ i j b h e k. ground (arith, pending i j b h e k)), rv, (λ j h. ground arith), dv),
  )
  search_loop-Outcome zero visited (i ∷ stack) lt enough pending rv dv rs = absurd (omega arith)
  search_loop-Outcome (suc fuel) visited (i ∷ stack) lt enough pending rv dv rs =
      elim (Bool-cases (contains visited i)) [
        | inl h ↦
            let (r, e, (closed, reached, sub, once)) =
              search_loop-Outcome fuel visited stack lt.1 (omega arith)
                (λ i' j b k q n. ground (arith, pending i' j b k q n, h)) rv dv rs.1 in
            (
              r,
              search_loop-seen fuel blocks visited i stack h ∙ e,
              (closed, reached, (λ j k. sub j (ground (arith, h))), once),
            )
        | inr h ↦
            let (b, q) = get_elem?-lt blocks i lt.0 in
            let succ : List ℕ = terminator_successors b.terminator in
            let (r, e, (closed, reached, sub, once)) =
              search_loop-Outcome fuel (i ∷ visited) (reverse succ ++ stack)
                (All-append _ _ _ (All-reverse _ succ (All-get_elem? _ blocks i range q)) lt.1)
                (omega (
                  arith,
                  length-append (reverse succ) stack,
                  length-reverse succ,
                  remaining-visit visited i 0 i blocks b (omega arith) h q,
                ))
                (Pending-visit blocks i b visited stack q pending) (rs.0, rv) (h, dv)
                (All-append _ _ _
                  (All-reverse _ succ (contains-All _ succ (λ j k. edge b rs.0 q k))) rs.1) in
            (
              r,
              search_loop-new fuel blocks visited i stack b h q ∙ e,
              (
                closed,
                reached,
                (λ j k. sub j (ground (arith, contains-append (reverse succ) stack j))),
                once,
              ),
            )
      ]

  -- For blocks of which there is one, with every target among them: the search ends within its fuel,
  -- with no index out of range; the set has a block just if a path of edges leads to it from the start,
  -- and has it once.
  pub reachable_set-Reaches :
      0 < length blocks
      → (r : List ℕ) × (reachable_set blocks ≡ found r)
        × ((i : ℕ) → (contains r i ≡ true) ↔ Reaches blocks i)
        × IsDistinct r
  unfolding reachable_set contains
  reachable_set-Reaches some_block =
      let (r, e, (closed, reached, sub, once)) =
        search_loop-Outcome (1 + edge_count blocks) [] (0 ∷ []) (some_block, tt)
          (omega (arith, remaining-nil 0 blocks)) (λ i j b h. absurd (ground arith)) tt tt
          (start, tt) in
      (
        r,
        e,
        (λ i. (
          λ h. All-contains _ r i reached h,
          Reaches-contains r closed (sub 0 (ground arith)) i,
        )),
        once,
      )

  -- What is reached is a block.
  pub Reaches-lt : 0 < length blocks → (i : ℕ) → Reaches blocks i → i < length blocks
  Reaches-lt some_block _ start = some_block
  Reaches-lt some_block _ (edge {i} {j} b w q k) =
      All-contains _ (terminator_successors b.terminator) j (All-get_elem? _ blocks i range q) k
