-- ===== src/Opt/CfgSimplify/Edit.antt =====
-- The writes of one merging, and the edges between the blocks after each
-- (crates/glyim-opt/src/cfg_simplify.rs).
use glyim_v.Prelude.{
  ℕ, zero, suc, ◌+◌, ◌≤◌, ◌<◌, ◌≡◌, ◌≢◌, refl, sym, ap, subst, ◌∙◌, some, List, [], ◌∷◌, ◌++◌,
  length, length-append, length-set, length-replicate, get_elem?, get_elem?-set_ne, set, replicate,
  All, arith,
}
use mathlib.Core.Option.{some_inj}
use glyim_v.Mir.Types.{BasicBlockIdx, return, BasicBlockData}
use glyim_v.Opt.Edges.{terminator_successors}
use glyim_v.Opt.CfgSimplify.{block_at, count, predecessors}

-- The edges to a block.
abbrev pub edges_to : ℕ → List BasicBlockData → ℕ
edges_to i [] = 0
edges_to i (b ∷ blocks) = count i (terminator_successors b.terminator) + edges_to i blocks

pub length-predecessors :
    (i k : ℕ) (blocks : List BasicBlockData) → length (predecessors i k blocks) ≡ edges_to i blocks
unfolding predecessors
length-predecessors i k [] = refl
length-predecessors i k (b ∷ blocks) =
    length-append (replicate (count i (terminator_successors b.terminator)) k)
      (predecessors i (suc k) blocks)
    ∙ omega (
      arith,
      length-replicate (count i (terminator_successors b.terminator)) k,
      length-predecessors i (suc k) blocks,
    )

pub count-All : (i : ℕ) (xs : List BasicBlockIdx) → count i xs ≡ 0 → All (λ j. j ≢ i) xs
unfolding count
count-All i [] e = tt
count-All i (x ∷ xs) e = ((λ q. ground arith), count-All i xs (ground arith))

pub get_elem?-block_at :
    (xs : List BasicBlockData) (i : ℕ) → i < length xs → get_elem? xs i ≡ some (block_at xs i)
get_elem?-block_at [] i h = absurd (omega arith)
get_elem?-block_at (x ∷ xs) zero h = refl
get_elem?-block_at (x ∷ xs) (suc i) h = get_elem?-block_at xs i (omega arith)

block_at-set_self :
    (xs : List BasicBlockData) (i : ℕ) (v : BasicBlockData)
    → i < length xs
    → block_at (set xs i v) i ≡ v
block_at-set_self [] i v h = absurd (omega arith)
block_at-set_self (x ∷ xs) zero v h = refl
block_at-set_self (x ∷ xs) (suc i) v h = block_at-set_self xs i v (omega arith)

block_at-set_ne :
    (xs : List BasicBlockData) (i j : ℕ) (v : BasicBlockData)
    → i ≢ j
    → block_at (set xs i v) j ≡ block_at xs j
block_at-set_ne [] i j v h = refl
block_at-set_ne (x ∷ xs) zero zero v h = absurd (h refl)
block_at-set_ne (x ∷ xs) zero (suc j) v h = refl
block_at-set_ne (x ∷ xs) (suc i) zero v h = refl
block_at-set_ne (x ∷ xs) (suc i) (suc j) v h = block_at-set_ne xs i j v (λ e. h (ap suc e))

-- A write that keeps a block's terminator keeps all of them.
terminator-set :
    (xs : List BasicBlockData) (p i : ℕ) (v : BasicBlockData)
    → v.terminator ≡ (block_at xs p).terminator
    → (block_at (set xs p v) i).terminator ≡ (block_at xs i).terminator
terminator-set [] p i v e = refl
terminator-set (x ∷ xs) zero zero v e = e
terminator-set (x ∷ xs) zero (suc i) v e = refl
terminator-set (x ∷ xs) (suc p) zero v e = refl
terminator-set (x ∷ xs) (suc p) (suc i) v e = terminator-set xs p i v e

edges_to-set :
    (k : ℕ) (xs : List BasicBlockData) (i : ℕ) (v : BasicBlockData)
    → i < length xs
    → edges_to k (set xs i v) + count k (terminator_successors (block_at xs i).terminator)
      ≡ edges_to k xs + count k (terminator_successors v.terminator)
edges_to-set k [] i v h = absurd (omega arith)
edges_to-set k (x ∷ xs) zero v h = omega arith
edges_to-set k (x ∷ xs) (suc i) v h = omega (arith, edges_to-set k xs i v (omega arith))

edges_to-one :
    (k : ℕ) (xs : List BasicBlockData) (p : ℕ) (b : BasicBlockData)
    → get_elem? xs p ≡ some b
    → count k (terminator_successors b.terminator) ≤ edges_to k xs
edges_to-one k [] p b e = absurd (ground arith)
edges_to-one k (x ∷ xs) zero b e =
    omega (arith, ap (λ c. count k (terminator_successors c.terminator)) (some_inj.0 e))
edges_to-one k (x ∷ xs) (suc p) b e = omega (arith, edges_to-one k xs p b e)

-- Two blocks' edges are counted apart.
pub edges_to-two :
    (k : ℕ) (xs : List BasicBlockData) (p q : ℕ) (b c : BasicBlockData)
    → get_elem? xs p ≡ some b
    → get_elem? xs q ≡ some c
    → p ≢ q
    → count k (terminator_successors b.terminator) + count k (terminator_successors c.terminator)
      ≤ edges_to k xs
edges_to-two k [] p q b c e f n = absurd (ground arith)
edges_to-two k (x ∷ xs) zero zero b c e f n = absurd (n refl)
edges_to-two k (x ∷ xs) zero (suc q) b c e f n = omega (
  arith,
  ap (λ c. count k (terminator_successors c.terminator)) (some_inj.0 e),
  edges_to-one k xs q c f,
)
edges_to-two k (x ∷ xs) (suc p) zero b c e f n = omega (
  arith,
  ap (λ c. count k (terminator_successors c.terminator)) (some_inj.0 f),
  edges_to-one k xs p b e,
)
edges_to-two k (x ∷ xs) (suc p) (suc q) b c e f n =
    omega (arith, edges_to-two k xs p q b c e f (λ z. n (ap suc z)))

-- The blocks after each of the four writes.
module _ (p i : ℕ) (blocks : List BasicBlockData) where
  abbrev taken : List BasicBlockData
  taken = set blocks i (record (block_at blocks i) { statements = [] })

  abbrev appended : List BasicBlockData
  appended = set taken p (record (block_at taken p) {
    statements = (block_at taken p).statements ++ (block_at blocks i).statements;
  })

  abbrev cleared : List BasicBlockData
  cleared = set appended i (record (block_at appended i) { terminator = return })

  abbrev pub moved : List BasicBlockData
  moved =
      set cleared p (record (block_at cleared p) { terminator = (block_at appended i).terminator })

  length-cleared : length cleared ≡ length blocks
  length-cleared = length-set appended i _ ∙ length-set taken p _ ∙ length-set blocks i _

  length-appended : length appended ≡ length blocks
  length-appended = length-set taken p _ ∙ length-set blocks i _

  pub length-moved : length moved ≡ length blocks
  length-moved = length-set cleared p _ ∙ length-cleared

  pub moved-others : (b : ℕ) → b ≢ p → b ≢ i → get_elem? moved b ≡ get_elem? blocks b
  moved-others b np ni =
      let np' : p ≢ b = λ e. np (sym e) in
      let ni' : i ≢ b = λ e. ni (sym e) in
      get_elem?-set_ne cleared p b _ np'
      ∙ get_elem?-set_ne appended i b _ ni'
      ∙ get_elem?-set_ne taken p b _ np'
      ∙ get_elem?-set_ne blocks i b _ ni'

  module _ (hp : p < length blocks) (hi : i < length blocks) where
    in_taken : p < length taken
    in_taken = subst (λ n. p < n) (sym (length-set blocks i _)) hp

    -- No block gets an edge.
    pub edges_to-moved : (k : ℕ) → edges_to k moved ≤ edges_to k blocks
    unfolding count terminator_successors
    edges_to-moved k =
        let lc : p < length cleared = omega (arith, length-cleared) in
        let la : i < length appended = omega (arith, length-appended) in
        omega (
          arith,
          edges_to-set k cleared p
              (record (block_at cleared p) { terminator = (block_at appended i).terminator }) lc,
          edges_to-set k appended i (record (block_at appended i) { terminator = return }) la,
          edges_to-set k taken p
              (record (block_at taken p) {
                statements = (block_at taken p).statements ++ (block_at blocks i).statements;
              })
              in_taken,
          edges_to-set k blocks i (record (block_at blocks i) { statements = [] }) hi,
        )

    terminator-appended : (block_at appended i).terminator ≡ (block_at blocks i).terminator
    terminator-appended = terminator-set taken p i _ refl ∙ terminator-set blocks i i _ refl

    pub statements-moved :
        p ≢ i
        → (block_at moved p).statements
          ≡ (block_at blocks p).statements ++ (block_at blocks i).statements
    statements-moved n =
        let n' : i ≢ p = λ e. n (sym e) in
        ap (λ b. b.statements)
          (block_at-set_self cleared p _ (omega (arith, length-cleared))
            ∙ ap {A = BasicBlockData}
                (λ c. record c { terminator = (block_at appended i).terminator })
                (block_at-set_ne appended i p _ n' ∙ block_at-set_self taken p _ in_taken))
        ∙ ap (λ b. b.statements ++ (block_at blocks i).statements) (block_at-set_ne blocks i p _ n')

    pub terminator-moved : (block_at moved p).terminator ≡ (block_at blocks i).terminator
    terminator-moved =
        ap (λ b. b.terminator) (block_at-set_self cleared p _ (omega (arith, length-cleared)))
        ∙ terminator-appended

set-set :
    (xs : List BasicBlockData) (i : ℕ) (u v : BasicBlockData) → set (set xs i u) i v ≡ set xs i v
set-set [] i u v = refl
set-set (x ∷ xs) zero u v = refl
set-set (x ∷ xs) (suc i) u v = ap (λ l. x ∷ l) (set-set xs i u v)

set-block_at : (xs : List BasicBlockData) (i : ℕ) → set xs i (block_at xs i) ≡ xs
set-block_at [] i = refl
set-block_at (x ∷ xs) zero = refl
set-block_at (x ∷ xs) (suc i) = ap (λ l. x ∷ l) (set-block_at xs i)

-- Merging a block with itself writes it back.
pub moved_self :
    (i : ℕ) (blocks : List BasicBlockData) → i < length blocks → moved i i blocks ≡ blocks
moved_self i blocks hi =
    let la : i < length (appended i i blocks) = omega (arith, length-appended i i blocks) in
    let back : record (block_at (cleared i i blocks) i) {
      terminator = (block_at (appended i i blocks) i).terminator;
    }
        ≡ block_at blocks i =
      ap {A = BasicBlockData}
        (λ c. record c { terminator = (block_at (appended i i blocks) i).terminator })
        (block_at-set_self (appended i i blocks) i _ la)
      ∙ block_at-set_self (taken i i blocks) i _ (in_taken i i blocks hi hi)
      ∙ ap {A = BasicBlockData}
          (λ c. record c { statements = c.statements ++ (block_at blocks i).statements })
          (block_at-set_self blocks i _ hi) in
    set-set (appended i i blocks) i _ _
    ∙ set-set (taken i i blocks) i _ _
    ∙ set-set blocks i _ _
    ∙ ap (set blocks i) back
    ∙ set-block_at blocks i
