-- ===== src/Borrowck/Liveness/Capacity.antt =====
-- The capacity for the locals of a body, `local_capacity` (crates/glyim-borrowck/src/liveness.rs).
use glyim_v.Prelude.{ℕ, ◌+◌, ◌≤◌, ◌<◌, max, List, [], ◌∷◌, All, arith}
use glyim_v.Mir.Types.{
  Statement, assign, storage_live, storage_dead, nop, Terminator, goto, switch_int, return,
  unreachable, call, assert, drop_place, BasicBlockData,
}
use glyim_v.Borrowck.Liveness.{statements_capacity, terminator_capacity, blocks_capacity}
use glyim_v.Borrowck.Liveness.Paths.{rvalue_locals, terminator_locals, ReadsBelow}

-- Every local that is assigned is below the bound.
abbrev pub AssignsBelow : ℕ → List Statement → Type 0
AssignsBelow n [] = Unit
AssignsBelow n (assign p r ∷ stmts) = (p.local < n) × AssignsBelow n stmts
AssignsBelow n (storage_live k ∷ stmts) = AssignsBelow n stmts
AssignsBelow n (storage_dead k ∷ stmts) = AssignsBelow n stmts
AssignsBelow n (nop ∷ stmts) = AssignsBelow n stmts

abbrev pub DestinationBelow : ℕ → Terminator → Type 0
DestinationBelow n (call func args destination target cleanup) = destination.local < n
DestinationBelow n _ = Unit

AssignsBelow-le :
    (m n : ℕ) (stmts : List Statement) → m ≤ n → AssignsBelow m stmts → AssignsBelow n stmts
AssignsBelow-le m n [] h k = tt
AssignsBelow-le m n (assign p r ∷ stmts) h k = (omega (arith, k.0), AssignsBelow-le m n stmts h k.1)
AssignsBelow-le m n (storage_live l ∷ stmts) h k = AssignsBelow-le m n stmts h k
AssignsBelow-le m n (storage_dead l ∷ stmts) h k = AssignsBelow-le m n stmts h k
AssignsBelow-le m n (nop ∷ stmts) h k = AssignsBelow-le m n stmts h k

DestinationBelow-le :
    (m n : ℕ) (t : Terminator) → m ≤ n → DestinationBelow m t → DestinationBelow n t
DestinationBelow-le m n (call f xs d t c) h k = omega (arith, k)
DestinationBelow-le m n (goto b) h k = tt
DestinationBelow-le m n (switch_int d ty targets) h k = tt
DestinationBelow-le m n return h k = tt
DestinationBelow-le m n unreachable h k = tt
DestinationBelow-le m n (assert c e t cl msg) h k = tt
DestinationBelow-le m n (drop_place p t c) h k = tt

statements_capacity-below :
    (stmts : List Statement) (m : ℕ)
    → (m ≤ statements_capacity stmts m) × AssignsBelow (statements_capacity stmts m) stmts
unfolding statements_capacity
statements_capacity-below [] m = (omega arith, tt)
statements_capacity-below (assign p r ∷ stmts) m =
    let (le, below) = statements_capacity-below stmts (max m (p.local + 1)) in
    (omega (arith, le), (omega (arith, le), below))
statements_capacity-below (storage_live l ∷ stmts) m = statements_capacity-below stmts m
statements_capacity-below (storage_dead l ∷ stmts) m = statements_capacity-below stmts m
statements_capacity-below (nop ∷ stmts) m = statements_capacity-below stmts m

terminator_capacity-below :
    (t : Terminator) (m : ℕ)
    → (m ≤ terminator_capacity t m) × DestinationBelow (terminator_capacity t m) t
unfolding terminator_capacity
terminator_capacity-below (call f xs d t c) m = (omega arith, omega arith)
terminator_capacity-below (goto b) m = (omega arith, tt)
terminator_capacity-below (switch_int d ty targets) m = (omega arith, tt)
terminator_capacity-below return m = (omega arith, tt)
terminator_capacity-below unreachable m = (omega arith, tt)
terminator_capacity-below (assert c e t cl msg) m = (omega arith, tt)
terminator_capacity-below (drop_place p t c) m = (omega arith, tt)

pub blocks_capacity-below :
    (blocks : List BasicBlockData) (m : ℕ)
    → (m ≤ blocks_capacity blocks m)
      × All
          (λ b.
            AssignsBelow (blocks_capacity blocks m) b.statements
            × DestinationBelow (blocks_capacity blocks m) b.terminator)
          blocks
unfolding blocks_capacity
blocks_capacity-below [] m = (omega arith, tt)
blocks_capacity-below (b ∷ blocks) m =
    let (le, below) = statements_capacity-below b.statements m in
    let m1 : ℕ = statements_capacity b.statements m in
    let (le1, below1) = terminator_capacity-below b.terminator m1 in
    let m2 : ℕ = terminator_capacity b.terminator m1 in
    let (le2, rest) = blocks_capacity-below blocks m2 in
    let top : ℕ = blocks_capacity blocks m2 in
    (
      omega (arith, le, le1, le2),
      (
        (
          AssignsBelow-le m1 top b.statements (omega (arith, le1, le2)) below,
          DestinationBelow-le m2 top b.terminator le2 below1,
        ),
        rest,
      ),
    )

All-below : (m n : ℕ) (xs : List ℕ) → m ≤ n → All (λ l. l < m) xs → All (λ l. l < n) xs
All-below m n [] h k = tt
All-below m n (x ∷ xs) h k = (omega (arith, k.0), All-below m n xs h k.1)

ReadsBelow-le : (m n : ℕ) (stmts : List Statement) → m ≤ n → ReadsBelow m stmts → ReadsBelow n stmts
ReadsBelow-le m n [] h k = tt
ReadsBelow-le m n (assign p r ∷ stmts) h k =
    (All-below m n (rvalue_locals r) h k.0, ReadsBelow-le m n stmts h k.1)
ReadsBelow-le m n (storage_live l ∷ stmts) h k = ReadsBelow-le m n stmts h k
ReadsBelow-le m n (storage_dead l ∷ stmts) h k = ReadsBelow-le m n stmts h k
ReadsBelow-le m n (nop ∷ stmts) h k = ReadsBelow-le m n stmts h k

pub IsDeclared-le :
    (m n : ℕ) (blocks : List BasicBlockData)
    → m ≤ n
    → All
        (λ b. ReadsBelow m b.statements × All (λ l. l < m) (terminator_locals b.terminator))
        blocks
    → All
        (λ b. ReadsBelow n b.statements × All (λ l. l < n) (terminator_locals b.terminator))
        blocks
IsDeclared-le m n [] h k = tt
IsDeclared-le m n (b ∷ blocks) h ((r, t), rest) = (
  (ReadsBelow-le m n b.statements h r, All-below m n (terminator_locals b.terminator) h t),
  IsDeclared-le m n blocks h rest,
)
