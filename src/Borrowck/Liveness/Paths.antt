-- ===== src/Borrowck/Liveness/Paths.antt =====
-- What is live, by the paths of a body and by the reads that the walks find; not code. It is about
-- liveness.rs and visitor.rs of crates/glyim-borrowck/src.
use glyim_v.Prelude.{
  ℕ, ◌<◌, ◌≡◌, Bool, true, false, some, List, [], ◌∷◌, ◌++◌, get_elem?, All, ◌==◌, contains, length,
}
use glyim_v.Mir.Types.{
  LocalIdx, Place, Operand, copy, move, constant, Rvalue, use_of, ref_of, binary_op, unary_op,
  aggregate, discriminant, len_of, cast, repeat, Statement, assign, storage_live, storage_dead, nop,
  Terminator, goto, switch_int, return, unreachable, call, assert, drop_place, BasicBlockData, Body,
}
use glyim_v.Borrowck.Visitor.{successor_blocks}

-- The locals that are read, as the walks of visitor.rs have it: those of operands and of the places
-- that are borrowed or inspected.
abbrev pub operand_locals : Operand → List LocalIdx
operand_locals (copy place) = place.local ∷ []
operand_locals (move place) = place.local ∷ []
operand_locals (constant c) = []

abbrev pub operands_locals : List Operand → List LocalIdx
operands_locals [] = []
operands_locals (op ∷ operands) = operand_locals op ++ operands_locals operands

abbrev pub rvalue_locals : Rvalue → List LocalIdx
rvalue_locals (use_of operand) = operand_locals operand
rvalue_locals (ref_of place kind) = place.local ∷ []
rvalue_locals (binary_op op left right) = operand_locals left ++ operand_locals right
rvalue_locals (unary_op op operand) = operand_locals operand
rvalue_locals (aggregate kind operands) = operands_locals operands
rvalue_locals (discriminant place) = place.local ∷ []
rvalue_locals (len_of place) = place.local ∷ []
rvalue_locals (cast kind operand ty) = operand_locals operand
rvalue_locals (repeat operand c) = operand_locals operand

abbrev pub terminator_locals : Terminator → List LocalIdx
terminator_locals (goto target) = []
terminator_locals return = []
terminator_locals unreachable = []
terminator_locals (switch_int discr ty targets) = operand_locals discr
terminator_locals (call func args destination target cleanup) =
    operand_locals func ++ operands_locals args
terminator_locals (assert cond expected target cleanup msg) = operand_locals cond
terminator_locals (drop_place place target cleanup) = []

-- Whether a terminator writes the local.
abbrev pub overwrites : Terminator → LocalIdx → Bool
overwrites (call func args destination target cleanup) l = destination.local == l
overwrites _ l = false

-- There is a path from the given statements and terminator on which `l` is read before it is assigned.
-- An assignment to a part of a local is one to the local, and the locals that index are not read.
pub data LiveAt (blocks : List BasicBlockData) (l : LocalIdx)
    : List Statement → Terminator → Type 0 where
  reads :
      {p : Place} {r : Rvalue} {stmts : List Statement} {t : Terminator}
      → contains (rvalue_locals r) l ≡ true
      → LiveAt blocks l (assign p r ∷ stmts) t
  past :
      {p : Place} {r : Rvalue} {stmts : List Statement} {t : Terminator}
      → (p.local == l) ≡ false
      → LiveAt blocks l stmts t
      → LiveAt blocks l (assign p r ∷ stmts) t
  past_live :
      {k : LocalIdx} {stmts : List Statement} {t : Terminator}
      → LiveAt blocks l stmts t
      → LiveAt blocks l (storage_live k ∷ stmts) t
  past_dead :
      {k : LocalIdx} {stmts : List Statement} {t : Terminator}
      → LiveAt blocks l stmts t
      → LiveAt blocks l (storage_dead k ∷ stmts) t
  past_nop :
      {stmts : List Statement} {t : Terminator}
      → LiveAt blocks l stmts t
      → LiveAt blocks l (nop ∷ stmts) t
  reads_last : {t : Terminator} → contains (terminator_locals t) l ≡ true → LiveAt blocks l [] t
  leaves :
      {t : Terminator} (j : ℕ) (b : BasicBlockData)
      → overwrites t l ≡ false
      → contains (successor_blocks t) j ≡ true
      → get_elem? blocks j ≡ some b
      → LiveAt blocks l b.statements b.terminator
      → LiveAt blocks l [] t

-- Live on exit: from one of the successors.
pub record LiveOut (blocks : List BasicBlockData) (l : LocalIdx) (t : Terminator) : Type 0 where
  pub succ : ℕ
  pub next : BasicBlockData
  pub edge : contains (successor_blocks t) succ ≡ true
  pub found : get_elem? blocks succ ≡ some next
  pub live : LiveAt blocks l next.statements next.terminator

-- Every local that is read is declared.
abbrev pub ReadsBelow : ℕ → List Statement → Type 0
ReadsBelow n [] = Unit
ReadsBelow n (assign p r ∷ stmts) = All (λ l. l < n) (rvalue_locals r) × ReadsBelow n stmts
ReadsBelow n (storage_live k ∷ stmts) = ReadsBelow n stmts
ReadsBelow n (storage_dead k ∷ stmts) = ReadsBelow n stmts
ReadsBelow n (nop ∷ stmts) = ReadsBelow n stmts

abbrev pub IsDeclared : Body → Type 0
IsDeclared body =
    All
      (λ b.
        ReadsBelow (length body.locals) b.statements
        × All (λ l. l < length body.locals) (terminator_locals b.terminator))
      body.basic_blocks

-- Every target is a block.
abbrev pub HasTargets : List BasicBlockData → Type 0
HasTargets blocks = All (λ b. All (λ j. j < length blocks) (successor_blocks b.terminator)) blocks
