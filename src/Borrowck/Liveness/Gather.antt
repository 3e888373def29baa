-- ===== src/Borrowck/Liveness/Gather.antt =====
-- What a walk adds to a set (crates/glyim-borrowck/src/visitor.rs).
use glyim_v.Prelude.{
  ℕ, ◌<◌, ◌≡◌, refl, ap, ◌∙◌, Bool, ◌&&◌, ◌||◌, Option, some, List, [], ◌∷◌, ◌++◌, All, All-left,
  All-right, contains, arith,
}
use glyim_v.Mir.Types.{
  LocalIdx, Place, Operand, copy, move, constant, Rvalue, use_of, ref_of, binary_op, unary_op,
  aggregate, discriminant, len_of, cast, repeat, Terminator, goto, switch_int, return, unreachable,
  call, assert, drop_place,
}
use glyim_v.Borrowck.BitSets.{BitSets, ◌>>=◌}
use glyim_v.Borrowck.Visitor.{
  walk_operand_reads, walk_operands, walk_rvalue_reads, walk_terminator_reads,
}
use glyim_v.Borrowck.Liveness.Paths.{
  operand_locals, operands_locals, rvalue_locals, terminator_locals,
}

pub contains-append :
    (xs ys : List ℕ) (i : ℕ) → contains (xs ++ ys) i ≡ (contains xs i || contains ys i)
unfolding contains
contains-append [] ys i = refl
contains-append (x ∷ xs) ys i = ground (arith, contains-append xs ys i)

module _ (sets : BitSets) (n : ℕ) (mask : ℕ → Bool) where
  open sets use {BitSet, size, has}

  -- The call succeeds and adds those of the locals that the mask lets through.
  abbrev pub Adds : List LocalIdx → (BitSet → Option BitSet) → Type 0
  Adds locals act =
      (s : BitSet)
      → size s ≡ n
      → (t : BitSet) × (act s ≡ some t)
        × (size t ≡ n)
        × ((j : ℕ) → has t j ≡ ((contains locals j && mask j) || has s j))

  Adds-nil : Adds [] (λ s. some s)
  unfolding contains
  Adds-nil s h = (s, refl, h, λ j. refl)

  Adds-append :
      (xs ys : List LocalIdx) (f g : BitSet → Option BitSet)
      → Adds xs f
      → Adds ys g
      → Adds (xs ++ ys) (λ s. f s >>= g)
  Adds-append xs ys f g hf hg s h =
      let (t, e, sz, bits) = hf s h in
      let (u, e', sz', bits') = hg t sz in
      (
        u,
        ap (λ o. o >>= g) e ∙ e',
        sz',
        λ j. ground (arith, bits' j, bits j, contains-append xs ys j),
      )

  module _ (visit : Place → BitSet → Option BitSet)
      (one : (p : Place) → p.local < n → Adds (p.local ∷ []) (visit p)) where
    operand-Adds :
        (op : Operand)
        → All (λ l. l < n) (operand_locals op)
        → Adds (operand_locals op) (walk_operand_reads visit op)
    unfolding walk_operand_reads
    operand-Adds (copy p) h = one p h.0
    operand-Adds (move p) h = one p h.0
    operand-Adds (constant c) h = Adds-nil

    operands-Adds :
        (ops : List Operand)
        → All (λ l. l < n) (operands_locals ops)
        → Adds (operands_locals ops) (walk_operands visit ops)
    unfolding walk_operands
    operands-Adds [] h = Adds-nil
    operands-Adds (op ∷ ops) h =
        Adds-append (operand_locals op) (operands_locals ops) (walk_operand_reads visit op)
          (walk_operands visit ops)
          (operand-Adds op (All-left _ (operand_locals op) (operands_locals ops) h))
          (operands-Adds ops (All-right _ (operand_locals op) (operands_locals ops) h))

    pub rvalue-Adds :
        (r : Rvalue)
        → All (λ l. l < n) (rvalue_locals r)
        → Adds (rvalue_locals r) (walk_rvalue_reads visit r)
    unfolding walk_rvalue_reads
    rvalue-Adds (use_of op) h = operand-Adds op h
    rvalue-Adds (ref_of p kind) h = one p h.0
    rvalue-Adds (binary_op op left right) h =
        Adds-append (operand_locals left) (operand_locals right) (walk_operand_reads visit left)
          (walk_operand_reads visit right)
          (operand-Adds left (All-left _ (operand_locals left) (operand_locals right) h))
          (operand-Adds right (All-right _ (operand_locals left) (operand_locals right) h))
    rvalue-Adds (unary_op op operand) h = operand-Adds operand h
    rvalue-Adds (aggregate kind ops) h = operands-Adds ops h
    rvalue-Adds (discriminant p) h = one p h.0
    rvalue-Adds (len_of p) h = one p h.0
    rvalue-Adds (cast kind op ty) h = operand-Adds op h
    rvalue-Adds (repeat op c) h = operand-Adds op h

    pub terminator-Adds :
        (t : Terminator)
        → All (λ l. l < n) (terminator_locals t)
        → Adds (terminator_locals t) (walk_terminator_reads visit t)
    unfolding walk_terminator_reads
    terminator-Adds (goto target) h = Adds-nil
    terminator-Adds return h = Adds-nil
    terminator-Adds unreachable h = Adds-nil
    terminator-Adds (switch_int discr ty targets) h = operand-Adds discr h
    terminator-Adds (call func args destination target cleanup) h =
        Adds-append (operand_locals func) (operands_locals args) (walk_operand_reads visit func)
          (walk_operands visit args)
          (operand-Adds func (All-left _ (operand_locals func) (operands_locals args) h))
          (operands-Adds args (All-right _ (operand_locals func) (operands_locals args) h))
    terminator-Adds (assert cond expected target cleanup msg) h = operand-Adds cond h
    terminator-Adds (drop_place p target cleanup) h = Adds-nil
