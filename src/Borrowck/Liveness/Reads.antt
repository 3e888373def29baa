-- ===== src/Borrowck/Liveness/Reads.antt =====
-- The locals that the walks of crates/glyim-borrowck/src/visitor.rs read are those of the places in an
-- operand or a right-hand side.
use glyim_v.Prelude.{ℕ, ◌≡◌, refl, sym, ap, ◌∙◌, true, List, [], ◌∷◌, ◌++◌, map, contains, arith}
use glyim_v.Mir.Types.{
  LocalIdx, Place, Operand, copy, move, constant, Rvalue, use_of, ref_of, binary_op, unary_op,
  aggregate, discriminant, len_of, cast, repeat,
}
use glyim_v.Opt.Validate.WellFormed.{operand_places, places_of, rvalue_places}
use glyim_v.Borrowck.Conflict.Regions.{index_locals}
use glyim_v.Borrowck.Liveness.Paths.{operand_locals, operands_locals, rvalue_locals}
use glyim_v.Borrowck.Liveness.Gather.{contains-append}
use glyim_v.Borrowck.Liveness.Uses.{all_reads, Unindexed}

abbrev pub locals_of : List Place → List LocalIdx
locals_of = map (λ place. place.local)

locals_of-append : (xs ys : List Place) → locals_of (xs ++ ys) ≡ locals_of xs ++ locals_of ys
locals_of-append [] ys = refl
locals_of-append (x ∷ xs) ys = ap (λ ls. x.local ∷ ls) (locals_of-append xs ys)

pub operand_locals-places : (op : Operand) → operand_locals op ≡ locals_of (operand_places op)
operand_locals-places (copy place) = refl
operand_locals-places (move place) = refl
operand_locals-places (constant c) = refl

operands_locals-places : (ops : List Operand) → operands_locals ops ≡ locals_of (places_of ops)
operands_locals-places [] = refl
operands_locals-places (op ∷ ops) =
    rw (operand_locals-places op, operands_locals-places ops)
      (sym (locals_of-append (operand_places op) (places_of ops)))

pub rvalue_locals-places : (r : Rvalue) → rvalue_locals r ≡ locals_of (rvalue_places r)
rvalue_locals-places (use_of op) = operand_locals-places op
rvalue_locals-places (ref_of place kind) = refl
rvalue_locals-places (binary_op o left right) =
    rw (operand_locals-places left, operand_locals-places right)
      (sym (locals_of-append (operand_places left) (operand_places right)))
rvalue_locals-places (unary_op o op) = operand_locals-places op
rvalue_locals-places (aggregate kind ops) = operands_locals-places ops
rvalue_locals-places (discriminant place) = refl
rvalue_locals-places (len_of place) = refl
rvalue_locals-places (cast kind op ty) = operand_locals-places op
rvalue_locals-places (repeat op c) = operand_locals-places op

pub call_locals-places :
    (func : Operand) (args : List Operand)
    → operand_locals func ++ operands_locals args
      ≡ locals_of (operand_places func ++ places_of args)
call_locals-places func args = operands_locals-places (func ∷ args)

-- The locals of places are among what is read with them, and are all of it where nothing indexes.
pub locals_of-reads :
    (ps : List Place) (l : LocalIdx)
    → contains (locals_of ps) l ≡ true
    → contains (all_reads ps) l ≡ true
unfolding contains
locals_of-reads [] l h = h
locals_of-reads (p ∷ ps) l h =
    ground
      (arith, contains-append (index_locals p.projection) (all_reads ps) l, locals_of-reads ps l)

pub all_reads-plain : (ps : List Place) → Unindexed ps → all_reads ps ≡ locals_of ps
all_reads-plain [] h = refl
all_reads-plain (p ∷ ps) (none_index, h) =
    ap (λ ls. p.local ∷ (ls ++ all_reads ps)) none_index
    ∙ ap (λ ls. p.local ∷ ls) (all_reads-plain ps h)

pub contains-left : (xs ys : List ℕ) (l : ℕ) → contains xs l ≡ true → contains (xs ++ ys) l ≡ true
contains-left xs ys l h = ground (arith, contains-append xs ys l)
