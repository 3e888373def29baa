-- ===== src/Opt/Dce/Uses.antt =====
-- The locals that the collection of uses finds in a body whose places are whole locals
-- (crates/glyim-opt/src/dce.rs).
use glyim_v.Prelude.{ℕ, zero, suc, ◌+◌, ◌≡◌, true, contains, List, [], ◌∷◌, All, arith}
use glyim_v.Mir.Types.{
  LocalIdx, Place, Operand, copy, move, constant, Rvalue, use_of, ref_of, binary_op, unary_op,
  aggregate, discriminant, len_of, cast, repeat, Statement, assign, storage_live, storage_dead, nop,
  Terminator, goto, switch_int, return, unreachable, call, assert, drop_place, BasicBlockData, Body,
}
use glyim_v.Opt.Dce.{
  is_bare, collect_place, collect_operand_uses, collect_operands, collect_uses_in_rvalue,
  collect_uses_in_terminator, collect_statement, collect_statements, collect_blocks,
  insert_arguments, collect_used_locals,
}

-- A whole local is read, or a constant.
abbrev pub IsPlainOperand : Operand → Type 0
IsPlainOperand (copy place) = is_bare place.projection ≡ true
IsPlainOperand (move place) = is_bare place.projection ≡ true
IsPlainOperand (constant value) = Unit

-- No borrow and no `UnaryOp`.
abbrev pub IsPlainRvalue : Rvalue → Type 0
IsPlainRvalue (use_of operand) = IsPlainOperand operand
IsPlainRvalue (binary_op op left right) = IsPlainOperand left × IsPlainOperand right
IsPlainRvalue (aggregate kind operands) = All IsPlainOperand operands
IsPlainRvalue (discriminant place) = is_bare place.projection ≡ true
IsPlainRvalue (len_of place) = is_bare place.projection ≡ true
IsPlainRvalue (cast kind operand ty) = IsPlainOperand operand
IsPlainRvalue (repeat operand count) = IsPlainOperand operand
IsPlainRvalue (ref_of place kind) = ⊥
IsPlainRvalue (unary_op op operand) = ⊥

abbrev pub IsPlainStatement : Statement → Type 0
IsPlainStatement (assign place rvalue) = (is_bare place.projection ≡ true) × IsPlainRvalue rvalue
IsPlainStatement (storage_live local) = Unit
IsPlainStatement (storage_dead local) = Unit
IsPlainStatement nop = Unit

abbrev pub IsPlainTerminator : Terminator → Type 0
IsPlainTerminator (call func args destination target cleanup) =
    IsPlainOperand func × All IsPlainOperand args × (is_bare destination.projection ≡ true)
IsPlainTerminator (switch_int discr ty targets) = IsPlainOperand discr
IsPlainTerminator (assert cond expected target cleanup msg) = IsPlainOperand cond
IsPlainTerminator (goto target) = Unit
IsPlainTerminator return = Unit
IsPlainTerminator unreachable = Unit
IsPlainTerminator (drop_place place target cleanup) = ⊥

abbrev pub IsPlainBlock : BasicBlockData → Type 0
IsPlainBlock block = All IsPlainStatement block.statements × IsPlainTerminator block.terminator

-- The locals that are read are in the set.
abbrev pub Has : List LocalIdx → Place → Type 0
Has used place = contains used place.local ≡ true

abbrev pub HasOperand : List LocalIdx → Operand → Type 0
HasOperand used (copy place) = Has used place
HasOperand used (move place) = Has used place
HasOperand used (constant value) = Unit

abbrev pub HasRvalue : List LocalIdx → Rvalue → Type 0
HasRvalue used (use_of operand) = HasOperand used operand
HasRvalue used (binary_op op left right) = HasOperand used left × HasOperand used right
HasRvalue used (aggregate kind operands) = All (HasOperand used) operands
HasRvalue used (discriminant place) = Has used place
HasRvalue used (len_of place) = Has used place
HasRvalue used (cast kind operand ty) = HasOperand used operand
HasRvalue used (repeat operand count) = HasOperand used operand
HasRvalue used (ref_of place kind) = Unit
HasRvalue used (unary_op op operand) = Unit

abbrev pub HasStatement : List LocalIdx → Statement → Type 0
HasStatement used (assign place rvalue) = HasRvalue used rvalue
HasStatement used (storage_live local) = Unit
HasStatement used (storage_dead local) = Unit
HasStatement used nop = Unit

abbrev pub HasTerminator : List LocalIdx → Terminator → Type 0
HasTerminator used (call func args destination target cleanup) =
    HasOperand used func × All (HasOperand used) args
HasTerminator used (switch_int discr ty targets) = HasOperand used discr
HasTerminator used (assert cond expected target cleanup msg) = HasOperand used cond
HasTerminator used (goto target) = Unit
HasTerminator used return = Unit
HasTerminator used unreachable = Unit
HasTerminator used (drop_place place target cleanup) = Unit

abbrev pub HasBlock : List LocalIdx → BasicBlockData → Type 0
HasBlock used block = All (HasStatement used) block.statements × HasTerminator used block.terminator

abbrev Sub : List LocalIdx → List LocalIdx → Type 0
Sub used more = (l : LocalIdx) → contains used l ≡ true → contains more l ≡ true

-- A collection adds to the set, and whatever it ends up in has what it was for.
abbrev Collects : (List LocalIdx → List LocalIdx) → (List LocalIdx → Type 0) → Type 0
Collects f has =
    ((used : List LocalIdx) → Sub used (f used))
    × ((used more : List LocalIdx) → Sub (f used) more → has more)

Collects-nothing :
    (has : List LocalIdx → Type 0)
    → ((more : List LocalIdx) → has more)
    → Collects (λ used. used) has
Collects-nothing has h = ((λ used l e. e), λ used more s. h more)

Collects-then :
    (f g : List LocalIdx → List LocalIdx) (P Q : List LocalIdx → Type 0)
    → Collects f P
    → Collects g Q
    → Collects (λ used. g (f used)) (λ used. P used × Q used)
Collects-then f g P Q (fs, fp) (gs, gq) = (
  (λ used l e. gs (f used) l (fs used l e)),
  λ used more s. (fp used more (λ l e. s l (gs (f used) l e)), gq (f used) more s),
)

Collects-place :
    (place : Place)
    → is_bare place.projection ≡ true
    → Collects (collect_place place) (λ used. Has used place)
unfolding contains
Collects-place place h =
    rw h ((λ used l e. ground (arith, e)), λ used more s. s place.local (ground arith))

Collects-operand :
    (operand : Operand)
    → IsPlainOperand operand
    → Collects (collect_operand_uses operand) (λ used. HasOperand used operand)
unfolding collect_operand_uses
Collects-operand (copy place) h = Collects-place place h
Collects-operand (move place) h = Collects-place place h
Collects-operand (constant value) h = Collects-nothing _ (λ more. tt)

Collects-operands :
    (operands : List Operand)
    → All IsPlainOperand operands
    → Collects (collect_operands operands) (λ used. All (HasOperand used) operands)
Collects-operands [] h = Collects-nothing _ (λ more. tt)
Collects-operands (operand ∷ operands) h =
    Collects-then (collect_operand_uses operand) (collect_operands operands)
      (λ used. HasOperand used operand) (λ used. All (HasOperand used) operands)
      (Collects-operand operand h.0) (Collects-operands operands h.1)

Collects-rvalue :
    (rvalue : Rvalue)
    → IsPlainRvalue rvalue
    → Collects (collect_uses_in_rvalue rvalue) (λ used. HasRvalue used rvalue)
unfolding collect_uses_in_rvalue
Collects-rvalue (use_of operand) h = Collects-operand operand h
Collects-rvalue (binary_op op left right) h =
    Collects-then (collect_operand_uses left) (collect_operand_uses right)
      (λ used. HasOperand used left) (λ used. HasOperand used right) (Collects-operand left h.0)
      (Collects-operand right h.1)
Collects-rvalue (aggregate kind operands) h = Collects-operands operands h
Collects-rvalue (discriminant place) h = Collects-place place h
Collects-rvalue (len_of place) h = Collects-place place h
Collects-rvalue (cast kind operand ty) h = Collects-operand operand h
Collects-rvalue (repeat operand count) h = Collects-operand operand h
Collects-rvalue (ref_of place kind) h = absurd h
Collects-rvalue (unary_op op operand) h = absurd h

Collects-statement :
    (statement : Statement)
    → IsPlainStatement statement
    → Collects (collect_statement statement) (λ used. HasStatement used statement)
Collects-statement (assign place rvalue) h = Collects-rvalue rvalue h.1
Collects-statement (storage_live local) h = Collects-nothing _ (λ more. tt)
Collects-statement (storage_dead local) h = Collects-nothing _ (λ more. tt)
Collects-statement nop h = Collects-nothing _ (λ more. tt)

Collects-statements :
    (statements : List Statement)
    → All IsPlainStatement statements
    → Collects (collect_statements statements) (λ used. All (HasStatement used) statements)
Collects-statements [] h = Collects-nothing _ (λ more. tt)
Collects-statements (statement ∷ statements) h =
    Collects-then (collect_statement statement) (collect_statements statements)
      (λ used. HasStatement used statement) (λ used. All (HasStatement used) statements)
      (Collects-statement statement h.0) (Collects-statements statements h.1)

Collects-terminator :
    (t : Terminator)
    → IsPlainTerminator t
    → Collects (collect_uses_in_terminator t) (λ used. HasTerminator used t)
unfolding collect_uses_in_terminator
Collects-terminator (call func args destination target cleanup) h =
    Collects-then (collect_operand_uses func) (collect_operands args) (λ used. HasOperand used func)
      (λ used. All (HasOperand used) args) (Collects-operand func h.0) (Collects-operands args h.1)
Collects-terminator (switch_int discr ty targets) h = Collects-operand discr h
Collects-terminator (assert cond expected target cleanup msg) h = Collects-operand cond h
Collects-terminator (goto target) h = Collects-nothing _ (λ more. tt)
Collects-terminator return h = Collects-nothing _ (λ more. tt)
Collects-terminator unreachable h = Collects-nothing _ (λ more. tt)
Collects-terminator (drop_place place target cleanup) h = absurd h

Collects-blocks :
    (blocks : List BasicBlockData)
    → All IsPlainBlock blocks
    → Collects (collect_blocks blocks) (λ used. All (HasBlock used) blocks)
Collects-blocks [] h = Collects-nothing _ (λ more. tt)
Collects-blocks (block ∷ blocks) h =
    Collects-then
      (λ used.
        collect_uses_in_terminator block.terminator (collect_statements block.statements used))
      (collect_blocks blocks) (λ used. HasBlock used block) (λ used. All (HasBlock used) blocks)
      (Collects-then (collect_statements block.statements)
        (collect_uses_in_terminator block.terminator)
        (λ used. All (HasStatement used) block.statements)
        (λ used. HasTerminator used block.terminator) (Collects-statements block.statements h.0.0)
        (Collects-terminator block.terminator h.0.1))
      (Collects-blocks blocks h.1)

insert_arguments-Sub : (n i : ℕ) (used : List LocalIdx) → Sub used (insert_arguments n i used)
unfolding contains
insert_arguments-Sub zero i used l e = e
insert_arguments-Sub (suc n) i used l e = insert_arguments-Sub n (i + 1) _ l (ground (arith, e))

-- What the body reads is in the set, and so is the return place.
pub collect_used_locals-HasBlock :
    (body : Body)
    → All IsPlainBlock body.basic_blocks
    → All (HasBlock (collect_used_locals body)) body.basic_blocks
      × (contains (collect_used_locals body) 0 ≡ true)
unfolding collect_used_locals contains
collect_used_locals-HasBlock body h =
    let (sub, has) = Collects-blocks body.basic_blocks h in
    let start : List LocalIdx = insert_arguments body.arg_count 0 (0 ∷ []) in
    (
      has start (collect_blocks body.basic_blocks start) (λ l e. e),
      sub start 0 (insert_arguments-Sub body.arg_count 0 (0 ∷ []) 0 (ground arith)),
    )
