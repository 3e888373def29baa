-- ===== src/Opt/SliceDesugar/Keeps.antt =====
-- The rewriting of a whole body (crates/glyim-opt/src/slice_desugar.rs).
use glyim_v.Prelude.{
  ℕ, suc, ◌≤◌, ◌<◌, ◌≡◌, refl, sym, ap, subst, ◌∙◌, some, List, [], ◌∷◌, length, All, All-append,
  All-left, All-right, arith,
}
use glyim_v.Layout.Types.{Ty, TyCtx}
use glyim_v.Mir.Types.{
  Statement, assign, storage_live, storage_dead, nop, Terminator, goto, switch_int, return,
  unreachable, call, assert, drop_place, BasicBlockData, Body,
}
use glyim_v.Opt.Edges.{terminator_successors}
use glyim_v.Opt.Unreachable.Reach.{InRange}
use glyim_v.Opt.Validate.WellFormed.{operand_places, places_of}
use glyim_v.Opt.SliceDesugar.{
  Rewriting, desugar_operand, desugar_operands, desugar_rvalue, desugar_statement,
  desugar_terminator, pushed, desugar_statements, rebuilt, desugar_block, add_block, then_blocks,
  desugar_blocks, with_blocks, run,
}
use glyim_v.Opt.SliceDesugar.Splits.{
  touched_places, terminator_places, AllTerminal, AllDeclared, Clean, Gives, Gives-then,
  declared-le,
}
use glyim_v.Opt.SliceDesugar.Terminal.{
  IsClean, IsCleanRvalue, place-Gives, operand-Gives, desugar_operand-Gives, desugar_operands-Gives,
  desugar_rvalue-Gives,
}

-- A terminator has no split left, and leads where the old one leads.
abbrev pub IsCleanTerminator : Terminator → Terminator → Type 0
IsCleanTerminator old new =
    AllTerminal (terminator_places new) × (terminator_successors new ≡ terminator_successors old)

module _ (types : TyCtx) where
  abbrev IsCleanStatement : Statement → Type 0
  IsCleanStatement statement = AllTerminal (touched_places statement)

  desugar_statement-Gives :
      (statement : Statement) (st : Rewriting)
      → AllDeclared st.locals (touched_places statement)
      → Gives IsCleanStatement st (desugar_statement types statement st)
  unfolding desugar_statement
  desugar_statement-Gives (assign place rvalue) st h =
      Gives-then (IsCleanRvalue types) IsCleanStatement _ st (desugar_rvalue types rvalue st)
        (λ new st1 clean le.
          place-Gives types IsCleanStatement (λ target. assign target new) place st1
            (λ _ t. (t, clean)) (omega (arith, h.0, le)))
        (desugar_rvalue-Gives types rvalue st h.1)
  desugar_statement-Gives (storage_live local) st h =
      (st, storage_live local, refl, tt, (omega arith, λ c. c))
  desugar_statement-Gives (storage_dead local) st h =
      (st, storage_dead local, refl, tt, (omega arith, λ c. c))
  desugar_statement-Gives nop st h = (st, nop, refl, tt, (omega arith, λ c. c))

  desugar_terminator-Gives :
      (t : Terminator) (st : Rewriting)
      → AllDeclared st.locals (terminator_places t)
      → Gives (IsCleanTerminator t) st (desugar_terminator types t st)
  unfolding desugar_terminator terminator_successors
  desugar_terminator-Gives (goto target) st h =
      (st, goto target, refl, (tt, refl), (omega arith, λ c. c))
  desugar_terminator-Gives (switch_int discr ty targets) st h =
      operand-Gives types _ (λ new. switch_int new ty targets) discr st (λ _ k. (k, refl)) h
  desugar_terminator-Gives return st h = (st, return, refl, (tt, refl), (omega arith, λ c. c))
  desugar_terminator-Gives unreachable st h =
      (st, unreachable, refl, (tt, refl), (omega arith, λ c. c))
  desugar_terminator-Gives (call func args destination target cleanup) st h =
      let goal = IsCleanTerminator (call func args destination target cleanup) in
      Gives-then (IsClean types) goal _ st (desugar_operand types func st)
        (λ func' st1 clean le1.
          Gives-then (λ new. AllTerminal (places_of new)) goal _ st1
            (desugar_operands types args st1)
            (λ args' st2 cleans le2.
              place-Gives types goal (λ place. call func' args' place target cleanup) destination
                st2
                (λ _ t.
                  ((t, All-append _ (operand_places func') (places_of args') clean cleans), refl))
                (omega (arith, h.0, le1, le2)))
            (desugar_operands-Gives types args st1 (
              declared-le st.locals st1.locals (places_of args) le1
                (All-right _ (operand_places func) (places_of args) h.1))))
        (desugar_operand-Gives types func st
          (All-left _ (operand_places func) (places_of args) h.1))
  desugar_terminator-Gives (assert cond expected target cleanup msg) st h =
      operand-Gives types _ (λ new. assert new expected target cleanup msg) cond st
        (λ _ k. (k, refl)) h
  desugar_terminator-Gives (drop_place place target cleanup) st h =
      place-Gives types _ (λ new. drop_place new target cleanup) place st (λ _ t. ((t, tt), refl))
        h.0

  abbrev pub DeclaredAll : List Ty → List Statement → Type 0
  DeclaredAll locals = All (λ statement. AllDeclared locals (touched_places statement))

  DeclaredAll-le :
      (locals locals' : List Ty) (statements : List Statement)
      → length locals ≤ length locals'
      → DeclaredAll locals statements
      → DeclaredAll locals' statements
  DeclaredAll-le locals locals' [] le h = tt
  DeclaredAll-le locals locals' (statement ∷ statements) le h = (
    declared-le locals locals' (touched_places statement) le h.0,
    DeclaredAll-le locals locals' statements le h.1,
  )

  desugar_statements-Gives :
      (statements : List Statement) (st : Rewriting)
      → DeclaredAll st.locals statements
      → Gives (λ (_ : Unit {0}). Unit {0}) st (desugar_statements types statements st)
  unfolding desugar_statements
  desugar_statements-Gives [] st h = (st, tt, refl, tt, (omega arith, λ c. c))
  desugar_statements-Gives (statement ∷ statements) st h =
      Gives-then IsCleanStatement _
        (λ new st1. desugar_statements types statements (pushed new st1)) st
        (desugar_statement types statement st)
        (λ new st1 clean le.
          let (st2, u, e, v, (le', c)) =
            desugar_statements-Gives statements (pushed new st1)
              (DeclaredAll-le st.locals st1.locals statements le h.1) in
          (st2, u, e, v, (le', λ k. c (All-append _ st1.statements (new ∷ []) k (clean, tt)))))
        (desugar_statement-Gives statement st h.0)

  -- A block's places have declared locals; no split is left in it.
  abbrev pub DeclaredBlock : List Ty → BasicBlockData → Type 0
  DeclaredBlock locals block =
      DeclaredAll locals block.statements × AllDeclared locals (terminator_places block.terminator)

  abbrev pub CleanBlock : BasicBlockData → Type 0
  CleanBlock block = Clean block.statements × AllTerminal (terminator_places block.terminator)

  desugar_block-Clean :
      (locals : List Ty) (block : BasicBlockData)
      → DeclaredBlock locals block
      → (locals' : List Ty) × (new : BasicBlockData) × (desugar_block types locals block
          ≡ some (locals', new))
        × (length locals ≤ length locals')
        × CleanBlock new
        × (terminator_successors new.terminator ≡ terminator_successors block.terminator)
  unfolding desugar_block
  desugar_block-Clean locals block h =
      let (st', t, e, (clean, same), (le, c)) =
        Gives-then (λ (_ : Unit {0}). Unit {0}) (IsCleanTerminator block.terminator)
          (λ _ st1. desugar_terminator types block.terminator st1)
          (record { locals = locals; statements = [] }) _
          (λ _ st1 _ le.
            desugar_terminator-Gives block.terminator st1
              (declared-le locals st1.locals (terminator_places block.terminator) le h.1))
          (desugar_statements-Gives block.statements (record { locals = locals; statements = [] })
            h.0) in
      (
        st'.locals,
        record block { statements = st'.statements; terminator = t },
        ap (rebuilt block) e,
        le,
        (c tt, clean),
        same,
      )

  DeclaredBlocks-le :
      (locals locals' : List Ty) (blocks : List BasicBlockData)
      → length locals ≤ length locals'
      → All (DeclaredBlock locals) blocks
      → All (DeclaredBlock locals') blocks
  DeclaredBlocks-le locals locals' [] le h = tt
  DeclaredBlocks-le locals locals' (block ∷ blocks) le h = (
    (
      DeclaredAll-le locals locals' block.statements le h.0.0,
      declared-le locals locals' (terminator_places block.terminator) le h.0.1,
    ),
    DeclaredBlocks-le locals locals' blocks le h.1,
  )

  desugar_blocks-Clean :
      (n : ℕ) (locals : List Ty) (blocks : List BasicBlockData)
      → All (DeclaredBlock locals) blocks
      → All (λ block. All (λ j. j < n) (terminator_successors block.terminator)) blocks
      → (locals' : List Ty) × (new : List BasicBlockData) × (desugar_blocks types locals blocks
          ≡ some (locals', new))
        × (length new ≡ length blocks)
        × All CleanBlock new
        × All (λ block. All (λ j. j < n) (terminator_successors block.terminator)) new
  unfolding desugar_blocks
  desugar_blocks-Clean n locals [] h k = (locals, [], refl, refl, tt, tt)
  desugar_blocks-Clean n locals (block ∷ blocks) h k =
      let (locals1, new, e, le, clean, same) = desugar_block-Clean locals block h.0 in
      let (locals2, rest, e', l, cleans, range) =
        desugar_blocks-Clean n locals1 blocks (DeclaredBlocks-le locals locals1 blocks le h.1)
          k.1 in
      (
        locals2,
        new ∷ rest,
        ap (λ o. then_blocks o (λ locals'. desugar_blocks types locals' blocks)) e
            ∙ ap (add_block new) e',
        ap suc l,
        (clean, cleans),
        (subst (All (λ j. j < n)) (sym same) k.0, range),
      )

  -- For a body whose places all have declared locals and whose targets are all blocks: the rewriting does
  -- not panic; in the body that it gives, the places that statements and terminators read, borrow, write
  -- or drop, those of the added statements among them, have a slice projection at their end only; the
  -- body has as many blocks as before, and its targets are all blocks.
  pub run-IsTerminal :
      (body : Body)
      → All (DeclaredBlock body.locals) body.basic_blocks
      → InRange body.basic_blocks
      → (new : Body) × (run types body ≡ some new)
        × All CleanBlock new.basic_blocks
        × (length new.basic_blocks ≡ length body.basic_blocks)
        × InRange new.basic_blocks
  unfolding run
  run-IsTerminal body h k =
      let (locals', new, e, l, clean, range) =
        desugar_blocks-Clean (length body.basic_blocks) body.locals body.basic_blocks h k in
      (
        record body { basic_blocks = new; locals = locals' },
        ap (with_blocks body) e,
        clean,
        l,
        subst (λ n. All (λ block. All (λ j. j < n) (terminator_successors block.terminator)) new)
            (sym l) range,
      )
