-- ===== src/Vm/Value.antt =====
-- Values, opcodes, functions, modules and errors of the bytecode virtual machine
-- (crates/glyim-bytecode-vm/src/lib.rs). An i64 is its 64-bit pattern, a number below 2 ^ 64, so
-- `as usize` is the identity on it.
use glyim_v.Prelude.{ℕ, List, [], ◌∷◌}

-- The vector inside `Tuple` is the second type of the block.
mutual
  pub data Value : Type 0 where
    int : ℕ → Value
    tuple : Values → Value

  pub data Values : Type 0 where
    nil : Values
    cons : Value → Values → Values

-- The vector of a tuple as a list, and back.
unfoldable pub elements : Values → List Value
elements nil = []
elements (cons v vs) = v ∷ elements vs

unfoldable pub of_elements : List Value → Values
of_elements [] = nil
of_elements (v ∷ vs) = cons v (of_elements vs)

-- `Value::as_int`: a tuple counts as 0.
abbrev pub as_int : Value → ℕ
as_int (int v) = v
as_int (tuple _) = 0
