-- ===== src/Prelude/Sets.antt =====
-- `HashSet` and `Vec<bool>` as the list of the indices in them.
use Prim.Native.Nat.{ℕ}
use mathlib.Core.Bool.{Bool, false, ◌||◌}
use mathlib.Core.List.{List, [], ◌∷◌}
use glyim_v.Prelude.Tests.{◌==◌}

unfoldable pub contains : List ℕ → ℕ → Bool
contains [] i = false
contains (x ∷ xs) i = (x == i) || contains xs i
