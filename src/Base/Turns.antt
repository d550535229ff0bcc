-- ===== src/Base/Turns.antt =====
-- An order of turns of several parties, each given by the party's number.
use Prim.Native.Nat.{ℕ, zero, suc}
use mathlib.Core.List.{List, [], ◌∷◌}

-- The turns of the first party, and those of the others, numbered from the second.
unfoldable pub heads : List ℕ → ℕ
heads [] = 0
heads (zero ∷ order) = suc (heads order)
heads (suc i ∷ order) = heads order

unfoldable pub tails : List ℕ → List ℕ
tails [] = []
tails (zero ∷ order) = tails order
tails (suc i ∷ order) = i ∷ tails order
