-- ===== src/Base.antt =====
-- The names that the other modules share: the library's, passed on, and those of the children:
-- Boolean tests and the conditional (Test), lists measured by native numbers (Seq), the
-- fixed-width integers of Kotlin (Word), association lists for its maps (Assoc), the outcome of
-- a block (Ends), and orders of turns (Turns).
mod Test
mod Seq
mod Word
mod Assoc
mod Occurs
mod Members
mod Ends
mod Turns
pub use Ends.*
pub use Test.*
pub use Seq.*
unfoldable pub use Word.*
unfoldable pub use Assoc.*
unfoldable pub use Occurs.*
pub use Members.*
unfoldable pub use Turns.*
pub use Prim.Native.Nat.{ℕ, zero, suc, ◌+◌, ◌-◌, ◌*◌, ◌/◌, ◌%◌, ◌≤◌, ◌<◌}
pub use mathlib.Core.Path.{◌≡◌, refl, sym, ap, subst, ◌∙◌}
pub use mathlib.Core.Logic.{◌≢◌, ◌↔◌, ◌⊎◌, inl, inr}
pub use mathlib.Core.Bool.{Bool, true, false, not, ◌&&◌, ◌||◌}
pub use mathlib.Core.Option.{Option, none, some}
pub use mathlib.Core.List.{List, [], ◌∷◌, ◌++◌, map}
pub use native.Mathlib.Omega.{arith}
unfoldable pub use native.Mathlib.Decide.{dec_lt, ℕ_discrete}
