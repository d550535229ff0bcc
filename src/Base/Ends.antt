-- ===== src/Base/Ends.antt =====
-- What a suspending Kotlin block does when it ends: it returns a value, or throws an exception.
use mathlib.Core.Bool.{Bool, true, false}

pub data Outcome {ℓ} (E A : Type ℓ) : Type ℓ where
  returned : A → Outcome E A
  thrown : E → Outcome E A

abbrev pub is_returned {ℓ} : {E A : Type ℓ} → Outcome E A → Bool
is_returned (returned a) = true
is_returned (thrown e) = false
