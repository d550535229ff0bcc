-- ===== src/Base/Assoc.antt =====
-- Kotlin's read-only maps, which keep the order of insertion, as association lists: `map[k]`,
-- `map + (k to v)`, `map - k`, and `list - x`, which drops the first occurrence.
use mathlib.Core.Path.{◌≡◌, refl}
use mathlib.Core.Logic.{◌≢◌, ite, if_pos, if_neg}
use mathlib.Core.Bool.{Bool, true, false}
use mathlib.Core.List.{List, [], ◌∷◌}
use mathlib.Core.Option.{Option, none, some}
use native.Mathlib.Omega.{arith}

module _ {ℓ} {K V : Type ℓ} where
  abbrev pub keys : List (K × V) → List K
  keys [] = []
  keys (e ∷ m) = e.0 ∷ keys m

  abbrev pub values : List (K × V) → List V
  values [] = []
  values (e ∷ m) = e.1 ∷ values m

module _ {ℓ} {K : Type ℓ} (dec : Discrete K) where
  -- `list - x`
  unfoldable pub minus : K → List K → List K
  minus k [] = []
  minus k (x ∷ xs) = ite (dec x k) xs (x ∷ minus k xs)

  -- `x in list`
  unfoldable pub has : K → List K → Bool
  has k [] = false
  has k (x ∷ xs) = ite (dec x k) true (has k xs)

module _ {ℓ} {K V : Type ℓ} (dec : Discrete K) where
  unfoldable pub get : K → List (K × V) → Option V
  get k [] = none
  get k (e ∷ m) = ite (dec e.0 k) (some e.1) (get k m)

  -- The entry of a present key keeps its place.
  unfoldable pub plus : K → V → List (K × V) → List (K × V)
  plus k v [] = (k, v) ∷ []
  plus k v (e ∷ m) = ite (dec e.0 k) ((k, v) ∷ m) (e ∷ plus k v m)

  unfoldable pub remove : K → List (K × V) → List (K × V)
  remove k [] = []
  remove k (e ∷ m) = ite (dec e.0 k) m (e ∷ remove k m)

  pub get-plus_self : (k : K) (v : V) (m : List (K × V)) → get k (plus k v m) ≡ some v
  unfolding get plus
  get-plus_self k v [] = if_pos (dec k k) refl _ _
  get-plus_self k v (e ∷ m) = ground (arith, get-plus_self k v m)

  pub get-plus_ne : (k j : K) (v : V) (m : List (K × V)) → k ≢ j → get j (plus k v m) ≡ get j m
  unfolding get plus
  get-plus_ne k j v [] h = if_neg (dec k j) h _ _
  get-plus_ne k j v (e ∷ m) h = ground (arith, get-plus_ne k j v m h)

  pub get-remove_ne : (k j : K) (m : List (K × V)) → k ≢ j → get j (remove k m) ≡ get j m
  unfolding get remove
  get-remove_ne k j [] h = refl
  get-remove_ne k j (e ∷ m) h = ground (arith, get-remove_ne k j m h)
