-- ===== src/Registry.antt =====
-- CircuitBreaker.kt, lines 446-521: `CircuitBreakerRegistry`, a map from names to circuit breakers,
-- and Cache.kt, lines 571-635: `CacheRegistry`. The registries of RateLimiter.kt (lines 648-720)
-- and TimeLimiter.kt (lines 506-580) have the same transactions as the first. `B` is the type of
-- the references, and `fresh` the one that a call of `getOrCreate` creates.
mod Tests
pub mod Shared
pub mod Bulk
use arrow_resilience_kit.Base.{
  Bool, true, false, Option, none, some, List, [], ◌∷◌, ◌++◌, get, plus, remove, keys, has,
  if◌then◌else◌, Outcome, returned, thrown,
}

module _ {ℓ} {K B : Type ℓ} where
  unfoldable pub get_names : List (K × B) → List K
  get_names m = keys m

module _ {ℓ} {K B : Type ℓ} (dec : Discrete K) where
  -- The first transaction of `getOrCreate`, and `get`.
  unfoldable pub lookup : K → List (K × B) → Option B
  lookup name m = get dec name m

  -- What the second transaction does on what it finds: it keeps a circuit breaker that is there by
  -- now.
  abbrev pub insert_found : K → B → List (K × B) → Option B → List (K × B) × B
  insert_found name fresh m (some already_exists) = (m, already_exists)
  insert_found name fresh m none = (plus dec name fresh m, fresh)

  unfoldable pub insert_missing : K → B → List (K × B) → List (K × B) × B
  unfolding lookup
  insert_missing name fresh m = insert_found name fresh m (lookup name m)

  abbrev pub remove_found : K → List (K × B) → Option B → List (K × B)
  remove_found name m none = m
  remove_found name m (some _) = remove dec name m

  unfoldable pub remove_breaker : K → List (K × B) → List (K × B) × Option B
  unfolding lookup
  remove_breaker name m = (remove_found name m (lookup name m), lookup name m)

  abbrev pub create_missing : K → B → List (K × B) → Option B → List (K × B) × B
  create_missing name fresh m (some existing) = (m, existing)
  create_missing name fresh m none = insert_missing name fresh m

  -- `getOrCreate` with no other call in between.
  unfoldable pub get_or_create : K → B → List (K × B) → List (K × B) × B
  unfolding lookup insert_missing
  get_or_create name fresh m = create_missing name fresh m (lookup name m)

  -- The second and third transactions of `getOrCreate` of a `CacheRegistry`; `none` means that the
  -- cast of a missing cache throws.
  unfoldable pub put_absent : K → B → List (K × B) → List (K × B)
  put_absent name fresh m = if has dec name (keys m) then m else plus dec name fresh m

  unfoldable pub read_again : K → List (K × B) → Option B
  unfolding lookup
  read_again name m = lookup name m
