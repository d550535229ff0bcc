-- ===== src/Cache/Loading.antt =====
-- Cache.kt, lines 175-186: `getOrPut`.
use arrow_resilience_kit.Base.{ℕ, Option, none, some, Outcome, returned, thrown}
use arrow_resilience_kit.Cache.{CacheConfig, Cache, get_entry, put}

module _ {ℓ} {K V : Type ℓ} (dec : Discrete K) where
  unfoldable pub store :
      {E : Type ℓ} → CacheConfig → ℕ → ℕ → K → Cache K V × Outcome E V → Cache K V × Outcome E V
  store c created accessed key (s, returned value) =
      (put dec c created accessed key value s, returned value)
  store c created accessed key (s, thrown e) = (s, thrown e)

  -- `getOrPut` after its `get`: on a miss the loader is run on the cache, which other calls may
  -- change while it runs.
  unfoldable pub load_missing :
      {E : Type ℓ}
      → CacheConfig
      → ℕ
      → ℕ
      → K
      → (Cache K V → Cache K V × Outcome E V)
      → Cache K V × Option V
      → Cache K V × Outcome E V
  unfolding store
  load_missing c created accessed key loader (s, some value) = (s, returned value)
  load_missing c created accessed key loader (s, none) = store c created accessed key (loader s)

  -- `created` and `accessed` are the clock in `put`.
  unfoldable pub get_or_put :
      {E : Type ℓ}
      → CacheConfig
      → ℕ
      → ℕ
      → ℕ
      → ℕ
      → K
      → (Cache K V → Cache K V × Outcome E V)
      → Cache K V
      → Cache K V × Outcome E V
  unfolding load_missing
  get_or_put c at now created accessed key loader s =
      load_missing c created accessed key loader (get_entry dec c at now key s)
