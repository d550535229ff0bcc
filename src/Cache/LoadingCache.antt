-- ===== src/Cache/LoadingCache.antt =====
-- Cache.kt, lines 517-568: `LoadingCache`, a cache with a loader for what it misses.
use arrow_resilience_kit.Base.{ℕ, ◌≡◌, ap, Option, none, some, Outcome, returned}
use arrow_resilience_kit.Cache.{CacheConfig, Cache, create, get_entry, put, remove_entry}
use arrow_resilience_kit.Cache.Bulk.{clear}
use arrow_resilience_kit.Cache.Loading.{load_missing, get_or_put}
use arrow_resilience_kit.Cache.Reads.{get-get_or_put}

pub record LoadingCache {ℓ} (K V E : Type ℓ) : Type ℓ where
  pub delegate : Cache K V
  pub loader : K → Cache K V → Cache K V × Outcome E V

module _ {ℓ} {K V E : Type ℓ} where
  unfoldable pub create_loading : (K → Cache K V → Cache K V × Outcome E V) → LoadingCache K V E
  unfolding create
  create_loading loader = record { delegate = create; loader = loader }

  abbrev pub with_delegate :
      {A : Type ℓ} → LoadingCache K V E → Cache K V × A → LoadingCache K V E × A
  with_delegate l (s, a) = (record l { delegate = s }, a)

  unfoldable pub clear_all : LoadingCache K V E → LoadingCache K V E
  unfolding clear
  clear_all l = record l { delegate = clear l.delegate }

module _ {ℓ} {K V E : Type ℓ} (dec : Discrete K) where
  -- The clocks are those of `get_or_put`.
  unfoldable pub get :
      CacheConfig → ℕ → ℕ → ℕ → ℕ → K → LoadingCache K V E → LoadingCache K V E × Outcome E V
  unfolding get_entry load_missing
  get c at now created accessed key l = with_delegate l (
      load_missing dec c created accessed key (l.loader key)
        (get_entry dec c at now key l.delegate))

  unfoldable pub put_value : CacheConfig → ℕ → ℕ → K → V → LoadingCache K V E → LoadingCache K V E
  unfolding put
  put_value c created accessed key value l = record l {
    delegate = put dec c created accessed key value l.delegate;
  }

  unfoldable pub remove : K → LoadingCache K V E → LoadingCache K V E × Option V
  unfolding remove_entry
  remove key l = with_delegate l (remove_entry dec key l.delegate)

  cached-load_missing :
      (c : CacheConfig) (created accessed : ℕ) (key : K)
      (loader : Cache K V → Cache K V × Outcome E V) (r : Cache K V × Option V) (v : V)
      → r.1 ≡ some v
      → load_missing dec c created accessed key loader r ≡ (r.0, returned v)
  unfolding load_missing
  cached-load_missing c created accessed key loader (s, o) v h =
      ap (λ o'. load_missing dec c created accessed key loader (s, o')) h

  -- Without a time to live, when `get key` returns a value, the next `get key` returns it too and
  -- does not call the loader: it only reads the cache.
  get-get :
      (c : CacheConfig) (at now created accessed at' now' created' accessed' : ℕ) (key : K)
      (l : LoadingCache K V E) (v : V)
      → c.ttl ≡ none
      → (get c at now created accessed key l).1 ≡ returned v
      → get c at' now' created' accessed' key (get c at now created accessed key l).0
        ≡ with_delegate l (
          (get_entry dec c at' now' key (get c at now created accessed key l).0.delegate).0,
          returned v,
        )
  unfolding get get_or_put
  get-get c at now created accessed at' now' created' accessed' key l v forever h =
      ap (with_delegate l) (
        cached-load_missing c created' accessed' key (l.loader key) _ v (
          get-get_or_put dec c forever at now created accessed at' now' key (l.loader key)
            l.delegate v h))
