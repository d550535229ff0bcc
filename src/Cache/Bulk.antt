-- ===== src/Cache/Bulk.antt =====
-- Cache.kt, lines 227-352: the operations on many entries. Where a collection is filtered, `clock
-- i` is what the clock shows for its i-th entry.
use arrow_resilience_kit.Base.{
  keep, ℕ, suc, Bool, not, List, [], ◌∷◌, ◌++◌, if◌then◌else◌, length, has, keys, remove,
}
use arrow_resilience_kit.Cache.{
  CacheConfig, CacheEntry, Cache, on_clear, on_eviction, expired, is_expired, Event, remove_entry,
}

-- The entries that `p` holds of, with the number of each.
unfoldable pub select {ℓ} :
    {K V : Type ℓ}
    → (ℕ → CacheEntry V → Bool)
    → ℕ
    → List (K × CacheEntry V)
    → List (K × CacheEntry V)
select p i [] = []
select p i (e ∷ m) = if p i e.1 then e ∷ select p (suc i) m else select p (suc i) m

-- `CacheStatistics`, without the ratios.
pub record CacheStatistics : Type 0 where
  pub hits : ℕ
  pub misses : ℕ
  pub evictions : ℕ
  pub size : ℕ
  pub current_size : ℕ

module _ {ℓ} {K V : Type ℓ} where
  unfoldable pub expirations : List (K × CacheEntry V) → List (Event K V)
  expirations [] = []
  expirations (e ∷ m) = on_eviction e.0 e.1.value expired ∷ expirations m

  unfoldable pub clear : Cache K V → Cache K V
  clear s = record s { entries = []; access_order = []; events = s.events ++ on_clear ∷ [] }

  unfoldable pub size : Cache K V → ℕ
  size s = length s.entries

  unfoldable pub statistics : Cache K V → CacheStatistics
  unfolding size
  statistics s = record {
    hits = s.hits;
    misses = s.misses;
    evictions = s.evictions;
    size = size s;
    current_size = size s;
  }

  unfoldable pub valid_size : CacheConfig → (ℕ → ℕ) → Cache K V → ℕ
  unfolding is_expired select
  valid_size c clock s = length (select (λ i e. not (is_expired c (clock i) e)) 0 s.entries)

  unfoldable pub reset_statistics : Cache K V → Cache K V
  reset_statistics s = record s { hits = 0; misses = 0; evictions = 0 }

module _ {ℓ} {K : Type ℓ} (dec : Discrete K) where
  -- `keys.toSet()`
  unfoldable pub to_set : List K → List K → List K
  to_set seen [] = []
  to_set seen (k ∷ ks) =
      let rest = to_set (k ∷ seen) ks in if has dec k seen then to_set seen ks else k ∷ rest

module _ {ℓ} {K V : Type ℓ} (dec : Discrete K) where
  -- The loop of `invalidateAll`; the notifications follow it in the same order.
  unfoldable pub remove_keys : List K → Cache K V → Cache K V
  remove_keys [] s = s
  remove_keys (k ∷ ks) s = remove_keys ks (remove_entry dec k s).0

  unfoldable pub invalidate_all : List K → Cache K V → Cache K V
  invalidate_all ks s = remove_keys (to_set dec [] ks) s

  unfoldable pub valid_keys : CacheConfig → (ℕ → ℕ) → Cache K V → List K
  unfolding is_expired select
  valid_keys c clock s = keys (select (λ i e. not (is_expired c (clock i) e)) 0 s.entries)

  -- `map - keys`
  unfoldable pub minus_keys : List K → List (K × CacheEntry V) → List (K × CacheEntry V)
  minus_keys [] m = m
  minus_keys (k ∷ ks) m = minus_keys ks (remove dec k m)

  -- The number of the removed entries is returned.
  unfoldable pub clean_up : CacheConfig → (ℕ → ℕ) → Cache K V → Cache K V × ℕ
  unfolding is_expired select minus_keys expirations
  clean_up c clock s =
      let expired_entries = select (λ i e. is_expired c (clock i) e) 0 s.entries in
      (
        record s {
          entries = minus_keys (keys expired_entries) s.entries;
          access_order = keep (λ k. not (has dec k (keys expired_entries))) s.access_order;
          events = s.events ++ expirations expired_entries;
        },
        length expired_entries,
      )
