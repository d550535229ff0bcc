-- ===== src/Cache/Runs.antt =====
-- Cache.kt: sequences of operations on a cache, on any clock.
use arrow_resilience_kit.Base.{
  ℕ, ◌≤◌, ◌≡◌, refl, arith, Option, some, List, [], ◌∷◌, get, keys, length, occurs, has-cases,
  remove, ◌-◌, suc, inl, inr, ap, ◌++◌, keys-remove, minus, occurs-minus_self, occurs-minus_ne,
}
use mathlib.Core.Logic.{if_pos, if_neg}
use arrow_resilience_kit.Cache.{
  CacheConfig, CacheEntry, Cache, Event, is_expired, EvictionStrategy, create_config, create,
  get_entry, put, remove_entry,
}
use arrow_resilience_kit.Cache.Bulk.{
  to_set, remove_keys, invalidate_all, clear, minus_keys, expirations, select, clean_up,
  reset_statistics,
}
use arrow_resilience_kit.Cache.Aligned.{without, without_in, without_out, empty-Aligned}
use arrow_resilience_kit.Cache.Invariant.{
  IsValid, create_config-positive, length-remove_le, serve-IsValid, take_out-IsValid, put-IsValid,
}

pub data Operation {ℓ} (K V : Type ℓ) : Type ℓ where
  get_op : ℕ → ℕ → K → Operation K V
  put_op : ℕ → ℕ → K → V → Operation K V
  remove_op : K → Operation K V
  invalidate_all_op : List K → Operation K V
  clear_op : Operation K V
  clean_up_op : (ℕ → ℕ) → Operation K V
  reset_statistics_op : Operation K V

module _ {ℓ} {K V : Type ℓ} (dec : Discrete K) (c : CacheConfig) where
  unfoldable pub perform : Operation K V → Cache K V → Cache K V
  perform (get_op at now key) s = (get_entry dec c at now key s).0
  perform (put_op created accessed key v) s = put dec c created accessed key v s
  perform (remove_op key) s = (remove_entry dec key s).0
  perform (invalidate_all_op ks) s = invalidate_all dec ks s
  perform clear_op s = clear s
  perform (clean_up_op clock) s = (clean_up dec c clock s).0
  perform reset_statistics_op s = reset_statistics s

  unfoldable pub perform_all : List (Operation K V) → Cache K V → Cache K V
  unfolding perform
  perform_all [] s = s
  perform_all (o ∷ os) s = perform_all os (perform o s)

  pub remove_entry-IsValid :
      (key : K) (s : Cache K V) → IsValid dec c s → IsValid dec c (remove_entry dec key s).0
  unfolding remove_entry
  remove_entry-IsValid key s h = take_out-IsValid dec c key s (get dec key s.entries) h

  remove_keys-IsValid :
      (ks : List K) (s : Cache K V) → IsValid dec c s → IsValid dec c (remove_keys dec ks s)
  unfolding remove_keys
  remove_keys-IsValid [] s h = h
  remove_keys-IsValid (k ∷ ks) s h =
      remove_keys-IsValid ks (remove_entry dec k s).0 (remove_entry-IsValid k s h)

  occurs-minus_keys :
      (k : K) (ks : List K) (m : List (K × CacheEntry V))
      → occurs dec k (keys (minus_keys dec ks m)) ≡ occurs dec k (keys m) - occurs dec k ks
  unfolding minus_keys occurs
  occurs-minus_keys k [] m = omega arith
  occurs-minus_keys k (x ∷ ks) m = elim (dec x k) [
    | yes e ↦ omega (
      arith,
      occurs-minus_keys k ks (remove dec x m),
      ap (occurs dec k) (keys-remove dec x m),
      ap (λ j. occurs dec k (minus dec j (keys m))) e,
      occurs-minus_self dec k (keys m),
      if_pos (dec x k) e (suc (occurs dec k ks)) (occurs dec k ks),
    )
    | no n ↦ omega (
      arith,
      occurs-minus_keys k ks (remove dec x m),
      ap (occurs dec k) (keys-remove dec x m),
      occurs-minus_ne dec x k (keys m) n,
      if_neg (dec x k) n (suc (occurs dec k ks)) (occurs dec k ks),
    )
  ]

  length-minus_keys :
      (ks : List K) (m : List (K × CacheEntry V)) → length (minus_keys dec ks m) ≤ length m
  unfolding minus_keys
  length-minus_keys [] m = omega arith
  length-minus_keys (k ∷ ks) m =
      omega (arith, length-minus_keys ks (remove dec k m), length-remove_le dec k m)

  minus_keys-IsValid :
      (ks : List K) (s : Cache K V) (es : List (Event K V))
      → IsValid dec c s
      → IsValid dec c (record s {
        entries = minus_keys dec ks s.entries;
        access_order = without dec ks s.access_order;
        events = es;
      })
  minus_keys-IsValid ks s es (h, n) = (
    λ k. elim (has-cases dec k ks) [
      | inl (_, o) ↦
          omega
            (arith, h k, occurs-minus_keys k ks s.entries, without_in dec k ks s.access_order o, o)
      | inr (_, o) ↦
          omega
            (arith, h k, occurs-minus_keys k ks s.entries, without_out dec k ks s.access_order o, o)
    ],
    omega (arith, n, length-minus_keys ks s.entries),
  )

  module _ (p : 1 ≤ c.max_size) where
    pub perform-IsValid :
        (o : Operation K V) (s : Cache K V) → IsValid dec c s → IsValid dec c (perform o s)
    unfolding perform without get_entry invalidate_all clear clean_up reset_statistics
    perform-IsValid (get_op at now key) s h =
        serve-IsValid dec c at now key s (get dec key s.entries) refl h
    perform-IsValid (put_op created accessed key v) s h =
        put-IsValid dec c created accessed key v s p h
    perform-IsValid (remove_op key) s h = remove_entry-IsValid key s h
    perform-IsValid (invalidate_all_op ks) s h = remove_keys-IsValid (to_set dec [] ks) s h
    perform-IsValid clear_op s h = (empty-Aligned dec, omega arith)
    perform-IsValid (clean_up_op clock) s h =
        minus_keys-IsValid (keys (select (λ i e. is_expired c (clock i) e) 0 s.entries)) s
          (s.events ++ expirations (select (λ i e. is_expired c (clock i) e) 0 s.entries)) h
    perform-IsValid reset_statistics_op s h = h

    pub perform_all-Valid :
        (os : List (Operation K V)) (s : Cache K V)
        → IsValid dec c s
        → IsValid dec c (perform_all os s)
    unfolding perform_all
    perform_all-Valid [] s h = h
    perform_all-Valid (o ∷ os) s h = perform_all-Valid os (perform o s) (perform-IsValid o s h)

-- In a cache that was created empty with an accepted configuration, after any sequence of get, put,
-- remove, invalidateAll, clear, cleanUp and resetStatistics, whatever the clock shows: the entries
-- and the access order hold the same keys, each key stands once in both, and there are no more
-- entries than maxSize.
pub caches-IsValid {ℓ} :
    {K V : Type ℓ} (dec : Discrete K) (max : ℕ) (ttl : Option ℕ) (strategy : EvictionStrategy)
    (c : CacheConfig) (os : List (Operation K V))
    → create_config max ttl strategy ≡ some c
    → IsValid dec c (perform_all dec c os create)
unfolding create
caches-IsValid dec max ttl strategy c os h =
    perform_all-Valid dec c (create_config-positive max ttl strategy c h) os create
      (empty-Aligned dec, omega arith)
