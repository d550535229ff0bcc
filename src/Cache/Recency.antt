-- ===== src/Cache/Recency.antt =====
-- Cache.kt: the access order of a cache lists its keys by the time of their last access, so that
-- the strategy LRU evicts what has not been used for longest.
pub mod Operations
use arrow_resilience_kit.Base.{
  ℕ, ◌≤◌, ◌≡◌, ◌≢◌, refl, sym, ap, ◌∙◌, ◌&&◌, not, Option, none, some, List, [], ◌∷◌, ◌++◌, if_elim,
  arith, leb, length, All, All-append, All-map, keep, keys, has, get, get-plus_self, get-plus_ne,
  get-remove_ne, plus, minus, remove, occurs, occurs-minus_self, int_inc,
}
use arrow_resilience_kit.Cache.{
  CacheConfig, CacheEntry, Cache, is_expired, drop, touch, serve, get_entry, evict, evict_one,
  make_room, put, take_out, remove_entry,
}
use arrow_resilience_kit.Cache.Aligned.{Aligned, without}
use arrow_resilience_kit.Cache.Bulk.{
  select, minus_keys, to_set, remove_keys, invalidate_all, clear, clean_up, reset_statistics,
}
use arrow_resilience_kit.Cache.Invariant.{IsValid, make_room-Room}
use arrow_resilience_kit.Cache.Runs.{
  Operation, get_op, put_op, remove_op, invalidate_all_op, clear_op, clean_up_op,
  reset_statistics_op, perform, remove_entry-IsValid,
}
use arrow_resilience_kit.Cache.Sorted.{
  Sorted, Sorted-last, All-ge, Sorted-same, All-keep, Sorted-keep, All-minus, Sorted-minus, All-ne,
  All-without,
}

abbrev pub since {ℓ} : {V : Type ℓ} → Option (CacheEntry V) → ℕ
since none = 0
since (some e) = e.last_access_time

module _ {ℓ} {K V : Type ℓ} (dec : Discrete K) where
  abbrev pub used : List (K × CacheEntry V) → K → ℕ
  used es k = since (get dec k es)

  -- The access order is sorted by the last access, and no access is later than `now`.
  abbrev pub Recent : ℕ → List (K × CacheEntry V) → List K → Type 0
  Recent now es order = All (λ k. used es k ≤ now) order × Sorted (used es) order

  pub Recent-later :
      (from now : ℕ) (es : List (K × CacheEntry V)) (order : List K)
      → from ≤ now
      → Recent from es order
      → Recent now es order
  Recent-later from now es order l (h, s) =
      (All-map (λ k (b : used es k ≤ from). omega (arith, b, l)) order h, s)

  -- The entries of the keys in the order stay as they are.
  Recent-same :
      (now : ℕ) (es es' : List (K × CacheEntry V)) (order : List K)
      → All (λ k. get dec k es' ≡ get dec k es) order
      → Recent now es order
      → Recent now es' order
  Recent-same now es es' order e (h, s) =
      let same = All-map (λ k (q : get dec k es' ≡ get dec k es). ap since q) order e in
      (All-ge (used es) (used es') now order same h, Sorted-same (used es) (used es') order same s)

  minus-ne :
      (key : K) (es : List (K × CacheEntry V)) (order : List K)
      → Aligned dec (keys es) order
      → All (λ k. key ≢ k) (minus dec key order)
  minus-ne key es order a =
      All-ne dec key (minus dec key order) (omega (arith, occurs-minus_self dec key order, a key))

  Recent-minus :
      (now : ℕ) (key : K) (es : List (K × CacheEntry V)) (order : List K)
      → Recent now es order
      → Recent now es (minus dec key order)
  Recent-minus now key es order (h, s) =
      (All-minus dec key (λ k. used es k ≤ now) order h, Sorted-minus dec key (used es) order s)

  pub drop-Recent :
      (now : ℕ) (key : K) (es : List (K × CacheEntry V)) (order : List K)
      → Aligned dec (keys es) order
      → Recent now es order
      → Recent now (remove dec key es) (minus dec key order)
  drop-Recent now key es order a r =
      Recent-same now es (remove dec key es) (minus dec key order)
        (All-map (λ k n. get-remove_ne dec key k es n) (minus dec key order)
          (minus-ne key es order a))
        (Recent-minus now key es order r)

  pub touch-Recent :
      (from : ℕ) (key : K) (entry : CacheEntry V) (es : List (K × CacheEntry V)) (order : List K)
      → from ≤ entry.last_access_time
      → Aligned dec (keys es) order
      → Recent from es order
      → Recent entry.last_access_time (plus dec key entry es) (minus dec key order ++ key ∷ [])
  touch-Recent from key entry es order l a r =
      let (h, s) =
        Recent-same from es (plus dec key entry es) (minus dec key order)
          (All-map (λ k n. get-plus_ne dec key k entry es n) (minus dec key order)
            (minus-ne key es order a))
          (Recent-minus from key es order r) in
      let now : used (plus dec key entry es) key ≡ entry.last_access_time =
        ap since (get-plus_self dec key entry es) in
      (
        All-append _ (minus dec key order) (key ∷ [])
            (All-map (λ k (b : used (plus dec key entry es) k ≤ from). omega (arith, b, l))
              (minus dec key order) h)
            (omega (arith, now), tt),
        Sorted-last (used (plus dec key entry es)) key (minus dec key order)
            (All-map (λ k (b : used (plus dec key entry es) k ≤ from). omega (arith, b, l, now))
              (minus dec key order) h)
            s,
      )

  minus_keys-get :
      (ks : List K) (es : List (K × CacheEntry V)) (k : K)
      → All (λ j. k ≢ j) ks
      → get dec k (minus_keys dec ks es) ≡ get dec k es
  unfolding minus_keys
  minus_keys-get [] es k h = refl
  minus_keys-get (j ∷ ks) es k h =
      minus_keys-get ks (remove dec j es) k h.1 ∙ get-remove_ne dec j k es (λ e. h.0 (sym e))

  pub clean-Recent :
      (now : ℕ) (ks : List K) (es : List (K × CacheEntry V)) (order : List K)
      → Recent now es order
      → Recent now (minus_keys dec ks es) (without dec ks order)
  unfolding without
  clean-Recent now ks es order (h, s) =
      Recent-same now es (minus_keys dec ks es) (keep (λ k. not (has dec k ks)) order)
        (All-map (λ k (o : occurs dec k ks ≡ 0). minus_keys-get ks es k (All-ne dec k ks o))
          (keep (λ k. not (has dec k ks)) order) (All-without dec ks order))
        (
          All-keep (λ k. used es k ≤ now) (λ k. not (has dec k ks)) order h,
          Sorted-keep (used es) (λ k. not (has dec k ks)) order s,
        )
