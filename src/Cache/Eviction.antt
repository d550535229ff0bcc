-- ===== src/Cache/Eviction.antt =====
-- Cache.kt, lines 376-394: what `evictOne` chooses in the caches that the operations lead to.
use mathlib.Core.Logic.{if_pos, if_neg}
use arrow_resilience_kit.Base.{
  ℕ, ◌≤◌, ◌≡◌, refl, ap, subst, ◌∙◌, Option, some, List, [], ◌∷◌, arith, keys, get, occurs,
  occurs_nil, int_lt, ltb,
}
use arrow_resilience_kit.Cache.{
  CacheConfig, CacheEntry, EvictionStrategy, lru, lfu, fifo, create_config, create, key_to_evict,
  Cache,
}
use arrow_resilience_kit.Cache.Aligned.{Aligned, empty-Aligned}
use arrow_resilience_kit.Cache.Present.{occurs_head}
use arrow_resilience_kit.Cache.Invariant.{IsValid, create_config-positive, get-present}
use arrow_resilience_kit.Cache.Runs.{
  Operation, perform, perform_all, perform-IsValid, perform_all-Valid,
}
use arrow_resilience_kit.Cache.Sorted.{All-at}
use arrow_resilience_kit.Cache.Recency.{since, used, Recent}
use arrow_resilience_kit.Cache.Recency.Operations.{clock_after, Rising, IsRecent, perform-Recent}
use arrow_resilience_kit.Cache.Victims.{FirstLeast, key_to_evict-FirstLeast}

module _ {ℓ} {K V : Type ℓ} (dec : Discrete K) where
  get-some :
      (k : K) (es : List (K × CacheEntry V))
      → 1 ≤ occurs dec k (keys es)
      → (e : CacheEntry V) × (get dec k es ≡ some e)
  unfolding occurs get
  get-some k [] o = absurd (omega (arith, o))
  get-some k (x ∷ es) o = elim (dec x.0 k) [
    | yes p ↦ (x.1, if_pos (dec x.0 k) p _ _)
    | no n ↦
        let (e, h) = get-some k es (subst (λ i. 1 ≤ i) (if_neg (dec x.0 k) n _ _) o) in
        (e, if_neg (dec x.0 k) n _ _ ∙ h)
  ]

  get_nil : (k : K) (e : CacheEntry V) → ¬ get dec k [] ≡ some e
  unfolding get
  get_nil k e h = cc h

  -- The key that LRU chooses is one with an entry, accessed no later than `e'`.
  abbrev pub LeastRecent : List (K × CacheEntry V) → List K → CacheEntry V → Type ℓ
  LeastRecent es order e' =
      (k : K) × (e : CacheEntry V) × (key_to_evict lru es order ≡ some k)
      × (get dec k es ≡ some e)
      × (e.last_access_time ≤ e'.last_access_time)

  Recent-bound :
      (now : ℕ) (es : List (K × CacheEntry V)) (k j : K) (ks : List K) (e e' : CacheEntry V)
      → Aligned dec (keys es) (k ∷ ks)
      → Recent dec now es (k ∷ ks)
      → get dec k es ≡ some e
      → get dec j es ≡ some e'
      → e.last_access_time ≤ e'.last_access_time
  Recent-bound now es k j ks e e' a r q h =
      let later =
        All-at dec j (λ y. used dec es k ≤ used dec es y) (k ∷ ks)
          (omega (arith, a j, get-present dec j es e' h)) (omega arith, r.1.0) in
      omega (arith, later, ap since q, ap since h)

  Recent-LeastRecent :
      (now : ℕ) (es : List (K × CacheEntry V)) (order : List K) (j : K) (e' : CacheEntry V)
      → Aligned dec (keys es) order
      → Recent dec now es order
      → get dec j es ≡ some e'
      → LeastRecent es order e'
  unfolding key_to_evict
  Recent-LeastRecent now [] order j e' a r h = absurd (get_nil j e' h)
  Recent-LeastRecent now (x ∷ es) [] j e' a r h =
      absurd (omega (arith, a j, get-present dec j (x ∷ es) e' h, occurs_nil dec j))
  Recent-LeastRecent now (x ∷ es) (k ∷ ks) j e' a r h =
      let (e, q) = get-some k (x ∷ es) (omega (arith, a k, occurs_head dec k ks)) in
      (k, e, refl, q, Recent-bound now (x ∷ es) k j ks e e' a r q h)

  abbrev pub FirstLeasts : List (K × CacheEntry V) → List K → Type ℓ
  FirstLeasts es order =
      ((b : K × CacheEntry V) × (key_to_evict lfu es order ≡ some b.0)
        × FirstLeast int_lt (λ d. d.access_count) es b)
      × ((b : K × CacheEntry V) × (key_to_evict fifo es order ≡ some b.0)
          × FirstLeast ltb (λ d. d.created_at) es b)

  leasts :
      (es : List (K × CacheEntry V)) (order : List K) (j : K) (e' : CacheEntry V)
      → get dec j es ≡ some e'
      → FirstLeasts es order
  leasts [] order j e' h = absurd (get_nil j e' h)
  leasts (e ∷ es) order j e' h = key_to_evict-FirstLeast e es order

  module _ (c : CacheConfig) (p : 1 ≤ c.max_size) where
    perform_all-Recent :
        (from : ℕ) (os : List (Operation K V)) (s : Cache K V)
        → Rising dec from os
        → IsValid dec c s
        → IsRecent dec c from s
        → (now : ℕ) × IsRecent dec c now (perform_all dec c os s)
    unfolding perform_all Rising
    perform_all-Recent from [] s rising v r = (from, r)
    perform_all-Recent from (o ∷ os) s rising v r =
        perform_all-Recent (clock_after dec from o) os (perform dec c o s) rising.1
          (perform-IsValid dec c p o s v) (perform-Recent dec c from o s p rising.0 v r)

-- In a cache that was created empty with an accepted configuration, after any sequence of
-- operations whose accesses read a clock that does not run backwards, and that leaves an entry `e'`
-- of a key `j`, the key to evict is, with LRU, one whose entry was last accessed no later than
-- `e'`; with LFU, that of the first entry with the least access count, as a 32-bit integer; with
-- FIFO, that of the first entry with the least creation time.
pub key_to_evict-Least {ℓ} :
    {K V : Type ℓ} (dec : Discrete K) (max : ℕ) (ttl : Option ℕ) (strategy : EvictionStrategy)
    (c : CacheConfig) (os : List (Operation K V)) (j : K) (e' : CacheEntry V)
    → create_config max ttl strategy ≡ some c
    → Rising dec 0 os
    → get dec j (perform_all dec c os create).entries ≡ some e'
    → let s = perform_all dec c os create in
      LeastRecent dec s.entries s.access_order e' × FirstLeasts dec s.entries s.access_order
unfolding IsRecent create
key_to_evict-Least dec max ttl strategy c os j e' accepted rising h =
    let p = create_config-positive max ttl strategy c accepted in
    let s = perform_all dec c os create in
    let valid = perform_all-Valid dec c p os create (empty-Aligned dec, omega arith) in
    let (now, recent) =
      perform_all-Recent dec c p 0 os create rising (empty-Aligned dec, omega arith) (tt, tt) in
    (
      Recent-LeastRecent dec now s.entries s.access_order j e' valid.0 recent h,
      leasts dec s.entries s.access_order j e' h,
    )
