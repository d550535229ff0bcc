-- ===== src/Cache/Present.antt =====
-- Cache.kt, lines 376-394: a cache with entries has a key to evict, which is one of its keys.
use arrow_resilience_kit.Base.{
  ℕ, ◌≤◌, ◌≡◌, refl, ap, ◌∙◌, inl, inr, Bool, Option, none, some, List, [], ◌∷◌, arith, ltb,
  if◌then◌else◌, Bool-cases, length, keys, occurs, int_lt,
}
use arrow_resilience_kit.Cache.{
  CacheEntry, EvictionStrategy, lru, lfu, fifo, min_by, key_to_evict, key_of,
}
use arrow_resilience_kit.Cache.Aligned.{Aligned}

module _ {ℓ} {K : Type ℓ} (dec : Discrete K) where
  pub occurs_head : (k : K) (ks : List K) → 1 ≤ occurs dec k (k ∷ ks)
  unfolding occurs
  occurs_head k ks = ground arith

  Aligned-nil : (k : K) (ks : List K) → ¬ Aligned dec (k ∷ ks) []
  unfolding occurs
  Aligned-nil k ks h = ground (arith, h k)

  occurs_tail : (k j : K) (ks : List K) → 1 ≤ occurs dec k ks → 1 ≤ occurs dec k (j ∷ ks)
  unfolding occurs
  occurs_tail k j ks h = ground arith

module _ {ℓ} {K V : Type ℓ} (dec : Discrete K) where
  min_by-member :
      (lt : ℕ → ℕ → Bool) (f : CacheEntry V → ℕ) (e : K × CacheEntry V)
      (es : List (K × CacheEntry V))
      → (b : K × CacheEntry V) × (min_by lt f (e ∷ es) ≡ some b)
        × (1 ≤ occurs dec b.0 (keys (e ∷ es)))
  unfolding min_by
  min_by-member lt f e [] = (e, refl, occurs_head dec e.0 [])
  min_by-member lt f e (e' ∷ es) =
      let (best, h, o) = min_by-member lt f e' es in
      elim (Bool-cases (lt (f best.1) (f e.1))) [
        | inl t ↦ (
          best,
          ap choose h ∙ ap (λ b. if b then some best else some e) t,
          occurs_tail dec best.0 e.0 (keys (e' ∷ es)) o,
        )
        | inr t ↦ (
          e,
          ap choose h ∙ ap (λ b. if b then some best else some e) t,
          occurs_head dec e.0 (keys (e' ∷ es)),
        )
      ]
    where
      choose : Option (K × CacheEntry V) → Option (K × CacheEntry V)
      choose none = some e
      choose (some best) = if lt (f best.1) (f e.1) then some best else some e

  pub victim :
      (strategy : EvictionStrategy) (es : List (K × CacheEntry V)) (order : List K)
      → Aligned dec (keys es) order
      → 1 ≤ length es
      → (k : K) × (key_to_evict strategy es order ≡ some k) × (1 ≤ occurs dec k (keys es))
  unfolding key_to_evict
  victim strategy [] order h n = absurd (omega (arith, n))
  victim lru (e ∷ es) [] h n = absurd (Aligned-nil dec e.0 (keys es) h)
  victim lru (e ∷ es) (k ∷ order) h n = (k, refl, omega (arith, h k, occurs_head dec k order))
  victim lfu (e ∷ es) order h n =
      let (b, h', o) = min_by-member int_lt (λ e. e.access_count) e es in (b.0, ap key_of h', o)
  victim fifo (e ∷ es) order h n =
      let (b, h', o) = min_by-member ltb (λ e. e.created_at) e es in (b.0, ap key_of h', o)
