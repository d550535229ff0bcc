-- ===== src/Cache/Victims.antt =====
-- Cache.kt, lines 376-394: which entry the eviction strategies LFU and FIFO choose.
use arrow_resilience_kit.Base.{
  ℕ, ◌≡◌, refl, ap, sym, subst, ◌∙◌, inl, inr, Bool, true, false, Option, none, some, List, [], ◌∷◌,
  ◌++◌, arith, if◌then◌else◌, Bool-cases, All, ltb, int_lt,
}
use arrow_resilience_kit.Cache.{CacheEntry, lfu, fifo, min_by, key_to_evict, key_of}

module _ {ℓ} {K V : Type ℓ} where
  -- The first entry whose number is the least: all numbers before it are greater, and none after it
  -- is less.
  abbrev pub FirstLeast :
      (ℕ → ℕ → Bool) → (CacheEntry V → ℕ) → List (K × CacheEntry V) → K × CacheEntry V → Type ℓ
  FirstLeast lt f es e =
      (before : List (K × CacheEntry V)) × (after : List (K × CacheEntry V)) × (es
        ≡ before ++ e ∷ after)
      × All (λ d. lt (f e.1) (f d.1) ≡ true) before
      × All (λ d. lt (f d.1) (f e.1) ≡ false) after

int_lt_before : (d b e : ℕ) → int_lt b d ≡ true → int_lt b e ≡ false → int_lt d e ≡ false
unfolding int_lt
int_lt_before d b e h h' = ground (arith, h, h')

int_lt_after : (d b e : ℕ) → int_lt d b ≡ false → int_lt b e ≡ false → int_lt d e ≡ false
unfolding int_lt
int_lt_after d b e h h' = ground (arith, h, h')

ltb_before : (d b e : ℕ) → ltb b d ≡ true → ltb b e ≡ false → ltb d e ≡ false
ltb_before d b e h h' = ground (arith, h, h')

ltb_after : (d b e : ℕ) → ltb d b ≡ false → ltb b e ≡ false → ltb d e ≡ false
ltb_after d b e h h' = ground (arith, h, h')

module _ {ℓ} {K V : Type ℓ} (lt : ℕ → ℕ → Bool) (f : CacheEntry V → ℕ)
    (before-not : (d b e : ℕ) → lt b d ≡ true → lt b e ≡ false → lt d e ≡ false)
    (after-not : (d b e : ℕ) → lt d b ≡ false → lt b e ≡ false → lt d e ≡ false) where
  All-before :
      (b e : K × CacheEntry V) (es after : List (K × CacheEntry V))
      → lt (f b.1) (f e.1) ≡ false
      → All (λ d. lt (f b.1) (f d.1) ≡ true) es
      → All (λ d. lt (f d.1) (f e.1) ≡ false) after
      → All (λ d. lt (f d.1) (f e.1) ≡ false) (es ++ after)
  All-before b e [] after n h h' = h'
  All-before b e (d ∷ es) after n h h' =
      (before-not (f d.1) (f b.1) (f e.1) h.0 n, All-before b e es after n h.1 h')

  All-after :
      (b e : K × CacheEntry V) (es : List (K × CacheEntry V))
      → lt (f b.1) (f e.1) ≡ false
      → All (λ d. lt (f d.1) (f b.1) ≡ false) es
      → All (λ d. lt (f d.1) (f e.1) ≡ false) es
  All-after b e [] n h = h
  All-after b e (d ∷ es) n h = (after-not (f d.1) (f b.1) (f e.1) h.0 n, All-after b e es n h.1)

  min_by-first :
      (e : K × CacheEntry V) (es : List (K × CacheEntry V))
      → (b : K × CacheEntry V) × (min_by lt f (e ∷ es) ≡ some b) × FirstLeast lt f (e ∷ es) b
  unfolding min_by
  min_by-first e [] = (e, refl, ([], [], refl, tt, tt))
  min_by-first e (e' ∷ es) =
      let (b, h, (before, after, split, hb, ha)) = min_by-first e' es in
      elim (Bool-cases (lt (f b.1) (f e.1))) [
        | inl t ↦ (
          b,
          ap choose h ∙ ap (λ x. if x then some b else some e) t,
          (e ∷ before, after, ap (◌∷◌ e) split, (t, hb), ha),
        )
        | inr t ↦ (
          e,
          ap choose h ∙ ap (λ x. if x then some b else some e) t,
          (
            [],
            e' ∷ es,
            refl,
            tt,
            subst (All (λ d. lt (f d.1) (f e.1) ≡ false)) (sym split)
                (All-before b e before (b ∷ after) t hb (t, All-after b e after t ha)),
          ),
        )
      ]
    where
      choose : Option (K × CacheEntry V) → Option (K × CacheEntry V)
      choose none = some e
      choose (some best) = if lt (f best.1) (f e.1) then some best else some e

-- On a cache with entries, LFU evicts the first entry with the least access count, as a 32-bit
-- integer, and FIFO the first with the least creation time.
pub key_to_evict-FirstLeast {ℓ} :
    {K V : Type ℓ} (e : K × CacheEntry V) (es : List (K × CacheEntry V)) (order : List K)
    → ((b : K × CacheEntry V) × (key_to_evict lfu (e ∷ es) order ≡ some b.0)
        × FirstLeast int_lt (λ d. d.access_count) (e ∷ es) b)
      × ((b : K × CacheEntry V) × (key_to_evict fifo (e ∷ es) order ≡ some b.0)
          × FirstLeast ltb (λ d. d.created_at) (e ∷ es) b)
unfolding key_to_evict
key_to_evict-FirstLeast e es order =
    let (b, h, least) = min_by-first int_lt (λ d. d.access_count) int_lt_before int_lt_after e es in
    let (b', h', least') = min_by-first ltb (λ d. d.created_at) ltb_before ltb_after e es in
    ((b, ap key_of h, least), (b', ap key_of h', least'))
