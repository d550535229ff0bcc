-- ===== src/Cache/Invariant.antt =====
-- Cache.kt: the entries and the access order of a cache hold the same keys, each once, and no more
-- than the configured maximum, under every operation.
use arrow_resilience_kit.Base.{
  ℕ, suc, ◌≤◌, ◌≡◌, sym, subst, ◌∙◌, ◌⊎◌, inl, inr, true, false, not, ◌&&◌, Option, none, some,
  List, [], ◌∷◌, if_elim, int_inc, arith, leb, length, keys, has, get, remove, occurs, has-cases,
}
use mathlib.Core.Logic.{if_pos, if_neg}
use arrow_resilience_kit.Cache.{
  CacheConfig, CacheEntry, Cache, EvictionStrategy, create_config, is_expired, evict_one, make_room,
  put, drop, serve, take_out, evict, touch,
}
use arrow_resilience_kit.Cache.Aligned.{
  Aligned, drop-Aligned, length-remove, touch-Aligned, length-plus,
}
use arrow_resilience_kit.Cache.Present.{victim}

pub create_config-positive :
    (max : ℕ) (ttl : Option ℕ) (strategy : EvictionStrategy) (c : CacheConfig)
    → create_config max ttl strategy ≡ some c
    → 1 ≤ c.max_size
unfolding create_config
create_config-positive max ttl strategy c h = ground arith

module _ {ℓ} {K V : Type ℓ} (dec : Discrete K) where
  abbrev pub IsValid : CacheConfig → Cache K V → Type ℓ
  IsValid c s = Aligned dec (keys s.entries) s.access_order × (length s.entries ≤ c.max_size)

  pub get-present :
      (k : K) (es : List (K × CacheEntry V)) (e : CacheEntry V)
      → get dec k es ≡ some e
      → 1 ≤ occurs dec k (keys es)
  unfolding get occurs
  get-present k [] e h = absurd (cc h)
  get-present k (x ∷ es) e h = elim (dec x.0 k) [
    | yes p ↦ subst (λ i. 1 ≤ i) (sym (if_pos (dec x.0 k) p _ _)) (omega arith)
    | no n ↦
        subst (λ i. 1 ≤ i) (sym (if_neg (dec x.0 k) n _ _))
          (get-present k es e (sym (if_neg (dec x.0 k) n _ _) ∙ h))
  ]

  pub length-remove_le :
      (k : K) (es : List (K × CacheEntry V)) → length (remove dec k es) ≤ length es
  unfolding remove
  length-remove_le k [] = omega arith
  length-remove_le k (x ∷ es) = ground (arith, length-remove_le k es)

  pub drop-IsValid :
      (c : CacheConfig) (key : K) (s : Cache K V) → IsValid c s → IsValid c (drop dec key s)
  unfolding drop
  drop-IsValid c key s (h, n) = (
    drop-Aligned dec key s.entries s.access_order h,
    omega (arith, n, length-remove_le key s.entries),
  )

  pub serve-IsValid :
      (c : CacheConfig) (at now : ℕ) (key : K) (s : Cache K V) (o : Option (CacheEntry V))
      → get dec key s.entries ≡ o
      → IsValid c s
      → IsValid c (serve dec c at now key s o).0
  unfolding serve drop touch
  serve-IsValid c at now key s none e h = h
  serve-IsValid c at now key s (some entry) e (h, n) =
      if_elim (λ (r : Cache K V × Option V). IsValid c r.0) (is_expired c at entry) _ _
        (λ _. drop-IsValid c key s (h, n))
        (λ _. (
          touch-Aligned dec key s.entries s.access_order _ h,
          omega (
            arith,
            n,
            get-present key s.entries entry e,
            length-plus dec key s.entries s.access_order (record entry {
              last_access_time = now;
              access_count = int_inc entry.access_count;
            }),
          ),
        ))

  pub take_out-IsValid :
      (c : CacheConfig) (key : K) (s : Cache K V) (o : Option (CacheEntry V))
      → IsValid c s
      → IsValid c (take_out dec key s o).0
  unfolding take_out drop
  take_out-IsValid c key s none h = h
  take_out-IsValid c key s (some entry) h = drop-IsValid c key s h

  evict-room :
      (s : Cache K V) (k : K)
      → Aligned dec (keys s.entries) s.access_order
      → 1 ≤ occurs dec k (keys s.entries)
      → Aligned dec (keys (evict dec s (some k)).entries) (evict dec s (some k)).access_order
        × (suc (length (evict dec s (some k)).entries) ≡ length s.entries)
  unfolding evict drop
  evict-room s k h o = (
    drop-Aligned dec k s.entries s.access_order h,
    length-remove dec k s.entries s.access_order o,
  )

  evict_one-room :
      (c : CacheConfig) (s : Cache K V)
      → Aligned dec (keys s.entries) s.access_order
      → 1 ≤ length s.entries
      → Aligned dec (keys (evict_one dec c s).entries) (evict_one dec c s).access_order
        × (suc (length (evict_one dec c s).entries) ≡ length s.entries)
  unfolding evict_one
  evict_one-room c s h n =
      let (k, e, o) = victim dec c.eviction_strategy s.entries s.access_order h n in
      subst
        (λ v.
          Aligned dec (keys (evict dec s v).entries) (evict dec s v).access_order
          × (suc (length (evict dec s v).entries) ≡ length s.entries))
        (sym e) (evict-room s k h o)

  -- Room for `key`: it is there, or one more entry fits.
  pub make_room-Room :
      (c : CacheConfig) (key : K) (s : Cache K V)
      → 1 ≤ c.max_size
      → IsValid c s
      → IsValid c (make_room dec c key s)
        × ((1 ≤ occurs dec key (keys (make_room dec c key s).entries))
            ⊎ (suc (length (make_room dec c key s).entries) ≤ c.max_size))
  unfolding make_room
  make_room-Room c key s p (h, n) =
      if_elim
        (λ r.
          IsValid c r
          × ((1 ≤ occurs dec key (keys r.entries)) ⊎ (suc (length r.entries) ≤ c.max_size)))
        (leb c.max_size (length s.entries) && not (has dec key (keys s.entries))) _ _
        (λ b.
          let (h', n') = evict_one-room c s h (ground (arith, b, p)) in
          ((h', omega (arith, n, n')), inr (omega (arith, n, n'))))
        (λ b. ((h, n), fits b (has-cases dec key (keys s.entries))))
    where
      fits :
          (leb c.max_size (length s.entries) && not (has dec key (keys s.entries))) ≡ false
          → (has dec key (keys s.entries) ≡ true) × (1 ≤ occurs dec key (keys s.entries))
            ⊎ (has dec key (keys s.entries) ≡ false) × (occurs dec key (keys s.entries) ≡ 0)
          → (1 ≤ occurs dec key (keys s.entries)) ⊎ (suc (length s.entries) ≤ c.max_size)
      fits b (inl (_, o)) = inl o
      fits b (inr (e, o)) = inr ground (arith, b, e)

  pub put-IsValid :
      (c : CacheConfig) (created accessed : ℕ) (key : K) (v : V) (s : Cache K V)
      → 1 ≤ c.max_size
      → IsValid c s
      → IsValid c (put dec c created accessed key v s)
  unfolding put touch
  put-IsValid c created accessed key v s p h =
      let ((a, n), room) = make_room-Room c key s p h in
      (
        touch-Aligned dec key (make_room dec c key s).entries (make_room dec c key s).access_order _
            a,
        omega (
          arith,
          n,
          room,
          length-plus dec key (make_room dec c key s).entries (make_room dec c key s).access_order
              (record {
                value = v;
                created_at = created;
                last_access_time = accessed;
                access_count = 0;
              }),
        ),
      )
