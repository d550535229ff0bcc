-- ===== src/Cache/Reads.antt =====
-- Cache.kt: what `get` returns after `put`, and what `getOrPut` returns and does.
use arrow_resilience_kit.Base.{
  ℕ, ◌+◌, ◌≤◌, ◌≡◌, ◌≢◌, refl, sym, ap, ◌∙◌, ◌⊎◌, inl, inr, false, not, ◌&&◌, Option, none, some,
  arith, if◌then◌else◌, if_elim, length, leb, ltb, get, has, keys, get-plus_self, get-plus_ne,
  get-remove_ne, Outcome, returned, thrown, int_inc,
}
use arrow_resilience_kit.Cache.{
  CacheConfig, CacheEntry, Cache, is_expired, key_to_evict, drop, touch, serve, get_entry, evict,
  evict_one, make_room, put,
}
use arrow_resilience_kit.Cache.Loading.{store, load_missing, get_or_put}

module _ {ℓ} {K V : Type ℓ} (dec : Discrete K) (c : CacheConfig) where
  -- The value of an entry that has not expired.
  fresh : ℕ → Option (CacheEntry V) → Option V
  fresh at none = none
  fresh at (some entry) = if is_expired c at entry then none else some entry.value

  serve-fresh :
      (at now : ℕ) (key : K) (s : Cache K V) (o : Option (CacheEntry V))
      → (serve dec c at now key s o).1 ≡ fresh at o
  unfolding serve fresh
  serve-fresh at now key s none = refl
  serve-fresh at now key s (some entry) =
      if_elim
        (λ (r : Cache K V × Option V).
          r.1 ≡ (if is_expired c at entry then none else some entry.value))
        (is_expired c at entry) _ _ (λ e. ap (λ b. if b then none else some entry.value) (sym e))
        (λ e. ap (λ b. if b then none else some entry.value) (sym e))

  get_entry-fresh :
      (at now : ℕ) (key : K) (s : Cache K V)
      → (get_entry dec c at now key s).1 ≡ fresh at (get dec key s.entries)
  unfolding get_entry
  get_entry-fresh at now key s = serve-fresh at now key s (get dec key s.entries)

  -- What `put` does to the entry of another key.
  evict-get :
      (s : Cache K V) (o : Option K) (j : K)
      → (get dec j (evict dec s o).entries ≡ get dec j s.entries) ⊎ (o ≡ some j)
  unfolding evict drop
  evict-get s none j = inl refl
  evict-get s (some k) j = elim (dec k j) [
    | yes e ↦ inr (ap some e)
    | no n ↦ inl (get-remove_ne dec k j s.entries n)
  ]

  pub Evicts : K → Cache K V → K → Type ℓ
  Evicts key s j =
      (has dec key (keys s.entries) ≡ false)
      × (c.max_size ≤ length s.entries)
      × (key_to_evict c.eviction_strategy s.entries s.access_order ≡ some j)

  make_room-get :
      (key : K) (s : Cache K V) (j : K)
      → (get dec j (make_room dec c key s).entries ≡ get dec j s.entries) ⊎ Evicts key s j
  unfolding make_room evict_one Evicts
  make_room-get key s j =
      if_elim (λ (r : Cache K V). (get dec j r.entries ≡ get dec j s.entries) ⊎ Evicts key s j)
        (leb c.max_size (length s.entries) && not (has dec key (keys s.entries))) _ _
        (λ b. elim (evict-get s (key_to_evict c.eviction_strategy s.entries s.access_order) j) [
          | inl e ↦ inl e
          | inr e ↦ inr (ground (arith, b), ground (arith, b), e)
        ])
        (λ _. inl refl)

  -- After `put key value`, `get key` returns the value, unless the time to live has passed since.
  -- For every other key `j`, `get j` returns what it would have returned without the `put`, unless
  -- the cache was full, had no entry for `key` and chose `j` as the one to evict.
  pub get-put :
      (created accessed at now : ℕ) (key j : K) (v : V) (s : Cache K V)
      → key ≢ j
      → ((get_entry dec c at now key (put dec c created accessed key v s)).1 ≡ (
          if is_expired {V = V} c at (record {
            value = v;
            created_at = created;
            last_access_time = accessed;
            access_count = 0;
          })
          then none
          else some v))
        × (((get_entry dec c at now j (put dec c created accessed key v s)).1
              ≡ (get_entry dec c at now j s).1)
            ⊎ Evicts key s j)
  unfolding put touch fresh
  get-put created accessed at now key j v s n = (
    get_entry-fresh at now key _ ∙ ap (fresh at) (get-plus_self dec key _ _),
    elim (make_room-get key s j) [
      | inl e ↦ inl (
          get_entry-fresh at now j _
          ∙ ap (fresh at) (get-plus_ne dec key j _ _ n ∙ e)
          ∙ sym (get_entry-fresh at now j s))
      | inr e ↦ inr e
    ],
  )

  module _ (forever : c.ttl ≡ none) where
    never_expired : (at : ℕ) (entry : CacheEntry V) → is_expired c at entry ≡ false
    unfolding is_expired
    never_expired at entry =
        ap (λ ttl. elim ttl [ none ↦ false | some ttl ↦ ltb (entry.created_at + ttl) at ]) forever

    fresh_forever : (at : ℕ) (entry : CacheEntry V) → fresh at (some entry) ≡ some entry.value
    unfolding fresh
    fresh_forever at entry = ap (λ b. if b then none else some entry.value) (never_expired at entry)

    serve-get :
        (at now later : ℕ) (key : K) (s : Cache K V) (o : Option (CacheEntry V)) (v : V)
        → (serve dec c at now key s o).1 ≡ some v
        → fresh later (get dec key (serve dec c at now key s o).0.entries) ≡ some v
    unfolding serve touch
    serve-get at now later key s none v h = absurd (cc h)
    serve-get at now later key s (some entry) v h =
        if_elim
          (λ (r : Cache K V × Option V). fresh later (get dec key r.0.entries) ≡ some entry.value)
          (is_expired c at entry) _ _ (λ e. absurd (cc (e, never_expired at entry)))
          (λ _.
            ap (fresh later) (get-plus_self dec key _ _)
            ∙ fresh_forever later (record entry {
              last_access_time = now;
              access_count = int_inc entry.access_count;
            }))
        ∙ sym (fresh_forever at entry)
        ∙ sym (serve-fresh at now key s (some entry))
        ∙ h

    get_entry-get :
        (at now later : ℕ) (key : K) (s : Cache K V) (v : V)
        → (get_entry dec c at now key s).1 ≡ some v
        → fresh later (get dec key (get_entry dec c at now key s).0.entries) ≡ some v
    unfolding get_entry
    get_entry-get at now later key s v h = serve-get at now later key s (get dec key s.entries) v h

    store-get :
        {E : Type ℓ} (created accessed later : ℕ) (key : K) (r : Cache K V × Outcome E V) (v : V)
        → (store dec c created accessed key r).1 ≡ returned v
        → fresh later (get dec key (store dec c created accessed key r).0.entries) ≡ some v
    unfolding store put touch
    store-get created accessed later key (s, thrown e) v h = absurd (cc h)
    store-get created accessed later key (s, returned w) v h =
        ap (fresh later) (get-plus_self dec key _ _) ∙ fresh_forever later _ ∙ ap some (cc h)

    load_missing-get :
        {E : Type ℓ} (at now created accessed later : ℕ) (key : K)
        (loader : Cache K V → Cache K V × Outcome E V) (r : Cache K V × Option V) (v : V)
        → ((w : V) → r.1 ≡ some w → fresh later (get dec key r.0.entries) ≡ some w)
        → (load_missing dec c created accessed key loader r).1 ≡ returned v
        → fresh later (get dec key (load_missing dec c created accessed key loader r).0.entries)
          ≡ some v
    unfolding load_missing
    load_missing-get at now created accessed later key loader (s, some w) v cached h =
        cached v (ap some (cc h))
    load_missing-get at now created accessed later key loader (s, none) v cached h =
        store-get created accessed later key (loader s) v h

    -- In a cache without a time to live, when `getOrPut key` returns a value, cached or loaded, a
    -- later `get key` returns it too.
    pub get-get_or_put :
        {E : Type ℓ} (at now created accessed later now' : ℕ) (key : K)
        (loader : Cache K V → Cache K V × Outcome E V) (s : Cache K V) (v : V)
        → (get_or_put dec c at now created accessed key loader s).1 ≡ returned v
        → (get_entry dec c later now' key
            (get_or_put dec c at now created accessed key loader s).0).1
          ≡ some v
    unfolding get_or_put
    get-get_or_put at now created accessed later now' key loader s v h =
        get_entry-fresh later now' key _
        ∙ load_missing-get at now created accessed later key loader (get_entry dec c at now key s) v
            (get_entry-get at now later key s) h
