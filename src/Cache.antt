-- ===== src/Cache.antt =====
-- Cache.kt, lines 66-568: the cache, with its entries in the order of insertion, its access order,
-- least recently used first, and its counters. Keys have a decidable equality `dec`. Each
-- `clock.now()` is an argument, and times are nanoseconds; where a collection is filtered, `clock
-- i` is what the clock shows for its i-th entry. `events` records the calls of the listeners, in
-- order.
pub mod Aligned
pub mod Bulk
pub mod Loading
pub mod LoadingCache
pub mod Present
pub mod Invariant
pub mod Reads
pub mod Runs
pub mod Recency
pub mod Eviction
pub mod Sorted
pub mod Victims
mod Tests
use mathlib.Core.Logic.{ite}
use arrow_resilience_kit.Base.{
  ℕ, suc, ◌+◌, ◌≤◌, Bool, true, false, not, ◌&&◌, Option, none, some, List, [], ◌∷◌, ◌++◌, ltb, leb,
  if◌then◌else◌, length, int_inc, int_lt, long_inc, has, keys, minus, get, plus, remove, Outcome,
  returned, thrown,
}

pub data EvictionStrategy : Type 0 where
  lru lfu fifo : EvictionStrategy

pub data EvictionReason : Type 0 where
  size expired : EvictionReason

pub record CacheConfig : Type 0 where
  pub max_size : ℕ
  pub ttl : Option ℕ
  pub eviction_strategy : EvictionStrategy

abbrev pub is_positive : Option ℕ → Bool
is_positive none = true
is_positive (some n) = ltb 0 n

-- The `require`s of the constructor; `none` is the exception.
unfoldable pub create_config : ℕ → Option ℕ → EvictionStrategy → Option CacheConfig
create_config max ttl strategy =
    if ltb 0 max && is_positive ttl
    then some (record { max_size = max; ttl = ttl; eviction_strategy = strategy })
    else none

pub record CacheEntry {ℓ} (V : Type ℓ) : Type ℓ where
  pub value : V
  pub created_at : ℕ
  pub last_access_time : ℕ
  pub access_count : ℕ

pub data Event {ℓ} (K V : Type ℓ) : Type ℓ where
  on_put : K → V → Event K V
  on_remove : K → V → Event K V
  on_eviction : K → V → EvictionReason → Event K V
  on_clear : Event K V

pub record Cache {ℓ} (K V : Type ℓ) : Type ℓ where
  pub entries : List (K × CacheEntry V)
  pub access_order : List K
  pub hits : ℕ
  pub misses : ℕ
  pub evictions : ℕ
  pub events : List (Event K V)

unfoldable pub create {ℓ} : {K V : Type ℓ} → Cache K V
create = record {
  entries = [];
  access_order = [];
  hits = 0;
  misses = 0;
  evictions = 0;
  events = [];
}

-- `now - createdAt > ttl`, over the integers.
unfoldable pub is_expired {ℓ} : {V : Type ℓ} → CacheConfig → ℕ → CacheEntry V → Bool
is_expired c now entry = elim c.ttl [ none ↦ false | some ttl ↦ ltb (entry.created_at + ttl) now ]

-- `minByOrNull`: the first entry whose selected number is the least by the order `lt`.
unfoldable pub min_by {ℓ} :
    {K V : Type ℓ}
    → (ℕ → ℕ → Bool)
    → (CacheEntry V → ℕ)
    → List (K × CacheEntry V)
    → Option (K × CacheEntry V)
min_by lt select [] = none
min_by lt select (e ∷ m) = elim (min_by lt select m) [
  | none ↦ some e
  | some best ↦ if lt (select best.1) (select e.1) then some best else some e
]

abbrev pub first_or_null {ℓ} : {A : Type ℓ} → List A → Option A
first_or_null [] = none
first_or_null (x ∷ xs) = some x

abbrev pub key_of {ℓ} : {K V : Type ℓ} → Option (K × CacheEntry V) → Option K
key_of none = none
key_of (some e) = some e.0

-- With the early return of `evictOne` on an empty cache.
unfoldable pub key_to_evict {ℓ} :
    {K V : Type ℓ} → EvictionStrategy → List (K × CacheEntry V) → List K → Option K
unfolding min_by
key_to_evict strategy [] order = none
key_to_evict lru (_ ∷ _) order = first_or_null order
key_to_evict lfu (e ∷ m) order = key_of (min_by int_lt (λ e. e.access_count) (e ∷ m))
key_to_evict fifo (e ∷ m) order = key_of (min_by ltb (λ e. e.created_at) (e ∷ m))

module _ {ℓ} {K V : Type ℓ} (dec : Discrete K) where
  -- The two writes that take a key out.
  unfoldable pub drop : K → Cache K V → Cache K V
  drop key s = record s {
    entries = remove dec key s.entries;
    access_order = minus dec key s.access_order;
  }

  -- The two writes that store an entry and move its key to the end of the access order.
  unfoldable pub touch : K → CacheEntry V → Cache K V → Cache K V
  touch key entry s = record s {
    entries = plus dec key entry s.entries;
    access_order = minus dec key s.access_order ++ key ∷ [];
  }

  unfoldable pub serve :
      CacheConfig → ℕ → ℕ → K → Cache K V → Option (CacheEntry V) → Cache K V × Option V
  unfolding is_expired drop touch
  serve c at now key s none = (record s { misses = long_inc s.misses }, none)
  serve c at now key s (some entry) =
      if is_expired c at entry
      then (record (drop key s) { misses = long_inc s.misses }, none)
      else (
        record (touch key
            (record entry { last_access_time = now; access_count = int_inc entry.access_count })
            s) { hits = long_inc s.hits },
        some entry.value,
      )

  -- `at` is the clock of `isExpired`, `now` that of the copied entry.
  unfoldable pub get_entry : CacheConfig → ℕ → ℕ → K → Cache K V → Cache K V × Option V
  unfolding serve
  get_entry c at now key s = serve c at now key s (get dec key s.entries)

  unfoldable pub evict : Cache K V → Option K → Cache K V
  unfolding drop
  evict s none = s
  evict s (some key) = record (drop key s) { evictions = long_inc s.evictions }

  -- `evictOne`; the caller writes the entries and the order back.
  unfoldable pub evict_one : CacheConfig → Cache K V → Cache K V
  unfolding evict
  evict_one c s = evict s (key_to_evict c.eviction_strategy s.entries s.access_order)

  -- The first key of the old entries that the new ones lack, and its old value.
  unfoldable pub evicted : List (K × CacheEntry V) → List (K × CacheEntry V) → List (Event K V)
  evicted [] new = []
  evicted (e ∷ old) new = elim (get dec e.0 new) [
    | none ↦ on_eviction e.0 e.1.value size ∷ []
    | some _ ↦ evicted old new
  ]

  unfoldable pub make_room : CacheConfig → K → Cache K V → Cache K V
  make_room c key s =
      if leb c.max_size (length s.entries) && not (has dec key (keys s.entries))
      then evict_one c s
      else s

  unfoldable pub put : CacheConfig → ℕ → ℕ → K → V → Cache K V → Cache K V
  unfolding make_room touch
  put c created accessed key value s =
      let s' = make_room c key s in
      record (touch key
        (record {
          value = value;
          created_at = created;
          last_access_time = accessed;
          access_count = 0;
        })
        s') { events = s'.events ++ (evicted s.entries s'.entries ++ on_put key value ∷ []) }

  unfoldable pub take_out : K → Cache K V → Option (CacheEntry V) → Cache K V × Option V
  unfolding drop
  take_out key s none = (s, none)
  take_out key s (some entry) = (
    record (drop key s) { events = s.events ++ on_remove key entry.value ∷ [] },
    some entry.value,
  )

  -- `remove`; `invalidate` drops its result.
  unfoldable pub remove_entry : K → Cache K V → Cache K V × Option V
  unfolding take_out
  remove_entry key s = take_out key s (get dec key s.entries)

  unfoldable pub contains_key : CacheConfig → ℕ → K → Cache K V → Bool
  unfolding is_expired
  contains_key c at key s = elim (get dec key s.entries) [
    | none ↦ false
    | some entry ↦ not (is_expired c at entry)
  ]
