-- ===== src/Cache/Tests.antt =====
-- Cache.kt: runs of the cache on concrete keys and clocks, and instances of its theorems.
use arrow_resilience_kit.Base.{
  ℕ, ◌≡◌, refl, ℕ_discrete, none, some, List, [], ◌∷◌, Outcome, returned, get, plus, remove, minus,
  has, ◌⊎◌, if◌then◌else◌, int_inc, arith,
}
use arrow_resilience_kit.Cache.{
  CacheConfig, CacheEntry, Cache, lru, lfu, create_config, create, get_entry, serve, drop, touch,
  evict, evict_one, make_room, put, key_to_evict, is_expired,
}
use arrow_resilience_kit.Cache.Loading.{store, load_missing, get_or_put}
use arrow_resilience_kit.Cache.Runs.{
  Operation, perform, get_op, put_op, clean_up_op, caches-IsValid, perform_all,
}
use arrow_resilience_kit.Cache.Invariant.{IsValid}
use arrow_resilience_kit.Cache.Reads.{get-put, get-get_or_put, Evicts}
use arrow_resilience_kit.Cache.Eviction.{LeastRecent, FirstLeasts, key_to_evict-Least}
use arrow_resilience_kit.Cache.Recency.Operations.{Rising}

abbrev two : CacheConfig
two = record { max_size = 2; ttl = some 10; eviction_strategy = lru }

abbrev forever : CacheConfig
forever = record { max_size = 2; ttl = none; eviction_strategy = lfu }

abbrev filled : Cache ℕ ℕ
filled = put ℕ_discrete two 1 1 7 70 (put ℕ_discrete two 0 0 5 50 create)

reads_value : (get_entry ℕ_discrete two 4 4 5 filled).1 ≡ some 50
unfolding get_entry serve is_expired put make_room touch create evict_one get plus has minus
    ℕ_discrete
reads_value = refl

expires : (get_entry ℕ_discrete two 11 11 5 filled).1 ≡ none
unfolding get_entry serve is_expired put make_room touch create evict_one get plus has minus
    ℕ_discrete
expires = refl

-- The key that was read least recently goes.
evicts_least_recent :
    (put ℕ_discrete two 5 5 9 90 (get_entry ℕ_discrete two 4 4 5 filled).0).access_order
    ≡ 5 ∷ 9 ∷ []
unfolding get_entry serve is_expired put make_room touch create evict_one evict drop key_to_evict
    get plus has minus remove ℕ_discrete
evicts_least_recent = refl

accepted : create_config 2 (some 10) lru ≡ some two
unfolding create_config
accepted = refl

caches-IsValid_example : IsValid {V = ℕ} ℕ_discrete two (
    perform_all ℕ_discrete two
      (put_op 0 0 5 50
        ∷ put_op 1 1 7 70
        ∷ get_op 2 2 5
        ∷ put_op 3 3 9 90
        ∷ clean_up_op (λ i. 12)
        ∷ [])
      create)
caches-IsValid_example =
    caches-IsValid ℕ_discrete 2 (some 10) lru two
      (put_op 0 0 5 50
        ∷ put_op 1 1 7 70
        ∷ get_op 2 2 5
        ∷ put_op 3 3 9 90
        ∷ clean_up_op (λ i. 12)
        ∷ [])
      accepted

abbrev loader : Cache ℕ ℕ → Cache ℕ ℕ × Outcome ℕ ℕ
loader s = (s, returned 70)

loads : (get_or_put ℕ_discrete forever 0 0 1 1 7 loader create).1 ≡ returned 70
unfolding get_or_put load_missing store get_entry serve create get ℕ_discrete
loads = refl

get-get_or_put_example :
    (get_entry ℕ_discrete forever 99 99 7
      (get_or_put ℕ_discrete forever 0 0 1 1 7 loader create).0).1
    ≡ some 70
get-get_or_put_example =
    get-get_or_put ℕ_discrete forever refl 0 0 1 1 99 99 7 loader create 70 loads

get-put_example :
    ((get_entry ℕ_discrete two 4 4 9 (put ℕ_discrete two 3 3 9 90 filled)).1 ≡ (
      if is_expired {V = ℕ} two 4
        (record { value = 90; created_at = 3; last_access_time = 3; access_count = 0 })
      then none
      else some 90))
    × (((get_entry ℕ_discrete two 4 4 7 (put ℕ_discrete two 3 3 9 90 filled)).1
          ≡ (get_entry ℕ_discrete two 4 4 7 filled).1)
        ⊎ Evicts ℕ_discrete two 9 filled 7)
get-put_example = get-put ℕ_discrete two 3 3 4 4 9 7 90 filled (omega arith)

-- 5 is put first but read last.
abbrev reads : List (Operation ℕ ℕ)
reads = put_op 0 0 5 50 ∷ put_op 1 1 7 70 ∷ get_op 2 2 5 ∷ []

abbrev read_last : CacheEntry ℕ
read_last = record { value = 50; created_at = 0; last_access_time = 2; access_count = 1 }

reads-Rising : Rising ℕ_discrete 0 reads
unfolding Rising
reads-Rising = (omega arith, (omega arith, (omega arith, tt)))

reads_lem : get ℕ_discrete 5 (perform_all ℕ_discrete two reads create).entries ≡ some read_last
unfolding get perform_all perform put touch make_room get_entry serve is_expired create plus minus
    has int_inc ℕ_discrete
reads_lem = refl

key_to_evict-Least_example :
    LeastRecent ℕ_discrete
      (perform_all ℕ_discrete two reads create).entries
      (perform_all ℕ_discrete two reads create).access_order
      read_last
    × FirstLeasts ℕ_discrete
        (perform_all ℕ_discrete two reads create).entries
        (perform_all ℕ_discrete two reads create).access_order
key_to_evict-Least_example =
    key_to_evict-Least ℕ_discrete 2 (some 10) lru two reads 5 read_last accepted reads-Rising
      reads_lem
