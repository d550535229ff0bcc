-- ===== src/Cache/Recency/Operations.antt =====
-- Cache.kt: the operations of a cache keep its access order sorted by the last access.
use arrow_resilience_kit.Base.{
  ℕ, ◌≤◌, ◌&&◌, not, Option, none, some, List, [], ◌∷◌, if_elim, leb, length, keys, has, get,
  int_inc,
}
use arrow_resilience_kit.Cache.{
  CacheConfig, CacheEntry, Cache, is_expired, drop, touch, serve, get_entry, evict, evict_one,
  make_room, put, take_out, remove_entry,
}
use arrow_resilience_kit.Cache.Aligned.{Aligned, without}
use arrow_resilience_kit.Cache.Bulk.{
  select, to_set, remove_keys, invalidate_all, clear, clean_up, reset_statistics,
}
use arrow_resilience_kit.Cache.Invariant.{IsValid, make_room-Room}
use arrow_resilience_kit.Cache.Runs.{
  Operation, get_op, put_op, remove_op, invalidate_all_op, clear_op, clean_up_op,
  reset_statistics_op, perform, remove_entry-IsValid,
}
use arrow_resilience_kit.Cache.Recency.{
  Recent, Recent-later, drop-Recent, touch-Recent, clean-Recent,
}

module _ {ℓ} {K V : Type ℓ} (dec : Discrete K) where
  -- When an operation reads the clock, at or after `from`, it reads it last at the second number.
  abbrev pub clock_after : ℕ → Operation K V → ℕ
  clock_after from (get_op at now key) = now
  clock_after from (put_op created accessed key v) = accessed
  clock_after from _ = from

  -- The clock readings of the accesses do not run backwards.
  unfoldable pub Rising : ℕ → List (Operation K V) → Type 0
  Rising from [] = Unit
  Rising from (o ∷ os) = (from ≤ clock_after from o) × Rising (clock_after from o) os

  module _ (c : CacheConfig) where
    unfoldable pub IsRecent : ℕ → Cache K V → Type 0
    IsRecent now s = Recent dec now s.entries s.access_order

    serve-Recent :
        (from at now : ℕ) (key : K) (s : Cache K V) (o : Option (CacheEntry V))
        → from ≤ now
        → Aligned dec (keys s.entries) s.access_order
        → IsRecent from s
        → IsRecent now (serve dec c at now key s o).0
    unfolding IsRecent serve drop touch
    serve-Recent from at now key s none l a r =
        Recent-later dec from now s.entries s.access_order l r
    serve-Recent from at now key s (some entry) l a r =
        if_elim (λ (r : Cache K V × Option V). Recent dec now r.0.entries r.0.access_order)
          (is_expired c at entry) _ _
          (λ _.
            Recent-later dec from now _ _ l (drop-Recent dec from key s.entries s.access_order a r))
          (λ _.
            touch-Recent dec from key
              (record entry { last_access_time = now; access_count = int_inc entry.access_count })
              s.entries s.access_order l a r)

    evict-Recent :
        (now : ℕ) (s : Cache K V) (victim : Option K)
        → Aligned dec (keys s.entries) s.access_order
        → IsRecent now s
        → IsRecent now (evict dec s victim)
    unfolding IsRecent evict drop
    evict-Recent now s none a r = r
    evict-Recent now s (some key) a r = drop-Recent dec now key s.entries s.access_order a r

    make_room-Recent :
        (now : ℕ) (key : K) (s : Cache K V)
        → Aligned dec (keys s.entries) s.access_order
        → IsRecent now s
        → IsRecent now (make_room dec c key s)
    unfolding make_room evict_one
    make_room-Recent now key s a r =
        if_elim (IsRecent now)
          (leb c.max_size (length s.entries) && not (has dec key (keys s.entries))) _ _
          (λ _. evict-Recent now s _ a r) (λ _. r)

    put-Recent :
        (from created accessed : ℕ) (key : K) (v : V) (s : Cache K V)
        → 1 ≤ c.max_size
        → from ≤ accessed
        → IsValid dec c s
        → IsRecent from s
        → IsRecent accessed (put dec c created accessed key v s)
    unfolding IsRecent put touch
    put-Recent from created accessed key v s p l valid r =
        let s' = make_room dec c key s in
        touch-Recent dec from key
          (record {
            value = v;
            created_at = created;
            last_access_time = accessed;
            access_count = 0;
          })
          s'.entries s'.access_order l (make_room-Room dec c key s p valid).0.0
          (make_room-Recent from key s valid.0 r)

    take_out-Recent :
        (now : ℕ) (key : K) (s : Cache K V) (o : Option (CacheEntry V))
        → Aligned dec (keys s.entries) s.access_order
        → IsRecent now s
        → IsRecent now (take_out dec key s o).0
    unfolding IsRecent take_out drop
    take_out-Recent now key s none a r = r
    take_out-Recent now key s (some entry) a r =
        drop-Recent dec now key s.entries s.access_order a r

    remove_keys-Recent :
        (now : ℕ) (ks : List K) (s : Cache K V)
        → IsValid dec c s
        → IsRecent now s
        → IsRecent now (remove_keys dec ks s)
    unfolding remove_keys remove_entry
    remove_keys-Recent now [] s valid r = r
    remove_keys-Recent now (k ∷ ks) s valid r =
        remove_keys-Recent now ks (remove_entry dec k s).0 (remove_entry-IsValid dec c k s valid)
          (take_out-Recent now k s (get dec k s.entries) valid.0 r)

    pub perform-Recent :
        (from : ℕ) (o : Operation K V) (s : Cache K V)
        → 1 ≤ c.max_size
        → from ≤ clock_after from o
        → IsValid dec c s
        → IsRecent from s
        → IsRecent (clock_after from o) (perform dec c o s)
    unfolding IsRecent perform without get_entry remove_entry invalidate_all clear clean_up
        reset_statistics
    perform-Recent from (get_op at now key) s p l v r =
        serve-Recent from at now key s (get dec key s.entries) l v.0 r
    perform-Recent from (put_op created accessed key x) s p l v r =
        put-Recent from created accessed key x s p l v r
    perform-Recent from (remove_op key) s p l v r =
        take_out-Recent from key s (get dec key s.entries) v.0 r
    perform-Recent from (invalidate_all_op ks) s p l v r =
        remove_keys-Recent from (to_set dec [] ks) s v r
    perform-Recent from clear_op s p l v r = (tt, tt)
    perform-Recent from (clean_up_op clock) s p l v r =
        clean-Recent dec from (keys (select (λ i e. is_expired c (clock i) e) 0 s.entries))
          s.entries s.access_order r
    perform-Recent from reset_statistics_op s p l v r = r
