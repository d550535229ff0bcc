-- ===== src/Bulkhead/Bounds.antt =====
-- Bulkhead.kt: the number of active calls under every interleaving, and the waiting calls that are
-- lost when a queued call is cancelled.
use arrow_resilience_kit.Base.{
  ℕ, ◌+◌, ◌%◌, ◌≤◌, ◌<◌, ◌≡◌, false, arith, int_range, int_half, long_range, long_inc, int_inc,
  int_dec, int_lt,
}
use arrow_resilience_kit.Bulkhead.{
  BulkheadConfig, Bulkhead, statistics, create, reset_statistics, can_accept, queue, reject,
  give_up, enter, succeed, fail, leave, exit,
}
use arrow_resilience_kit.Bulkhead.Interleaving.{
  Reach, created, resets, queues, rejects, acquires, gives_up, is_cancelled, enters, succeeds,
  fails, leaves, exits,
}

module _ {E : Type 0} (c : BulkheadConfig) (small : c.max_concurrent_calls < int_half) where
  Counted : ℕ → ℕ → ℕ → ℕ → ℕ → ℕ → ℕ → Bulkhead E → Type 0
  Counted p q h r e l x s =
      (s.active_calls ≡ r + e)
      × (p + h + r + e + l ≡ c.max_concurrent_calls)
      × (s.waiting_calls ≡ (q + h + x) % int_range)

  Reach-Counted :
      {p q h r e l x : ℕ} {s : Bulkhead E} → Reach c p q h r e l x s → Counted p q h r e l x s
  unfolding Counted create reset_statistics queue reject give_up enter succeed fail leave exit
      int_inc int_dec int_lt
  Reach-Counted created = omega arith
  Reach-Counted (resets t) = Reach-Counted t
  Reach-Counted (queues {s = s} a t) = ground (arith, Reach-Counted t, a)
  Reach-Counted (rejects a t) = Reach-Counted t
  Reach-Counted (acquires t) = omega (arith, Reach-Counted t)
  Reach-Counted (gives_up t) = omega (arith, Reach-Counted t)
  Reach-Counted (is_cancelled t) = omega (arith, Reach-Counted t)
  Reach-Counted (enters t) = omega (arith, Reach-Counted t, small)
  Reach-Counted (succeeds t) = omega (arith, Reach-Counted t)
  Reach-Counted (fails error t) = omega (arith, Reach-Counted t)
  Reach-Counted (leaves t) = ground (arith, Reach-Counted t, small)
  Reach-Counted (exits t) = omega (arith, Reach-Counted t)

  -- The calls that ran their block at the last reset are `k`.
  Totalled : ℕ → ℕ → Bulkhead E → Type 0
  Totalled k r s =
      (k ≤ c.max_concurrent_calls)
      × ((s.total_calls + k) % long_range
          ≡ (s.successful_calls + s.failed_calls + s.rejected_calls + r) % long_range)

  Reach-Totalled :
      {p q h r e l x : ℕ} {s : Bulkhead E} → Reach c p q h r e l x s → (k : ℕ) × Totalled k r s
  unfolding Totalled Counted create reset_statistics queue reject give_up enter succeed fail leave
      exit long_inc
  Reach-Totalled created = (0, omega arith)
  Reach-Totalled (resets {r = r} t) = (r, omega (arith, Reach-Counted t))
  Reach-Totalled (queues {s = s} a t) = let (k, h) = Reach-Totalled t in (k, ground (arith, h))
  Reach-Totalled (rejects a t) = let (k, h) = Reach-Totalled t in (k, omega (arith, h))
  Reach-Totalled (acquires t) = Reach-Totalled t
  Reach-Totalled (gives_up t) = let (k, h) = Reach-Totalled t in (k, omega (arith, h))
  Reach-Totalled (is_cancelled t) = Reach-Totalled t
  Reach-Totalled (enters t) = let (k, h) = Reach-Totalled t in (k, omega (arith, h))
  Reach-Totalled (succeeds t) = let (k, h) = Reach-Totalled t in (k, omega (arith, h))
  Reach-Totalled (fails error t) = let (k, h) = Reach-Totalled t in (k, omega (arith, h))
  Reach-Totalled (leaves {s = s} t) = let (k, h) = Reach-Totalled t in (k, ground (arith, h))
  Reach-Totalled (exits t) = Reach-Totalled t

  -- With a `maxConcurrentCalls` in the range of `Int`, in every interleaving with `p` free permits,
  -- `q` queued calls, `h` that hold a permit and have not entered, `r` that run their block, `e`
  -- that have ended it, `l` that still hold their permit after that, and `x` that were cancelled
  -- while queued: the active calls are the `r + e`, they and the other holders of permits are at
  -- most the maximum, the waiting calls are the `q + h`, and the `x` that are gone, modulo 2^32,
  -- and the statistics show as available capacity what the active calls leave of the maximum.
  -- Modulo 2^64 the successful, failed and rejected calls and the `r` make up the total calls, and
  -- `k` more for at most the maximum of calls that ran at a reset.
  pub Reach-Bounded :
      (p q h r e l x : ℕ) (s : Bulkhead E)
      → Reach c p q h r e l x s
      → (s.active_calls ≡ r + e)
        × (h + s.active_calls + l ≤ c.max_concurrent_calls)
        × (s.waiting_calls ≡ (q + h + x) % int_range)
        × ((statistics c s).available_capacity + s.active_calls ≡ c.max_concurrent_calls)
        × ((k : ℕ) × (k ≤ c.max_concurrent_calls)
            × (((statistics c s).total_calls + k) % long_range
                ≡ ((statistics c s).successful_calls
                    + (statistics c s).failed_calls
                    + (statistics c s).rejected_calls
                    + r)
                  % long_range))
  unfolding Counted Totalled statistics
  Reach-Bounded p q h r e l x s t =
      let n = Reach-Counted t in
      let (k, (at_most, total)) = Reach-Totalled t in
      (
        omega (arith, n),
        omega (arith, n),
        omega (arith, n),
        omega (arith, n, small),
        (k, at_most, total),
      )

  -- When as many calls were cancelled while queued as `maxWaitingCalls` allows to wait, and not
  -- 2^31 of them, a bulkhead whose active calls are at the maximum accepts no call, though none
  -- waits.
  pub cancelled_calls_block :
      (p r e l x : ℕ) (s : Bulkhead E)
      → Reach c p 0 0 r e l x s
      → r + e ≡ c.max_concurrent_calls
      → c.max_waiting_calls ≤ x
      → x < int_half
      → queue c s ≡ (s, false)
  unfolding queue can_accept Counted int_lt
  cancelled_calls_block p r e l x s t full many few =
      ground (arith, Reach-Counted t, full, many, few, small)
