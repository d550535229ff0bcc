-- ===== src/RateLimiter/Bounds.antt =====
-- The bucket of RateLimiter.kt, lines 65-362, stays between empty and full, and its counters
-- partition the requests, in any order of the operations and whatever the clock shows.
use arrow_resilience_kit.Base.{
  ℕ, ◌+◌, ◌-◌, ◌/◌, ◌%◌, true, List, [], ◌∷◌, ◌≡◌, refl, arith, ltb, Bool-cases, inl, inr,
  long_range, long_inc, long_inc_left, long_inc_right,
}
use arrow_resilience_kit.RateLimiter.Arithmetic.{Doubles}
use arrow_resilience_kit.RateLimiter.{
  RateLimiterConfig, RateLimiter, create, min_of, tokens_to_add, do_refill_tokens, available_tokens,
  try_acquire, reset_statistics, reset,
}

pub data Operation : Type 0 where
  acquires : ℕ → ℕ → Operation
  asks : ℕ → Operation
  resets : ℕ → Operation
  resets_statistics : Operation

module _ (d : Doubles) where
  open d use {Double, le, is_finite, of_ℕ, plus, minus, times, over}

  -- A finite rate that is not negative.
  pub record IsRate (c : RateLimiterConfig d) : Type 0 where
    pub finite : is_finite c.permits_per_second ≡ true
    pub nonneg : le (of_ℕ 0) c.permits_per_second ≡ true

  -- The tokens lie between 0 and the capacity.
  abbrev pub Level : RateLimiterConfig d → Double → Type 0
  Level c t = (le (of_ℕ 0) t ≡ true) × (le t (of_ℕ c.burst_capacity) ≡ true)

  -- The counters partition the requests, modulo 2^64.
  abbrev pub Partition : RateLimiter d → Type 0
  Partition r = r.total_requests ≡ (r.accepted_requests + r.rejected_requests) % long_range

  min_of-le : (x y : Double) → le (min_of d x y) y ≡ true
  min_of-le x y = elim (Bool-cases (le x y)) [ inl h ↦ rw h h | inr h ↦ rw h (d.le_refl y) ]

  pub le-min_of : (x y z : Double) → le z x ≡ true → le z y ≡ true → le z (min_of d x y) ≡ true
  le-min_of x y z h k = elim (Bool-cases (le x y)) [ inl e ↦ rw e h | inr e ↦ rw e k ]

  module _ (c : RateLimiterConfig d) (rate : IsRate c) (now : ℕ) where
    tokens_to_add-nonneg : (elapsed : ℕ) → le (of_ℕ 0) (tokens_to_add d c elapsed) ≡ true
    unfolding tokens_to_add
    tokens_to_add-nonneg elapsed =
        d.over_nonneg _ (d.times_nonneg (elapsed / 1000000) _ rate.finite rate.nonneg)

    refill-Level :
        (r : RateLimiter d) → Level c r.tokens → Level c (do_refill_tokens d c now r).tokens
    unfolding do_refill_tokens
    refill-Level r v = elim (Bool-cases (ltb r.last_refill_time now)) [
      | inr e ↦ rw e v
      | inl e ↦ rw e (
        le-min_of _ _ _ (d.plus_nonneg _ _ v.0 (tokens_to_add-nonneg (now - r.last_refill_time)))
            (d.le-of_ℕ 0 c.burst_capacity (omega arith)),
        min_of-le _ _,
      )
    ]

    -- A refill counts nothing.
    refill-counters :
        (r : RateLimiter d)
        → let r' = do_refill_tokens d c now r in
          (r'.total_requests ≡ r.total_requests)
          × (r'.accepted_requests ≡ r.accepted_requests)
          × (r'.rejected_requests ≡ r.rejected_requests)
    unfolding do_refill_tokens
    refill-counters r = ground arith

    spend-Level :
        (permits : ℕ) (t : Double)
        → Level c t
        → le (of_ℕ permits) t ≡ true
        → Level c (minus t (of_ℕ permits))
    spend-Level permits t v h = (
      d.minus_nonneg t permits c.burst_capacity v.1 h,
      d.le_trans _ t _ (d.minus-le t permits) v.1,
    )

    acquire-Level :
        (permits : ℕ) (r : RateLimiter d)
        → Level c r.tokens
        → Level c (try_acquire d c permits now r).0.tokens
    unfolding try_acquire
    acquire-Level permits r v = elim (Bool-cases (le (of_ℕ permits) refilled.tokens)) [
      | inl e ↦ rw (e, try_acquire) (spend-Level permits _ (refill-Level _ v) e)
      | inr e ↦ rw (e, try_acquire) (refill-Level _ v)
    ]
      where
        refilled : RateLimiter d
        refilled =
            do_refill_tokens d c now (record r { total_requests = long_inc r.total_requests })

    acquire-Partition :
        (permits : ℕ) (r : RateLimiter d)
        → Partition r
        → Partition (try_acquire d c permits now r).0
    unfolding try_acquire
    acquire-Partition permits r v = ground (
      arith,
      refill-counters (record r { total_requests = long_inc r.total_requests }),
      long_inc_left r.total_requests r.accepted_requests r.rejected_requests,
      long_inc_right r.total_requests r.accepted_requests r.rejected_requests,
    )

  unfoldable pub perform : RateLimiterConfig d → Operation → RateLimiter d → RateLimiter d
  unfolding available_tokens
  perform c (acquires permits now) r = (try_acquire d c permits now r).0
  perform c (asks now) r = (available_tokens d c now r).0
  perform c (resets now) r = reset d c now r
  perform c resets_statistics r = reset_statistics d r

  unfoldable pub perform_all : RateLimiterConfig d → List Operation → RateLimiter d → RateLimiter d
  unfolding perform
  perform_all c [] r = r
  perform_all c (o ∷ os) r = perform_all c os (perform c o r)

  full-Level : (c : RateLimiterConfig d) → Level c (of_ℕ c.burst_capacity)
  full-Level c = (d.le-of_ℕ 0 c.burst_capacity (omega arith), d.le_refl _)

  perform-Level :
      (c : RateLimiterConfig d)
      → IsRate c
      → (o : Operation) (r : RateLimiter d) → Level c r.tokens
      → Level c (perform c o r).tokens
  unfolding perform reset reset_statistics
  perform-Level c rate (acquires permits now) r v = acquire-Level c rate now permits r v
  perform-Level c rate (asks now) r v = refill-Level c rate now r v
  perform-Level c rate (resets now) r v = full-Level c
  perform-Level c rate resets_statistics r v = v

  perform-Partition :
      (c : RateLimiterConfig d)
      → IsRate c
      → (o : Operation) (r : RateLimiter d) → Partition r
      → Partition (perform c o r)
  unfolding perform reset reset_statistics
  perform-Partition c rate (acquires permits now) r v = acquire-Partition c rate now permits r v
  perform-Partition c rate (asks now) r v = ground (arith, refill-counters c rate now r)
  perform-Partition c rate (resets now) r v = refl
  perform-Partition c rate resets_statistics r v = refl

  all-IsValid :
      (c : RateLimiterConfig d)
      → IsRate c
      → (os : List Operation) (r : RateLimiter d) → Level c r.tokens × Partition r
      → Level c (perform_all c os r).tokens × Partition (perform_all c os r)
  unfolding perform_all
  all-IsValid c rate [] r v = v
  all-IsValid c rate (o ∷ os) r v =
      all-IsValid c rate os (perform c o r)
        (perform-Level c rate o r v.0, perform-Partition c rate o r v.1)

  -- For a finite rate, after any operations and whatever the clock shows at each: the tokens of a
  -- new limiter lie between 0 and the burst capacity, and its total is its accepted and its
  -- rejected requests together, modulo 2^64.
  pub perform_all-bounded :
      (c : RateLimiterConfig d) (start : ℕ) (os : List Operation)
      → IsRate c
      → (le (of_ℕ 0) (perform_all c os (create d c start)).tokens ≡ true)
        × (le (perform_all c os (create d c start)).tokens (of_ℕ c.burst_capacity) ≡ true)
        × Partition (perform_all c os (create d c start))
  unfolding create
  perform_all-bounded c start os rate =
      let v = all-IsValid c rate os (create d c start) (full-Level c, refl) in (v.0.0, v.0.1, v.1)
