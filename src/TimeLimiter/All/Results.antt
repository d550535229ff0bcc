-- ===== src/TimeLimiter/All/Results.antt =====
-- TimeLimiter.kt, lines 321-333: the results of `executeAll` and the counters after it, in every
-- interleaving of its calls.
use arrow_resilience_kit.Base.{
  ℕ, zero, suc, ◌+◌, ◌%◌, ◌≤◌, ◌≡◌, refl, ap, ◌∙◌, Bool, true, false, Option, none, some, List, [],
  ◌∷◌, arith, length, count, values, heads, tails, long_range, Outcome, returned,
}
use arrow_resilience_kit.TimeLimiter.{TimeLimiterConfig, TimeLimiter, effective_timeout}
use arrow_resilience_kit.TimeLimiter.All.{
  Phase, waiting, ended, Call, start, and_await, await_all, execute_all,
}
use arrow_resilience_kit.TimeLimiter.All.Order.{moved_times, advance_all, interleave-advance}
use arrow_resilience_kit.TimeLimiter.All.Totals.{
  total_of, interleave-Adds, begun, gave, gave_null, threw, begun-Adds, gave-Adds, gave_null-Adds,
  threw-Adds,
}

-- Blocks of which each gives a value or null within its timeout, or times out, which is null.
unfoldable pub given : {E T : Type 0} → List (ℕ × Option T) → List (ℕ × Outcome E (Option T))
given [] = []
given ((ms, v) ∷ blocks) = (ms, returned v) ∷ given blocks

-- Each call has a turn for each of its two parts.
unfoldable pub Enough : {T : Type 0} → List ℕ → List (ℕ × Option T) → Type 0
Enough order [] = Unit
Enough order (b ∷ blocks) = (2 ≤ heads order) × Enough (tails order) blocks

abbrev pub is_value : {T : Type 0} → Option T → Bool
is_value none = false
is_value (some v) = true

abbrev pub is_null : {T : Type 0} → Option T → Bool
is_null none = true
is_null (some v) = false

module _ {E T : Type 0} where
  abbrev completed : ℕ → Option T → Call E T
  completed ms v = record { ms = ms; outcome = returned v; phase = ended (returned v) }

  all_completed : List (ℕ × Option T) → List (Call E T)
  all_completed [] = []
  all_completed ((ms, v) ∷ blocks) = completed ms v ∷ all_completed blocks

  completed_stays : (n ms : ℕ) (v : Option T) → moved_times n (completed ms v) ≡ completed ms v
  unfolding moved_times
  completed_stays zero ms v = refl
  completed_stays (suc n) ms v = completed_stays n ms v

  completes :
      (n ms : ℕ) (v : Option T)
      → 2 ≤ n
      → moved_times {E = E} n (record { ms = ms; outcome = returned v; phase = waiting })
        ≡ completed ms v
  unfolding moved_times
  completes zero ms v h = absurd (omega (arith, h))
  completes (suc zero) ms v h = absurd (omega (arith, h))
  completes (suc (suc n)) ms v h = completed_stays n ms v

  advance_all-completed :
      (order : List ℕ) (blocks : List (ℕ × Option T))
      → Enough order blocks
      → advance_all {E = E} order (start (given blocks)) ≡ all_completed blocks
  unfolding advance_all start given all_completed Enough
  advance_all-completed order [] h = refl
  advance_all-completed order ((ms, v) ∷ blocks) h =
      λ i. completes (heads order) ms v h.0 i ∷ advance_all-completed (tails order) blocks h.1 i

  total_of-start :
      (f : Phase E T → ℕ) (blocks : List (ℕ × Option T))
      → f waiting ≡ 0
      → total_of f (start (given blocks)) ≡ 0
  unfolding total_of start given
  total_of-start f [] h = refl
  total_of-start f ((ms, v) ∷ blocks) h = omega (arith, h, total_of-start f blocks h)

module _ (E : Type 0) {T : Type 0} where
  await_all-completed :
      (blocks : List (ℕ × Option T))
      → await_all (all_completed {E = E} blocks) ≡ some (values blocks)
  unfolding await_all all_completed
  await_all-completed [] = refl
  await_all-completed ((ms, v) ∷ blocks) =
      ap (and_await {E = E} (ended (returned v))) (await_all-completed blocks)

  total_of-completed :
      (blocks : List (ℕ × Option T))
      → (total_of begun (all_completed {E = E} blocks) ≡ length blocks)
        × (total_of gave (all_completed {E = E} blocks) ≡ count is_value (values blocks))
        × (total_of gave_null (all_completed {E = E} blocks) ≡ count is_null (values blocks))
        × (total_of threw (all_completed {E = E} blocks) ≡ 0)
  unfolding total_of all_completed
  total_of-completed [] = (refl, refl, refl, refl)
  total_of-completed ((ms, some v) ∷ blocks) = omega (arith, total_of-completed blocks)
  total_of-completed ((ms, none) ∷ blocks) = omega (arith, total_of-completed blocks)

module _ {E T : Type 0} where
  -- In an order of turns that gives each call enough of them, where no block throws: `executeAll`
  -- gives the values of the blocks, with null for those that timed out, in their order, and modulo
  -- 2^64 the total calls go up by the number of blocks, the successful calls by that of the values,
  -- the timed out calls by that of the nulls, and the failed calls not.
  pub execute_all-Totals :
      (c : TimeLimiterConfig) (timeout : Option ℕ) (order : List ℕ) (blocks : List (ℕ × Option T))
      (s : TimeLimiter E)
      → Enough order blocks
      → let (s', results) = execute_all c timeout order (given blocks) s in
        (results ≡ some (values blocks))
        × (s'.total_calls % long_range ≡ (s.total_calls + length blocks) % long_range)
        × (s'.successful_calls % long_range
            ≡ (s.successful_calls + count is_value (values blocks)) % long_range)
        × (s'.timed_out_calls % long_range
            ≡ (s.timed_out_calls + count is_null (values blocks)) % long_range)
        × (s'.failed_calls % long_range ≡ s.failed_calls % long_range)
  unfolding execute_all
  execute_all-Totals c timeout order blocks s h =
      let t = effective_timeout c timeout in
      let calls = start (given {E = E} blocks) in
      let there = interleave-advance t order s calls ∙ advance_all-completed order blocks h in
      let sums = total_of-completed E blocks in
      (
        ap await_all there ∙ await_all-completed E blocks,
        omega (
          arith,
          interleave-Adds t begun (λ s. s.total_calls) (begun-Adds t) order s calls,
          total_of-start begun blocks refl,
          ap (total_of begun) there,
          sums,
        ),
        omega (
          arith,
          interleave-Adds t gave (λ s. s.successful_calls) (gave-Adds t) order s calls,
          total_of-start gave blocks refl,
          ap (total_of gave) there,
          sums,
        ),
        omega (
          arith,
          interleave-Adds t gave_null (λ s. s.timed_out_calls) (gave_null-Adds t) order s calls,
          total_of-start gave_null blocks refl,
          ap (total_of gave_null) there,
          sums,
        ),
        omega (
          arith,
          interleave-Adds t threw (λ s. s.failed_calls) (threw-Adds t) order s calls,
          total_of-start threw blocks refl,
          ap (total_of threw) there,
          sums,
        ),
      )
