-- ===== src/Bulkhead/Tests.antt =====
-- Bulkhead.kt: runs of the bulkhead, and instances of its theorems.
use arrow_resilience_kit.Base.{
  ℕ_discrete, get, ℕ, ◌+◌, ◌%◌, ◌≤◌, ◌≡◌, refl, arith, false, none, some, int_range, long_range,
  int_inc, int_dec, int_lt, returned, thrown, [], ◌∷◌,
}
use arrow_resilience_kit.Bulkhead.{
  BulkheadConfig, Bulkhead, permit, create, statistics, can_accept, queue, enter, accepted, execute,
}
use arrow_resilience_kit.Bulkhead.Registry.{
  lookup, create_each, last_of, get_or_create, overlapping_creates,
}
use arrow_resilience_kit.Bulkhead.Interleaving.{
  Reach, created, queues, acquires, is_cancelled, enters,
}
use arrow_resilience_kit.Bulkhead.Bounds.{Reach-Bounded, cancelled_calls_block}

abbrev one : BulkheadConfig
one = record { max_concurrent_calls = 1; max_waiting_calls = 1; max_wait_duration = some 5 }

abbrev no_waiting : BulkheadConfig
no_waiting = record { max_concurrent_calls = 0; max_waiting_calls = 0; max_wait_duration = none }

rejects :
    (execute {E = ℕ} {T = ℕ} 8 9 no_waiting (λ w s. (s, permit)) (λ s. (s, returned 70)) create).1
    ≡ thrown 8
unfolding execute accepted queue can_accept create int_lt
rejects = refl

abbrev queued : Bulkhead ℕ → Bulkhead ℕ
queued s = (queue one s).0

running : Reach one 0 0 0 1 0 0 0 (enter (queued create))
unfolding can_accept create int_lt
running = enters (acquires (queues refl created))

Reach-Bounded_example :
    ((enter (queued create)).active_calls ≡ 1 + 0)
    × (0 + (enter (queued create)).active_calls + 0 ≤ one.max_concurrent_calls)
    × ((enter (queued create)).waiting_calls ≡ (0 + 0 + 0) % int_range)
    × ((statistics one (enter (queued create))).available_capacity
          + (enter (queued create)).active_calls
        ≡ one.max_concurrent_calls)
    × ((k : ℕ) × (k ≤ one.max_concurrent_calls)
        × (((statistics one (enter (queued create))).total_calls + k) % long_range
            ≡ ((statistics one (enter (queued create))).successful_calls
                + (statistics one (enter (queued create))).failed_calls
                + (statistics one (enter (queued create))).rejected_calls
                + 1)
              % long_range))
Reach-Bounded_example =
    Reach-Bounded one (omega arith) 0 0 0 1 0 0 0 (enter (queued create)) running

-- A call waits behind the running one and is cancelled.
one_cancelled : Reach one 0 0 0 1 0 0 1 (queued (enter (queued create)))
unfolding can_accept queue create enter int_lt int_inc int_dec
one_cancelled = is_cancelled (queues refl running)

cancelled_calls_block_example :
    queue one (queued (enter (queued create))) ≡ (queued (enter (queued create)), false)
cancelled_calls_block_example =
    cancelled_calls_block one (omega arith) 0 1 0 0 1 (queued (enter (queued create))) one_cancelled
      (omega arith) (omega arith) (omega arith)

is_new : lookup {B = ℕ} ℕ_discrete 4 ((5, 50) ∷ []) ≡ none
unfolding lookup get ℕ_discrete
is_new = refl

-- Three calls overlap.
overlapping_creates_example :
    let (m', results) =
      create_each {B = ℕ} ℕ_discrete 4
        (70 ∷ 80 ∷ 90 ∷ [])
        (lookup ℕ_discrete 4 ((5, 50) ∷ []))
        ((5, 50) ∷ []) in
    (results ≡ 70 ∷ 80 ∷ 90 ∷ [])
    × (lookup ℕ_discrete 4 m' ≡ some (last_of ℕ_discrete 70 (80 ∷ 90 ∷ [])))
    × (get_or_create ℕ_discrete 4 60 m' ≡ (m', last_of ℕ_discrete 70 (80 ∷ 90 ∷ [])))
    × (lookup ℕ_discrete 5 m' ≡ lookup {B = ℕ} ℕ_discrete 5 ((5, 50) ∷ []))
overlapping_creates_example =
    overlapping_creates ℕ_discrete 4 5 70 60 (80 ∷ 90 ∷ []) ((5, 50) ∷ []) is_new (omega arith)
