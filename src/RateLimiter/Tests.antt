-- ===== src/RateLimiter/Tests.antt =====
-- The token bucket of RateLimiter.kt on concrete calls, over whole numbers of tokens, and its
-- theorems at inputs that meet their hypotheses.
use arrow_resilience_kit.Base.{
  ℕ, true, none, some, [], ◌∷◌, ◌≡◌, refl, arith, leb, Outcome, returned, thrown,
}
use arrow_resilience_kit.RateLimiter.Arithmetic.{whole}
use arrow_resilience_kit.RateLimiter.{
  RateLimiterConfig, RateLimiter, create_config, create, do_refill_tokens, try_acquire,
  tokens_to_add, calculate_wait_time, wait_for_tokens, Exception, illegal_argument_exception,
  execute,
}
use arrow_resilience_kit.RateLimiter.Bounds.{
  acquires, asks, resets_statistics, perform_all, Partition, perform_all-bounded,
}
use arrow_resilience_kit.RateLimiter.Starvation.{execute_starves}

abbrev config : RateLimiterConfig whole
config = record { permits_per_second = 2000; burst_capacity = 5 }

create_config_zero : create_config whole 0 5 ≡ none
unfolding create_config
create_config_zero = refl

-- One token is left at time 0.
abbrev low : RateLimiter whole
low = record {
  tokens = 1;
  last_refill_time = 0;
  total_requests = 1;
  accepted_requests = 1;
  rejected_requests = 0;
}

abbrev block : RateLimiter whole → RateLimiter whole × Outcome (Exception ℕ) ℕ
block r = (r, returned 3)

-- At 2000 permits per second, the wait for one permit is 0 ms.
no_wait : calculate_wait_time whole config 1 ≡ 0
unfolding calculate_wait_time
no_wait = refl

refills : (do_refill_tokens whole config 2000000 low).tokens ≡ 5
unfolding do_refill_tokens tokens_to_add
refills = refl

execute_runs :
    (execute whole config 3 (900000 ∷ 1000000 ∷ 2000000 ∷ []) block low).1 ≡ some (returned 3)
unfolding execute wait_for_tokens try_acquire do_refill_tokens tokens_to_add
execute_runs = refl

execute_too_many :
    (execute whole config 6 [] block low).1 ≡ some (thrown illegal_argument_exception)
unfolding execute wait_for_tokens
execute_too_many = refl

perform_all-bounded_example :
    (leb 0
        (perform_all whole config
          (acquires 3 5 ∷ asks 2 ∷ resets_statistics ∷ [])
          (create whole config 0)).tokens
      ≡ true)
    × (leb
          (perform_all whole config
            (acquires 3 5 ∷ asks 2 ∷ resets_statistics ∷ [])
            (create whole config 0)).tokens
          5
        ≡ true)
    × Partition whole (
        perform_all whole config
          (acquires 3 5 ∷ asks 2 ∷ resets_statistics ∷ [])
          (create whole config 0))
perform_all-bounded_example =
    perform_all-bounded whole config 0 (acquires 3 5 ∷ asks 2 ∷ resets_statistics ∷ [])
      (record { finite = refl; nonneg = refl })

execute_starves_example :
    ((execute whole config 2 (900000 ∷ 1800000 ∷ 2700000 ∷ []) block low).1 ≡ none)
    × ((execute whole config 2 (900000 ∷ 1800000 ∷ 2700000 ∷ []) block low).0.tokens ≡ 1)
execute_starves_example =
    execute_starves whole config 2 (900000 ∷ 1800000 ∷ 2700000 ∷ []) block low
      (record { finite = refl; nonneg = refl }) (refl, refl) (omega arith) (omega arith) refl
      (omega arith)
