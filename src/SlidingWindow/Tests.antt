-- ===== src/SlidingWindow/Tests.antt =====
-- The sliding window of RateLimiter.kt on concrete calls, and its theorems at inputs that meet
-- their hypotheses.
use arrow_resilience_kit.Base.{
  ℕ, ◌≤◌, none, List, [], ◌∷◌, ◌≡◌, refl, arith, count, Outcome, returned, thrown,
}
use arrow_resilience_kit.SlidingWindow.{
  SlidingWindowConfig, SlidingWindowRateLimiter, create_config, create, try_acquire,
  current_requests, Exception, rate_limit_exceeded_exception, execute,
}
use arrow_resilience_kit.SlidingWindow.Ideal.{
  Call, acquire, observe, run, ideal, in_window, run-eq-ideal, run_bounded,
}
use arrow_resilience_kit.SlidingWindow.Counters.{
  acquires, observes, resets, perform_all, IsValid, perform_all-IsValid,
}

abbrev config : SlidingWindowConfig
config = record { max_requests = 2; window_duration = 10 }

create_config_zero : create_config 0 10 ≡ none
unfolding create_config
create_config_zero = refl

-- The third request is rejected; the fourth finds the first one out of the window.
abbrev calls : List Call
calls = acquire 0 0 ∷ acquire 3 4 ∷ acquire 5 5 ∷ observe 9 ∷ acquire 11 12 ∷ []

run_logs : (run config calls create []).1 ≡ 0 ∷ 4 ∷ 12 ∷ []
unfolding run try_acquire current_requests create
run_logs = refl

run-eq-ideal_example : (run config calls create []).1 ≡ ideal config calls []
run-eq-ideal_example = run-eq-ideal config calls (omega arith)

run_bounded_example : count (in_window config 12) (run config calls create []).1 ≤ 2
run_bounded_example = run_bounded config calls 12 (omega arith)

perform_all-IsValid_example :
    IsValid config
      (perform_all config (acquires 5 5 ∷ acquires 3 2 ∷ resets ∷ observes 1 ∷ []) create)
perform_all-IsValid_example =
    perform_all-IsValid config (acquires 5 5 ∷ acquires 3 2 ∷ resets ∷ observes 1 ∷ [])

abbrev five : SlidingWindowRateLimiter → SlidingWindowRateLimiter × Outcome (Exception ℕ) ℕ
five w = (w, returned 5)

abbrev exceeded : Outcome (Exception ℕ) ℕ
exceeded = thrown rate_limit_exceeded_exception

execute_rejects :
    (execute config 5 5 five (run config (acquire 0 0 ∷ acquire 3 4 ∷ []) create []).0).1 ≡ exceeded
unfolding execute run try_acquire create
execute_rejects = refl
