-- ===== src/Stm/Tests.antt =====
-- stm/StmHelpers.kt and stm/StmExtensions.kt: transactions on the shared objects, and instances of
-- the theorems on them.
use arrow_resilience_kit.Base.{
  ◌-◌, ◌≤◌, ◌≡◌, refl, true, false, List, [], ◌∷◌, arith, ltb, ℕ_discrete, int_lt, int_dec, int_inc,
}
use arrow_resilience_kit.Stm.{
  create_gauge, set_gauge, decrement, transition_if, compare_and_set, StmSemaphore,
  create_semaphore, acquire, release, create_window, try_acquire, current_count, reset,
}
use arrow_resilience_kit.Stm.Permits.{Reach, created, acquires, releases, Reach-Held}
use arrow_resilience_kit.Stm.Window.{
  Call, acquires as acquires_at, counts, resets, allowed, counted, done, run_window, call_window,
  run_limiter, call_limiter, run_window-eq-run_limiter,
}
use arrow_resilience_kit.SlidingWindow.{SlidingWindowConfig, create}
use arrow_resilience_kit.SlidingWindow

wraps : decrement 0 ≡ 18446744073709551615
unfolding decrement
wraps = refl

tracks : set_gauge ltb 2 (set_gauge ltb 9 (create_gauge 5)) ≡ record { value = 2; min = 2; max = 9 }
unfolding set_gauge create_gauge
tracks = refl

stays : transition_if ℕ_discrete 1 2 3 ≡ (3, false)
unfolding transition_if ℕ_discrete
stays = refl

swaps : compare_and_set ℕ_discrete 3 4 3 ≡ (4, true)
unfolding compare_and_set ℕ_discrete
swaps = refl

abbrev semaphore : StmSemaphore
semaphore = (acquire (release (acquire (create_semaphore 1)).0)).0

-- One client gets the permit and releases it, and another gets it.
reached : Reach 1 1 semaphore
unfolding create_semaphore acquire release int_lt int_dec int_inc
reached = acquires refl (releases (acquires refl created))

Reach-Held_example : (1 ≤ 1) × (semaphore.permits ≡ 1 - 1) × ((acquire semaphore).1 ≡ ltb 1 1)
Reach-Held_example = Reach-Held 1 1 semaphore (omega arith) reached

-- A limiter of 9 ms, and one of 10 ms.
abbrev config : SlidingWindowConfig
config = record { max_requests = 2; window_duration = 9000000 }

abbrev as_long : SlidingWindowConfig
as_long = record { max_requests = 2; window_duration = 10000000 }

abbrev calls : List Call
calls =
    acquires_at 5
    ∷ acquires_at 6
    ∷ acquires_at 14
    ∷ acquires_at 15
    ∷ counts 16
    ∷ resets
    ∷ counts 16
    ∷ []

answers :
    run_window 2 calls (create_window 10)
    ≡ allowed true ∷ allowed true ∷ allowed false ∷ allowed true ∷ counted 1 ∷ done ∷ counted 0 ∷ []
unfolding run_window call_window create_window try_acquire current_count reset
answers = refl

-- The request at 15 ms is refused: the one at 5 ms is not older than 10 ms.
differs :
    run_limiter as_long calls create
    ≡ allowed true
      ∷ allowed true
      ∷ allowed false
      ∷ allowed false
      ∷ counted 1
      ∷ done
      ∷ counted 0
      ∷ []
unfolding run_limiter call_limiter create SlidingWindow.try_acquire SlidingWindow.current_requests
    SlidingWindow.reset SlidingWindow.do_cleanup_old_requests
differs = refl

run_window-eq-run_limiter_example :
    run_window config.max_requests calls (create_window 10) ≡ run_limiter config calls create
run_window-eq-run_limiter_example =
    run_window-eq-run_limiter config 10 calls (omega arith) (omega arith)
