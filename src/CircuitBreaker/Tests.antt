-- ===== src/CircuitBreaker/Tests.antt =====
-- CircuitBreaker.kt on concrete calls, and its theorems at inputs that meet their hypotheses.
use arrow_resilience_kit.Base.{
  false, ◌==◌, ◌&&◌, ℕ, none, some, [], ◌∷◌, ◌≡◌, refl, arith, int_inc, int_ge, count, Outcome,
  returned, thrown,
}
use arrow_resilience_kit.CircuitBreaker.{
  is_closed, is_half_open, CircuitBreakerConfig, create_config, closed, opened, half_open,
  CircuitBreaker, create, reset, trip, pending_since, to_half_open, count_failure, open_circuit,
  count_success, Exception, other, circuit_breaker_open_exception, execute, execute_or_fallback,
}
use arrow_resilience_kit.CircuitBreaker.Interleaving.{
  starting, deciding, in_closed, in_half_open, opening, closing, telling, check_none, check_pending,
  expired, turn, admit_closed, admit_half_open, fail_last, break_circuit, recover_last, tell,
  System, enter, manual_reset, manual_trip, move, Reach, fresh, later, announce-Reach, checked, due,
  telling_turn, tell_turn,
}
use arrow_resilience_kit.CircuitBreaker.Interleaving.Told.{Told, history, Reach-Told}
use arrow_resilience_kit.CircuitBreaker.Interleaving.Progress.{
  IsValid, is_opening, is_closing, none_lost,
}
use arrow_resilience_kit.CircuitBreaker.Race.{reset_locks_open}
use arrow_resilience_kit.CircuitBreaker.Sequential.{
  alone, closed_after, Models, execute-Models, run,
}

abbrev config : CircuitBreakerConfig
config = record {
  failure_threshold = 2;
  reset_timeout = 100;
  half_open_success_threshold = 1;
  half_open_max_calls = 3;
}

abbrev strict : CircuitBreakerConfig
strict = record config { failure_threshold = 1 }

create_config_runs : create_config 2 100 1 3 ≡ some config
unfolding create_config
create_config_runs = refl

create_config_zero : create_config 0 100 1 3 ≡ none
unfolding create_config
create_config_zero = refl

config-IsValid : IsValid config
config-IsValid = omega arith

strict-IsValid : IsValid strict
strict-IsValid = omega arith

abbrev boom : Outcome (Exception ℕ) ℕ
boom = thrown (other 7)

abbrev five : Outcome (Exception ℕ) ℕ
five = returned 5

abbrev rejected : Outcome (Exception ℕ) ℕ
rejected = thrown circuit_breaker_open_exception

-- Two failures open the circuit, a call is rejected, and a trial after the timeout closes it.
abbrev story : CircuitBreaker
story =
    run config ((0, 1, boom) ∷ (2, 3, boom) ∷ (50, 51, returned 1) ∷ (103, 104, returned 2) ∷ [])
      create

story_closes :
    (story.state ≡ closed)
    × (story.failure_count ≡ 0)
    × (story.notified ≡ (closed, opened) ∷ (opened, half_open) ∷ (half_open, closed) ∷ [])
unfolding run execute create count_failure open_circuit to_half_open count_success int_inc int_ge
    arrow_resilience_kit.CircuitBreaker.on_failure
    arrow_resilience_kit.CircuitBreaker.on_success_in_half_open
    arrow_resilience_kit.CircuitBreaker.on_success
story_closes = (refl, refl, refl)

fallback_runs :
    (execute_or_fallback {A = ℕ} config 0 1 (alone five) (alone boom) (trip 0 create)).1 ≡ five
unfolding execute_or_fallback create trip
fallback_runs = refl

-- The first call in flight of a breaker with threshold 1 has counted its failure.
abbrev counted : System
counted = record { breaker = (count_failure strict 5 create).0; calls = opening ∷ [] }

counted-Reach : Reach strict counted
unfolding create pending_since count_failure int_inc int_ge
counted-Reach =
    later
      (later
        (later (later fresh enter) (move [] [] starting _ (some deciding) refl (check_none refl)))
        (move [] [] deciding _ (some in_closed) refl (admit_closed refl)))
      (move [] [] in_closed _ (some opening) refl (fail_last 5 refl))

-- A tripped breaker after the timeout, with its first trial.
abbrev trying : System
trying = record { breaker = to_half_open (trip 0 create); calls = in_half_open ∷ [] }

trying-Reach : Reach strict trying
unfolding create trip pending_since to_half_open arrow_resilience_kit.CircuitBreaker.is_due
trying-Reach =
    later
      (later
        (later
          (later
            (later
              (later (announce-Reach _ (some (closed, opened)) [] (later fresh (manual_trip 0)))
                enter)
              (move [] [] starting _ (some (checked 0)) refl (check_pending 0 refl)))
            (move [] [] (checked 0) _ (some due) refl (expired 0 100 refl)))
          (move [] [] due _ (some (telling_turn (opened, half_open))) refl turn))
        (move [] [] (telling_turn (opened, half_open)) _ (some deciding) refl
          (tell_turn (opened, half_open))))
      (move [] [] deciding _ (some in_half_open) refl (admit_half_open refl))

abbrev tried : System
tried = record {
  breaker = (count_success strict (to_half_open (trip 0 create))).0;
  calls = closing ∷ [];
}

tried-Reach : Reach strict tried
unfolding count_success create trip to_half_open int_inc int_ge
tried-Reach = later trying-Reach (move [] [] in_half_open _ (some closing) refl (recover_last refl))

-- A failing call opens the circuit, `reset` closes it, and the listeners are told of the second
-- transition first.
abbrev overtaken : System
overtaken = record {
  breaker = record create { notified = (opened, closed) ∷ (closed, opened) ∷ [] };
  calls = [];
}

overtaken-Reach : Reach strict overtaken
unfolding create count_failure int_inc int_ge
overtaken-Reach =
    later
      (later
        (later
          (later counted-Reach
            (move [] [] opening _ (some (telling (closed, opened))) refl break_circuit))
          manual_reset)
        (move [] (telling (closed, opened) ∷ []) (telling (opened, closed)) _ none refl
          (tell (opened, closed))))
      (move [] [] (telling (closed, opened)) _ none refl (tell (closed, opened)))

Reach-Told_example : Told overtaken (history overtaken-Reach)
Reach-Told_example = Reach-Told overtaken-Reach

none_lost_example :
    ((is_closed counted.breaker.state
        && int_ge counted.breaker.failure_count strict.failure_threshold
        && count is_opening counted.calls == 0)
      ≡ false)
    × ((is_half_open counted.breaker.state
          && int_ge counted.breaker.success_count strict.half_open_success_threshold
          && count is_closing counted.calls == 0)
        ≡ false)
none_lost_example = none_lost strict counted strict-IsValid counted-Reach

execute-Models_example :
    Models config (execute config 0 1 (alone boom) create).0 (closed_after 1)
    × ((execute config 0 1 (alone boom) create).1 ≡ boom)
unfolding create
execute-Models_example =
    execute-Models config create (closed_after 0) 0 1 boom config-IsValid (refl, refl, omega arith)

reset_locks_open_example :
    Reach strict (record { breaker = open_circuit (reset counted.breaker); calls = [] })
    × (execute strict 1000 1001 (alone five) (open_circuit (reset counted.breaker))
        ≡ (open_circuit (reset counted.breaker), rejected))
reset_locks_open_example =
    reset_locks_open strict counted [] 1000 1001 (alone five) counted-Reach refl
