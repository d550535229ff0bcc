-- ===== src/Saga/Parallel/Tests.antt =====
-- Saga.kt, lines 461-500: two sagas, each on its own part of the world.
use arrow_resilience_kit.Base.{
  heads, tails, ℕ, ◌+◌, ◌-◌, ◌≡◌, refl, true, none, some, List, [], ◌∷◌, length, arith, returned,
  thrown,
}
use arrow_resilience_kit.Saga.{
  saga_step_exception, other, SagaConfig, SagaStep, SagaResult, success, failure, execute_step,
  attempt, run_steps, compensate, execute,
}
use arrow_resilience_kit.Saga.Parallel.{
  operate, perform, turn, turn_at, interleave, start, await_all, resume, execute_all, with_stats,
  execute_with_stats,
}
use arrow_resilience_kit.Saga.Parallel.Commuting.{Commute, Apart}
use arrow_resilience_kit.Saga.Parallel.Serial.{
  SagasApart, Enough, execute_each, execute_with_stats-eq-execute_each,
}

abbrev config : SagaConfig
config = record { continue_on_compensation_failure = true; compensation_timeout = none }

abbrev Stocks : Type 0
Stocks = ℕ × ℕ

abbrev ship : SagaStep Stocks ℕ ℕ
ship = record {
  name = "ship";
  action = λ w. ((w.0 + 1, w.1), returned w.0);
  compensation = some (λ v w. ((w.0 - 1, w.1), returned tt));
}

abbrev pay : SagaStep Stocks ℕ ℕ
pay = record {
  name = "pay";
  action = λ w. ((w.0, w.1 + 5), returned w.1);
  compensation = some (λ v w. ((w.0, w.1 - 5), returned tt));
}

abbrev refuse : SagaStep Stocks ℕ ℕ
refuse = record { name = "refuse"; action = λ w. (w, thrown (other 4)); compensation = none }

abbrev sagas : List (SagaConfig × List (SagaStep Stocks ℕ ℕ))
sagas = (config, ship ∷ ship ∷ []) ∷ (config, pay ∷ refuse ∷ []) ∷ []

-- The turns alternate.
abbrev order : List ℕ
order = 0 ∷ 1 ∷ 0 ∷ 1 ∷ 0 ∷ 1 ∷ 0 ∷ 1 ∷ 0 ∷ 1 ∷ 0 ∷ 1 ∷ []

abbrev results : List (SagaResult ℕ ℕ)
results = success (some 4) 2 ∷ failure (saga_step_exception "refuse" (other 4)) 1 [] ∷ []

each_lem : execute_each sagas (3, 7) ≡ ((5, 7), some results)
unfolding execute_each execute run_steps execute_step compensate attempt
each_lem = refl

execute_all_lem : execute_all order sagas (3, 7) ≡ ((5, 7), some results)
unfolding execute_all interleave start turn_at turn perform resume operate await_all attempt
    execute_step
execute_all_lem = refl

ship-pay : Apart ship pay
unfolding Apart Commute operate execute_step attempt
ship-pay none none w = (refl, refl, refl)
ship-pay none (some v) w = (refl, refl, refl)
ship-pay (some u) none w = (refl, refl, refl)
ship-pay (some u) (some v) w = (refl, refl, refl)

ship-refuse : Apart ship refuse
unfolding Apart Commute operate execute_step attempt
ship-refuse none none w = (refl, refl, refl)
ship-refuse none (some v) w = (refl, refl, refl)
ship-refuse (some u) none w = (refl, refl, refl)
ship-refuse (some u) (some v) w = (refl, refl, refl)

sagas-SagasApart : SagasApart sagas
unfolding SagasApart
sagas-SagasApart =
    ((((ship-pay, (ship-refuse, tt)), ((ship-pay, (ship-refuse, tt)), tt)), tt), (tt, tt))

order-Enough : Enough order sagas
unfolding Enough heads tails
order-Enough = (omega arith, (omega arith, tt))

execute_with_stats-eq-execute_each_example :
    (execute_all order sagas (3, 7) ≡ ((5, 7), some results))
    × (execute_with_stats order sagas (3, 7) ≡ ((5, 7), some (with_stats (length sagas) results)))
    × (length results ≡ length sagas)
    × ((with_stats (length sagas) results).successful_sagas
          + (with_stats (length sagas) results).failed_sagas
        ≡ length sagas)
execute_with_stats-eq-execute_each_example =
    execute_with_stats-eq-execute_each order sagas (3, 7) (5, 7) results sagas-SagasApart
      order-Enough each_lem
