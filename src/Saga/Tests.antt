-- ===== src/Saga/Tests.antt =====
-- Saga.kt on concrete steps, and its theorems at inputs that meet their hypotheses.
use arrow_resilience_kit.Base.{
  ℕ, zero, suc, ◌+◌, true, false, Option, none, some, List, [], ◌∷◌, ◌≡◌, ◌⊎◌, refl, arith, Outcome,
  returned, thrown,
}
use arrow_resilience_kit.Saga.{
  Exception, cancellation_exception, saga_step_exception, other, SagaConfig, SagaStep, SagaResult,
  success, failure, execute_step, run_steps, attempt, compensate, execute,
}
use arrow_resilience_kit.Saga.Rollback.{IsReversible, execute_atomic}
use arrow_resilience_kit.Saga.Accounts.{Reports, execute-Reports}
use arrow_resilience_kit.Saga.Cancellation.{IsUncancelled, execute_returns}

abbrev config : SagaConfig
config = record { continue_on_compensation_failure = true; compensation_timeout = none }

-- The world is a stock; a step takes one item, and puts it back to undo that.
abbrev give_back : ℕ → ℕ → ℕ × Outcome (Exception ℕ) (Unit {0})
give_back v w = (w + 1, returned tt)

abbrev take_one : SagaStep ℕ ℕ ℕ
take_one = record {
  name = "take";
  action = λ w. elim w [ zero ↦ (0, thrown (other 4)) | suc n ↦ (n, returned n) ];
  compensation = some give_back;
}

-- It writes to the log before it fails, and its compensation fails.
abbrev note : SagaStep ℕ ℕ ℕ
note = record {
  name = "note";
  action = λ w. (w, returned 9);
  compensation = some (λ v w. (w, thrown (other 5)));
}

abbrev stop : SagaStep ℕ ℕ ℕ
stop = record {
  name = "stop";
  action = λ w. (w, thrown (cancellation_exception 6));
  compensation = none;
}

execute_succeeds : execute config (take_one ∷ take_one ∷ []) 5 ≡ (3, returned (success (some 3) 2))
unfolding execute run_steps execute_step
execute_succeeds = refl

execute_fails : execute config (take_one ∷ note ∷ take_one ∷ take_one ∷ []) 2 ≡ (
  2,
  returned (
      failure
        (saga_step_exception "take" (other 4))
        2
        (record { step_name = "note"; step_index = 1; error = other 5 } ∷ [])),
)
unfolding execute run_steps execute_step attempt compensate
execute_fails = refl

execute_stops_early :
    execute
      (record config { continue_on_compensation_failure = false })
      (take_one ∷ note ∷ stop ∷ [])
      2
    ≡ (
      1,
      returned (
          failure
            (cancellation_exception 6)
            0
            (record { step_name = "note"; step_index = 1; error = other 5 } ∷ [])),
    )
unfolding execute run_steps execute_step attempt compensate
execute_stops_early = refl

take_undoes :
    (w v : ℕ)
    → (take_one.action w).1 ≡ returned v
    → give_back v (take_one.action w).0 ≡ (w, returned tt)
take_undoes zero v h = absurd (cc h)
take_undoes (suc n) v h = ground arith

take_clean :
    (w : ℕ) (e : Exception ℕ) → (take_one.action w).1 ≡ thrown e → (take_one.action w).0 ≡ w
take_clean zero e h = refl
take_clean (suc n) e h = absurd (cc h)

take_one-IsReversible : IsReversible take_one
take_one-IsReversible = record {
  undo = give_back;
  has_undo = refl;
  undoes = take_undoes;
  clean = take_clean;
}

abbrev order : List (SagaStep ℕ ℕ ℕ)
order = take_one ∷ take_one ∷ []

execute_atomic_example :
    ((v : Option ℕ) × (n : ℕ) × ((execute config order 1).1 ≡ returned (success v n)))
    ⊎ ((e : Exception ℕ) × (n : ℕ) × (execute config order 1 ≡ (1, returned (failure e n []))))
execute_atomic_example =
    execute_atomic config order 1 (take_one-IsReversible, (take_one-IsReversible, tt))

execute-Reports_example :
    Reports (take_one ∷ note ∷ stop ∷ []) 2 (execute config (take_one ∷ note ∷ stop ∷ []) 2).1
execute-Reports_example = execute-Reports config (take_one ∷ note ∷ stop ∷ []) 2 refl

never :
    (o : Option (ℕ → ℕ → ℕ × Outcome (Exception ℕ) (Unit {0})))
    → o ≡ none
    → IsUncancelled (record { name = "n"; action = stop.action; compensation = o })
never o h = record { calm = λ undo v w e k. absurd (ground arith) }

execute_returns_example :
    (r : SagaResult ℕ ℕ) × ((execute config
        (record { name = "n"; action = stop.action; compensation = none } ∷ [])
        3).1
      ≡ returned r)
execute_returns_example = execute_returns config _ 3 (never none refl, tt)
