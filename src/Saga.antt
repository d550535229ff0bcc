-- ===== src/Saga.antt =====
-- Saga.kt: a saga runs the actions of its steps in order, and on an exception the compensations of
-- the steps that it ran, last first. An action or a compensation changes a world `W`; the results
-- of the steps are of one type `V`. Durations are left out: no decision reads the clock.
pub mod Rollback
pub mod Executed
pub mod Accounts
pub mod Cancellation
pub mod Parallel
pub mod Builder
mod Tests
use Prim.Native.String.{String}
use mathlib.Core.List.{reverse}
use arrow_resilience_kit.Base.{
  ℕ, ◌+◌, Bool, true, false, Option, none, some, List, [], ◌∷◌, ◌++◌, length, if◌then◌else◌,
  Outcome, returned, thrown,
}

-- `CancellationException`, `SagaStepException` with its step and its cause, and all others.
pub data Exception {ℓ} (E : Type ℓ) : Type ℓ where
  cancellation_exception : E → Exception E
  saga_step_exception : String → Exception E → Exception E
  other : E → Exception E

pub record SagaConfig : Type 0 where
  pub continue_on_compensation_failure : Bool
  pub compensation_timeout : Option ℕ

pub record SagaStep {ℓ} (W E V : Type ℓ) : Type ℓ where
  pub name : String
  pub action : W → W × Outcome (Exception E) V
  pub compensation : Option (V → W → W × Outcome (Exception E) (Unit {ℓ}))

pub record ExecutedStep {ℓ} (W E V : Type ℓ) : Type ℓ where
  pub step : SagaStep W E V
  pub result : V
  pub index : ℕ

pub record CompensationError {ℓ} (E : Type ℓ) : Type ℓ where
  pub step_name : String
  pub step_index : ℕ
  pub error : Exception E

pub data SagaResult {ℓ} (E V : Type ℓ) : Type ℓ where
  success : Option V → ℕ → SagaResult E V
  failure : Exception E → ℕ → List (CompensationError E) → SagaResult E V

-- How one round of the loop of `compensate` ends: the step has no compensation, or it has returned,
-- thrown or been cancelled.
pub data Attempt {ℓ} (E : Type ℓ) : Type ℓ where
  skipped : Attempt E
  undone : Attempt E
  failed : Exception E → Attempt E
  cancelled : Exception E → Attempt E

module _ {ℓ} {E V : Type ℓ} where
  -- The `catch` blocks of `executeStep`.
  unfoldable pub rethrow : String → Outcome (Exception E) V → Outcome (Exception E) V
  rethrow name (returned v) = returned v
  rethrow name (thrown (cancellation_exception e)) = thrown (cancellation_exception e)
  rethrow name (thrown (saga_step_exception n e)) =
      thrown (saga_step_exception name (saga_step_exception n e))
  rethrow name (thrown (other e)) = thrown (saga_step_exception name (other e))

  abbrev pub attempt_of : Outcome (Exception E) V → Attempt E
  attempt_of (returned _) = undone
  attempt_of (thrown (cancellation_exception e)) = cancelled (cancellation_exception e)
  attempt_of (thrown (saga_step_exception n e)) = failed (saga_step_exception n e)
  attempt_of (thrown (other e)) = failed (other e)

  abbrev pub to_failure :
      Exception E
      → Outcome (Exception E) (ℕ × List (CompensationError E))
      → Outcome (Exception E) (SagaResult E V)
  to_failure error (returned (count, errors)) = returned (failure error count errors)
  to_failure error (thrown e) = thrown e

module _ {ℓ} {W E V : Type ℓ} where
  -- `Saga.create`: the `require`; `none` is the exception.
  unfoldable pub create : List (SagaStep W E V) → Option (List (SagaStep W E V))
  create [] = none
  create (s ∷ steps) = some (s ∷ steps)

  unfoldable pub execute_step : SagaStep W E V → W → W × Outcome (Exception E) V
  unfolding rethrow
  execute_step step w = ((step.action w).0, rethrow step.name (step.action w).1)

  -- The rest of a round of the loop of `execute`, with the rounds to come: a step that returned is
  -- added to `executedSteps`, and the exception of one that failed ends the loop.
  unfoldable pub advance :
      SagaStep W E V
      → ℕ
      → List (ExecutedStep W E V)
      → (ℕ → List (ExecutedStep W E V) → W → W × List (ExecutedStep W E V) × Option (Exception E))
      → W × Outcome (Exception E) V
      → W × List (ExecutedStep W E V) × Option (Exception E)
  advance step index executed rounds (w, returned v) =
      rounds (index + 1) (executed ++ record { step = step; result = v; index = index } ∷ []) w
  advance step index executed rounds (w, thrown e) = (w, executed, some e)

  -- The loop over the steps from `index` on; `executed` is `executedSteps`.
  unfoldable pub run_steps :
      List (SagaStep W E V)
      → ℕ
      → List (ExecutedStep W E V)
      → W
      → W × List (ExecutedStep W E V) × Option (Exception E)
  unfolding advance
  run_steps [] index executed w = (w, executed, none)
  run_steps (step ∷ steps) index executed w =
      advance step index executed (run_steps steps) (execute_step step w)

  -- One round of the loop of `compensate`: the compensation is invoked on the step's result.
  unfoldable pub attempt : ExecutedStep W E V → W → W × Attempt E
  attempt x w = elim x.step.compensation [
    | none ↦ (w, skipped)
    | some undo ↦ ((undo x.result w).0, attempt_of (undo x.result w).1)
  ]

  abbrev pub compensation_error : ExecutedStep W E V → Exception E → CompensationError E
  compensation_error x e = record { step_name = x.step.name; step_index = x.index; error = e }

  -- The rest of that round, with the rounds to come: `continue`, count, rethrow or record the
  -- error.
  unfoldable pub settle :
      SagaConfig
      → ExecutedStep W E V
      → ℕ
      → List (CompensationError E)
      → (ℕ
          → List (CompensationError E)
          → W
          → W × Outcome (Exception E) (ℕ × List (CompensationError E)))
      → W × Attempt E
      → W × Outcome (Exception E) (ℕ × List (CompensationError E))
  settle c x count errors rounds (w, skipped) = rounds count errors w
  settle c x count errors rounds (w, undone) = rounds (count + 1) errors w
  settle c x count errors rounds (w, cancelled e) = (w, thrown e)
  settle c x count errors rounds (w, failed e) =
      if c.continue_on_compensation_failure
      then rounds count (errors ++ compensation_error x e ∷ []) w
      else (w, returned (count, errors ++ compensation_error x e ∷ []))

  -- The loop of `compensate`, over `executedSteps.asReversed()`.
  unfoldable pub compensate :
      SagaConfig
      → List (ExecutedStep W E V)
      → ℕ
      → List (CompensationError E)
      → W
      → W × Outcome (Exception E) (ℕ × List (CompensationError E))
  unfolding settle
  compensate c [] count errors w = (w, returned (count, errors))
  compensate c (x ∷ executed) count errors w =
      settle c x count errors (compensate c executed) (attempt x w)

  -- `executedSteps.lastOrNull()?.result`
  unfoldable pub last_result : List (ExecutedStep W E V) → Option V
  last_result [] = none
  last_result (x ∷ []) = some x.result
  last_result (x ∷ y ∷ executed) = last_result (y ∷ executed)

  -- What follows the loop: the result, or the `catch` block.
  unfoldable pub conclude :
      SagaConfig
      → W × List (ExecutedStep W E V) × Option (Exception E)
      → W × Outcome (Exception E) (SagaResult E V)
  unfolding last_result
  conclude c (w, executed, none) = (w, returned (success (last_result executed) (length executed)))
  conclude c (w, executed, some error) =
      let (w', o) = compensate c (reverse executed) 0 [] w in (w', to_failure error o)

  unfoldable pub execute :
      SagaConfig → List (SagaStep W E V) → W → W × Outcome (Exception E) (SagaResult E V)
  unfolding conclude
  execute c steps w = conclude c (run_steps steps 0 [] w)
