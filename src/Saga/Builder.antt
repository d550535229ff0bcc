-- ===== src/Saga/Builder.antt =====
-- Saga.kt, lines 214-347: `SagaBuilder`, and the functions that build a saga and execute it. The
-- builder is a value: a call on it gives the next one. The file hands its mutable list of steps to
-- the saga, so a step that is added after `build` is one of the saga that is built already; here
-- the builder is not used after `build`.
pub mod Atomic
mod Tests
use Prim.Native.String.{String}
use mathlib.Core.Option.{map}
use arrow_resilience_kit.Base.{ℕ, true, Option, none, some, List, [], ◌∷◌, ◌++◌, Outcome}
use arrow_resilience_kit.Saga.{Exception, SagaConfig, SagaStep, SagaResult, create, execute}

pub record SagaBuilder (W E V : Type 0) : Type 0 where
  pub steps : List (SagaStep W E V)
  pub config : SagaConfig

abbrev pub Action : Type 0 → Type 0 → Type 0 → Type 0
Action W E V = W → W × Outcome (Exception E) V

abbrev pub Compensation : Type 0 → Type 0 → Type 0 → Type 0
Compensation W E V = Option (V → W → W × Outcome (Exception E) (Unit {0}))

abbrev pub builder : {W E V : Type 0} → SagaBuilder W E V
builder = record {
  steps = [];
  config = record { continue_on_compensation_failure = true; compensation_timeout = none };
}

module _ {W E V : Type 0} where
  unfoldable pub step :
      String → Action W E V → Compensation W E V → SagaBuilder W E V → SagaBuilder W E V
  step name action compensation b = record b {
    steps = b.steps ++ record { name = name; action = action; compensation = compensation } ∷ [];
  }

  unfoldable pub configure : (SagaConfig → SagaConfig) → SagaBuilder W E V → SagaBuilder W E V
  configure f b = record b { config = f b.config }

  -- The saga is its configuration and its steps; `none` is the exception of `create`.
  unfoldable pub build : SagaBuilder W E V → Option (SagaConfig × List (SagaStep W E V))
  unfolding create
  build b = map (λ steps. (b.config, steps)) (create b.steps)

  unfoldable pub saga :
      (SagaBuilder W E V → SagaBuilder W E V) → Option (SagaConfig × List (SagaStep W E V))
  unfolding build
  saga configure = build (configure builder)

  unfoldable pub execute_saga :
      (SagaBuilder W E V → SagaBuilder W E V)
      → W
      → Option (W × Outcome (Exception E) (SagaResult E V))
  unfolding saga execute
  execute_saga configure w = map (λ (c, steps). execute c steps w) (saga configure)

-- `withTimeout` of the coroutine library and `retryWithExponentialBackoff`, which runs a Schedule
-- of the Arrow library, wrap an action.
module _ {W E V : Type 0} (with_timeout : ℕ → Action W E V → Action W E V) where
  unfoldable pub step_with_timeout :
      String → ℕ → Action W E V → Compensation W E V → SagaBuilder W E V → SagaBuilder W E V
  unfolding step
  step_with_timeout name timeout action = step name (with_timeout timeout action)

module _ {W E V : Type 0} (retry_with_exponential_backoff : ℕ → Action W E V → Action W E V) where
  unfoldable pub step_with_retry :
      String → ℕ → Action W E V → Compensation W E V → SagaBuilder W E V → SagaBuilder W E V
  unfolding step
  step_with_retry name retries action = step name (retry_with_exponential_backoff retries action)
