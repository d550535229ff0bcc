-- ===== src/Saga/Parallel.antt =====
-- Saga.kt, lines 461-500: `ParallelSagaCoordinator`. The sagas run as coroutines on one world: a
-- turn of a saga is one action, one compensation, or the end of its `execute` (lines 91-189), and
-- the turns of the sagas interleave. An action and a compensation are taken to be indivisible. The
-- sagas are different objects: `executedSteps` is a field of each.
pub mod Machine
pub mod Commuting
pub mod Reordering
pub mod Serial
mod Tests
use mathlib.Core.List.{reverse}
use arrow_resilience_kit.Base.{
  ℕ, zero, suc, ◌+◌, Bool, true, false, Option, none, some, List, [], ◌∷◌, ◌++◌, length,
  if◌then◌else◌, count, Outcome, returned, thrown,
}
use mathlib.Core.Option.{map}
use arrow_resilience_kit.Saga.{
  Exception, SagaConfig, SagaStep, ExecutedStep, CompensationError, SagaResult, success, failure,
  Attempt, skipped, undone, failed, cancelled, execute_step, attempt, compensation_error,
  last_result,
}

-- What a turn did to the world.
pub data Answer (E V : Type 0) : Type 0 where
  acted : Outcome (Exception E) V → Answer E V
  compensated : Attempt E → Answer E V
  nothing : Answer E V

-- Where `execute` is: in its loop, with the steps to come, the index and `executedSteps`; in the
-- loop of `compensate`, with the exception, the executed steps to undo, the count and the errors;
-- or at its end.
pub data Progress (W E V : Type 0) : Type 0 where
  running : List (SagaStep W E V) → ℕ → List (ExecutedStep W E V) → Progress W E V
  compensating :
      Exception E → List (ExecutedStep W E V) → ℕ → List (CompensationError E) → Progress W E V
  finished : Outcome (Exception E) (SagaResult E V) → Progress W E V

module _ {W E V : Type 0} where
  -- The action of a step, or its compensation on a result.
  unfoldable pub operate : SagaStep W E V → Option V → W → W × Answer E V
  unfolding execute_step attempt
  operate step none w = let (w', o) = execute_step step w in (w', acted o)
  operate step (some result) w =
      let (w', a) = attempt (record { step = step; result = result; index = 0 }) w in
      (w', compensated a)

  abbrev pub operate_next : Option (SagaStep W E V × Option V) → W → W × Answer E V
  operate_next none w = (w, nothing)
  operate_next (some (step, result)) w = operate step result w

  abbrev pub next_operation : Progress W E V → Option (SagaStep W E V × Option V)
  next_operation (running [] index executed) = none
  next_operation (running (step ∷ steps) index executed) = some (step, none)
  next_operation (compensating error [] count errors) = none
  next_operation (compensating error (x ∷ executed) count errors) = some (x.step, some x.result)
  next_operation (finished o) = none

  -- What a turn does to the world.
  unfoldable pub perform : Progress W E V → W → W × Answer E V
  unfolding operate
  perform p w = operate_next (next_operation p) w

  abbrev pub advanced :
      SagaStep W E V
      → List (SagaStep W E V)
      → ℕ
      → List (ExecutedStep W E V)
      → Outcome (Exception E) V
      → Progress W E V
  advanced step steps index executed (returned v) =
      running steps (index + 1) (executed ++ record { step = step; result = v; index = index } ∷ [])
  advanced step steps index executed (thrown e) = compensating e (reverse executed) 0 []

  abbrev pub settled :
      SagaConfig
      → Exception E
      → ExecutedStep W E V
      → List (ExecutedStep W E V)
      → ℕ
      → List (CompensationError E)
      → Attempt E
      → Progress W E V
  settled c error x executed count errors skipped = compensating error executed count errors
  settled c error x executed count errors undone = compensating error executed (count + 1) errors
  settled c error x executed count errors (cancelled e) = finished (thrown e)
  settled c error x executed count errors (failed e) =
      if c.continue_on_compensation_failure
      then compensating error executed count (errors ++ compensation_error x e ∷ [])
      else finished (returned (failure error count (errors ++ compensation_error x e ∷ [])))

  -- The rest of the turn, after what was done to the world.
  unfoldable pub resume : SagaConfig → Progress W E V → Answer E V → Progress W E V
  unfolding last_result
  resume c (running [] index executed) answer =
      finished (returned (success (last_result executed) (length executed)))
  resume c (running (step ∷ steps) index executed) (acted o) = advanced step steps index executed o
  resume c (running (step ∷ steps) index executed) (compensated a) =
      running (step ∷ steps) index executed
  resume c (running (step ∷ steps) index executed) nothing = running (step ∷ steps) index executed
  resume c (compensating error [] count errors) answer =
      finished (returned (failure error count errors))
  resume c (compensating error (x ∷ executed) count errors) (compensated a) =
      settled c error x executed count errors a
  resume c (compensating error (x ∷ executed) count errors) (acted o) =
      compensating error (x ∷ executed) count errors
  resume c (compensating error (x ∷ executed) count errors) nothing =
      compensating error (x ∷ executed) count errors
  resume c (finished o) answer = finished o

  unfoldable pub turn : SagaConfig → Progress W E V → W → W × Progress W E V
  unfolding perform resume
  turn c p w = let (w', answer) = perform p w in (w', resume c p answer)

  -- A turn of the saga at a position; a position beyond the last has none.
  unfoldable pub turn_at :
      ℕ → W → List (SagaConfig × Progress W E V) → W × List (SagaConfig × Progress W E V)
  unfolding turn
  turn_at i w [] = (w, [])
  turn_at zero w ((c, p) ∷ sagas) = let (w', p') = turn c p w in (w', (c, p') ∷ sagas)
  turn_at (suc i) w (saga ∷ sagas) = let (w', sagas') = turn_at i w sagas in (w', saga ∷ sagas')

  -- The turns in this order.
  unfoldable pub interleave :
      List ℕ → W → List (SagaConfig × Progress W E V) → W × List (SagaConfig × Progress W E V)
  unfolding turn_at
  interleave [] w sagas = (w, sagas)
  interleave (i ∷ turns) w sagas =
      let (w', sagas') = turn_at i w sagas in interleave turns w' sagas'

  -- `async { saga.execute() }` for each saga.
  unfoldable pub start :
      List (SagaConfig × List (SagaStep W E V)) → List (SagaConfig × Progress W E V)
  start [] = []
  start ((c, steps) ∷ sagas) = (c, running steps 0 []) ∷ start sagas

module _ {W E V : Type 0} where
  abbrev pub and_await :
      Progress W E V → Option (List (SagaResult E V)) → Option (List (SagaResult E V))
  and_await (finished (returned r)) (some results) = some (r ∷ results)
  and_await _ _ = none

  -- The results that `await` gives, in the order of the sagas; `none` where one is not at its end
  -- or has thrown.
  unfoldable pub await_all : List (SagaConfig × Progress W E V) → Option (List (SagaResult E V))
  await_all [] = some []
  await_all ((c, p) ∷ sagas) = and_await p (await_all sagas)

  -- `executeAll`, with the turns in this order. Where a saga throws, which only a cancelled
  -- compensation makes it do, the scope cancels the others: that is left out, and there is no
  -- result.
  unfoldable pub execute_all :
      List ℕ → List (SagaConfig × List (SagaStep W E V)) → W → W × Option (List (SagaResult E V))
  unfolding interleave
  execute_all turns sagas w =
      let (w', sagas') = interleave turns w (start sagas) in (w', await_all sagas')

-- `ParallelSagaResult`, without the duration.
pub record ParallelSagaResult (E V : Type 0) : Type 0 where
  pub results : List (SagaResult E V)
  pub total_sagas : ℕ
  pub successful_sagas : ℕ
  pub failed_sagas : ℕ

module _ {E V : Type 0} where
  abbrev pub is_success : SagaResult E V → Bool
  is_success (success v n) = true
  is_success (failure error n errors) = false

  abbrev pub is_failure : SagaResult E V → Bool
  is_failure (success v n) = false
  is_failure (failure error n errors) = true

  -- The counts of `executeWithStats`, on the number of sagas and the results of `executeAll`.
  unfoldable pub with_stats : ℕ → List (SagaResult E V) → ParallelSagaResult E V
  with_stats n results = record {
    results = results;
    total_sagas = n;
    successful_sagas = count is_success results;
    failed_sagas = count is_failure results;
  }

module _ {W E V : Type 0} where
  unfoldable pub execute_with_stats :
      List ℕ → List (SagaConfig × List (SagaStep W E V)) → W → W × Option (ParallelSagaResult E V)
  unfolding execute_all with_stats
  execute_with_stats turns sagas w =
      let (w', results) = execute_all turns sagas w in (w', map (with_stats (length sagas)) results)
