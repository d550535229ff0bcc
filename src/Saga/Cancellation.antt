-- ===== src/Saga/Cancellation.antt =====
-- Cancellation in a saga (Saga.kt, lines 91-189): `executeStep` and `compensate` rethrow it, and
-- the `catch` block of `execute` takes it for a failed step.
use mathlib.Core.List.{reverse, reverse_aux}
use arrow_resilience_kit.Base.{
  ℕ, ◌+◌, Option, none, some, List, [], ◌∷◌, ◌++◌, ◌≡◌, ◌≢◌, inl, inr, refl, subst, arith, All,
  Outcome, returned, thrown, Option-cases, Bool-cases,
}
use arrow_resilience_kit.Saga.{
  Exception, cancellation_exception, saga_step_exception, other, SagaConfig, SagaStep, ExecutedStep,
  CompensationError, SagaResult, Attempt, skipped, undone, failed, cancelled, attempt_of,
  to_failure, run_steps, attempt, compensation_error, settle, compensate, conclude, execute,
}
use arrow_resilience_kit.Saga.Executed.{steps_of, Splits, run_steps-Splits}

module _ {E : Type 0} where
  attempt_of-cancelled :
      (o : Outcome (Exception E) (Unit {0})) (d : Exception E)
      → attempt_of o ≡ cancelled d
      → (e : E) × (o ≡ thrown (cancellation_exception e))
  attempt_of-cancelled (returned _) d h = absurd (cc)
  attempt_of-cancelled (thrown (cancellation_exception e)) d h = (e, refl)
  attempt_of-cancelled (thrown (saga_step_exception n e)) d h = absurd (cc)
  attempt_of-cancelled (thrown (other e)) d h = absurd (cc)

  abbrev Returns : {A : Type 0} → Outcome (Exception E) A → Type 0
  Returns {A} o = (a : A) × (o ≡ returned a)

  to_failure-Returns :
      {V : Type 0} (e : Exception E) (o : Outcome (Exception E) (ℕ × List (CompensationError E)))
      → Returns o
      → Returns (to_failure {V = V} e o)
  to_failure-Returns e (returned r) h = (_, refl)
  to_failure-Returns e (thrown d) h = absurd (cc h.1)

module _ {E W V : Type 0} where
  -- The compensation, if there is one, is never cancelled.
  pub record IsUncancelled (s : SagaStep W E V) : Type 0 where
    pub calm :
        (undo : V → W → W × Outcome (Exception E) (Unit {0})) (v : V) (w : W) (e : E)
        → s.compensation ≡ some undo
        → (undo v w).1 ≢ thrown (cancellation_exception e)

  attempt-calm :
      (x : ExecutedStep W E V) (w : W) (d : Exception E)
      → IsUncancelled x.step
      → (attempt x w).1 ≢ cancelled d
  unfolding attempt
  attempt-calm x w d u h = elim (Option-cases x.step.compensation) [
    | inl e ↦ absurd (ground arith)
    | inr (undo, e) ↦
        let (d', p) = attempt_of-cancelled (undo x.result w).1 d (rw (e, attempt) at h) in
        u.calm undo x.result w d' e p
  ]

  settle-Returns :
      (c : SagaConfig) (x : ExecutedStep W E V) (k : ℕ) (errors : List (CompensationError E))
      (rounds : ℕ
        → List (CompensationError E)
        → W
        → W × Outcome (Exception E) (ℕ × List (CompensationError E)))
      (r : W × Attempt E)
      → ((d : Exception E) → r.1 ≢ cancelled d)
      → ((j : ℕ) (es : List (CompensationError E)) (w : W) → Returns (rounds j es w).1)
      → Returns (settle c x k errors rounds r).1
  unfolding settle
  settle-Returns c x k errors rounds (w, skipped) calm later = later k errors w
  settle-Returns c x k errors rounds (w, undone) calm later = later (k + 1) errors w
  settle-Returns c x k errors rounds (w, failed e) calm later =
      elim (Bool-cases c.continue_on_compensation_failure) [
        | inl h ↦ rw h (later k (errors ++ compensation_error x e ∷ []) w)
        | inr h ↦ rw h (_, refl)
      ]
  settle-Returns c x k errors rounds (w, cancelled e) calm later = absurd (calm e refl)

  compensate-Returns :
      (c : SagaConfig) (executed : List (ExecutedStep W E V)) (k : ℕ)
      (errors : List (CompensationError E)) (w : W)
      → All IsUncancelled (steps_of executed)
      → Returns (compensate c executed k errors w).1
  unfolding compensate
  compensate-Returns c [] k errors w us = (_, refl)
  compensate-Returns c (x ∷ executed) k errors w us =
      settle-Returns c x k errors (compensate c executed) (attempt x w)
        (λ d. attempt-calm x w d us.0) (λ j es w'. compensate-Returns c executed j es w' us.1)

  All-reverse_aux :
      (executed acc : List (ExecutedStep W E V))
      → All IsUncancelled (steps_of executed)
      → All IsUncancelled (steps_of acc)
      → All IsUncancelled (steps_of (reverse_aux executed acc))
  All-reverse_aux [] acc us vs = vs
  All-reverse_aux (x ∷ executed) acc us vs = All-reverse_aux executed (x ∷ acc) us.1 (us.0, vs)

  All-prefix :
      (pre post : List (SagaStep W E V)) → All IsUncancelled (pre ++ post) → All IsUncancelled pre
  All-prefix [] post us = tt
  All-prefix (s ∷ pre) post us = (us.0, All-prefix pre post us.1)

  conclude-Returns :
      (c : SagaConfig) (steps : List (SagaStep W E V)) (origin : W)
      (r : W × List (ExecutedStep W E V) × Option (Exception E))
      → All IsUncancelled steps
      → Splits steps origin r
      → Returns (conclude c r).1
  unfolding conclude
  conclude-Returns c steps origin (w, executed, none) us h = (_, refl)
  conclude-Returns c steps origin (w, executed, some e) us (inl h) = absurd (cc h.0)
  conclude-Returns c steps origin (w, executed, some e) us (inr h) =
      to_failure-Returns e (compensate c (reverse executed) 0 [] w).1 (
        compensate-Returns c (reverse executed) 0 [] w (
          All-reverse_aux executed []
            (All-prefix (steps_of executed) (h.0 ∷ h.1) (subst (All IsUncancelled) h.4 us)) tt))

-- Whatever the actions throw, a cancellation included, `execute` returns a result and throws
-- nothing, if no compensation is cancelled.
pub execute_returns :
    {E W V : Type 0} (c : SagaConfig) (steps : List (SagaStep W E V)) (w : W)
    → All IsUncancelled steps
    → (r : SagaResult E V) × ((execute c steps w).1 ≡ returned r)
unfolding execute
execute_returns c steps w us =
    conclude-Returns c steps w (run_steps steps 0 [] w) us
      (run_steps-Splits steps w steps 0 [] w refl refl)
