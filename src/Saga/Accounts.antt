-- ===== src/Saga/Accounts.antt =====
-- Which steps a saga (Saga.kt) runs and which it compensates, by the numbers that it reports.
use mathlib.Core.List.{reverse, reverse_aux}
use arrow_resilience_kit.Base.{
  ℕ, suc, ◌+◌, Bool, true, false, Option, none, some, List, [], ◌∷◌, ◌++◌, ◌≡◌, inl, inr, refl, sym,
  ap, ◌∙◌, subst, arith, length, length-append, count, Outcome, returned, thrown, if◌then◌else◌,
  Option-cases,
}
use arrow_resilience_kit.Saga.{
  Exception, cancellation_exception, saga_step_exception, other, SagaConfig, SagaStep, ExecutedStep,
  CompensationError, SagaResult, success, failure, Attempt, skipped, undone, failed, cancelled,
  attempt_of, to_failure, execute_step, run_steps, attempt, compensation_error, settle, compensate,
  conclude, execute,
}
use arrow_resilience_kit.Saga.Executed.{steps_of, Returned, Splits, run_steps-Splits}

module _ {E W V : Type 0} where
  abbrev pub has_compensation : SagaStep W E V → Bool
  has_compensation s = elim s.compensation [ none ↦ false | some _ ↦ true ]

module _ {E : Type 0} where
  -- Of `n` compensations, some before, each has returned, or its error is recorded.
  abbrev Accounted : ℕ → Outcome (Exception E) (ℕ × List (CompensationError E)) → Type 0
  Accounted n (returned (k, errors)) = k + length errors ≡ n
  Accounted n (thrown e) = Unit

  recount :
      (m n : ℕ) (o : Outcome (Exception E) (ℕ × List (CompensationError E)))
      → m ≡ n
      → Accounted m o
      → Accounted n o
  recount m n o e h = subst (λ (k : ℕ). Accounted k o) e h

  -- An attempt is skipped exactly where there is no compensation.
  abbrev weight : Attempt E → ℕ
  weight skipped = 0
  weight undone = 1
  weight (failed e) = 1
  weight (cancelled e) = 1

  weight-attempt_of : {A : Type 0} (o : Outcome (Exception E) A) → weight (attempt_of o) ≡ 1
  weight-attempt_of (returned _) = refl
  weight-attempt_of (thrown (cancellation_exception e)) = refl
  weight-attempt_of (thrown (saga_step_exception n e)) = refl
  weight-attempt_of (thrown (other e)) = refl

module _ {E W V : Type 0} where
  attempt-weight :
      (x : ExecutedStep W E V) (w : W)
      → weight (attempt x w).1 ≡ (if has_compensation x.step then 1 else 0)
  unfolding attempt
  attempt-weight x w = elim (Option-cases x.step.compensation) [
    | inl e ↦ ground arith
    | inr (undo, e) ↦ rw (e, attempt) (weight-attempt_of (undo x.result w).1)
  ]

  settle-Accounted :
      (c : SagaConfig) (x : ExecutedStep W E V) (k n : ℕ) (errors : List (CompensationError E))
      (rounds : ℕ
        → List (CompensationError E)
        → W
        → W × Outcome (Exception E) (ℕ × List (CompensationError E)))
      (r : W × Attempt E)
      → c.continue_on_compensation_failure ≡ true
      → ((j : ℕ) (es : List (CompensationError E)) (w : W)
          → Accounted (j + length es + n) (rounds j es w).1)
      → Accounted (k + length errors + (weight r.1 + n)) (settle c x k errors rounds r).1
  unfolding settle
  settle-Accounted c x k n errors rounds (w, skipped) go_on later =
      recount _ _ (rounds k errors w).1 (omega arith) (later k errors w)
  settle-Accounted c x k n errors rounds (w, undone) go_on later =
      recount _ _ (rounds (k + 1) errors w).1 (omega arith) (later (k + 1) errors w)
  settle-Accounted c x k n errors rounds (w, failed e) go_on later = rw go_on (
      recount _ _ (rounds k (errors ++ compensation_error x e ∷ []) w).1
        (omega (arith, length-append {0} errors (compensation_error x e ∷ [])))
        (later k (errors ++ compensation_error x e ∷ []) w))
  settle-Accounted c x k n errors rounds (w, cancelled e) go_on later = tt

  compensate-Accounted :
      (c : SagaConfig) (executed : List (ExecutedStep W E V)) (k : ℕ)
      (errors : List (CompensationError E)) (w : W)
      → c.continue_on_compensation_failure ≡ true
      → Accounted
          (k + length errors + count has_compensation (steps_of executed))
          (compensate c executed k errors w).1
  unfolding compensate
  compensate-Accounted c [] k errors w go_on = omega arith
  compensate-Accounted c (x ∷ executed) k errors w go_on =
      recount _ _ (settle c x k errors (compensate c executed) (attempt x w)).1
        (ground (arith, attempt-weight x w))
        (settle-Accounted c x k (count has_compensation (steps_of executed)) errors
          (compensate c executed) (attempt x w) go_on
          (λ j es w'. compensate-Accounted c executed j es w' go_on))

  count-reverse_aux :
      (executed acc : List (ExecutedStep W E V))
      → count has_compensation (steps_of (reverse_aux executed acc))
        ≡ count has_compensation (steps_of executed) + count has_compensation (steps_of acc)
  count-reverse_aux [] acc = omega arith
  count-reverse_aux (x ∷ executed) acc = ground (arith, count-reverse_aux executed (x ∷ acc))

  -- What a result says of the steps, on the world `origin`: all of them returned; or a first one
  -- failed with the error, and the ones before it were compensated where they could be.
  abbrev pub Reports : List (SagaStep W E V) → W → Outcome (Exception E) (SagaResult E V) → Type 0
  Reports steps origin (returned (success v n)) =
      (n ≡ length steps) × ((w : W) × Returned steps origin w)
  Reports steps origin (returned (failure e n errors)) =
      (pre : List (SagaStep W E V)) × (s : SagaStep W E V) × (post : List (SagaStep W E V))
      × (w : W) × (steps ≡ pre ++ s ∷ post)
      × Returned pre origin w
      × ((execute_step s w).1 ≡ thrown e)
      × (n + length errors ≡ count has_compensation pre)
  Reports steps origin (thrown e) = Unit

  to_failure-Reports :
      (steps pre post : List (SagaStep W E V)) (s : SagaStep W E V) (e : Exception E) (origin w : W)
      (o : Outcome (Exception E) (ℕ × List (CompensationError E)))
      → steps ≡ pre ++ s ∷ post
      → Returned pre origin w
      → (execute_step s w).1 ≡ thrown e
      → Accounted (count has_compensation pre) o
      → Reports steps origin (to_failure e o)
  to_failure-Reports steps pre post s e origin w (returned (n, errors)) h r t a =
      (pre, s, post, w, h, r, t, a)
  to_failure-Reports steps pre post s e origin w (thrown d) h r t a = tt

  length-steps_of :
      (executed : List (ExecutedStep W E V)) → length (steps_of executed) ≡ length executed
  length-steps_of [] = refl
  length-steps_of (x ∷ executed) = ap suc (length-steps_of executed)

  conclude-Reports :
      (c : SagaConfig) (steps : List (SagaStep W E V)) (origin : W)
      (r : W × List (ExecutedStep W E V) × Option (Exception E))
      → c.continue_on_compensation_failure ≡ true
      → Splits steps origin r
      → Reports steps origin (conclude c r).1
  unfolding conclude
  conclude-Reports c steps origin (w, executed, none) go_on (inl (_, h, k)) = (
    sym (length-steps_of executed) ∙ ap length (sym h),
    (w, subst (λ done. Returned done origin w) (sym h) k),
  )
  conclude-Reports c steps origin (w, executed, none) go_on (inr h) = absurd (cc h.3)
  conclude-Reports c steps origin (w, executed, some e) go_on (inl h) = absurd (cc h.0)
  conclude-Reports c steps origin (w, executed, some e) go_on (inr (s, post, d, q, h, w', k, t)) =
      to_failure-Reports steps (steps_of executed) post s e origin w'
        (compensate c (reverse executed) 0 [] w).1 h k (t ∙ ap thrown_by (sym q))
        (recount _ _ (compensate c (reverse executed) 0 [] w).1
          (omega (arith, count-reverse_aux executed []))
          (compensate-Accounted c (reverse executed) 0 [] w go_on))
    where
      thrown_by : Option (Exception E) → Outcome (Exception E) V
      thrown_by none = thrown e
      thrown_by (some x) = thrown x

-- A saga that succeeds has executed all of its steps, and the action of each returned. With
-- `continueOnCompensationFailure`, one that fails reports the error of the first step that failed,
-- after the actions of all steps before it returned; and of those steps, each that has a
-- compensation is counted once: as compensated, or by a compensation error.
pub execute-Reports :
    {E W V : Type 0} (c : SagaConfig) (steps : List (SagaStep W E V)) (w : W)
    → c.continue_on_compensation_failure ≡ true
    → Reports steps w (execute c steps w).1
unfolding execute
execute-Reports c steps w go_on =
    conclude-Reports c steps w (run_steps steps 0 [] w) go_on
      (run_steps-Splits steps w steps 0 [] w refl refl)
