-- ===== src/Saga/Rollback.antt =====
-- The point of Saga.kt: a saga whose compensations undo their actions takes place as a whole, or
-- not at all.
use mathlib.Core.List.{reverse, reverse-append}
use arrow_resilience_kit.Base.{
  ℕ, ◌+◌, Option, none, some, List, [], ◌∷◌, ◌≡◌, ◌⊎◌, inl, inr, refl, sym, ap, ◌∙◌, subst, arith,
  length, All, Outcome, returned, thrown,
}
use arrow_resilience_kit.Saga.{
  Exception, cancellation_exception, saga_step_exception, other, SagaConfig, SagaStep, ExecutedStep,
  CompensationError, success, failure, undone, rethrow, execute_step, run_steps, attempt, settle,
  compensate, last_result, to_failure, conclude, execute,
}

module _ {E W V : Type 0} where
  -- The compensation is there, undoes the action and does not fail, and an action that throws
  -- changes nothing.
  pub record IsReversible (s : SagaStep W E V) : Type 0 where
    pub undo : V → W → W × Outcome (Exception E) (Unit {0})
    pub has_undo : s.compensation ≡ some undo
    pub undoes :
        (w : W) (v : V) → (s.action w).1 ≡ returned v → undo v (s.action w).0 ≡ (w, returned tt)
    pub clean : (w : W) (e : Exception E) → (s.action w).1 ≡ thrown e → (s.action w).0 ≡ w

  -- The compensations of the executed steps, last first, lead from `w` back to `origin`.
  abbrev Unwinds : W → List (ExecutedStep W E V) → W → Type 0
  Unwinds origin [] w = w ≡ origin
  Unwinds origin (x ∷ executed) w =
      (w' : W) × (attempt x w ≡ (w', undone)) × Unwinds origin executed w'

  compensate-Unwinds :
      (c : SagaConfig) (origin : W) (executed : List (ExecutedStep W E V)) (n : ℕ)
      (errors : List (CompensationError E)) (w : W)
      → Unwinds origin executed w
      → compensate c executed n errors w ≡ (origin, returned (n + length executed, errors))
  unfolding compensate
  compensate-Unwinds c origin [] n errors w u = ground arith
  compensate-Unwinds c origin (x ∷ executed) n errors w u =
      ap (settle c x n errors (compensate c executed)) u.1
      ∙ compensate-Unwinds c origin executed (n + 1) errors u.0 u.2
      ∙ ap (λ (m : ℕ). (origin, returned (m, errors))) (omega arith)

  -- How a step of `run_steps` ends, with the world after it.
  execute_step-cases :
      (s : SagaStep W E V) (w : W)
      → ((v : V) × (execute_step s w ≡ ((s.action w).0, returned v))
          × ((s.action w).1 ≡ returned v))
        ⊎ ((e : Exception E) × (d : Exception E) × (execute_step s w ≡ ((s.action w).0, thrown d))
            × ((s.action w).1 ≡ thrown e))
  unfolding execute_step
  execute_step-cases s w = go (s.action w).1 refl
    where
      go :
          (o : Outcome (Exception E) V)
          → (s.action w).1 ≡ o
          → ((v : V) × (execute_step s w ≡ ((s.action w).0, returned v))
              × ((s.action w).1 ≡ returned v))
            ⊎ ((e : Exception E) × (d : Exception E) × (execute_step s w
                  ≡ ((s.action w).0, thrown d))
                × ((s.action w).1 ≡ thrown e))
      go (returned v) h = inl (v, ap (λ o. ((s.action w).0, rethrow s.name o)) h, h)
      go (thrown (cancellation_exception e)) h =
          inr (_, _, ap (λ o. ((s.action w).0, rethrow s.name o)) h, h)
      go (thrown (saga_step_exception m e)) h =
          inr (_, _, ap (λ o. ((s.action w).0, rethrow s.name o)) h, h)
      go (thrown (other e)) h = inr (_, _, ap (λ o. ((s.action w).0, rethrow s.name o)) h, h)

  attempt_back :
      (s : SagaStep W E V)
      → IsReversible s
      → (i : ℕ) (w : W) (v : V) → (s.action w).1 ≡ returned v
      → attempt (record { step = s; result = v; index = i }) (s.action w).0 ≡ (w, undone)
  unfolding attempt
  attempt_back s r i w v h = rw (r.has_undo, r.undoes w v h) refl

  run_steps-Unwinds :
      (origin : W) (steps : List (SagaStep W E V)) (i : ℕ) (executed : List (ExecutedStep W E V))
      (w : W)
      → All IsReversible steps
      → Unwinds origin (reverse executed) w
      → let (w', executed', o) = run_steps steps i executed w in
        (o ≡ none) ⊎ ((e : Exception E) × (o ≡ some e) × Unwinds origin (reverse executed') w')
  unfolding run_steps
  run_steps-Unwinds origin [] i executed w rs u = inl refl
  run_steps-Unwinds origin (s ∷ steps) i executed w rs u = elim (execute_step-cases s w) [
    | inl (v, ran, h) ↦ rw ran (
        run_steps-Unwinds origin steps (i + 1) _ (s.action w).0 rs.1 (
          rw (reverse-append executed (record { step = s; result = v; index = i } ∷ []))
            (w, attempt_back s rs.0 i w v h, u)))
    | inr (e, d, failed_step, h) ↦
        rw failed_step
          (inr (d, refl, subst (Unwinds origin (reverse executed)) (sym (rs.0.clean w e h)) u))
  ]

module _ {E W V : Type 0} where
  conclude-atomic :
      (c : SagaConfig) (origin : W) (r : W × List (ExecutedStep W E V) × Option (Exception E))
      → (r.2 ≡ none) ⊎ ((e : Exception E) × (r.2 ≡ some e) × Unwinds origin (reverse r.1) r.0)
      → ((v : Option V) × (n : ℕ) × ((conclude c r).1 ≡ returned (success v n)))
        ⊎ ((e : Exception E) × (n : ℕ) × (conclude c r ≡ (origin, returned (failure e n []))))
  unfolding conclude
  conclude-atomic c origin (w, executed, none) h = inl (last_result executed, length executed, refl)
  conclude-atomic c origin (w, executed, some e) (inl h) = cc
  conclude-atomic c origin (w, executed, some e) (inr (e', h, u)) = inr (
    e,
    0 + length (reverse executed),
    ap
        (λ (p : W × Outcome (Exception E) (ℕ × List (CompensationError E))).
          (p.0, to_failure {V = V} e p.1))
        (compensate-Unwinds c origin (reverse executed) 0 [] w u),
  )

-- If every step has a compensation that undoes its action without failing, and an action that
-- throws changes nothing, then a saga succeeds, or it leaves the world exactly as it was and
-- reports a failure with no compensation error.
pub execute_atomic :
    {E W V : Type 0} (c : SagaConfig) (steps : List (SagaStep W E V)) (w : W)
    → All IsReversible steps
    → ((v : Option V) × (n : ℕ) × ((execute c steps w).1 ≡ returned (success v n)))
      ⊎ ((e : Exception E) × (n : ℕ) × (execute c steps w ≡ (w, returned (failure e n []))))
unfolding execute
execute_atomic c steps w rs =
    conclude-atomic c w (run_steps steps 0 [] w) (run_steps-Unwinds w steps 0 [] w rs refl)
