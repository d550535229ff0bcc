-- ===== src/Saga/Builder/Atomic.antt =====
-- Saga.kt, lines 214-347: sagas that are built from reversible steps, with and without retries.
use mathlib.Core.Option.{map}
use arrow_resilience_kit.Base.{
  ℕ, ◌+◌, ◌≤◌, ◌≡◌, ◌⊎◌, inl, inr, refl, sym, ap, ◌∙◌, Option, none, some, List, [], ◌∷◌, length,
  length-append, All, All-append, arith, Outcome, returned, thrown,
}
use arrow_resilience_kit.Saga.{
  Exception, SagaConfig, SagaStep, SagaResult, success, failure, create, execute,
}
use arrow_resilience_kit.Saga.Rollback.{IsReversible, execute_atomic}
use arrow_resilience_kit.Saga.Builder.{
  SagaBuilder, Action, builder, step, configure, build, saga, execute_saga, step_with_retry,
}

-- How retries of an action can end: with its first call that is not retried, or, after a call that
-- threw, with a cancelled delay. A delay does not change the world.
pub data Attempts {W E V : Type 0} (action : Action W E V)
    : W → W × Outcome (Exception E) V → Type 0 where
  last : (w : W) → Attempts action w (action w)
  stopped :
      (w : W) (e d : Exception E)
      → (action w).1 ≡ thrown e
      → Attempts action w ((action w).0, thrown d)
  again :
      (w : W) (e : Exception E) (r : W × Outcome (Exception E) V)
      → (action w).1 ≡ thrown e
      → Attempts action (action w).0 r
      → Attempts action w r

abbrev run_built :
    {W E V : Type 0} → SagaBuilder W E V → W → Option (W × Outcome (Exception E) (SagaResult E V))
run_built b w = map (λ (c, steps). execute c steps w) (build b)

module _ {W E V : Type 0} (s : SagaStep W E V) (r : IsReversible s) where
  Attempts-undoes :
      (w : W) (result : W × Outcome (Exception E) V) (v : V)
      → Attempts s.action w result
      → result.1 ≡ returned v
      → r.undo v result.0 ≡ (w, returned tt)
  Attempts-undoes _ _ v (last w) h = r.undoes w v h
  Attempts-undoes _ _ v (stopped w e d p) h = absurd (cc h)
  Attempts-undoes _ _ v (again w e result p rest) h =
      Attempts-undoes (s.action w).0 result v rest h ∙ ap (λ w'. (w', returned tt)) (r.clean w e p)

  Attempts-clean :
      (w : W) (result : W × Outcome (Exception E) V) (d : Exception E)
      → Attempts s.action w result
      → result.1 ≡ thrown d
      → result.0 ≡ w
  Attempts-clean _ _ d (last w) h = r.clean w d h
  Attempts-clean _ _ d (stopped w e d' p) h = r.clean w e p
  Attempts-clean _ _ d (again w e result p rest) h =
      Attempts-clean (s.action w).0 result d rest h ∙ r.clean w e p

-- A call on the builder that adds no timeout.
pub data BuilderCall (W E V : Type 0) : Type 0 where
  step_call : SagaStep W E V → BuilderCall W E V
  step_with_retry_call : ℕ → SagaStep W E V → BuilderCall W E V
  configure_call : (SagaConfig → SagaConfig) → BuilderCall W E V

module _ {W E V : Type 0} where
  abbrev pub StepReversible : BuilderCall W E V → Type 0
  StepReversible (step_call s) = IsReversible s
  StepReversible (step_with_retry_call n s) = IsReversible s
  StepReversible (configure_call f) = Unit

  unfoldable pub steps_added : List (BuilderCall W E V) → ℕ
  steps_added [] = 0
  steps_added (step_call s ∷ calls) = steps_added calls + 1
  steps_added (step_with_retry_call n s ∷ calls) = steps_added calls + 1
  steps_added (configure_call f ∷ calls) = steps_added calls

  -- What becomes of a saga of `n` steps: it is not built, or it succeeds, or it leaves the world as
  -- it was.
  abbrev pub AtomicRun : ℕ → W → Option (W × Outcome (Exception E) (SagaResult E V)) → Type 0
  AtomicRun n w run =
      ((n ≡ 0) × (run ≡ none))
      ⊎ ((1 ≤ n)
          × (((w' : W) × (v : Option V) × (k : ℕ) × (run ≡ some (w', returned (success v k))))
              ⊎ ((e : Exception E) × (k : ℕ) × (run ≡ some (w, returned (failure e k []))))))

  executed_atomic :
      (c : SagaConfig) (steps : List (SagaStep W E V)) (n : ℕ) (w : W)
      → length steps ≡ n
      → All IsReversible steps
      → AtomicRun n w (run_built (record { steps = steps; config = c }) w)
  unfolding build create
  executed_atomic c [] n w size r = inl (sym size, refl)
  executed_atomic c (s ∷ steps) n w size r = inr (
    omega (arith, size),
    elim (execute_atomic c (s ∷ steps) w r) [
      | inl (v, k, h) ↦
          inl ((execute c (s ∷ steps) w).0, v, k, ap (λ o. some ((execute c (s ∷ steps) w).0, o)) h)
      | inr (e, k, h) ↦ inr (e, k, ap some h)
    ],
  )

  module _ (retry : ℕ → Action W E V → Action W E V) where
    unfoldable pub call_all : List (BuilderCall W E V) → SagaBuilder W E V → SagaBuilder W E V
    unfolding step step_with_retry configure
    call_all [] b = b
    call_all (step_call s ∷ calls) b = call_all calls (step s.name s.action s.compensation b)
    call_all (step_with_retry_call n s ∷ calls) b =
        call_all calls (step_with_retry retry s.name n s.action s.compensation b)
    call_all (configure_call f ∷ calls) b = call_all calls (configure f b)

    length-call_all :
        (calls : List (BuilderCall W E V)) (b : SagaBuilder W E V)
        → length (call_all calls b).steps ≡ length b.steps + steps_added calls
    unfolding call_all steps_added step step_with_retry configure
    length-call_all [] b = omega arith
    length-call_all (step_call s ∷ calls) b =
        length-call_all calls (step s.name s.action s.compensation b)
        ∙ omega (
          arith,
          length-append b.steps
              (record { name = s.name; action = s.action; compensation = s.compensation } ∷ []),
        )
    length-call_all (step_with_retry_call n s ∷ calls) b =
        length-call_all calls (step_with_retry retry s.name n s.action s.compensation b)
        ∙ omega (
          arith,
          length-append b.steps (
              record { name = s.name; action = retry n s.action; compensation = s.compensation }
              ∷ []),
        )
    length-call_all (configure_call f ∷ calls) b = length-call_all calls (configure f b)

    module _
        (attempts : (n : ℕ) (action : Action W E V) (w : W)
          → Attempts action w (retry n action w)) where
      retried-IsReversible :
          (n : ℕ) (s : SagaStep W E V)
          → IsReversible s
          → IsReversible (record s { action = retry n s.action })
      retried-IsReversible n s r = record {
        undo = r.undo;
        has_undo = r.has_undo;
        undoes = λ w v h. Attempts-undoes s r w (retry n s.action w) v (attempts n s.action w) h;
        clean = λ w e h. Attempts-clean s r w (retry n s.action w) e (attempts n s.action w) h;
      }

      call_all-IsReversible :
          (calls : List (BuilderCall W E V)) (b : SagaBuilder W E V)
          → All StepReversible calls
          → All IsReversible b.steps
          → All IsReversible (call_all calls b).steps
      unfolding call_all step step_with_retry configure
      call_all-IsReversible [] b h k = k
      call_all-IsReversible (step_call s ∷ calls) b h k =
          call_all-IsReversible calls _ h.1 (All-append _ b.steps _ k (h.0, tt))
      call_all-IsReversible (step_with_retry_call n s ∷ calls) b h k =
          call_all-IsReversible calls _ h.1
            (All-append _ b.steps _ k (retried-IsReversible n s h.0, tt))
      call_all-IsReversible (configure_call f ∷ calls) b h k =
          call_all-IsReversible calls (configure f b) h.1 k

    -- Of a saga built by calls of `step`, `stepWithRetry` and `configure`, whose retries end as
    -- retries can, and whose steps have compensations that undo their actions without failing, with
    -- actions that change nothing when they throw: either no call adds a step and `executeSaga`
    -- throws, or some call does, and it succeeds, or leaves the world as it was and reports no
    -- compensation error. So it throws exactly if no step was added.
    pub execute_saga_atomic :
        (attempts : (n : ℕ) (action : Action W E V) (w : W) → Attempts action w (retry n action w))
        (calls : List (BuilderCall W E V)) (w : W)
        → All StepReversible calls
        → AtomicRun (steps_added calls) w (execute_saga (call_all calls) w)
    unfolding execute_saga saga
    execute_saga_atomic attempts calls w h =
        let b = call_all calls builder in
        executed_atomic b.config b.steps (steps_added calls) w
          (length-call_all calls builder ∙ omega arith)
          (call_all-IsReversible attempts calls builder h tt)
