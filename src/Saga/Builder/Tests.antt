-- ===== src/Saga/Builder/Tests.antt =====
-- Saga.kt, lines 214-347: sagas of calls on a builder, with a concrete function that retries.
use arrow_resilience_kit.Base.{
  ℕ, zero, suc, ◌+◌, ◌≡◌, refl, sym, ap, subst, some, List, [], ◌∷◌, arith, Outcome, returned,
  thrown,
}
use arrow_resilience_kit.Saga.{
  Exception, saga_step_exception, other, SagaStep, failure, execute, run_steps, execute_step,
  attempt, compensate, create,
}
use arrow_resilience_kit.Saga.Rollback.{IsReversible}
use arrow_resilience_kit.Saga.Builder.{Action, step, build, saga, execute_saga, step_with_retry}
use arrow_resilience_kit.Saga.Builder.Atomic.{
  Attempts, last, again, BuilderCall, step_call, step_with_retry_call, steps_added, call_all,
  AtomicRun, execute_saga_atomic,
}

abbrev Post : Type 0
Post = Action ℕ ℕ ℕ

after_attempt :
    ℕ × Outcome (Exception ℕ) ℕ → (ℕ → ℕ × Outcome (Exception ℕ) ℕ) → ℕ × Outcome (Exception ℕ) ℕ
after_attempt (w, returned v) more = (w, returned v)
after_attempt (w, thrown e) more = more w

retry : ℕ → Post → Post
unfolding after_attempt
retry zero action w = action w
retry (suc n) action w = after_attempt (action w) (retry n action)

after_attempt-Attempts :
    (n : ℕ) (action : Post) (w : ℕ) (r : ℕ × Outcome (Exception ℕ) ℕ)
    → action w ≡ r
    → ((w' : ℕ) → Attempts action w' (retry n action w'))
    → Attempts action w (after_attempt r (retry n action))
unfolding after_attempt
after_attempt-Attempts n action w (w', returned v) h k = subst (Attempts action w) h (last w)
after_attempt-Attempts n action w (w', thrown e) h k =
    again w e (retry n action w') (ap (λ r. r.1) h)
      (subst (λ x. Attempts action x (retry n action w')) (sym (ap (λ r. r.0) h)) (k w'))

retry-Attempts : (n : ℕ) (action : Post) (w : ℕ) → Attempts action w (retry n action w)
unfolding retry
retry-Attempts zero action w = last w
retry-Attempts (suc n) action w =
    after_attempt-Attempts n action w (action w) refl (retry-Attempts n action)

-- A stock, of which a step takes one item.
abbrev take_one : SagaStep ℕ ℕ ℕ
take_one = record {
  name = "take";
  action = λ w. elim w [ zero ↦ (0, thrown (other 4)) | suc n ↦ (n, returned n) ];
  compensation = some (λ v w. (w + 1, returned tt));
}

take_one-IsReversible : IsReversible take_one
take_one-IsReversible = record {
  undo = λ v w. (w + 1, returned tt);
  has_undo = refl;
  undoes = undoes;
  clean = clean;
}
  where
    undoes :
        (w v : ℕ)
        → (take_one.action w).1 ≡ returned v
        → ◌≡◌ {A = ℕ × Outcome (Exception ℕ) (Unit {0})}
            ((take_one.action w).0 + 1, returned tt)
            (w, returned tt)
    undoes zero v h = absurd (cc h)
    undoes (suc n) v h = ground arith

    clean : (w : ℕ) (e : Exception ℕ) → (take_one.action w).1 ≡ thrown e → (take_one.action w).0 ≡ w
    clean zero e h = refl
    clean (suc n) e h = absurd (cc h)

abbrev calls : List (BuilderCall ℕ ℕ ℕ)
calls = step_call take_one ∷ step_with_retry_call 2 take_one ∷ []

built :
    execute_saga (call_all retry calls) 1
    ≡ some (1, returned (failure (saga_step_exception "take" (other 4)) 1 []))
unfolding execute_saga saga build create call_all step step_with_retry retry execute run_steps
    execute_step attempt compensate
built = refl

execute_saga_atomic_example :
    AtomicRun (steps_added calls) 1 (execute_saga (call_all retry calls) 1)
execute_saga_atomic_example =
    execute_saga_atomic retry retry-Attempts calls 1
      (take_one-IsReversible, (take_one-IsReversible, tt))
