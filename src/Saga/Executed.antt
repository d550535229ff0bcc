-- ===== src/Saga/Executed.antt =====
-- Which steps of a saga (Saga.kt, lines 91-125) the loop of `execute` runs, and from which world.
use Prim.Native.String.{String}
use mathlib.Core.List.{append_assoc, append-nil, map-append}
use arrow_resilience_kit.Base.{
  ℕ, ◌+◌, Option, none, some, List, [], ◌∷◌, ◌++◌, map, ◌≡◌, ◌⊎◌, inl, inr, refl, sym, ap, ◌∙◌,
  subst, Outcome, returned, thrown,
}
use arrow_resilience_kit.Saga.{
  Exception, cancellation_exception, saga_step_exception, other, SagaStep, ExecutedStep, rethrow,
  execute_step, advance, run_steps,
}

rethrow-returned :
    {E V : Type 0} (name : String) (o : Outcome (Exception E) V) (v : V)
    → rethrow name o ≡ returned v
    → o ≡ returned v
unfolding rethrow
rethrow-returned name (returned u) v h = h
rethrow-returned name (thrown (cancellation_exception e)) v h = absurd (cc h)
rethrow-returned name (thrown (saga_step_exception n e)) v h = absurd (cc h)
rethrow-returned name (thrown (other e)) v h = absurd (cc h)

module _ {E W V : Type 0} where
  abbrev pub steps_of : List (ExecutedStep W E V) → List (SagaStep W E V)
  steps_of = map (λ x. x.step)

  -- The actions of the steps return, one after the other, and lead from one world to the other.
  abbrev pub Returned : List (SagaStep W E V) → W → W → Type 0
  Returned [] w w' = w ≡ w'
  Returned (s ∷ steps) w w' =
      (v : V) × ((s.action w).1 ≡ returned v) × Returned steps (s.action w).0 w'

  Returned-last :
      (steps : List (SagaStep W E V)) (s : SagaStep W E V) (origin w w' : W) (v : V)
      → Returned steps origin w
      → (s.action w).1 ≡ returned v
      → (s.action w).0 ≡ w'
      → Returned (steps ++ s ∷ []) origin w'
  Returned-last [] s origin w w' v r h k =
      (v, ap (λ x. (s.action x).1) r ∙ h, ap (λ x. (s.action x).0) r ∙ k)
  Returned-last (t ∷ steps) s origin w w' v (u, q, r) h k =
      (u, q, Returned-last steps s (t.action origin).0 w w' v r h k)

  -- The steps that were executed come first, in order, and returned; if one failed, it is the next
  -- one, on the world that they led to.
  abbrev pub Splits :
      List (SagaStep W E V) → W → W × List (ExecutedStep W E V) × Option (Exception E) → Type 0
  Splits steps origin (w, executed, o) =
      ((o ≡ none) × (steps ≡ steps_of executed) × Returned (steps_of executed) origin w)
      ⊎ ((s : SagaStep W E V) × (post : List (SagaStep W E V)) × (e : Exception E) × (o ≡ some e)
          × (steps ≡ steps_of executed ++ s ∷ post)
          × (w' : W) × Returned (steps_of executed) origin w'
          × ((execute_step s w').1 ≡ thrown e))

  advance-Splits :
      (all : List (SagaStep W E V)) (origin : W) (s : SagaStep W E V)
      (steps : List (SagaStep W E V)) (i : ℕ) (executed : List (ExecutedStep W E V))
      (rounds : ℕ
        → List (ExecutedStep W E V)
        → W
        → W × List (ExecutedStep W E V) × Option (Exception E))
      (w : W) (r : W × Outcome (Exception E) V)
      → execute_step s w ≡ r
      → ((j : ℕ) (done : List (ExecutedStep W E V)) (w : W)
          → all ≡ steps_of done ++ steps
          → Returned (steps_of done) origin w
          → Splits all origin (rounds j done w))
      → all ≡ steps_of executed ++ s ∷ steps
      → Returned (steps_of executed) origin w
      → Splits all origin (advance s i executed rounds r)
  unfolding advance execute_step
  advance-Splits all origin s steps i executed rounds w (w', returned v) e later h k =
      let added =
        map-append (λ (x : ExecutedStep W E V). x.step) executed
          (record { step = s; result = v; index = i } ∷ []) in
      later (i + 1) _ w'
        (h
          ∙ sym (append_assoc (steps_of executed) (s ∷ []) steps)
          ∙ ap (λ pre. pre ++ steps) (sym added))
        (subst (λ done. Returned done origin w') (sym added)
          (Returned-last (steps_of executed) s origin w w' v k
            (rethrow-returned s.name (s.action w).1 v (ap (λ r. r.1) e)) (ap (λ r. r.0) e)))
  advance-Splits all origin s steps i executed rounds w (w', thrown d) e later h k =
      inr (s, steps, d, refl, h, w, k, ap (λ r. r.1) e)

  pub run_steps-Splits :
      (all : List (SagaStep W E V)) (origin : W) (steps : List (SagaStep W E V)) (i : ℕ)
      (executed : List (ExecutedStep W E V)) (w : W)
      → all ≡ steps_of executed ++ steps
      → Returned (steps_of executed) origin w
      → Splits all origin (run_steps steps i executed w)
  unfolding run_steps
  run_steps-Splits all origin [] i executed w h k =
      inl (refl, h ∙ append-nil (steps_of executed), k)
  run_steps-Splits all origin (s ∷ steps) i executed w h k =
      advance-Splits all origin s steps i executed (run_steps steps) w (execute_step s w) refl
        (λ j done w' h' k'. run_steps-Splits all origin steps j done w' h' k') h k
