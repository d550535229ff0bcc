-- ===== src/Saga/Parallel/Commuting.antt =====
-- Saga.kt, lines 461-500: sagas whose operations commute can be run in another order.
use arrow_resilience_kit.Base.{
  ℕ, zero, suc, ◌≡◌, refl, ap, subst, ◌∙◌, Option, none, some, List, [], ◌∷◌, if_elim, All,
  All-append, All-map, Outcome, returned, thrown,
}
use mathlib.Core.List.{reverse_aux}
use arrow_resilience_kit.Saga.{
  Exception, SagaConfig, SagaStep, ExecutedStep, CompensationError, Attempt, skipped, undone,
  failed, cancelled,
}
use arrow_resilience_kit.Saga.Parallel.{
  Answer, acted, compensated, nothing, Progress, running, compensating, finished, operate,
  operate_next, next_operation, perform, advanced, settled, resume, turn,
}
use arrow_resilience_kit.Saga.Parallel.Machine.{turns}

-- In either order the two leave the world the same and give the same answers.
unfoldable pub Commute : {W A B : Type 0} → (W → W × A) → (W → W × B) → Type 0
Commute {W = W} f g =
    (w : W)
    → ((g (f w).0).0 ≡ (f (g w).0).0) × ((f w).1 ≡ (f (g w).0).1) × ((g (f w).0).1 ≡ (g w).1)

All-reverse_aux :
    {A : Type 0} (P : A → Type 0) (xs acc : List A)
    → All P xs
    → All P acc
    → All P (reverse_aux xs acc)
All-reverse_aux P [] acc h k = k
All-reverse_aux P (x ∷ xs) acc h k = All-reverse_aux P xs (x ∷ acc) h.1 (h.0, k)

both : {A B : Type 0} {a a' : A} {b b' : B} → a ≡ a' → b ≡ b' → ◌≡◌ {A = A × B} (a, b) (a', b')
both p q = λ i. (p i, q i)

abbrev step_of :
    {W E V : Type 0} → SagaStep W E V → Option (SagaStep W E V × Option V) → SagaStep W E V
step_of s none = s
step_of s (some (t, u)) = t

module _ {W E V : Type 0} where
  -- The actions and the compensations of the two commute.
  unfoldable pub Apart : SagaStep W E V → SagaStep W E V → Type 0
  Apart s t = (a b : Option V) → Commute (operate s a) (operate t b)

  -- All the steps that a saga may still run or undo.
  unfoldable pub Uses : (SagaStep W E V → Type 0) → Progress W E V → Type 0
  Uses P (running steps index executed) = All P steps × All (λ x. P x.step) executed
  Uses P (compensating error executed count errors) = All (λ x. P x.step) executed
  Uses P (finished o) = Unit

  pub Uses-map :
      {P Q : SagaStep W E V → Type 0}
      → ((s : SagaStep W E V) → P s → Q s)
      → (p : Progress W E V) → Uses P p
      → Uses Q p
  unfolding Uses
  Uses-map f (running steps index executed) h =
      (All-map f steps h.0, All-map (λ x. f x.step) executed h.1)
  Uses-map f (compensating error executed count errors) h = All-map (λ x. f x.step) executed h
  Uses-map f (finished o) h = tt

  advanced-Uses :
      (P : SagaStep W E V → Type 0) (step : SagaStep W E V) (steps : List (SagaStep W E V))
      (index : ℕ) (executed : List (ExecutedStep W E V)) (o : Outcome (Exception E) V)
      → Uses P (running (step ∷ steps) index executed)
      → Uses P (advanced step steps index executed o)
  unfolding Uses
  advanced-Uses P step steps index executed (returned v) h =
      (h.0.1, All-append _ executed _ h.1 (h.0.0, tt))
  advanced-Uses P step steps index executed (thrown e) h =
      All-reverse_aux (λ (x : ExecutedStep W E V). P x.step) executed [] h.1 tt

  settled-Uses :
      (P : SagaStep W E V → Type 0) (c : SagaConfig) (error : Exception E) (x : ExecutedStep W E V)
      (executed : List (ExecutedStep W E V)) (count : ℕ) (errors : List (CompensationError E))
      (a : Attempt E)
      → All (λ y. P y.step) executed
      → Uses P (settled c error x executed count errors a)
  unfolding Uses
  settled-Uses P c error x executed count errors skipped h = h
  settled-Uses P c error x executed count errors undone h = h
  settled-Uses P c error x executed count errors (cancelled e) h = tt
  settled-Uses P c error x executed count errors (failed e) h =
      if_elim (Uses P) c.continue_on_compensation_failure _ _ (λ _. h) (λ _. tt)

  pub resume-Uses :
      (P : SagaStep W E V → Type 0) (c : SagaConfig) (p : Progress W E V) (answer : Answer E V)
      → Uses P p
      → Uses P (resume c p answer)
  unfolding resume Uses
  resume-Uses P c (running [] index executed) answer h = tt
  resume-Uses P c (running (step ∷ steps) index executed) (acted o) h =
      advanced-Uses P step steps index executed o h
  resume-Uses P c (running (step ∷ steps) index executed) (compensated a) h = h
  resume-Uses P c (running (step ∷ steps) index executed) nothing h = h
  resume-Uses P c (compensating error [] count errors) answer h = tt
  resume-Uses P c (compensating error (x ∷ executed) count errors) (compensated a) h =
      settled-Uses P c error x executed count errors a h.1
  resume-Uses P c (compensating error (x ∷ executed) count errors) (acted o) h = h
  resume-Uses P c (compensating error (x ∷ executed) count errors) nothing h = h
  resume-Uses P c (finished o) answer h = tt

  turn-Uses :
      (P : SagaStep W E V → Type 0) (c : SagaConfig) (p : Progress W E V) (w : W)
      → Uses P p
      → Uses P (turn c p w).1
  unfolding turn
  turn-Uses P c p w h = resume-Uses P c p (perform p w).1 h

  next-Commute :
      (a b : Option (SagaStep W E V × Option V))
      → ((s t : SagaStep W E V) (u v : Option V)
          → a ≡ some (s, u)
          → b ≡ some (t, v)
          → Commute (operate s u) (operate t v))
      → Commute (operate_next a) (operate_next b)
  unfolding Commute
  next-Commute none none h w = (refl, refl, refl)
  next-Commute none (some (t, v)) h w = (refl, refl, refl)
  next-Commute (some (s, u)) none h w = (refl, refl, refl)
  next-Commute (some (s, u)) (some (t, v)) h w = h s t u v refl refl w

  -- The next operation of a saga is one of a step that it uses.
  next-Uses :
      (P : SagaStep W E V → Type 0) (p : Progress W E V) (s : SagaStep W E V) (u : Option V)
      → Uses P p
      → next_operation p ≡ some (s, u)
      → P s
  unfolding Uses
  next-Uses P (running [] index executed) s u h e = cc e
  next-Uses P (running (step ∷ steps) index executed) s u h e = subst P (ap (step_of step) e) h.0.0
  next-Uses P (compensating error [] count errors) s u h e = cc e
  next-Uses P (compensating error (x ∷ executed) count errors) s u h e =
      subst P (ap (step_of x.step) e) h.0
  next-Uses P (finished o) s u h e = cc e

  -- Two sagas of which all steps are apart.
  unfoldable pub Independent : Progress W E V → Progress W E V → Type 0
  Independent p q = Uses (λ s. Uses (Apart s) q) p

  perform-Commute : (p q : Progress W E V) → Independent p q → Commute (perform p) (perform q)
  unfolding perform Independent Apart
  perform-Commute p q h =
      next-Commute (next_operation p) (next_operation q)
        (λ s t u v e e'. next-Uses (Apart s) q t v (next-Uses _ p s u h e) e' u v)

  pub turn-Commute :
      (c d : SagaConfig) (p q : Progress W E V) → Independent p q → Commute (turn c p) (turn d q)
  unfolding turn Commute
  turn-Commute c d p q h w =
      let (world, first, second) = perform-Commute p q h w in
      (world, ap (resume c p) first, ap (resume d q) second)

  pub Independent-turn :
      (c : SagaConfig) (p q : Progress W E V) (w : W)
      → Independent p q
      → Independent (turn c p w).1 q
  unfolding Independent
  Independent-turn c p q w h = turn-Uses (λ s. Uses (Apart s) q) c p w h

  pub turn-Independent :
      (c : SagaConfig) (p q : Progress W E V) (w : W)
      → Independent p q
      → Independent p (turn c q w).1
  unfolding Independent
  turn-Independent c p q w h = Uses-map (λ s k. turn-Uses (Apart s) c q w k) p h

  pub turns-Commute :
      (n : ℕ) (c d : SagaConfig) (p q : Progress W E V)
      → Independent p q
      → Commute (turns c n p) (turn d q)
  unfolding turns Commute
  turns-Commute zero c d p q h w = (refl, refl, refl)
  turns-Commute (suc n) c d p q h w =
      let (world, first, second) = turn-Commute c d p q h w in
      let (world', first', second') =
        turns-Commute n c d (turn c p w).1 q (Independent-turn c p q w h) (turn c p w).0 in
      (
        world' ∙ ap (λ r. (turns c n r.1 r.0).0) (both world first),
        first' ∙ ap (λ r. (turns c n r.1 r.0).1) (both world first),
        second' ∙ second,
      )
