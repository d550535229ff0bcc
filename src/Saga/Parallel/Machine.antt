-- ===== src/Saga/Parallel/Machine.antt =====
-- Saga.kt, lines 91-189: turns of a saga alone, one after the other, are its `execute`.
use mathlib.Core.List.{reverse_aux}
use arrow_resilience_kit.Base.{
  ℕ, zero, suc, ◌+◌, ◌-◌, ◌*◌, ◌≤◌, ◌≡◌, refl, ap, ◌∙◌, List, [], ◌∷◌, length, length-append, arith,
  Outcome, returned, thrown,
}
use arrow_resilience_kit.Saga.{
  Exception, SagaConfig, SagaStep, ExecutedStep, CompensationError, SagaResult, Attempt, skipped,
  undone, failed, cancelled, execute_step, attempt, advance, run_steps, settle, compensate,
  conclude, to_failure,
}
use arrow_resilience_kit.Saga.Parallel.{
  Progress, running, compensating, finished, operate, perform, advanced, settled, resume, turn,
}

module _ {W E V : Type 0} (c : SagaConfig) where
  -- How `execute` ends from here on, with no turn of another saga.
  unfoldable pub rest : Progress W E V → W → W × Outcome (Exception E) (SagaResult E V)
  unfolding conclude run_steps compensate
  rest (running steps index executed) w = conclude c (run_steps steps index executed w)
  rest (compensating error executed count errors) w =
      let (w', o) = compensate c executed count errors w in (w', to_failure error o)
  rest (finished o) w = (w, o)

  advanced-rest :
      (step : SagaStep W E V) (steps : List (SagaStep W E V)) (index : ℕ)
      (executed : List (ExecutedStep W E V)) (r : W × Outcome (Exception E) V)
      → rest (advanced step steps index executed r.1) r.0
        ≡ conclude c (advance step index executed (run_steps steps) r)
  unfolding rest conclude advance
  advanced-rest step steps index executed (w, returned v) = refl
  advanced-rest step steps index executed (w, thrown e) = refl

  settled-rest :
      (error : Exception E) (x : ExecutedStep W E V) (executed : List (ExecutedStep W E V))
      (count : ℕ) (errors : List (CompensationError E)) (r : W × Attempt E)
      → rest (settled c error x executed count errors r.1) r.0 ≡ (
          let (w', o) = settle c x count errors (compensate c executed) r in
          (w', to_failure error o))
  unfolding rest settle
  settled-rest error x executed count errors (w, skipped) = refl
  settled-rest error x executed count errors (w, undone) = refl
  settled-rest error x executed count errors (w, cancelled e) = refl
  settled-rest error x executed count errors (w, failed e) = ground arith

  -- A turn does not change how it ends.
  pub turn-rest : (p : Progress W E V) (w : W) → rest (turn c p w).1 (turn c p w).0 ≡ rest p w
  unfolding turn perform operate attempt resume rest conclude run_steps compensate
  turn-rest (running [] index executed) w = refl
  turn-rest (running (step ∷ steps) index executed) w =
      advanced-rest step steps index executed (execute_step step w)
  turn-rest (compensating error [] count errors) w = refl
  turn-rest (compensating error (x ∷ executed) count errors) w =
      settled-rest error x executed count errors (attempt x w)
  turn-rest (finished o) w = refl

-- How many turns are left at most.
unfoldable pub turns_left : {W E V : Type 0} → Progress W E V → ℕ
turns_left (running steps index executed) = 2 * length steps + length executed + 2
turns_left (compensating error executed count errors) = length executed + 1
turns_left (finished o) = 0

length-reverse_aux :
    {A : Type 0} (xs acc : List A) → length (reverse_aux xs acc) ≡ length xs + length acc
length-reverse_aux [] acc = omega arith
length-reverse_aux (x ∷ xs) acc = omega (arith, length-reverse_aux xs (x ∷ acc))

module _ {W E V : Type 0} (c : SagaConfig) where
  advanced-left :
      (step : SagaStep W E V) (steps : List (SagaStep W E V)) (index : ℕ)
      (executed : List (ExecutedStep W E V)) (o : Outcome (Exception E) V)
      → turns_left (advanced step steps index executed o) + 1
        ≤ turns_left (running (step ∷ steps) index executed)
  unfolding turns_left
  advanced-left step steps index executed (returned v) =
      omega (arith, length-append executed (record { step = step; result = v; index = index } ∷ []))
  advanced-left step steps index executed (thrown e) = omega (arith, length-reverse_aux executed [])

  settled-left :
      (error : Exception E) (x : ExecutedStep W E V) (executed : List (ExecutedStep W E V))
      (count : ℕ) (errors : List (CompensationError E)) (a : Attempt E)
      → turns_left (settled c error x executed count errors a) ≤ length executed + 1
  unfolding turns_left
  settled-left error x executed count errors skipped = omega arith
  settled-left error x executed count errors undone = omega arith
  settled-left error x executed count errors (cancelled e) = omega arith
  settled-left error x executed count errors (failed e) = ground arith

  turn-left : (p : Progress W E V) (w : W) → turns_left (turn c p w).1 ≤ turns_left p - 1
  unfolding turn perform operate attempt resume turns_left
  turn-left (running [] index executed) w = omega arith
  turn-left (running (step ∷ steps) index executed) w =
      omega (arith, advanced-left step steps index executed (execute_step step w).1)
  turn-left (compensating error [] count errors) w = omega arith
  turn-left (compensating error (x ∷ executed) count errors) w =
      omega (arith, settled-left error x executed count errors (attempt x w).1)
  turn-left (finished o) w = omega arith

  -- That many turns, with no turn of another saga.
  unfoldable pub turns : ℕ → Progress W E V → W → W × Progress W E V
  unfolding turn
  turns zero p w = (w, p)
  turns (suc n) p w = let (w', p') = turn c p w in turns n p' w'

  abbrev pub ended : W × Outcome (Exception E) (SagaResult E V) → W × Progress W E V
  ended (w, o) = (w, finished o)

  none_left : (p : Progress W E V) (w : W) → turns_left p ≤ 0 → turns zero p w ≡ ended (rest c p w)
  unfolding turns turns_left rest
  none_left (running steps index executed) w h = absurd (omega (arith, h))
  none_left (compensating error executed count errors) w h = absurd (omega (arith, h))
  none_left (finished o) w h = refl

  -- With enough turns it ends, as `execute` ends.
  pub turns-rest :
      (n : ℕ) (p : Progress W E V) (w : W) → turns_left p ≤ n → turns n p w ≡ ended (rest c p w)
  unfolding turns
  turns-rest zero p w h = none_left p w h
  turns-rest (suc n) p w h =
      turns-rest n (turn c p w).1 (turn c p w).0 (omega (arith, h, turn-left p w))
      ∙ ap ended (turn-rest c p w)
