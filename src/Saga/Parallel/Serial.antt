-- ===== src/Saga/Parallel/Serial.antt =====
-- Saga.kt, lines 461-500: a run of `executeAll` on sagas that are apart, against their `execute`
-- one after the other.
use arrow_resilience_kit.Base.{
  heads, tails, All-map, ℕ, suc, ◌+◌, ◌*◌, ◌≤◌, ◌≡◌, refl, sym, ap, ◌∙◌, Option, none, some, List,
  [], ◌∷◌, length, All, count, arith, Outcome, returned, thrown,
}
use mathlib.Core.Option.{map}
use arrow_resilience_kit.Saga.{
  Exception, SagaConfig, SagaStep, SagaResult, success, failure, execute,
}
use arrow_resilience_kit.Saga.Parallel.{
  Progress, running, finished, turn_at, interleave, start, and_await, await_all, execute_all,
  is_success, is_failure, with_stats, execute_with_stats,
}
use arrow_resilience_kit.Saga.Parallel.Machine.{rest, turns_left, turns, ended, turns-rest}
use arrow_resilience_kit.Saga.Parallel.Commuting.{Apart, Uses, Independent}
use arrow_resilience_kit.Saga.Parallel.Reordering.{Alone, first_then, interleave-Alone}

successful_plus_failed :
    {E V : Type 0} (results : List (SagaResult E V))
    → count is_success results + count is_failure results ≡ length results
successful_plus_failed [] = refl
successful_plus_failed (success v n ∷ results) = omega (arith, successful_plus_failed results)
successful_plus_failed (failure error n errors ∷ results) =
    omega (arith, successful_plus_failed results)

abbrev size : {A : Type 0} → Option (List A) → ℕ
size none = 0
size (some xs) = length xs

module _ {W E V : Type 0} where
  abbrev pub with_result :
      SagaResult E V → W × Option (List (SagaResult E V)) → W × Option (List (SagaResult E V))
  with_result r (w, results) = (w, map (λ rs. r ∷ rs) results)

  -- `saga.execute()` for each saga, one after the other; none where one throws.
  abbrev pub execute_next :
      (W → W × Option (List (SagaResult E V)))
      → W × Outcome (Exception E) (SagaResult E V)
      → W × Option (List (SagaResult E V))
  execute_next others (w, returned r) = with_result r (others w)
  execute_next others (w, thrown e) = (w, none)

  unfoldable pub execute_each :
      List (SagaConfig × List (SagaStep W E V)) → W → W × Option (List (SagaResult E V))
  execute_each [] w = (w, some [])
  execute_each ((c, steps) ∷ sagas) w = execute_next (execute_each sagas) (execute c steps w)

  -- Every step of a saga is apart from every step of the sagas after it.
  unfoldable pub SagasApart : List (SagaConfig × List (SagaStep W E V)) → Type 0
  SagasApart [] = Unit
  SagasApart ((c, steps) ∷ sagas) =
      All (λ other. All (λ s. All (Apart s) other.1) steps) sagas × SagasApart sagas

  -- Each saga has a turn for each action, for each compensation, and to leave a loop twice.
  unfoldable pub Enough : List ℕ → List (SagaConfig × List (SagaStep W E V)) → Type 0
  Enough order [] = Unit
  Enough order ((c, steps) ∷ sagas) =
      (2 * length steps + 2 ≤ heads order) × Enough (tails order) sagas

  start-Alone :
      (steps : List (SagaStep W E V)) (sagas : List (SagaConfig × List (SagaStep W E V)))
      → All (λ other. All (λ s. All (Apart s) other.1) steps) sagas
      → Alone (running steps 0 []) (start sagas)
  unfolding start Alone Independent Uses
  start-Alone steps [] h = tt
  start-Alone steps ((d, other) ∷ sagas) h =
      ((All-map (λ s k. (k, tt)) steps h.0, tt), start-Alone steps sagas h.1)

  finish :
      (order : List ℕ) (c : SagaConfig) (steps : List (SagaStep W E V)) (w : W)
      → 2 * length steps + 2 ≤ heads order
      → turns c (heads order) (running steps 0 []) w ≡ ended c (execute c steps w)
  unfolding execute rest turns_left
  finish order c steps w h = turns-rest c (heads order) (running steps 0 []) w (omega (arith, h))

  abbrev awaited : W × List (SagaConfig × Progress W E V) → W × Option (List (SagaResult E V))
  awaited (w, sagas) = (w, await_all sagas)

  abbrev after :
      SagaResult E V → W × Option (List (SagaResult E V)) → W × Option (List (SagaResult E V))
  after r (w, results) = (w, and_await {W = W} (finished (returned r)) results)

  after-execute_next :
      (r : SagaResult E V) (each all : W × Option (List (SagaResult E V))) (w' : W)
      (results : List (SagaResult E V))
      → with_result r each ≡ (w', some results)
      → ((w'' : W) (results'' : List (SagaResult E V))
          → each ≡ (w'', some results'')
          → all ≡ (w'', some results''))
      → after r all ≡ (w', some results)
  after-execute_next r (w, none) all w' results h same = absurd (cc (ap (λ q. q.1) h))
  after-execute_next r (w, some rs) all w' results h same = ap (after r) (same w rs refl) ∙ h

  first_then-execute_next :
      (c : SagaConfig) (order : List ℕ) (sagas : List (SagaConfig × List (SagaStep W E V)))
      (first : W × Outcome (Exception E) (SagaResult E V)) (w' : W)
      (results : List (SagaResult E V))
      → execute_next (execute_each sagas) first ≡ (w', some results)
      → ((w w'' : W) (results'' : List (SagaResult E V))
          → execute_each sagas w ≡ (w'', some results'')
          → execute_all order sagas w ≡ (w'', some results''))
      → awaited (first_then c order (start sagas) (ended c first)) ≡ (w', some results)
  unfolding execute_all await_all
  first_then-execute_next c order sagas (w, returned r) w' results h same =
      after-execute_next r (execute_each sagas w) (execute_all order sagas w) w' results h (same w)
  first_then-execute_next c order sagas (w, thrown e) w' results h same =
      absurd (cc (ap (λ q. q.1) h))

  interleave-nil : (order : List ℕ) (w : W) → interleave {E = E} {V = V} order w [] ≡ (w, [])
  unfolding interleave turn_at
  interleave-nil [] w = refl
  interleave-nil (i ∷ order) w = interleave-nil order w

  execute_all-eq-execute_each :
      (order : List ℕ) (sagas : List (SagaConfig × List (SagaStep W E V))) (w w' : W)
      (results : List (SagaResult E V))
      → SagasApart sagas
      → Enough order sagas
      → execute_each sagas w ≡ (w', some results)
      → execute_all order sagas w ≡ (w', some results)
  unfolding execute_all execute_each SagasApart Enough start await_all
  execute_all-eq-execute_each order [] w w' results a k h = ap awaited (interleave-nil order w) ∙ h
  execute_all-eq-execute_each order ((c, steps) ∷ sagas) w w' results a k h =
      ap awaited (
        interleave-Alone order c (running steps 0 []) (start sagas) w (start-Alone steps sagas a.0))
      ∙ ap (λ r. awaited (first_then c (tails order) (start sagas) r)) (finish order c steps w k.0)
      ∙ first_then-execute_next c (tails order) sagas (execute c steps w) w' results h
          (λ w1 w2 rs. execute_all-eq-execute_each (tails order) sagas w1 w2 rs a.1 k.1)

  length-with_result :
      (n : ℕ) (r : SagaResult E V) (q : W × Option (List (SagaResult E V))) (w' : W)
      (results : List (SagaResult E V))
      → with_result r q ≡ (w', some results)
      → ((w : W) (rs : List (SagaResult E V)) → q ≡ (w, some rs) → length rs ≡ n)
      → length results ≡ suc n
  length-with_result n r (w, none) w' results h k = absurd (cc (ap (λ q. q.1) h))
  length-with_result n r (w, some rs) w' results h k =
      sym (ap (λ q. size q.1) h) ∙ ap suc (k w rs refl)

  length-execute_next :
      (n : ℕ) (others : W → W × Option (List (SagaResult E V)))
      (first : W × Outcome (Exception E) (SagaResult E V)) (w' : W)
      (results : List (SagaResult E V))
      → execute_next others first ≡ (w', some results)
      → ((w w'' : W) (rs : List (SagaResult E V)) → others w ≡ (w'', some rs) → length rs ≡ n)
      → length results ≡ suc n
  length-execute_next n others (w, returned r) w' results h k =
      length-with_result n r (others w) w' results h (k w)
  length-execute_next n others (w, thrown e) w' results h k = absurd (cc (ap (λ q. q.1) h))

  length-execute_each :
      (sagas : List (SagaConfig × List (SagaStep W E V))) (w w' : W)
      (results : List (SagaResult E V))
      → execute_each sagas w ≡ (w', some results)
      → length results ≡ length sagas
  unfolding execute_each
  length-execute_each [] w w' results h = sym (ap (λ q. size q.1) h)
  length-execute_each ((c, steps) ∷ sagas) w w' results h =
      length-execute_next (length sagas) (execute_each sagas) (execute c steps w) w' results h
        (λ w1 w2 rs. length-execute_each sagas w1 w2 rs)

  -- On sagas whose operations commute with those of the others, in any order of the turns that
  -- gives each saga enough of them, and where no `execute` throws: `executeAll` changes the world
  -- and gives the results as the sagas do that are executed one after the other, there is a result
  -- for each saga, and `executeWithStats` counts each as successful or as failed.
  pub execute_with_stats-eq-execute_each :
      (order : List ℕ) (sagas : List (SagaConfig × List (SagaStep W E V))) (w w' : W)
      (results : List (SagaResult E V))
      → SagasApart sagas
      → Enough order sagas
      → execute_each sagas w ≡ (w', some results)
      → (execute_all order sagas w ≡ (w', some results))
        × (execute_with_stats order sagas w ≡ (w', some (with_stats (length sagas) results)))
        × (length results ≡ length sagas)
        × ((with_stats (length sagas) results).successful_sagas
              + (with_stats (length sagas) results).failed_sagas
            ≡ length sagas)
  unfolding execute_with_stats with_stats
  execute_with_stats-eq-execute_each order sagas w w' results a k h =
      let same = execute_all-eq-execute_each order sagas w w' results a k h in
      let sizes = length-execute_each sagas w w' results h in
      (
        same,
        ap (λ q. (q.0, map (with_stats (length sagas)) q.1)) same,
        sizes,
        successful_plus_failed results ∙ sizes,
      )
