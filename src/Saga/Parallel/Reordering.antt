-- ===== src/Saga/Parallel/Reordering.antt =====
-- Saga.kt, lines 461-500: the turns of a saga that is apart from the others, moved to the front.
use arrow_resilience_kit.Base.{
  heads, tails, All-map, ℕ, zero, suc, ◌≡◌, refl, sym, ap, ◌∙◌, List, [], ◌∷◌, All,
}
use arrow_resilience_kit.Saga.{SagaConfig}
use arrow_resilience_kit.Saga.Parallel.{Progress, turn, turn_at, interleave}
use arrow_resilience_kit.Saga.Parallel.Machine.{turns}
use arrow_resilience_kit.Saga.Parallel.Commuting.{
  Commute, Independent, Independent-turn, turn-Independent, turns-Commute,
}

module _ {W E V : Type 0} where
  -- Independent of each of the sagas.
  unfoldable pub Alone : Progress W E V → List (SagaConfig × Progress W E V) → Type 0
  Alone p sagas = All (λ s. Independent p s.1) sagas

  Alone-turn :
      (c : SagaConfig) (p : Progress W E V) (sagas : List (SagaConfig × Progress W E V)) (w : W)
      → Alone p sagas
      → Alone (turn c p w).1 sagas
  unfolding Alone
  Alone-turn c p sagas w h = All-map (λ s k. Independent-turn c p s.1 w k) sagas h

  turn_at-Alone :
      (i : ℕ) (p : Progress W E V) (sagas : List (SagaConfig × Progress W E V)) (w : W)
      → Alone p sagas
      → Alone p (turn_at i w sagas).1
  unfolding turn_at Alone
  turn_at-Alone i p [] w h = tt
  turn_at-Alone zero p ((d, q) ∷ sagas) w h = (turn-Independent d p q w h.0, h.1)
  turn_at-Alone (suc i) p (s ∷ sagas) w h = (h.0, turn_at-Alone i p sagas w h.1)

  turn_at-Commute :
      (i n : ℕ) (c : SagaConfig) (p : Progress W E V) (sagas : List (SagaConfig × Progress W E V))
      → Alone p sagas
      → Commute (turns c n p) (λ w. turn_at i w sagas)
  unfolding turn_at Alone Commute
  turn_at-Commute i n c p [] h w = (refl, refl, refl)
  turn_at-Commute zero n c p ((d, q) ∷ sagas) h w =
      let (world, first, second) = turns-Commute n c d p q h.0 w in
      (world, first, ap (λ q'. (d, q') ∷ sagas) second)
  turn_at-Commute (suc i) n c p (s ∷ sagas) h w =
      let (world, first, second) = turn_at-Commute i n c p sagas h.1 w in
      (world, first, ap (λ sagas'. s ∷ sagas') second)

  abbrev pub first_then :
      SagaConfig
      → List ℕ
      → List (SagaConfig × Progress W E V)
      → W × Progress W E V
      → W × List (SagaConfig × Progress W E V)
  first_then c order sagas (w, p) =
      let (w', sagas') = interleave order w sagas in (w', (c, p) ∷ sagas')

  abbrev joined :
      SagaConfig
      → Progress W E V
      → W × List (SagaConfig × Progress W E V)
      → W × List (SagaConfig × Progress W E V)
  joined c p (w, sagas) = (w, (c, p) ∷ sagas)

  -- The turns of a first saga that is independent of the others can be taken first.
  pub interleave-Alone :
      (order : List ℕ) (c : SagaConfig) (p : Progress W E V)
      (sagas : List (SagaConfig × Progress W E V)) (w : W)
      → Alone p sagas
      → interleave order w ((c, p) ∷ sagas)
        ≡ first_then c (tails order) sagas (turns c (heads order) p w)
  unfolding interleave turn_at turns heads tails Commute
  interleave-Alone [] c p sagas w h = refl
  interleave-Alone (zero ∷ order) c p sagas w h =
      interleave-Alone order c (turn c p w).1 sagas (turn c p w).0 (Alone-turn c p sagas w h)
  interleave-Alone (suc i ∷ order) c p sagas w h =
      let (w', sagas') = turn_at i w sagas in
      let (world, first, second) = turn_at-Commute i (heads order) c p sagas h w in
      interleave-Alone order c p sagas' w' (turn_at-Alone i p sagas w h)
      ∙ sym (λ k. joined c (first k) (interleave (tails order) (world k) (second k)))
