-- ===== src/Registry/Bulk.antt =====
-- The operations of a registry on all its values: resetAll, resetAllStatistics and clearAll, and
-- getAllStatistics and getStatistics, of CircuitBreaker.kt, RateLimiter.kt, TimeLimiter.kt,
-- Bulkhead.kt and Cache.kt. The registry has references of a type `B`, and `heap` is what they
-- refer to. A snapshot of the registry is taken first; then each value has a transaction of its
-- own, with no other call in between.
use mathlib.Core.Logic.{ite, if_pos, if_neg}
use mathlib.Core.Option.{map}
use arrow_resilience_kit.Base.{
  suc, ◌≡◌, refl, sym, ap, ◌∙◌, List, [], ◌∷◌, arith, values, occurs, get, some,
}

module _ {ℓ} {B S : Type ℓ} (dec : Discrete B) where
  -- A transaction on one object.
  unfoldable pub write : B → (S → S) → (B → S) → B → S
  write b f heap b' = ite (dec b b') (f (heap b')) (heap b')

  unfoldable pub for_each : (S → S) → List B → (B → S) → B → S
  unfolding write
  for_each f [] heap = heap
  for_each f (b ∷ snapshot) heap = for_each f snapshot (write b f heap)

  unfoldable pub reset_all : {K : Type ℓ} → (S → S) → List (K × B) → (B → S) → B → S
  unfolding for_each
  reset_all reset m heap = for_each reset (values m) heap

module _ {ℓ} {K B S R : Type ℓ} where
  -- `mapValues`
  unfoldable pub get_all_statistics : (S → R) → List (K × B) → (B → S) → List (K × R)
  get_all_statistics statistics [] heap = []
  get_all_statistics statistics ((name, b) ∷ m) heap =
      (name, statistics (heap b)) ∷ get_all_statistics statistics m heap

module _ {ℓ} {B S : Type ℓ} (dec : Discrete B) (f : S → S) where
  for_each-absent :
      (b : B) (snapshot : List B) (heap : B → S)
      → occurs dec b snapshot ≡ 0
      → for_each dec f snapshot heap b ≡ heap b
  unfolding for_each occurs write
  for_each-absent b [] heap h = refl
  for_each-absent b (x ∷ snapshot) heap h = elim (dec x b) [
    | yes e ↦ absurd (omega (arith, sym (if_pos (dec x b) e _ _) ∙ h))
    | no n ↦
        for_each-absent b snapshot (write dec x f heap) (sym (if_neg (dec x b) n _ _) ∙ h)
        ∙ if_neg (dec x b) n _ _
  ]

  for_each-once :
      (b : B) (snapshot : List B) (heap : B → S)
      → occurs dec b snapshot ≡ 1
      → for_each dec f snapshot heap b ≡ f (heap b)
  unfolding for_each occurs write
  for_each-once b [] heap h = absurd (omega (arith, h))
  for_each-once b (x ∷ snapshot) heap h = elim (dec x b) [
    | yes e ↦
        for_each-absent b snapshot (write dec x f heap)
          (omega (arith, sym (if_pos (dec x b) e (suc (occurs dec b snapshot)) _) ∙ h))
        ∙ if_pos (dec x b) e _ _
    | no n ↦
        for_each-once b snapshot (write dec x f heap) (sym (if_neg (dec x b) n _ _) ∙ h)
        ∙ ap f (if_neg (dec x b) n _ _)
  ]

module _ {ℓ} {K B S R : Type ℓ} (dec : Discrete B) (dec_name : Discrete K) where
  get_all_statistics-get :
      (statistics : S → R) (name : K) (b : B) (m : List (K × B)) (heap : B → S)
      → get dec_name name m ≡ some b
      → get dec_name name (get_all_statistics statistics m heap) ≡ some (statistics (heap b))
  unfolding get get_all_statistics
  get_all_statistics-get statistics name b [] heap h = absurd (cc h)
  get_all_statistics-get statistics name b ((n, x) ∷ m) heap h = elim (dec_name n name) [
    | yes e ↦
        if_pos (dec_name n name) e _ _
        ∙ ap (map (λ y. statistics (heap y))) (sym (if_pos (dec_name n name) e _ _) ∙ h)
    | no d ↦
        if_neg (dec_name n name) d _ _
        ∙ get_all_statistics-get statistics name b m heap (sym (if_neg (dec_name n name) d _ _) ∙ h)
  ]

  -- Where an object is registered once, under `name`, the statistics that all the objects have
  -- after all were reset show for that name those of the object, reset once; an object that is not
  -- registered stays as it was.
  reset_all-statistics :
      (reset : S → S) (statistics : S → R) (name : K) (b other : B) (m : List (K × B))
      (heap : B → S)
      → get dec_name name m ≡ some b
      → occurs dec b (values m) ≡ 1
      → occurs dec other (values m) ≡ 0
      → (get dec_name name (get_all_statistics statistics m (reset_all dec reset m heap))
          ≡ some (statistics (reset (heap b))))
        × (reset_all dec reset m heap other ≡ heap other)
  unfolding reset_all
  reset_all-statistics reset statistics name b other m heap h once absent = (
    get_all_statistics-get statistics name b m (reset_all dec reset m heap) h
        ∙ ap (λ s. some (statistics s)) (for_each-once dec reset b (values m) heap once),
    for_each-absent dec reset other (values m) heap absent,
  )
