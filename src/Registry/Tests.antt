-- ===== src/Registry/Tests.antt =====
-- CircuitBreaker.kt and Cache.kt: transactions of calls on a registry, and an instance of the
-- theorem on them.
use arrow_resilience_kit.Base.{
  ℕ, ◌+◌, ℕ_discrete, ◌≡◌, refl, none, List, [], ◌∷◌, get, plus, remove, has,
}
use arrow_resilience_kit.Registry.Bulk.{write, for_each, reset_all, get_all_statistics}
use arrow_resilience_kit.Registry.{lookup, insert_missing, remove_breaker, put_absent, read_again}
use arrow_resilience_kit.Registry.Shared.{
  Transaction, finds, inserts, step, run, Returned, Keeps, run-Returned,
}

-- Two calls that both miss the name 7, a third that finds it, and one with the name 8.
abbrev transactions : List (Transaction ℕ ℕ)
transactions = finds 7 ∷ finds 7 ∷ inserts 7 70 ∷ inserts 7 71 ∷ finds 7 ∷ inserts 8 80 ∷ []

shares : (run ℕ_discrete transactions []).1 ≡ (7, 70) ∷ (7, 70) ∷ (7, 70) ∷ (8, 80) ∷ []
unfolding run step insert_missing lookup get plus ℕ_discrete
shares = refl

-- A cache removed before it is read again: the cast throws.
removed_meanwhile :
    read_again {B = ℕ} ℕ_discrete 7 (remove_breaker ℕ_discrete 7 (put_absent ℕ_discrete 7 70 [])).0
    ≡ none
unfolding read_again lookup remove_breaker put_absent get plus remove has ℕ_discrete
removed_meanwhile = refl

run-Returned_example :
    Returned ℕ_discrete (run ℕ_discrete transactions []).0 (run ℕ_discrete transactions []).1
    × Keeps ℕ_discrete [] (run ℕ_discrete transactions []).0
run-Returned_example = run-Returned ℕ_discrete transactions []

-- Two objects are registered, and others are not.
abbrev objects : List (ℕ × ℕ)
objects = (4, 0) ∷ (5, 1) ∷ []

all_reset :
    get_all_statistics (λ s. s) objects (reset_all ℕ_discrete (λ s. s + 100) objects (λ b. b))
    ≡ (4, 100) ∷ (5, 101) ∷ []
unfolding get_all_statistics reset_all for_each write ℕ_discrete
all_reset = refl
