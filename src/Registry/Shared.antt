-- ===== src/Registry/Shared.antt =====
-- CircuitBreaker.kt, lines 463-508: calls of `getOrCreate` whose transactions interleave share what
-- they return.
use arrow_resilience_kit.Base.{
  ◌≡◌, refl, ap, ◌∙◌, Option, none, some, List, [], ◌∷◌, ◌++◌, All, All-append, get-plus_self,
  get-plus_ne,
}
use arrow_resilience_kit.Registry.{lookup, insert_found, insert_missing}

-- A transaction of a call of `getOrCreate` or `get`: one that looks a name up, or one that inserts
-- what the call created, if the name is missing.
pub data Transaction {ℓ} (K B : Type ℓ) : Type ℓ where
  finds : K → Transaction K B
  inserts : K → B → Transaction K B

module _ {ℓ} {K B : Type ℓ} (dec : Discrete K) where
  abbrev found : K → Option B → List (K × B)
  found name none = []
  found name (some b) = (name, b) ∷ []

  -- The registry after a transaction, and what the call then returns under the name, if it does.
  unfoldable pub step : Transaction K B → List (K × B) → List (K × B) × List (K × B)
  unfolding lookup insert_missing
  step (finds name) m = (m, found name (lookup dec name m))
  step (inserts name fresh) m =
      let (m', b) = insert_missing dec name fresh m in (m', (name, b) ∷ [])

  unfoldable pub run : List (Transaction K B) → List (K × B) → List (K × B) × List (K × B)
  unfolding step
  run [] m = (m, [])
  run (t ∷ ts) m = let (m', rs) = step t m in let (m'', rs') = run ts m' in (m'', rs ++ rs')

  -- What a registry has stays.
  pub Keeps : List (K × B) → List (K × B) → Type ℓ
  Keeps m m' = (name : K) (b : B) → lookup dec name m ≡ some b → lookup dec name m' ≡ some b

  insert_found-Keeps :
      (name : K) (fresh : B) (m : List (K × B)) (o : Option B)
      → lookup dec name m ≡ o
      → Keeps m (insert_found dec name fresh m o).0
  unfolding Keeps lookup
  insert_found-Keeps name fresh m (some b) e other b' h = h
  insert_found-Keeps name fresh m none e other b' h = elim (dec name other) [
    | yes same ↦ absurd (cc (ap (λ k. lookup dec k m) same, e, h))
    | no n ↦ get-plus_ne dec name other fresh m n ∙ h
  ]

  -- What was returned is what the registry has.
  pub Returned : List (K × B) → List (K × B) → Type ℓ
  Returned m = All (λ r. lookup dec r.0 m ≡ some r.1)

  Returned-Keeps :
      (m m' : List (K × B)) (rs : List (K × B)) → Keeps m m' → Returned m rs → Returned m' rs
  unfolding Keeps Returned
  Returned-Keeps m m' [] k h = tt
  Returned-Keeps m m' (r ∷ rs) k h = (k r.0 r.1 h.0, Returned-Keeps m m' rs k h.1)

  insert_found-Returned :
      (name : K) (fresh : B) (m : List (K × B)) (o : Option B)
      → lookup dec name m ≡ o
      → lookup dec name (insert_found dec name fresh m o).0
        ≡ some (insert_found dec name fresh m o).1
  unfolding lookup
  insert_found-Returned name fresh m (some b) e = e
  insert_found-Returned name fresh m none e = get-plus_self dec name fresh m

  found-Returned :
      (name : K) (m : List (K × B)) (o : Option B)
      → lookup dec name m ≡ o
      → Returned m (found name o)
  unfolding Returned
  found-Returned name m none e = tt
  found-Returned name m (some b) e = (e, tt)

  step-Keeps : (t : Transaction K B) (m : List (K × B)) → Keeps m (step t m).0
  unfolding step insert_missing Keeps
  step-Keeps (finds name) m other b h = h
  step-Keeps (inserts name fresh) m other b h =
      insert_found-Keeps name fresh m (lookup dec name m) refl other b h

  step-Returned : (t : Transaction K B) (m : List (K × B)) → Returned (step t m).0 (step t m).1
  unfolding step insert_missing Returned
  step-Returned (finds name) m = found-Returned name m (lookup dec name m) refl
  step-Returned (inserts name fresh) m =
      (insert_found-Returned name fresh m (lookup dec name m) refl, tt)

  run-Keeps : (ts : List (Transaction K B)) (m : List (K × B)) → Keeps m (run ts m).0
  unfolding run Keeps
  run-Keeps [] m name b h = h
  run-Keeps (t ∷ ts) m name b h = run-Keeps ts (step t m).0 name b (step-Keeps t m name b h)

  all-Returned :
      (ts : List (Transaction K B)) (m : List (K × B)) → Returned (run ts m).0 (run ts m).1
  unfolding run Returned
  all-Returned [] m = tt
  all-Returned (t ∷ ts) m =
      All-append _ (step t m).1 (run ts (step t m).0).1
        (Returned-Keeps (step t m).0 (run ts (step t m).0).0 (step t m).1
          (run-Keeps ts (step t m).0) (step-Returned t m))
        (all-Returned ts (step t m).0)

  -- However the transactions of any calls of `get` and `getOrCreate` interleave, with no `remove`
  -- between them, every circuit breaker that one of them returned is the one that the registry has
  -- in the end under its name, so that all calls with a name share one; and what the registry had
  -- it still has.
  pub run-Returned :
      (ts : List (Transaction K B)) (m : List (K × B))
      → Returned (run ts m).0 (run ts m).1 × Keeps m (run ts m).0
  run-Returned ts m = (all-Returned ts m, run-Keeps ts m)
