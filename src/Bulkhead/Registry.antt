-- ===== src/Bulkhead/Registry.antt =====
-- Bulkhead.kt, lines 358-417: the registry, a map from names to bulkheads. `B` is the type of the
-- references to bulkheads, and `fresh` the one that a call of `getOrCreate` creates.
use arrow_resilience_kit.Base.{
  ◌≡◌, ◌≢◌, refl, ap, ◌∙◌, Option, none, some, List, [], ◌∷◌, keys, get, plus, remove,
  get-plus_self, get-plus_ne,
}

module _ {ℓ} {K B : Type ℓ} where
  unfoldable pub create : List (K × B)
  create = []

  unfoldable pub get_names : List (K × B) → List K
  get_names m = keys m

module _ {ℓ} {K B : Type ℓ} (dec : Discrete K) where
  unfoldable pub lookup : K → List (K × B) → Option B
  lookup name m = get dec name m

  -- The second transaction of `getOrCreate`.
  unfoldable pub store : K → B → List (K × B) → List (K × B)
  store name bulkhead m = plus dec name bulkhead m

  unfoldable pub create_missing : K → B → List (K × B) → Option B → List (K × B) × B
  unfolding store
  create_missing name fresh m (some existing) = (m, existing)
  create_missing name fresh m none = (store name fresh m, fresh)

  unfoldable pub get_or_create : K → B → List (K × B) → List (K × B) × B
  unfolding lookup create_missing
  get_or_create name fresh m = create_missing name fresh m (lookup name m)

  unfoldable pub remove_bulkhead : K → List (K × B) → List (K × B) × Option B
  unfolding lookup
  remove_bulkhead name m = (remove dec name m, lookup name m)

  create_missing-kept :
      (name : K) (fresh : B) (m : List (K × B)) (found : Option B)
      → lookup name m ≡ found
      → (lookup name (create_missing name fresh m found).0
          ≡ some (create_missing name fresh m found).1)
        × ((other : K)
            → name ≢ other
            → lookup other (create_missing name fresh m found).0 ≡ lookup other m)
  unfolding lookup create_missing store
  create_missing-kept name fresh m (some existing) h = (h, λ other n. refl)
  create_missing-kept name fresh m none h =
      (get-plus_self dec name fresh m, λ other n. get-plus_ne dec name other fresh m n)

  -- After `getOrCreate name`, with no other call in between, the registry has the bulkhead that it
  -- returned under the name, and under every other name what it had; and a second call with the
  -- name returns that bulkhead and leaves the registry as it is.
  get_or_create-stable :
      (name other : K) (fresh later : B) (m : List (K × B))
      → name ≢ other
      → (lookup name (get_or_create name fresh m).0 ≡ some (get_or_create name fresh m).1)
        × (lookup other (get_or_create name fresh m).0 ≡ lookup other m)
        × (get_or_create name later (get_or_create name fresh m).0 ≡ get_or_create name fresh m)
  unfolding get_or_create create_missing
  get_or_create-stable name other fresh later m n =
      let (kept, others) = create_missing-kept name fresh m (lookup name m) refl in
      (kept, others other n, ap (create_missing name later (get_or_create name fresh m).0) kept)

  -- The second transactions of overlapping calls of `getOrCreate`, with what their first
  -- transactions found.
  unfoldable pub create_each : K → List B → Option B → List (K × B) → List (K × B) × List B
  unfolding create_missing
  create_each name [] found m = (m, [])
  create_each name (fresh ∷ others) found m =
      let (m', b) = create_missing name fresh m found in
      let (m'', bs) = create_each name others found m' in (m'', b ∷ bs)

  abbrev pub last_of : B → List B → B
  last_of b [] = b
  last_of b (c ∷ cs) = last_of c cs

  create_each-results :
      (name : K) (fresh : List B) (m : List (K × B)) → (create_each name fresh none m).1 ≡ fresh
  unfolding create_each create_missing store
  create_each-results name [] m = refl
  create_each-results name (b ∷ bs) m =
      ap (λ rest. b ∷ rest) (create_each-results name bs (plus dec name b m))

  create_each-last :
      (name : K) (b : B) (bs : List B) (m : List (K × B))
      → lookup name (create_each name (b ∷ bs) none m).0 ≡ some (last_of b bs)
  unfolding create_each create_missing store lookup
  create_each-last name b [] m = get-plus_self dec name b m
  create_each-last name b (c ∷ cs) m = create_each-last name c cs (plus dec name b m)

  create_each-others :
      (name other : K) (bs : List B) (m : List (K × B))
      → name ≢ other
      → lookup other (create_each name bs none m).0 ≡ lookup other m
  unfolding create_each create_missing store lookup
  create_each-others name other [] m n = refl
  create_each-others name other (b ∷ bs) m n =
      create_each-others name other bs (plus dec name b m) n ∙ get-plus_ne dec name other b m n

  -- When any number of calls of `getOrCreate` with a new name all look it up before one of them
  -- stores, each returns the bulkhead that it created. The registry then has that of the last call
  -- to store; a later call returns this one and leaves the registry as it is, and under every other
  -- name the registry has what it had.
  pub overlapping_creates :
      (name other : K) (first later : B) (rest : List B) (m : List (K × B))
      → lookup name m ≡ none
      → name ≢ other
      → let (m', results) = create_each name (first ∷ rest) (lookup name m) m in
        (results ≡ first ∷ rest)
        × (lookup name m' ≡ some (last_of first rest))
        × (get_or_create name later m' ≡ (m', last_of first rest))
        × (lookup other m' ≡ lookup other m)
  unfolding get_or_create create_missing
  overlapping_creates name other first later rest m h n =
      let found = λ (o : Option B). create_each name (first ∷ rest) o m in
      let kept = ap (λ o. lookup name (found o).0) h ∙ create_each-last name first rest m in
      (
        ap (λ o. (found o).1) h ∙ create_each-results name (first ∷ rest) m,
        kept,
        ap (create_missing name later (found (lookup name m)).0) kept,
        ap (λ o. lookup other (found o).0) h ∙ create_each-others name other (first ∷ rest) m n,
      )
