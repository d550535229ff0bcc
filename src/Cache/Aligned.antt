-- ===== src/Cache/Aligned.antt =====
-- Cache.kt: entries and an access order that hold the same keys, each once, and the two changes to
-- them that the cache makes: dropping a key, and writing an entry and moving its key to the end.
use mathlib.Core.Logic.{if_neg, ite}
use arrow_resilience_kit.Base.{
  ℕ, suc, ◌≤◌, ◌≡◌, ◌≢◌, refl, sym, ap, subst, ◌∙◌, ◌⊎◌, inl, inr, not, List, [], ◌∷◌, ◌++◌, arith,
  if◌then◌else◌, length, length-append, keys, has, minus, plus, remove, keep, occurs,
  occurs-minus_self, occurs-minus_ne, occurs-append, occurs-one_self, occurs-one_ne, length-minus,
  has-cases, length-keys, keys-remove, keys-plus,
}

module _ {ℓ} {K : Type ℓ} (dec : Discrete K) where
  -- The two lists hold the same keys, each once.
  abbrev pub Aligned : List K → List K → Type ℓ
  Aligned ks order = (k : K) → (occurs dec k ks ≡ occurs dec k order) × (occurs dec k order ≤ 1)

  pub empty-Aligned : Aligned [] []
  unfolding occurs
  empty-Aligned k = (refl, omega arith)

  -- Filtering out the items of `ks`.
  unfoldable pub without : List K → List K → List K
  without ks xs = keep (λ x. not (has dec x ks)) xs

  pub without_in : (k : K) (ks xs : List K) → 1 ≤ occurs dec k ks → occurs dec k (without ks xs) ≡ 0
  unfolding without occurs
  without_in k ks [] h = refl
  without_in k ks (x ∷ xs) h = elim (has-cases dec x ks) [
    | inl (b, _) ↦
        ap (λ b. occurs dec k (if not b then x ∷ without ks xs else without ks xs)) b
        ∙ without_in k ks xs h
    | inr (b, o) ↦
        ap (λ b. occurs dec k (if not b then x ∷ without ks xs else without ks xs)) b
        ∙ if_neg (dec x k) (λ e. absurd (zero_le (subst (λ j. occurs dec j ks ≡ 0) e o) h)) _ _
        ∙ without_in k ks xs h
  ]
    where
      zero_le : {n : ℕ} → n ≡ 0 → ¬ 1 ≤ n
      zero_le e h = omega (arith, e, h)

  pub without_out :
      (k : K) (ks xs : List K)
      → occurs dec k ks ≡ 0
      → occurs dec k (without ks xs) ≡ occurs dec k xs
  unfolding without occurs
  without_out k ks [] h = refl
  without_out k ks (x ∷ xs) h = elim (has-cases dec x ks) [
    | inl (b, o) ↦
        ap (λ b. occurs dec k (if not b then x ∷ without ks xs else without ks xs)) b
        ∙ without_out k ks xs h
        ∙ sym
            (if_neg (dec x k) (λ e. absurd (zero_le h (subst (λ j. 1 ≤ occurs dec j ks) e o))) _ _)
    | inr (b, _) ↦
        ap (λ b. occurs dec k (if not b then x ∷ without ks xs else without ks xs)) b
        ∙ ap (λ n. ite (dec x k) (suc n) n) (without_out k ks xs h)
  ]
    where
      zero_le : {n : ℕ} → n ≡ 0 → ¬ 1 ≤ n
      zero_le e h = omega (arith, e, h)

module _ {ℓ} {K V : Type ℓ} (dec : Discrete K) (key : K) (es : List (K × V)) (order : List K) where
  pub drop-Aligned :
      Aligned dec (keys es) order → Aligned dec (keys (remove dec key es)) (minus dec key order)
  drop-Aligned h k = elim (dec key k) [
    | yes e ↦
        subst
          (λ j.
            (occurs dec j (keys (remove dec key es)) ≡ occurs dec j (minus dec key order))
            × (occurs dec j (minus dec key order) ≤ 1))
          e
          (omega (
            arith,
            ap (occurs dec key) (keys-remove dec key es),
            occurs-minus_self dec key (keys es),
            occurs-minus_self dec key order,
            h key,
          ))
    | no n ↦ omega (
      arith,
      ap (occurs dec k) (keys-remove dec key es),
      occurs-minus_ne dec key k (keys es) n,
      occurs-minus_ne dec key k order n,
      h k,
    )
  ]

  pub length-remove : 1 ≤ occurs dec key (keys es) → suc (length (remove dec key es)) ≡ length es
  length-remove h = omega (
    arith,
    length-keys es,
    length-keys (remove dec key es),
    ap length (keys-remove dec key es),
    length-minus dec key (keys es) h,
  )

  module _ (v : V) where
    keys-plus_cases :
        (keys (plus dec key v es) ≡ keys es) × (1 ≤ occurs dec key (keys es))
        ⊎ (keys (plus dec key v es) ≡ keys es ++ key ∷ []) × (occurs dec key (keys es) ≡ 0)
    keys-plus_cases = elim (has-cases dec key (keys es)) [
      | inl (b, n) ↦
          inl (keys-plus dec key v es ∙ ap (λ b. if b then keys es else keys es ++ key ∷ []) b, n)
      | inr (b, n) ↦
          inr (keys-plus dec key v es ∙ ap (λ b. if b then keys es else keys es ++ key ∷ []) b, n)
    ]

    touch_self :
        Aligned dec (keys es) order
        → (occurs dec key (keys (plus dec key v es)) ≡ 1)
          × (occurs dec key (minus dec key order ++ key ∷ []) ≡ 1)
    touch_self h = elim keys-plus_cases [
      | inl (e, n) ↦ omega (
        arith,
        ap (occurs dec key) e,
        n,
        h key,
        occurs-append dec key (minus dec key order) (key ∷ []),
        occurs-minus_self dec key order,
        occurs-one_self dec key,
      )
      | inr (e, n) ↦ omega (
        arith,
        ap (occurs dec key) e,
        n,
        h key,
        occurs-append dec key (minus dec key order) (key ∷ []),
        occurs-append dec key (keys es) (key ∷ []),
        occurs-minus_self dec key order,
        occurs-one_self dec key,
      )
    ]

    touch_ne :
        (k : K)
        → key ≢ k
        → (occurs dec k (keys (plus dec key v es)) ≡ occurs dec k (keys es))
          × (occurs dec k (minus dec key order ++ key ∷ []) ≡ occurs dec k order)
    touch_ne k n = elim keys-plus_cases [
      | inl (e, _) ↦ omega (
        arith,
        ap (occurs dec k) e,
        occurs-append dec k (minus dec key order) (key ∷ []),
        occurs-minus_ne dec key k order n,
        occurs-one_ne dec key k n,
      )
      | inr (e, _) ↦ omega (
        arith,
        ap (occurs dec k) e,
        occurs-append dec k (minus dec key order) (key ∷ []),
        occurs-append dec k (keys es) (key ∷ []),
        occurs-minus_ne dec key k order n,
        occurs-one_ne dec key k n,
      )
    ]

    pub touch-Aligned :
        Aligned dec (keys es) order
        → Aligned dec (keys (plus dec key v es)) (minus dec key order ++ key ∷ [])
    touch-Aligned h k = elim (dec key k) [
      | yes e ↦
          subst
            (λ j.
              (occurs dec j (keys (plus dec key v es))
                ≡ occurs dec j (minus dec key order ++ key ∷ []))
              × (occurs dec j (minus dec key order ++ key ∷ []) ≤ 1))
            e (omega (arith, touch_self h))
      | no n ↦ omega (arith, touch_ne k n, h k)
    ]

    pub length-plus :
        (length (plus dec key v es) ≡ length es) × (1 ≤ occurs dec key (keys es))
        ⊎ (length (plus dec key v es) ≡ suc (length es)) × (occurs dec key (keys es) ≡ 0)
    length-plus = elim keys-plus_cases [
      | inl (e, n) ↦
          inl (omega (arith, ap length e, length-keys es, length-keys (plus dec key v es)), n)
      | inr (e, n) ↦ inr (
        omega (
          arith,
          ap length e,
          length-append (keys es) (key ∷ []),
          length-keys es,
          length-keys (plus dec key v es),
        ),
        n,
      )
    ]
