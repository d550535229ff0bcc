-- ===== src/Cache/Sorted.antt =====
-- Lists sorted by a measure of their items, under the changes that a cache makes to its access
-- order.
use mathlib.Core.Logic.{if_pos, if_neg}
use arrow_resilience_kit.Base.{
  ℕ, ◌≤◌, ◌≡◌, ◌≢◌, sym, subst, Bool, List, [], ◌∷◌, ◌++◌, arith, if_elim, if◌then◌else◌, keep, All,
  minus, occurs, has, has-cases, not, inl, inr, ◌∙◌,
}

module _ {ℓ} {A : Type ℓ} (f : A → ℕ) where
  abbrev pub Sorted : List A → Type 0
  Sorted [] = Unit
  Sorted (x ∷ xs) = All (λ y. f x ≤ f y) xs × Sorted xs

  pub Sorted-last :
      (x : A) (xs : List A) → All (λ y. f y ≤ f x) xs → Sorted xs → Sorted (xs ++ x ∷ [])
  Sorted-last x [] h s = (tt, tt)
  Sorted-last x (y ∷ ys) h s = (All-last (λ z. f y ≤ f z) x ys h.0 s.0, Sorted-last x ys h.1 s.1)
    where
      All-last : (P : A → Type 0) (x : A) (xs : List A) → P x → All P xs → All P (xs ++ x ∷ [])
      All-last P x [] p h = (p, tt)
      All-last P x (y ∷ ys) p h = (h.0, All-last P x ys p h.1)

module _ {ℓ} {A : Type ℓ} (f g : A → ℕ) where
  All-le :
      (n : ℕ) (xs : List A)
      → All (λ y. g y ≡ f y) xs
      → All (λ y. n ≤ f y) xs
      → All (λ y. n ≤ g y) xs
  All-le n [] e h = tt
  All-le n (x ∷ xs) e h = (omega (arith, e.0, h.0), All-le n xs e.1 h.1)

  pub All-ge :
      (n : ℕ) (xs : List A)
      → All (λ y. g y ≡ f y) xs
      → All (λ y. f y ≤ n) xs
      → All (λ y. g y ≤ n) xs
  All-ge n [] e h = tt
  All-ge n (x ∷ xs) e h = (omega (arith, e.0, h.0), All-ge n xs e.1 h.1)

  pub Sorted-same : (xs : List A) → All (λ y. g y ≡ f y) xs → Sorted f xs → Sorted g xs
  Sorted-same [] e s = tt
  Sorted-same (x ∷ xs) e s = (
    subst (λ n. All (λ y. n ≤ g y) xs) (sym e.0) (All-le (f x) xs e.1 s.0),
    Sorted-same xs e.1 s.1,
  )

module _ {ℓ κ} {A : Type ℓ} (P : A → Type κ) (p : A → Bool) where
  pub All-keep : (xs : List A) → All P xs → All P (keep p xs)
  All-keep [] h = tt
  All-keep (x ∷ xs) h =
      if_elim (All P) (p x) _ _ (λ _. (h.0, All-keep xs h.1)) (λ _. All-keep xs h.1)

module _ {ℓ} {A : Type ℓ} (f : A → ℕ) (p : A → Bool) where
  pub Sorted-keep : (xs : List A) → Sorted f xs → Sorted f (keep p xs)
  Sorted-keep [] s = tt
  Sorted-keep (x ∷ xs) s =
      if_elim (Sorted f) (p x) _ _ (λ _. (All-keep (λ y. f x ≤ f y) p xs s.0, Sorted-keep xs s.1))
        (λ _. Sorted-keep xs s.1)

module _ {ℓ} {A : Type ℓ} (dec : Discrete A) (x : A) where
  pub All-minus {κ} : (P : A → Type κ) (xs : List A) → All P xs → All P (minus dec x xs)
  unfolding minus
  All-minus P [] h = tt
  All-minus P (y ∷ ys) h = elim (dec y x) [
    | yes e ↦ subst (All P) (sym (if_pos (dec y x) e _ _)) h.1
    | no n ↦ subst (All P) (sym (if_neg (dec y x) n _ _)) (h.0, All-minus P ys h.1)
  ]

  pub Sorted-minus : (f : A → ℕ) (xs : List A) → Sorted f xs → Sorted f (minus dec x xs)
  unfolding minus
  Sorted-minus f [] s = tt
  Sorted-minus f (y ∷ ys) s = elim (dec y x) [
    | yes e ↦ subst (Sorted f) (sym (if_pos (dec y x) e _ _)) s.1
    | no n ↦
        subst (Sorted f) (sym (if_neg (dec y x) n _ _))
          (All-minus (λ z. f y ≤ f z) ys s.0, Sorted-minus f ys s.1)
  ]

  -- An item that does not occur differs from all that do.
  pub All-ne : (xs : List A) → occurs dec x xs ≡ 0 → All (λ y. x ≢ y) xs
  unfolding occurs
  All-ne [] h = tt
  All-ne (y ∷ ys) h = elim (dec y x) [
    | yes e ↦ absurd (omega (arith, sym (if_pos (dec y x) e _ _) ∙ h))
    | no n ↦ (λ e. n (sym e), All-ne ys (sym (if_neg (dec y x) n _ _) ∙ h))
  ]

  -- What holds of all items holds of one that occurs.
  pub All-at : (P : A → Type 0) (xs : List A) → 1 ≤ occurs dec x xs → All P xs → P x
  unfolding occurs
  All-at P [] o h = absurd (omega (arith, o))
  All-at P (y ∷ ys) o h = elim (dec y x) [
    | yes e ↦ subst P e h.0
    | no n ↦ All-at P ys (subst (λ k. 1 ≤ k) (if_neg (dec y x) n _ _) o) h.1
  ]

module _ {ℓ} {A : Type ℓ} (dec : Discrete A) (ks : List A) where
  -- The items that are kept are not among `ks`.
  pub All-without :
      (xs : List A) → All (λ y. occurs dec y ks ≡ 0) (keep (λ y. not (has dec y ks)) xs)
  All-without [] = tt
  All-without (y ∷ ys) = elim (has-cases dec y ks) [
    | inl (b, _) ↦
        subst
          (λ b.
            All (λ z. occurs dec z ks ≡ 0)
              (if not b
                then y ∷ keep (λ y. not (has dec y ks)) ys
                else keep (λ y. not (has dec y ks)) ys))
          (sym b) (All-without ys)
    | inr (b, o) ↦
        subst
          (λ b.
            All (λ z. occurs dec z ks ≡ 0)
              (if not b
                then y ∷ keep (λ y. not (has dec y ks)) ys
                else keep (λ y. not (has dec y ks)) ys))
          (sym b) (o, All-without ys)
  ]
