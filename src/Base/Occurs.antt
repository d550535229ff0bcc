-- ===== src/Base/Occurs.antt =====
-- How often an item occurs in a list, for the lists and the association lists without duplicates.
use Prim.Native.Nat.{ℕ, suc, ◌+◌, ◌-◌, ◌≤◌}
use mathlib.Core.Path.{◌≡◌, refl, sym, ap, subst, ◌∙◌}
use mathlib.Core.Logic.{◌≢◌, ◌⊎◌, inr, ite, if_pos, if_neg}
use mathlib.Core.Bool.{true, false}
use mathlib.Core.List.{List, [], ◌∷◌, ◌++◌}
use native.Mathlib.Omega.{arith}
use arrow_resilience_kit.Base.Test.{if◌then◌else◌, if_apply}
use arrow_resilience_kit.Base.Seq.{length}
use arrow_resilience_kit.Base.Assoc.{keys, has, minus, plus, remove}

module _ {ℓ} {K : Type ℓ} (dec : Discrete K) where
  unfoldable pub occurs : K → List K → ℕ
  occurs k [] = 0
  occurs k (x ∷ xs) = ite (dec x k) (suc (occurs k xs)) (occurs k xs)

  minus_nil : (k : K) → minus dec k [] ≡ []
  unfolding minus
  minus_nil k = refl

  pub occurs_nil : (k : K) → occurs k [] ≡ 0
  unfolding occurs
  occurs_nil k = refl

  minus_hit : (k x : K) (xs : List K) → x ≡ k → minus dec k (x ∷ xs) ≡ xs
  unfolding minus
  minus_hit k x xs e = if_pos (dec x k) e _ _

  minus_skip : (k x : K) (xs : List K) → x ≢ k → minus dec k (x ∷ xs) ≡ x ∷ minus dec k xs
  unfolding minus
  minus_skip k x xs n = if_neg (dec x k) n _ _

  occurs_hit : (k x : K) (xs : List K) → x ≡ k → occurs k (x ∷ xs) ≡ suc (occurs k xs)
  unfolding occurs
  occurs_hit k x xs e = if_pos (dec x k) e _ _

  occurs_skip : (k x : K) (xs : List K) → x ≢ k → occurs k (x ∷ xs) ≡ occurs k xs
  unfolding occurs
  occurs_skip k x xs n = if_neg (dec x k) n _ _

  occurs_cons :
      (k x : K) (xs ys : List K) → occurs k xs ≡ occurs k ys → occurs k (x ∷ xs) ≡ occurs k (x ∷ ys)
  unfolding occurs
  occurs_cons k x xs ys e = ap (λ n. ite (dec x k) (suc n) n) e

  pub occurs-minus_self : (k : K) (xs : List K) → occurs k (minus dec k xs) ≡ occurs k xs - 1
  occurs-minus_self k [] = omega (arith, ap (occurs k) (minus_nil k), occurs_nil k)
  occurs-minus_self k (x ∷ xs) = elim (dec x k) [
    | yes e ↦ omega (arith, ap (occurs k) (minus_hit k x xs e), occurs_hit k x xs e)
    | no n ↦ omega (
      arith,
      ap (occurs k) (minus_skip k x xs n),
      occurs_skip k x xs n,
      occurs_skip k x (minus dec k xs) n,
      occurs-minus_self k xs,
    )
  ]

  pub occurs-minus_ne : (k j : K) (xs : List K) → k ≢ j → occurs j (minus dec k xs) ≡ occurs j xs
  occurs-minus_ne k j [] h = ap (occurs j) (minus_nil k)
  occurs-minus_ne k j (x ∷ xs) h = elim (dec x k) [
    | yes e ↦ ap (occurs j) (minus_hit k x xs e) ∙ sym (occurs_skip j x xs (λ p. h (sym e ∙ p)))
    | no n ↦ ap (occurs j) (minus_skip k x xs n) ∙ occurs_cons j x _ _ (occurs-minus_ne k j xs h)
  ]

  pub occurs-append : (k : K) (xs ys : List K) → occurs k (xs ++ ys) ≡ occurs k xs + occurs k ys
  unfolding occurs
  occurs-append k [] ys = omega arith
  occurs-append k (x ∷ xs) ys = ground (arith, occurs-append k xs ys)

  pub occurs-one_self : (k : K) → occurs k (k ∷ []) ≡ 1
  unfolding occurs
  occurs-one_self k = ground arith

  pub occurs-one_ne : (k j : K) → k ≢ j → occurs j (k ∷ []) ≡ 0
  unfolding occurs
  occurs-one_ne k j h = ground arith

  pub length-minus :
      (k : K) (xs : List K) → 1 ≤ occurs k xs → suc (length (minus dec k xs)) ≡ length xs
  length-minus k [] h = omega (arith, occurs_nil k, h)
  length-minus k (x ∷ xs) h = elim (dec x k) [
    | yes e ↦ omega (arith, ap length (minus_hit k x xs e))
    | no n ↦ omega (
      arith,
      ap length (minus_skip k x xs n),
      occurs_skip k x xs n,
      length-minus k xs (subst (λ i. 1 ≤ i) (occurs_skip k x xs n) h),
    )
  ]

  pub has-cases :
      (k : K) (xs : List K)
      → (has dec k xs ≡ true) × (1 ≤ occurs k xs) ⊎ (has dec k xs ≡ false) × (occurs k xs ≡ 0)
  unfolding occurs has
  has-cases k [] = inr (refl, refl)
  has-cases k (x ∷ xs) = ground (arith, has-cases k xs)

module _ {ℓ} {K V : Type ℓ} where
  pub length-keys : (m : List (K × V)) → length (keys m) ≡ length m
  length-keys [] = refl
  length-keys (e ∷ m) = ap suc (length-keys m)

module _ {ℓ} {K V : Type ℓ} (dec : Discrete K) where
  pub keys-remove : (k : K) (m : List (K × V)) → keys (remove dec k m) ≡ minus dec k (keys m)
  unfolding minus remove
  keys-remove k [] = refl
  keys-remove k (e ∷ m) = ground (arith, keys-remove k m)

  plus_hit :
      (k : K) (v : V) (e : K × V) (m : List (K × V)) → e.0 ≡ k → plus dec k v (e ∷ m) ≡ (k, v) ∷ m
  unfolding plus
  plus_hit k v e m p = if_pos (dec e.0 k) p _ _

  plus_skip :
      (k : K) (v : V) (e : K × V) (m : List (K × V))
      → e.0 ≢ k
      → plus dec k v (e ∷ m) ≡ e ∷ plus dec k v m
  unfolding plus
  plus_skip k v e m n = if_neg (dec e.0 k) n _ _

  pub keys-plus :
      (k : K) (v : V) (m : List (K × V))
      → keys (plus dec k v m) ≡ (if has dec k (keys m) then keys m else keys m ++ k ∷ [])
  unfolding has plus
  keys-plus k v [] = refl
  keys-plus k v (e ∷ m) = elim (dec e.0 k) [
    | yes p ↦
        ap keys (plus_hit k v e m p)
        ∙ ap (λ x. x ∷ keys m) (sym p)
        ∙ ap (λ b. if b then keys (e ∷ m) else keys (e ∷ m) ++ k ∷ [])
            (sym (if_pos (dec e.0 k) p _ _))
    | no n ↦
        ap keys (plus_skip k v e m n)
        ∙ ap (◌∷◌ e.0) (keys-plus k v m)
        ∙ if_apply (◌∷◌ e.0) (has dec k (keys m)) (keys m) (keys m ++ k ∷ [])
        ∙ ap (λ b. if b then keys (e ∷ m) else keys (e ∷ m) ++ k ∷ [])
            (sym (if_neg (dec e.0 k) n _ _))
  ]
