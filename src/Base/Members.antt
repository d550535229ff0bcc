-- ===== src/Base/Members.antt =====
-- Membership of a list as a Boolean test, in lists that are joined or filtered.
use mathlib.Core.Path.{◌≡◌, refl, sym, ap, ◌∙◌}
use mathlib.Core.Logic.{◌≢◌, ite, if_pos, if_neg}
use mathlib.Core.Bool.{Bool, true, false, ◌&&◌, ◌||◌}
use mathlib.Core.List.{List, [], ◌∷◌, ◌++◌}
use native.Mathlib.Omega.{arith}
use arrow_resilience_kit.Base.Test.{if_elim}
use arrow_resilience_kit.Base.Seq.{keep}
use arrow_resilience_kit.Base.Assoc.{has}

module _ {ℓ} {K : Type ℓ} (dec : Discrete K) where
  has_hit : (k x : K) (xs : List K) → x ≡ k → has dec k (x ∷ xs) ≡ true
  unfolding has
  has_hit k x xs e = if_pos (dec x k) e _ _

  has_skip : (k x : K) (xs : List K) → x ≢ k → has dec k (x ∷ xs) ≡ has dec k xs
  unfolding has
  has_skip k x xs n = if_neg (dec x k) n _ _

  pub has-append : (k : K) (xs ys : List K) → has dec k (xs ++ ys) ≡ (has dec k xs || has dec k ys)
  unfolding has
  has-append k [] ys = refl
  has-append k (x ∷ xs) ys = ground (arith, has-append k xs ys)

  pub has-one : (k x : K) → has dec k (x ∷ []) ≡ ite (dec x k) true false
  unfolding has
  has-one k x = refl

  keep_nil : (p : K → Bool) (k : K) → has dec k [] ≡ (has dec k [] && p k)
  unfolding has
  keep_nil p k = refl

  keep_hit :
      (p : K → Bool) (k x : K) (xs : List K)
      → x ≡ k
      → has dec k (keep p xs) ≡ (has dec k xs && p k)
      → has dec k (keep p (x ∷ xs)) ≡ p k
  keep_hit p k x xs e ih =
      if_elim (λ r. has dec k r ≡ p k) (p x) _ _
        (λ h. has_hit k x (keep p xs) e ∙ sym (ap p (sym e) ∙ h))
        (λ h.
          ih
          ∙ ap (λ b. has dec k xs && b) (ap p (sym e) ∙ h)
          ∙ and_false (has dec k xs)
          ∙ sym (ap p (sym e) ∙ h))
    where
      and_false : (b : Bool) → (b && false) ≡ false
      and_false true = refl
      and_false false = refl

  keep_skip :
      (p : K → Bool) (k x : K) (xs : List K)
      → x ≢ k
      → has dec k (keep p (x ∷ xs)) ≡ has dec k (keep p xs)
  keep_skip p k x xs n =
      if_elim (λ r. has dec k r ≡ has dec k (keep p xs)) (p x) _ _ (λ _. has_skip k x (keep p xs) n)
        (λ _. refl)

  pub has-keep :
      (p : K → Bool) (k : K) (xs : List K) → has dec k (keep p xs) ≡ (has dec k xs && p k)
  has-keep p k [] = keep_nil p k
  has-keep p k (x ∷ xs) = elim (dec x k) [
    | yes e ↦ keep_hit p k x xs e (has-keep p k xs) ∙ sym (ap (λ b. b && p k) (has_hit k x xs e))
    | no n ↦ keep_skip p k x xs n ∙ has-keep p k xs ∙ sym (ap (λ b. b && p k) (has_skip k x xs n))
  ]
