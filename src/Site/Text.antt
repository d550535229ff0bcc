-- ===== src/Site/Text.antt =====
-- JavaScript strings as lists of code units, with the operations that the scripts of the pages use.
use mathlib.Core.Logic.{ite}
use arrow_resilience_kit.Base.{
  ℕ, Bool, true, false, Option, none, some, List, [], ◌∷◌, ◌++◌, ◌==◌, has, ℕ_discrete,
}

abbrev pub Text : Type 0
Text = List ℕ

unfoldable pub text_discrete : Discrete Text
unfolding ℕ_discrete
text_discrete = hlevel ℕ_discrete

abbrev pub comma : ℕ
comma = b','

abbrev pub slash : ℕ
slash = b'/'

abbrev pub hash : ℕ
hash = b'#'

-- `s.split(c)`
abbrev pub split_at : Bool → ℕ → List Text → List Text
split_at true x words = [] ∷ words
split_at false x [] = (x ∷ []) ∷ []
split_at false x (word ∷ words) = (x ∷ word) ∷ words

unfoldable pub split : ℕ → Text → List Text
split c [] = [] ∷ []
split c (x ∷ s) = split_at (x == c) x (split c s)

-- `words.join(c)`
unfoldable pub join : ℕ → List Text → Text
join c [] = []
join c (word ∷ []) = word
join c (word ∷ word' ∷ words) = word ++ c ∷ join c (word' ∷ words)

abbrev pub in_list : Text → List Text → Bool
in_list = has text_discrete

-- `==` on attributes: two missing ones are equal.
unfoldable pub same_attribute : Option Text → Option Text → Bool
same_attribute none none = true
same_attribute (some a) (some b) = ite (text_discrete a b) true false
same_attribute _ _ = false
