-- ===== src/Site/Parameters/Tests.antt =====
-- symbol-parameters-wrapper_deferred.js: notifications of a symbol in a layout where a piece is 1
-- wide, and an instance of the theorem on them.
use arrow_resilience_kit.Base.{
  ℕ, ltb, ◌+◌, ◌-◌, ◌≡◌, refl, true, false, Option, none, some, List, [], ◌∷◌, length,
}
use arrow_resilience_kit.Site.Parameters.{
  Piece, nbsp_indent, other, Node, Symbol, Layout, observe, wrap_symbol_parameters, wrap_again,
  is_too_wide, inner_text_width, add_widths, reset, wrap, remove_indents, prepend_indents,
}
use arrow_resilience_kit.Site.Parameters.Wrapped.{last_positive, settle, observe-last}

abbrev pieces : List (List Piece) → ℕ
pieces [] = 0
pieces (p ∷ ps) = length p + pieces ps

abbrev width_of : Option Node → ℕ
width_of none = 0
width_of (some node) = pieces node.parameters

abbrev layout : Layout ℕ
layout = record {
  zero_width = 0;
  plus = λ a b. a + b;
  minus = λ a b. a - b;
  is_greater = λ a b. ltb b a;
  left_padding_px = 1;
  width = λ s i. width_of s.node;
}

abbrev symbol : Symbol
symbol = record {
  blocks = true ∷ false ∷ [];
  node =
      some
        (record { wrapped = false; parameters = (other 5 ∷ other 6 ∷ []) ∷ (other 7 ∷ []) ∷ [] });
}

-- Narrow, hidden, without a size, and narrow again.
abbrev entries : List (Option ℕ)
entries = some 3 ∷ some 0 ∷ none ∷ some 2 ∷ []

wraps :
    (observe layout entries symbol).node
    ≡ some (record {
      wrapped = true;
      parameters = (nbsp_indent ∷ other 5 ∷ other 6 ∷ []) ∷ (nbsp_indent ∷ other 7 ∷ []) ∷ [];
    })
unfolding observe wrap_symbol_parameters wrap_again is_too_wide inner_text_width add_widths reset
    wrap remove_indents prepend_indents
wraps = refl

observe-last_example :
    observe layout entries symbol ≡ settle layout (last_positive layout entries none) symbol
observe-last_example = observe-last layout entries symbol
