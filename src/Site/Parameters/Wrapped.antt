-- ===== src/Site/Parameters/Wrapped.antt =====
-- symbol-parameters-wrapper_deferred.js, lines 17-51: what was wrapped before does not matter.
use arrow_resilience_kit.Base.{
  ◌≡◌, refl, ap, ◌∙◌, Bool, true, false, Option, none, some, List, [], ◌∷◌, if◌then◌else◌, if_elim,
  keep,
}
use arrow_resilience_kit.Site.Parameters.{
  Piece, nbsp_indent, other, Node, Symbol, Layout, is_other, remove_indents, prepend_indents, reset,
  wrap, is_too_wide, wrap_again, wrap_node, wrap_symbol_parameters, observe,
}

keep-again : (p : List Piece) → keep is_other (keep is_other p) ≡ keep is_other p
keep-again [] = refl
keep-again (nbsp_indent ∷ p) = keep-again p
keep-again (other n ∷ p) = ap (◌∷◌ (other n)) (keep-again p)

remove_again : (ps : List (List Piece)) → remove_indents (remove_indents ps) ≡ remove_indents ps
unfolding remove_indents
remove_again [] = refl
remove_again (p ∷ ps) = λ i. keep-again p i ∷ remove_again ps i

remove-prepend : (ps : List (List Piece)) → remove_indents (prepend_indents ps) ≡ remove_indents ps
unfolding remove_indents prepend_indents
remove-prepend [] = refl
remove-prepend (p ∷ ps) = ap (◌∷◌ (keep is_other p)) (remove-prepend ps)

reset-reset : (node : Node) → reset (reset node) ≡ reset node
unfolding reset
reset-reset node =
    ap (λ ps. record { wrapped = false; parameters = ps }) (remove_again node.parameters)

reset-wrap : (node : Node) → reset (wrap (reset node)) ≡ reset node
unfolding reset wrap
reset-wrap node =
    ap (λ ps. record { wrapped = false; parameters = ps })
      (remove-prepend (remove_indents node.parameters) ∙ remove_again node.parameters)

module _ {W : Type 0} (l : Layout W) where
  wrap_again-again :
      (w v : W) (s : Symbol) (node : Node)
      → wrap_node l w (wrap_again l v s (reset node)) (wrap_again l v s (reset node)).node
        ≡ wrap_again l w s (reset node)
  unfolding wrap_again
  wrap_again-again w v s node =
      if_elim (λ t. wrap_node l w t t.node ≡ wrap_again l w s (reset node))
        (is_too_wide l v (record s { node = some (reset node) })) _ _
        (λ _. ap (wrap_again l w s) (reset-wrap node))
        (λ _. ap (wrap_again l w s) (reset-reset node))

  wrap_node-again :
      (w v : W) (s : Symbol) (node : Option Node)
      → s.node ≡ node
      → wrap_node l w (wrap_node l v s node) (wrap_node l v s node).node ≡ wrap_node l w s node
  wrap_node-again w v s none h = ap (wrap_node l w s) h
  wrap_node-again w v s (some node) h = wrap_again-again w v s node

  -- The last notification with a positive width, or none.
  unfoldable pub last_positive : List (Option W) → Option W → Option W
  last_positive [] last = last
  last_positive (none ∷ entries) last = last_positive entries last
  last_positive (some w ∷ entries) last =
      last_positive entries (if l.is_greater w l.zero_width then some w else last)

  -- A symbol after one notification with this width.
  abbrev pub settle : Option W → Symbol → Symbol
  settle none s = s
  settle (some w) s = wrap_node l w s s.node

  settle-again :
      (w : W) (last : Option W) (s : Symbol) → settle (some w) (settle last s) ≡ settle (some w) s
  settle-again w none s = refl
  settle-again w (some v) s = wrap_node-again w v s s.node refl

  settle_if :
      (positive : Bool) (w : W) (last : Option W) (s : Symbol)
      → (if positive then settle (some w) (settle last s) else settle last s)
        ≡ settle (if positive then some w else last) s
  settle_if true w last s = settle-again w last s
  settle_if false w last s = refl

  observe-settle :
      (entries : List (Option W)) (last : Option W) (s : Symbol)
      → observe l entries (settle last s) ≡ settle (last_positive entries last) s
  unfolding observe wrap_symbol_parameters last_positive
  observe-settle [] last s = refl
  observe-settle (none ∷ entries) last s = observe-settle entries last s
  observe-settle (some w ∷ entries) last s =
      ap (observe l entries) (settle_if (l.is_greater w l.zero_width) w last s)
      ∙ observe-settle entries (if l.is_greater w l.zero_width then some w else last) s

  -- Whatever the layout of the browser, after any notifications of a symbol it is as if only the
  -- last one with a positive width had come: indents do not add up, and a symbol that was wrapped
  -- is measured without its indents. With no such notification it is unchanged.
  pub observe-last :
      (entries : List (Option W)) (s : Symbol)
      → observe l entries s ≡ settle (last_positive entries none) s
  observe-last entries s = observe-settle entries none s
