-- ===== src/Site/Parameters.antt =====
-- symbol-parameters-wrapper_deferred.js: the parameters of a signature stand on lines of their own
-- when the signature is too wide. The numbers of the browser and its layout are parameters: `width`
-- is the width of a child of a symbol, by its position, when the symbol is as given.
mod Tests
pub mod Wrapped
use arrow_resilience_kit.Base.{
  ℕ, zero, suc, Bool, true, false, not, Option, none, some, List, [], ◌∷◌, map, if◌then◌else◌, keep,
}

-- What is inside a parameter: an indent, or something else.
pub data Piece : Type 0 where
  nbsp_indent : Piece
  other : ℕ → Piece

-- The element of the class `parameters`, with its elements of the class `parameter`.
pub record Node : Type 0 where
  pub wrapped : Bool
  pub parameters : List (List Piece)

-- A symbol, with whether each of its children has the class `block`, and its node, if it has one.
pub record Symbol : Type 0 where
  pub blocks : List Bool
  pub node : Option Node

pub record Layout (W : Type 0) : Type 0 where
  pub zero_width : W
  pub plus : W → W → W
  pub minus : W → W → W
  pub is_greater : W → W → Bool
  pub left_padding_px : W
  pub width : Symbol → ℕ → W

abbrev pub is_other : Piece → Bool
is_other nbsp_indent = false
is_other (other _) = true

unfoldable pub remove_indents : List (List Piece) → List (List Piece)
remove_indents [] = []
remove_indents (p ∷ ps) = keep is_other p ∷ remove_indents ps

unfoldable pub prepend_indents : List (List Piece) → List (List Piece)
prepend_indents [] = []
prepend_indents (p ∷ ps) = (nbsp_indent ∷ p) ∷ prepend_indents ps

unfoldable pub reset : Node → Node
unfolding remove_indents
reset node = record { wrapped = false; parameters = remove_indents node.parameters }

unfoldable pub wrap : Node → Node
unfolding prepend_indents
wrap node = record { wrapped = true; parameters = prepend_indents node.parameters }

-- The widths of the children from the position `i` on that are no blocks, added to `total`.
unfoldable pub add_widths : {W : Type 0} → Layout W → Symbol → List Bool → ℕ → W → W
add_widths l symbol [] i total = total
add_widths l symbol (block ∷ blocks) i total =
    add_widths l symbol blocks (suc i) (if block then total else l.plus total (l.width symbol i))

unfoldable pub inner_text_width : {W : Type 0} → Layout W → Symbol → W
unfolding add_widths
inner_text_width l symbol = add_widths l symbol symbol.blocks zero l.zero_width

unfoldable pub is_too_wide : {W : Type 0} → Layout W → W → Symbol → Bool
unfolding inner_text_width
is_too_wide l block_width symbol =
    l.is_greater (inner_text_width l symbol) (l.minus block_width l.left_padding_px)

-- A symbol whose node is `node`, already reset, wrapped when it is too wide.
unfoldable pub wrap_again : {W : Type 0} → Layout W → W → Symbol → Node → Symbol
unfolding is_too_wide wrap
wrap_again l block_width symbol node =
    let measured = record symbol { node = some node } in
    if is_too_wide l block_width measured
    then record symbol { node = some (wrap node) }
    else measured

abbrev pub wrap_node : {W : Type 0} → Layout W → W → Symbol → Option Node → Symbol
wrap_node l block_width symbol none = symbol
wrap_node l block_width symbol (some node) = wrap_again l block_width symbol (reset node)

-- A notification of the observer, with `symbolBlockWidth`, or none when the entry has no size.
unfoldable pub wrap_symbol_parameters : {W : Type 0} → Layout W → Option W → Symbol → Symbol
unfolding wrap_again reset
wrap_symbol_parameters l none symbol = symbol
wrap_symbol_parameters l (some block_width) symbol =
    if l.is_greater block_width l.zero_width
    then wrap_node l block_width symbol symbol.node
    else symbol

-- The notifications of one symbol, one after the other.
unfoldable pub observe : {W : Type 0} → Layout W → List (Option W) → Symbol → Symbol
unfolding wrap_symbol_parameters
observe l [] symbol = symbol
observe l (entry ∷ entries) symbol = observe l entries (wrap_symbol_parameters l entry symbol)
