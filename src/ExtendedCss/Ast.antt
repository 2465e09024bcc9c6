-- ===== src/ExtendedCss/Ast.antt =====
-- The syntax trees that `CSSTree.parse` returns, as far as the tokenizer looks at them, and
-- jslibs/extended-css/src/parse/utils/getLiteral.ts.
use zen_desktop_localcdn.Common.{ℕ, Bool, Option, none, some, Text, slice}

pub data NodeKind : Type 0 where
  selector_list selector : NodeKind
  id_selector class_selector type_selector attribute_selector : NodeKind
  combinator pseudo_class_selector raw : NodeKind
  -- any other type, such as `PseudoElementSelector` or `Identifier`
  other : NodeKind

-- A node has its type, its `name` (empty where the type has none), `loc.start.offset`,
-- `loc.end.offset` and its children (none where `children` is null).
mutual
  pub data CssNode : Type 0 where
    node : NodeKind → Text → ℕ → ℕ → Nodes → CssNode

  pub data Nodes : Type 0 where
    nil : Nodes
    cons : CssNode → Nodes → Nodes

abbrev pub kind_of : CssNode → NodeKind
kind_of (node kind name start end children) = kind

abbrev pub children_of : CssNode → Nodes
children_of (node kind name start end children) = children

-- A `Declaration` node: its property, its `important` (`none` if that is a text), and where its value
-- starts and ends.
pub record DeclarationNode : Type 0 where
  pub property : Text
  pub important : Option Bool
  pub value_start : ℕ
  pub value_end : ℕ

-- `children?.first`
abbrev pub first : Nodes → Option CssNode
first nil = none
first (cons n ns) = some n

unfoldable pub get_literal : CssNode → Text → Text
unfolding slice
get_literal (node kind name start end children) raw_text = slice raw_text start end
