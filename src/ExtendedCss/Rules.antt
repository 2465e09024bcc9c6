-- ===== src/ExtendedCss/Rules.antt =====
-- jslibs/extended-css/src/parse/index.ts and declarations.ts: one rule, which hides what its selectors
-- find, or styles it if its only selector holds the pseudo-class `:style()`.
pub mod Style
pub mod Parsed
use zen_desktop_localcdn.Common.{
  ℕ, Bool, true, false, ◌&&◌, List, [], ◌∷◌, Option, none, some, if◌then◌else◌, Text, codes,
  text_eq, slice, Result, ok, throw, ◌>>=◌, style_without_argument, style_argument_not_raw,
  important_not_boolean,
}
use zen_desktop_localcdn.ExtendedCss.Ast.{
  CssNode, node, Nodes, nil, cons, NodeKind, pseudo_class_selector, raw, DeclarationNode, kind_of,
  first,
}
use zen_desktop_localcdn.ExtendedCss.Env.{Env}
use zen_desktop_localcdn.ExtendedCss.Step.{SelectorList}
use zen_desktop_localcdn.ExtendedCss.Plan.{NewExt}
use zen_desktop_localcdn.ExtendedCss.Parse.{parse_ast_selector_list}

-- `Declaration`
pub record Declaration : Type 0 where
  pub property : Text
  pub value : Text
  pub important : Bool

-- `Rule`: `HideRule | StyleRule`
pub data ParsedRule : Type 0 where
  hide_rule : SelectorList → ParsedRule
  style_rule : SelectorList → List Declaration → ParsedRule

abbrev is_pseudo_class : NodeKind → Bool
is_pseudo_class pseudo_class_selector = true
is_pseudo_class _ = false

abbrev pub is_style : NodeKind → Text → Bool
is_style kind name = is_pseudo_class kind && text_eq name (codes "style")

abbrev raw_text : Env → NodeKind → CssNode → Result Text
raw_text env raw arg = ok (env.raw_value arg)
raw_text env _ arg = throw style_argument_not_raw

-- The argument of `:style()`.
abbrev pub style_text : Env → Option CssNode → Result Text
style_text env none = throw style_without_argument
style_text env (some arg) = raw_text env (kind_of arg) arg

-- What the walk finds first, and what is left in its place.
abbrev pub Found : Type 0 → Type 0
Found A = Result (Option (Text × A))

abbrev pub map_found : {A B : Type 0} → (A → B) → Found A → Found B
map_found f (throw e) = throw e
map_found f (ok none) = ok none
map_found f (ok (some (style, a))) = ok (some (style, f a))

abbrev pub or_else : Found Nodes → Found Nodes → Found Nodes
or_else (throw e) later = throw e
or_else (ok none) later = later
or_else (ok (some found)) later = ok (some found)

-- The text of a `:style()` found, with the list behind it.
abbrev pub taken : Nodes → Result Text → Found Nodes
taken rest (throw e) = throw e
taken rest (ok style) = ok (some (style, rest))

-- The walk of `extractStyleDeclarations`, in document order, which removes the first `:style()` from
-- its list and stops.
unfoldable mutual
  unfolding text_eq

  pub extract_node : Env → CssNode → Found CssNode
  extract_node env (node kind name start end children) =
      map_found (node kind name start end) (extract_nodes env children)

  pub extract_nodes : Env → Nodes → Found Nodes
  extract_nodes env nil = ok none
  extract_nodes env (cons (node kind name start end children) rest) =
      let below = extract_nodes env children in
      let later = extract_nodes env rest in
      if is_style kind name
      then taken rest (style_text env (first children))
      else or_else (map_found (λ c. cons (node kind name start end c) rest) below)
          (map_found (cons (node kind name start end children)) later)

-- `extractStyleDeclarations` on a node that is no pseudo-class.
unfoldable pub extract_style_declarations : Env → CssNode → Found CssNode
unfolding extract_node
extract_style_declarations env ast = extract_node env ast

abbrev with_importance : Text → DeclarationNode → Option Bool → Result Declaration
with_importance decl n none = throw important_not_boolean
with_importance decl n (some b) =
    ok (record {
      property = n.property;
      value = slice decl n.value_start n.value_end;
      important = b;
    })

unfoldable pub declarations_of : Text → List DeclarationNode → Result (List Declaration)
unfolding slice
declarations_of decl [] = ok []
declarations_of decl (n ∷ ns) =
    with_importance decl n n.important >>= λ d. declarations_of decl ns >>= λ ds. ok (d ∷ ds)

unfoldable pub parse_declarations : Env → Text → Result (List Declaration)
unfolding declarations_of
parse_declarations env decl = env.parse_declaration_list decl >>= declarations_of decl

-- The `:style()` of the only selector is taken out of the list.
abbrev pub extract_single : Env → CssNode → Found CssNode
extract_single env (node kind name start end (cons only nil)) =
    map_found (λ n. node kind name start end (cons n nil)) (extract_style_declarations env only)
extract_single env ast = ok none

abbrev pub styled_rule : Env → NewExt → Text → CssNode → Option (Text × CssNode) → Result ParsedRule
styled_rule env new rule ast none =
    parse_ast_selector_list env new ast rule >>= λ list. ok (hide_rule list)
styled_rule env new rule ast (some (style, rest)) = parse_declarations env style >>= λ ds.
    parse_ast_selector_list env new rest rule >>= λ list. ok (style_rule list ds)

-- `parse`
unfoldable pub parse : Env → NewExt → Text → Result ParsedRule
unfolding extract_style_declarations parse_declarations parse_ast_selector_list
parse env new rule =
    env.parse_css rule >>= λ ast. extract_single env ast >>= styled_rule env new rule ast
