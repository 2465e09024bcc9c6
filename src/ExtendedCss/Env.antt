-- ===== src/ExtendedCss/Env.antt =====
-- What the engine takes from the page and from the libraries that it calls: the DOM, the parser
-- `CSSTree.parse`, `CSS.supports`, and regular expressions. Elements are numbers, equal exactly if
-- they are the same object.
use zen_desktop_localcdn.Common.{ℕ, Bool, List, Option, Text, Result, ◌≡◌, some, ◌<◌}
use zen_desktop_localcdn.Regexp.{Regexps}
use zen_desktop_localcdn.ExtendedCss.Ast.{CssNode, DeclarationNode}

abbrev pub Element : Type 0
Element = ℕ

pub record Env : Type 0 where
  pub regexps : Regexps
  -- `CSSTree.parse(raw, { context: 'selectorList', positions: true })`
  pub parse_css : Text → Result CssNode
  -- the `value` of a `Raw` node
  pub raw_value : CssNode → Text
  -- the `Declaration` nodes of `CSSTree.parse(decl, { context: 'declarationList' })`, as a walk that
  -- skips what is below them finds them
  pub parse_declaration_list : Text → Result (List DeclarationNode)
  -- `CSS.supports('selector(:has(*))')` and so on
  pub supports_has : Bool
  pub supports_is : Bool
  pub supports_not : Bool
  -- `document.documentElement`, `window.location.pathname`
  pub document_element : Element
  pub pathname : Text
  pub query_selector_all : Element → Text → Result (List Element)
  pub matches : Element → Text → Result Bool
  pub children : Element → List Element
  pub next_element_sibling : Element → Option Element
  pub parent_element : Element → Option Element
  pub text_content : Element → Option Text
  pub attributes : Element → List (Text × Text)
  -- `getComputedStyle(el, pseudo).getPropertyValue(property)`
  pub computed_value : Element → Option Text → Text → Result Text
  -- `el instanceof HTMLElement`
  pub is_html_element : Element → Bool
  -- how many element siblings follow, and how many ancestors there are: the fuel of two loops
  pub following : Element → ℕ
  pub depth : Element → ℕ

-- What makes these counts right: a DOM tree is finite.
pub record IsTree (env : Env) : Type 0 where
  pub following-next :
      (e s : Element) → env.next_element_sibling e ≡ some s → env.following s < env.following e
  pub depth-parent : (e p : Element) → env.parent_element e ≡ some p → env.depth p < env.depth e
