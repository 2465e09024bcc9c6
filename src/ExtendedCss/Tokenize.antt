-- ===== src/ExtendedCss/Tokenize.antt =====
-- jslibs/extended-css/src/parse/selectorList/tokenize.ts: from the syntax tree of a selector to the
-- tokens of the planner.
pub mod Trimmed
pub mod Separated
use zen_desktop_localcdn.Common.{
  Bool, true, false, ◌&&◌, List, [], ◌∷◌, ◌++◌, Option, none, some, if◌then◌else◌, Text, is_empty,
  codes, text_eq, trim, to_lower_case, Result, ok, throw, ◌>>=◌, missing_argument, unexpected_node,
}
use zen_desktop_localcdn.ExtendedCss.Ast.{
  selector, id_selector, class_selector, type_selector, attribute_selector, combinator,
  pseudo_class_selector, CssNode, node, Nodes, nil, cons, first, get_literal,
}
use zen_desktop_localcdn.ExtendedCss.PseudoClass.{in_ext}
use zen_desktop_localcdn.ExtendedCss.Env.{Env}

pub data IrToken : Type 0 where
  raw_token : Text → IrToken
  comb_token : Text → IrToken
  ext_token : Text → Text → IrToken

unfoldable pub get_native_support : Env → Text → Bool
unfolding text_eq
get_native_support env name =
    if text_eq name (codes "has")
    then env.supports_has
    else if text_eq name (codes "is")
    then env.supports_is
    else if text_eq name (codes "not")
    then env.supports_not
    else false

-- The walk below a pseudo-class. `visit` is the callback at one descendant: true unless it breaks
-- off. A nested extended pseudo-class that is supported natively is searched by a call of its own,
-- and then once more by the walk.
unfoldable mutual
  unfolding in_ext get_native_support to_lower_case

  pub visit : Env → CssNode → Bool
  visit env (node pseudo_class_selector name start end children) =
      let below = standard_nodes env children in
      (if in_ext (to_lower_case name)
        then get_native_support env (to_lower_case name) && below
        else true)
      && below
  visit env (node kind name start end children) = standard_nodes env children

  pub standard_nodes : Env → Nodes → Bool
  standard_nodes env nil = true
  standard_nodes env (cons n ns) = visit env n && standard_nodes env ns

unfoldable pub has_only_standard_args : Env → CssNode → Bool
unfolding visit
has_only_standard_args env (node kind name start end children) = standard_nodes env children

-- The variables of `parseTokens`.
pub record Tokens : Type 0 where
  pub out : List IrToken
  pub css_buf : Text

unfoldable pub flush_raw : Tokens → Tokens
unfolding trim
flush_raw st =
    let t = trim st.css_buf in
    record { out = if is_empty t then st.out else st.out ++ (raw_token t ∷ []); css_buf = [] }

abbrev pub push_token : Tokens → IrToken → Tokens
push_token st t = record st { out = st.out ++ (t ∷ []) }

abbrev pub buffer : Tokens → Text → Tokens
buffer st lit = record st { css_buf = st.css_buf ++ lit }

abbrev pub push_ext : Text → Option CssNode → Text → Tokens → Result Tokens
push_ext name none raw_text st = throw missing_argument
push_ext name (some arg) raw_text st =
    ok (push_token st (ext_token name (get_literal arg raw_text)))

-- The case of a pseudo-class.
unfoldable pub enter_pseudo_class : Env → Text → CssNode → Tokens → Result Tokens
unfolding in_ext get_native_support has_only_standard_args flush_raw get_literal to_lower_case
enter_pseudo_class env raw_text (node kind given start end children) st =
    let self = node kind given start end children in
    let name = to_lower_case given in
    if in_ext name
    then (if get_native_support env name && has_only_standard_args env self
        then ok (buffer st (get_literal self raw_text))
        else push_ext name (first children) raw_text (flush_raw st))
    else ok (buffer st (get_literal self raw_text))

-- The callback of `parseTokens`, with whether the walk goes on into the children.
unfoldable pub enter : Env → Text → CssNode → Tokens → Result (Tokens × Bool)
unfolding enter_pseudo_class flush_raw get_literal
enter env raw_text (node selector name start end children) st = ok (st, true)
enter env raw_text (node id_selector name start end children) st =
    ok (buffer st (get_literal (node id_selector name start end children) raw_text), true)
enter env raw_text (node class_selector name start end children) st =
    ok (buffer st (get_literal (node class_selector name start end children) raw_text), true)
enter env raw_text (node type_selector name start end children) st =
    ok (buffer st (get_literal (node type_selector name start end children) raw_text), true)
enter env raw_text (node attribute_selector name start end children) st =
    ok (buffer st (get_literal (node attribute_selector name start end children) raw_text), false)
enter env raw_text (node combinator name start end children) st =
    ok (push_token (flush_raw st) (comb_token name), true)
enter env raw_text (node pseudo_class_selector name start end children) st =
    enter_pseudo_class env raw_text (node pseudo_class_selector name start end children) st
    >>= λ st'. ok (st', false)
enter env raw_text (node _ name start end children) st = throw unexpected_node

abbrev pub descend : Bool → (Tokens → Result Tokens) → Tokens → Result Tokens
descend true below st = below st
descend false below st = ok st

-- `CSSTree.walk(ast, callback)`
unfoldable mutual
  unfolding enter

  pub walk : Env → Text → CssNode → Tokens → Result Tokens
  walk env raw_text (node kind name start end children) st =
      enter env raw_text (node kind name start end children) st >>= λ (st', deeper).
      descend deeper (walk_nodes env raw_text children) st'

  pub walk_nodes : Env → Text → Nodes → Tokens → Result Tokens
  walk_nodes env raw_text nil st = ok st
  walk_nodes env raw_text (cons n ns) st =
      walk env raw_text n st >>= λ st'. walk_nodes env raw_text ns st'

unfoldable pub parse_tokens : Env → Text → CssNode → Result (List IrToken)
unfolding walk flush_raw
parse_tokens env raw_text ast =
    walk env raw_text ast (record { out = []; css_buf = [] }) >>= λ st. ok (flush_raw st).out

abbrev tokens_of :
    Env → Text → CssNode → Result (List (List IrToken)) → Result (List (List IrToken))
tokens_of env raw_text (node selector name start end children) rest =
    parse_tokens env raw_text (node selector name start end children) >>= λ ts.
    rest >>= λ tss. ok (ts ∷ tss)
tokens_of env raw_text (node _ name start end children) rest = rest

tokenize_nodes : Env → Nodes → Text → Result (List (List IrToken))
unfolding parse_tokens
tokenize_nodes env nil raw_text = ok []
tokenize_nodes env (cons n ns) raw_text = tokens_of env raw_text n (tokenize_nodes env ns raw_text)

unfoldable pub tokenize : Env → CssNode → Text → Result (List (List IrToken))
unfolding tokenize_nodes
tokenize env (node kind name start end children) raw_text = tokenize_nodes env children raw_text
