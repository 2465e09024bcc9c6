-- ===== src/ExtendedCss/Rules/Parsed.antt =====
-- When a rule is a style rule, and of what.

use zen_desktop_localcdn.Common.{
  ℕ, false, List, [], Option, none, some, Text, ◌≡◌, ap, ◌∙◌, Result, ok, throw, ◌>>=◌, bind-eq-ok,
}
use zen_desktop_localcdn.ExtendedCss.Ast.{CssNode, node, Nodes, nil, cons, NodeKind}
use zen_desktop_localcdn.ExtendedCss.Env.{Env}
use zen_desktop_localcdn.ExtendedCss.Step.{SelectorList}
use zen_desktop_localcdn.ExtendedCss.Plan.{NewExt}
use zen_desktop_localcdn.ExtendedCss.Parse.{parse_ast_selector_list}
use zen_desktop_localcdn.ExtendedCss.Rules.{
  Declaration, ParsedRule, hide_rule, style_rule, map_found, extract_nodes,
  extract_style_declarations, extract_single, styled_rule, parse_declarations, parse,
}
use zen_desktop_localcdn.ExtendedCss.Rules.Style.{
  has_style, Takes, extract_nodes-Takes, extract_nodes-none_iff, map_found-cases, map_found-none,
}

-- The rule has one selector; its first `:style()` holds the declarations, and without it the selector
-- is parsed.
pub record IsStyleRule (env : Env) (new : NewExt) (rule : Text) (list : SelectorList)
    (ds : List Declaration) : Type 0 where
  pub kind : NodeKind
  pub name : Text
  pub start : ℕ
  pub end : ℕ
  pub only_kind : NodeKind
  pub only_name : Text
  pub only_start : ℕ
  pub only_end : ℕ
  pub children : Nodes
  pub left : Nodes
  pub style : Text
  pub parsed :
      env.parse_css rule
      ≡ ok (
          node kind name start end
            (cons (node only_kind only_name only_start only_end children) nil))
  pub taken : Takes env children style left
  pub declared : parse_declarations env style ≡ ok ds
  pub selected :
      parse_ast_selector_list env new
        (node kind name start end (cons (node only_kind only_name only_start only_end left) nil))
        rule
      ≡ ok list

abbrev selectors_of : ParsedRule → SelectorList
selectors_of (hide_rule list) = list
selectors_of (style_rule list ds) = list

abbrev declarations : ParsedRule → List Declaration
declarations (hide_rule list) = []
declarations (style_rule list ds) = ds

abbrev rule_or : Result ParsedRule → ParsedRule
rule_or (ok r) = r
rule_or (throw e) = hide_rule SelectorList.end

extract_single-cases :
    (env : Env) (new : NewExt) (rule : Text) (ast : CssNode) {list : SelectorList}
    {ds : List Declaration} (o : Option (Text × CssNode))
    → env.parse_css rule ≡ ok ast
    → extract_single env ast ≡ ok o
    → styled_rule env new rule ast o ≡ ok (style_rule list ds)
    → IsStyleRule env new rule list ds
unfolding extract_style_declarations extract_nodes
extract_single-cases env new rule ast none p e h =
    let (l, q, k) = bind-eq-ok (parse_ast_selector_list env new ast rule) _ h in cc
extract_single-cases env new rule (node kind name start end nil) (some (style, rest)) p e h = cc
extract_single-cases env new rule (node kind name start end (cons a (cons b ns)))
      (some (style, rest)) p e h =
    cc
extract_single-cases env new rule (node kind name start end (cons (node k n s t children) nil))
      (some (style, rest)) p e h =
    let (a, found, same) =
      map_found-cases (λ c. node kind name start end (cons c nil))
        (extract_style_declarations env (node k n s t children)) e in
    let (c, below, same') = map_found-cases (node k n s t) (extract_nodes env children) found in
    let (ds', d, h') = bind-eq-ok (parse_declarations env style) _ h in
    let (list', l, h'') = bind-eq-ok (parse_ast_selector_list env new rest rule) _ h' in
    record {
      kind = kind;
      name = name;
      start = start;
      end = end;
      only_kind = k;
      only_name = n;
      only_start = s;
      only_end = t;
      children = children;
      left = c;
      style = style;
      parsed = p;
      taken = extract_nodes-Takes env children below;
      declared = d ∙ ap (λ r. ok (declarations (rule_or r))) h'';
      selected =
          ap (λ x. parse_ast_selector_list env new (node kind name start end (cons x nil)) rule)
            same'
          ∙ ap (λ x. parse_ast_selector_list env new x rule) same
          ∙ l
          ∙ ap (λ r. ok (selectors_of (rule_or r))) h'';
    }

-- A rule that parses to a style rule is one whose only selector holds a `:style()`: its declarations
-- are those of the first `:style()`, and its selectors those of the rule without it.
pub parse-IsStyleRule :
    (env : Env) (new : NewExt) (rule : Text) {list : SelectorList} {ds : List Declaration}
    → parse env new rule ≡ ok (style_rule list ds)
    → IsStyleRule env new rule list ds
unfolding parse
parse-IsStyleRule env new rule h =
    let (ast, p, h') = bind-eq-ok (env.parse_css rule) _ h in
    let (o, e, h'') = bind-eq-ok (extract_single env ast) _ h' in
    extract_single-cases env new rule ast o p e h''

nothing_found :
    (env : Env) (k : NodeKind) (n : Text) (s t : ℕ) (children : Nodes)
    → extract_nodes env children ≡ ok none
    → extract_style_declarations env (node k n s t children) ≡ ok none
unfolding extract_style_declarations extract_nodes
nothing_found env k n s t children h =
    (map_found-none (node k n s t) (extract_nodes env children)).1 h

-- A rule whose only selector holds no `:style()` hides what its selectors find.
parse-hide_rule :
    (env : Env) (new : NewExt) (rule : Text) (kind : NodeKind) (name : Text) (start end : ℕ)
    (k : NodeKind) (n : Text) (s t : ℕ) (children : Nodes)
    → env.parse_css rule ≡ ok (node kind name start end (cons (node k n s t children) nil))
    → has_style children ≡ false
    → parse env new rule ≡ (
        parse_ast_selector_list env new
          (node kind name start end (cons (node k n s t children) nil))
          rule
        >>= λ list. ok (hide_rule list))
unfolding parse
parse-hide_rule env new rule kind name start end k n s t children p absent =
    let nothing = (extract_nodes-none_iff env children).1 absent in
    ap (λ r. r >>= λ ast. extract_single env ast >>= styled_rule env new rule ast) p
    ∙ ap
        (λ r.
          map_found (λ c. node kind name start end (cons c nil)) r
          >>= styled_rule env new rule
              (node kind name start end (cons (node k n s t children) nil)))
        (nothing_found env k n s t children nothing)
