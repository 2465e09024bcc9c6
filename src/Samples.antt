-- ===== src/Samples.antt =====
-- A small page and concrete runs on it. The page is `html > body > (div > span) + p`, with the div
-- of the class `ad`; its elements are numbered in document order from 0.
pub mod Literals
pub mod Planning
pub mod Matching
pub mod Classes
pub mod Rounds
pub mod Requests
pub mod Styles
pub mod Xhr
pub mod Windows
pub mod Timers
pub mod Pruned
pub mod Hooks
pub mod Tokens
pub mod Manifests
pub mod Lives
pub mod Traps
use zen_desktop_localcdn.Common.{
  leb, starts_with, ◌+◌, ◌&&◌, length, ℕ, Bool, true, false, List, [], ◌∷◌, Option, none, some,
  Text, codes, text_eq, includes, ◌==◌, if◌then◌else◌, Result, ok, throw, syntax_error,
  dom_exception, ◌≡◌, refl, arith, ◌<◌,
}
use zen_desktop_localcdn.Regexp.{RegExp, Regexps}
use zen_desktop_localcdn.ExtendedCss.Ast.{
  CssNode, node, nil, cons, selector_list, selector, type_selector, pseudo_class_selector, raw,
}
use zen_desktop_localcdn.ExtendedCss.Env.{Env, Element, IsTree}

-- Where a text first stands in another, from a position on: the index behind it.
abbrev end_of : Text → ℕ → ℕ → Text → Option ℕ
end_of p i here [] = if leb i here && starts_with [] p then some (here + length p) else none
end_of p i here (c ∷ s) =
    let later = end_of p i (here + 1) s in
    if leb i here && starts_with (c ∷ s) p then some (here + length p) else later

-- Expressions without special characters, as substrings.
abbrev pub plain_regexps : Regexps
plain_regexps = record {
  valid = λ re. true;
  test = λ re s. includes s re.source;
  find_end = λ re i s. end_of re.source i 0 s;
}

abbrev page_query : Element → Text → Result (List Element)
page_query e q =
    if text_eq q (codes "div")
    then ok (if e == 0 then 2 ∷ [] else [])
    else if text_eq q (codes "*")
    then ok (if e == 0 then 1 ∷ 2 ∷ 3 ∷ 4 ∷ [] else if e == 2 then 3 ∷ [] else [])
    else throw dom_exception

abbrev page_matches : Element → Text → Result Bool
page_matches e q =
    if text_eq q (codes "div")
    then ok (e == 2)
    else if text_eq q (codes "p")
    then ok (e == 4)
    else throw dom_exception

abbrev page_children : Element → List Element
page_children e =
    if e == 0 then 1 ∷ [] else if e == 1 then 2 ∷ 4 ∷ [] else if e == 2 then 3 ∷ [] else []

abbrev page_next : Element → Option Element
page_next e = if e == 2 then some 4 else none

abbrev page_parent : Element → Option Element
page_parent e =
    if e == 1
    then some 0
    else if e == 2
    then some 1
    else if e == 4
    then some 1
    else if e == 3
    then some 2
    else none

abbrev page_depth : Element → ℕ
page_depth e = if e == 0 then 0 else if e == 1 then 1 else if e == 3 then 3 else 2

-- `div:style(color:red)` and `div`; no other text parses.
abbrev sample_ast : Text → Result CssNode
sample_ast s =
    let div = node type_selector (codes "div") 0 3 nil in
    if text_eq s (codes "div:style(color:red)")
    then ok (
        node selector_list [] 0 20 (
          cons
            (node selector [] 0 20 (
              cons div (
                cons
                  (node pseudo_class_selector (codes "style") 3 20
                    (cons (node raw [] 10 19 nil) nil))
                  nil)))
            nil))
    else if text_eq s (codes "div")
    then ok (node selector_list [] 0 3 (cons (node selector [] 0 3 (cons div nil)) nil))
    else throw syntax_error

abbrev pub sample_env : Env
sample_env = record {
  regexps = plain_regexps;
  parse_css = sample_ast;
  raw_value = λ n. codes "color:red";
  parse_declaration_list = λ s. ok (
      record { property = codes "color"; important = some false; value_start = 6; value_end = 9 }
      ∷ []);
  supports_has = false;
  supports_is = true;
  supports_not = true;
  document_element = 0;
  pathname = codes "/news/today";
  query_selector_all = page_query;
  matches = page_matches;
  children = page_children;
  next_element_sibling = page_next;
  parent_element = page_parent;
  text_content = λ e. if e == 3 then some (codes "Buy now") else some (codes "News");
  attributes = λ e. if e == 2 then (codes "class", codes "ad") ∷ [] else [];
  computed_value = λ e pseudo prop. ok (codes "block");
  is_html_element = λ e. true;
  following = λ e. if e == 2 then 1 else 0;
  depth = page_depth;
}

pub sample_env-IsTree : IsTree sample_env
sample_env-IsTree = record {
  following-next = λ e s h. ground arith;
  depth-parent = λ e p h. ground arith;
}
