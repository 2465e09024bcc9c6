-- ===== src/ExtendedCss/Step/Args.antt =====
-- The arguments of the pseudo-classes that match texts: extendedPseudoClasses/contains.ts,
-- matchesPath.ts, matchesAttr.ts and matchesCSS.ts.
use zen_desktop_localcdn.Common.{
  ℕ, ◌+◌, ◌&&◌, ◌||◌, List, [], ◌∷◌, map, Option, none, some, ◌==◌, ltb, if◌then◌else◌, Text,
  is_empty, length, take, drop, slice, split, trim, includes, index_of, Result, ok, throw,
  invalid_syntax, missing_colon, empty_property_or_value,
}
use zen_desktop_localcdn.Regexp.{RegExp, Regexps, parse_regexp_literal, parse_wildcard_pattern}

-- A field that holds a `RegExp`, or else the text itself.
pub data Matcher : Type 0 where
  pattern_of : RegExp → Matcher
  exactly : Text → Matcher

abbrev matcher_or : Text → Option RegExp → Matcher
matcher_or s none = exactly s
matcher_or s (some re) = pattern_of re

-- The constructors of `Contains` and `MatchesPath`.
unfoldable pub matcher_of_literal : Regexps → Text → Matcher
unfolding parse_regexp_literal
matcher_of_literal rx s = matcher_or s (parse_regexp_literal rx s)

-- A literal, or a wildcard pattern if a `*` occurs, or the text itself.
unfoldable pub css_value : Regexps → Text → Matcher
unfolding parse_regexp_literal parse_wildcard_pattern includes
css_value rx s = elim (parse_regexp_literal rx s) [
  | some re ↦ pattern_of re
  | none ↦ if includes s (b'*' ∷ []) then matcher_or s (parse_wildcard_pattern rx s) else exactly s
]

pub record CssArgs : Type 0 where
  pub pseudo_element : Option Text
  pub property : Text
  pub value : Text

-- From the part with the colon on.
abbrev css_declaration : Option Text → Text → Option ℕ → Result CssArgs
css_declaration pseudo s none = throw missing_colon
css_declaration pseudo s (some i) =
    let property = trim (take i s) in
    let value = trim (drop (i + 1) s) in
    if is_empty property || is_empty value
    then throw empty_property_or_value
    else ok (record { pseudo_element = pseudo; property = property; value = value })

-- Two parts are a pseudo-element and a declaration; of any other number the first is taken.
abbrev css_parts : List Text → Result CssArgs
css_parts [] = css_declaration none [] (index_of [] b':')
css_parts (p ∷ q ∷ []) = css_declaration (some p) q (index_of q b':')
css_parts (p ∷ rest) = css_declaration none p (index_of p b':')

-- `MatchesCSS.parseArgs`
unfoldable pub parse_css_args : Text → Result CssArgs
unfolding split trim index_of
parse_css_args args = css_parts (map trim (split args b','))

abbrev last_unit : ℕ → Text → ℕ
last_unit c [] = c
last_unit c (d ∷ s) = last_unit d s

-- `trimmed.slice(1, -1)` behind the tests that there are quotes at both ends.
abbrev unquote : Text → Text
unquote [] = []
unquote (c ∷ s) =
    if ltb 2 (length (c ∷ s)) && c == last_unit c s && (c == b'"' || c == b'\'')
    then slice (c ∷ s) 1 (length s)
    else c ∷ s

-- `MatchesAttr.parseMatcher`
unfoldable pub parse_matcher : Regexps → Text → Matcher
unfolding css_value slice
parse_matcher rx matcher = css_value rx (unquote matcher)

pub record AttrArgs : Type 0 where
  pub name : Matcher
  pub value : Option Matcher

abbrev attr_parts : Regexps → List Text → AttrArgs
attr_parts rx [] = record { name = exactly []; value = none }
attr_parts rx (n ∷ []) = record { name = parse_matcher rx n; value = none }
attr_parts rx (n ∷ v ∷ rest) = record {
  name = parse_matcher rx n;
  value = some (parse_matcher rx v);
}

-- `MatchesAttr.parseArg`, with the constructor's test in front. `split` returns a part at least.
unfoldable pub parse_attr_args : Regexps → Text → Result AttrArgs
unfolding split parse_matcher
parse_attr_args rx arg =
    if is_empty arg then throw invalid_syntax else ok (attr_parts rx (split arg b'='))
