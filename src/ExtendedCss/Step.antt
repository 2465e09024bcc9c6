-- ===== src/ExtendedCss/Step.antt =====
-- The steps of a planned selector, with the fields that their constructors set
-- (jslibs/extended-css/src/parse/types.ts, combinators/, extendedPseudoClasses/, selectorList/raw.ts),
-- and those constructors that parse no selector.
mod Args
use zen_desktop_localcdn.Common.{
  ℕ, Bool, true, false, ◌&&◌, ◌||◌, List, [], ◌∷◌, Option, none, some, ◌==◌, ltb, leb,
  if◌then◌else◌, Text, Result, ok, throw, ◌>>=◌, invalid_text_length, text_length_below_one,
  invalid_distance,
}
use zen_desktop_localcdn.Common.Ints.{ℤ, pos, negsuc, parse_int, parse_int_auto}
pub use Args.{Matcher, pattern_of, exactly, CssArgs, AttrArgs}
unfoldable pub use Args.{matcher_of_literal, parse_css_args, css_value, parse_attr_args}

-- A selector is a list of steps, and `has`, `is` and `not` hold an executor, which is a list of
-- selectors. `boxed_string` is what `new Object(args)` builds: no step at all, though it is pushed.
mutual
  pub data Step : Type 0 where
    raw_query raw_matches : Text → Step
    child descendant next_sibling subsequent_sibling : Step
    contains_text matches_path : Matcher → Step
    matches_css : CssArgs → Matcher → Step
    matches_attr : AttrArgs → Step
    min_text_length : ℕ → Step
    upward_distance : ℕ → Step
    upward_selector : Text → Step
    has is is_not : SelectorList → Step
    boxed_string : Text → Step

  pub data Selector : Type 0 where
    stop : Selector
    step : Step → Selector → Selector

  pub data SelectorList : Type 0 where
    end : SelectorList
    alt : Selector → SelectorList → SelectorList

abbrev pub selector_of : List Step → Selector
selector_of [] = stop
selector_of (s ∷ rest) = step s (selector_of rest)

abbrev pub selector_list_of : List (List Step) → SelectorList
selector_list_of [] = end
selector_list_of (s ∷ rest) = alt (selector_of s) (selector_list_of rest)

abbrev min_text_length_of : Option ℤ → Result Step
min_text_length_of none = throw invalid_text_length
min_text_length_of (some (negsuc n)) = throw text_length_below_one
min_text_length_of (some (pos n)) =
    if ltb n 1 then throw text_length_below_one else ok (min_text_length n)

unfoldable pub new_min_text_length : Text → Result Step
unfolding parse_int
new_min_text_length arg = min_text_length_of (parse_int arg)

abbrev upward_of : Text → Option ℤ → Result Step
upward_of subject none = ok (upward_selector subject)
upward_of subject (some (negsuc n)) = throw invalid_distance
upward_of subject (some (pos n)) =
    if ltb n 1 || leb 256 n then throw invalid_distance else ok (upward_distance n)

unfoldable pub new_upward : Text → Result Step
unfolding parse_int_auto
new_upward subject = upward_of subject (parse_int_auto subject)
