-- ===== src/ExtendedCss/Parse.antt =====
-- The constructors of the extended pseudo-classes, `parseASTSelectorList` and `parseRawSelectorList`
-- (jslibs/extended-css/src/parse/selectorList/index.ts). `has`, `is` and `not` parse their argument
-- as a selector list, which may hold them again: the fuel counts how deep they nest.
use zen_desktop_localcdn.Common.{
  ℕ, zero, suc, List, [], ◌∷◌, Text, Result, ok, throw, ◌>>=◌, out_of_fuel, type_error,
}
use zen_desktop_localcdn.ExtendedCss.Ast.{CssNode}
use zen_desktop_localcdn.ExtendedCss.PseudoClass.{ExtClass}
use zen_desktop_localcdn.ExtendedCss.Env.{Env}
use zen_desktop_localcdn.ExtendedCss.Tokenize.{IrToken, tokenize}
use zen_desktop_localcdn.ExtendedCss.Step.{
  Step, contains_text, matches_path, matches_css, matches_attr, has, is, is_not, boxed_string,
  SelectorList, selector_list_of, matcher_of_literal, parse_css_args, css_value, parse_attr_args,
  new_min_text_length, new_upward,
}
use zen_desktop_localcdn.ExtendedCss.Plan.{NewExt, plan}

-- `tokens.map(plan)`
unfoldable pub plan_all : NewExt → List (List IrToken) → Result (List (List Step))
unfolding plan
plan_all new [] = ok []
plan_all new (ts ∷ rest) =
    plan new ts >>= λ steps. plan_all new rest >>= λ selectors. ok (steps ∷ selectors)

unfoldable pub parse_ast_selector_list : Env → NewExt → CssNode → Text → Result SelectorList
unfolding tokenize plan_all
parse_ast_selector_list env new ast raw_text = tokenize env ast raw_text >>= λ tokens.
    plan_all new tokens >>= λ selectors. ok (selector_list_of selectors)

unfoldable pub parse_raw_selector_list : Env → NewExt → Text → Result SelectorList
unfolding parse_ast_selector_list
parse_raw_selector_list env new raw_text =
    env.parse_css raw_text >>= λ ast. parse_ast_selector_list env new ast raw_text

-- `new extClass(args)`, where `parse` reads the argument of `has`, `is` and `not`.
unfoldable pub construct : Env → (Text → Result SelectorList) → ExtClass → Text → Result Step
unfolding matcher_of_literal parse_css_args css_value parse_attr_args new_min_text_length new_upward
construct env parse ExtClass.contains args =
    ok (contains_text (matcher_of_literal env.regexps args))
construct env parse ExtClass.matches_path args =
    ok (matches_path (matcher_of_literal env.regexps args))
construct env parse ExtClass.matches_css args =
    parse_css_args args >>= λ a. ok (matches_css a (css_value env.regexps a.value))
construct env parse ExtClass.matches_attr args =
    parse_attr_args env.regexps args >>= λ a. ok (matches_attr a)
construct env parse ExtClass.min_text_length args = new_min_text_length args
construct env parse ExtClass.upward args = new_upward args
construct env parse ExtClass.has args = parse args >>= λ list. ok (has list)
construct env parse ExtClass.is args = parse args >>= λ list. ok (is list)
construct env parse ExtClass.not args = parse args >>= λ list. ok (is_not list)
construct env parse ExtClass.object args = ok (boxed_string args)
construct env parse ExtClass.object_prototype args = throw type_error

unfoldable pub new_ext : Env → ℕ → NewExt
unfolding construct parse_raw_selector_list
new_ext env zero cls args = throw out_of_fuel
new_ext env (suc fuel) cls args =
    construct env (parse_raw_selector_list env (new_ext env fuel)) cls args
