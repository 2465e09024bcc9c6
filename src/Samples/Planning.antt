-- ===== src/Samples/Planning.antt =====
-- Plans of some selectors, with the constructors of the sample page.
use zen_desktop_localcdn.Common.{
  true, List, [], ◌∷◌, codes, ◌≡◌, refl, ok, throw, is_ok, trim, ◌++◌, dangling_combinator,
}
use zen_desktop_localcdn.ExtendedCss.Tokenize.{IrToken, raw_token, comb_token, ext_token}
use zen_desktop_localcdn.ExtendedCss.Step.{
  Step, raw_query, raw_matches, child, contains_text, upward_distance, exactly, boxed_string,
}
use zen_desktop_localcdn.ExtendedCss.Parse.{new_ext}
use zen_desktop_localcdn.ExtendedCss.Plan.{NewExt, plan}
use zen_desktop_localcdn.ExtendedCss.Plan.WellFormed.{combs_followed, all_known, plan_accepts}
use zen_desktop_localcdn.ExtendedCss.Plan.Relative.{Steps, plan-Steps}
use zen_desktop_localcdn.ExtendedCss.Plan.Native.{literals, plan-raw_query}
use zen_desktop_localcdn.ExtendedCss.Plan.Context.{StartsWell, plan-StartsWell}
use zen_desktop_localcdn.Samples.{sample_env}

abbrev new_step : NewExt
new_step = new_ext sample_env 3

-- `> div:contains(Buy)`
abbrev relative_tokens : List IrToken
relative_tokens = raw_token (codes "div") ∷ ext_token (codes "contains") (codes "Buy") ∷ []

abbrev relative_steps : List Step
relative_steps = child ∷ raw_matches (codes "div") ∷ contains_text (exactly (codes "Buy")) ∷ []

plan-relative_tokens : plan new_step (comb_token (codes ">") ∷ relative_tokens) ≡ ok relative_steps
unfolding plan new_ext
plan-relative_tokens = refl

-- `:upward(2) > p`
abbrev upward_tokens : List IrToken
upward_tokens =
    ext_token (codes "upward") (codes "2") ∷ comb_token (codes ">") ∷ raw_token (codes "p") ∷ []

abbrev upward_steps : List Step
upward_steps = raw_query (codes "*") ∷ upward_distance 2 ∷ raw_query (codes ":scope>p") ∷ []

plan-upward_tokens : plan new_step upward_tokens ≡ ok upward_steps
unfolding plan new_ext
plan-upward_tokens = refl

-- `div >`
plan_dangling :
    plan new_step (raw_token (codes "div") ∷ comb_token (codes ">") ∷ [])
    ≡ throw dangling_combinator
unfolding plan new_ext
plan_dangling = refl

-- `div:constructor(x)`: the lookup finds the function `Object`.
plan_constructor :
    plan new_step (raw_token (codes "div") ∷ ext_token (codes "constructor") (codes "x") ∷ [])
    ≡ ok (raw_query (codes "div") ∷ boxed_string (codes "x") ∷ [])
unfolding plan new_ext
plan_constructor = refl

plan_accepts_example :
    ((steps : List Step)
      → plan new_step upward_tokens ≡ ok steps
      → combs_followed upward_tokens ≡ true)
    × (combs_followed upward_tokens ≡ true
        → all_known new_step upward_tokens ≡ true
        → is_ok (plan new_step upward_tokens) ≡ true)
plan_accepts_example = plan_accepts new_step upward_tokens

plan-Steps_example : Steps new_step (comb_token (codes ">") ∷ relative_tokens) relative_steps
plan-Steps_example = plan-Steps new_step (codes ">") relative_tokens plan-relative_tokens

-- `div > p `
abbrev raw_tokens : List IrToken
raw_tokens = comb_token (codes ">") ∷ raw_token (codes "p ") ∷ []

plan-raw_query_example :
    plan new_step (raw_token (codes "div") ∷ raw_tokens)
    ≡ ok (raw_query (trim (codes "div" ++ literals raw_tokens)) ∷ [])
unfolding trim
plan-raw_query_example = plan-raw_query new_step (codes "div") raw_tokens refl refl refl refl

plan-StartsWell_example : StartsWell new_step upward_steps
plan-StartsWell_example = plan-StartsWell new_step upward_tokens plan-upward_tokens
