-- ===== src/Samples/Styles.antt =====
-- Rules of the engine and their style sheet, on the sample page.
use zen_desktop_localcdn.Common.{List, [], ◌∷◌, ◌++◌, codes, ◌≡◌, refl, ok, false, Text, split}
use zen_desktop_localcdn.Common.Sets.{text_eq_inst}
use zen_desktop_localcdn.ExtendedCss.Step.{SelectorList, raw_query, end, alt, selector_of}
use zen_desktop_localcdn.ExtendedCss.Plan.{NewExt}
use zen_desktop_localcdn.ExtendedCss.Parse.{new_ext}
use zen_desktop_localcdn.ExtendedCss.Rules.{Declaration, style_rule, parse}
use zen_desktop_localcdn.ExtendedCss.Rules.Parsed.{IsStyleRule, parse-IsStyleRule}
use zen_desktop_localcdn.ExtendedCss.Stylesheet.{parse_rules}
use zen_desktop_localcdn.ExtendedCss.Stylesheet.Names.{accepted, numbered, blocks, parse_rules_lem}
use zen_desktop_localcdn.Samples.{sample_env}

abbrev new_step : NewExt
new_step = new_ext sample_env 3

abbrev divs : SelectorList
divs = alt (selector_of (raw_query (codes "div") ∷ [])) end

abbrev red : List Declaration
red = record { property = codes "color"; value = codes "red"; important = false } ∷ []

styled : parse sample_env new_step (codes "div:style(color:red)") ≡ ok (style_rule divs red)
unfolding parse new_ext
styled = refl

abbrev sample_sheet : Text
sample_sheet = codes "div" ++ (b'\n' ∷ codes " div:style(color:red) ") ++ (b'\n' ∷ codes "div[")

sheet_text :
    (parse_rules sample_env new_step sample_sheet).css_text
    ≡ codes ".zenc_hide{display:none!important}.zenc_0{color:red}"
unfolding parse_rules new_ext
sheet_text = refl

parse-IsStyleRule_example : IsStyleRule sample_env new_step (codes "div:style(color:red)") divs red
parse-IsStyleRule_example =
    parse-IsStyleRule sample_env new_step (codes "div:style(color:red)") styled

parse_rules_lem_example :
    ((parse_rules sample_env new_step sample_sheet).rules
      ≡ numbered 0 (accepted (parse sample_env new_step) (split sample_sheet b'\n')))
    × ((parse_rules sample_env new_step sample_sheet).css_text
        ≡ blocks 0 false (accepted (parse sample_env new_step) (split sample_sheet b'\n')))
parse_rules_lem_example = parse_rules_lem sample_env new_step sample_sheet
