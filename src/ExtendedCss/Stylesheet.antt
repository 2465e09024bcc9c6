-- ===== src/ExtendedCss/Stylesheet.antt =====
-- The engine's rules and its style sheet: `parseRules` and `buildCssRule` of
-- jslibs/extended-css/src/engine/index.ts. A line that does not parse is logged and passed over.
pub mod Names
use zen_desktop_localcdn.Common.{
  ℕ, suc, ◌+◌, Bool, true, false, List, [], ◌∷◌, ◌++◌, Option, none, some, if◌then◌else◌, Text,
  codes, is_empty, split, trim, Result, ok, throw,
}
use zen_desktop_localcdn.Common.Decimal.{decimal}
use zen_desktop_localcdn.ExtendedCss.Env.{Env}
use zen_desktop_localcdn.ExtendedCss.Step.{SelectorList}
use zen_desktop_localcdn.ExtendedCss.Plan.{NewExt}
use zen_desktop_localcdn.ExtendedCss.Rules.{Declaration, ParsedRule, hide_rule, style_rule, parse}
use zen_desktop_localcdn.ExtendedCss.Engine.{Rule}

abbrev pub hide_class_name : Text
hide_class_name = codes "zenc_hide"

-- `zenc_${i}`
unfoldable pub class_name_of : ℕ → Text
unfolding decimal
class_name_of i = codes "zenc_" ++ decimal i

abbrev declaration_text : Declaration → Text
declaration_text d =
    d.property ++ (b':' ∷ d.value) ++ (if d.important then codes "!important" else [])

-- `.join(';')`
abbrev join : List Text → Text
join [] = []
join (t ∷ []) = t
join (t ∷ ts) = t ++ (b';' ∷ join ts)

abbrev texts : List Declaration → List Text
texts [] = []
texts (d ∷ ds) = declaration_text d ∷ texts ds

unfoldable pub build_css_rule : Text → List Declaration → Text
build_css_rule class_name declarations =
    (b'.' ∷ class_name) ++ (b'{' ∷ join (texts declarations)) ++ (b'}' ∷ [])

-- The variables `parsedRules`, `cssRules`, `ruleIndex` and `hideClassAdded`.
pub record Sheet : Type 0 where
  pub rules : List Rule
  pub css_text : Text
  pub rule_index : ℕ
  pub hide_class_added : Bool

abbrev pub empty_sheet : Sheet
empty_sheet = record { rules = []; css_text = []; rule_index = 0; hide_class_added = false }

abbrev pub new_rule : SelectorList → Text → List Rule
new_rule list name = record { selectors = list; class_name = name } ∷ []

abbrev pub hide_declarations : List Declaration
hide_declarations =
    record { property = codes "display"; value = codes "none"; important = true } ∷ []

unfoldable pub add_hide_rule : SelectorList → Sheet → Sheet
unfolding build_css_rule
add_hide_rule list s = record {
  rules = s.rules ++ new_rule list hide_class_name;
  css_text =
      if s.hide_class_added
      then s.css_text
      else s.css_text ++ build_css_rule hide_class_name hide_declarations;
  rule_index = s.rule_index;
  hide_class_added = true;
}

unfoldable pub add_style_rule : SelectorList → List Declaration → Sheet → Sheet
unfolding build_css_rule class_name_of
add_style_rule list [] s = s
add_style_rule list (d ∷ ds) s = record s {
  rules = s.rules ++ new_rule list (class_name_of s.rule_index);
  css_text = s.css_text ++ build_css_rule (class_name_of s.rule_index) (d ∷ ds);
  rule_index = suc s.rule_index;
}

abbrev pub add_rule : Result ParsedRule → Sheet → Sheet
add_rule (throw e) s = s
add_rule (ok (hide_rule list)) s = add_hide_rule list s
add_rule (ok (style_rule list ds)) s = add_style_rule list ds s

unfoldable pub parse_lines : (Text → Result ParsedRule) → Sheet → List Text → Sheet
unfolding trim add_hide_rule add_style_rule
parse_lines parse_line s [] = s
parse_lines parse_line s (line ∷ lines) =
    parse_lines parse_line (if is_empty (trim line) then s else add_rule (parse_line (trim line)) s)
      lines

-- `parseRules`
unfoldable pub parse_rules : Env → NewExt → Text → Sheet
unfolding parse_lines split parse
parse_rules env new rules = parse_lines (parse env new) empty_sheet (split rules b'\n')
