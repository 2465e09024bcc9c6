-- ===== src/ExtendedCss/Stylesheet/Names.antt =====
-- Which class each rule has, and which rules the style sheet holds.
use mathlib.Core.Path.{subst}
use zen_desktop_localcdn.Common.{
  ℕ, suc, ◌<◌, Bool, true, false, List, [], ◌∷◌, ◌++◌, if◌then◌else◌, Text, is_empty, split, trim,
  drop, text_eq, text_eq_iff, Result, ok, throw, ◌≡◌, ◌≢◌, refl, sym, ap, ◌∙◌, arith, Bool-cases,
  inl, inr,
}
use mathlib.Core.List.{append_assoc, append-nil}
use zen_desktop_localcdn.Common.Decimal.{decimal-injective, all_digits, all_digits-decimal}
use zen_desktop_localcdn.Common.Sets.{text_eq_inst, contains, NoRepeats}
use zen_desktop_localcdn.ExtendedCss.Env.{Env}
use zen_desktop_localcdn.ExtendedCss.Step.{SelectorList}
use zen_desktop_localcdn.ExtendedCss.Plan.{NewExt}
use zen_desktop_localcdn.ExtendedCss.Rules.{Declaration, ParsedRule, hide_rule, style_rule, parse}
use zen_desktop_localcdn.ExtendedCss.Engine.{Rule}
use zen_desktop_localcdn.ExtendedCss.Stylesheet.{
  hide_class_name, class_name_of, build_css_rule, hide_declarations, Sheet, empty_sheet, new_rule,
  add_hide_rule, add_style_rule, add_rule, parse_lines, parse_rules,
}

-- The rules that count: those that parse, without style rules of no declaration.
abbrev accepted_rule : Result ParsedRule → List ParsedRule → List ParsedRule
accepted_rule (throw e) rest = rest
accepted_rule (ok (hide_rule list)) rest = hide_rule list ∷ rest
accepted_rule (ok (style_rule list [])) rest = rest
accepted_rule (ok (style_rule list (d ∷ ds))) rest = style_rule list (d ∷ ds) ∷ rest

abbrev pub accepted : (Text → Result ParsedRule) → List Text → List ParsedRule
accepted parse_line [] = []
accepted parse_line (line ∷ lines) =
    if is_empty (trim line)
    then accepted parse_line lines
    else accepted_rule (parse_line (trim line)) (accepted parse_line lines)

-- Every hiding rule has the one class; the style rules are numbered from `i` on.
abbrev pub numbered : ℕ → List ParsedRule → List Rule
numbered i [] = []
numbered i (hide_rule list ∷ rest) =
    record { selectors = list; class_name = hide_class_name } ∷ numbered i rest
numbered i (style_rule list ds ∷ rest) =
    record { selectors = list; class_name = class_name_of i } ∷ numbered (suc i) rest

-- One block for the first hiding rule, and one for every style rule.
abbrev pub blocks : ℕ → Bool → List ParsedRule → Text
blocks i added [] = []
blocks i false (hide_rule list ∷ rest) =
    build_css_rule hide_class_name hide_declarations ++ blocks i true rest
blocks i true (hide_rule list ∷ rest) = blocks i true rest
blocks i added (style_rule list ds ∷ rest) =
    build_css_rule (class_name_of i) ds ++ blocks (suc i) added rest

-- What the loop makes of a sheet.
abbrev Extends : Sheet → List ParsedRule → Sheet → Type 0
Extends s rules s' =
    (s'.rules ≡ s.rules ++ numbered s.rule_index rules)
    × (s'.css_text ≡ s.css_text ++ blocks s.rule_index s.hide_class_added rules)

hide-Extends :
    (s : Sheet) (list : SelectorList) (rest : List ParsedRule) (s' : Sheet)
    → Extends (add_hide_rule list s) rest s'
    → Extends s (hide_rule list ∷ rest) s'
unfolding add_hide_rule
hide-Extends s list rest s' (r, c) = (
  r ∙ append_assoc s.rules (new_rule list hide_class_name) (numbered s.rule_index rest),
  c ∙ css s.hide_class_added refl,
)
  where
    css :
        (b : Bool)
        → s.hide_class_added ≡ b
        → (if b then s.css_text else s.css_text ++ build_css_rule hide_class_name hide_declarations)
            ++ blocks s.rule_index true rest
          ≡ s.css_text ++ blocks s.rule_index b (hide_rule list ∷ rest)
    css true e = refl
    css false e =
        append_assoc s.css_text (build_css_rule hide_class_name hide_declarations)
          (blocks s.rule_index true rest)

style-Extends :
    (s : Sheet) (list : SelectorList) (d : Declaration) (ds : List Declaration)
    (rest : List ParsedRule) (s' : Sheet)
    → Extends (add_style_rule list (d ∷ ds) s) rest s'
    → Extends s (style_rule list (d ∷ ds) ∷ rest) s'
unfolding add_style_rule
style-Extends s list d ds rest s' (r, c) = (
  r
      ∙ append_assoc s.rules (new_rule list (class_name_of s.rule_index))
          (numbered (suc s.rule_index) rest),
  c
      ∙ append_assoc s.css_text (build_css_rule (class_name_of s.rule_index) (d ∷ ds))
          (blocks (suc s.rule_index) s.hide_class_added rest),
)

add_rule-Extends :
    (r : Result ParsedRule) (s : Sheet) (rest : List ParsedRule) (s' : Sheet)
    → Extends (add_rule r s) rest s'
    → Extends s (accepted_rule r rest) s'
unfolding add_style_rule
add_rule-Extends (throw e) s rest s' h = h
add_rule-Extends (ok (hide_rule list)) s rest s' h = hide-Extends s list rest s' h
add_rule-Extends (ok (style_rule list [])) s rest s' h = h
add_rule-Extends (ok (style_rule list (d ∷ ds))) s rest s' h = style-Extends s list d ds rest s' h

line-Extends :
    (blank : Bool) (r : Result ParsedRule) (s : Sheet) (rest : List ParsedRule) (s' : Sheet)
    → Extends (if blank then s else add_rule r s) rest s'
    → Extends s (if blank then rest else accepted_rule r rest) s'
line-Extends true r s rest s' h = h
line-Extends false r s rest s' h = add_rule-Extends r s rest s' h

parse_lines-Extends :
    (parse_line : Text → Result ParsedRule) (s : Sheet) (lines : List Text)
    → Extends s (accepted parse_line lines) (parse_lines parse_line s lines)
unfolding parse_lines
parse_lines-Extends parse_line s [] = (sym (append-nil s.rules), sym (append-nil s.css_text))
parse_lines-Extends parse_line s (line ∷ lines) =
    line-Extends (is_empty (trim line)) (parse_line (trim line)) s (accepted parse_line lines)
      (parse_lines parse_line s (line ∷ lines))
      (parse_lines-Extends parse_line
        (if is_empty (trim line) then s else add_rule (parse_line (trim line)) s) lines)

-- The engine has one rule for every line that parses to a hiding rule, or to a style rule with
-- declarations, in their order; all hiding rules share a class, and the style rules are numbered. The
-- style sheet is one block for the hiding rules, at the first of them, and one for every style rule.
pub parse_rules_lem :
    (env : Env) (new : NewExt) (rules : Text)
    → ((parse_rules env new rules).rules
        ≡ numbered 0 (accepted (parse env new) (split rules b'\n')))
      × ((parse_rules env new rules).css_text
          ≡ blocks 0 false (accepted (parse env new) (split rules b'\n')))
unfolding parse_rules
parse_rules_lem env new rules = parse_lines-Extends (parse env new) empty_sheet (split rules b'\n')

pub class_name_of-injective : (i j : ℕ) → class_name_of i ≡ class_name_of j → i ≡ j
unfolding class_name_of
class_name_of-injective i j h = decimal-injective i j (ap (drop 5) h)

class_name_of-ne-hide : (i : ℕ) → class_name_of i ≢ hide_class_name
unfolding class_name_of
class_name_of-ne-hide i h =
    true-not-false (sym (all_digits-decimal i) ∙ ap (λ s. all_digits (drop 5 s)) h)
  where
    true-not-false : true ≢ false
    true-not-false e = cc

-- The classes other than that of the hiding rules, one for each rule that has it.
abbrev pub style_classes : List Rule → List Text
style_classes [] = []
style_classes (r ∷ rules) =
    if text_eq r.class_name hide_class_name
    then style_classes rules
    else r.class_name ∷ style_classes rules

text_eq-apart : (s t : Text) → s ≢ t → text_eq s t ≡ false
text_eq-apart s t h = elim (Bool-cases (text_eq s t)) [
  | inl e ↦ absurd (h ((text_eq_iff s t).0 e))
  | inr e ↦ e
]

-- The numbers are used up from `i` on.
different : (i j : ℕ) → j < i → j ≢ i
different i j h e = omega arith

later_classes :
    (i j : ℕ) (rules : List ParsedRule)
    → j < i
    → contains (style_classes (numbered i rules)) (class_name_of j) ≡ false
unfolding contains text_eq
later_classes i j [] h = refl
later_classes i j (hide_rule list ∷ rules) h = later_classes i j rules h
later_classes i j (style_rule list ds ∷ rules) h =
    rw (text_eq-apart (class_name_of i) hide_class_name (class_name_of-ne-hide i)) (
      rw
        (text_eq-apart (class_name_of j) (class_name_of i)
          (λ e. different i j h (class_name_of-injective j i e)))
        (later_classes (suc i) j rules (omega arith)))

numbered-NoRepeats :
    (i : ℕ) (rules : List ParsedRule) → NoRepeats (style_classes (numbered i rules))
unfolding text_eq
numbered-NoRepeats i [] = tt
numbered-NoRepeats i (hide_rule list ∷ rules) = numbered-NoRepeats i rules
numbered-NoRepeats i (style_rule list ds ∷ rules) =
    rw (text_eq-apart (class_name_of i) hide_class_name (class_name_of-ne-hide i))
      (later_classes (suc i) i rules (omega arith), numbered-NoRepeats (suc i) rules)

-- No class other than that of the hiding rules belongs to two rules.
parse_rules-NoRepeats :
    (env : Env) (new : NewExt) (rules : Text)
    → NoRepeats (style_classes (parse_rules env new rules).rules)
parse_rules-NoRepeats env new rules =
    subst (λ rs. NoRepeats (style_classes rs)) (sym (parse_rules_lem env new rules).0)
      (numbered-NoRepeats 0 (accepted (parse env new) (split rules b'\n')))
