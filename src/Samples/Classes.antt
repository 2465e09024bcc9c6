-- ===== src/Samples/Classes.antt =====
-- Rounds of the engine on the sample page.
use zen_desktop_localcdn.Common.{
  List, [], ◌∷◌, codes, ◌≡◌, refl, if◌then◌else◌, ◌&&◌, ◌||◌, Text, ◌==◌, text_eq,
}
use zen_desktop_localcdn.Common.Sets.{text_eq_inst, contains}
use zen_desktop_localcdn.ExtendedCss.Step.{
  raw_query, raw_matches, contains_text, exactly, end, alt, selector_of,
}
use zen_desktop_localcdn.ExtendedCss.Engine.Maps.{Classes, gives, find, IsMap}
use zen_desktop_localcdn.ExtendedCss.Engine.Apply.{apply_classes-gives, apply_classes-page}
use zen_desktop_localcdn.ExtendedCss.Engine.Collect.{
  some_rule, gives-collect_class_matches, apply_queries_lem,
}
use zen_desktop_localcdn.ExtendedCss.Engine.Stop.{rounds, restore_all-rounds}
use zen_desktop_localcdn.ExtendedCss.Engine.{
  Page, Rule, collect_class_matches, apply_classes, apply_queries, restore_all,
}
use zen_desktop_localcdn.Samples.{sample_env}

abbrev ad : Text
ad = codes "ad"

abbrev hide : Text
hide = codes "c0"

abbrev blur : Text
blur = codes "c1"

-- The div has the class `ad`.
abbrev sample_page : Page
sample_page el = if el == 2 then ad ∷ [] else []

-- `div`, `:contains(Buy)`, and a selector that the DOM rejects.
abbrev sample_rules : List Rule
sample_rules =
    record { selectors = alt (selector_of (raw_query (codes "div") ∷ [])) end; class_name = hide }
    ∷ record {
      selectors = alt (selector_of (raw_query (codes "*") ∷ raw_matches (codes "p[") ∷ [])) end;
      class_name = codes "c9";
    }
    ∷ record {
      selectors =
          alt (selector_of (raw_query (codes "*") ∷ contains_text (exactly (codes "Buy")) ∷ []))
            end;
      class_name = blur;
    }
    ∷ []

-- The span was hidden and blurred before; now the div is to be hidden and the span blurred.
abbrev sample_applied : Classes
sample_applied = (3, hide ∷ blur ∷ []) ∷ []

abbrev sample_desired : Classes
sample_desired = (2, hide ∷ []) ∷ (3, blur ∷ []) ∷ []

abbrev blurred_page : Page
blurred_page el = if el == 2 then ad ∷ [] else if el == 3 then hide ∷ blur ∷ [] else []

collected : collect_class_matches sample_env sample_rules ≡ sample_desired
unfolding collect_class_matches find
collected = refl

one_entry : IsMap sample_applied
unfolding contains
one_entry = (refl, tt)

two_entries : IsMap sample_desired
unfolding contains
two_entries = (refl, (refl, tt))

apply_classes-gives_example :
    gives (apply_classes sample_env blurred_page sample_applied sample_desired).applied 3 hide ≡ (
      if sample_env.is_html_element 3
      then gives sample_desired 3 hide
      else gives sample_applied 3 hide && gives sample_desired 3 hide)
apply_classes-gives_example =
    apply_classes-gives sample_env blurred_page sample_applied sample_desired 3 hide one_entry
      two_entries

apply_classes-page_example :
    contains ((apply_classes sample_env blurred_page sample_applied sample_desired).page 3) hide ≡ (
      if gives sample_applied 3 hide
      then contains (blurred_page 3) hide && gives sample_desired 3 hide
      else contains (blurred_page 3) hide
        || (sample_env.is_html_element 3 && gives sample_desired 3 hide))
apply_classes-page_example =
    apply_classes-page sample_env blurred_page sample_applied sample_desired 3 hide one_entry
      two_entries

gives-collect_class_matches_example :
    gives (collect_class_matches sample_env sample_rules) 3 blur
    ≡ (sample_env.is_html_element 3 && some_rule sample_env sample_rules 3 blur)
gives-collect_class_matches_example = gives-collect_class_matches sample_env sample_rules 3 blur

apply_queries_lem_example :
    (gives (apply_queries sample_env sample_rules blurred_page sample_applied).applied 3 blur
      ≡ some_rule sample_env sample_rules 3 blur)
    × (contains ((apply_queries sample_env sample_rules blurred_page sample_applied).page 3) blur
        ≡ (if gives sample_applied 3 blur
            then contains (blurred_page 3) blur && some_rule sample_env sample_rules 3 blur
            else contains (blurred_page 3) blur || some_rule sample_env sample_rules 3 blur))
apply_queries_lem_example =
    apply_queries_lem sample_env sample_rules blurred_page sample_applied 3 blur one_entry refl

-- Two rounds, behind which the page is restored.
restore_all-rounds_example :
    contains
      (restore_all sample_env
        (rounds sample_env sample_page [] (sample_desired ∷ sample_applied ∷ [])).0
        (rounds sample_env sample_page [] (sample_desired ∷ sample_applied ∷ [])).1
        2)
      blur
    ≡ contains (sample_page 2) blur
unfolding find contains text_eq
restore_all-rounds_example =
    restore_all-rounds sample_env sample_page (sample_desired ∷ sample_applied ∷ []) 2 blur
      ((two_entries, refl), ((one_entry, refl), tt))
