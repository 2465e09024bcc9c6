-- ===== src/Samples/Hooks.antt =====
-- Copied addresses, constants, and calls of `fetch`.
use zen_desktop_localcdn.Common.{
  ℕ, true, false, List, [], ◌∷◌, ◌++◌, none, some, if◌then◌else◌, codes, ◌≡◌, ◌↔◌, refl, Text, ok,
  text_eq, includes, Option, length, ◌+◌,
}
use zen_desktop_localcdn.Scriptlets.RequestProps.{
  ParsedProps, exactly, parse_props_to_match, FetchArgs, of_resource, match_fetch_args,
}
use zen_desktop_localcdn.Scriptlets.JsonPrune.{stack_allows}
use zen_desktop_localcdn.Scriptlets.Clipboard.{Urls, Param, matching, clean_url, parse_params}
use zen_desktop_localcdn.Scriptlets.Clipboard.Cleaned.{cleaned, clean_url-cleaned}
use zen_desktop_localcdn.Scriptlets.SetConstant.{
  text, Setting, setting_of, Property, own_data, own_accessor, inherited_accessor, own_descriptor,
  read_property, cell_of, faked, real, get_property, set_all, returning, boolean,
}
use zen_desktop_localcdn.Scriptlets.SetConstant.Reading.{
  Native, IsKept, assign_all, get_property-set_all,
}
use zen_desktop_localcdn.Scriptlets.Fetch.{FetchSetting, prevent_fetch, fetch_proxy, native}
use zen_desktop_localcdn.Scriptlets.Fetch.Selected.{fetch_proxy-native_iff}
use zen_desktop_localcdn.Samples.{plain_regexps}

abbrev sample_query : List (Text × Text)
sample_query =
    (codes "id", codes "7") ∷ (codes "utm_source", codes "x") ∷ (codes "utm_medium", codes "y") ∷ []

abbrev write_keys : List (Text × Text) → Text
write_keys [] = []
write_keys ((k, v) ∷ q) = k ++ write_keys q

-- One address, and the keys of a query.
abbrev sample_urls : Urls
sample_urls = record {
  read = λ s.
      if text_eq s (codes "a?") then some (record { query = sample_query; rest = s }) else none;
  write = λ u. u.rest ++ write_keys u.query;
}

abbrev utm : List Param
utm = matching (record { source = codes "utm_"; flags = [] }) 0 ∷ []

parsed_params : parse_params plain_regexps (codes "/utm_/") ≡ utm
unfolding parse_params
parsed_params = refl

cleaned_address : clean_url plain_regexps sample_urls (codes "a?") utm ≡ (codes "a?id", utm)
unfolding clean_url includes
cleaned_address = refl

-- With the flag `g` the test of the second key begins behind the match in the first, and the parameter
-- stays.
abbrev utm_global : Param
utm_global = matching (record { source = codes "utm_"; flags = codes "g" }) 0

global_skips_address :
    (clean_url plain_regexps sample_urls (codes "a?") (utm_global ∷ [])).0 ≡ codes "a?idutm_medium"
unfolding clean_url includes
global_skips_address = refl

clean_url-cleaned_example :
    clean_url plain_regexps sample_urls (codes "a?") utm
    ≡ (cleaned plain_regexps sample_urls (codes "a?") utm (sample_urls.read (codes "a?")), utm)
clean_url-cleaned_example = clean_url-cleaned plain_regexps sample_urls (codes "a?") utm (refl, tt)

-- A number is set as a text.
number_text :
    setting_of plain_regexps (codes "5") none none
    ≡ ok (record { fake = text (codes "5"); stack_re = none })
unfolding setting_of
number_text = refl

abbrev true_func : Setting
true_func = record {
  fake = returning (boolean true);
  stack_re = some (record { source = codes "ads.js"; flags = [] });
}

-- A counter of the page, whose setter adds the length of the text.
abbrev counter : Property ℕ Text
counter = own_accessor (some (λ n. codes "count")) (some (λ v n. n + length v))

abbrev page_stack : Option Text
page_stack = some (codes "at page.js")

abbrev counted : Native ℕ Text
counted = assign_all (codes "new" ∷ []) (record { state = 0; property = counter })

get_property-set_all_example :
    (get_property plain_regexps true_func
        (own_descriptor counter)
        page_stack
        (set_all (own_descriptor counter) (codes "new" ∷ []) (cell_of [] 0 counter))
      ≡ (if stack_allows plain_regexps page_stack true_func.stack_re
          then faked true_func.fake
          else real (read_property [] counted.state counted.property)))
    × ((set_all (own_descriptor counter) (codes "new" ∷ []) (cell_of [] 0 counter)).state
        ≡ counted.state)
unfolding IsKept
get_property-set_all_example =
    get_property-set_all plain_regexps true_func [] 0 counter page_stack (codes "new" ∷ []) tt

-- The setter of an inherited accessor is no longer called.
abbrev inherited_counter : Property ℕ Text
inherited_counter = inherited_accessor (some (λ n. codes "count")) (some (λ v n. n + length v))

inherited_setter_lost :
    (set_all
      (own_descriptor inherited_counter)
      (codes "new" ∷ [])
      (cell_of [] 0 inherited_counter)).state
    ≡ 0
unfolding set_all cell_of own_descriptor
inherited_setter_lost = refl

inherited_setter_called :
    (assign_all (codes "new" ∷ []) (record { state = 0; property = inherited_counter })).state ≡ 3
unfolding assign_all
inherited_setter_called = refl

-- A property that is not writable can be overwritten after the scriptlet.
overwritten :
    get_property plain_regexps true_func
      (own_descriptor (own_data false (codes "old")))
      page_stack
      (set_all
        (own_descriptor (own_data false (codes "old")))
        (codes "new" ∷ [])
        (cell_of {S = ℕ} [] 0 (own_data false (codes "old"))))
    ≡ real (codes "new")
unfolding get_property set_all cell_of own_descriptor
overwritten = refl

abbrev ads_setting : FetchSetting
ads_setting = record {
  body = codes "{}";
  response_type = none;
  parsed_props = some ((codes "method", exactly (codes "POST")) ∷ []);
}

ads_prevented : prevent_fetch plain_regexps (codes "method:POST") none none ≡ some ads_setting
unfolding prevent_fetch
ads_prevented = refl

-- Properties that do not parse let every call of `fetch` fail.
abbrev unparsed : FetchSetting
unparsed = record { body = codes "{}"; response_type = none; parsed_props = none }

unparsed_prevented : prevent_fetch plain_regexps (codes "verb:POST") none none ≡ some unparsed
unfolding prevent_fetch
unparsed_prevented = refl

abbrev news : FetchArgs
news = of_resource (codes "/news") none

fetch_proxy-native_iff_example :
    (fetch_proxy plain_regexps ads_setting (codes "Wed") news ≡ native) ↔ (
      (ps : ParsedProps) × (parse_props_to_match plain_regexps (codes "method:POST") ≡ ok ps)
      × (match_fetch_args plain_regexps ps news ≡ false))
fetch_proxy-native_iff_example =
    fetch_proxy-native_iff plain_regexps (codes "method:POST") none none (codes "Wed") news
      ads_prevented
