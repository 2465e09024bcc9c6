-- ===== src/Samples/Requests.antt =====
-- Runs of the scriptlets' helpers.
use zen_desktop_localcdn.Regexp.{RegExp, parse_regexp_literal, positioned}
use zen_desktop_localcdn.Common.{
  Option, ap, sym, ◌⊎◌, false, true, [], ◌∷◌, none, some, ◌≡◌, ◌↔◌, refl, if◌then◌else◌, Text,
  codes, text_eq, includes, ok, throw, invalid_value, type_error,
}
use zen_desktop_localcdn.Samples.{plain_regexps}
use zen_desktop_localcdn.Scriptlets.Storage.{
  Storage, get_item, validate_untrusted_storage_value, set_storage_item,
}
use zen_desktop_localcdn.Scriptlets.Storage.Items.{
  HasNoPosition, selects, get_item-set_storage_item,
}
use zen_desktop_localcdn.Scriptlets.RandomResponse.{Draws}
use zen_desktop_localcdn.Scriptlets.RequestProps.{
  ParsedProps, exactly, pattern_of, parse_props_to_match, match_request, xhr_request,
  match_xhr_args,
}
use zen_desktop_localcdn.Scriptlets.RequestProps.Parsed.{wanted}
use zen_desktop_localcdn.Scriptlets.RequestProps.Matching.{Accepts, match_request_iff}
use zen_desktop_localcdn.Scriptlets.Json.{
  Value, array, object, number, boolean, item, nil, field, end,
}
use zen_desktop_localcdn.Scriptlets.JsonPrune.{
  PropPath, Pruner, create_prune, prune, prune_path, matches_path,
}
use zen_desktop_localcdn.Scriptlets.JsonPrune.Gone.{IsPlain, prune_path-matches_path}
use zen_desktop_localcdn.Scriptlets.JsonPrune.Fuel.{prune-cases}

-- `set-local-storage-item /ad/ $remove$`
abbrev sample_storage : Storage
sample_storage =
    (codes "ads", codes "on") ∷ (codes "seen", codes "1") ∷ (codes "bad", codes "x") ∷ []

ads_removed :
    set_storage_item plain_regexps sample_storage (codes "/ad/") (codes "$remove$")
    ≡ ok ((codes "seen", codes "1") ∷ [])
unfolding set_storage_item includes
ads_removed = refl

value_rejected :
    set_storage_item plain_regexps sample_storage (codes "seen") (codes "40000")
    ≡ throw invalid_value
unfolding set_storage_item
value_rejected = refl

-- With the flag `g` the test of the second key begins behind the match in the first.
global_skips :
    set_storage_item plain_regexps
      ((codes "ads", codes "on") ∷ (codes "bad", codes "x") ∷ [])
      (codes "/ad/g")
      (codes "$remove$")
    ≡ ok ((codes "bad", codes "x") ∷ [])
unfolding set_storage_item includes
global_skips = refl

abbrev flags_of : Option RegExp → Text
flags_of none = []
flags_of (some re) = re.flags

ad-HasNoPosition : HasNoPosition plain_regexps (codes "/ad/")
unfolding parse_regexp_literal
ad-HasNoPosition re h = ap (λ o. positioned (flags_of o)) (sym h)

get_item-set_storage_item_example :
    (v : Text) × (validate_untrusted_storage_value (codes "$remove$") ≡ ok v)
    × (get_item ((codes "seen", codes "1") ∷ []) (codes "bad") ≡ (
        if text_eq v (codes "$remove$")
        then (if selects plain_regexps (codes "/ad/") (codes "bad")
            then none
            else get_item sample_storage (codes "bad"))
        else if text_eq (codes "/ad/") (codes "bad")
        then some v
        else get_item sample_storage (codes "bad")))
get_item-set_storage_item_example =
    get_item-set_storage_item plain_regexps sample_storage (codes "/ad/") (codes "$remove$")
      (codes "bad") ad-HasNoPosition ads_removed

-- Random numbers that are always 0.
abbrev zeros : Draws
zeros i n = 0

-- `prevent-xhr 'method:POST /ads/'`
abbrev sample_props : ParsedProps
sample_props =
    (codes "method", exactly (codes "POST"))
    ∷ (codes "url", pattern_of (record { source = codes "ads"; flags = [] }))
    ∷ []

parse_sample : parse_props_to_match plain_regexps (codes "method:POST /ads/") ≡ ok sample_props
unfolding parse_props_to_match
parse_sample = refl

post_matches : match_xhr_args plain_regexps sample_props (codes "POST") (codes "/ads/1") ≡ true
unfolding match_xhr_args includes
post_matches = refl

-- What follows a second colon is dropped.
parse_address :
    parse_props_to_match plain_regexps (codes "url:https://a.b")
    ≡ ok ((codes "url", exactly (codes "https")) ∷ [])
unfolding parse_props_to_match
parse_address = refl

match_request_iff_example :
    (match_request plain_regexps sample_props (xhr_request (codes "POST") (codes "/ads/1")) ≡ true)
    ↔ Accepts plain_regexps
        (wanted plain_regexps (codes "method:POST /ads/"))
        (xhr_request (codes "POST") (codes "/ads/1"))
match_request_iff_example =
    match_request_iff plain_regexps (codes "method:POST /ads/")
      (xhr_request (codes "POST") (codes "/ads/1")) parse_sample

-- `{"ads": [{"id": 1}], "ok": true}`
abbrev sample_json : Value
sample_json = object (
    field (codes "ads") (array (item (object (field (codes "id") (number 1) end)) nil))
      (field (codes "ok") (boolean true) end))

-- `json-prune 'ads.[].id ads.length'`, and without its second path.
abbrev two_paths : Pruner
two_paths = create_prune plain_regexps (codes "ads.[].id ads.length") (some (codes "ok")) none

ids_removed :
    prune plain_regexps none
      (create_prune plain_regexps (codes "ads.[].id") (some (codes "ok")) none)
      sample_json
    ≡ ok (
        object (
          field
            (codes "ads")
            (array (item (object end) nil))
            (field (codes "ok") (boolean true) end)))
unfolding prune create_prune
ids_removed = refl

length_stays : prune plain_regexps none two_paths sample_json ≡ throw type_error
unfolding prune create_prune
length_stays = refl

prune-cases_example :
    ((w : Value) × (prune plain_regexps none two_paths sample_json ≡ ok w))
    ⊎ (prune plain_regexps none two_paths sample_json ≡ throw type_error)
prune-cases_example = prune-cases plain_regexps none two_paths sample_json

-- `ads.[].id`
abbrev id_path : PropPath
id_path = codes "ads" ∷ codes "[]" ∷ codes "id" ∷ []

id_path-IsPlain : IsPlain id_path
unfolding text_eq
id_path-IsPlain = (refl, (refl, (refl, refl)))

abbrev without_ids : Value
without_ids =
    object
      (field (codes "ads") (array (item (object end) nil)) (field (codes "ok") (boolean true) end))

id_path_pruned : prune_path 3 id_path sample_json ≡ ok without_ids
unfolding prune_path
id_path_pruned = refl

prune_path-matches_path_example : matches_path without_ids id_path ≡ false
prune_path-matches_path_example =
    prune_path-matches_path 3 id_path sample_json id_path-IsPlain id_path_pruned
