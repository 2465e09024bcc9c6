-- ===== src/Scriptlets/RequestProps.antt =====
-- jslibs/scriptlets/src/helpers/request/props.ts: the pairs `key:value` by which the network
-- scriptlets select requests.
pub mod Parsed
pub mod Matching
use zen_desktop_localcdn.Common.{
  ℕ, Bool, true, false, ◌&&◌, ◌||◌, List, [], ◌∷◌, Option, none, some, if◌then◌else◌, Text, codes,
  text_eq, is_empty, includes, split, Result, ok, throw, ◌>>=◌, invalid_segment,
  invalid_segment_key,
}
use zen_desktop_localcdn.Common.Sets.{text_eq_inst, contains}
use zen_desktop_localcdn.Regexp.{RegExp, Regexps, parse_regexp_literal, parse_search}

-- `RequestProp`: the keys are strings, as those of every object.
abbrev pub RequestProp : Type 0
RequestProp = Text

-- `REQUEST_PROPS`
abbrev pub request_props : List RequestProp
request_props =
    codes "url"
    ∷ codes "method"
    ∷ codes "credentials"
    ∷ codes "cache"
    ∷ codes "redirect"
    ∷ codes "referrer"
    ∷ codes "referrerPolicy"
    ∷ codes "integrity"
    ∷ codes "mode"
    ∷ []

-- `string | RegExp`
pub data PropMatch : Type 0 where
  exactly : Text → PropMatch
  pattern_of : RegExp → PropMatch

-- `ParsedPropsToMatch`: the keys that are set, in the order in which they were set first.
abbrev pub ParsedProps : Type 0
ParsedProps = List (RequestProp × PropMatch)

unfoldable pub set_prop : ParsedProps → RequestProp → PropMatch → ParsedProps
unfolding text_eq
set_prop [] p m = (p, m) ∷ []
set_prop ((q, old) ∷ props) p m =
    if text_eq q p then (q, m) ∷ props else (q, old) ∷ set_prop props p m

abbrev match_or : Text → Option RegExp → PropMatch
match_or s none = exactly s
match_or s (some re) = pattern_of re

-- `const [key, value] = segment.split(':')`, of a segment with a colon.
abbrev key_and_value : List Text → Text × Text
key_and_value (k ∷ v ∷ rest) = (k, v)
key_and_value (k ∷ []) = (k, [])
key_and_value [] = ([], [])

abbrev keyed_prop : Regexps → Text × Text → Result (RequestProp × PropMatch)
keyed_prop rx (key, value) =
    if is_empty key || is_empty value
    then throw invalid_segment
    else if contains request_props key
    then ok (key, match_or value (parse_regexp_literal rx value))
    else throw invalid_segment_key

-- What one segment sets.
unfoldable pub parse_segment : Regexps → Text → Result (RequestProp × PropMatch)
unfolding includes split parse_search parse_regexp_literal contains text_eq
parse_segment rx segment =
    if includes segment (codes ":")
    then keyed_prop rx (key_and_value (split segment b':'))
    else ok (codes "url", match_or segment (parse_search rx segment))

unfoldable pub parse_segments : Regexps → ParsedProps → List Text → Result ParsedProps
unfolding parse_segment set_prop
parse_segments rx props [] = ok props
parse_segments rx props (s ∷ segments) =
    parse_segment rx s >>= λ pm. parse_segments rx (set_prop props pm.0 pm.1) segments

unfoldable pub parse_props_to_match : Regexps → Text → Result ParsedProps
unfolding parse_segments split text_eq
parse_props_to_match rx props_to_match =
    if is_empty props_to_match || text_eq props_to_match (codes "*")
    then ok []
    else parse_segments rx [] (split props_to_match b' ')

-- A request, by the strings that its properties hold; `none` is undefined.
abbrev pub RequestOf : Type 0
RequestOf = RequestProp → Option Text

unfoldable pub match_prop : Regexps → PropMatch → Text → Bool
unfolding text_eq
match_prop rx (exactly s) value = text_eq s value
match_prop rx (pattern_of re) value = rx.test re value

abbrev pub match_value : Regexps → PropMatch → Option Text → Bool
match_value rx m none = false
match_value rx m (some value) = match_prop rx m value

-- The loop over `Object.keys(props)`.
unfoldable pub match_request : Regexps → ParsedProps → RequestOf → Bool
unfolding match_prop
match_request rx [] request = true
match_request rx ((p, m) ∷ props) request =
    if match_value rx m (request p) then match_request rx props request else false

abbrev with_url : Text → RequestOf → RequestOf
with_url u init p = if text_eq p (codes "url") then some u else init p

-- The arguments of `fetch`: a `Request`, or something with `toString`, and perhaps an object.
pub data FetchArgs : Type 0 where
  of_request : RequestOf → FetchArgs
  of_resource : Text → Option RequestOf → FetchArgs

abbrev pub fetch_request : FetchArgs → RequestOf
fetch_request (of_request request) = request
fetch_request (of_resource u (some init)) = with_url u init
fetch_request (of_resource u none) = with_url u (λ p. none)

unfoldable pub match_fetch_args : Regexps → ParsedProps → FetchArgs → Bool
unfolding match_request
match_fetch_args rx props args = match_request rx props (fetch_request args)

abbrev pub xhr_request : Text → Text → RequestOf
xhr_request m u p =
    if text_eq p (codes "method") then some m else if text_eq p (codes "url") then some u else none

-- The first two arguments of `XMLHttpRequest.open`.
unfoldable pub match_xhr_args : Regexps → ParsedProps → Text → Text → Bool
unfolding match_request
match_xhr_args rx props m u = match_request rx props (xhr_request m u)
