-- ===== src/Scriptlets/Fetch.antt =====
-- jslibs/scriptlets/src/prevent-fetch.ts and json-prune-fetch-response.ts: what the proxies of `fetch`
-- return, and json-prune.ts, the proxies of `JSON.parse` and `Response.json`.
pub mod Selected
use zen_desktop_localcdn.Common.{
  ℕ, Bool, true, false, not, ◌||◌, List, [], ◌∷◌, Option, none, some, if◌then◌else◌, Text, codes,
  text_eq, is_empty, length, Result, ok, throw, ◌>>=◌, type_error,
}
use zen_desktop_localcdn.Common.Decimal.{decimal}
use zen_desktop_localcdn.Regexp.{Regexps}
use zen_desktop_localcdn.Scriptlets.Json.{Value}
use zen_desktop_localcdn.Scriptlets.JsonPrune.{Pruner, create_prune, prune}
use zen_desktop_localcdn.Scriptlets.RequestProps.{
  ParsedProps, parse_props_to_match, FetchArgs, of_request, of_resource, match_fetch_args,
}

-- The text of the response; `none` is a warning, and `fetch` stays as it is.
abbrev pub response_body : Text → Option Text
response_body kind =
    if is_empty kind || text_eq kind (codes "emptyObj")
    then some (codes "{}")
    else if text_eq kind (codes "emptyArr")
    then some (codes "[]")
    else if text_eq kind (codes "emptyStr")
    then some []
    else none

abbrev pub is_response_type : Text → Bool
is_response_type t =
    text_eq t (codes "basic") || text_eq t (codes "cors") || text_eq t (codes "opaque")

abbrev pub type_allowed : Option Text → Bool
type_allowed none = true
type_allowed (some t) = is_response_type t

-- The variables that the proxy of `fetch` reads; `parsed_props` is undefined if the text did not parse.
pub record FetchSetting : Type 0 where
  pub body : Text
  pub response_type : Option Text
  pub parsed_props : Option ParsedProps

abbrev pub props_of : Result ParsedProps → Option ParsedProps
props_of (throw e) = none
props_of (ok props) = some props

abbrev pub setting_for : Regexps → Text → Option Text → Option Text → Option FetchSetting
setting_for rx props response_type none = none
setting_for rx props response_type (some body) =
    if type_allowed response_type
    then some (record {
      body = body;
      response_type = response_type;
      parsed_props = props_of (parse_props_to_match rx props);
    })
    else none

-- `preventFetch`; the kind of the body is `emptyObj` if it is left out.
unfoldable pub prevent_fetch : Regexps → Text → Option Text → Option Text → Option FetchSetting
unfolding parse_props_to_match text_eq
prevent_fetch rx props kind response_type =
    setting_for rx props response_type
      (response_body (elim kind [ none ↦ codes "emptyObj" | some k ↦ k ]))

-- A response as its properties read it.
pub record FetchResponse : Type 0 where
  pub url : Text
  pub status : ℕ
  pub status_text : Text
  pub content : Option Text
  pub type : Text
  pub headers : List (Text × Text)

-- What a call of `fetch` gives: the native result for its arguments, a new response, or a rejection.
pub data Fetched : Type 0 where
  native : Fetched
  answered : FetchResponse → Fetched
  rejected : Fetched

abbrev pub opaque_response : FetchResponse
opaque_response = record {
  url = [];
  status = 0;
  status_text = [];
  content = none;
  type = codes "opaque";
  headers = [];
}

-- The address of the arguments.
abbrev pub url_of : FetchArgs → Text
url_of (of_request request) = elim (request (codes "url")) [ none ↦ [] | some u ↦ u ]
url_of (of_resource u init) = u

abbrev or_basic : Option Text → Text
or_basic none = codes "basic"
or_basic (some t) = if is_empty t then codes "basic" else t

abbrev is_opaque : Option Text → Bool
is_opaque none = false
is_opaque (some t) = text_eq t (codes "opaque")

unfoldable pub response_to : FetchSetting → Text → FetchArgs → FetchResponse
unfolding decimal text_eq
response_to setting date args =
    if is_opaque setting.response_type then opaque_response else record {
      url = url_of args;
      status = 200;
      status_text = codes "OK";
      content = some setting.body;
      type = or_basic setting.response_type;
      headers =
          (codes "Content-Length", decimal (length setting.body))
          ∷ (codes "Content-Type", codes "application/json")
          ∷ (codes "Date", date)
          ∷ [];
    }

abbrev pub matched_fetch : FetchSetting → Text → FetchArgs → Bool → Fetched
matched_fetch setting date args false = native
matched_fetch setting date args true = answered (response_to setting date args)

-- The proxy; `Object.keys(undefined)` throws.
unfoldable pub fetch_proxy : Regexps → FetchSetting → Text → FetchArgs → Fetched
unfolding match_fetch_args response_to
fetch_proxy rx setting date args = elim setting.parsed_props [
  | none ↦ rejected
  | some props ↦ matched_fetch setting date args (match_fetch_args rx props args)
]

-- The pruned response: what the native one was, with another text.
pub record NativeResponse : Type 0 where
  pub json : Result Value
  pub response : FetchResponse

-- What the proxy of json-prune-fetch-response gives: the native response, a clone of it, or a new one.
pub data PrunedFetch : Type 0 where
  same cloned : FetchResponse → PrunedFetch
  pruned : FetchResponse → Value → PrunedFetch

abbrev pub is_selected : Regexps → Option ParsedProps → FetchArgs → Bool
is_selected rx none args = true
is_selected rx (some props) args = match_fetch_args rx props args

abbrev pruned_json : (Value → Result Value) → NativeResponse → Result Value → Result PrunedFetch
pruned_json f r (throw e) = ok (cloned r.response)
pruned_json f r (ok v) = f v >>= λ w. ok (pruned r.response w)

-- The proxy of `fetch`, once the native response is there.
unfoldable pub prune_fetch_proxy :
    Regexps
    → Option ParsedProps
    → (Value → Result Value)
    → FetchArgs
    → NativeResponse
    → Result PrunedFetch
unfolding match_fetch_args
prune_fetch_proxy rx props f args r =
    if is_selected rx props args then pruned_json f r r.json else ok (same r.response)

-- `jsonPruneFetchResponse`: `none` leaves `fetch` as it is.
pub record PruneFetch : Type 0 where
  pub pruner : Pruner
  pub selecting : Option ParsedProps

abbrev selecting_of : Regexps → Pruner → Option Text → Option PruneFetch
selecting_of rx p none = some (record { pruner = p; selecting = none })
selecting_of rx p (some s) = elim (parse_props_to_match rx s) [
  | throw e ↦ none
  | ok props ↦ some (record { pruner = p; selecting = some props })
]

unfoldable pub json_prune_fetch_response :
    Regexps → Text → Option Text → Option Text → Option Text → Option PruneFetch
unfolding parse_props_to_match create_prune
json_prune_fetch_response rx to_remove required props stack =
    if is_empty to_remove
    then none
    else selecting_of rx (create_prune rx to_remove required stack) props

-- The proxies of json-prune: the result of the native call, pruned.
unfoldable pub json_proxy : Regexps → Option Text → Pruner → Result Value → Result Value
unfolding prune
json_proxy rx stack p parsed = parsed >>= prune rx stack p
