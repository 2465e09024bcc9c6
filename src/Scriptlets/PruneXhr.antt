-- ===== src/Scriptlets/PruneXhr.antt =====
-- jslibs/scriptlets/src/json-prune-xhr-response.ts: the proxies on one `XMLHttpRequest`, which sends a
-- substitute request and takes over its response. Of the arguments of `open` only the method and the
-- address are kept. Native calls return, except for `send` on the substitute.
pub mod Answer
pub mod Recording
use zen_desktop_localcdn.Common.{
  ℕ, zero, suc, Bool, true, false, ◌&&◌, List, [], ◌∷◌, ◌++◌, Option, none, some, ◌==◌,
  if◌then◌else◌, Text, text_eq, Result,
}
use zen_desktop_localcdn.Regexp.{Regexps}
use zen_desktop_localcdn.Scriptlets.Json.{Value}
use zen_desktop_localcdn.Scriptlets.JsonPrune.{Pruner, prune}
use zen_desktop_localcdn.Scriptlets.RequestProps.{ParsedProps, match_xhr_args}
use zen_desktop_localcdn.Scriptlets.PruneXhr.Answer.{
  Codec, text_type, Body, string, no_body, SubsResponse, NewProps, new_props, Headers,
  parse_headers, header_text,
}

-- The four symbols of a request that is to be pruned; `[shouldPrune]` is true with them.
pub record Marks : Type 0 where
  pub request_headers : List (Text × Text)
  pub open_args : Text × Text
  pub response_headers : Headers

-- A native call on the request or on a substitute, or the three events.
pub data Effect : Type 0 where
  native_open native_header : Text → Text → Effect
  native_send : Effect
  subs_open subs_header : Text → Text → Effect
  subs_send : Effect
  dispatched : Effect

pub record Xhr : Type 0 where
  pub marks : Option Marks
  -- the substitutes that are under way
  pub pending : ℕ
  pub answered : Option NewProps
  pub timers : ℕ
  -- the last one first
  pub effects : List Effect

abbrev pub new_xhr : Xhr
new_xhr = record { marks = none; pending = 0; answered = none; timers = 0; effects = [] }

abbrev pub perform : Effect → Xhr → Xhr
perform e x = record x { effects = e ∷ x.effects }

-- `parsedProps === undefined` is `none`.
abbrev pub selected : Regexps → Option ParsedProps → Text → Text → Bool
selected rx none m u = true
selected rx (some props) m u = match_xhr_args rx props m u

unfoldable pub open_proxy : Regexps → Option ParsedProps → Text → Text → Xhr → Xhr
unfolding match_xhr_args
open_proxy rx props m u x =
    if selected rx props m u
    then perform (native_open m u) (record x {
      marks = some (record { request_headers = []; open_args = (m, u); response_headers = [] });
    })
    else perform (native_open m u) x

abbrev pub push_header : Text → Text → Option Marks → Option Marks
push_header n v none = none
push_header n v (some k) = some (record k { request_headers = k.request_headers ++ ((n, v) ∷ []) })

unfoldable pub set_header_proxy : Text → Text → Xhr → Xhr
set_header_proxy n v x = perform (native_header n v) (record x { marks = push_header n v x.marks })

abbrev pub repeat_headers : List (Text × Text) → List Effect → List Effect
repeat_headers [] es = es
repeat_headers ((n, v) ∷ hs) es = repeat_headers hs (subs_header n v ∷ es)

-- The substitute up to its `send`.
abbrev pub prepared : Marks → List Effect → List Effect
prepared k es = repeat_headers k.request_headers (subs_open k.open_args.0 k.open_args.1 ∷ es)

-- `throws`: the native `send` of the substitute throws, and the request is sent itself.
abbrev pub send_marked : Bool → Option Marks → Xhr → Xhr
send_marked throws none x = perform native_send x
send_marked true (some k) x = record x { effects = native_send ∷ prepared k x.effects }
send_marked false (some k) x = record x {
  effects = subs_send ∷ prepared k x.effects;
  pending = suc x.pending;
}

unfoldable pub send_proxy : Bool → Xhr → Xhr
send_proxy throws x = send_marked throws x.marks x

-- Whether `Object.defineProperties` may define what it defined before: the same texts and numbers, but
-- no object again.
abbrev same_body : Body → Body → Bool
same_body (string s) (string t) = text_eq s t
same_body no_body no_body = true
same_body _ _ = false

abbrev same_xml : Option (Option ℕ) → Option (Option ℕ) → Bool
same_xml (some none) (some none) = true
same_xml (some (some d)) (some (some e)) = d == e
same_xml (some none) (some (some e)) = false
same_xml (some (some d)) (some none) = false
same_xml _ _ = true

abbrev same_text : Option Text → Option Text → Bool
same_text (some s) (some t) = text_eq s t
same_text _ _ = true

unfoldable pub redefinable : NewProps → NewProps → Bool
unfolding text_eq
redefinable old new =
    text_eq old.url new.url
    && (old.status_code == new.status_code)
    && text_eq old.status_line new.status_line
    && same_body old.body new.body
    && same_xml old.xml new.xml
    && same_text old.text new.text

abbrev pub push_all : Headers → Option Marks → Option Marks
push_all hs none = none
push_all hs (some k) = some (record k { response_headers = k.response_headers ++ hs })

abbrev pub first_some {ℓ} : {A : Type ℓ} → Option A → Option A → Option A
first_some none b = b
first_some (some a) b = some a

-- The properties that are defined once both definitions are made.
abbrev joined : NewProps → NewProps → NewProps
joined old new = record old {
  xml = first_some old.xml new.xml;
  text = first_some old.text new.text;
}

-- The listener behind the properties; a `TypeError` leaves it without the rest.
abbrev pub define_props : NewProps → Headers → Option NewProps → Xhr → Xhr
define_props new hs none x = record x {
  answered = some new;
  marks = push_all hs x.marks;
  timers = suc x.timers;
}
define_props new hs (some old) x =
    if redefinable old new
    then record x {
      answered = some (joined old new);
      marks = push_all hs x.marks;
      timers = suc x.timers;
    }
    else x

-- The listener of a substitute that is done. Its `responseType` is never set, and so empty.
unfoldable pub on_done : Codec → (Value → Result Value) → SubsResponse → Xhr → Xhr
unfolding new_props parse_headers redefinable
on_done codec prune_value r x =
    define_props (new_props codec prune_value text_type r) (parse_headers r.headers) x.answered x

-- What `getResponseHeader` returns: what the platform says, `null`, or a value that may be undefined.
pub data HeaderValue : Type 0 where
  of_platform absent : HeaderValue
  value_of : Option Text → HeaderValue

unfoldable pub find_header : Text → Headers → HeaderValue
unfolding text_eq
find_header name [] = absent
find_header name ((n, v) ∷ hs) = if text_eq n name then value_of v else find_header name hs

unfoldable pub get_header_proxy : Text → Xhr → HeaderValue
unfolding find_header
get_header_proxy name x = elim x.marks [
  | none ↦ of_platform
  | some k ↦ find_header name k.response_headers
]

-- `none` is what the platform says.
unfoldable pub get_all_headers_proxy : Xhr → Option Text
unfolding header_text
get_all_headers_proxy x = elim x.marks [
  | none ↦ none
  | some k ↦ some (header_text k.response_headers)
]

-- What happens to one request.
pub data Event : Type 0 where
  opened set_header : Text → Text → Event
  send : Bool → Event
  -- a substitute is done, with the lines of the call stack of its listener
  done : Option Text → SubsResponse → Event
  timer : Event

abbrev pub next_done : (Xhr → Xhr) → ℕ → Xhr → Xhr
next_done f zero x = x
next_done f (suc n) x = f (record x { pending = n })

abbrev pub next_timer : ℕ → Xhr → Xhr
next_timer zero x = x
next_timer (suc n) x = record x { timers = n; effects = dispatched ∷ x.effects }

unfoldable pub handle : Regexps → Option ParsedProps → Pruner → Codec → Xhr → Event → Xhr
unfolding open_proxy set_header_proxy send_proxy on_done prune
handle rx props p codec x (opened m u) = open_proxy rx props m u x
handle rx props p codec x (set_header n v) = set_header_proxy n v x
handle rx props p codec x (send throws) = send_proxy throws x
handle rx props p codec x (done stack r) =
    next_done (on_done codec (prune rx stack p) r) x.pending x
handle rx props p codec x timer = next_timer x.timers x

unfoldable pub handle_all : Regexps → Option ParsedProps → Pruner → Codec → Xhr → List Event → Xhr
unfolding handle
handle_all rx props p codec x [] = x
handle_all rx props p codec x (e ∷ es) =
    handle_all rx props p codec (handle rx props p codec x e) es
