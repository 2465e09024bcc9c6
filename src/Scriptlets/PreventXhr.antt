-- ===== src/Scriptlets/PreventXhr.antt =====
-- jslibs/scriptlets/src/prevent-xhr.ts: the overrides of `open`, `send`, `getResponseHeader` and
-- `getAllResponseHeaders`, as they act on one `XMLHttpRequest`. What reaches the platform is a list of
-- effects, the last one first. `undefined` in `[prevent]` is `false`, as all its tests read it.
pub mod Blocking
pub mod Response
use zen_desktop_localcdn.Common.{
  ℕ, zero, suc, ◌-◌, Bool, true, false, not, ◌&&◌, ◌||◌, List, [], ◌∷◌, ◌++◌, Option, none, some,
  if◌then◌else◌, Text, codes, text_eq, is_empty, length, to_lower_case, Result, ok, throw,
  type_error,
}
use zen_desktop_localcdn.Common.Decimal.{decimal}
use zen_desktop_localcdn.Regexp.{Regexps}
use zen_desktop_localcdn.Scriptlets.RandomResponse.{Draws, gen_random_response}
use zen_desktop_localcdn.Scriptlets.RequestProps.{ParsedProps, match_xhr_args}

-- `responseType`; `other_type` is every other value, the empty text and `text` among them.
pub data ResponseType : Type 0 where
  arraybuffer blob document json other_type : ResponseType

-- The value of `response`: a text, or a new object of its kind.
pub data Body : Type 0 where
  text_body : Text → Body
  empty_buffer empty_blob empty_document empty_object : Body

-- The properties that `Object.defineProperties` gives the request; status, state and status text are
-- always the same.
pub record Fake : Type 0 where
  pub response : Body
  pub response_text : Text
  pub response_url : Option Text

abbrev pub Headers : Type 0
Headers = List (Text × Text)

-- A native call, or the three events that tell of the response.
pub data Effect : Type 0 where
  native_open : Text → Text → Effect
  native_send : Effect
  dispatched : Effect

pub record Xhr : Type 0 where
  pub prevent : Bool
  pub url : Option Text
  pub response_headers : Option Headers
  pub response_type : ResponseType
  pub fake : Option Fake
  -- the native `readyState` is `DONE`
  pub native_done : Bool
  pub timers : ℕ
  pub effects : List Effect

abbrev pub new_xhr : Xhr
new_xhr = record {
  prevent = false;
  url = none;
  response_headers = none;
  response_type = other_type;
  fake = none;
  native_done = false;
  timers = 0;
  effects = [];
}

-- `Reflect.apply(target, thisArg, args)` of `open` and of `send`
abbrev pub call_open : Text → Text → Xhr → Xhr
call_open m u x = record x { native_done = false; effects = native_open m u ∷ x.effects }

abbrev pub call_send : Xhr → Xhr
call_send x = record x { effects = native_send ∷ x.effects }

unfoldable pub open_override : Regexps → ParsedProps → Text → Text → Xhr → Xhr
unfolding match_xhr_args
open_override rx props m u x =
    if not x.prevent && not (match_xhr_args rx props m u)
    then call_open m u (record x { prevent = false })
    else call_open m u (record x { prevent = true; url = some u })

unfoldable pub send_override : Xhr → Xhr
send_override x = if not x.prevent then call_send x else record x { timers = suc x.timers }

-- `headers[name] = value`
unfoldable pub set_header : Text → Text → Headers → Headers
unfolding text_eq
set_header name value [] = (name, value) ∷ []
set_header name value ((n, v) ∷ headers) =
    if text_eq n name then (n, value) ∷ headers else (n, v) ∷ set_header name value headers

abbrev pub content_type : Text
content_type = codes "content-type"

abbrev pub content_length : Text
content_length = codes "content-length"

-- What the timer's `switch` fills in: the headers, and the two values of the response.
pub record Answer : Type 0 where
  pub headers : Headers
  pub body : Body
  pub text : Text

abbrev start_headers : Text → Headers
start_headers date = (codes "date", date) ∷ (content_length, codes "0") ∷ []

-- A text that was generated; an exception is logged.
abbrev with_text : Headers → Result Text → Answer
with_text headers (throw e) = record { headers = headers; body = text_body []; text = [] }
with_text headers (ok t) = record {
  headers = set_header content_length (decimal (length t)) headers;
  body = text_body t;
  text = t;
}

-- `html_length` is the length of the empty document's text.
unfoldable pub answer_of : Draws → Text → ℕ → Option Text → ResponseType → Answer
unfolding set_header decimal gen_random_response
answer_of draw date html_length pattern_text arraybuffer = record {
  headers = set_header content_type (codes "application/octet-stream") (start_headers date);
  body = empty_buffer;
  text = [];
}
answer_of draw date html_length pattern_text blob = record {
  headers = set_header content_type (codes "application/octet-stream") (start_headers date);
  body = empty_blob;
  text = [];
}
answer_of draw date html_length pattern_text document = record {
  headers =
      set_header content_length (decimal html_length)
        (set_header content_type (codes "text/html") (start_headers date));
  body = empty_document;
  text = [];
}
answer_of draw date html_length pattern_text json = record {
  headers =
      set_header content_length (codes "2")
        (set_header content_type (codes "application/json") (start_headers date));
  body = empty_object;
  text = codes "{}";
}
answer_of draw date html_length none other_type = record {
  headers = set_header content_type (codes "text/plain") (start_headers date);
  body = text_body [];
  text = [];
}
answer_of draw date html_length (some p) other_type =
    let headers = set_header content_type (codes "text/plain") (start_headers date) in
    if is_empty p
    then record { headers = headers; body = text_body []; text = [] }
    else with_text headers (gen_random_response draw p)

-- Whether a property that cannot change may be defined again: only as the same text, since every other
-- response is a new object.
abbrev same_body : Body → Body → Bool
same_body (text_body s) (text_body t) = text_eq s t
same_body _ _ = false

abbrev same_url : Option Text → Option Text → Bool
same_url none none = true
same_url (some s) (some t) = text_eq s t
same_url _ _ = false

unfoldable pub redefinable : Fake → Fake → Bool
unfolding text_eq
redefinable old new =
    same_body old.response new.response
    && (text_eq old.response_text new.response_text && same_url old.response_url new.response_url)

-- `Object.defineProperties(thisArg, props)`, then the events; a `TypeError` leaves without them.
abbrev pub define_properties : Fake → Option Fake → Xhr → Xhr
define_properties new none x = record x { fake = some new; effects = dispatched ∷ x.effects }
define_properties new (some old) x =
    if redefinable old new then record x { effects = dispatched ∷ x.effects } else x

-- What the timer runs.
unfoldable pub respond : Draws → Text → ℕ → Option Text → Xhr → Xhr
unfolding answer_of redefinable
respond draw date html_length pattern_text x =
    let a = answer_of draw date html_length pattern_text x.response_type in
    define_properties (record { response = a.body; response_text = a.text; response_url = x.url })
      x.fake (record x { response_headers = some a.headers })

-- `readyState === DONE`
abbrev pub is_done : Xhr → Bool
is_done x = elim x.fake [ none ↦ x.native_done | some f ↦ true ]

-- `responseHeaders` is an object: two lowered names are found in its prototype.
pub data HeaderValue : Type 0 where
  of_platform absent inherited : HeaderValue
  value_of : Text → HeaderValue

unfoldable pub find_header : Text → Headers → HeaderValue
unfolding text_eq
find_header name [] =
    if text_eq name (codes "constructor") || text_eq name (codes "__proto__")
    then inherited
    else absent
find_header name ((n, v) ∷ headers) =
    if text_eq n name then value_of v else find_header name headers

abbrev in_headers : Text → Option Headers → Result HeaderValue
in_headers name none = throw type_error
in_headers name (some headers) = ok (find_header name headers)

unfoldable pub get_response_header : Text → Xhr → Result HeaderValue
unfolding find_header to_lower_case
get_response_header name x =
    if not x.prevent
    then ok of_platform
    else if not (is_done x)
    then ok absent
    else in_headers (to_lower_case name) x.response_headers

unfoldable pub header_lines : Headers → Text
header_lines [] = []
header_lines ((n, v) ∷ headers) = n ++ codes ": " ++ v ++ (13 ∷ 10 ∷ header_lines headers)

-- `null` is `no_lines`.
pub data HeaderLines : Type 0 where
  lines_of_platform no_lines : HeaderLines
  lines : Text → HeaderLines

abbrev all_lines : Option Headers → Result HeaderLines
all_lines none = throw type_error
all_lines (some headers) = ok (lines (header_lines headers))

unfoldable pub get_all_response_headers : Xhr → Result HeaderLines
unfolding header_lines
get_all_response_headers x =
    if not x.prevent
    then ok lines_of_platform
    else if not (is_done x)
    then ok no_lines
    else all_lines x.response_headers

-- What happens to one request: calls by the page, its timers, and the end of a native request.
pub data Call : Type 0 where
  opened : Text → Text → Call
  set_response_type : ResponseType → Call
  send : Call
  timer : Draws → Text → Call
  finished : Call

abbrev pub run_timer : (Xhr → Xhr) → ℕ → Xhr → Xhr
run_timer f zero x = x
run_timer f (suc n) x = f (record x { timers = n })

unfoldable pub handle : Regexps → ParsedProps → ℕ → Option Text → Xhr → Call → Xhr
unfolding open_override send_override respond
handle rx props html_length p x (opened m u) = open_override rx props m u x
handle rx props html_length p x (set_response_type t) = record x { response_type = t }
handle rx props html_length p x send = send_override x
handle rx props html_length p x (timer draw date) =
    run_timer (respond draw date html_length p) x.timers x
handle rx props html_length p x finished = record x { native_done = true }

unfoldable pub handle_all : Regexps → ParsedProps → ℕ → Option Text → Xhr → List Call → Xhr
unfolding handle
handle_all rx props html_length p x [] = x
handle_all rx props html_length p x (c ∷ cs) =
    handle_all rx props html_length p (handle rx props html_length p x c) cs
