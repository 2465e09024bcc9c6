-- ===== src/Scriptlets/PreventXhr/Response.antt =====
-- What a prevented request answers.
use zen_desktop_localcdn.Common.{
  not, ◌&&◌, ◌∙◌, arith, sym, ℕ, Bool, true, false, [], ◌∷◌, Option, none, some, if◌then◌else◌,
  Text, codes, text_eq, is_empty, length, to_lower_case, ◌≡◌, refl, ap, Result, ok, throw,
}
use zen_desktop_localcdn.Common.Decimal.{decimal}
use zen_desktop_localcdn.Scriptlets.RandomResponse.{Draws, gen_random_response}
use zen_desktop_localcdn.Regexp.{Regexps}
use zen_desktop_localcdn.Scriptlets.RequestProps.{ParsedProps, match_xhr_args}
use mathlib.Core.Path.{subst}
use zen_desktop_localcdn.Scriptlets.PreventXhr.{
  native_open, opened, set_response_type, send, timer, call_open, open_override, handle_all,
  ResponseType, arraybuffer, blob, document, json, other_type, Body, Fake, dispatched, Xhr,
  set_header, content_type, content_length, Answer, with_text, start_headers, answer_of, respond,
  define_properties, value_of, find_header, get_response_header,
}

-- How long the response is: the document's text, or what `responseText` holds.
abbrev pub response_size : ℕ → ResponseType → Text → ℕ
response_size html_length document text = html_length
response_size html_length _ text = length text

find_header-with_text :
    (date : Text) (r : Result Text)
    → find_header content_length
        (with_text (set_header content_type (codes "text/plain") (start_headers date)) r).headers
      ≡ value_of (
          decimal (
            length
              (with_text
                (set_header content_type (codes "text/plain") (start_headers date))
                r).text))
unfolding find_header set_header decimal text_eq
find_header-with_text date (throw e) = refl
find_header-with_text date (ok t) = refl

find_header-pattern :
    (date : Text) (b : Bool) (r : Result Text) (a : Answer)
    → a ≡ (
        if b
        then record {
          headers = set_header content_type (codes "text/plain") (start_headers date);
          body = Body.text_body [];
          text = [];
        }
        else with_text (set_header content_type (codes "text/plain") (start_headers date)) r)
    → find_header content_length a.headers ≡ value_of (decimal (length a.text))
unfolding find_header set_header decimal text_eq
find_header-pattern date true r a e = rw e refl
find_header-pattern date false r a e = rw e (find_header-with_text date r)

find_header-answer_of :
    (draw : Draws) (date : Text) (html_length : ℕ) (p : Option Text) (t : ResponseType)
    → find_header content_length (answer_of draw date html_length p t).headers
      ≡ value_of (decimal (response_size html_length t (answer_of draw date html_length p t).text))
unfolding answer_of find_header set_header decimal text_eq
find_header-answer_of draw date html_length p arraybuffer = refl
find_header-answer_of draw date html_length p blob = refl
find_header-answer_of draw date html_length p document = refl
find_header-answer_of draw date html_length p json = refl
find_header-answer_of draw date html_length none other_type = refl
find_header-answer_of draw date html_length (some s) other_type =
    find_header-pattern date (is_empty s) (gen_random_response draw s) _ refl

fake_defined :
    (new : Fake) (o : Option Fake) (y : Xhr)
    → o ≡ none
    → (define_properties new o y).fake ≡ some new
fake_defined new none y h = refl
fake_defined new (some old) y h = cc

effects_defined :
    (new : Fake) (o : Option Fake) (y : Xhr)
    → o ≡ none
    → (define_properties new o y).effects ≡ dispatched ∷ y.effects
effects_defined new none y h = refl
effects_defined new (some old) y h = cc

length_header :
    (draw : Draws) (date : Text) (html_length : ℕ) (p : Option Text) (x : Xhr) (o : Option Fake)
    (name : Text)
    → to_lower_case name ≡ content_length
    → x.prevent ≡ true
    → o ≡ none
    → get_response_header name (
        define_properties
          (record {
            response = (answer_of draw date html_length p x.response_type).body;
            response_text = (answer_of draw date html_length p x.response_type).text;
            response_url = x.url;
          })
          o
          (record x {
            response_headers = some (answer_of draw date html_length p x.response_type).headers;
          }))
      ≡ ok (
          value_of (
            decimal (
              response_size html_length x.response_type
                (answer_of draw date html_length p x.response_type).text)))
unfolding get_response_header to_lower_case
length_header draw date html_length p x none name lowered marked h = rw marked (
    ap (λ n. ok (find_header n (answer_of draw date html_length p x.response_type).headers)) lowered
    ∙ ap ok (find_header-answer_of draw date html_length p x.response_type))
length_header draw date html_length p x (some old) name lowered marked h = cc

-- What the first run of the timer leaves.
respond_lem :
    (draw : Draws) (date : Text) (html_length : ℕ) (p : Option Text) (x : Xhr) (name : Text)
    → to_lower_case name ≡ content_length
    → x.prevent ≡ true
    → x.fake ≡ none
    → (f : Fake) × ((respond draw date html_length p x).fake ≡ some f)
      × (f.response_url ≡ x.url)
      × ((respond draw date html_length p x).effects ≡ dispatched ∷ x.effects)
      × (get_response_header name (respond draw date html_length p x)
          ≡ ok (value_of (decimal (response_size html_length x.response_type f.response_text))))
unfolding respond
respond_lem draw date html_length p x name lowered marked fresh =
    let a = answer_of draw date html_length p x.response_type in
    let new : Fake = record { response = a.body; response_text = a.text; response_url = x.url } in
    let y : Xhr = record x { response_headers = some a.headers } in
    (
      new,
      fake_defined new x.fake y fresh,
      refl,
      effects_defined new x.fake y fresh,
      length_header draw date html_length p x x.fake name lowered marked fresh,
    )

second_false : (a b : Bool) → b ≡ true → (not a && not b) ≡ false
second_false a b h = ground arith

open_override-matching :
    (rx : Regexps) (props : ParsedProps) (m u : Text) (x : Xhr)
    → match_xhr_args rx props m u ≡ true
    → open_override rx props m u x ≡ call_open m u (record x { prevent = true; url = some u })
unfolding open_override
open_override-matching rx props m u x h =
    ap
      (λ b.
        if b
        then call_open m u (record x { prevent = false })
        else call_open m u (record x { prevent = true; url = some u }))
      (second_false x.prevent (match_xhr_args rx props m u) h)

-- The page opens a request with a method and an address that match, sets the type of its response, sends
-- it, and the timer runs; the request was not answered before. Then it is answered and not sent: its
-- events are dispatched, its address is the one that it was opened with, and its header
-- `Content-Length`, asked for in any case, is the length of its response.
pub handle_all-answered :
    (rx : Regexps) (props : ParsedProps) (html_length : ℕ) (p : Option Text) (draw : Draws)
    (date m u : Text) (t : ResponseType) (x : Xhr) (name : Text)
    → match_xhr_args rx props m u ≡ true
    → x.fake ≡ none
    → to_lower_case name ≡ codes "content-length"
    → let y =
        handle_all rx props html_length p x
          (opened m u ∷ set_response_type t ∷ send ∷ timer draw date ∷ []) in
      (f : Fake) × (y.fake ≡ some f)
      × (f.response_url ≡ some u)
      × (y.effects ≡ dispatched ∷ native_open m u ∷ x.effects)
      × (get_response_header name y
          ≡ ok (value_of (decimal (response_size html_length t f.response_text))))
unfolding handle_all
handle_all-answered rx props html_length p draw date m u t x name h fresh lowered =
    let opened_as = call_open m u (record x { prevent = true; url = some u }) in
    subst
      (λ (z : Xhr).
        (f : Fake) × ((handle_all rx props html_length p z
            (set_response_type t ∷ send ∷ timer draw date ∷ [])).fake
          ≡ some f)
        × (f.response_url ≡ some u)
        × ((handle_all rx props html_length p z
              (set_response_type t ∷ send ∷ timer draw date ∷ [])).effects
            ≡ dispatched ∷ native_open m u ∷ x.effects)
        × (get_response_header name (
              handle_all rx props html_length p z
                (set_response_type t ∷ send ∷ timer draw date ∷ []))
            ≡ ok (value_of (decimal (response_size html_length t f.response_text)))))
      (sym (open_override-matching rx props m u x h))
      (respond_lem draw date html_length p (record opened_as { response_type = t }) name lowered
        refl fresh)
