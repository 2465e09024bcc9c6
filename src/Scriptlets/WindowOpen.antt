-- ===== src/Scriptlets/WindowOpen.antt =====
-- jslibs/scriptlets/src/prevent-window-open.ts: the handlers that it puts in place of `window.open`, in
-- the two syntaxes of its arguments.
pub mod Decision
use zen_desktop_localcdn.Common.{
  ℕ, Bool, true, false, not, ◌&&◌, ◌||◌, List, [], ◌∷◌, Option, none, some, ◌==◌, if◌then◌else◌,
  Text, codes, text_eq, is_empty, split, Result, ok, throw, ◌>>=◌, unparsable_search,
  invalid_replacement, unsupported_replacement,
}
use zen_desktop_localcdn.Common.Ints.{ℤ}
use zen_desktop_localcdn.Regexp.{RegExp, Regexps, parse_search}
use zen_desktop_localcdn.Scriptlets.RandomResponse.{parse_valid_int}

-- The first argument of `window.open`: none, `null` or `undefined`; a string; a `URL`; or another value.
pub data Address : Type 0 where
  no_address bad_address : Address
  of_string of_url : Text → Address

-- What the old syntax returns: a function that does nothing, one that returns true, or an object with
-- one function.
pub data Replacement : Type 0 where
  noop true_func : Replacement
  object_of : Text → Replacement

pub record OldHandler : Type 0 where
  pub invert_match : Bool
  pub match_re : Option RegExp
  pub return_value : Replacement

abbrev pub required : Option RegExp → Result (Option RegExp)
required none = throw unparsable_search
required (some re) = ok (some re)

-- `undefined` or an expression: the text, if it is there, must parse.
abbrev pub search_of : Regexps → Option Text → Result (Option RegExp)
search_of rx none = ok none
search_of rx (some s) = if is_empty s then ok none else required (parse_search rx s)

-- The text without its first and last unit, if these are the braces.
unfoldable pub before_brace : Text → Option Text
before_brace [] = none
before_brace (c ∷ []) = if c == b'}' then some [] else none
before_brace (c ∷ d ∷ s) = elim (before_brace (d ∷ s)) [ none ↦ none | some t ↦ some (c ∷ t) ]

abbrev in_braces : Text → Option Text
in_braces [] = none
in_braces (c ∷ s) = if c == b'{' then before_brace s else none

-- Of two parts the first must not be empty, and the second must be `noopFunc`.
abbrev named_noop : List Text → Result Replacement
named_noop (name ∷ value ∷ []) =
    if is_empty name || not (text_eq value (codes "noopFunc"))
    then throw invalid_replacement
    else ok (object_of name)
named_noop _ = throw invalid_replacement

abbrev braced : Option Text → Result Replacement
braced none = throw invalid_replacement
braced (some content) = named_noop (split content b'=')

unfoldable pub replacement_of : Option Text → Result Replacement
unfolding before_brace split text_eq
replacement_of none = ok noop
replacement_of (some r) =
    if text_eq r (codes "trueFunc")
    then ok true_func
    else if is_empty r
    then ok noop
    else braced (in_braces r)

-- `makeOldSyntaxHandler`; the first argument is whether `match` is `0`.
unfoldable pub make_old_syntax_handler :
    Regexps → Bool → Option Text → Option Text → Result OldHandler
unfolding parse_search replacement_of
make_old_syntax_handler rx is_zero search replacement = search_of rx search >>= λ re.
    replacement_of replacement >>= λ value.
    ok (record { invert_match = is_zero; match_re = re; return_value = value })

-- The replacements of the new syntax.
pub data Decoy : Type 0 where
  blank object_element frame : Decoy

pub record NewHandler : Type 0 where
  pub new_invert : Bool
  pub new_re : Option RegExp
  pub delay_seconds : Option ℤ
  pub decoy : Decoy

pub record Pattern : Type 0 where
  pub inverted : Bool
  pub pattern_re : Option RegExp

abbrev pub with_inversion : Bool → Result (Option RegExp) → Result Pattern
with_inversion inverted (throw e) = throw e
with_inversion inverted (ok re) = ok (record { inverted = inverted; pattern_re = re })

-- `match`, of which a leading exclamation mark inverts the rest.
unfoldable pub match_of : Regexps → Option Text → Result Pattern
unfolding parse_search
match_of rx none = ok (record { inverted = false; pattern_re = none })
match_of rx (some []) = ok (record { inverted = false; pattern_re = none })
match_of rx (some (c ∷ s)) =
    if c == b'!'
    then with_inversion true (required (parse_search rx s))
    else with_inversion false (required (parse_search rx (c ∷ s)))

abbrev some_delay : Result ℤ → Result (Option ℤ)
some_delay r = r >>= λ z. ok (some z)

unfoldable pub delay_of : Option Text → Result (Option ℤ)
unfolding parse_valid_int
delay_of none = ok none
delay_of (some s) = if is_empty s then ok none else some_delay (parse_valid_int s)

unfoldable pub decoy_of : Option Text → Result Decoy
unfolding text_eq
decoy_of none = ok frame
decoy_of (some r) =
    if text_eq r (codes "obj")
    then ok object_element
    else if text_eq r (codes "blank")
    then ok blank
    else throw unsupported_replacement

-- `makeNewSyntaxHandler`
unfoldable pub make_new_syntax_handler :
    Regexps → Option Text → Option Text → Option Text → Result NewHandler
unfolding match_of delay_of decoy_of
make_new_syntax_handler rx match_text delay replacement = match_of rx match_text >>= λ p.
    delay_of delay >>= λ d. decoy_of replacement >>= λ k.
    ok (record { new_invert = p.inverted; new_re = p.pattern_re; delay_seconds = d; decoy = k })

pub data Handler : Type 0 where
  old_syntax : OldHandler → Handler
  new_syntax : NewHandler → Handler

abbrev is_text : Option Text → Text → Bool
is_text none t = false
is_text (some s) t = text_eq s t

-- `preventWindowOpen`: an exception is logged, and `window.open` stays as it is.
unfoldable pub prevent_window_open :
    Regexps → Option Text → Option Text → Option Text → Result Handler
unfolding make_old_syntax_handler make_new_syntax_handler text_eq
prevent_window_open rx match_text delay_or_search replacement =
    if is_text match_text (codes "1") || is_text match_text (codes "0")
    then (make_old_syntax_handler rx (is_text match_text (codes "0")) delay_or_search replacement
        >>= λ h. ok (old_syntax h))
    else make_new_syntax_handler rx match_text delay_or_search replacement >>= λ h.
        ok (new_syntax h)

-- What a call of `window.open` then does.
pub data Outcome : Type 0 where
  -- the original function, with the arguments as they are, or with `about:blank` for the first
  original original_blank : Outcome
  returned : Replacement → Outcome
  -- an element for the address, removed behind the delay if there is one, and what is returned: a
  -- proxy of the window, the element's window with three properties, or `null`
  decoy_frame : Text → Option ℤ → Outcome
  decoy_object decoy_without_window : Text → Option ℤ → Outcome

-- The text of an address; `none` is a value that the original function is left to handle.
abbrev pub url_of : Address → Option Text
url_of no_address = some []
url_of (of_string s) = some s
url_of (of_url s) = some s
url_of bad_address = none

abbrev invert_if : Bool → Bool → Bool
invert_if true b = not b
invert_if false b = b

-- The tests on the address that both handlers have.
unfoldable pub prevents : Regexps → Bool → Option RegExp → Text → Bool
prevents rx invert none url = true
prevents rx invert (some re) url = invert_if invert (rx.test re url)

abbrev guarded : Regexps → Bool → Option RegExp → (Text → Outcome) → Option Text → Outcome
guarded rx invert re act none = original
guarded rx invert re act (some url) = if prevents rx invert re url then act url else original

-- `has_window`: the new element has a `contentWindow`.
abbrev act_of : Bool → Decoy → Option ℤ → Text → Outcome
act_of has_window blank delay url = original_blank
act_of has_window frame delay url = decoy_frame url delay
act_of true object_element delay url = decoy_object url delay
act_of false object_element delay url = decoy_without_window url delay

unfoldable pub open_window : Regexps → Bool → Handler → Address → Outcome
unfolding prevents
open_window rx has_window (old_syntax h) a =
    guarded rx h.invert_match h.match_re (λ url. returned h.return_value) (url_of a)
open_window rx has_window (new_syntax h) a =
    guarded rx h.new_invert h.new_re (act_of has_window h.decoy h.delay_seconds) (url_of a)
