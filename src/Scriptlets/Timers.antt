-- ===== src/Scriptlets/Timers.antt =====
-- jslibs/scriptlets/src/helpers/shouldPrevent.ts, prevent-set-timeout.ts and prevent-set-interval.ts:
-- which timers the page does not get.
pub mod Selection
use zen_desktop_localcdn.Common.{
  ℕ, Bool, true, false, not, ◌&&◌, ◌||◌, [], ◌∷◌, Option, none, some, ◌==◌, if◌then◌else◌, Text,
  is_empty,
}
use zen_desktop_localcdn.Common.Ints.{ℤ, pos, negsuc, parse_int}
use zen_desktop_localcdn.Regexp.{RegExp, Regexps, parse_search}

-- What the page gives as a callback: a function, by its `String(callback)`; a text; another value.
pub data Callback : Type 0 where
  function_of code_of : Text → Callback
  no_callback : Callback

-- A text without the exclamation mark that it may begin with, and whether there was one.
pub record Reversible : Type 0 where
  pub is_reverse : Bool
  pub value : Text

abbrev pub parse_reverse : Text → Reversible
parse_reverse [] = record { is_reverse = false; value = [] }
parse_reverse (c ∷ s) =
    if c == b'!'
    then record { is_reverse = true; value = s }
    else record { is_reverse = false; value = c ∷ s }

abbrev pub search_regexp : Regexps → Text → Option RegExp
search_regexp rx s = parse_search rx (parse_reverse s).value

-- `none` is null.
abbrev pub delay_match : Text → Option ℤ
delay_match s = parse_int (parse_reverse s).value

-- `is_finite` is whether the unary plus of a text is a finite number.
abbrev pub is_valid_delay_number : (Text → Bool) → Text → Bool
is_valid_delay_number is_finite s = is_finite (parse_reverse s).value

-- `===` of numbers
abbrev pub int_eq : ℤ → ℤ → Bool
int_eq (pos m) (pos n) = m == n
int_eq (negsuc m) (negsuc n) = m == n
int_eq _ _ = false

-- `parsedDelay === delayMatch`, for the text of the delay: what `parseInt` does not read as a number
-- stays as it is, and is no integer.
abbrev pub same_delay : Option ℤ → ℤ → Bool
same_delay none n = false
same_delay (some d) n = int_eq d n

-- `a !== b` of Booleans
abbrev pub differs : Bool → Bool → Bool
differs true b = not b
differs false b = b

-- `matchRegexp?.test(callbackStr) !== isInvertedMatch`; undefined differs from both.
abbrev pub callback_matches : Regexps → Option RegExp → Text → Bool → Bool
callback_matches rx none text inverted = true
callback_matches rx (some re) text inverted = differs (rx.test re text) inverted

-- The three returns behind the guards.
abbrev pub select : Bool → Bool → (ℤ → Bool) → Option ℤ → Bool
select no_search matches delay_matches none = matches
select no_search matches delay_matches (some n) =
    if no_search then delay_matches n else matches && delay_matches n

abbrev pub prevent_text : Regexps → (Text → Bool) → Text → Text → Text → Text → Bool
prevent_text rx is_finite text delay match_callback match_delay =
    if not (is_empty match_delay) && not (is_valid_delay_number is_finite match_delay)
    then false
    else select (is_empty match_callback)
        (callback_matches rx (search_regexp rx match_callback) text
          (parse_reverse match_callback).is_reverse)
        (λ n. differs (same_delay (parse_int delay) n) (parse_reverse match_delay).is_reverse)
        (delay_match match_delay)

-- `shouldPrevent`; `delay` is the text of the page's delay.
unfoldable pub should_prevent : Regexps → (Text → Bool) → Callback → Text → Text → Text → Bool
unfolding parse_search parse_int
should_prevent rx is_finite no_callback delay match_callback match_delay = false
should_prevent rx is_finite (function_of text) delay match_callback match_delay =
    prevent_text rx is_finite text delay match_callback match_delay
should_prevent rx is_finite (code_of text) delay match_callback match_delay =
    prevent_text rx is_finite text delay match_callback match_delay

-- What a call of the proxy does: it returns 0, or calls the original function with the arguments.
pub data TimerCall : Type 0 where
  returned_zero original : TimerCall

-- The `apply` of the two proxies; the arguments of the scriptlets are the empty text if they are left
-- out.
abbrev argument : Option Text → Text
argument none = []
argument (some s) = s

unfoldable pub prevent_set_timeout :
    Regexps → (Text → Bool) → Option Text → Option Text → Callback → Text → TimerCall
unfolding should_prevent
prevent_set_timeout rx is_finite search delay callback timer =
    if should_prevent rx is_finite callback timer (argument search) (argument delay)
    then returned_zero
    else original

unfoldable pub prevent_set_interval :
    Regexps → (Text → Bool) → Option Text → Option Text → Callback → Text → TimerCall
unfolding should_prevent
prevent_set_interval rx is_finite search delay callback timer =
    if should_prevent rx is_finite callback timer (argument search) (argument delay)
    then returned_zero
    else original
