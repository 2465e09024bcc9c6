-- ===== src/Samples/Timers.antt =====
-- Timers that the scriptlets keep from the page.
use zen_desktop_localcdn.Common.{
  Bool, true, [], ◌∷◌, none, some, codes, ◌≡◌, refl, Text, ◌||◌, ◌↔◌, is_empty, includes,
}
use zen_desktop_localcdn.Regexp.{parse_search}
use zen_desktop_localcdn.Scriptlets.Timers.{
  function_of, code_of, is_valid_delay_number, should_prevent, returned_zero, prevent_set_timeout,
}
use zen_desktop_localcdn.Scriptlets.Timers.Selection.{
  EmptyMatches, CallbackMatches, DelayMatches, text_of, should_prevent_iff,
}
use zen_desktop_localcdn.Samples.{plain_regexps}

-- Every number of the samples is finite.
abbrev always : Text → Bool
always s = true

plain_regexps-EmptyMatches : EmptyMatches plain_regexps
unfolding parse_search includes
plain_regexps-EmptyMatches = (record { source = []; flags = [] }, refl, found)
  where
    found : (s : Text) → plain_regexps.test (record { source = []; flags = [] }) s ≡ true
    found [] = refl
    found (c ∷ s) = refl

-- The validity of a delay is tested on the whole text, its value is read from the digits in front.
exponent :
    prevent_set_timeout plain_regexps always none
      (some (codes "1e3"))
      (code_of (codes "f()"))
      (codes "1")
    ≡ returned_zero
unfolding prevent_set_timeout
exponent = refl

should_prevent_iff_example :
    (should_prevent plain_regexps always
        (function_of (codes "() => ad()"))
        (codes "500")
        (codes "ad")
        (codes "!100")
      ≡ true)
    ↔ ((text : Text) × (text_of (function_of (codes "() => ad()")) ≡ some text)
        × (is_empty (codes "!100") || is_valid_delay_number always (codes "!100") ≡ true)
        × CallbackMatches plain_regexps (codes "ad") text
        × DelayMatches (codes "!100") (codes "500"))
should_prevent_iff_example =
    should_prevent_iff plain_regexps always (function_of (codes "() => ad()")) (codes "500")
      (codes "ad") (codes "!100") plain_regexps-EmptyMatches
