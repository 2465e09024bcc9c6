-- ===== src/Regexp.antt =====
-- jslibs/extended-css/src/parse/utils/parseRegexp.ts and jslibs/scriptlets/src/helpers/parseRegexp.ts:
-- which texts are regular expression literals, and how other texts are escaped.
-- The engine behind `new RegExp` and `RegExp.prototype.test` is the platform's: a `Regexps`.
-- `test` is that of an expression without the flags `g` and `y`, or of a new object. With one of these
-- flags an object keeps a position from one test to the next: `test_at`, for the loops in which that
-- decides what is removed. Elsewhere the position is not modelled.
pub mod Literal
pub mod Wildcard
use zen_desktop_localcdn.Common.{
  ℕ, Bool, true, false, not, ◌&&◌, ◌||◌, List, [], ◌∷◌, ◌++◌, Option, none, some, ◌==◌,
  if◌then◌else◌, Text, is_empty, codes, ltb, length, ◌≡◌, ap,
}

pub record RegExp : Type 0 where
  pub source : Text
  pub flags : Text

pub record Regexps : Type 0 where
  -- `new RegExp(source, flags)` does not throw.
  pub valid : RegExp → Bool
  pub test : RegExp → Text → Bool
  -- The end of the match that is found from a position on, or for `y` at it.
  pub find_end : RegExp → ℕ → Text → Option ℕ

-- The flags `g` and `y`
abbrev pub positioned : Text → Bool
positioned [] = false
positioned (c ∷ s) = (c == b'g' || c == b'y') || positioned s

abbrev pub keeps_position : RegExp → Bool
keeps_position re = positioned re.flags

-- The result of a test, and `lastIndex` behind it.
pub record Tested : Type 0 where
  pub holds : Bool
  pub last_index : ℕ

abbrev pub at_end : Option ℕ → Tested
at_end none = record { holds = false; last_index = 0 }
at_end (some e) = record { holds = true; last_index = e }

-- `re.test(s)` of an object whose `lastIndex` is `i`.
abbrev pub test_at : Regexps → RegExp → ℕ → Text → Tested
test_at rx re i s =
    if not (keeps_position re)
    then record { holds = rx.test re s; last_index = i }
    else if ltb (length s) i
    then at_end none
    else at_end (rx.find_end re i s)

pub test_at_lem :
    (rx : Regexps) (re : RegExp) (i : ℕ) (s : Text)
    → keeps_position re ≡ false
    → test_at rx re i s ≡ record { holds = rx.test re s; last_index = i }
test_at_lem rx re i s h =
    ap
      (λ b.
        if not b
        then record { holds = rx.test re s; last_index = i }
        else if ltb (length s) i
        then at_end none
        else at_end (rx.find_end re i s))
      h

abbrev pub backslash : ℕ
backslash = 92

abbrev pub slash : ℕ
slash = 47

-- What `.` does not match.
abbrev pub is_line_end : ℕ → Bool
is_line_end c = c == 10 || c == 13 || c == 0x2028 || c == 0x2029

abbrev pub is_flag : ℕ → Bool
is_flag c = c == b'g' || c == b'i' || c == b'm' || c == b's' || c == b'u' || c == b'y'

abbrev pub all_flags : Text → Bool
all_flags [] = true
all_flags (c ∷ s) = is_flag c && all_flags s

abbrev pub in_body : Text → Option (Text × Text) → Option (Text × Text)
in_body front none = none
in_body front (some (body, rest)) = some (front ++ body, rest)

-- The part `((?:[^/\\\r\n]|\\.)*)\/` of the pattern: the body, and what follows the slash. No other
-- split of the text can match, since no item of the body takes a bare slash.
unfoldable pub literal_body : Text → Option (Text × Text)
literal_body [] = none
literal_body (c ∷ []) = if c == slash then some ([], []) else none
literal_body (c ∷ d ∷ s) =
    let after_escape = literal_body s in
    let after_plain = literal_body (d ∷ s) in
    if c == slash
    then some ([], d ∷ s)
    else if c == backslash
    then (if is_line_end d then none else in_body (c ∷ d ∷ []) after_escape)
    else if c == 13 || c == 10
    then none
    else in_body (c ∷ []) after_plain

-- `new RegExp`, with a throw caught as `null`.
abbrev pub new_regexp : Regexps → Text → Text → Option RegExp
new_regexp rx source flags =
    let re : RegExp = record { source = source; flags = flags } in
    if rx.valid re then some re else none

-- The match of `regexpLiteralPattern` behind the first slash: a body of at least one item.
abbrev pub literal_parts : Option (Text × Text) → Option (Text × Text)
literal_parts none = none
literal_parts (some (body, flags)) =
    if not (is_empty body) && all_flags flags then some (body, flags) else none

-- `input.match(regexpLiteralPattern)`
unfoldable pub match_literal : Text → Option (Text × Text)
unfolding literal_body
match_literal [] = none
match_literal (c ∷ s) = if c == slash then literal_parts (literal_body s) else none

-- `null` without a match, and `new RegExp(match[1], match[2])` with one.
abbrev pub regexp_of : Regexps → Option (Text × Text) → Option RegExp
regexp_of rx none = none
regexp_of rx (some (body, flags)) = new_regexp rx body flags

unfoldable pub parse_regexp_literal : Regexps → Text → Option RegExp
unfolding match_literal
parse_regexp_literal rx input = regexp_of rx (match_literal input)

-- A member of the class `[.*+?^${}()|[\]\\]`.
abbrev pub is_special : ℕ → Bool
is_special c =
    c == b'.'
    || c == b'*'
    || c == b'+'
    || c == b'?'
    || c == b'^'
    || c == b'$'
    || c == b'{'
    || c == b'}'
    || c == b'('
    || c == b')'
    || c == b'|'
    || c == b'['
    || c == b']'
    || c == backslash

unfoldable pub escape_regexp : Text → Text
escape_regexp [] = []
escape_regexp (c ∷ s) =
    if is_special c then backslash ∷ c ∷ escape_regexp s else c ∷ escape_regexp s

unfoldable pub parse_regexp_from_string : Regexps → Text → Option RegExp
unfolding escape_regexp
parse_regexp_from_string rx input = new_regexp rx (escape_regexp input) []

-- `s.replace(/\\\*/g, '.*')`
unfoldable pub replace_escaped_star : Text → Text
replace_escaped_star [] = []
replace_escaped_star (c ∷ []) = c ∷ []
replace_escaped_star (c ∷ d ∷ s) =
    let after_star = replace_escaped_star s in
    let after_other = replace_escaped_star (d ∷ s) in
    if c == backslash && d == b'*' then b'.' ∷ b'*' ∷ after_star else c ∷ after_other

unfoldable pub parse_wildcard_pattern : Regexps → Text → Option RegExp
unfolding replace_escaped_star escape_regexp
parse_wildcard_pattern rx input = new_regexp rx (replace_escaped_star (escape_regexp input)) []

-- `parseRegexpLiteral(s) || parseRegexpFromString(s)`, as the scriptlets call them.
unfoldable pub parse_search : Regexps → Text → Option RegExp
unfolding parse_regexp_literal parse_regexp_from_string
parse_search rx s = elim (parse_regexp_literal rx s) [
  | none ↦ parse_regexp_from_string rx s
  | some re ↦ some re
]
