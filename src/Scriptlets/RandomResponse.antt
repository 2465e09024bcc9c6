-- ===== src/Scriptlets/RandomResponse.antt =====
-- jslibs/scriptlets/src/helpers/request/randomResponse.ts and parseValidInt.ts. `Math.random` is a
-- parameter: `draw i n` is `Math.floor(Math.random() * n)` at the `i`-th call.
pub mod Length
use zen_desktop_localcdn.Common.{
  ℕ, zero, suc, ◌+◌, ◌-◌, ◌++◌, Bool, true, false, ◌&&◌, List, [], ◌∷◌, Option, none, some, ◌==◌,
  ltb, leb, if◌then◌else◌, Text, codes, text_eq, starts_with, drop, length, Result, ok, throw,
  ◌>>=◌, nan_input, infinite_input, invalid_pattern, max_length_exceeds_limit,
  min_length_exceeds_max,
}
use Prim.Native.Nat.{◌^◌}
use zen_desktop_localcdn.Common.Ints.{ℤ, pos, negsuc, parse_int}

-- A sequence of random numbers, each below the bound that it is drawn for.
abbrev pub Draws : Type 0
Draws = ℕ → ℕ → ℕ

-- `parseInt` gives `Infinity` from the number on that rounds up to 2^1024.
abbrev is_infinite : ℕ → Bool
is_infinite n = leb (2 ^ 1024 - 2 ^ 970) n

abbrev valid_int : Option ℤ → Result ℤ
valid_int none = throw nan_input
valid_int (some (negsuc n)) = if is_infinite (n + 1) then throw infinite_input else ok (negsuc n)
valid_int (some (pos n)) = if is_infinite n then throw infinite_input else ok (pos n)

unfoldable pub parse_valid_int : Text → Result ℤ
unfolding parse_int
parse_valid_int input = valid_int (parse_int input)

abbrev is_digit : ℕ → Bool
is_digit c = leb b'0' c && leb c b'9'

abbrev onto_digits : ℕ → Text × Text → Text × Text
onto_digits c (digits, rest) = (c ∷ digits, rest)

-- `\d+`, greedy: the digits in front and what follows them.
unfoldable pub digits_of : Text → Text × Text
digits_of [] = ([], [])
digits_of (c ∷ s) = let more = digits_of s in if is_digit c then onto_digits c more else ([], c ∷ s)

abbrev second_number : Text → Text × Text → Option (Text × Text)
second_number low ([], rest) = none
second_number low (d ∷ high, rest) = some (low, d ∷ high)

-- Behind the first number, which must not be empty and must stand in front of a dash.
abbrev first_number : Text × Text → Option (Text × Text)
first_number ([], rest) = none
first_number (d ∷ low, []) = none
first_number (d ∷ low, c ∷ rest) =
    if c == b'-' then second_number (d ∷ low) (digits_of rest) else none

abbrev or_later : Option (Text × Text) → Option (Text × Text) → Option (Text × Text)
or_later none later = later
or_later (some found) later = some found

-- `pattern.match(/length:(\d+)-(\d+)/)`, which finds the first place that fits.
unfoldable pub match_pattern : Text → Option (Text × Text)
unfolding starts_with digits_of
match_pattern [] = none
match_pattern (c ∷ s) =
    or_later
      (if starts_with (c ∷ s) (codes "length:")
        then first_number (digits_of (drop 7 (c ∷ s)))
        else none)
      (match_pattern s)

-- No digit is a sign, so that neither number is negative.
abbrev pub magnitude : ℤ → ℕ
magnitude (pos n) = n
magnitude (negsuc n) = n + 1

abbrev pub range : ℕ → ℕ → Result (ℕ × ℕ)
range low high = ok (low, high)

abbrev pub checked_range : ℕ → ℕ → Result (ℕ × ℕ)
checked_range low high =
    if ltb 500000 high
    then throw max_length_exceeds_limit
    else if ltb high low
    then throw min_length_exceeds_max
    else range low high

abbrev pub parsed_range : Option (Text × Text) → Result (ℕ × ℕ)
parsed_range none = throw invalid_pattern
parsed_range (some (low, high)) = parse_valid_int low >>= λ l.
    parse_valid_int high >>= λ h. checked_range (magnitude l) (magnitude h)

-- `minLength` and `maxLength` for a pattern other than `false`.
unfoldable pub response_range : Text → Result (ℕ × ℕ)
unfolding match_pattern parse_valid_int text_eq
response_range text =
    if text_eq text (codes "true") then range 10 10 else parsed_range (match_pattern text)

unfoldable pub get_random_int_inclusive : Draws → ℕ → ℕ → ℕ
get_random_int_inclusive draw low high = low + draw 0 (high - low + 1)

abbrev pub random_str_alphabet : Text
random_str_alphabet =
    codes "ABCDEFGHIJKLMNOPQRSTUVWXYZabcdefghijklmnopqrstuvwxyz0123456789!@#$%^&*()_+=~"

-- `s.charAt(i)`
unfoldable pub char_at : Text → ℕ → Text
char_at [] i = []
char_at (c ∷ s) zero = c ∷ []
char_at (c ∷ s) (suc i) = char_at s i

-- The rest of the loop, from the `i`-th draw on.
unfoldable pub gen_random_str_with_length : Draws → ℕ → ℕ → Text
unfolding char_at
gen_random_str_with_length draw i zero = []
gen_random_str_with_length draw i (suc n) =
    char_at random_str_alphabet (draw i (length random_str_alphabet))
    ++ gen_random_str_with_length draw (i + 1) n

unfoldable pub gen_random_response : Draws → Text → Result Text
unfolding response_range get_random_int_inclusive gen_random_str_with_length text_eq
gen_random_response draw text =
    if text_eq text (codes "false")
    then ok []
    else response_range text >>= λ r.
        ok (gen_random_str_with_length draw 1 (get_random_int_inclusive draw r.0 r.1))
