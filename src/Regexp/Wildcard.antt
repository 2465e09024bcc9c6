-- ===== src/Regexp/Wildcard.antt =====
-- Escaping, and the wildcard.
use zen_desktop_localcdn.Common.{
  ℕ, true, false, [], ◌∷◌, ◌==◌, ◌≡◌, refl, if◌then◌else◌, Text, arith, Bool-cases, inl, inr, ◌⊎◌,
}
use zen_desktop_localcdn.Regexp.{
  Regexps, backslash, is_special, escape_regexp, replace_escaped_star, parse_wildcard_pattern,
  new_regexp,
}

-- A wildcard pattern, character by character: `*` is any run, every other character is itself.
abbrev pub wildcard_source : Text → Text
wildcard_source [] = []
wildcard_source (c ∷ s) =
    if c == b'*'
    then b'.' ∷ b'*' ∷ wildcard_source s
    else if is_special c
    then backslash ∷ c ∷ wildcard_source s
    else c ∷ wildcard_source s

-- An escaped text does not begin with a star.
replace_escaped_star-cons :
    (c : ℕ) (s : Text)
    → replace_escaped_star (c ∷ escape_regexp s) ≡ c ∷ replace_escaped_star (escape_regexp s)
unfolding escape_regexp replace_escaped_star
replace_escaped_star-cons c [] = refl
replace_escaped_star-cons c (d ∷ s) = ground arith

replace_escaped_star-backslash :
    (c : ℕ) (s : Text)
    → replace_escaped_star (backslash ∷ c ∷ s) ≡ (
        if c == b'*'
        then b'.' ∷ b'*' ∷ replace_escaped_star s
        else backslash ∷ replace_escaped_star (c ∷ s))
unfolding replace_escaped_star
replace_escaped_star-backslash c s = ground arith

split_escape :
    (c : ℕ) (s : Text)
    → (is_special c ≡ true) ⊎ (is_special c ≡ false)
    → replace_escaped_star (escape_regexp s) ≡ wildcard_source s
    → replace_escaped_star (escape_regexp (c ∷ s)) ≡ wildcard_source (c ∷ s)
split_escape c s (inl h) ih =
    unfold escape_regexp in
    rw h (rw replace_escaped_star-backslash (rw replace_escaped_star-cons (rw ih (ground arith))))
split_escape c s (inr h) ih =
    unfold escape_regexp in rw h (rw replace_escaped_star-cons (rw ih (ground arith)))

pub replace_escaped_star-escape :
    (s : Text) → replace_escaped_star (escape_regexp s) ≡ wildcard_source s
unfolding escape_regexp
replace_escaped_star-escape [] = unfold replace_escaped_star in refl
replace_escaped_star-escape (c ∷ s) =
    split_escape c s (Bool-cases (is_special c)) (replace_escaped_star-escape s)

-- A wildcard pattern becomes the expression in which each `*` is `.*` and every other character of
-- the pattern, one with a meaning in expressions included, stands for itself.
pub parse_wildcard_pattern-wildcard_source :
    (rx : Regexps) (s : Text) → parse_wildcard_pattern rx s ≡ new_regexp rx (wildcard_source s) []
parse_wildcard_pattern-wildcard_source rx s =
    unfold parse_wildcard_pattern in rw replace_escaped_star-escape refl
