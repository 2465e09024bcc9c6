-- ===== src/Samples/Literals.antt =====
-- Expressions of the sample page's platform.
use zen_desktop_localcdn.Common.{true, [], codes, some, ◌≡◌, ◌↔◌, refl}
use zen_desktop_localcdn.Regexp.{RegExp, parse_regexp_literal, parse_wildcard_pattern, new_regexp}
use zen_desktop_localcdn.Regexp.Literal.{IsLiteral, parse_regexp_literal_iff}
use zen_desktop_localcdn.Regexp.Wildcard.{wildcard_source, parse_wildcard_pattern-wildcard_source}
use zen_desktop_localcdn.Samples.{plain_regexps}

abbrev digits : RegExp
digits = record { source = codes "a\\/[0-9]+"; flags = codes "i" }

parse_digits : parse_regexp_literal plain_regexps (codes "/a\\/[0-9]+/i") ≡ some digits
unfolding parse_regexp_literal
parse_digits = refl

parse_regexp_literal_iff_example :
    (parse_regexp_literal plain_regexps (codes "/a\\/[0-9]+/i") ≡ some digits) ↔ (
      IsLiteral (codes "/a\\/[0-9]+/i") digits.source digits.flags
      × (plain_regexps.valid digits ≡ true))
parse_regexp_literal_iff_example =
    parse_regexp_literal_iff plain_regexps (codes "/a\\/[0-9]+/i") digits

parse_wildcard_pattern-wildcard_source_example :
    parse_wildcard_pattern plain_regexps (codes "rgb(*)")
    ≡ new_regexp plain_regexps (wildcard_source (codes "rgb(*)")) []
parse_wildcard_pattern-wildcard_source_example =
    parse_wildcard_pattern-wildcard_source plain_regexps (codes "rgb(*)")
