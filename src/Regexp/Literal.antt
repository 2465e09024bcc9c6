-- ===== src/Regexp/Literal.antt =====
-- What `parseRegexpLiteral` accepts.
use mathlib.Core.Path.{subst, subst⁻¹}
use mathlib.Core.Option.{some-injective}
use zen_desktop_localcdn.Common.{
  ℕ, true, false, ◌||◌, [], ◌∷◌, ◌++◌, Option, none, some, ◌==◌, ◌≡◌, ◌↔◌, refl, Text, is_empty,
  arith, ==_iff, Bool-cases, inl, inr, ◌∙◌, sym,
}
use zen_desktop_localcdn.Regexp.{
  RegExp, Regexps, backslash, slash, is_line_end, all_flags, literal_body, match_literal,
  new_regexp, parse_regexp_literal, in_body, literal_parts, regexp_of,
}

-- The texts that may stand between the slashes: `(?:[^/\\\r\n]|\\.)*`.
pub data IsBody : Text → Type 0 where
  nil : IsBody []
  plain :
      {c : ℕ} {s : Text}
      → (c == slash || c == backslash || c == 13 || c == 10) ≡ false
      → IsBody s
      → IsBody (c ∷ s)
  escaped :
      {c d : ℕ} {s : Text} → c ≡ backslash → is_line_end d ≡ false → IsBody s → IsBody (c ∷ d ∷ s)

literal_body-plain :
    (c : ℕ) (s : Text)
    → (c == slash || c == backslash || c == 13 || c == 10) ≡ false
    → literal_body (c ∷ s) ≡ in_body (c ∷ []) (literal_body s)
unfolding literal_body
literal_body-plain c [] h = ground arith
literal_body-plain c (d ∷ s) h = ground arith

literal_body-escaped :
    (c d : ℕ) (s : Text)
    → c ≡ backslash
    → is_line_end d ≡ false
    → literal_body (c ∷ d ∷ s) ≡ in_body (c ∷ d ∷ []) (literal_body s)
unfolding literal_body
literal_body-escaped c d s e h = ground arith

literal_body-slash : (rest : Text) → literal_body (slash ∷ rest) ≡ some ([], rest)
unfolding literal_body
literal_body-slash [] = refl
literal_body-slash (r ∷ rest) = refl

literal_body-append :
    {body : Text} (rest : Text)
    → IsBody body
    → literal_body (body ++ (slash ∷ rest)) ≡ some (body, rest)
literal_body-append rest nil = literal_body-slash rest
literal_body-append rest (plain {c} {s} h b) =
    literal_body-plain c (s ++ (slash ∷ rest)) h ∙ rw (literal_body-append rest b)
literal_body-append rest (escaped {c} {d} {s} e h b) =
    literal_body-escaped c d (s ++ (slash ∷ rest)) e h ∙ rw (literal_body-append rest b)

in_body-eq-some :
    (front : Text) (o : Option (Text × Text)) {body rest : Text}
    → in_body front o ≡ some (body, rest)
    → (b : Text) × (o ≡ some (b, rest)) × (body ≡ front ++ b)
in_body-eq-some front none h = cc
in_body-eq-some front (some (b, r)) h = (b, cc, cc)

-- Which item the body begins with, if it is read to its end.
data Begins (c d : ℕ) (s body rest : Text) : Type 0 where
  at_slash : c ≡ slash → body ≡ [] → rest ≡ d ∷ s → Begins c d s body rest
  at_escape :
      {b : Text}
      → c ≡ backslash
      → is_line_end d ≡ false
      → literal_body s ≡ some (b, rest)
      → body ≡ c ∷ d ∷ b
      → Begins c d s body rest
  at_plain :
      {b : Text}
      → (c == slash || c == backslash || c == 13 || c == 10) ≡ false
      → literal_body (d ∷ s) ≡ some (b, rest)
      → body ≡ c ∷ b
      → Begins c d s body rest

literal_body-Begins :
    (c d : ℕ) (s : Text) {body rest : Text}
    → literal_body (c ∷ d ∷ s) ≡ some (body, rest)
    → Begins c d s body rest
unfolding literal_body
literal_body-Begins c d s h = elim (Bool-cases (c == slash)) [
  | inl e ↦ at_slash (ground arith) (ground arith) (ground arith)
  | inr n ↦ elim (Bool-cases (c == backslash)) [
    | inl e ↦ elim (Bool-cases (is_line_end d)) [
      | inl l ↦ absurd (ground arith)
      | inr l ↦
          let (b, o, eq) = in_body-eq-some (c ∷ d ∷ []) (literal_body s) (rw (n, e, l) at h) in
          at_escape (ground arith) l o eq
    ]
    | inr m ↦ elim (Bool-cases (c == 13 || c == 10)) [
      | inl l ↦ absurd (ground arith)
      | inr l ↦
          let (b, o, eq) = in_body-eq-some (c ∷ []) (literal_body (d ∷ s)) (rw (n, m, l) at h) in
          at_plain (ground arith) o eq
    ]
  ]
]

literal_body-one :
    (c : ℕ) {body rest : Text}
    → literal_body (c ∷ []) ≡ some (body, rest)
    → IsBody body × (c ∷ [] ≡ body ++ (slash ∷ rest))
unfolding literal_body
literal_body-one c h = elim (Bool-cases (c == slash)) [
  | inl e ↦ (subst IsBody {x = []} (ground arith) nil, ground arith)
  | inr n ↦ absurd (ground arith)
]

from_Begins :
    (c d : ℕ) (s : Text) {body rest : Text}
    → Begins c d s body rest
    → ((b : Text) → literal_body s ≡ some (b, rest) → IsBody b × (s ≡ b ++ (slash ∷ rest)))
    → ((b : Text)
        → literal_body (d ∷ s) ≡ some (b, rest)
        → IsBody b × (d ∷ s ≡ b ++ (slash ∷ rest)))
    → IsBody body × (c ∷ d ∷ s ≡ body ++ (slash ∷ rest))
from_Begins c d s (at_slash e b r) ih ih' = (subst IsBody (sym b) nil, cc)
from_Begins c d s (at_escape {b} e l o eq) ih ih' =
    let (ib, same) = ih b o in (subst IsBody (sym eq) (escaped e l ib), cc)
from_Begins c d s (at_plain {b} p o eq) ih ih' =
    let (ib, same) = ih' b o in (subst IsBody (sym eq) (plain p ib), cc)

literal_body-IsBody :
    (s : Text) {body rest : Text}
    → literal_body s ≡ some (body, rest)
    → IsBody body × (s ≡ body ++ (slash ∷ rest))
literal_body-IsBody [] h = unfold literal_body in cc
literal_body-IsBody (c ∷ []) h = literal_body-one c h
literal_body-IsBody (c ∷ d ∷ s) {body} {rest} h =
    from_Begins c d s (literal_body-Begins c d s h) (λ b e. literal_body-IsBody s {body = b} e)
      (λ b e. literal_body-IsBody (d ∷ s) {body = b} e)

-- The texts that are regular expression literals, with their two parts.
pub record IsLiteral (s body flags : Text) : Type 0 where
  pub reads : s ≡ slash ∷ (body ++ (slash ∷ flags))
  pub body_ok : IsBody body
  pub body_ne_nil : is_empty body ≡ false
  pub flags_ok : all_flags flags ≡ true

literal_parts-eq-some :
    (o : Option (Text × Text)) {body flags : Text}
    → literal_parts o ≡ some (body, flags)
    → (o ≡ some (body, flags)) × (is_empty body ≡ false) × (all_flags flags ≡ true)
literal_parts-eq-some none h = cc
literal_parts-eq-some (some (b, f)) h = ground arith

match_literal→IsLiteral :
    (s : Text) {body flags : Text} → match_literal s ≡ some (body, flags) → IsLiteral s body flags
unfolding match_literal
match_literal→IsLiteral [] h = cc
match_literal→IsLiteral (c ∷ s) h = elim (Bool-cases (c == slash)) [
  | inl e ↦
      let (o, ne, fl) = literal_parts-eq-some (literal_body s) (rw e at h) in
      let (b, same) = literal_body-IsBody s o in
      record {
        reads = cc ((==_iff c slash).0 e, same);
        body_ok = b;
        body_ne_nil = ne;
        flags_ok = fl;
      }
  | inr n ↦ absurd (ground arith)
]

IsLiteral→match_literal :
    (s : Text) {body flags : Text} → IsLiteral s body flags → match_literal s ≡ some (body, flags)
IsLiteral→match_literal s {flags} l = rw l.reads (
    unfold match_literal in
    rw (literal_body-append flags l.body_ok) (rw (l.body_ne_nil, l.flags_ok)))

new_regexp-eq-some :
    (rx : Regexps) (source flags : Text) (re : RegExp)
    → new_regexp rx source flags ≡ some re
    → (source ≡ re.source) × (flags ≡ re.flags) × (rx.valid re ≡ true)
new_regexp-eq-some rx source flags re h =
    elim (Bool-cases (rx.valid (record { source = source; flags = flags }))) [
      | inl v ↦
          let e : some (record { source = source; flags = flags }) ≡ some re = rw v at h in
          (cc, cc, subst (λ r. rx.valid r ≡ true) (some-injective _ _ e) v)
      | inr n ↦ absurd (let e : none ≡ some re = rw n at h in cc)
    ]

regexp_of-eq-some :
    (rx : Regexps) (o : Option (Text × Text)) (re : RegExp)
    → regexp_of rx o ≡ some re
    → (o ≡ some (re.source, re.flags)) × (rx.valid re ≡ true)
regexp_of-eq-some rx none re h = cc
regexp_of-eq-some rx (some (body, flags)) re h =
    let (b, f, v) = new_regexp-eq-some rx body flags re h in (cc (b, f), v)

parse_regexp_literal→IsLiteral :
    (rx : Regexps) (s : Text) (re : RegExp)
    → parse_regexp_literal rx s ≡ some re
    → IsLiteral s re.source re.flags × (rx.valid re ≡ true)
parse_regexp_literal→IsLiteral rx s re h =
    let (m, v) = regexp_of-eq-some rx (match_literal s) re (unfold parse_regexp_literal in h) in
    (match_literal→IsLiteral s m, v)

literal_parses :
    (rx : Regexps) (s : Text) (re : RegExp)
    → IsLiteral s re.source re.flags
    → rx.valid re ≡ true
    → parse_regexp_literal rx s ≡ some re
unfolding parse_regexp_literal
literal_parses rx s re l v =
    subst⁻¹ (λ o. regexp_of rx o ≡ some re) (IsLiteral→match_literal s l) (rw v refl)

-- A text parses to an expression exactly if it is a literal that the engine accepts: a slash, a body of
-- at least one item, a slash, and flags; and the expression has that body and those flags. An item is a
-- unit that is no slash, backslash, CR or LF, or it is a backslash and a unit that is no line end: no
-- CR, LF, U+2028 or U+2029.
pub parse_regexp_literal_iff :
    (rx : Regexps) (s : Text) (re : RegExp)
    → (parse_regexp_literal rx s ≡ some re)
      ↔ (IsLiteral s re.source re.flags × (rx.valid re ≡ true))
parse_regexp_literal_iff rx s re =
    (parse_regexp_literal→IsLiteral rx s re, λ (l, v). literal_parses rx s re l v)
