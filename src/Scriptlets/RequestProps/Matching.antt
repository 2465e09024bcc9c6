-- ===== src/Scriptlets/RequestProps/Matching.antt =====
-- Which requests are selected.
use mathlib.Core.Path.{subst}
use mathlib.Core.Option.{some-injective}
use zen_desktop_localcdn.Common.{
  Bool, true, false, [], ◌∷◌, Option, none, some, if◌then◌else◌, Text, text_eq, text_eq_iff, ◌≡◌,
  ◌≢◌, ◌↔◌, refl, arith, ok, Bool-cases, inl, inr, sym, ◌∙◌,
}
use zen_desktop_localcdn.Regexp.{Regexps}
use zen_desktop_localcdn.Scriptlets.RequestProps.{
  RequestProp, PropMatch, ParsedProps, parse_props_to_match, RequestOf, match_prop, match_value,
  match_request,
}
use zen_desktop_localcdn.Scriptlets.RequestProps.Parsed.{
  lookup, in_keys, IsObject, wanted, lookup-parse_props_to_match,
}

abbrev Passes : Regexps → (RequestProp → Option PropMatch) → RequestOf → Type 0
Passes rx selector request =
    (p : RequestProp) (m : PropMatch) → selector p ≡ some m → match_value rx m (request p) ≡ true

lookup-absent :
    (props : ParsedProps) (p : RequestProp) → in_keys props p ≡ false → lookup props p ≡ none
lookup-absent [] p h = refl
lookup-absent ((q, m) ∷ props) p h = ground (arith, lookup-absent props p)

both : (a b : Bool) → (if a then b else false) ≡ true → (a ≡ true) × (b ≡ true)
both a b h = ground arith

some-not-none : (m : PropMatch) → some m ≢ none
some-not-none m e = cc

lookup-first :
    (q : RequestProp) (n : PropMatch) (props : ParsedProps) → lookup ((q, n) ∷ props) q ≡ some n
lookup-first q n props = ground (arith, text_eq_iff q q)

-- What stands behind an entry of another key.
lookup-later :
    (q : RequestProp) (n : PropMatch) (props : ParsedProps) (p : RequestProp) (m : PropMatch)
    → in_keys props q ≡ false
    → lookup props p ≡ some m
    → lookup ((q, n) ∷ props) p ≡ some m
lookup-later q n props p m u e = elim (Bool-cases (text_eq q p)) [
  | inl same ↦
      let absent =
        subst (λ r. lookup props r ≡ none) ((text_eq_iff q p).0 same) (lookup-absent props q u) in
      absurd (some-not-none m (sym e ∙ absent))
  | inr other ↦ rw other e
]

match_request→Passes :
    (rx : Regexps) (props : ParsedProps) (request : RequestOf)
    → match_request rx props request ≡ true
    → Passes rx (lookup props) request
unfolding match_request
match_request→Passes rx ((q, n) ∷ props) request h p m e =
    let (now, later) = both (match_value rx n (request q)) (match_request rx props request) h in
    elim (Bool-cases (text_eq q p)) [
      | inl same ↦
          let there : some n ≡ some m = rw same at e in
          subst (λ r. match_value rx m (request r) ≡ true) ((text_eq_iff q p).0 same)
            (subst (λ o. match_value rx o (request q) ≡ true) (some-injective n m there) now)
      | inr other ↦ match_request→Passes rx props request later p m (rw other at e)
    ]
match_request→Passes rx [] request h p m e = cc

Passes→match_request :
    (rx : Regexps) (props : ParsedProps) (request : RequestOf)
    → IsObject props
    → Passes rx (lookup props) request
    → match_request rx props request ≡ true
unfolding match_request
Passes→match_request rx [] request u h = refl
Passes→match_request rx ((q, n) ∷ props) request u h =
    let now = h q n (lookup-first q n props) in
    rw now (
      Passes→match_request rx props request u.1 (λ p m e. h p m (lookup-later q n props p m u.0 e)))

match_value_iff :
    (rx : Regexps) (m : PropMatch) (o : Option Text)
    → (match_value rx m o ≡ true)
      ↔ ((value : Text) × (o ≡ some value) × (match_prop rx m value ≡ true))
match_value_iff rx m none = (λ h. cc, λ (value, e, h). cc)
match_value_iff rx m (some v) = (
  λ h. (v, refl, h),
  λ (value, e, h). subst (λ u. match_prop rx m u ≡ true) (sym (some-injective v value e)) h,
)

-- Where there is a selector, the request has a string, and the selector accepts it.
abbrev pub Accepts : Regexps → (RequestProp → Option PropMatch) → RequestOf → Type 0
Accepts rx selector request =
    (p : RequestProp) (m : PropMatch)
    → selector p ≡ some m
    → (value : Text) × (request p ≡ some value) × (match_prop rx m value ≡ true)

-- The text of a scriptlet selects a request exactly if every property that some segment sets is a
-- string of the request that the selector of the last such segment accepts.
pub match_request_iff :
    (rx : Regexps) (text : Text) {props : ParsedProps} (request : RequestOf)
    → parse_props_to_match rx text ≡ ok props
    → (match_request rx props request ≡ true) ↔ Accepts rx (wanted rx text) request
match_request_iff rx text {props} request h =
    let (object, same) = lookup-parse_props_to_match rx text h in
    (
      λ e p m w.
          (match_value_iff rx m (request p)).0
            (match_request→Passes rx props request e p m (same p ∙ w)),
      λ a.
          Passes→match_request rx props request object
            (λ p m w. (match_value_iff rx m (request p)).1 (a p m (sym (same p) ∙ w))),
    )
