-- ===== src/Scriptlets/RequestProps/Parsed.antt =====
-- Which selectors the segments of a text set.
use mathlib.Core.Path.{subst}
use zen_desktop_localcdn.Common.{
  Bool, true, false, ◌||◌, List, [], ◌∷◌, Option, none, some, if◌then◌else◌, Text, codes, text_eq,
  text_eq_iff, is_empty, split, ◌≡◌, refl, arith, ap, sym, ◌∙◌, Result, ok, throw, bind-eq-ok,
  ok_or, Bool-cases, inl, inr,
}
use zen_desktop_localcdn.Regexp.{Regexps}
use zen_desktop_localcdn.Scriptlets.RequestProps.{
  RequestProp, PropMatch, ParsedProps, set_prop, parse_segment, parse_segments,
  parse_props_to_match,
}

-- `props[p]`
abbrev pub lookup : ParsedProps → RequestProp → Option PropMatch
lookup [] p = none
lookup ((q, m) ∷ props) p = if text_eq q p then some m else lookup props p

lookup-set_prop :
    (props : ParsedProps) (p : RequestProp) (m : PropMatch) (q : RequestProp)
    → lookup (set_prop props p m) q ≡ (if text_eq p q then some m else lookup props q)
unfolding set_prop
lookup-set_prop [] p m q = refl
lookup-set_prop ((r, old) ∷ props) p m q =
    ground (arith, lookup-set_prop props p m q, text_eq_iff r p, text_eq_iff r q, text_eq_iff p q)

-- No key stands twice, as in an object.
abbrev pub in_keys : ParsedProps → RequestProp → Bool
in_keys [] p = false
in_keys ((q, m) ∷ props) p = text_eq q p || in_keys props p

abbrev pub IsObject : ParsedProps → Type 0
IsObject [] = Unit
IsObject ((p, m) ∷ props) = (in_keys props p ≡ false) × IsObject props

in_keys-set_prop :
    (props : ParsedProps) (p : RequestProp) (m : PropMatch) (q : RequestProp)
    → in_keys (set_prop props p m) q ≡ (text_eq p q || in_keys props q)
unfolding set_prop
in_keys-set_prop [] p m q = refl
in_keys-set_prop ((r, old) ∷ props) p m q =
    ground (arith, in_keys-set_prop props p m q, text_eq_iff r p, text_eq_iff r q, text_eq_iff p q)

set_prop-IsObject :
    (props : ParsedProps) (p : RequestProp) (m : PropMatch)
    → IsObject props
    → IsObject (set_prop props p m)
unfolding set_prop
set_prop-IsObject [] p m u = (refl, tt)
set_prop-IsObject ((r, old) ∷ props) p m u = elim (Bool-cases (text_eq r p)) [
  | inl e ↦ rw e u
  | inr e ↦ rw e (
    ground (arith, in_keys-set_prop props p m r, text_eq_iff r p, text_eq_iff p r),
    set_prop-IsObject props p m u.1,
  )
]

-- The selector of a property: that of the last segment that sets it.
abbrev or_set : RequestProp → Option PropMatch → Result (RequestProp × PropMatch) → Option PropMatch
or_set p old (throw e) = old
or_set p old (ok (q, m)) = if text_eq q p then some m else old

abbrev pub last_set : Regexps → List Text → RequestProp → Option PropMatch → Option PropMatch
last_set rx [] p old = old
last_set rx (s ∷ segments) p old = last_set rx segments p (or_set p old (parse_segment rx s))

-- The selector that a whole text sets for a property.
abbrev pub wanted : Regexps → Text → RequestProp → Option PropMatch
wanted rx text p =
    if is_empty text || text_eq text (codes "*") then none else last_set rx (split text b' ') p none

lookup-parse_segments :
    (rx : Regexps) (props : ParsedProps) (segments : List Text) {res : ParsedProps}
    (p : RequestProp)
    → parse_segments rx props segments ≡ ok res
    → lookup res p ≡ last_set rx segments p (lookup props p)
unfolding parse_segments
lookup-parse_segments rx props [] p h = ap (λ r. lookup (ok_or [] r) p) (sym h)
lookup-parse_segments rx props (s ∷ segments) p h =
    let ((q, m), e, h') = bind-eq-ok (parse_segment rx s) _ h in
    lookup-parse_segments rx (set_prop props q m) segments p h'
    ∙ ap (last_set rx segments p)
        (lookup-set_prop props q m p ∙ ap (or_set p (lookup props p)) (sym e))

parse_segments-IsObject :
    (rx : Regexps) (props : ParsedProps) (segments : List Text) {res : ParsedProps}
    → IsObject props
    → parse_segments rx props segments ≡ ok res
    → IsObject res
unfolding parse_segments
parse_segments-IsObject rx props [] u h = subst IsObject (ap (ok_or []) h) u
parse_segments-IsObject rx props (s ∷ segments) u h =
    let ((q, m), e, h') = bind-eq-ok (parse_segment rx s) _ h in
    parse_segments-IsObject rx (set_prop props q m) segments (set_prop-IsObject props q m u) h'

lookup-if :
    (rx : Regexps) (b : Bool) (segments : List Text) {res : ParsedProps}
    → (if b then ok [] else parse_segments rx [] segments) ≡ ok res
    → IsObject res
      × ((p : RequestProp) → lookup res p ≡ (if b then none else last_set rx segments p none))
lookup-if rx true segments h =
    let same = ap (ok_or []) h in (subst IsObject same tt, λ p. ap (λ r. lookup r p) (sym same))
lookup-if rx false segments h =
    (parse_segments-IsObject rx [] segments tt h, λ p. lookup-parse_segments rx [] segments p h)

pub lookup-parse_props_to_match :
    (rx : Regexps) (text : Text) {res : ParsedProps}
    → parse_props_to_match rx text ≡ ok res
    → IsObject res × ((p : RequestProp) → lookup res p ≡ wanted rx text p)
unfolding parse_props_to_match
lookup-parse_props_to_match rx text h =
    lookup-if rx (is_empty text || text_eq text (codes "*")) (split text b' ') h
