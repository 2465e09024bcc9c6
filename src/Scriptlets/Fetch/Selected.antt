-- ===== src/Scriptlets/Fetch/Selected.antt =====
-- Which calls of `fetch` reach the network.
use zen_desktop_localcdn.Common.{
  Bool, true, false, Option, none, some, if◌then◌else◌, Text, Result, ok, throw, ◌≡◌, ◌↔◌, refl,
  sym, ap, ◌∙◌,
}
use zen_desktop_localcdn.Regexp.{Regexps}
use zen_desktop_localcdn.Scriptlets.RequestProps.{
  ParsedProps, parse_props_to_match, FetchArgs, match_fetch_args,
}
use zen_desktop_localcdn.Scriptlets.Fetch.{
  FetchSetting, props_of, setting_for, type_allowed, prevent_fetch, Fetched, native, rejected,
  matched_fetch, fetch_proxy,
}

abbrev props_or : FetchSetting → Option FetchSetting → Option ParsedProps
props_or s none = s.parsed_props
props_or s (some t) = t.parsed_props

if-some :
    (b : Bool) (s t : FetchSetting)
    → (if b then some t else none) ≡ some s
    → s.parsed_props ≡ t.parsed_props
if-some true s t h = ap (props_or s) (sym h)
if-some false s t h = cc

setting_for-parsed_props :
    (rx : Regexps) (props : Text) (t : Option Text) (b : Option Text) {s : FetchSetting}
    → setting_for rx props t b ≡ some s
    → s.parsed_props ≡ props_of (parse_props_to_match rx props)
setting_for-parsed_props rx props t none h = cc
setting_for-parsed_props rx props t (some body) {s} h = if-some (type_allowed t) s _ h

-- What the proxy makes of the properties.
abbrev reached : Regexps → FetchSetting → Text → FetchArgs → Option ParsedProps → Fetched
reached rx s date args none = rejected
reached rx s date args (some props) = matched_fetch s date args (match_fetch_args rx props args)

native_iff :
    (rx : Regexps) (s : FetchSetting) (date : Text) (args : FetchArgs) (b : Bool)
    → (matched_fetch s date args b ≡ native) ↔ (b ≡ false)
native_iff rx s date args true = (λ h. cc, λ h. cc)
native_iff rx s date args false = (λ h. refl, λ h. refl)

reached_iff :
    (rx : Regexps) (s : FetchSetting) (date : Text) (args : FetchArgs) (r : Result ParsedProps)
    → (reached rx s date args (props_of r) ≡ native)
      ↔ ((ps : ParsedProps) × (r ≡ ok ps) × (match_fetch_args rx ps args ≡ false))
reached_iff rx s date args (throw e) = (λ h. cc, λ (ps, p, m). cc)
reached_iff rx s date args (ok props) =
    let (f, g) = native_iff rx s date args (match_fetch_args rx props args) in
    ((λ h. (props, refl, f h)), λ (ps, p, m). g (ap (matches props) p ∙ m))
  where
    matches : ParsedProps → Result ParsedProps → Bool
    matches d (throw e) = match_fetch_args rx d args
    matches d (ok ps) = match_fetch_args rx ps args

-- Once the scriptlet is in place, a call of `fetch` reaches the network exactly if the properties parse
-- and its arguments do not match them; if they do not parse, no call does.
pub fetch_proxy-native_iff :
    (rx : Regexps) (props : Text) (kind type : Option Text) (date : Text) (args : FetchArgs)
    {s : FetchSetting}
    → prevent_fetch rx props kind type ≡ some s
    → (fetch_proxy rx s date args ≡ native) ↔ (
        (ps : ParsedProps) × (parse_props_to_match rx props ≡ ok ps)
        × (match_fetch_args rx ps args ≡ false))
unfolding prevent_fetch fetch_proxy
fetch_proxy-native_iff rx props kind type date args {s} h =
    let same = setting_for-parsed_props rx props type _ h in
    let (f, g) = reached_iff rx s date args (parse_props_to_match rx props) in
    (
      (λ k. f (ap (reached rx s date args) (sym same) ∙ opened s.parsed_props ∙ k)),
      λ k. sym (opened s.parsed_props) ∙ ap (reached rx s date args) same ∙ g k,
    )
  where
    opened :
        (o : Option ParsedProps)
        → reached rx s date args o ≡ (elim o [
          | none ↦ rejected
          | some ps ↦ matched_fetch s date args (match_fetch_args rx ps args)
        ])
    opened none = refl
    opened (some ps) = refl
