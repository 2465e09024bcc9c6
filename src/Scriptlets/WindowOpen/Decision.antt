-- ===== src/Scriptlets/WindowOpen/Decision.antt =====
-- The two syntaxes select the same addresses.
use zen_desktop_localcdn.Common.{
  ℕ, Bool, true, false, not, ◌∷◌, Option, none, some, ◌==◌, Text, ◌≡◌, refl, sym, ap, ◌∙◌,
  Bool-cases, inl, inr, ok, bind-eq-ok, ok_or,
}
use zen_desktop_localcdn.Regexp.{RegExp, Regexps, parse_search}
use zen_desktop_localcdn.Scriptlets.WindowOpen.{
  Address, OldHandler, NewHandler, search_of, make_old_syntax_handler, match_of,
  make_new_syntax_handler, Handler, old_syntax, new_syntax, Outcome, original, open_window,
  prevents, url_of, Pattern, frame, object_element, blank, Decoy, act_of, guarded, replacement_of,
  delay_of, decoy_of, required, with_inversion,
}

-- The call goes to the original function as it is.
abbrev pub passes : Outcome → Bool
passes original = true
passes o = false

abbrev decides : Regexps → Bool → Option RegExp → Address → Bool
decides rx invert re a = elim (url_of a) [
  | none ↦ true
  | some url ↦ not (prevents rx invert re url)
]

-- The decision of a handler.
abbrev decision : Regexps → Handler → Address → Bool
decision rx (old_syntax h) a = decides rx h.invert_match h.match_re a
decision rx (new_syntax h) a = decides rx h.new_invert h.new_re a

passes-guarded :
    (rx : Regexps) (invert : Bool) (re : Option RegExp) (act : Text → Outcome) (o : Option Text)
    → ((url : Text) → passes (act url) ≡ false)
    → passes (guarded rx invert re act o)
      ≡ (elim o [ none ↦ true | some url ↦ not (prevents rx invert re url) ])
passes-guarded rx invert re act none h = refl
passes-guarded rx invert re act (some url) h = elim (Bool-cases (prevents rx invert re url)) [
  | inl p ↦ rw p (h url)
  | inr p ↦ rw p refl
]

passes-act_of :
    (w : Bool) (k : Decoy) (delay : _) (url : Text) → passes (act_of w k delay url) ≡ false
passes-act_of w blank delay url = refl
passes-act_of w frame delay url = refl
passes-act_of true object_element delay url = refl
passes-act_of false object_element delay url = refl

passes-open_window :
    (rx : Regexps) (w : Bool) (h : Handler) (a : Address)
    → passes (open_window rx w h a) ≡ decision rx h a
unfolding open_window
passes-open_window rx w (old_syntax h) a =
    passes-guarded rx h.invert_match h.match_re _ (url_of a) (λ url. refl)
passes-open_window rx w (new_syntax h) a =
    passes-guarded rx h.new_invert h.new_re _ (url_of a) (passes-act_of w h.decoy h.delay_seconds)

same_decision :
    (rx : Regexps) (a : Address) {i j : Bool} {q r : Option RegExp}
    → i ≡ j
    → q ≡ r
    → decides rx i q a ≡ decides rx j r a
same_decision rx a e f = rw e (rw f refl)

required-ok : (q : Option RegExp) {o : Option RegExp} → required q ≡ ok o → o ≡ q
required-ok none h = cc
required-ok (some re) h = cc

with_inversion-ok :
    (i : Bool) (q : Option RegExp) {p : Pattern}
    → with_inversion i (required q) ≡ ok p
    → (p.inverted ≡ i) × (p.pattern_re ≡ q)
with_inversion-ok i none h = cc
with_inversion-ok i (some re) {p} h =
    (sym (ap (λ r. (ok_or p r).inverted) h) ∙ refl, sym (ap (λ r. (ok_or p r).pattern_re) h) ∙ refl)

-- What the old syntax makes of a text that is not empty, and the new one of the same text.
old_decision :
    (rx : Regexps) (zero : Bool) (c : ℕ) (s : Text) (r : Option Text) {h : OldHandler}
    → make_old_syntax_handler rx zero (some (c ∷ s)) r ≡ ok h
    → (h.invert_match ≡ zero) × (h.match_re ≡ parse_search rx (c ∷ s))
unfolding make_old_syntax_handler
old_decision rx zero c s r {h} e =
    let (re, f, g) = bind-eq-ok (search_of rx (some (c ∷ s))) _ e in
    let (v, _, k) = bind-eq-ok (replacement_of r) _ g in
    (
      sym (ap (λ q. (ok_or h q).invert_match) k),
      sym (ap (λ q. (ok_or h q).match_re) k) ∙ required-ok _ f,
    )

new_decision :
    (rx : Regexps) (m d r : Option Text) {h : NewHandler}
    → make_new_syntax_handler rx m d r ≡ ok h
    → (p : Pattern) × (match_of rx m ≡ ok p)
      × (h.new_invert ≡ p.inverted)
      × (h.new_re ≡ p.pattern_re)
unfolding make_new_syntax_handler
new_decision rx m d r {h} e =
    let (p, f, g) = bind-eq-ok (match_of rx m) _ e in
    let (v, _, k) = bind-eq-ok (delay_of d) _ g in
    let (y, _, l) = bind-eq-ok (decoy_of r) _ k in
    (p, f, sym (ap (λ q. (ok_or h q).new_invert) l), sym (ap (λ q. (ok_or h q).new_re) l))

match_of-plain :
    (rx : Regexps) (c : ℕ) (s : Text) {p : Pattern}
    → (c == b'!') ≡ false
    → match_of rx (some (c ∷ s)) ≡ ok p
    → (p.inverted ≡ false) × (p.pattern_re ≡ parse_search rx (c ∷ s))
unfolding match_of
match_of-plain rx c s n h = with_inversion-ok false (parse_search rx (c ∷ s)) (rw n at h)

match_of-inverted :
    (rx : Regexps) (s : Text) {p : Pattern}
    → match_of rx (some (b'!' ∷ s)) ≡ ok p
    → (p.inverted ≡ true) × (p.pattern_re ≡ parse_search rx s)
unfolding match_of
match_of-inverted rx s h = with_inversion-ok true (parse_search rx s) h

-- The text of the new syntax that inverts, or not, another text.
abbrev pub prefixed : Bool → Text → Text
prefixed true s = b'!' ∷ s
prefixed false s = s

match_of-prefixed :
    (rx : Regexps) (zero : Bool) (c : ℕ) (s : Text) {p : Pattern}
    → (c == b'!') ≡ false
    → match_of rx (some (prefixed zero (c ∷ s))) ≡ ok p
    → (p.inverted ≡ zero) × (p.pattern_re ≡ parse_search rx (c ∷ s))
match_of-prefixed rx true c s n h = match_of-inverted rx (c ∷ s) h
match_of-prefixed rx false c s n h = match_of-plain rx c s n h

-- For a text that is not empty and does not begin with an exclamation mark: a handler of the old
-- syntax, with `0` or `1` and this text to search, leaves exactly those calls to the original function
-- that a handler of the new syntax leaves to it, with the same text behind an exclamation mark for `0`,
-- and as it is for `1`.
pub old_syntax-new_syntax :
    (rx : Regexps) (zero : Bool) (c : ℕ) (s : Text) (r d r2 : Option Text) (w w2 : Bool)
    (a : Address) {old : OldHandler} {new : NewHandler}
    → (c == b'!') ≡ false
    → make_old_syntax_handler rx zero (some (c ∷ s)) r ≡ ok old
    → make_new_syntax_handler rx (some (prefixed zero (c ∷ s))) d r2 ≡ ok new
    → passes (open_window rx w (old_syntax old) a) ≡ passes (open_window rx w2 (new_syntax new) a)
old_syntax-new_syntax rx zero c s r d r2 w w2 a {old} {new} n e f =
    let (i, q) = old_decision rx zero c s r e in
    let (p, m, j, t) = new_decision rx (some (prefixed zero (c ∷ s))) d r2 f in
    let (u, v) = match_of-prefixed rx zero c s n m in
    passes-open_window rx w (old_syntax old) a
    ∙ same_decision rx a (i ∙ sym u ∙ sym j) (q ∙ sym v ∙ sym t)
    ∙ sym (passes-open_window rx w2 (new_syntax new) a)
