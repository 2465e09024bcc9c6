-- ===== src/Scriptlets/Timers/Selection.antt =====
-- Which timers are selected.
use mathlib.Core.Path.{subst}
use zen_desktop_localcdn.Common.{
  ℕ, Bool, true, false, not, ◌&&◌, ◌||◌, [], ◌∷◌, Option, none, some, ==_iff, if◌then◌else◌, Text,
  is_empty, ◌≡◌, ◌↔◌, refl, sym, ap, ◌∙◌, arith,
}
use zen_desktop_localcdn.Common.Ints.{ℤ, pos, negsuc, parse_int}
use zen_desktop_localcdn.Regexp.{RegExp, Regexps, parse_search}
use zen_desktop_localcdn.Scriptlets.Timers.{
  Callback, function_of, code_of, no_callback, parse_reverse, search_regexp, delay_match,
  is_valid_delay_number, int_eq, same_delay, differs, callback_matches, select, prevent_text,
  should_prevent,
}

-- `String(callback)`, of a function or a text.
abbrev pub text_of : Callback → Option Text
text_of (function_of s) = some s
text_of (code_of s) = some s
text_of no_callback = none

-- The empty expression parses, and is found in every text.
abbrev pub EmptyMatches : Regexps → Type 0
EmptyMatches rx =
    (re : RegExp) × (parse_search rx [] ≡ some re) × ((s : Text) → rx.test re s ≡ true)

-- The callback's text holds the search, or does not for an inverted one; a search that does not parse
-- is ignored.
abbrev pub CallbackMatches : Regexps → Text → Text → Type 0
CallbackMatches rx sought text =
    (re : RegExp)
    → search_regexp rx sought ≡ some re
    → rx.test re text ≡ not (parse_reverse sought).is_reverse

-- The delay is the number that the text begins with, or is not for an inverted one; a text that begins
-- with no number is ignored.
abbrev pub DelayMatches : Text → Text → Type 0
DelayMatches wanted delay =
    (n : ℤ)
    → delay_match wanted ≡ some n
    → ((parse_int delay ≡ some n) ↔ ((parse_reverse wanted).is_reverse ≡ false))

abbrev magnitude : ℤ → ℕ
magnitude (pos n) = n
magnitude (negsuc n) = n

abbrev int_or : ℤ → Option ℤ → ℤ
int_or n none = n
int_or n (some i) = i

abbrev text_or : Text → Option Text → Text
text_or t none = t
text_or t (some s) = s

abbrev re_or : RegExp → Option RegExp → RegExp
re_or r none = r
re_or r (some q) = q

int_eq_iff : (a b : ℤ) → (int_eq a b ≡ true) ↔ (a ≡ b)
int_eq_iff (pos m) (pos n) =
    ((λ h. ap pos ((==_iff m n).0 h)), λ h. (==_iff m n).1 (ap magnitude h))
int_eq_iff (negsuc m) (negsuc n) =
    ((λ h. ap negsuc ((==_iff m n).0 h)), λ h. (==_iff m n).1 (ap magnitude h))
int_eq_iff (pos m) (negsuc n) = (λ h. cc, λ h. cc)
int_eq_iff (negsuc m) (pos n) = (λ h. cc, λ h. cc)

same_delay_iff : (o : Option ℤ) (n : ℤ) → (same_delay o n ≡ true) ↔ (o ≡ some n)
same_delay_iff none n = (λ h. cc, λ h. cc)
same_delay_iff (some d) n = ((λ h. ap some ((int_eq_iff d n).0 h)), λ h. (int_eq_iff d n).1 cc)

-- A test and a mark that differ.
differs_iff : (a b : Bool) → (differs a b ≡ true) ↔ (a ≡ not b)
differs_iff true true = ground arith
differs_iff true false = ground arith
differs_iff false true = ground arith
differs_iff false false = ground arith

differs-same_delay :
    (o : Option ℤ) (n : ℤ) (b : Bool)
    → (differs (same_delay o n) b ≡ true) ↔ ((o ≡ some n) ↔ (b ≡ false))
differs-same_delay o n b = both (same_delay o n) b (same_delay_iff o n)
  where
    both :
        (a b : Bool)
        → ((a ≡ true) ↔ (o ≡ some n))
        → (differs a b ≡ true) ↔ ((o ≡ some n) ↔ (b ≡ false))
    both true true (f, g) = (λ h. cc, λ (k, l). sym (k (f refl)))
    both true false (f, g) = (λ h. (λ e. refl, λ e. f refl), λ k. refl)
    both false true (f, g) = (λ h. (λ e. sym (g e), λ e. cc), λ k. refl)
    both false false (f, g) = (λ h. cc, λ (k, l). g (l refl))

callback_matches_iff :
    (rx : Regexps) (o : Option RegExp) (text : Text) (b : Bool)
    → (callback_matches rx o text b ≡ true)
      ↔ ((re : RegExp) → o ≡ some re → rx.test re text ≡ not b)
callback_matches_iff rx none text b = (λ h re e. cc, λ k. refl)
callback_matches_iff rx (some r) text b = (
  (λ h re e. ap (λ q. rx.test (re_or r q) text) (sym e) ∙ (differs_iff (rx.test r text) b).0 h),
  λ k. (differs_iff (rx.test r text) b).1 (k r refl),
)

both :
    (b m d : Bool)
    → (b ≡ true → m ≡ true)
    → (if b then d else m && d) ≡ true
    → (m ≡ true) × (d ≡ true)
both b m d k h = ground arith

joined : (b m d : Bool) → m ≡ true → d ≡ true → (if b then d else m && d) ≡ true
joined b m d h k = ground arith

select_iff :
    (no_search matches : Bool) (delay_matches : ℤ → Bool) (o : Option ℤ)
    → (no_search ≡ true → matches ≡ true)
    → (select no_search matches delay_matches o ≡ true)
      ↔ ((matches ≡ true) × ((n : ℤ) → o ≡ some n → delay_matches n ≡ true))
select_iff b m dm none k = ((λ h. (h, λ n e. cc)), λ (h, l). h)
select_iff b m dm (some n) k = (forth, back)
  where
    forth : select b m dm (some n) ≡ true → (m ≡ true) × ((i : ℤ) → some n ≡ some i → dm i ≡ true)
    forth h = let (p, q) = both b m (dm n) k h in (p, λ i e. ap (λ o. dm (int_or n o)) (sym e) ∙ q)

    back : (m ≡ true) × ((i : ℤ) → some n ≡ some i → dm i ≡ true) → select b m dm (some n) ≡ true
    back (p, q) = joined b m (dm n) p (q n refl)

empty_matches :
    (rx : Regexps) (sought text : Text)
    → EmptyMatches rx
    → is_empty sought ≡ true
    → callback_matches rx (search_regexp rx sought) text (parse_reverse sought).is_reverse ≡ true
unfolding parse_search
empty_matches rx [] text (re, p, t) h =
    ap (λ o. callback_matches rx o text false) p ∙ ap (λ b. differs b false) (t text)
empty_matches rx (c ∷ s) text e h = cc

guarded_iff :
    (a b c : Bool) → ((if not a && not b then false else c) ≡ true) ↔ ((a || b ≡ true) × (c ≡ true))
guarded_iff a b c = ground arith

prevent_text_iff :
    (rx : Regexps) (is_finite : Text → Bool) (text delay sought wanted : Text)
    → EmptyMatches rx
    → (prevent_text rx is_finite text delay sought wanted ≡ true) ↔ (
        (is_empty wanted || is_valid_delay_number is_finite wanted ≡ true)
        × CallbackMatches rx sought text
        × DelayMatches wanted delay)
prevent_text_iff rx is_finite text delay sought wanted e =
    let guard = guarded_iff (is_empty wanted) (is_valid_delay_number is_finite wanted) (
      select (is_empty sought)
        (callback_matches rx (search_regexp rx sought) text (parse_reverse sought).is_reverse)
        (λ n. differs (same_delay (parse_int delay) n) (parse_reverse wanted).is_reverse)
        (delay_match wanted)) in
    let found =
      callback_matches_iff rx (search_regexp rx sought) text (parse_reverse sought).is_reverse in
    let chosen =
      select_iff (is_empty sought) _
        (λ n. differs (same_delay (parse_int delay) n) (parse_reverse wanted).is_reverse)
        (delay_match wanted) (empty_matches rx sought text e) in
    (
      λ h.
          let (v, k) = guard.0 h in
          let (m, d) = chosen.0 k in (v, found.0 m, λ n q. (timed n).0 (d n q)),
      λ (v, m, d). guard.1 (v, chosen.1 (found.1 m, λ n q. (timed n).1 (d n q))),
    )
  where
    timed :
        (n : ℤ)
        → (differs (same_delay (parse_int delay) n) (parse_reverse wanted).is_reverse ≡ true)
          ↔ ((parse_int delay ≡ some n) ↔ ((parse_reverse wanted).is_reverse ≡ false))
    timed n = differs-same_delay (parse_int delay) n (parse_reverse wanted).is_reverse

with_text :
    {P V : Type 0} {M : Text → Type 0} {D : Type 0} (t : Text)
    → P ↔ (V × M t × D)
    → P ↔ ((text : Text) × (some t ≡ some text) × V × M text × D)
with_text {M = M} t (f, g) = (
  (λ h. (t, refl, (f h).0, (f h).1, (f h).2)),
  λ (text, p, v, m, d). g (v, subst M (sym (ap (text_or t) p)) m, d),
)

-- Beyond the guards, a timer is not given to the page exactly if its callback is a function or a text
-- that holds the search, and its delay is the wanted one; an exclamation mark turns either test round,
-- and a delay that begins with no number is no test. The guards are that a wanted delay must be a
-- finite number. Assumed is that the empty expression is found in every text.
pub should_prevent_iff :
    (rx : Regexps) (is_finite : Text → Bool) (c : Callback) (delay sought wanted : Text)
    → EmptyMatches rx
    → (should_prevent rx is_finite c delay sought wanted ≡ true) ↔ (
        (text : Text) × (text_of c ≡ some text)
        × (is_empty wanted || is_valid_delay_number is_finite wanted ≡ true)
        × CallbackMatches rx sought text
        × DelayMatches wanted delay)
unfolding should_prevent
should_prevent_iff rx is_finite no_callback delay sought wanted e =
    (λ h. cc, λ (text, p, v, m, d). cc)
should_prevent_iff rx is_finite (function_of t) delay sought wanted e =
    with_text {M = CallbackMatches rx sought} t
      (prevent_text_iff rx is_finite t delay sought wanted e)
should_prevent_iff rx is_finite (code_of t) delay sought wanted e =
    with_text {M = CallbackMatches rx sought} t
      (prevent_text_iff rx is_finite t delay sought wanted e)
