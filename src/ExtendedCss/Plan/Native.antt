-- ===== src/ExtendedCss/Plan/Native.antt =====
-- Selectors with no extended pseudo-class.
use mathlib.Core.List.{append-nil, append_assoc}
use zen_desktop_localcdn.Common.{
  Bool, true, false, List, [], ◌∷◌, ◌++◌, ◌≡◌, refl, ◌∙◌, sym, ap, arith, Text, is_empty, trim, ok,
}
use zen_desktop_localcdn.ExtendedCss.Tokenize.{IrToken, raw_token, comb_token, ext_token}
use zen_desktop_localcdn.ExtendedCss.Step.{raw_query}
use zen_desktop_localcdn.ExtendedCss.Plan.{
  PlanState, NewExt, raw_follows, after, default_token, plan_loop, plan_start, plan, append_css,
  ends_in_comb,
}
use zen_desktop_localcdn.ExtendedCss.Plan.WellFormed.{combs_followed, is_operand}

abbrev pub no_ext : List IrToken → Bool
no_ext [] = true
no_ext (ext_token n a ∷ ts) = false
no_ext (t ∷ ts) = no_ext ts

-- The text of the tokens, one behind the other.
abbrev pub literals : List IrToken → Text
literals [] = []
literals (raw_token l ∷ ts) = l ++ literals ts
literals (comb_token l ∷ ts) = l ++ literals ts
literals (ext_token n a ∷ ts) = literals ts

is_empty-append : (s t : Text) → is_empty s ≡ false → is_empty (s ++ t) ≡ false
is_empty-append [] t h = cc
is_empty-append (c ∷ s) t h = refl

after_raw :
    (ts : List IrToken) → no_ext ts ≡ true → is_operand (after ts) ≡ true → after ts ≡ raw_follows
after_raw [] n o = cc
after_raw (raw_token l ∷ ts) n o = refl
after_raw (comb_token l ∷ ts) n o = cc
after_raw (ext_token k a ∷ ts) n o = cc

-- One round while CSS is collected.
collect :
    (new : NewExt) (st : PlanState) (ts : List IrToken) (t : IrToken)
    → st.steps ≡ []
    → is_empty st.css_builder ≡ false
    → no_ext (t ∷ ts) ≡ true
    → combs_followed (t ∷ ts) ≡ true
    → default_token new st t (after ts) ≡ ok (append_css st (literals (t ∷ [])))
unfolding default_token ends_in_comb
collect new st ts (raw_token l) s c n f =
    let e : ends_in_comb st.steps ≡ false = ap ends_in_comb s in
    rw e (ap (λ x. ok (append_css st x)) (sym (append-nil l)))
collect new st ts (ext_token k a) s c n f = cc
collect new st ts (comb_token l) s c n f =
    rw (after_raw ts n (ground arith)) (rw c (ap (λ x. ok (append_css st x)) (sym (append-nil l))))

no_ext-tail : (t : IrToken) (ts : List IrToken) → no_ext (t ∷ ts) ≡ true → no_ext ts ≡ true
no_ext-tail (raw_token l) ts h = h
no_ext-tail (comb_token l) ts h = h
no_ext-tail (ext_token n a) ts h = cc

combs_followed-tail :
    (t : IrToken) (ts : List IrToken) → combs_followed (t ∷ ts) ≡ true → combs_followed ts ≡ true
combs_followed-tail (raw_token l) ts h = h
combs_followed-tail (comb_token l) ts h = ground arith
combs_followed-tail (ext_token n a) ts h = h

literals-cons :
    (t : IrToken) (ts : List IrToken) → literals (t ∷ ts) ≡ literals (t ∷ []) ++ literals ts
literals-cons (raw_token l) ts = ap (λ x. x ++ literals ts) (sym (append-nil l))
literals-cons (comb_token l) ts = ap (λ x. x ++ literals ts) (sym (append-nil l))
literals-cons (ext_token n a) ts = refl

collect_all :
    (new : NewExt) (ts : List IrToken) (st : PlanState)
    → st.steps ≡ []
    → is_empty st.css_builder ≡ false
    → no_ext ts ≡ true
    → combs_followed ts ≡ true
    → plan_loop (default_token new) st ts ≡ ok (append_css st (literals ts))
unfolding plan_loop
collect_all new [] st s c n f = ap (λ x. ok (record st { css_builder = x })) (sym (append-nil _))
collect_all new (t ∷ ts) st s c n f = rw (collect new st ts t s c n f) (
    collect_all new ts (append_css st (literals (t ∷ []))) s
      (is_empty-append st.css_builder (literals (t ∷ [])) c) (no_ext-tail t ts n)
      (combs_followed-tail t ts f)
    ∙ ap (λ x. ok (record st { css_builder = x }))
        (append_assoc st.css_builder (literals (t ∷ [])) (literals ts)
          ∙ ap (λ x. st.css_builder ++ x) (sym (literals-cons t ts))))

-- A selector that begins with raw CSS and holds no extended pseudo-class is planned as one native
-- query, whose text is that of the tokens joined and trimmed.
pub plan-raw_query :
    (new : NewExt) (l : Text) (ts : List IrToken)
    → is_empty l ≡ false
    → no_ext ts ≡ true
    → combs_followed ts ≡ true
    → is_empty (trim (l ++ literals ts)) ≡ false
    → plan new (raw_token l ∷ ts) ≡ ok (raw_query (trim (l ++ literals ts)) ∷ [])
unfolding plan
plan-raw_query new l ts c n f t =
    rw (collect_all new ts (append_css plan_start l) refl c n f) (rw t)
