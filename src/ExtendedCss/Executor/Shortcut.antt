-- ===== src/ExtendedCss/Executor/Shortcut.antt =====
-- Leaving the loop over the steps at an empty list changes no result.
use zen_desktop_localcdn.Common.{
  true, false, List, [], ◌∷◌, ◌≡◌, codes, text_eq, Bool-cases, inl, inr, Result, ok, ◌>>=◌,
  bind-eq-ok, ok_or, ap, sym, is_empty,
}
use zen_desktop_localcdn.ExtendedCss.Env.{Env, Element}
use zen_desktop_localcdn.ExtendedCss.Step.{
  Step, raw_query, raw_matches, matches_path, upward_selector, is, is_not, boxed_string, Selector,
  stop, step,
}
use zen_desktop_localcdn.ExtendedCss.Executor.Walks.{filter_ok, finds}
use zen_desktop_localcdn.ExtendedCss.Executor.{run, run_selector, match_loop, unless_empty}

-- The steps one after the other, with no way out of the loop.
abbrev pub run_all : Env → Selector → List Element → Result (List Element)
run_all env stop els = ok els
run_all env (step s rest) els = run env s els >>= run_all env rest

ok-nil : {els : List Element} → ok [] ≡ ok els → els ≡ []
ok-nil h = sym (ap (ok_or []) h)

-- A step that is given no element returns none, if it returns.
run-nil : (env : Env) (s : Step) {els : List Element} → run env s [] ≡ ok els → els ≡ []
unfolding run filter_ok
run-nil env (raw_query q) h = ok-nil h
run-nil env (raw_matches q) h = elim (Bool-cases (text_eq q (codes "*"))) [
  | inl e ↦ ok-nil (rw e at h)
  | inr n ↦ ok-nil (rw n at h)
]
run-nil env (matches_path m) h = elim (Bool-cases (finds env.regexps m env.pathname)) [
  | inl e ↦ ok-nil (rw e at h)
  | inr n ↦ ok-nil (rw n at h)
]
run-nil env (upward_selector s) h = elim (Bool-cases (is_empty s)) [
  | inl e ↦ ok-nil (rw e at h)
  | inr n ↦ ok-nil (rw n at h)
]
run-nil env (is list) h =
    let (matched, m, f) =
      bind-eq-ok (match_loop env list true [] (env.document_element ∷ [])) _ h in
    ok-nil f
run-nil env (is_not list) h =
    let (matched, m, f) =
      bind-eq-ok (match_loop env list false [] (env.document_element ∷ [])) _ h in
    ok-nil f
run-nil env (boxed_string s) h = cc
run-nil env _ h = ok-nil h

-- So the rest of the steps returns none.
run_all-nil : (env : Env) (s : Selector) {els : List Element} → run_all env s [] ≡ ok els → els ≡ []
run_all-nil env stop h = ok-nil h
run_all-nil env (step s rest) h =
    let (found, r, h') = bind-eq-ok (run env s []) _ h in
    run_all-nil env rest (rw (run-nil env s r) at h')

unless_empty-run_all :
    (env : Env) (rest : Selector) (found : List Element) {els : List Element}
    → ((acc : List Element) → run_all env rest acc ≡ ok els → run_selector env rest acc ≡ ok els)
    → run_all env rest found ≡ ok els
    → unless_empty (run_selector env rest) found ≡ ok els
unless_empty-run_all env rest [] ih h = ap ok (sym (run_all-nil env rest h))
unless_empty-run_all env rest (e ∷ es) ih h = ih (e ∷ es) h

-- If all steps return when they are run one after the other, the loop that stops at an empty list
-- returns the same elements.
pub run_all-run_selector :
    (env : Env) (s : Selector) (input : List Element) {els : List Element}
    → run_all env s input ≡ ok els
    → run_selector env s input ≡ ok els
unfolding run
run_all-run_selector env stop input h = h
run_all-run_selector env (step s rest) input h =
    let (found, r, h') = bind-eq-ok (run env s input) _ h in
    rw r (unless_empty-run_all env rest found (λ acc. run_all-run_selector env rest acc) h')
