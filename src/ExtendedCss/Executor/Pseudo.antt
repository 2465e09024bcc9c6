-- ===== src/ExtendedCss/Executor/Pseudo.antt =====
-- What `:has()`, `:is()` and `:not()` keep.
use mathlib.Core.Path.{fun_ext}
use zen_desktop_localcdn.Common.{
  Bool, true, false, not, List, [], ◌∷◌, ◌≡◌, refl, sym, ◌∙◌, if◌then◌else◌, arith, Result, ok,
  throw, ◌>>=◌, bind-eq-ok, ok_or, ap,
}
use zen_desktop_localcdn.Common.Sets.{nat_eq, contains, insert_all}
use zen_desktop_localcdn.ExtendedCss.Env.{Env, Element}
use zen_desktop_localcdn.ExtendedCss.Step.{is, is_not, SelectorList, end, alt}
use zen_desktop_localcdn.ExtendedCss.Executor.Walks.{filter_ok}
use zen_desktop_localcdn.ExtendedCss.Executor.Run.{some_selector, contains-match}
use zen_desktop_localcdn.ExtendedCss.Executor.{run, run_selector, match_loop, match, add_matches}

-- The elements that pass a test, each as often as it stands in the list.
abbrev pub keep : (Element → Bool) → List Element → List Element
keep p [] = []
keep p (e ∷ es) = if p e then e ∷ keep p es else keep p es

filter_ok-ok :
    (p : Element → Bool) (es : List Element) → filter_ok (λ e. ok (p e)) es ≡ ok (keep p es)
unfolding filter_ok
filter_ok-ok p [] = refl
filter_ok-ok p (e ∷ es) = rw (filter_ok-ok p es) (ground arith)

add_matches-forgiving :
    (acc : List Element) (r : Result (List Element)) (k k' : List Element → Result (List Element))
    {els : List Element}
    → ((acc' : List Element) → k acc' ≡ ok els → k' acc' ≡ ok els)
    → (add_matches false acc r >>= k) ≡ ok els
    → (add_matches true acc r >>= k') ≡ ok els
add_matches-forgiving acc (ok found) k k' ih h = ih (insert_all acc found) h
add_matches-forgiving acc (throw x) k k' ih h = cc

match_loop-forgiving :
    (env : Env) (list : SelectorList) (acc input : List Element) {els : List Element}
    → match_loop env list false acc input ≡ ok els
    → match_loop env list true acc input ≡ ok els
unfolding run
match_loop-forgiving env end acc input h = h
match_loop-forgiving env (alt selector rest) acc input h =
    add_matches-forgiving acc (run_selector env selector input)
      (λ acc'. match_loop env rest false acc' input) (λ acc'. match_loop env rest true acc' input)
      (λ acc'. match_loop-forgiving env rest acc' input) h

keep_ext :
    (p q : Element → Bool) (es : List Element) → ((e : Element) → p e ≡ q e) → keep p es ≡ keep q es
keep_ext p q es same = rw (fun_ext same)

match-forgiving :
    (env : Env) (list : SelectorList) (input : List Element) {els : List Element}
    → match env list false input ≡ ok els
    → match env list true input ≡ ok els
unfolding match
match-forgiving env list input h = match_loop-forgiving env list [] input h

-- What `:is()` and `:not()` look for: the elements that some selector of the argument finds in the
-- document.
abbrev pub in_document : Env → SelectorList → Element → Bool
in_document env list = some_selector env list (env.document_element ∷ [])

run-is_not :
    (env : Env) (list : SelectorList) (input : List Element) {kept : List Element}
    → run env (is_not list) input ≡ ok kept
    → (matched : List Element) × (match env list false (env.document_element ∷ []) ≡ ok matched)
      × (ok (keep (λ e. not (contains matched e)) input) ≡ ok kept)
unfolding run match
run-is_not env list input h =
    let (matched, m, f) =
      bind-eq-ok (match_loop env list false [] (env.document_element ∷ []))
        (λ matched. filter_ok (λ e. ok (not (contains matched e))) input) h in
    (matched, m, sym (filter_ok-ok (λ e. not (contains matched e)) input) ∙ f)

run-is :
    (env : Env) (list : SelectorList) (input matched : List Element)
    → match env list true (env.document_element ∷ []) ≡ ok matched
    → run env (is list) input ≡ ok (keep (contains matched) input)
unfolding run match
run-is env list input matched h = rw h (filter_ok-ok (contains matched) input)

-- `:not()` that returns has left out exactly the elements that its argument finds in the document,
-- and `:is()` with the same argument and input keeps exactly these; both keep the order and the
-- repetitions of the input.
pub run-is_not-is :
    (env : Env) (list : SelectorList) (input : List Element) {kept : List Element}
    → run env (is_not list) input ≡ ok kept
    → (kept ≡ keep (λ e. not (in_document env list e)) input)
      × (run env (is list) input ≡ ok (keep (in_document env list) input))
run-is_not-is env list input h =
    let (matched, m, f) = run-is_not env list input h in
    let found = λ (e : Element). contains-match env list false (env.document_element ∷ []) e m in
    (
      sym (ap (ok_or []) f) ∙ keep_ext _ _ input (λ e. ap not (found e)),
      run-is env list input matched (match-forgiving env list (env.document_element ∷ []) m)
          ∙ ap ok (keep_ext _ _ input found),
    )
