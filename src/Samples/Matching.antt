-- ===== src/Samples/Matching.antt =====
-- Runs of executors on the sample page.
use zen_desktop_localcdn.Common.{
  false, List, [], ◌∷◌, codes, ◌≡◌, refl, ok, is_ok, throw, ◌⊎◌, Failure, type_error, ◌||◌, not,
}
use zen_desktop_localcdn.Common.Sets.{nat_eq, contains, NoRepeats}
use zen_desktop_localcdn.ExtendedCss.Env.{Element}
use zen_desktop_localcdn.ExtendedCss.Step.{
  raw_query, child, contains_text, has, is, is_not, upward_distance, exactly, Selector,
  SelectorList, end, alt, selector_of,
}
use zen_desktop_localcdn.ExtendedCss.Executor.{run, run_selector, match}
use zen_desktop_localcdn.ExtendedCss.Executor.Run.{
  some_selector, all_return, contains-match, match-NoRepeats, is_ok-match,
}
use zen_desktop_localcdn.ExtendedCss.Executor.Pseudo.{keep, in_document, run-is_not-is}
use zen_desktop_localcdn.ExtendedCss.Executor.Shortcut.{run_all, run_all-run_selector}
use zen_desktop_localcdn.ExtendedCss.Executor.Termination.{Thrown, match-cases}
use zen_desktop_localcdn.Samples.{sample_env, sample_env-IsTree}

-- `div > :contains(Buy)`
abbrev buy_in_div : Selector
buy_in_div =
    selector_of (raw_query (codes "div") ∷ child ∷ contains_text (exactly (codes "Buy")) ∷ [])

-- `div > :contains(Buy), *`
abbrev two_selectors : SelectorList
two_selectors = alt buy_in_div (alt (selector_of (raw_query (codes "*") ∷ [])) end)

abbrev found : List Element
found = 3 ∷ 1 ∷ 2 ∷ 4 ∷ []

match-two_selectors : match sample_env two_selectors false (0 ∷ []) ≡ ok found
unfolding match
match-two_selectors = refl

-- `:contains(Buy):upward(1)`
upward_from_text :
    run_selector sample_env
      (selector_of
        (raw_query (codes "*") ∷ contains_text (exactly (codes "Buy")) ∷ upward_distance 1 ∷ []))
      (0 ∷ [])
    ≡ ok (2 ∷ [])
unfolding run_selector
upward_from_text = refl

contains-match_example : contains found 4 ≡ some_selector sample_env two_selectors (0 ∷ []) 4
contains-match_example =
    contains-match sample_env two_selectors false (0 ∷ []) 4 match-two_selectors

match-NoRepeats_example : NoRepeats found
match-NoRepeats_example =
    match-NoRepeats sample_env two_selectors false (0 ∷ []) match-two_selectors

-- A selector that the DOM rejects.
abbrev with_bad_query : SelectorList
with_bad_query = alt (selector_of (raw_query (codes "p[") ∷ [])) two_selectors

is_ok-match_example :
    is_ok (match sample_env with_bad_query false (0 ∷ []))
    ≡ (false || all_return sample_env with_bad_query (0 ∷ []))
is_ok-match_example = is_ok-match sample_env with_bad_query false (0 ∷ [])

match-cases_example :
    ((found : List Element) × (match sample_env with_bad_query false (0 ∷ []) ≡ ok found))
    ⊎ ((x : Failure) × (match sample_env with_bad_query false (0 ∷ []) ≡ throw x)
        × ((x ≡ type_error) ⊎ Thrown sample_env x))
match-cases_example = match-cases sample_env sample_env-IsTree with_bad_query false (0 ∷ [])

-- `:not(div > :contains(Buy))`
run_not_buy : run sample_env (is_not (alt buy_in_div end)) (1 ∷ 3 ∷ 4 ∷ []) ≡ ok (1 ∷ 4 ∷ [])
unfolding run
run_not_buy = refl

run-is_not-is_example :
    (1 ∷ 4 ∷ [] ≡ keep (λ e. not (in_document sample_env (alt buy_in_div end) e)) (1 ∷ 3 ∷ 4 ∷ []))
    × (run sample_env (is (alt buy_in_div end)) (1 ∷ 3 ∷ 4 ∷ [])
        ≡ ok (keep (in_document sample_env (alt buy_in_div end)) (1 ∷ 3 ∷ 4 ∷ [])))
run-is_not-is_example = run-is_not-is sample_env (alt buy_in_div end) (1 ∷ 3 ∷ 4 ∷ []) run_not_buy

-- `:has(> :contains(Buy))`
abbrev child_with_text : SelectorList
child_with_text = alt (selector_of (child ∷ contains_text (exactly (codes "Buy")) ∷ [])) end

run_has_buy : run sample_env (has child_with_text) (1 ∷ 2 ∷ 3 ∷ []) ≡ ok (2 ∷ [])
unfolding run
run_has_buy = refl

run_all_buy : run_all sample_env buy_in_div (0 ∷ []) ≡ ok (3 ∷ [])
unfolding run
run_all_buy = refl

run_all-run_selector_example : run_selector sample_env buy_in_div (0 ∷ []) ≡ ok (3 ∷ [])
run_all-run_selector_example = run_all-run_selector sample_env buy_in_div (0 ∷ []) run_all_buy
