-- ===== src/ExtendedCss/Executor.antt =====
-- What the steps do (the methods `run`), and jslibs/extended-css/src/engine/selectorExecutor.ts.
-- Elements pass from step to step as lists, in the order in which the code pushes them.
pub mod Walks
pub mod Run
pub mod Pseudo
pub mod Shortcut
pub mod Termination
use zen_desktop_localcdn.Common.{
  ℕ, Bool, true, false, not, List, [], ◌∷◌, if◌then◌else◌, Text, is_empty, codes, includes, text_eq,
  Result, ok, throw, ◌>>=◌, type_error,
}
use zen_desktop_localcdn.Common.Sets.{nat_eq, contains, insert_all}
use zen_desktop_localcdn.ExtendedCss.Env.{Env, Element}
use zen_desktop_localcdn.ExtendedCss.Step.{
  Step, raw_query, raw_matches, child, descendant, next_sibling, subsequent_sibling, contains_text,
  matches_path, matches_css, matches_attr, min_text_length, upward_distance, upward_selector, has,
  is, is_not, boxed_string, Selector, stop, step, SelectorList, end, alt,
}
use Walks.{
  filter_ok, query_all, child_elements, descendants, next_siblings, subsequent_siblings,
  match_distance, match_selector, finds, matches_text, matches_element, matches_computed, is_long,
}

abbrev pub is_non_empty : List Element → Bool
is_non_empty [] = false
is_non_empty (e ∷ es) = true

-- `els.length === 0` ends the loop over the steps; otherwise the next step runs.
abbrev pub unless_empty :
    (List Element → Result (List Element)) → List Element → Result (List Element)
unless_empty k [] = ok []
unless_empty k (e ∷ es) = k (e ∷ es)

-- The `try` around one selector: its elements are added, or its exception is dropped or thrown on.
abbrev pub add_matches : Bool → List Element → Result (List Element) → Result (List Element)
add_matches forgiving acc (ok els) = ok (insert_all acc els)
add_matches true acc (throw e) = ok acc
add_matches false acc (throw e) = throw e

-- `run` for a step, the loop over the steps of a selector, and the loop of `match` over the
-- selectors, with the set collected so far.
unfoldable mutual
  unfolding filter_ok query_all child_elements descendants next_siblings subsequent_siblings
      match_distance match_selector matches_text matches_element matches_computed is_long includes
      contains insert_all text_eq

  pub run : Env → Step → List Element → Result (List Element)
  run env (raw_query query) input = query_all env query input
  run env (raw_matches query) input =
      if text_eq query (codes "*") then ok input else filter_ok (λ e. env.matches e query) input
  run env child input = ok (child_elements env input)
  run env descendant input = descendants env [] input
  run env next_sibling input = ok (next_siblings env input)
  run env subsequent_sibling input = subsequent_siblings env [] input
  run env (contains_text m) input = filter_ok (λ e. ok (matches_text env m e)) input
  run env (matches_path m) input = ok (if finds env.regexps m env.pathname then input else [])
  run env (matches_css a m) input = filter_ok (λ e. ok (matches_computed env a m e)) input
  run env (matches_attr a) input = filter_ok (λ e. ok (matches_element env a e)) input
  run env (min_text_length n) input = filter_ok (λ e. ok (is_long env n e)) input
  run env (upward_distance n) input = ok (match_distance env n input)
  run env (upward_selector s) input = if is_empty s then ok [] else match_selector env s input
  run env (has list) input =
      filter_ok (λ e. match_loop env list false [] (e ∷ []) >>= λ found. ok (is_non_empty found))
        input
  run env (is list) input = match_loop env list true [] (env.document_element ∷ []) >>= λ matched.
      filter_ok (λ e. ok (contains matched e)) input
  run env (is_not list) input =
      match_loop env list false [] (env.document_element ∷ []) >>= λ matched.
      filter_ok (λ e. ok (not (contains matched e))) input
  run env (boxed_string s) input = throw type_error

  pub run_selector : Env → Selector → List Element → Result (List Element)
  run_selector env stop els = ok els
  run_selector env (step s rest) els =
      run env s els >>= λ els'. unless_empty (run_selector env rest) els'

  pub match_loop : Env → SelectorList → Bool → List Element → List Element → Result (List Element)
  match_loop env end forgiving acc input = ok acc
  match_loop env (alt selector rest) forgiving acc input =
      add_matches forgiving acc (run_selector env selector input) >>= λ acc'.
      match_loop env rest forgiving acc' input

-- `SelectorExecutor.match`
unfoldable pub match : Env → SelectorList → Bool → List Element → Result (List Element)
unfolding run
match env list forgiving input = match_loop env list forgiving [] input
