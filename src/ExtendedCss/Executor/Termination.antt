-- ===== src/ExtendedCss/Executor/Termination.antt =====
-- The walks over siblings and ancestors end, and with them every step.
use zen_desktop_localcdn.Common.{
  ℕ, zero, suc, ◌≤◌, Bool, true, false, not, List, [], ◌∷◌, Option, none, some, ◌≡◌, refl,
  if◌then◌else◌, arith, Text, codes, text_eq, is_empty, Result, ok, throw, ◌>>=◌, ◌⊎◌, inl, inr,
  Failure, type_error,
}
use zen_desktop_localcdn.Common.Sets.{nat_eq, insert, insert_all, contains}
use zen_desktop_localcdn.ExtendedCss.Env.{Env, Element, IsTree}
use zen_desktop_localcdn.ExtendedCss.Step.{
  Step, raw_query, raw_matches, child, descendant, next_sibling, subsequent_sibling, contains_text,
  matches_path, matches_css, matches_attr, min_text_length, upward_distance, upward_selector, has,
  is, is_not, boxed_string, Selector, stop, step, SelectorList, end, alt,
}
use zen_desktop_localcdn.ExtendedCss.Executor.Walks.{
  filter_ok, query_all, descendants, sibling_loop, subsequent_siblings, find_ancestor,
  match_selector, matches_text, matches_computed, matches_element, is_long,
}
use zen_desktop_localcdn.ExtendedCss.Executor.{
  run, run_selector, match_loop, match, add_matches, unless_empty,
}

-- A call of the DOM throws it.
pub Thrown : Env → Failure → Type 0
Thrown env x =
    ((e : Element) × (q : Text) × (env.query_selector_all e q ≡ throw x))
    ⊎ ((e : Element) × (q : Text) × (env.matches e q ≡ throw x))

module _ (env : Env) (tree : IsTree env) where
  -- A value, an exception of the DOM, or the `TypeError` of a step that is none.
  abbrev Answers : {A : Type 0} → Result A → Type 0
  Answers (ok a) = Unit
  Answers (throw x) = (x ≡ type_error) ⊎ Thrown env x

  bind-Answers :
      {A B : Type 0} (m : Result A) (f : A → Result B)
      → Answers m
      → ((a : A) → Answers (f a))
      → Answers (m >>= f)
  bind-Answers (ok a) f h k = k a
  bind-Answers (throw x) f h k = h

  query-Answers : (e : Element) (q : Text) → Answers (env.query_selector_all e q)
  unfolding Thrown
  query-Answers e q = of (env.query_selector_all e q) refl
    where
      of : (r : Result (List Element)) → env.query_selector_all e q ≡ r → Answers r
      of (ok a) h = tt
      of (throw x) h = inr (inl (e, q, h))

  test-Answers : (e : Element) (q : Text) → Answers (env.matches e q)
  unfolding Thrown
  test-Answers e q = of (env.matches e q) refl
    where
      of : (r : Result Bool) → env.matches e q ≡ r → Answers r
      of (ok a) h = tt
      of (throw x) h = inr (inr (e, q, h))

  filter_ok-Answers :
      (p : Element → Result Bool) (es : List Element)
      → ((e : Element) → Answers (p e))
      → Answers (filter_ok p es)
  unfolding filter_ok
  filter_ok-Answers p [] h = tt
  filter_ok-Answers p (e ∷ es) h =
      bind-Answers (p e) _ (h e)
        (λ b. bind-Answers (filter_ok p es) _ (filter_ok-Answers p es h) (λ rest. tt))

  -- A test that throws nothing.
  pure_filter-Answers :
      (p : Element → Bool) (es : List Element) → Answers (filter_ok (λ e. ok (p e)) es)
  pure_filter-Answers p es = filter_ok-Answers (λ e. ok (p e)) es (λ e. tt)

  query_all-Answers : (q : Text) (es : List Element) → Answers (query_all env q es)
  unfolding query_all
  query_all-Answers q [] = tt
  query_all-Answers q (e ∷ es) =
      bind-Answers (env.query_selector_all e q) _ (query-Answers e q)
        (λ found. bind-Answers (query_all env q es) _ (query_all-Answers q es) (λ rest. tt))

  descendants-Answers : (acc es : List Element) → Answers (descendants env acc es)
  unfolding descendants
  descendants-Answers acc [] = tt
  descendants-Answers acc (e ∷ es) =
      bind-Answers (env.query_selector_all e (codes "*")) _ (query-Answers e (codes "*"))
        (λ found. descendants-Answers (insert_all acc found) es)

  -- The fuel covers the siblings that are left.
  sibling_loop-Answers :
      (fuel : ℕ) (acc : List Element) (e : Element)
      → env.following e ≤ fuel
      → (o : Option Element) → env.next_element_sibling e ≡ o
      → Answers (sibling_loop env fuel acc o)
  unfolding sibling_loop
  sibling_loop-Answers zero acc e h none next = tt
  sibling_loop-Answers zero acc e h (some s) next =
      absurd (omega (arith, tree.following-next e s next))
  sibling_loop-Answers (suc fuel) acc e h none next = tt
  sibling_loop-Answers (suc fuel) acc e h (some s) next =
      sibling_loop-Answers fuel (insert acc s) s (omega (arith, tree.following-next e s next))
        (env.next_element_sibling s) refl

  subsequent_siblings-Answers : (acc es : List Element) → Answers (subsequent_siblings env acc es)
  unfolding subsequent_siblings
  subsequent_siblings-Answers acc [] = tt
  subsequent_siblings-Answers acc (e ∷ es) =
      bind-Answers (sibling_loop env (env.following e) acc (env.next_element_sibling e)) _
        (sibling_loop-Answers (env.following e) acc e (omega arith) (env.next_element_sibling e)
          refl)
        (λ acc'. subsequent_siblings-Answers acc' es)

  hit-Answers :
      (b : Bool) (p : Element) (r : Result (Option Element))
      → Answers r
      → Answers (if b then ok (some p) else r)
  hit-Answers true p r h = tt
  hit-Answers false p r h = h

  find_ancestor-Answers :
      (q : Text) (fuel : ℕ) (e : Element)
      → env.depth e ≤ fuel
      → (o : Option Element) → env.parent_element e ≡ o
      → Answers (find_ancestor env q fuel o)
  unfolding find_ancestor
  find_ancestor-Answers q zero e h none parent = tt
  find_ancestor-Answers q zero e h (some p) parent =
      absurd (omega (arith, tree.depth-parent e p parent))
  find_ancestor-Answers q (suc fuel) e h none parent = tt
  find_ancestor-Answers q (suc fuel) e h (some p) parent =
      let further =
        find_ancestor-Answers q fuel p (omega (arith, tree.depth-parent e p parent))
          (env.parent_element p) refl in
      bind-Answers (env.matches p q) _ (test-Answers p q) (λ b. hit-Answers b p _ further)

  match_selector-Answers : (q : Text) (es : List Element) → Answers (match_selector env q es)
  unfolding match_selector
  match_selector-Answers q [] = tt
  match_selector-Answers q (e ∷ es) =
      bind-Answers (find_ancestor env q (env.depth e) (env.parent_element e)) _
        (find_ancestor-Answers q (env.depth e) e (omega arith) (env.parent_element e) refl)
        (λ found.
          bind-Answers (match_selector env q es) _ (match_selector-Answers q es) (λ rest. tt))

  if-Answers :
      {A : Type 0} (b : Bool) (x y : Result A)
      → Answers x
      → Answers y
      → Answers (if b then x else y)
  if-Answers true x y h k = h
  if-Answers false x y h k = k

  unless_empty-Answers :
      (k : List Element → Result (List Element)) (es : List Element)
      → ((es' : List Element) → Answers (k es'))
      → Answers (unless_empty k es)
  unless_empty-Answers k [] h = tt
  unless_empty-Answers k (e ∷ es) h = h (e ∷ es)

  add_matches-Answers :
      (forgiving : Bool) (acc : List Element) (r : Result (List Element))
      → Answers r
      → Answers (add_matches forgiving acc r)
  add_matches-Answers forgiving acc (ok found) h = tt
  add_matches-Answers true acc (throw x) h = tt
  add_matches-Answers false acc (throw x) h = h

  mutual
    unfolding run

    run-Answers : (s : Step) (input : List Element) → Answers (run env s input)
    run-Answers (raw_query q) input = query_all-Answers q input
    run-Answers (raw_matches q) input =
        if-Answers (text_eq q (codes "*")) _ _ tt
          (filter_ok-Answers _ input (λ e. test-Answers e q))
    run-Answers child input = tt
    run-Answers descendant input = descendants-Answers [] input
    run-Answers next_sibling input = tt
    run-Answers subsequent_sibling input = subsequent_siblings-Answers [] input
    run-Answers (contains_text m) input = pure_filter-Answers (matches_text env m) input
    run-Answers (matches_path m) input = tt
    run-Answers (matches_css a m) input = pure_filter-Answers (matches_computed env a m) input
    run-Answers (matches_attr a) input = pure_filter-Answers (matches_element env a) input
    run-Answers (min_text_length n) input = pure_filter-Answers (is_long env n) input
    run-Answers (upward_distance n) input = tt
    run-Answers (upward_selector q) input =
        if-Answers (is_empty q) _ _ tt (match_selector-Answers q input)
    run-Answers (has list) input = filter_ok-Answers _ input (λ e.
        bind-Answers (match_loop env list false [] (e ∷ [])) _
          (match_loop-Answers list false [] (e ∷ [])) (λ found. tt))
    run-Answers (is list) input =
        bind-Answers (match_loop env list true [] (env.document_element ∷ [])) _
          (match_loop-Answers list true [] (env.document_element ∷ []))
          (λ matched. pure_filter-Answers (contains matched) input)
    run-Answers (is_not list) input =
        bind-Answers (match_loop env list false [] (env.document_element ∷ [])) _
          (match_loop-Answers list false [] (env.document_element ∷ []))
          (λ matched. pure_filter-Answers (λ e. not (contains matched e)) input)
    run-Answers (boxed_string s) input = inl refl

    run_selector-Answers :
        (s : Selector) (input : List Element) → Answers (run_selector env s input)
    run_selector-Answers stop input = tt
    run_selector-Answers (step s rest) input =
        bind-Answers (run env s input) _ (run-Answers s input)
          (λ found. unless_empty-Answers _ found (run_selector-Answers rest))

    match_loop-Answers :
        (list : SelectorList) (forgiving : Bool) (acc input : List Element)
        → Answers (match_loop env list forgiving acc input)
    match_loop-Answers end forgiving acc input = tt
    match_loop-Answers (alt s rest) forgiving acc input =
        bind-Answers (add_matches forgiving acc (run_selector env s input)) _
          (add_matches-Answers forgiving acc (run_selector env s input)
            (run_selector-Answers s input))
          (λ acc'. match_loop-Answers rest forgiving acc' input)

  Answers-cases :
      {A : Type 0} (r : Result A)
      → Answers r
      → ((a : A) × (r ≡ ok a)) ⊎ ((x : Failure) × (r ≡ throw x) × ((x ≡ type_error) ⊎ Thrown env x))
  Answers-cases (ok a) h = inl (a, refl)
  Answers-cases (throw x) h = inr (x, refl, h)

  -- In a finite tree, for every selector list, `match` returns elements, throws an exception that a call
  -- of the DOM throws, or throws a `TypeError` (of a step that is none): the fuel of its walks over
  -- siblings and ancestors is enough.
  pub match-cases :
      (list : SelectorList) (forgiving : Bool) (input : List Element)
      → ((found : List Element) × (match env list forgiving input ≡ ok found))
        ⊎ ((x : Failure) × (match env list forgiving input ≡ throw x)
            × ((x ≡ type_error) ⊎ Thrown env x))
  unfolding match
  match-cases list forgiving input =
      Answers-cases (match env list forgiving input) (match_loop-Answers list forgiving [] input)
