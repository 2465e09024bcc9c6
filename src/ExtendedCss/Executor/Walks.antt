-- ===== src/ExtendedCss/Executor/Walks.antt =====
-- The parts of the methods `run` that hold no selector: selectorList/raw.ts, combinators/, and the
-- tests of contains.ts, matchesAttr.ts, matchesCSS.ts, minTextLength.ts and upward.ts.
use zen_desktop_localcdn.Common.{
  ℕ, zero, suc, Bool, true, false, not, ◌&&◌, List, [], ◌∷◌, ◌++◌, Option, none, some,
  if◌then◌else◌, Text, is_empty, codes, text_eq, includes, Result, ok, throw, ◌>>=◌, out_of_fuel,
  leb, length,
}
use zen_desktop_localcdn.Common.Sets.{nat_eq, insert, insert_all}
use zen_desktop_localcdn.Regexp.{Regexps}
use zen_desktop_localcdn.ExtendedCss.Env.{Env, Element}
use zen_desktop_localcdn.ExtendedCss.Step.{Matcher, pattern_of, exactly, CssArgs, AttrArgs}

-- `input.filter` with a test that can throw.
unfoldable pub filter_ok : (Element → Result Bool) → List Element → Result (List Element)
filter_ok p [] = ok []
filter_ok p (e ∷ es) = p e >>= λ b. filter_ok p es >>= λ rest. ok (if b then e ∷ rest else rest)

-- `RawQuery.run`
unfoldable pub query_all : Env → Text → List Element → Result (List Element)
query_all env query [] = ok []
query_all env query (e ∷ es) = env.query_selector_all e query >>= λ selected.
    query_all env query es >>= λ rest. ok (selected ++ rest)

-- `Child.run`
unfoldable pub child_elements : Env → List Element → List Element
child_elements env [] = []
child_elements env (e ∷ es) = env.children e ++ child_elements env es

-- `Descendant.run`, onto the set `acc`
unfoldable pub descendants : Env → List Element → List Element → Result (List Element)
unfolding insert_all
descendants env acc [] = ok acc
descendants env acc (e ∷ es) =
    env.query_selector_all e (codes "*") >>= λ found. descendants env (insert_all acc found) es

abbrev push_some : Option Element → List Element → List Element
push_some none es = es
push_some (some e) es = e ∷ es

-- `NextSibling.run`
unfoldable pub next_siblings : Env → List Element → List Element
next_siblings env [] = []
next_siblings env (e ∷ es) = push_some (env.next_element_sibling e) (next_siblings env es)

-- `while (sib) { result.add(sib); sib = sib.nextElementSibling; }`
unfoldable pub sibling_loop : Env → ℕ → List Element → Option Element → Result (List Element)
unfolding insert
sibling_loop env fuel acc none = ok acc
sibling_loop env zero acc (some s) = throw out_of_fuel
sibling_loop env (suc fuel) acc (some s) =
    sibling_loop env fuel (insert acc s) (env.next_element_sibling s)

-- `SubsequentSibling.run`, onto the set `acc`
unfoldable pub subsequent_siblings : Env → List Element → List Element → Result (List Element)
unfolding sibling_loop
subsequent_siblings env acc [] = ok acc
subsequent_siblings env acc (e ∷ es) =
    sibling_loop env (env.following e) acc (env.next_element_sibling e) >>= λ acc'.
    subsequent_siblings env acc' es

-- The loop of `matchDistance`: `none` is a null ancestor.
unfoldable pub ancestor_at : Env → ℕ → Element → Option Element
ancestor_at env zero e = some e
ancestor_at env (suc n) e = elim (env.parent_element e) [
  | none ↦ none
  | some p ↦ ancestor_at env n p
]

unfoldable pub match_distance : Env → ℕ → List Element → List Element
unfolding ancestor_at
match_distance env n [] = []
match_distance env n (e ∷ es) = push_some (ancestor_at env n e) (match_distance env n es)

-- The loop of `matchSelector`.
unfoldable pub find_ancestor : Env → Text → ℕ → Option Element → Result (Option Element)
find_ancestor env selector fuel none = ok none
find_ancestor env selector zero (some p) = throw out_of_fuel
find_ancestor env selector (suc fuel) (some p) =
    let further = find_ancestor env selector fuel (env.parent_element p) in
    env.matches p selector >>= λ hit. if hit then ok (some p) else further

unfoldable pub match_selector : Env → Text → List Element → Result (List Element)
unfolding find_ancestor
match_selector env selector [] = ok []
match_selector env selector (e ∷ es) =
    find_ancestor env selector (env.depth e) (env.parent_element e) >>= λ found.
    match_selector env selector es >>= λ rest. ok (push_some found rest)

-- An expression tests, a text is looked for inside; the empty text is not looked for.
abbrev pub finds : Regexps → Matcher → Text → Bool
finds rx (pattern_of re) s = rx.test re s
finds rx (exactly t) s = not (is_empty t) && includes s t

-- `e.textContent !== null && …`
abbrev pub text_satisfies : Option Text → (Text → Bool) → Bool
text_satisfies none p = false
text_satisfies (some s) p = p s

-- The filter of `Contains.run`.
unfoldable pub matches_text : Env → Matcher → Element → Bool
unfolding includes
matches_text env m e = text_satisfies (env.text_content e) (finds env.regexps m)

-- `MatchesAttr.matches`
abbrev equals : Regexps → Matcher → Text → Bool
equals rx (pattern_of re) s = rx.test re s
equals rx (exactly t) s = text_eq t s

abbrev value_equals : Regexps → Option Matcher → Text → Bool
value_equals rx none s = true
value_equals rx (some m) s = equals rx m s

some_attribute : Regexps → AttrArgs → List (Text × Text) → Bool
some_attribute rx a [] = false
some_attribute rx a ((name, value) ∷ rest) =
    if equals rx a.name name && value_equals rx a.value value
    then true
    else some_attribute rx a rest

-- `MatchesAttr.matchesElement`
unfoldable pub matches_element : Env → AttrArgs → Element → Bool
unfolding some_attribute text_eq
matches_element env a e = some_attribute env.regexps a (env.attributes e)

abbrev computed_equals : Regexps → Matcher → Result Text → Bool
computed_equals rx m (throw e) = false
computed_equals rx (pattern_of re) (ok s) = rx.test re s
computed_equals rx (exactly t) (ok s) = not (is_empty t) && text_eq s t

-- `MatchesCSS.matchesElement`
unfoldable pub matches_computed : Env → CssArgs → Matcher → Element → Bool
unfolding text_eq
matches_computed env a m e =
    computed_equals env.regexps m (env.computed_value e a.pseudo_element a.property)

-- The filter of `MinTextLength.run`.
unfoldable pub is_long : Env → ℕ → Element → Bool
is_long env n e = text_satisfies (env.text_content e) (λ s. leb n (length s))
