-- ===== src/ExtendedCss/Executor/Run.antt =====
-- Laws of the loop of `SelectorExecutor.match`.
use mathlib.Core.Path.{subst}
use zen_desktop_localcdn.Common.{
  Bool, true, false, ◌&&◌, ◌||◌, List, [], ◌≡◌, refl, arith, Result, ok, throw, ◌>>=◌, is_ok, ok_or,
}
use zen_desktop_localcdn.Common.Sets.{
  nat_eq, contains, insert_all, NoRepeats, NoRepeats-insert_all, contains-insert_all,
}
use zen_desktop_localcdn.ExtendedCss.Env.{Env, Element}
use zen_desktop_localcdn.ExtendedCss.Step.{SelectorList, end, alt}
use zen_desktop_localcdn.ExtendedCss.Executor.{run, run_selector, match_loop, match, add_matches}

-- Whether one selector alone returns the element.
abbrev pub finds_element : Result (List Element) → Element → Bool
finds_element (ok els) e = contains els e
finds_element (throw x) e = false

abbrev pub some_selector : Env → SelectorList → List Element → Element → Bool
some_selector env end input e = false
some_selector env (alt selector rest) input e =
    finds_element (run_selector env selector input) e || some_selector env rest input e

abbrev pub all_return : Env → SelectorList → List Element → Bool
all_return env end input = true
all_return env (alt selector rest) input =
    is_ok (run_selector env selector input) && all_return env rest input

-- One round of the loop: what holds behind it, by what holds behind the rest.
add_matches-contains :
    (forgiving : Bool) (acc : List Element) (r : Result (List Element))
    (k : List Element → Result (List Element)) {els : List Element} (e : Element) (later : Bool)
    → ((acc' : List Element) → k acc' ≡ ok els → contains els e ≡ (contains acc' e || later))
    → (add_matches forgiving acc r >>= k) ≡ ok els
    → contains els e ≡ (contains acc e || (finds_element r e || later))
add_matches-contains forgiving acc (ok found) k e later ih h =
    ground (arith, ih (insert_all acc found) h, contains-insert_all acc found e)
add_matches-contains true acc (throw x) k e later ih h = ih acc h
add_matches-contains false acc (throw x) k e later ih h = cc

contains-match_loop :
    (env : Env) (list : SelectorList) (forgiving : Bool) (acc input : List Element)
    {els : List Element} (e : Element)
    → match_loop env list forgiving acc input ≡ ok els
    → contains els e ≡ (contains acc e || some_selector env list input e)
unfolding run
contains-match_loop env end forgiving acc input e h =
    let same : ok acc ≡ ok _ = h in ground (arith, same)
contains-match_loop env (alt selector rest) forgiving acc input e h =
    add_matches-contains forgiving acc (run_selector env selector input)
      (λ acc'. match_loop env rest forgiving acc' input) e (some_selector env rest input e)
      (λ acc' h'. contains-match_loop env rest forgiving acc' input e h') h

-- If `match` returns, it returns the elements that some selector returns on its own.
pub contains-match :
    (env : Env) (list : SelectorList) (forgiving : Bool) (input : List Element) {els : List Element}
    (e : Element)
    → match env list forgiving input ≡ ok els
    → contains els e ≡ some_selector env list input e
unfolding match contains
contains-match env list forgiving input e h = contains-match_loop env list forgiving [] input e h

add_matches-NoRepeats :
    (forgiving : Bool) (acc : List Element) (r : Result (List Element))
    (k : List Element → Result (List Element)) {els : List Element}
    → NoRepeats acc
    → ((acc' : List Element) → NoRepeats acc' → k acc' ≡ ok els → NoRepeats els)
    → (add_matches forgiving acc r >>= k) ≡ ok els
    → NoRepeats els
add_matches-NoRepeats forgiving acc (ok found) k n ih h =
    ih (insert_all acc found) (NoRepeats-insert_all acc found n) h
add_matches-NoRepeats true acc (throw x) k n ih h = ih acc n h
add_matches-NoRepeats false acc (throw x) k n ih h = cc

match_loop-NoRepeats :
    (env : Env) (list : SelectorList) (forgiving : Bool) (acc input : List Element)
    {els : List Element}
    → NoRepeats acc
    → match_loop env list forgiving acc input ≡ ok els
    → NoRepeats els
unfolding run
match_loop-NoRepeats env end forgiving acc input n h =
    let same : ok acc ≡ ok _ = h in subst (λ r. NoRepeats (ok_or [] r)) same n
match_loop-NoRepeats env (alt selector rest) forgiving acc input n h =
    add_matches-NoRepeats forgiving acc (run_selector env selector input)
      (λ acc'. match_loop env rest forgiving acc' input) n
      (λ acc' n' h'. match_loop-NoRepeats env rest forgiving acc' input n' h') h

-- No element is returned twice.
pub match-NoRepeats :
    (env : Env) (list : SelectorList) (forgiving : Bool) (input : List Element) {els : List Element}
    → match env list forgiving input ≡ ok els
    → NoRepeats els
unfolding match
match-NoRepeats env list forgiving input h = match_loop-NoRepeats env list forgiving [] input tt h

is_ok-add_matches :
    (forgiving : Bool) (acc : List Element) (r : Result (List Element))
    (k : List Element → Result (List Element)) (later : Bool)
    → ((acc' : List Element) → is_ok (k acc') ≡ (forgiving || later))
    → is_ok (add_matches forgiving acc r >>= k) ≡ (forgiving || (is_ok r && later))
is_ok-add_matches forgiving acc (ok found) k later ih = ih (insert_all acc found)
is_ok-add_matches true acc (throw x) k later ih = ih acc
is_ok-add_matches false acc (throw x) k later ih = refl

is_ok-match_loop :
    (env : Env) (list : SelectorList) (forgiving : Bool) (acc input : List Element)
    → is_ok (match_loop env list forgiving acc input) ≡ (forgiving || all_return env list input)
unfolding run
is_ok-match_loop env end forgiving acc input = ground arith
is_ok-match_loop env (alt selector rest) forgiving acc input =
    is_ok-add_matches forgiving acc (run_selector env selector input)
      (λ acc'. match_loop env rest forgiving acc' input) (all_return env rest input)
      (λ acc'. is_ok-match_loop env rest forgiving acc' input)

-- With `forgiving` the call always returns; without it, it returns exactly if each selector does.
pub is_ok-match :
    (env : Env) (list : SelectorList) (forgiving : Bool) (input : List Element)
    → is_ok (match env list forgiving input) ≡ (forgiving || all_return env list input)
unfolding match
is_ok-match env list forgiving input = is_ok-match_loop env list forgiving [] input
