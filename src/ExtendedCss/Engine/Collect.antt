-- ===== src/ExtendedCss/Engine/Collect.antt =====
-- What `collectClassMatches` collects.
use zen_desktop_localcdn.Common.{
  Bool, true, false, ◌&&◌, ◌||◌, List, [], ◌∷◌, ◌==◌, if◌then◌else◌, Text, ◌≡◌, arith, Bool-cases,
  inl, inr, Result, ok, throw, text_eq,
}
use zen_desktop_localcdn.Common.Sets.{nat_eq, text_eq_inst, contains, insert, contains-insert}
use zen_desktop_localcdn.ExtendedCss.Env.{Env, Element}
use zen_desktop_localcdn.ExtendedCss.Executor.{match}
use zen_desktop_localcdn.ExtendedCss.Executor.Run.{finds_element}
use zen_desktop_localcdn.ExtendedCss.Engine.Maps.{
  Classes, find, put, find-put, gives, IsMap, put-IsMap,
}
use zen_desktop_localcdn.ExtendedCss.Engine.Give.{contains-set_of}
use zen_desktop_localcdn.ExtendedCss.Engine.Apply.{apply_classes-gives, apply_classes-page}
use zen_desktop_localcdn.ExtendedCss.Engine.{
  Page, Rule, apply_queries, set_of, add_matched, add_result, collect_from, collect_class_matches,
}

-- Whether some rule of the class finds the element, from the document on.
abbrev pub some_rule : Env → List Rule → Element → Text → Bool
some_rule env [] x c = false
some_rule env (r ∷ rules) x c =
    (text_eq c r.class_name
      && finds_element (match env r.selectors false (env.document_element ∷ [])) x)
    || some_rule env rules x c

gives-put-insert :
    (m : Classes) (el : Element) (k : Text) (x : Element) (c : Text)
    → gives (put m el (insert (set_of (find m el)) k)) x c
      ≡ (gives m x c || (x == el && text_eq c k))
gives-put-insert m el k x c = ground (
  arith,
  find-put m el (insert (set_of (find m el)) k) x,
  contains-insert (set_of (find m el)) k c,
  contains-set_of (find m el) c,
)

-- One element of a rule.
add_element :
    (env : Env) (m : Classes) (el : Element) (k : Text) (x : Element) (c : Text)
    → gives (if env.is_html_element el then put m el (insert (set_of (find m el)) k) else m) x c
      ≡ (gives m x c || (env.is_html_element x && (x == el && text_eq c k)))
add_element env m el k x c = elim (Bool-cases (env.is_html_element el)) [
  | inl h ↦ rw h (ground (arith, gives-put-insert m el k x c))
  | inr h ↦ rw h (ground arith)
]

gives-add_matched :
    (env : Env) (k : Text) (m : Classes) (els : List Element) (x : Element) (c : Text)
    → gives (add_matched env k m els) x c
      ≡ (gives m x c || (env.is_html_element x && (contains els x && text_eq c k)))
unfolding add_matched contains
gives-add_matched env k m [] x c = ground arith
gives-add_matched env k m (el ∷ els) x c = ground (
  arith,
  gives-add_matched env k
      (if env.is_html_element el then put m el (insert (set_of (find m el)) k) else m) els x c,
  add_element env m el k x c,
)

gives-add_result :
    (env : Env) (k : Text) (m : Classes) (r : Result (List Element)) (x : Element) (c : Text)
    → gives (add_result env k m r) x c
      ≡ (gives m x c || (env.is_html_element x && (text_eq c k && finds_element r x)))
gives-add_result env k m (ok els) x c = ground (arith, gives-add_matched env k m els x c)
gives-add_result env k m (throw e) x c = ground arith

gives-collect_from :
    (env : Env) (m : Classes) (rules : List Rule) (x : Element) (c : Text)
    → gives (collect_from env m rules) x c
      ≡ (gives m x c || (env.is_html_element x && some_rule env rules x c))
unfolding collect_from
gives-collect_from env m [] x c = ground arith
gives-collect_from env m (r ∷ rules) x c =
    let found = match env r.selectors false (env.document_element ∷ []) in
    ground (
      arith,
      gives-collect_from env (add_result env r.class_name m found) rules x c,
      gives-add_result env r.class_name m found x c,
    )

-- The classes collected for an element are those of the rules that find it, if it is an HTML element;
-- a rule whose evaluation throws finds nothing, and does not touch what the others find.
pub gives-collect_class_matches :
    (env : Env) (rules : List Rule) (x : Element) (c : Text)
    → gives (collect_class_matches env rules) x c
      ≡ (env.is_html_element x && some_rule env rules x c)
unfolding collect_class_matches find
gives-collect_class_matches env rules x c = gives-collect_from env [] rules x c

put_if-IsMap :
    (b : Bool) (m : Classes) (el : Element) (cs : List Text)
    → IsMap m
    → IsMap (if b then put m el cs else m)
put_if-IsMap true m el cs u = put-IsMap m el cs u
put_if-IsMap false m el cs u = u

add_matched-IsMap :
    (env : Env) (k : Text) (m : Classes) (els : List Element)
    → IsMap m
    → IsMap (add_matched env k m els)
unfolding add_matched
add_matched-IsMap env k m [] u = u
add_matched-IsMap env k m (el ∷ els) u =
    add_matched-IsMap env k
      (if env.is_html_element el then put m el (insert (set_of (find m el)) k) else m) els
      (put_if-IsMap (env.is_html_element el) m el (insert (set_of (find m el)) k) u)

add_result-IsMap :
    (env : Env) (k : Text) (m : Classes) (r : Result (List Element))
    → IsMap m
    → IsMap (add_result env k m r)
add_result-IsMap env k m (ok els) u = add_matched-IsMap env k m els u
add_result-IsMap env k m (throw e) u = u

collect_from-IsMap :
    (env : Env) (m : Classes) (rules : List Rule) → IsMap m → IsMap (collect_from env m rules)
unfolding collect_from
collect_from-IsMap env m [] u = u
collect_from-IsMap env m (r ∷ rules) u =
    let found = match env r.selectors false (env.document_element ∷ []) in
    collect_from-IsMap env (add_result env r.class_name m found) rules
      (add_result-IsMap env r.class_name m found u)

collect_class_matches-IsMap :
    (env : Env) (rules : List Rule) → IsMap (collect_class_matches env rules)
unfolding collect_class_matches
collect_class_matches-IsMap env rules = collect_from-IsMap env [] rules tt

-- `applyQueries`, whatever was applied before: the map then gives an HTML element the classes of the
-- rules that find it, and on the page each class of the engine is settled accordingly; a class that
-- was not applied before is added if it is desired, and one that was goes unless it is desired.
pub apply_queries_lem :
    (env : Env) (rules : List Rule) (page : Page) (applied : Classes) (x : Element) (c : Text)
    → IsMap applied
    → env.is_html_element x ≡ true
    → (gives (apply_queries env rules page applied).applied x c ≡ some_rule env rules x c)
      × (contains ((apply_queries env rules page applied).page x) c ≡ (
          if gives applied x c
          then contains (page x) c && some_rule env rules x c
          else contains (page x) c || some_rule env rules x c))
unfolding apply_queries
apply_queries_lem env rules page applied x c u h =
    let d = collect_class_matches-IsMap env rules in
    let g = gives-collect_class_matches env rules x c in
    let a = apply_classes-gives env page applied (collect_class_matches env rules) x c u d in
    let p = apply_classes-page env page applied (collect_class_matches env rules) x c u d in
    (ground (arith, a, g), ground (arith, p, g))
