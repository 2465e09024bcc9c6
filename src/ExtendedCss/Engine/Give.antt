-- ===== src/ExtendedCss/Engine/Give.antt =====
-- The second loop of `applyClasses`: classes that are desired and not yet applied are added.
use zen_desktop_localcdn.Common.{
  ℕ, ◌+◌, Bool, true, false, not, ◌&&◌, ◌||◌, List, [], ◌∷◌, Option, none, some, ◌==◌,
  if◌then◌else◌, Text, ◌≡◌, refl, ◌∙◌, ap, arith, Bool-cases, inl, inr,
}
use zen_desktop_localcdn.Common.Sets.{nat_eq, text_eq_inst, contains, insert, contains-insert}
use zen_desktop_localcdn.ExtendedCss.Env.{Env, Element}
use zen_desktop_localcdn.ExtendedCss.Engine.Maps.{
  Classes, find, put, find-put, keys, gives, in_entry, IsMap, put-IsMap,
}
use zen_desktop_localcdn.ExtendedCss.Engine.Retire.{gives-cons, contains-same}
use zen_desktop_localcdn.ExtendedCss.Engine.{
  Page, add_class, add_classes, Applied, set_of, give_one, give,
}

contains-add_class :
    (page : Page) (el : Element) (k : Text) (x : Element) (c : Text)
    → contains (add_class page el k x) c
      ≡ (contains (page x) c || (x == el && text_eq_inst.beq c k))
unfolding add_class
contains-add_class page el k x c = ground (arith, contains-insert (page x) k c)

if_add :
    (page : Page) (el : Element) (k : Text) (x : Element) (c : Text) (b : Bool)
    → contains ((if b then page else add_class page el k) x) c
      ≡ (contains (page x) c || (not b && (x == el && text_eq_inst.beq c k)))
if_add page el k x c true = ground arith
if_add page el k x c false = contains-add_class page el k x c

add_classes-page :
    (page : Page) (el : Element) (old : List Text) (n : ℕ) (cs : List Text) (x : Element) (c : Text)
    → contains ((add_classes page el old n cs).page x) c
      ≡ (contains (page x) c || (x == el && (contains cs c && not (contains old c))))
unfolding add_classes contains
add_classes-page page el old n [] x c = ground arith
add_classes-page page el old n (k ∷ cs) x c = ground (
  arith,
  add_classes-page (if contains old k then page else add_class page el k) el (insert old k)
      (if contains old k then n else n + 1) cs x c,
  contains-insert old k c,
  if_add page el k x c (contains old k),
  contains-same old c k,
)

add_classes-classes :
    (page : Page) (el : Element) (old : List Text) (n : ℕ) (cs : List Text) (c : Text)
    → contains (add_classes page el old n cs).classes c ≡ (contains old c || contains cs c)
unfolding add_classes contains
add_classes-classes page el old n [] c = ground arith
add_classes-classes page el old n (k ∷ cs) c = ground (
  arith,
  add_classes-classes (if contains old k then page else add_class page el k) el (insert old k)
      (if contains old k then n else n + 1) cs c,
  contains-insert old k c,
)

pub contains-set_of : (o : Option (List Text)) (c : Text) → contains (set_of o) c ≡ in_entry o c
unfolding contains
contains-set_of none c = refl
contains-set_of (some cs) c = refl

given_gives :
    (m : Classes) (el x : Element) (c : Text) (new : List Text) (b : Bool)
    → contains new c ≡ (gives m el c || b)
    → gives (put m el new) x c ≡ (gives m x c || (el == x && b))
given_gives m el x c new b h = ground (arith, find-put m el new x)

-- One round adds the classes of one element.
give_one-gives :
    (env : Env) (st : Applied) (el : Element) (cs : List Text) (x : Element) (c : Text)
    → gives (give_one env st el cs).applied x c
      ≡ (gives st.applied x c || (env.is_html_element el && (el == x && contains cs c)))
unfolding give_one
give_one-gives env st el cs x c = elim (Bool-cases (env.is_html_element el)) [
  | inr h ↦ rw h (ground arith)
  | inl h ↦ rw h (
      given_gives st.applied el x c _ (contains cs c) (
        add_classes-classes st.page el (set_of (find st.applied el)) st.moved cs c
        ∙ ap (λ b. b || contains cs c) (contains-set_of (find st.applied el) c)))
]

give_one-page :
    (env : Env) (st : Applied) (el : Element) (cs : List Text) (x : Element) (c : Text)
    → contains ((give_one env st el cs).page x) c ≡ (
        contains (st.page x) c
        || (env.is_html_element el && (el == x && (contains cs c && not (gives st.applied el c)))))
unfolding give_one
give_one-page env st el cs x c = elim (Bool-cases (env.is_html_element el)) [
  | inr h ↦ rw h (ground arith)
  | inl h ↦ rw h (
      ground (
        arith,
        add_classes-page st.page el (set_of (find st.applied el)) st.moved cs x c,
        contains-set_of (find st.applied el) c,
      ))
]

give_one-IsMap :
    (env : Env) (st : Applied) (el : Element) (cs : List Text)
    → IsMap st.applied
    → IsMap (give_one env st el cs).applied
unfolding give_one
give_one-IsMap env st el cs u = elim (Bool-cases (env.is_html_element el)) [
  | inl h ↦ rw h (put-IsMap st.applied el _ u)
  | inr h ↦ rw h u
]

give_gives-cons :
    (env : Env) (k : Element) (cs : List Text) (d : Classes) (x : Element) (c : Text)
    (b b' b'' : Bool)
    → contains (keys d) k ≡ false
    → b ≡ (b' || (env.is_html_element x && gives d x c))
    → b' ≡ (b'' || (env.is_html_element k && (k == x && contains cs c)))
    → b ≡ (b'' || (env.is_html_element x && gives ((k, cs) ∷ d) x c))
give_gives-cons env k cs d x c b b' b'' u h h' = ground (arith, gives-cons k cs d x c u)

-- What is applied behind the loop: what was, and all that is desired.
pub give-gives :
    (env : Env) (st : Applied) (d : Classes) (x : Element) (c : Text)
    → IsMap d
    → gives (give env st d).applied x c
      ≡ (gives st.applied x c || (env.is_html_element x && gives d x c))
unfolding give
give-gives env st [] x c u = unfold find in ground arith
give-gives env st ((k, cs) ∷ d) x c u =
    give_gives-cons env k cs d x c _ _ _ u.0 (give-gives env (give_one env st k cs) d x c u.1)
      (give_one-gives env st k cs x c)

give_page-cons :
    (env : Env) (k : Element) (cs : List Text) (d : Classes) (x : Element) (c : Text)
    (g : Element → Text → Bool) (b b' p g' : Bool)
    → contains (keys d) k ≡ false
    → b ≡ (b' || (env.is_html_element x && (gives d x c && not g')))
    → b' ≡ (p || (env.is_html_element k && (k == x && (contains cs c && not (g k c)))))
    → g' ≡ (g x c || (env.is_html_element k && (k == x && contains cs c)))
    → b ≡ (p || (env.is_html_element x && (gives ((k, cs) ∷ d) x c && not (g x c))))
give_page-cons env k cs d x c g b b' p g' u h h' h'' = ground (arith, gives-cons k cs d x c u)

-- The page behind the loop: a desired class is added unless it was applied.
pub give-page :
    (env : Env) (st : Applied) (d : Classes) (x : Element) (c : Text)
    → IsMap d
    → contains ((give env st d).page x) c ≡ (
        contains (st.page x) c
        || (env.is_html_element x && (gives d x c && not (gives st.applied x c))))
unfolding give
give-page env st [] x c u = unfold find in ground arith
give-page env st ((k, cs) ∷ d) x c u =
    give_page-cons env k cs d x c (gives st.applied) _ _ _ _ u.0
      (give-page env (give_one env st k cs) d x c u.1) (give_one-page env st k cs x c)
      (give_one-gives env st k cs x c)

pub give-IsMap :
    (env : Env) (st : Applied) (d : Classes) → IsMap st.applied → IsMap (give env st d).applied
unfolding give
give-IsMap env st [] u = u
give-IsMap env st ((k, cs) ∷ d) u =
    give-IsMap env (give_one env st k cs) d (give_one-IsMap env st k cs u)
