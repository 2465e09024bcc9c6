-- ===== src/ExtendedCss/Engine.antt =====
-- jslibs/extended-css/src/engine/index.ts: how the engine keeps the classes of the page's elements in
-- step with its rules (`collectClassMatches`, `applyClasses`, `applyQueries`, `restoreAllClasses`,
-- `stop`). `appliedClasses` and `desired`, maps from elements to sets, are association lists; the
-- page is what `el.classList` holds for each element.
pub mod Maps
pub mod Retire
pub mod Give
pub mod Apply
pub mod Collect
pub mod Stop
use zen_desktop_localcdn.Common.{
  ℕ, ◌+◌, Bool, true, false, not, List, [], ◌∷◌, ◌++◌, Option, none, some, ◌==◌, if◌then◌else◌,
  Text, Result, ok, throw, length,
}
use zen_desktop_localcdn.Common.Sets.{text_eq_inst, contains, insert, delete}
use zen_desktop_localcdn.ExtendedCss.Env.{Env, Element}
use zen_desktop_localcdn.ExtendedCss.Step.{SelectorList}
use zen_desktop_localcdn.ExtendedCss.Executor.{match}
use Maps.{Classes, find, put}

abbrev pub Page : Type 0
Page = Element → List Text

-- `el.classList.remove(c)`, `el.classList.add(c)`
unfoldable pub remove_class : Page → Element → Text → Page
unfolding delete
remove_class page el c x = if x == el then delete (page x) c else page x

unfoldable pub add_class : Page → Element → Text → Page
unfolding insert
add_class page el c x = if x == el then insert (page x) c else page x

-- A parsed rule: its executor's selectors, and its class.
pub record Rule : Type 0 where
  pub selectors : SelectorList
  pub class_name : Text

-- The elements of one rule, each an `HTMLElement` or passed over.
abbrev pub set_of : Option (List Text) → List Text
set_of none = []
set_of (some cs) = cs

unfoldable pub add_matched : Env → Text → Classes → List Element → Classes
unfolding insert find put
add_matched env c matches [] = matches
add_matched env c matches (el ∷ els) =
    add_matched env c
      (if env.is_html_element el
        then put matches el (insert (set_of (find matches el)) c)
        else matches)
      els

-- A rule whose `match` throws is passed over.
abbrev pub add_result : Env → Text → Classes → Result (List Element) → Classes
add_result env c matches (ok els) = add_matched env c matches els
add_result env c matches (throw e) = matches

unfoldable pub collect_from : Env → Classes → List Rule → Classes
unfolding add_matched match
collect_from env matches [] = matches
collect_from env matches (r ∷ rules) =
    collect_from env
      (add_result env r.class_name matches
        (match env r.selectors false (env.document_element ∷ [])))
      rules

-- `collectClassMatches`
unfoldable pub collect_class_matches : Env → List Rule → Classes
unfolding collect_from
collect_class_matches env rules = collect_from env [] rules

-- Removes classes one by one.
unfoldable pub strip : Page → Element → List Text → Page
unfolding remove_class
strip page el [] = page
strip page el (c ∷ cs) = strip (remove_class page el c) el cs

-- The applied classes that are still desired, and those that are not.
unfoldable pub kept : List Text → List Text → List Text
unfolding contains
kept desired [] = []
kept desired (c ∷ cs) = if contains desired c then c ∷ kept desired cs else kept desired cs

unfoldable pub stale : List Text → List Text → List Text
unfolding contains
stale desired [] = []
stale desired (c ∷ cs) = if contains desired c then stale desired cs else c ∷ stale desired cs

-- What `applyClasses` changes: the page, `appliedClasses`, and the number of classes moved.
pub record Applied : Type 0 where
  pub page : Page
  pub applied : Classes
  pub moved : ℕ

abbrev onto_entry : Element → List Text → ℕ → Applied → Applied
onto_entry el cs n r = record r { applied = (el, cs) ∷ r.applied; moved = n + r.moved }

-- The first loop: over the entries of `appliedClasses`. A deleted entry is dropped.
unfoldable pub retire : Classes → Page → Classes → Applied
unfolding find strip kept stale
retire desired page [] = record { page = page; applied = []; moved = 0 }
retire desired page ((el, cs) ∷ rest) = elim (find desired el) [
  | none ↦
      let r = retire desired (strip page el cs) rest in record r { moved = length cs + r.moved }
  | some d ↦
      onto_entry el (kept d cs) (length (stale d cs))
        (retire desired (strip page el (stale d cs)) rest)
]

-- One element of the second loop: its classes that are not yet applied are added.
pub record Given : Type 0 where
  pub page : Page
  pub classes : List Text
  pub added : ℕ

unfoldable pub add_classes : Page → Element → List Text → ℕ → List Text → Given
unfolding add_class insert
add_classes page el classes n [] = record { page = page; classes = classes; added = n }
add_classes page el classes n (c ∷ cs) =
    let old = contains classes c in
    add_classes (if old then page else add_class page el c) el (insert classes c)
      (if old then n else n + 1) cs

abbrev pub put_given : Element → Classes → Given → Applied
put_given el applied g = record {
  page = g.page;
  applied = put applied el g.classes;
  moved = g.added;
}

-- One round of the second loop.
unfoldable pub give_one : Env → Applied → Element → List Text → Applied
unfolding add_classes find put
give_one env st el desired =
    if env.is_html_element el
    then put_given el st.applied
        (add_classes st.page el (set_of (find st.applied el)) st.moved desired)
    else st

unfoldable pub give : Env → Applied → Classes → Applied
unfolding give_one
give env st [] = st
give env st ((el, desired) ∷ rest) = give env (give_one env st el desired) rest

-- `applyClasses`; the second `moved` counts the added classes.
unfoldable pub apply_classes : Env → Page → Classes → Classes → Applied
unfolding retire give
apply_classes env page applied desired =
    give env (record (retire desired page applied) { moved = 0 }) desired

-- `applyQueries`
unfoldable pub apply_queries : Env → List Rule → Page → Classes → Applied
unfolding apply_classes collect_class_matches
apply_queries env rules page applied =
    apply_classes env page applied (collect_class_matches env rules)

-- The loop of `stop`, with `restoreAllClasses` in it; the map is empty behind it.
unfoldable pub restore_all : Env → Page → Classes → Page
unfolding strip
restore_all env page [] = page
restore_all env page ((el, cs) ∷ rest) =
    restore_all env (if env.is_html_element el then strip page el cs else page) rest
