-- ===== src/ExtendedCss/Engine/Stop.antt =====
-- `stop` undoes what any number of rounds has done.
use zen_desktop_localcdn.Common.{
  ◌==◌, Bool, true, false, not, ◌&&◌, ◌||◌, List, [], ◌∷◌, if◌then◌else◌, Text, ◌≡◌, arith, All,
  Bool-cases, inl, inr,
}
use zen_desktop_localcdn.Common.Sets.{nat_eq, text_eq_inst, contains}
use zen_desktop_localcdn.ExtendedCss.Env.{Env, Element}
use zen_desktop_localcdn.ExtendedCss.Engine.Maps.{Classes, find, gives, keys, IsMap}
use zen_desktop_localcdn.ExtendedCss.Engine.Retire.{contains-strip, gives-cons}
use zen_desktop_localcdn.ExtendedCss.Engine.Apply.{
  apply_classes-gives, apply_classes-page, apply_classes-IsMap,
}
use zen_desktop_localcdn.ExtendedCss.Engine.{Page, apply_classes, strip, restore_all}

restore_one :
    (env : Env) (page : Page) (k : Element) (cs : List Text) (x : Element) (c : Text)
    → contains ((if env.is_html_element k then strip page k cs else page) x) c
      ≡ (contains (page x) c && not (env.is_html_element k && (x == k && contains cs c)))
restore_one env page k cs x c = elim (Bool-cases (env.is_html_element k)) [
  | inl h ↦ rw h (contains-strip page k cs x c)
  | inr h ↦ rw h (ground arith)
]

restore-cons :
    (env : Env) (k : Element) (cs : List Text) (m : Classes) (x : Element) (c : Text)
    (b b' p : Bool)
    → contains (keys m) k ≡ false
    → b ≡ (b' && not (env.is_html_element x && gives m x c))
    → b' ≡ (p && not (env.is_html_element k && (x == k && contains cs c)))
    → b ≡ (p && not (env.is_html_element x && gives ((k, cs) ∷ m) x c))
restore-cons env k cs m x c b b' p u h h' = ground (arith, gives-cons k cs m x c u)

restore_all-page :
    (env : Env) (page : Page) (m : Classes) (x : Element) (c : Text)
    → IsMap m
    → contains (restore_all env page m x) c
      ≡ (contains (page x) c && not (env.is_html_element x && gives m x c))
unfolding restore_all
restore_all-page env page [] x c u = unfold find in ground arith
restore_all-page env page ((k, cs) ∷ m) x c u =
    restore-cons env k cs m x c _ _ _ u.0
      (restore_all-page env (if env.is_html_element k then strip page k cs else page) m x c u.1)
      (restore_one env page k cs x c)

-- Rounds of `applyClasses`, with what each of them desires.
abbrev pub rounds : Env → Page → Classes → List Classes → Page × Classes
rounds env page applied [] = (page, applied)
rounds env page applied (d ∷ ds) =
    let r = apply_classes env page applied d in rounds env r.page r.applied ds

-- A round desires no class that the page itself had put on the element.
abbrev pub Leaves : Page → Element → Text → Classes → Type 0
Leaves page x c d = IsMap d × ((contains (page x) c && gives d x c) ≡ false)

-- What holds between rounds of one class on one element; `b` is whether the page had put it there.
record Inv (env : Env) (b : Bool) (page : Page) (applied : Classes) (x : Element) (c : Text)
    : Type 0 where
  is_map : IsMap applied
  on_html : gives applied x c ≡ true → env.is_html_element x ≡ true
  on_page : contains (page x) c ≡ (b || gives applied x c)
  apart : (b && gives applied x c) ≡ false

apply_classes-Inv :
    (env : Env) (b : Bool) (page : Page) (applied d : Classes) (x : Element) (c : Text)
    → Inv env b page applied x c
    → IsMap d
    → (b && gives d x c) ≡ false
    → Inv env b
        (apply_classes env page applied d).page
        (apply_classes env page applied d).applied
        x
        c
apply_classes-Inv env b page applied d x c i u h =
    let g = apply_classes-gives env page applied d x c i.is_map u in
    let p = apply_classes-page env page applied d x c i.is_map u in
    record {
      is_map = apply_classes-IsMap env page applied d i.is_map;
      on_html = ground (arith, g);
      on_page = ground (arith, g, p);
      apart = ground (arith, g);
    }

rounds-Inv :
    (env : Env) (b : Bool) (page : Page) (applied : Classes) (ds : List Classes) (x : Element)
    (c : Text)
    → Inv env b page applied x c
    → All (λ d. IsMap d × ((b && gives d x c) ≡ false)) ds
    → Inv env b (rounds env page applied ds).0 (rounds env page applied ds).1 x c
rounds-Inv env b page applied [] x c i h = i
rounds-Inv env b page applied (d ∷ ds) x c i h =
    rounds-Inv env b (apply_classes env page applied d).page
      (apply_classes env page applied d).applied ds x c
      (apply_classes-Inv env b page applied d x c i h.0.0 h.0.1) h.1

-- After any rounds from a fresh engine, of which none desires a class on an element that had it,
-- `stop` leaves the element with the class exactly if it had it at first.
pub restore_all-rounds :
    (env : Env) (page : Page) (ds : List Classes) (x : Element) (c : Text)
    → All (Leaves page x c) ds
    → contains (restore_all env (rounds env page [] ds).0 (rounds env page [] ds).1 x) c
      ≡ contains (page x) c
restore_all-rounds env page ds x c h =
    let start : Inv env (contains (page x) c) page [] x c = record {
      is_map = tt;
      on_html = unfold find in λ e. cc;
      on_page = unfold find in ground arith;
      apart = unfold find in ground arith;
    } in
    let i = rounds-Inv env (contains (page x) c) page [] ds x c start h in
    ground
      (arith, restore_all-page env (rounds env page [] ds).0 (rounds env page [] ds).1 x c i.is_map)
