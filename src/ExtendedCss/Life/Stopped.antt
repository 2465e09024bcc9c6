-- ===== src/ExtendedCss/Life/Stopped.antt =====
-- What an engine does that was stopped.
use mathlib.Core.Path.{subst}
use zen_desktop_localcdn.Common.{
  ℕ, Bool, true, false, List, [], ◌∷◌, Option, none, some, if◌then◌else◌, ◌≡◌, refl, sym, ap, ◌∙◌,
}
use zen_desktop_localcdn.ExtendedCss.Engine.{Page, restore_all}
use zen_desktop_localcdn.ExtendedCss.Throttle.{throttled, on_timer}
use zen_desktop_localcdn.ExtendedCss.Life.{
  Life, apply_round, with_throttle, on_mutations, on_throttle_timer, on_loaded, stop, Event,
  changed, mutations, timer, loaded, stopped, step, steps,
}

-- Nothing is left that could wake the engine.
pub record IsIdle (x : Life) : Type 0 where
  pub unobserved : x.observing ≡ false
  pub no_timer : x.throttle.timer ≡ none
  pub no_listener : x.awaits_load ≡ false
  pub none_applied : x.applied ≡ []

-- The page as the page itself leaves it.
abbrev pub own_page : Page → List Event → Page
own_page page [] = page
own_page page (changed env new ∷ es) = own_page new es
own_page page (e ∷ es) = own_page page es

-- A step that leaves the engine and the page alone.
abbrev Rests : Life → Life → Type 0
Rests x y = IsIdle y × (y.page ≡ x.page)

same-Rests : (x y : Life) → IsIdle x → y ≡ x → Rests x y
same-Rests x y i e = subst (Rests x) (sym e) (i, refl)

on_mutations-idle : (now : ℕ) (x : Life) → x.observing ≡ false → on_mutations now x ≡ x
unfolding on_mutations
on_mutations-idle now x h =
    ap (λ b. if b then with_throttle (throttled 100 now x.throttle) x else x) h

on_throttle_timer-idle :
    (now : ℕ) (x : Life) → x.throttle.timer ≡ none → on_throttle_timer now x ≡ x
unfolding on_throttle_timer
on_throttle_timer-idle now x h =
    ap
      (λ (o : Option ℕ). elim o [ none ↦ x | some due ↦ with_throttle (on_timer now x.throttle) x ])
      h

on_loaded-idle : (x : Life) → x.awaits_load ≡ false → on_loaded x ≡ x
unfolding on_loaded
on_loaded-idle x h = ap (λ b. if b then apply_round (record x { awaits_load = false }) else x) h

same_observing : (b o : Bool) → o ≡ false → (if b then false else o) ≡ false
same_observing true o h = refl
same_observing false o h = h

step-IsIdle :
    (x : Life) (e : Event)
    → IsIdle x
    → IsIdle (step x e) × ((step x e).page ≡ own_page x.page (e ∷ []))
unfolding step restore_all
step-IsIdle x (changed env page) i = (
  record {
    unobserved = i.unobserved;
    no_timer = i.no_timer;
    no_listener = i.no_listener;
    none_applied = i.none_applied;
  },
  refl,
)
step-IsIdle x (mutations now) i = same-Rests x _ i (on_mutations-idle now x i.unobserved)
step-IsIdle x (timer now) i = same-Rests x _ i (on_throttle_timer-idle now x i.no_timer)
step-IsIdle x loaded i = same-Rests x _ i (on_loaded-idle x i.no_listener)
step-IsIdle x stopped i = (
  record {
    unobserved = same_observing x.has_observer x.observing i.unobserved;
    no_timer = i.no_timer;
    no_listener = i.no_listener;
    none_applied = refl;
  },
  ap (restore_all x.env x.page) i.none_applied,
)

own_page-cons :
    (page : Page) (e : Event) (es : List Event)
    → own_page (own_page page (e ∷ [])) es ≡ own_page page (e ∷ es)
own_page-cons page (changed env new) es = refl
own_page-cons page (mutations now) es = refl
own_page-cons page (timer now) es = refl
own_page-cons page loaded es = refl
own_page-cons page stopped es = refl

steps-IsIdle :
    (x : Life) (es : List Event)
    → IsIdle x
    → IsIdle (steps x es) × ((steps x es).page ≡ own_page x.page es)
unfolding steps
steps-IsIdle x [] i = (i, refl)
steps-IsIdle x (e ∷ es) i =
    let (j, p) = step-IsIdle x e i in
    let (k, q) = steps-IsIdle (step x e) es j in
    (k, q ∙ ap (λ page. own_page page es) p ∙ own_page-cons x.page e es)

-- An engine that was started and is stopped when neither the timer of its throttle nor its listener of
-- `DOMContentLoaded` is waiting stays idle, whatever happens then, and never changes the page again.
pub steps-stop :
    (x : Life) (es : List Event)
    → x.has_observer ≡ true
    → x.throttle.timer ≡ none
    → x.awaits_load ≡ false
    → IsIdle (steps (stop x) es) × ((steps (stop x) es).page ≡ own_page (stop x).page es)
unfolding stop
steps-stop x es h t l = steps-IsIdle (stop x) es (record {
  unobserved = ap (λ b. if b then false else x.observing) h;
  no_timer = t;
  no_listener = l;
  none_applied = refl;
})
