-- ===== src/ExtendedCss/Life.antt =====
-- The life of an engine: its constructor, `start`, the mutation observer behind the throttle, and `stop`
-- of jslibs/extended-css/src/engine/index.ts, and jslibs/extended-css/src/index.ts. The page changes
-- between the engine's steps, and with it the DOM.
pub mod Stopped
use zen_desktop_localcdn.Common.{
  ℕ, Bool, true, false, not, ◌==◌, List, [], ◌∷◌, Option, none, some, if◌then◌else◌, Text, length,
}
use zen_desktop_localcdn.ExtendedCss.Env.{Env}
use zen_desktop_localcdn.ExtendedCss.Plan.{NewExt}
use zen_desktop_localcdn.ExtendedCss.Engine.Maps.{Classes}
use zen_desktop_localcdn.ExtendedCss.Engine.{Page, Rule, Applied, apply_queries, restore_all}
use zen_desktop_localcdn.ExtendedCss.Stylesheet.{parse_rules}
use zen_desktop_localcdn.ExtendedCss.Throttle.{Throttle, fresh, throttled, on_timer}

pub record Life : Type 0 where
  pub env : Env
  pub rules : List Rule
  pub page : Page
  pub applied : Classes
  -- the text of `styleEl`
  pub style : Option Text
  -- `this.observer` is not null
  pub has_observer : Bool
  -- the observer watches the page
  pub observing : Bool
  -- the listener of `DOMContentLoaded` waits
  pub awaits_load : Bool
  pub throttle : Throttle

-- `new Engine(rules)`
unfoldable pub new_engine : Env → NewExt → Text → Page → Life
unfolding parse_rules
new_engine env new rules page =
    let sheet = parse_rules env new rules in
    record {
      env = env;
      rules = sheet.rules;
      page = page;
      applied = [];
      style = some sheet.css_text;
      has_observer = false;
      observing = false;
      awaits_load = false;
      throttle = fresh;
    }

unfoldable pub apply_round : Life → Life
unfolding apply_queries
apply_round x =
    let r = apply_queries x.env x.rules x.page x.applied in
    record x { page = r.page; applied = r.applied }

-- `start`; `complete` is whether `readyState` is that.
unfoldable pub start : Bool → Life → Life
unfolding apply_round
start complete x = record (apply_round x) {
  awaits_load = not complete;
  has_observer = true;
  observing = true;
}

-- The function that the library exports.
unfoldable pub run_engine : Env → NewExt → Text → Bool → Page → Life
unfolding new_engine start
run_engine env new rules complete page = start complete (new_engine env new rules page)

-- The throttled function: it disconnects the observer, applies the rules, and observes again.
abbrev pub observe_again : Life → Life
observe_again x = record (apply_round (record x { observing = false })) { observing = true }

-- What a step of the throttle, which may call the function once, does to the engine.
abbrev pub with_throttle : Throttle → Life → Life
with_throttle t x =
    if length t.calls == length x.throttle.calls
    then record x { throttle = t }
    else observe_again (record x { throttle = t })

-- Mutations at the time `now`, of which an observer that does not watch is not told.
unfoldable pub on_mutations : ℕ → Life → Life
unfolding throttled apply_round
on_mutations now x = if x.observing then with_throttle (throttled 100 now x.throttle) x else x

-- The timer of the throttle, if there is one.
unfoldable pub on_throttle_timer : ℕ → Life → Life
unfolding on_timer apply_round
on_throttle_timer now x = elim x.throttle.timer [
  | none ↦ x
  | some due ↦ with_throttle (on_timer now x.throttle) x
]

unfoldable pub on_loaded : Life → Life
unfolding apply_round
on_loaded x = if x.awaits_load then apply_round (record x { awaits_load = false }) else x

-- `stop`; without an observer none is disconnected.
unfoldable pub stop : Life → Life
unfolding restore_all
stop x = record x {
  page = restore_all x.env x.page x.applied;
  applied = [];
  style = none;
  has_observer = false;
  observing = if x.has_observer then false else x.observing;
}

-- What happens to an engine that was started.
pub data Event : Type 0 where
  changed : Env → Page → Event
  mutations timer : ℕ → Event
  loaded stopped : Event

unfoldable pub step : Life → Event → Life
unfolding on_mutations on_throttle_timer on_loaded stop
step x (changed env page) = record x { env = env; page = page }
step x (mutations now) = on_mutations now x
step x (timer now) = on_throttle_timer now x
step x loaded = on_loaded x
step x stopped = stop x

unfoldable pub steps : Life → List Event → Life
unfolding step
steps x [] = x
steps x (e ∷ es) = steps (step x e) es
