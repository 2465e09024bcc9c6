-- ===== src/Samples/Lives.antt =====
-- An engine on the sample page, which is stopped.
use zen_desktop_localcdn.Common.{true, false, [], ◌∷◌, none, codes, ◌≡◌, refl}
use zen_desktop_localcdn.Common.Sets.{text_eq_inst}
use zen_desktop_localcdn.ExtendedCss.Step.{raw_query, end, alt, selector_of}
use zen_desktop_localcdn.ExtendedCss.Engine.{Page}
use zen_desktop_localcdn.ExtendedCss.Throttle.{fresh}
use zen_desktop_localcdn.ExtendedCss.Life.{
  Life, start, stop, steps, mutations, timer, loaded, stopped,
}
use zen_desktop_localcdn.ExtendedCss.Life.Stopped.{IsIdle, own_page, steps-stop}
use zen_desktop_localcdn.Samples.{sample_env}

abbrev bare_page : Page
bare_page el = []

-- One rule, that hides the div.
abbrev sample_engine : Life
sample_engine = record {
  env = sample_env;
  rules =
      record {
        selectors = alt (selector_of (raw_query (codes "div") ∷ [])) end;
        class_name = codes "zenc_hide";
      }
      ∷ [];
  page = bare_page;
  applied = [];
  style = none;
  has_observer = false;
  observing = false;
  awaits_load = false;
  throttle = fresh;
}

abbrev started : Life
started = start true sample_engine

-- Stopped between two mutations, while the throttle's timer waits: the timer applies the rules again
-- and lets the observer watch.
revived :
    (steps started (mutations 10_000 ∷ mutations 20_000 ∷ stopped ∷ timer 110_000 ∷ [])).observing
    ≡ true
unfolding steps start
revived = refl

hidden_again :
    (steps started (mutations 10_000 ∷ mutations 20_000 ∷ stopped ∷ timer 110_000 ∷ [])).page 2
    ≡ codes "zenc_hide" ∷ []
unfolding steps start
hidden_again = refl

started-has_observer : started.has_observer ≡ true
unfolding start
started-has_observer = refl

started_no_timer : started.throttle.timer ≡ none
unfolding start
started_no_timer = refl

started_no_listener : started.awaits_load ≡ false
unfolding start
started_no_listener = refl

steps-stop_example :
    IsIdle (steps (stop started) (mutations 10_000 ∷ timer 110_000 ∷ loaded ∷ []))
    × ((steps (stop started) (mutations 10_000 ∷ timer 110_000 ∷ loaded ∷ [])).page
        ≡ own_page (stop started).page (mutations 10_000 ∷ timer 110_000 ∷ loaded ∷ []))
steps-stop_example =
    steps-stop started (mutations 10_000 ∷ timer 110_000 ∷ loaded ∷ []) started-has_observer
      started_no_timer started_no_listener
