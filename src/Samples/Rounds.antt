-- ===== src/Samples/Rounds.antt =====
-- A run of the throttle with a delay of 100 milliseconds: calls at 5, 20.3 and 60 milliseconds, and the
-- timer at 104.4, since the 84.7 milliseconds that remain at 20.3 are cut to 84.
use zen_desktop_localcdn.Common.{ℕ, [], ◌∷◌, ◌≤◌, ◌+◌, ◌*◌, ◌≡◌, ◌⊎◌, refl, some, arith}
use zen_desktop_localcdn.ExtendedCss.Throttle.{
  Throttle, fresh, throttled, on_timer, Runs, start, called, fired,
}
use zen_desktop_localcdn.ExtendedCss.Throttle.Spacing.{Spaced, Runs-Spaced, throttled-answers}

abbrev waiting : Throttle
waiting = throttled 100 60_000 (throttled 100 20_300 (throttled 100 5000 fresh))

waiting-Runs : Runs 100 60_000 waiting
waiting-Runs =
    called 60_000 (omega arith) (called 20_300 (omega arith) (called 5000 (omega arith) start))

answered-Runs : Runs 100 104_400 (on_timer 104_400 waiting)
unfolding throttled
answered-Runs = fired 104_400 104_300 (omega arith) refl (omega arith) waiting-Runs

-- The two calls are 99.4 milliseconds apart.
called_twice : (on_timer 104_400 waiting).calls ≡ 104_400 ∷ 5000 ∷ []
unfolding throttled on_timer
called_twice = refl

Runs-Spaced_example : Spaced 100 (on_timer 104_400 waiting).calls
Runs-Spaced_example = Runs-Spaced 100 104_400 (on_timer 104_400 waiting) answered-Runs

throttled-answers_example :
    ((throttled 100 80_000 waiting).calls ≡ 80_000 ∷ waiting.calls)
    ⊎ ((due : ℕ) × ((throttled 100 80_000 waiting).timer ≡ some due) × (due ≤ 80_000 + 100 * 1000))
throttled-answers_example = throttled-answers 100 60_000 80_000 waiting waiting-Runs (omega arith)
