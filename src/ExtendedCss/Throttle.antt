-- ===== src/ExtendedCss/Throttle.antt =====
-- jslibs/extended-css/src/utils/throttle.ts, through which the engine's mutation observer calls
-- `applyQueries`. Times are those of `performance.now()` in microseconds, which no browser's clock is
-- finer than; delays are in milliseconds. `calls` are the times at which `fn` was called, the last one
-- first.
pub mod Spacing
use Prim.Native.Nat.{◌/◌}
use zen_desktop_localcdn.Common.{
  ℕ, ◌+◌, ◌-◌, ◌*◌, ◌≤◌, Bool, List, [], ◌∷◌, Option, none, some, ltb, if◌then◌else◌, ◌≡◌,
}

-- The variables `lastCallAt` and `timerId`; a timer is known by the time it is due.
pub record Throttle : Type 0 where
  pub last_call_at : Option ℕ
  pub timer : Option ℕ
  pub calls : List ℕ

abbrev pub fresh : Throttle
fresh = record { last_call_at = none; timer = none; calls = [] }

-- `fn(...args)` at the time `now`, which is stored.
abbrev pub call_fn : ℕ → Throttle → Throttle
call_fn now st = record st { last_call_at = some now; calls = now ∷ st.calls }

-- The whole milliseconds that `setTimeout` makes of a time.
abbrev pub truncated : ℕ → ℕ
truncated remaining = remaining / 1000 * 1000

-- No timer is running.
unfoldable pub call_or_wait : ℕ → ℕ → Throttle → Option ℕ → Throttle
call_or_wait delay now st none = call_fn now st
call_or_wait delay now st (some last) =
    let elapsed = now - last in
    if ltb elapsed (delay * 1000)
    then record st { timer = some (now + truncated (delay * 1000 - elapsed)) }
    else call_fn now st

unfoldable pub unless_waiting : ℕ → ℕ → Throttle → Option ℕ → Throttle
unfolding call_or_wait
unless_waiting delay now st (some due) = st
unless_waiting delay now st none = call_or_wait delay now st st.last_call_at

-- A call of the returned function at the time `now`.
unfoldable pub throttled : ℕ → ℕ → Throttle → Throttle
unfolding unless_waiting
throttled delay now st = unless_waiting delay now st st.timer

-- The function that the timer runs.
unfoldable pub on_timer : ℕ → Throttle → Throttle
on_timer now st = call_fn now (record st { timer = none })

-- What happens one after the other, each at a time that is not before the one in front: calls, and
-- the timer, which does not run before it is due.
pub data Runs (delay : ℕ) : ℕ → Throttle → Type 0 where
  start : Runs delay 0 fresh
  called :
      {t : ℕ} {st : Throttle} (now : ℕ)
      → t ≤ now
      → Runs delay t st
      → Runs delay now (throttled delay now st)
  fired :
      {t : ℕ} {st : Throttle} (now due : ℕ)
      → t ≤ now
      → st.timer ≡ some due
      → due ≤ now
      → Runs delay t st
      → Runs delay now (on_timer now st)
