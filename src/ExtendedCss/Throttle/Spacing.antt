-- ===== src/ExtendedCss/Throttle/Spacing.antt =====
-- How often the throttled function is called.

use zen_desktop_localcdn.Common.{
  ℕ, ◌+◌, ◌-◌, ◌*◌, ◌≤◌, ◌<◌, List, [], ◌∷◌, Option, none, some, ltb, ltb→lt, ◌≡◌, refl, arith, inl,
  inr, Bool-cases, ◌⊎◌,
}
use zen_desktop_localcdn.ExtendedCss.Throttle.{
  Throttle, truncated, call_fn, call_or_wait, unless_waiting, throttled, on_timer, Runs, start,
  called, fired,
}

-- Each call comes `delay` milliseconds after the one before it, less a part of a millisecond at most.
abbrev pub Spaced : ℕ → List ℕ → Type 0
Spaced delay [] = Unit
Spaced delay (t ∷ []) = Unit
Spaced delay (t ∷ s ∷ ts) = (s + delay * 1000 < t + 1000) × Spaced delay (s ∷ ts)

abbrev last_of : List ℕ → Option ℕ
last_of [] = none
last_of (t ∷ ts) = some t

-- The stored time is that of the last call, which is not after the present; and a timer is due in the
-- millisecond in which the delay since that call is over.
record Inv (delay t : ℕ) (st : Throttle) : Type 0 where
  spaced : Spaced delay st.calls
  last : st.last_call_at ≡ last_of st.calls
  past : (s : ℕ) → st.last_call_at ≡ some s → s ≤ t
  due :
      (d : ℕ)
      → st.timer ≡ some d
      → (s : ℕ) × (st.last_call_at ≡ some s)
        × (s + delay * 1000 < d + 1000)
        × (d ≤ s + delay * 1000)

Spaced-cons :
    (delay now : ℕ) (ts : List ℕ)
    → Spaced delay ts
    → ((s : ℕ) → last_of ts ≡ some s → s + delay * 1000 < now + 1000)
    → Spaced delay (now ∷ ts)
Spaced-cons delay now [] h k = tt
Spaced-cons delay now (s ∷ ts) h k = (k s refl, h)

call_fn-Inv :
    (delay t now : ℕ) (st : Throttle)
    → Inv delay t st
    → st.timer ≡ none
    → ((s : ℕ) → st.last_call_at ≡ some s → s + delay * 1000 < now + 1000)
    → Inv delay now (call_fn now st)
call_fn-Inv delay t now st i n h = record {
  spaced = Spaced-cons delay now st.calls i.spaced (λ s e. h s (rw i.last e));
  last = refl;
  past = λ s e. ground arith;
  due = λ d e. cc;
}

later : {delay t now : ℕ} {st : Throttle} → t ≤ now → Inv delay t st → Inv delay now st
later le i = record {
  spaced = i.spaced;
  last = i.last;
  past = λ s e. let p = i.past s e in omega arith;
  due = i.due;
}

-- When the timer of a call at `now` is due.
due_bounds :
    (delay now last : ℕ) {d : ℕ}
    → last ≤ now
    → now - last < delay * 1000
    → d ≡ now + truncated (delay * 1000 - (now - last))
    → (last + delay * 1000 < d + 1000) × (d ≤ last + delay * 1000)
due_bounds delay now last le short e = (omega arith, omega arith)

call_or_wait-Inv :
    (delay t now : ℕ) (st : Throttle)
    → Inv delay t st
    → st.timer ≡ none
    → t ≤ now
    → (o : Option ℕ) → st.last_call_at ≡ o
    → Inv delay now (call_or_wait delay now st o)
unfolding call_or_wait
call_or_wait-Inv delay t now st i n le none e = call_fn-Inv delay t now st i n (λ s h. cc)
call_or_wait-Inv delay t now st i n le (some last) e =
    elim (Bool-cases (ltb (now - last) (delay * 1000))) [
      | inl short ↦ rw short (record {
        spaced = i.spaced;
        last = i.last;
        past = (later le i).past;
        due = λ d h.
            let (late, soon) =
              due_bounds delay now last (let p = i.past last e in omega arith)
                (ltb→lt (now - last) (delay * 1000) short) (ground arith) in
            (last, e, late, soon);
      })
      | inr long ↦
          rw long (call_fn-Inv delay t now st i n (λ s h. let p = i.past last e in ground arith))
    ]

unless_waiting-Inv :
    (delay t now : ℕ) (st : Throttle)
    → t ≤ now
    → Inv delay t st
    → (o : Option ℕ) → st.timer ≡ o
    → Inv delay now (unless_waiting delay now st o)
unfolding unless_waiting
unless_waiting-Inv delay t now st le i none n =
    call_or_wait-Inv delay t now st i n le st.last_call_at refl
unless_waiting-Inv delay t now st le i (some d) h = later le i

throttled-Inv :
    (delay t now : ℕ) (st : Throttle)
    → t ≤ now
    → Inv delay t st
    → Inv delay now (throttled delay now st)
unfolding throttled
throttled-Inv delay t now st le i = unless_waiting-Inv delay t now st le i st.timer refl

on_timer-Inv :
    (delay t now due : ℕ) (st : Throttle)
    → st.timer ≡ some due
    → due ≤ now
    → Inv delay t st
    → Inv delay now (on_timer now st)
unfolding on_timer
on_timer-Inv delay t now due st h le i =
    let (s, e, d, _) = i.due due h in
    record {
      spaced = Spaced-cons delay now st.calls i.spaced (λ r k. ground (arith, i.last));
      last = refl;
      past = λ r k. ground arith;
      due = λ d' k. cc;
    }

Runs-Inv : (delay t : ℕ) (st : Throttle) → Runs delay t st → Inv delay t st
Runs-Inv delay t st start = record { spaced = tt; last = refl; past = λ s e. cc; due = λ d e. cc }
Runs-Inv delay t st (called {t = u} {st = old} now le r) =
    throttled-Inv delay u now old le (Runs-Inv delay u old r)
Runs-Inv delay t st (fired {t = u} {st = old} now due le h d r) =
    on_timer-Inv delay u now due old h d (Runs-Inv delay u old r)

-- Whatever calls are made and whenever the timer runs behind its time, two calls of the throttled
-- function, one after the other, are more than the delay less one millisecond apart.
pub Runs-Spaced : (delay t : ℕ) (st : Throttle) → Runs delay t st → Spaced delay st.calls
Runs-Spaced delay t st r = (Runs-Inv delay t st r).spaced

-- A call is made, or a timer is due within the delay.
abbrev Answered : ℕ → ℕ → Throttle → Throttle → Type 0
Answered delay now st st' =
    (st'.calls ≡ now ∷ st.calls) ⊎ ((due : ℕ) × (st'.timer ≡ some due) × (due ≤ now + delay * 1000))

call_or_wait-answers :
    (delay now : ℕ) (st : Throttle) (o : Option ℕ)
    → Answered delay now st (call_or_wait delay now st o)
unfolding call_or_wait
call_or_wait-answers delay now st none = inl refl
call_or_wait-answers delay now st (some last) =
    elim (Bool-cases (ltb (now - last) (delay * 1000))) [
      | inl short ↦
          rw short (inr (now + truncated (delay * 1000 - (now - last)), refl, omega arith))
      | inr long ↦ rw long (inl refl)
    ]

unless_waiting-answers :
    (delay t now : ℕ) (st : Throttle)
    → t ≤ now
    → Inv delay t st
    → (o : Option ℕ) → st.timer ≡ o
    → Answered delay now st (unless_waiting delay now st o)
unfolding unless_waiting
unless_waiting-answers delay t now st le i none n =
    call_or_wait-answers delay now st st.last_call_at
unless_waiting-answers delay t now st le i (some d) h =
    let (s, e, _, eq) = i.due d h in let p = i.past s e in inr (d, h, omega arith)

-- A call is answered at once, or a timer runs behind it that is due within the delay.
pub throttled-answers :
    (delay t now : ℕ) (st : Throttle)
    → Runs delay t st
    → t ≤ now
    → ((throttled delay now st).calls ≡ now ∷ st.calls)
      ⊎ ((due : ℕ) × ((throttled delay now st).timer ≡ some due) × (due ≤ now + delay * 1000))
unfolding throttled
throttled-answers delay t now st r le =
    unless_waiting-answers delay t now st le (Runs-Inv delay t st r) st.timer refl
