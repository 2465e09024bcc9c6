-- ===== src/Scriptlets/PreventXhr/Blocking.antt =====
-- Which requests reach the network.
use mathlib.Core.Path.{subst}
use zen_desktop_localcdn.Common.{
  ℕ, zero, suc, ◌+◌, Bool, true, false, ◌||◌, List, [], ◌∷◌, ◌++◌, Option, none, some,
  if◌then◌else◌, Text, ◌≡◌, refl, sym, ap, ◌∙◌, arith,
}
use zen_desktop_localcdn.Regexp.{Regexps}
use zen_desktop_localcdn.Scriptlets.RandomResponse.{Draws}
use zen_desktop_localcdn.Scriptlets.RequestProps.{ParsedProps, match_xhr_args}
use zen_desktop_localcdn.Scriptlets.PreventXhr.{
  Effect, native_send, dispatched, Xhr, Call, opened, set_response_type, send, timer, finished,
  Fake, define_properties, redefinable, run_timer, respond, handle, handle_all,
}

abbrev pub sends : List Effect → ℕ
sends [] = 0
sends (native_send ∷ es) = suc (sends es)
sends (e ∷ es) = sends es

-- Whether a call opens the request with arguments that match.
abbrev pub opens_matching : Regexps → ParsedProps → Call → Bool
opens_matching rx props (opened m u) = match_xhr_args rx props m u
opens_matching rx props c = false

abbrev pub any_opens : Regexps → ParsedProps → List Call → Bool
any_opens rx props [] = false
any_opens rx props (c ∷ cs) = opens_matching rx props c || any_opens rx props cs

-- The calls of `send`.
abbrev pub count_sends : List Call → ℕ
count_sends [] = 0
count_sends (send ∷ cs) = suc (count_sends cs)
count_sends (c ∷ cs) = count_sends cs

-- Neither the mark of the request nor what it has sent is changed.
abbrev Quiet : Xhr → Xhr → Type 0
Quiet x y = (y.prevent ≡ x.prevent) × (sends y.effects ≡ sends x.effects)

if-Quiet : (b : Bool) (x y z : Xhr) → Quiet x y → Quiet x z → Quiet x (if b then y else z)
if-Quiet true x y z h k = h
if-Quiet false x y z h k = k

define_properties-Quiet :
    (new : Fake) (o : Option Fake) (x : Xhr) → Quiet x (define_properties new o x)
define_properties-Quiet new none x = (refl, refl)
define_properties-Quiet new (some old) x =
    if-Quiet (redefinable old new) x (record x { effects = dispatched ∷ x.effects }) x (refl, refl)
      (refl, refl)

respond-Quiet :
    (draw : Draws) (date : Text) (n : ℕ) (p : Option Text) (x : Xhr)
    → Quiet x (respond draw date n p x)
unfolding respond
respond-Quiet draw date n p x = define_properties-Quiet _ x.fake (record x { response_headers = _ })

run_timer-Quiet :
    (f : Xhr → Xhr) (n : ℕ) (x : Xhr) → ((y : Xhr) → Quiet y (f y)) → Quiet x (run_timer f n x)
run_timer-Quiet f zero x h = (refl, refl)
run_timer-Quiet f (suc n) x h = h (record x { timers = n })

run_timer_none : (f : Xhr → Xhr) (n : ℕ) (x : Xhr) → n ≡ 0 → run_timer f n x ≡ x
run_timer_none f zero x h = refl
run_timer_none f (suc n) x h = absurd (omega arith)

module _ (rx : Regexps) (props : ParsedProps) (html_length : ℕ) (p : Option Text) where
  -- A prevented request stays prevented, and sends nothing.
  handle-prevented :
      (x : Xhr) (c : Call)
      → x.prevent ≡ true
      → ((handle rx props html_length p x c).prevent ≡ true)
        × (sends (handle rx props html_length p x c).effects ≡ sends x.effects)
  unfolding handle
  handle-prevented x (opened m u) h = ground arith
  handle-prevented x (set_response_type t) h = (h, refl)
  handle-prevented x send h = ground arith
  handle-prevented x (timer draw date) h =
      let q =
        run_timer-Quiet (respond draw date html_length p) x.timers x
          (respond-Quiet draw date html_length p) in
      (q.0 ∙ h, q.1)
  handle-prevented x finished h = (h, refl)

  handle_all-prevented :
      (x : Xhr) (cs : List Call)
      → x.prevent ≡ true
      → sends (handle_all rx props html_length p x cs).effects ≡ sends x.effects
  unfolding handle_all
  handle_all-prevented x [] h = refl
  handle_all-prevented x (c ∷ cs) h =
      let (still, same) = handle-prevented x c h in
      handle_all-prevented (handle rx props html_length p x c) cs still ∙ same

  handle-opens_matching :
      (x : Xhr) (c : Call)
      → opens_matching rx props c ≡ true
      → ((handle rx props html_length p x c).prevent ≡ true)
        × (sends (handle rx props html_length p x c).effects ≡ sends x.effects)
  unfolding handle
  handle-opens_matching x (opened m u) h = ground arith
  handle-opens_matching x (set_response_type t) h = cc
  handle-opens_matching x send h = cc
  handle-opens_matching x (timer draw date) h = cc
  handle-opens_matching x finished h = cc

  handle_all-append :
      (x : Xhr) (cs ds : List Call)
      → handle_all rx props html_length p x (cs ++ ds)
        ≡ handle_all rx props html_length p (handle_all rx props html_length p x cs) ds
  unfolding handle_all
  handle_all-append x [] ds = refl
  handle_all-append x (c ∷ cs) ds = handle_all-append (handle rx props html_length p x c) cs ds

  -- From the first call on that opens a request with arguments that match, nothing is sent any more,
  -- whatever the page does with the request.
  pub sends-after_match :
      (x : Xhr) (before after : List Call) (c : Call)
      → opens_matching rx props c ≡ true
      → sends (handle_all rx props html_length p x (before ++ (c ∷ after))).effects
        ≡ sends (handle_all rx props html_length p x before).effects
  unfolding handle_all
  sends-after_match x before after c h =
      let y = handle_all rx props html_length p x before in
      let (marked, same) = handle-opens_matching y c h in
      ap (λ (z : Xhr). sends z.effects) (handle_all-append x before (c ∷ after))
      ∙ handle_all-prevented (handle rx props html_length p y c) after marked
      ∙ same

  handle-passed :
      (x : Xhr) (c : Call)
      → x.prevent ≡ false
      → x.timers ≡ 0
      → x.fake ≡ none
      → opens_matching rx props c ≡ false
      → ((handle rx props html_length p x c).prevent ≡ false)
        × ((handle rx props html_length p x c).timers ≡ 0)
        × ((handle rx props html_length p x c).fake ≡ none)
        × (sends (handle rx props html_length p x c).effects
            ≡ count_sends (c ∷ []) + sends x.effects)
  unfolding handle
  handle-passed x (opened m u) h t f o = ground arith
  handle-passed x (set_response_type r) h t f o = (h, t, f, omega arith)
  handle-passed x send h t f o = ground arith
  handle-passed x (timer draw date) h t f o =
      subst
        (λ (y : Xhr).
          (y.prevent ≡ false)
          × (y.timers ≡ 0)
          × (y.fake ≡ none)
          × (sends y.effects ≡ 0 + sends x.effects))
        (sym (run_timer_none (respond draw date html_length p) x.timers x t)) (h, t, f, omega arith)
  handle-passed x finished h t f o = (h, t, f, omega arith)

  count_sends-cons :
      (c : Call) (cs : List Call) → count_sends (c ∷ cs) ≡ count_sends (c ∷ []) + count_sends cs
  count_sends-cons (opened m u) cs = omega arith
  count_sends-cons (set_response_type r) cs = omega arith
  count_sends-cons send cs = omega arith
  count_sends-cons (timer draw date) cs = omega arith
  count_sends-cons finished cs = omega arith

  -- A request that no call opens with arguments that match sends at every call of `send`, and none of
  -- its properties is replaced.
  pub sends-no_match :
      (x : Xhr) (cs : List Call)
      → x.prevent ≡ false
      → x.timers ≡ 0
      → x.fake ≡ none
      → any_opens rx props cs ≡ false
      → (sends (handle_all rx props html_length p x cs).effects ≡ count_sends cs + sends x.effects)
        × ((handle_all rx props html_length p x cs).fake ≡ none)
  unfolding handle_all
  sends-no_match x [] h t f o = (omega arith, f)
  sends-no_match x (c ∷ cs) h t f o =
      let (h', t', f', s) = handle-passed x c h t f (ground arith) in
      let (rest, g) =
        sends-no_match (handle rx props html_length p x c) cs h' t' f' (ground arith) in
      (omega (arith, rest, s, count_sends-cons c cs), g)
