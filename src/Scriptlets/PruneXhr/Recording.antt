-- ===== src/Scriptlets/PruneXhr/Recording.antt =====
-- Which request the substitute repeats, and what the page reads as its response.
use zen_desktop_localcdn.Common.{
  ℕ, zero, suc, Bool, true, false, List, [], ◌∷◌, ◌++◌, Option, none, some, if◌then◌else◌, Text,
  Result, ◌≡◌, refl, ap, ◌∙◌, Bool-cases, inl, inr,
}
use zen_desktop_localcdn.Regexp.{Regexps}
use zen_desktop_localcdn.Scriptlets.Json.{Value}
use zen_desktop_localcdn.Scriptlets.JsonPrune.{Pruner, prune}
use zen_desktop_localcdn.Scriptlets.RequestProps.{ParsedProps}
use zen_desktop_localcdn.Scriptlets.PruneXhr.Answer.{Codec, SubsResponse, NewProps, Headers}
use zen_desktop_localcdn.Scriptlets.PruneXhr.{
  Marks, Effect, native_send, subs_send, Xhr, selected, Event, opened, set_header, send, done,
  timer, handle, handle_all, on_done, define_props, push_all, open_proxy, set_header_proxy,
  send_marked, new_xhr, repeat_headers, subs_open, push_header, next_done, next_timer, redefinable,
}

-- A request as it was opened and prepared: its arguments and its headers.
pub record Request : Type 0 where
  pub args : Text × Text
  pub headers : List (Text × Text)

abbrev add_header : Text → Text → Option Request → Option Request
add_header n v none = none
add_header n v (some r) = some (record r { headers = r.headers ++ ((n, v) ∷ []) })

-- The last request that was opened with arguments that match, with the headers that were set since.
abbrev pub last_selected :
    Regexps → Option ParsedProps → Option Request → List Event → Option Request
last_selected rx props r [] = r
last_selected rx props r (opened m u ∷ es) =
    last_selected rx props
      (if selected rx props m u then some (record { args = (m, u); headers = [] }) else r) es
last_selected rx props r (set_header n v ∷ es) = last_selected rx props (add_header n v r) es
last_selected rx props r (e ∷ es) = last_selected rx props r es

-- The request that the marks hold.
abbrev pub recorded : Option Marks → Option Request
recorded none = none
recorded (some k) = some (record { args = k.open_args; headers = k.request_headers })

recorded-push_header :
    (n v : Text) (o : Option Marks) → recorded (push_header n v o) ≡ add_header n v (recorded o)
recorded-push_header n v none = refl
recorded-push_header n v (some k) = refl

recorded-push_all : (hs : Headers) (o : Option Marks) → recorded (push_all hs o) ≡ recorded o
recorded-push_all hs none = refl
recorded-push_all hs (some k) = refl

recorded-define_props :
    (new : NewProps) (hs : Headers) (o : Option NewProps) (x : Xhr)
    → recorded (define_props new hs o x).marks ≡ recorded x.marks
recorded-define_props new hs none x = recorded-push_all hs x.marks
recorded-define_props new hs (some old) x = elim (Bool-cases (redefinable old new)) [
  | inl e ↦ rw e (recorded-push_all hs x.marks)
  | inr e ↦ rw e refl
]

recorded-on_done :
    (codec : Codec) (g : Value → Result Value) (r : SubsResponse) (n : ℕ) (x : Xhr)
    → recorded (next_done (on_done codec g r) n x).marks ≡ recorded x.marks
unfolding on_done
recorded-on_done codec g r zero x = refl
recorded-on_done codec g r (suc n) x =
    recorded-define_props _ _ x.answered (record x { pending = n })

recorded-send_marked :
    (b : Bool) (o : Option Marks) (x : Xhr) → recorded (send_marked b o x).marks ≡ recorded x.marks
recorded-send_marked b none x = refl
recorded-send_marked true (some k) x = refl
recorded-send_marked false (some k) x = refl

recorded-next_timer : (n : ℕ) (x : Xhr) → recorded (next_timer n x).marks ≡ recorded x.marks
recorded-next_timer zero x = refl
recorded-next_timer (suc n) x = refl

-- What the network then gets: the request itself, or the substitute for another one.
abbrev pub sent : Option Request → List Effect → List Effect
sent none es = native_send ∷ es
sent (some r) es = subs_send ∷ repeat_headers r.headers (subs_open r.args.0 r.args.1 ∷ es)

effects-send_marked :
    (o : Option Marks) (x : Xhr) → (send_marked false o x).effects ≡ sent (recorded o) x.effects
effects-send_marked none x = refl
effects-send_marked (some k) x = refl

module _ (rx : Regexps) (props : Option ParsedProps) (p : Pruner) (codec : Codec) where
  recorded-opened :
      (m u : Text) (x : Xhr)
      → recorded (open_proxy rx props m u x).marks ≡ (
          if selected rx props m u
          then some (record { args = (m, u); headers = [] })
          else recorded x.marks)
  unfolding open_proxy
  recorded-opened m u x = elim (Bool-cases (selected rx props m u)) [
    | inl e ↦ rw e refl
    | inr e ↦ rw e refl
  ]

  recorded-handle_all :
      (x : Xhr) (es : List Event)
      → recorded (handle_all rx props p codec x es).marks
        ≡ last_selected rx props (recorded x.marks) es
  unfolding handle_all
  recorded-handle_all x [] = refl
  recorded-handle_all x (opened m u ∷ es) =
      recorded-handle_all (open_proxy rx props m u x) es
      ∙ ap (λ r. last_selected rx props r es) (recorded-opened m u x)
  recorded-handle_all x (set_header n v ∷ es) =
      recorded-handle_all (set_header_proxy n v x) es
      ∙ ap (λ r. last_selected rx props r es) (recorded-push_header n v x.marks)
  recorded-handle_all x (send throws ∷ es) =
      recorded-handle_all (send_marked throws x.marks x) es
      ∙ ap (λ r. last_selected rx props r es) (recorded-send_marked throws x.marks x)
  recorded-handle_all x (done stack r ∷ es) =
      recorded-handle_all (next_done (on_done codec (prune rx stack p) r) x.pending x) es
      ∙ ap (λ r. last_selected rx props r es)
          (recorded-on_done codec (prune rx stack p) r x.pending x)
  recorded-handle_all x (timer ∷ es) =
      recorded-handle_all (next_timer x.timers x) es
      ∙ ap (λ r. last_selected rx props r es) (recorded-next_timer x.timers x)

  -- After any events, `send` sends the request itself if no call opened it with arguments that match.
  -- Otherwise it sends a substitute, opened with the arguments of the last call that did, even if the
  -- request has been opened with others since, and with all the headers that were set behind that call.
  pub handle-send :
      (es : List Event)
      → (handle rx props p codec (handle_all rx props p codec new_xhr es) (send false)).effects
        ≡ sent (last_selected rx props none es) (handle_all rx props p codec new_xhr es).effects
  unfolding handle
  handle-send es =
      let x = handle_all rx props p codec new_xhr es in
      effects-send_marked x.marks x ∙ ap (λ r. sent r x.effects) (recorded-handle_all new_xhr es)
