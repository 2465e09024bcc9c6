-- ===== src/Samples/Traps.antt =====
-- Where chains are trapped, which scripts are aborted, and which listeners are blocked.
use zen_desktop_localcdn.Common.{
  true, [], ◌∷◌, none, some, codes, text_eq, if◌then◌else◌, ◌≡◌, refl, ◌==◌, ◌&&◌, includes,
}
use zen_desktop_localcdn.Scriptlets.Traps.{
  Objects, accessor_at, deferred_at, define_proxy_chain, Script, aborts_inline,
}
use zen_desktop_localcdn.Scriptlets.Listeners.{prevent_add_event_listener, blocked, handler}
use zen_desktop_localcdn.Samples.{plain_regexps}

-- The window, 0, has `ads`, 1, and nothing else.
abbrev sample_objects : Objects
sample_objects = record {
  has_property = λ o part. (o == 0) && text_eq part (codes "ads");
  read = λ o part. if (o == 0) && text_eq part (codes "ads") then some 1 else none;
}

trapped : define_proxy_chain sample_objects 0 (codes "ads.show") ≡ accessor_at 1 (codes "show")
unfolding define_proxy_chain text_eq
trapped = refl

deferred :
    define_proxy_chain sample_objects 0 (codes "ads.slot.show")
    ≡ deferred_at 1 (codes "slot") (codes "show" ∷ [])
unfolding define_proxy_chain text_eq
deferred = refl

abbrev inline_script : Script
inline_script = record { identity = 5; is_html_script = true; text_content = codes "ads.show()" }

aborted_script :
    aborts_inline plain_regexps
      (some (record { source = codes "show"; flags = [] }))
      none
      (record { current_script = some inline_script; stack = none })
    ≡ true
unfolding aborts_inline includes
aborted_script = refl

blocked_listener :
    prevent_add_event_listener plain_regexps
      (codes "click")
      (codes "popup")
      (codes "click")
      (handler (some (codes "() => popup()")))
    ≡ blocked
unfolding prevent_add_event_listener includes
blocked_listener = refl
