-- ===== src/Scriptlets/Listeners.antt =====
-- jslibs/scriptlets/src/prevent-add-event-listener.ts: which listeners are not added.
use zen_desktop_localcdn.Common.{
  Bool, false, ◌&&◌, [], Option, none, some, if◌then◌else◌, Text, is_empty,
}
use zen_desktop_localcdn.Regexp.{RegExp, Regexps, parse_search}

-- A listener by the texts that `toString` gives: a function, an object with a method `handleEvent`, or
-- another value; `none` is a throw.
pub data Listener : Type 0 where
  handler handle_event other : Option Text → Listener

abbrev or_empty : Option Text → Text
or_empty none = []
or_empty (some s) = s

unfoldable pub func_to_string : Listener → Text
func_to_string (handler s) = or_empty s
func_to_string (handle_event s) = or_empty s
func_to_string (other s) = or_empty s

-- The three cases; with neither expression no proxy is made. Without the one for the event, the code
-- tests the event with the other one.
unfoldable pub should_block : Regexps → Option RegExp → Option RegExp → Text → Text → Bool
should_block rx none none event_type listener_str = false
should_block rx (some event_re) none event_type listener_str = rx.test event_re event_type
should_block rx none (some search_re) event_type listener_str = rx.test search_re event_type
should_block rx (some event_re) (some search_re) event_type listener_str =
    rx.test event_re event_type && rx.test search_re listener_str

-- What a call of `addEventListener` comes to.
pub data Added : Type 0 where
  blocked added : Added

unfoldable pub prevent_add_event_listener : Regexps → Text → Text → Text → Listener → Added
unfolding parse_search should_block func_to_string
prevent_add_event_listener rx event sought event_type listener =
    if is_empty event && is_empty sought
    then added
    else if should_block rx (parse_search rx event) (parse_search rx sought) event_type
        (func_to_string listener)
    then blocked
    else added
