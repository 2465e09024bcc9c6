-- ===== src/Samples/Xhr.antt =====
-- Requests that `prevent-xhr` answers, and one that it leaves alone.
use zen_desktop_localcdn.Common.{
  ◌+◌, true, false, List, [], ◌∷◌, ◌++◌, none, some, codes, ◌≡◌, refl, ok, Text, to_lower_case,
}
use zen_desktop_localcdn.Common.Decimal.{decimal}
use zen_desktop_localcdn.Scriptlets.RandomResponse.{Draws}
use zen_desktop_localcdn.Scriptlets.RequestProps.{ParsedProps, exactly, match_xhr_args}
use zen_desktop_localcdn.Scriptlets.PreventXhr.{
  Xhr, new_xhr, Fake, json, Call, opened, set_response_type, send, timer, finished, handle_all,
  native_open, dispatched, get_response_header, value_of,
}
use zen_desktop_localcdn.Scriptlets.PreventXhr.Blocking.{
  sends, opens_matching, any_opens, count_sends, sends-after_match, sends-no_match,
}
use zen_desktop_localcdn.Scriptlets.PreventXhr.Response.{response_size, handle_all-answered}
use zen_desktop_localcdn.Samples.{plain_regexps}

abbrev ads : ParsedProps
ads = (codes "url", exactly (codes "/ads")) ∷ []

abbrev get : Text
get = codes "GET"

abbrev lowest : Draws
lowest i n = 0

abbrev date : Text
date = codes "Wed"

-- The request is used for another address, then for one that is prevented, then again.
abbrev reused : List Call
reused = send ∷ timer lowest date ∷ opened get (codes "/news") ∷ send ∷ []

abbrev before : List Call
before = opened get (codes "/news") ∷ send ∷ finished ∷ []

still_prevented :
    sends
      (handle_all plain_regexps ads 39 none new_xhr
        (before ++ (opened get (codes "/ads") ∷ reused))).effects
    ≡ 1
unfolding handle_all
still_prevented = refl

-- Of two responses, only the first is told: the second cannot replace the object of the first.
abbrev two_timers : List Call
two_timers =
    opened get (codes "/ads")
    ∷ set_response_type json
    ∷ send
    ∷ send
    ∷ timer lowest date
    ∷ timer lowest date
    ∷ []

one_answer :
    (handle_all plain_regexps ads 39 none new_xhr two_timers).effects
    ≡ dispatched
      ∷ (handle_all plain_regexps ads 39 none new_xhr (opened get (codes "/ads") ∷ [])).effects
unfolding handle_all
one_answer = refl

ads_match : opens_matching plain_regexps ads (opened get (codes "/ads")) ≡ true
unfolding handle_all
ads_match = refl

none_match : any_opens plain_regexps ads before ≡ false
unfolding handle_all
none_match = refl

sends-after_match_example :
    sends
      (handle_all plain_regexps ads 39 none new_xhr
        (before ++ (opened get (codes "/ads") ∷ reused))).effects
    ≡ sends (handle_all plain_regexps ads 39 none new_xhr before).effects
sends-after_match_example =
    sends-after_match plain_regexps ads 39 none new_xhr before reused (opened get (codes "/ads"))
      ads_match

sends-no_match_example :
    (sends (handle_all plain_regexps ads 39 none new_xhr before).effects
      ≡ count_sends before + sends new_xhr.effects)
    × ((handle_all plain_regexps ads 39 none new_xhr before).fake ≡ none)
sends-no_match_example =
    sends-no_match plain_regexps ads 39 none new_xhr before refl refl refl none_match

ads_answer : match_xhr_args plain_regexps ads get (codes "/ads") ≡ true
unfolding match_xhr_args
ads_answer = refl

lowered_length : to_lower_case (codes "CONTENT-length") ≡ codes "content-length"
unfolding to_lower_case
lowered_length = refl

-- A request that is opened, given a type, sent and answered.
abbrev answered_ads : Xhr
answered_ads =
    handle_all plain_regexps ads 39 none new_xhr
      (opened get (codes "/ads") ∷ set_response_type json ∷ send ∷ timer lowest date ∷ [])

handle_all-answered_example :
    (f : Fake) × (answered_ads.fake ≡ some f)
    × (f.response_url ≡ some (codes "/ads"))
    × (answered_ads.effects ≡ dispatched ∷ native_open get (codes "/ads") ∷ [])
    × (get_response_header (codes "CONTENT-length") answered_ads
        ≡ ok (value_of (decimal (response_size 39 json f.response_text))))
handle_all-answered_example =
    handle_all-answered plain_regexps ads 39 none lowest date get (codes "/ads") json new_xhr
      (codes "CONTENT-length") ads_answer refl lowered_length
