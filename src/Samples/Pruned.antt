-- ===== src/Samples/Pruned.antt =====
-- A request whose response is pruned.
use zen_desktop_localcdn.Common.{List, [], ◌∷◌, ◌++◌, none, some, codes, ◌≡◌, refl, Text, false, ok}
use zen_desktop_localcdn.Scriptlets.Json.{null}
use zen_desktop_localcdn.Scriptlets.JsonPrune.{Pruner}
use zen_desktop_localcdn.Scriptlets.RequestProps.{ParsedProps, exactly}
use zen_desktop_localcdn.Scriptlets.PruneXhr.Answer.{Codec, parse_headers, header_text}
use zen_desktop_localcdn.Scriptlets.PruneXhr.{
  new_xhr, Event, opened, set_header, send, handle, handle_all, native_open, native_header,
  subs_open, subs_header, subs_send,
}
use zen_desktop_localcdn.Scriptlets.PruneXhr.Recording.{last_selected, sent, handle-send}
use zen_desktop_localcdn.Samples.{plain_regexps}

abbrev feed : ParsedProps
feed = (codes "url", exactly (codes "/feed")) ∷ []

abbrev no_paths : Pruner
no_paths = record { to_remove = []; required = []; stack_re = none }

abbrev null_codec : Codec
null_codec = record {
  parse = λ s. ok null;
  stringify = λ v. codes "null";
  decode = λ b. b;
  encode = λ s. s;
}

abbrev reopened : List Event
reopened =
    opened (codes "GET") (codes "/feed")
    ∷ set_header (codes "Accept") (codes "a")
    ∷ opened (codes "POST") (codes "/news")
    ∷ []

-- The address of the second call is not asked.
stale_address :
    (handle_all plain_regexps
      (some feed)
      no_paths
      null_codec
      new_xhr
      (reopened ++ (send false ∷ []))).effects
    ≡ subs_send
      ∷ subs_header (codes "Accept") (codes "a")
      ∷ subs_open (codes "GET") (codes "/feed")
      ∷ native_open (codes "POST") (codes "/news")
      ∷ native_header (codes "Accept") (codes "a")
      ∷ native_open (codes "GET") (codes "/feed")
      ∷ []
unfolding handle_all
stale_address = refl

-- What follows a second colon and space of a header is dropped.
abbrev two_headers : Text
two_headers = codes "a: b: c" ++ (13 ∷ 10 ∷ codes "d: e") ++ (13 ∷ 10 ∷ [])

header_cut : header_text (parse_headers two_headers) ≡ codes "a: b" ++ (13 ∷ 10 ∷ codes "d: e")
unfolding header_text parse_headers
header_cut = refl

handle-send_example :
    (handle plain_regexps
      (some feed)
      no_paths
      null_codec
      (handle_all plain_regexps (some feed) no_paths null_codec new_xhr reopened)
      (send false)).effects
    ≡ sent
        (last_selected plain_regexps (some feed) none reopened)
        (handle_all plain_regexps (some feed) no_paths null_codec new_xhr reopened).effects
handle-send_example = handle-send plain_regexps (some feed) no_paths null_codec reopened
