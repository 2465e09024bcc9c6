-- ===== src/Samples/Windows.antt =====
-- Handlers of `window.open` in both syntaxes.
use zen_desktop_localcdn.Common.{
  true, [], none, some, codes, ◌≡◌, refl, ok, throw, invalid_replacement,
}
use zen_desktop_localcdn.Scriptlets.WindowOpen.{
  of_string, OldHandler, NewHandler, make_old_syntax_handler, make_new_syntax_handler, old_syntax,
  new_syntax, replacement_of, object_of, true_func, frame, open_window,
}
use zen_desktop_localcdn.Scriptlets.WindowOpen.Decision.{passes, prefixed, old_syntax-new_syntax}
use zen_desktop_localcdn.Samples.{plain_regexps}

-- Every replacement of the form `{name=noopFunc}`, and no other braces.
named : replacement_of (some (codes "{close=noopFunc}")) ≡ ok (object_of (codes "close"))
unfolding replacement_of
named = refl

unnamed : replacement_of (some (codes "{=noopFunc}")) ≡ throw invalid_replacement
unfolding replacement_of
unnamed = refl

abbrev old_ads : OldHandler
old_ads = record {
  invert_match = true;
  match_re = some (record { source = codes "ads"; flags = [] });
  return_value = true_func;
}

abbrev new_ads : NewHandler
new_ads = record {
  new_invert = true;
  new_re = some (record { source = codes "ads"; flags = [] });
  delay_seconds = none;
  decoy = frame;
}

old_made :
    make_old_syntax_handler plain_regexps true (some (codes "ads")) (some (codes "trueFunc"))
    ≡ ok old_ads
unfolding make_old_syntax_handler
old_made = refl

new_made :
    make_new_syntax_handler plain_regexps (some (prefixed true (codes "ads"))) none none
    ≡ ok new_ads
unfolding make_new_syntax_handler
new_made = refl

old_syntax-new_syntax_example :
    passes (open_window plain_regexps true (old_syntax old_ads) (of_string (codes "/ads/1")))
    ≡ passes (open_window plain_regexps true (new_syntax new_ads) (of_string (codes "/ads/1")))
old_syntax-new_syntax_example =
    old_syntax-new_syntax plain_regexps true b'a' (codes "ds") (some (codes "trueFunc")) none none
      true true (of_string (codes "/ads/1")) refl old_made new_made
