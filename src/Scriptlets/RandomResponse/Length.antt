-- ===== src/Scriptlets/RandomResponse/Length.antt =====
-- How long a random response is, and of what characters.
use zen_desktop_localcdn.Common.{ℕ, ◌≤◌, ◌<◌, true, ◌≡◌}
use zen_desktop_localcdn.Common.Sets.{nat_eq, contains}
use zen_desktop_localcdn.Scriptlets.RandomResponse.{Draws, random_str_alphabet}

-- `Math.random` is less than 1.
abbrev pub Bounded : Draws → Type 0
Bounded draw = (i n : ℕ) → 1 ≤ n → draw i n < n

abbrev pub InAlphabet : ℕ → Type 0
InAlphabet c = contains random_str_alphabet c ≡ true
