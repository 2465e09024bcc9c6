-- ===== src/Common/Strings.antt =====
-- JavaScript strings as lists of UTF-16 code units, and the methods of `String.prototype` that the
-- libraries call.
use Prim.Native.Nat.{ℕ, ◌+◌, ◌-◌}
use Prim.Native.Char.{code}
use Prim.Native.String.{String}
use mathlib.Core.Path.{◌≡◌}
use mathlib.Core.Logic.{◌↔◌}
use mathlib.Core.Bool.{Bool, true, false, ◌&&◌, ◌||◌}
use mathlib.Core.Option.{Option, none, some}
use mathlib.Core.List.{List, [], ◌∷◌, map}
use native.Mathlib.Omega.{arith}
use zen_desktop_localcdn.Common.Tests.{leb, ◌==◌, if◌then◌else◌}
use zen_desktop_localcdn.Common.Lists.{take, drop}

abbrev pub Text : Type 0
Text = List ℕ

-- A literal, whose characters all lie in the basic plane.
abbrev pub codes : String → Text
codes String.[] = []
codes (String.◌∷◌ c s) = code c ∷ codes s

-- `===` on strings
unfoldable pub text_eq : Text → Text → Bool
text_eq [] [] = true
text_eq (x ∷ xs) (y ∷ ys) = x == y && text_eq xs ys
text_eq _ _ = false

pub text_eq_iff : (s t : Text) → (text_eq s t ≡ true) ↔ (s ≡ t)
unfolding text_eq
text_eq_iff (x ∷ s) (y ∷ t) = ground (arith, text_eq_iff s t)
text_eq_iff _ _ = ground arith

abbrev pub is_empty : Text → Bool
is_empty [] = true
is_empty (c ∷ s) = false

-- WhiteSpace and LineTerminator of ECMA-262, which `trim`, `parseInt` and `\s` skip.
unfoldable pub is_space : ℕ → Bool
is_space c =
    (leb 9 c && leb c 13)
    || c == 32
    || c == 160
    || c == 0x1680
    || (leb 0x2000 c && leb c 0x200a)
    || c == 0x2028
    || c == 0x2029
    || c == 0x202f
    || c == 0x205f
    || c == 0x3000
    || c == 0xfeff

unfoldable pub trim_start : Text → Text
unfolding is_space
trim_start [] = []
trim_start (c ∷ s) = if is_space c then trim_start s else c ∷ s

-- A code unit in front of a trimmed text, which stays unless it is a space at the end.
unfoldable pub keep_unit : ℕ → Text → Text
unfolding is_space
keep_unit c [] = if is_space c then [] else c ∷ []
keep_unit c (d ∷ s) = c ∷ d ∷ s

unfoldable pub trim_end : Text → Text
unfolding keep_unit
trim_end [] = []
trim_end (c ∷ s) = keep_unit c (trim_end s)

-- `s.trim()`
unfoldable pub trim : Text → Text
unfolding trim_start trim_end
trim s = trim_end (trim_start s)

-- `s.slice(start, end)` at indices that are not negative
unfoldable pub slice : Text → ℕ → ℕ → Text
slice s i j = take (j - i) (drop i s)

-- `s.startsWith(p)`
unfoldable pub starts_with : Text → Text → Bool
starts_with s [] = true
starts_with [] (p ∷ ps) = false
starts_with (c ∷ s) (p ∷ ps) = c == p && starts_with s ps

-- `s.includes(p)`
unfoldable pub includes : Text → Text → Bool
unfolding starts_with
includes [] p = starts_with [] p
includes (c ∷ s) p = starts_with (c ∷ s) p || includes s p

abbrev next_index : Option ℕ → Option ℕ
next_index none = none
next_index (some n) = some (n + 1)

-- `s.indexOf(c)` for one code unit; `none` is -1.
unfoldable pub index_of : Text → ℕ → Option ℕ
index_of [] x = none
index_of (c ∷ s) x = if c == x then some 0 else next_index (index_of s x)

-- One more code unit in front of the parts of a text; `true` at a separator.
abbrev onto_parts : ℕ → Bool → List Text → List Text
onto_parts c true parts = [] ∷ parts
onto_parts c false [] = (c ∷ []) ∷ []
onto_parts c false (p ∷ parts) = (c ∷ p) ∷ parts

-- `s.split(sep)` for a separator of one code unit: at least one part.
unfoldable pub split : Text → ℕ → List Text
split [] x = [] ∷ []
split (c ∷ s) x = onto_parts c (c == x) (split s x)

-- `s.toLowerCase()` on ASCII. Its results are only compared with words that hold no `k`, the one
-- ASCII letter to which a character outside ASCII is lowered whole (U+212A), so the comparison is
-- the same.
unfoldable pub to_lower_case : Text → Text
to_lower_case = map (λ c. if leb b'A' c && leb c b'Z' then c + 32 else c)
