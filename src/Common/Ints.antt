-- ===== src/Common/Ints.antt =====
-- The integers that `parseInt` reads. The source's doubles agree with them at every size that it
-- compares them with; the rounding of a longer run of digits is not modelled.
use Prim.Native.Nat.{ℕ, zero, suc, ◌+◌, ◌-◌, ◌*◌}
use mathlib.Core.Bool.{Bool, true, false, ◌&&◌, ◌||◌}
use mathlib.Core.Option.{Option, none, some}
use mathlib.Core.List.{[], ◌∷◌}
use zen_desktop_localcdn.Common.Tests.{leb, ltb, ◌==◌, if◌then◌else◌}
use zen_desktop_localcdn.Common.Strings.{Text, trim_start}

-- `negsuc n` is -(n + 1).
pub data ℤ : Type 0 where
  pos : ℕ → ℤ
  negsuc : ℕ → ℤ

abbrev pub negate : ℕ → ℤ
negate zero = pos 0
negate (suc n) = negsuc n

-- `36` for what is no digit in any radix.
unfoldable pub digit_value : ℕ → ℕ
digit_value c =
    if leb b'0' c && leb c b'9'
    then c - b'0'
    else if leb b'a' c && leb c b'z'
    then c - b'a' + 10
    else if leb b'A' c && leb c b'Z'
    then c - b'A' + 10
    else 36

-- The value of the digits that the text begins with, behind the digits of `acc`.
unfoldable pub digit_run : ℕ → ℕ → Text → ℕ
unfolding digit_value
digit_run radix acc [] = acc
digit_run radix acc (c ∷ s) =
    let rest = digit_run radix (acc * radix + digit_value c) s in
    if ltb (digit_value c) radix then rest else acc

-- `none` is NaN.
unfoldable pub read_digits : ℕ → Text → Option ℕ
unfolding digit_run
read_digits radix [] = none
read_digits radix (c ∷ s) =
    if ltb (digit_value c) radix then some (digit_run radix 0 (c ∷ s)) else none

abbrev signed : Bool → Option ℕ → Option ℤ
signed negative none = none
signed false (some n) = some (pos n)
signed true (some n) = some (negate n)

-- The sign, then the number.
abbrev with_sign : (Text → Option ℕ) → Text → Option ℤ
with_sign read [] = none
with_sign read (c ∷ s) =
    if c == b'-'
    then signed true (read s)
    else if c == b'+'
    then signed false (read s)
    else signed false (read (c ∷ s))

-- `parseInt(s, 10)`
unfoldable pub parse_int : Text → Option ℤ
unfolding trim_start read_digits
parse_int s = with_sign (read_digits 10) (trim_start s)

abbrev read_prefixed : Text → Option ℕ
read_prefixed (z ∷ x ∷ s) =
    if z == b'0' && (x == b'x' || x == b'X') then read_digits 16 s else read_digits 10 (z ∷ x ∷ s)
read_prefixed s = read_digits 10 s

-- `parseInt(s)`, which reads hexadecimal digits behind `0x`.
unfoldable pub parse_int_auto : Text → Option ℤ
unfolding trim_start read_digits
parse_int_auto s = with_sign read_prefixed (trim_start s)
