-- ===== src/Common/Decimal.antt =====
-- The decimal form of a number, as template literals and `toString` give it.
use Prim.Native.Nat.{ℕ, zero, suc, ◌+◌, ◌*◌, ◌/◌, ◌%◌, ◌<◌, ◌-◌}
use mathlib.Core.Path.{◌≡◌, refl, sym, ap, ◌∙◌}
use mathlib.Core.Bool.{Bool, true, ◌&&◌}
use mathlib.Core.List.{[], ◌∷◌, ◌++◌}
use mathlib.Core.Logic.{inl, inr}
use native.Mathlib.Omega.{arith}
use zen_desktop_localcdn.Common.Tests.{ltb, leb, if◌then◌else◌, Bool-cases}
use zen_desktop_localcdn.Common.Strings.{Text}

-- The digits of `n`, the last one last; the fuel bounds how many there are.
unfoldable pub digits_from : ℕ → ℕ → Text
digits_from zero n = []
digits_from (suc f) n =
    let front = digits_from f (n / 10) in
    if ltb n 10 then (b'0' + n) ∷ [] else front ++ ((b'0' + n % 10) ∷ [])

unfoldable pub decimal : ℕ → Text
unfolding digits_from
decimal n = digits_from (suc n) n

-- The number that digits stand for.
abbrev read : ℕ → Text → ℕ
read acc [] = acc
read acc (c ∷ s) = read (acc * 10 + (c - b'0')) s

read-append : (acc : ℕ) (s t : Text) → read acc (s ++ t) ≡ read (read acc s) t
read-append acc [] t = refl
read-append acc (c ∷ s) t = read-append (acc * 10 + (c - b'0')) s t

read-digits_from : (f n : ℕ) → n < f → read 0 (digits_from f n) ≡ n
unfolding digits_from
read-digits_from zero n h = omega arith
read-digits_from (suc f) n h = elim (Bool-cases (ltb n 10)) [
  | inl small ↦ rw small (omega arith)
  | inr large ↦ rw large (
      read-append 0 (digits_from f (n / 10)) ((b'0' + n % 10) ∷ [])
      ∙ ap (λ m. m * 10 + (b'0' + n % 10 - b'0')) (read-digits_from f (n / 10) (ground arith))
      ∙ omega arith)
]

-- Numbers with one decimal form are equal.
pub decimal-injective : (m n : ℕ) → decimal m ≡ decimal n → m ≡ n
unfolding decimal
decimal-injective m n h =
    sym (read-digits_from (suc m) m (omega arith))
    ∙ ap (read 0) h
    ∙ read-digits_from (suc n) n (omega arith)

abbrev pub all_digits : Text → Bool
all_digits [] = true
all_digits (c ∷ s) = leb b'0' c && (leb c b'9' && all_digits s)

all_digits-append : (s t : Text) → all_digits (s ++ t) ≡ (all_digits s && all_digits t)
all_digits-append [] t = refl
all_digits-append (c ∷ s) t = ground (arith, all_digits-append s t)

all_digits-digits_from : (f n : ℕ) → all_digits (digits_from f n) ≡ true
unfolding digits_from
all_digits-digits_from zero n = refl
all_digits-digits_from (suc f) n = elim (Bool-cases (ltb n 10)) [
  | inl small ↦ rw small (ground arith)
  | inr large ↦
      rw (large, all_digits-append (digits_from f (n / 10)) ((b'0' + n % 10) ∷ []))
        (rw (all_digits-digits_from f (n / 10)) (ground arith))
]

pub all_digits-decimal : (n : ℕ) → all_digits (decimal n) ≡ true
unfolding decimal
all_digits-decimal n = all_digits-digits_from (suc n) n
