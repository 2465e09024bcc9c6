-- ===== src/Common/Results.antt =====
-- What a call returns or throws. A `Failure` names the `throw` statement, or the library call, that
-- raised it; `out_of_fuel` belongs to the model only.
use mathlib.Core.Path.{◌≡◌, refl}
use mathlib.Core.Logic.{◌⊎◌, inl, inr}
use mathlib.Core.Bool.{Bool, true, false}

pub data Failure : Type 0 where
  out_of_fuel : Failure
  -- thrown by the platform: the DOM, `CSSTree.parse`, a call of what is no function
  dom_exception syntax_error type_error : Failure
  -- jslibs/extended-css
  unexpected_node missing_argument : Failure
  dangling_combinator multiple_combinators unknown_combinator unknown_pseudo_class : Failure
  invalid_syntax missing_colon empty_property_or_value : Failure
  invalid_text_length text_length_below_one invalid_distance : Failure
  style_without_argument style_argument_not_raw important_not_boolean : Failure
  -- jslibs/scriptlets
  invalid_value nan_input infinite_input invalid_segment invalid_segment_key : Failure
  unparsable_search invalid_replacement unsupported_replacement : Failure
  invalid_pattern max_length_exceeds_limit min_length_exceeds_max : Failure
  -- scripts
  empty_release_body missing_asset fetch_failed not_newer : Failure

pub data Result {ℓ} (A : Type ℓ) : Type ℓ where
  throw : Failure → Result A
  ok : A → Result A

abbrev pub is_ok {ℓ} : {A : Type ℓ} → Result A → Bool
is_ok (ok a) = true
is_ok (throw e) = false

-- The value of a call that returns, and `d` for one that throws.
abbrev pub ok_or {ℓ} : {A : Type ℓ} → A → Result A → A
ok_or d (ok a) = a
ok_or d (throw e) = d

-- What follows a call is not reached if the call throws.
infixl 5 ◌>>=◌
abbrev pub ◌>>=◌ {ℓ κ} : {A : Type ℓ} {B : Type κ} → Result A → (A → Result B) → Result B
throw e >>= k = throw e
ok a >>= k = k a

pub bind-eq-ok {κ ℓ} :
    {B : Type ℓ} {A : Type κ} {b : B} (m : Result A) (k : A → Result B)
    → m >>= k ≡ ok b
    → (a : A) × (m ≡ ok a) × (k a ≡ ok b)
bind-eq-ok (throw e) k h = cc
bind-eq-ok (ok a) k h = (a, refl, h)

pub Result-cases {ℓ} :
    {A : Type ℓ} (r : Result A) → ((a : A) × (r ≡ ok a)) ⊎ ((e : Failure) × (r ≡ throw e))
Result-cases (ok a) = inl (a, refl)
Result-cases (throw e) = inr (e, refl)
