-- ===== src/Scriptlets/Json.antt =====
-- What `JSON.parse` and `Response.json` return: a tree of values, of which no two parts are one
-- object. An array has a hole where an element was deleted. Of a number only the identity matters.
use zen_desktop_localcdn.Common.{
  ℕ, suc, ◌+◌, ◌*◌, ◌-◌, Bool, true, false, ◌&&◌, [], ◌∷◌, Option, none, some, ◌==◌, leb,
  if◌then◌else◌, Text,
}
use Prim.Native.Nat.{max}

mutual
  pub data Value : Type 0 where
    null : Value
    boolean : Bool → Value
    number : ℕ → Value
    string : Text → Value
    array : Items → Value
    object : Fields → Value

  pub data Items : Type 0 where
    nil : Items
    item : Value → Items → Items
    hole : Items → Items

  pub data Fields : Type 0 where
    end : Fields
    field : Text → Value → Fields → Fields

-- `typeof v === 'object' || Array.isArray(v)`
abbrev pub is_object : Value → Bool
is_object null = true
is_object (array xs) = true
is_object (object fs) = true
is_object v = false

unfoldable mutual
  pub depth : Value → ℕ
  depth (array xs) = suc (depth_items xs)
  depth (object fs) = suc (depth_fields fs)
  depth null = 0
  depth (boolean b) = 0
  depth (number n) = 0
  depth (string s) = 0

  pub depth_items : Items → ℕ
  depth_items nil = 0
  depth_items (item v xs) = max (depth v) (depth_items xs)
  depth_items (hole xs) = depth_items xs

  pub depth_fields : Fields → ℕ
  depth_fields end = 0
  depth_fields (field k v fs) = max (depth v) (depth_fields fs)

abbrev digits_index : ℕ → Text → Option ℕ
digits_index n [] = some n
digits_index n (c ∷ s) =
    if leb b'0' c && leb c b'9' then digits_index (n * 10 + (c - b'0')) s else none

-- The number whose decimal form a property's name is: `none` if it is no such form.
unfoldable pub array_index : Text → Option ℕ
array_index [] = none
array_index (c ∷ []) = digits_index 0 (c ∷ [])
array_index (c ∷ d ∷ s) = if c == b'0' then none else digits_index 0 (c ∷ d ∷ s)
