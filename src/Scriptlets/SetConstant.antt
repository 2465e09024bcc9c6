-- ===== src/Scriptlets/SetConstant.antt =====
-- jslibs/scriptlets/src/set-constant.ts: the values that a property can be set to, and the accessor
-- that the scriptlet defines for a property of one segment, or for the last of several.
pub mod Reading
use zen_desktop_localcdn.Common.{
  ℕ, Bool, true, false, not, ◌&&◌, List, [], ◌∷◌, Option, none, some, if◌then◌else◌, Text, codes,
  text_eq, is_empty, leb, Result, ok, throw, ◌>>=◌, invalid_value,
}
use zen_desktop_localcdn.Common.Ints.{parse_int}
use zen_desktop_localcdn.Regexp.{RegExp, Regexps, parse_search}
use zen_desktop_localcdn.Scriptlets.Storage.{is_small_int}
use zen_desktop_localcdn.Scriptlets.JsonPrune.{stack_allows, match_stack}

-- A fake value. A function is what a call of it gives: a value, a throw, or a promise.
pub data Fake : Type 0 where
  undefined null empty_obj empty_arr minus_one : Fake
  boolean : Bool → Fake
  text : Text → Fake
  returning resolving rejecting : Fake → Fake
  throwing resolving_response : Fake

-- The cases of the `switch`.
abbrev pub fake_values : List (Text × Fake)
fake_values =
    (codes "undefined", undefined)
    ∷ (codes "false", boolean false)
    ∷ (codes "true", boolean true)
    ∷ (codes "null", null)
    ∷ (codes "emptyObj", empty_obj)
    ∷ (codes "emptyArr", empty_arr)
    ∷ (codes "noopFunc", returning undefined)
    ∷ (codes "noopCallbackFunc", returning (returning undefined))
    ∷ (codes "trueFunc", returning (boolean true))
    ∷ (codes "falseFunc", returning (boolean false))
    ∷ (codes "throwFunc", throwing)
    ∷ (codes "noopPromiseResolve", resolving_response)
    ∷ (codes "noopPromiseReject", rejecting undefined)
    ∷ ([], text [])
    ∷ (codes "-1", minus_one)
    ∷ (codes "yes", text (codes "yes"))
    ∷ (codes "no", text (codes "no"))
    ∷ []

unfoldable pub find_value : Text → List (Text × Fake) → Option Fake
unfolding text_eq
find_value value [] = none
find_value value ((name, fake) ∷ rest) =
    if text_eq value name then some fake else find_value value rest

abbrev or_small : Text → Option Fake → Result Fake
or_small value (some fake) = ok fake
or_small value none =
    if is_small_int (parse_int value) then ok (text value) else throw invalid_value

unfoldable pub fake_value : Text → Result Fake
unfolding find_value parse_int
fake_value value = or_small value (find_value value fake_values)

unfoldable pub wrap : Option Text → Fake → Fake
unfolding text_eq
wrap none fake = fake
wrap (some name) fake =
    if text_eq name (codes "asFunction")
    then returning fake
    else if text_eq name (codes "asCallback")
    then returning (returning fake)
    else if text_eq name (codes "asResolved")
    then resolving fake
    else if text_eq name (codes "asRejected")
    then rejecting fake
    else fake

abbrev pub stack_of : Regexps → Option Text → Option RegExp
stack_of rx none = none
stack_of rx (some s) = if is_empty s then none else parse_search rx s

-- What the scriptlet computes before it touches the property.
pub record Setting : Type 0 where
  pub fake : Fake
  pub stack_re : Option RegExp

unfoldable pub setting_of : Regexps → Text → Option Text → Option Text → Result Setting
unfolding fake_value wrap parse_search
setting_of rx value stack wrapper = fake_value value >>= λ fake.
    ok (record { fake = wrap wrapper fake; stack_re = stack_of rx stack })

-- A property before the scriptlet, over the page's state: its own or inherited from a prototype, with a
-- value that may or may not be overwritten, or with a getter, which changes nothing, and a setter. It
-- can be redefined.
pub data Property (S V : Type 0) : Type 0 where
  absent : Property S V
  own_data inherited_data : (writable : Bool) → V → Property S V
  own_accessor inherited_accessor : Option (S → V) → Option (V → S → S) → Property S V

-- `odesc?.get` and `odesc?.set`.
pub record Original (S V : Type 0) : Type 0 where
  pub get : Option (S → V)
  pub set : Option (V → S → S)

-- Only the own descriptor is looked at.
unfoldable pub own_descriptor : {S V : Type 0} → Property S V → Original S V
own_descriptor (own_accessor get set) = record { get = get; set = set }
own_descriptor absent = record { get = none; set = none }
own_descriptor (own_data writable v) = record { get = none; set = none }
own_descriptor (inherited_data writable v) = record { get = none; set = none }
own_descriptor (inherited_accessor get set) = record { get = none; set = none }

-- What the language reads from a property; `missing` is its `undefined`.
unfoldable pub read_property : {S V : Type 0} → V → S → Property S V → V
read_property missing s absent = missing
read_property missing s (own_data writable v) = v
read_property missing s (inherited_data writable v) = v
read_property missing s (own_accessor none set) = missing
read_property missing s (own_accessor (some get) set) = get s
read_property missing s (inherited_accessor none set) = missing
read_property missing s (inherited_accessor (some get) set) = get s

-- The page's state, and `localValue`.
pub record Cell (S V : Type 0) : Type 0 where
  pub state : S
  pub local_value : V

-- The scriptlet reads the property when it starts.
unfoldable pub cell_of : {S V : Type 0} → V → S → Property S V → Cell S V
unfolding read_property
cell_of missing s p = record { state = s; local_value = read_property missing s p }

-- What a read gives.
pub data Seen (V : Type 0) : Type 0 where
  faked : Fake → Seen V
  real : V → Seen V

abbrev pub read_real : {S V : Type 0} → Option (S → V) → Cell S V → V
read_real none c = c.local_value
read_real (some get) c = get c.state

-- The new `get`, at a call stack.
unfoldable pub get_property :
    {S V : Type 0} → Regexps → Setting → Original S V → Option Text → Cell S V → Seen V
unfolding match_stack
get_property rx setting original stack c =
    if not (stack_allows rx stack setting.stack_re)
    then real (read_real original.get c)
    else faked setting.fake

abbrev pub write_real : {S V : Type 0} → Option (V → S → S) → V → Cell S V → Cell S V
write_real none v c = record c { local_value = v }
write_real (some set) v c = record c { state = set v c.state }

-- The new `set`.
unfoldable pub set_property : {S V : Type 0} → Original S V → V → Cell S V → Cell S V
set_property original v c = write_real original.set v c

unfoldable pub set_all : {S V : Type 0} → Original S V → List V → Cell S V → Cell S V
unfolding set_property
set_all original [] c = c
set_all original (v ∷ vs) c = set_all original vs (set_property original v c)
