-- ===== src/Scriptlets/Traps.antt =====
-- jslibs/scriptlets/src/helpers/defineProxyChain.ts and the scriptlets that abort a script at it:
-- abort-on-property-read.ts, abort-on-property-write.ts, abort-on-stack-trace.ts and
-- abort-current-inline-script.ts. Objects are numbers; the proxies of a deferred chain are not modelled.
pub mod Quiet
pub mod Chain
use zen_desktop_localcdn.Common.{
  ℕ, Bool, true, false, not, ◌&&◌, ◌||◌, List, [], ◌∷◌, Option, none, some, ◌==◌, if◌then◌else◌,
  Text, is_empty, includes, split,
}
use zen_desktop_localcdn.Regexp.{RegExp, Regexps, parse_search}
use zen_desktop_localcdn.Scriptlets.JsonPrune.{match_stack}

-- The objects of the page. `read` is the value of a property that is `isProxyable`.
pub record Objects : Type 0 where
  -- `part in current`
  pub has_property : ℕ → Text → Bool
  pub read : ℕ → Text → Option ℕ

-- Where the chain is trapped: at a property of an object, or at one that is not there yet, which hands
-- out proxies for the rest of the chain; or nowhere.
pub data Place : Type 0 where
  accessor_at : ℕ → Text → Place
  deferred_at : ℕ → Text → List Text → Place
  given_up : Place

-- The loop over the parts.
unfoldable pub place_of : Objects → ℕ → List Text → Place
place_of o current [] = given_up
place_of o current (part ∷ []) = accessor_at current part
place_of o current (part ∷ next ∷ rest) =
    if not (o.has_property current part)
    then deferred_at current part (next ∷ rest)
    else elim (o.read current part) [
      | none ↦ given_up
      | some below ↦ place_of o below (next ∷ rest)
    ]

unfoldable pub define_proxy_chain : Objects → ℕ → Text → Place
unfolding place_of split
define_proxy_chain o root chain = place_of o root (split chain b'.')

-- A property descriptor over the page's state: a getter, a setter, and a value.
pub record Descriptor (S V : Type 0) : Type 0 where
  pub get : Option (S → V)
  pub set : Option (V → S → S)
  pub value : Option V

-- The loop over the prototypes: the first object of the list that has the property.
unfoldable pub find_descriptor :
    {S V : Type 0} → List (Option (Descriptor S V)) → Option (Descriptor S V)
find_descriptor [] = none
find_descriptor (none ∷ holders) = find_descriptor holders
find_descriptor (some d ∷ holders) = some d

abbrev pub original_of : {S V : Type 0} → Option (Descriptor S V) → Descriptor S V
original_of none = record { get = none; set = none; value = none }
original_of (some d) = d

-- The page's state, and `originalValue`, of which `none` is undefined.
pub record Slot (S V : Type 0) : Type 0 where
  pub state : S
  pub original_value : Option V

-- What an access comes to: the callback throws, or what the property gives or becomes.
pub data Access (A : Type 0) : Type 0 where
  aborted : Access A
  passed : A → Access A

abbrev pub read_slot : {S V : Type 0} → Descriptor S V → Slot S V → Option V
read_slot d s = elim d.get [ none ↦ s.original_value | some get ↦ some (get s.state) ]

abbrev pub write_slot : {S V : Type 0} → Descriptor S V → V → Slot S V → Slot S V
write_slot d v s = elim d.set [
  | none ↦ record s { original_value = some v }
  | some set ↦ record s { state = set v s.state }
]

-- The script that runs: `document.currentScript`, by its identity and its text if it is an HTML script,
-- and the lines of the call stack.
pub record Script : Type 0 where
  pub identity : ℕ
  pub is_html_script : Bool
  pub text_content : Text

pub record Accessing : Type 0 where
  pub current_script : Option Script
  pub stack : Option Text

-- `onGet` and `onSet`: whether they throw; without a callback nothing does.
pub record Callbacks : Type 0 where
  pub on_get : Option (Accessing → Bool)
  pub on_set : Option (Accessing → Bool)

abbrev pub throws : Option (Accessing → Bool) → Accessing → Bool
throws none a = false
throws (some callback) a = callback a

-- The `get` and the `set` that are defined for the last part.
unfoldable pub get_trap :
    {S V : Type 0} → Callbacks → Descriptor S V → Accessing → Slot S V → Access (Option V)
get_trap callbacks d a s = if throws callbacks.on_get a then aborted else passed (read_slot d s)

unfoldable pub set_trap :
    {S V : Type 0} → Callbacks → Descriptor S V → Accessing → V → Slot S V → Access (Slot S V)
set_trap callbacks d a v s =
    if throws callbacks.on_set a then aborted else passed (write_slot d v s)

abbrev always : Accessing → Bool
always a = true

-- `none` is a warning, and nothing is trapped.
unfoldable pub abort_on_property_read : Text → Option Callbacks
abort_on_property_read property =
    if is_empty property then none else some (record { on_get = some always; on_set = none })

unfoldable pub abort_on_property_write : Text → Option Callbacks
abort_on_property_write property =
    if is_empty property then none else some (record { on_get = none; on_set = some always })

abbrev on_stack : Regexps → Option RegExp → Accessing → Bool
on_stack rx none a = false
on_stack rx (some re) a = match_stack rx a.stack re

unfoldable pub abort_on_stack_trace : Regexps → Text → Text → Option Callbacks
unfolding parse_search match_stack
abort_on_stack_trace rx property stack =
    if is_empty property || is_empty stack
    then none
    else some (record {
      on_get = some (on_stack rx (parse_search rx stack));
      on_set = some (on_stack rx (parse_search rx stack));
    })

abbrev search_of : Regexps → Option Text → Option RegExp
search_of rx none = none
search_of rx (some s) = if is_empty s then none else parse_search rx s

abbrev same_script : Script → Option Script → Bool
same_script a none = false
same_script a (some b) = a.identity == b.identity

abbrev holds : Regexps → Option RegExp → Text → Bool
holds rx none s = true
holds rx (some re) s = rx.test re s

-- `own` is the script that set the trap.
unfoldable pub aborts_inline : Regexps → Option RegExp → Option Script → Accessing → Bool
aborts_inline rx search_re own a = elim a.current_script [
  | none ↦ false
  | some script ↦
      script.is_html_script
      && (not (same_script script own) && holds rx search_re script.text_content)
]

unfoldable pub abort_current_inline_script :
    Regexps → Text → Option Text → Option Script → Option Callbacks
unfolding parse_search aborts_inline
abort_current_inline_script rx property sought own =
    if is_empty property
    then none
    else some (record {
      on_get = some (aborts_inline rx (search_of rx sought) own);
      on_set = some (aborts_inline rx (search_of rx sought) own);
    })

-- The listener of `error`: whether it keeps an error from the console.
unfoldable pub prevents_default : Bool → Text → Text → Bool
unfolding includes
prevents_default is_reference_error message rid = is_reference_error && includes message rid
