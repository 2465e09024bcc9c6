-- ===== src/Scriptlets/Storage.antt =====
-- jslibs/scriptlets/src/helpers/storage.ts, set-local-storage-item.ts and set-session-storage-item.ts:
-- which values may be stored, and what the scriptlets do to a `Storage`. A storage is an association
-- list, in which no key stands twice.
pub mod Items
use zen_desktop_localcdn.Common.{
  ℕ, Bool, true, false, ◌||◌, List, [], ◌∷◌, map, Option, none, some, leb, if◌then◌else◌, Text,
  codes, text_eq, to_lower_case, Result, ok, throw, ◌>>=◌, invalid_value,
}
use zen_desktop_localcdn.Common.Sets.{text_eq_inst, contains}
use zen_desktop_localcdn.Common.Ints.{ℤ, pos, negsuc, parse_int_auto}
use zen_desktop_localcdn.Regexp.{RegExp, Regexps, test_at, parse_regexp_literal}

abbrev pub Storage : Type 0
Storage = List (Text × Text)

abbrev literal_values : List Text
literal_values =
    codes "undefined"
    ∷ codes "false"
    ∷ codes "true"
    ∷ codes "null"
    ∷ codes "yes"
    ∷ codes "no"
    ∷ codes "on"
    ∷ codes "off"
    ∷ codes "accept"
    ∷ codes "accepted"
    ∷ codes "reject"
    ∷ codes "rejected"
    ∷ codes "allowed"
    ∷ codes "denied"
    ∷ codes "forbidden"
    ∷ codes "forever"
    ∷ []
    ∷ []

abbrev pub is_small_int : Option ℤ → Bool
is_small_int none = false
is_small_int (some (negsuc n)) = false
is_small_int (some (pos n)) = leb n 32767

unfoldable pub validate_untrusted_storage_value : Text → Result Text
unfolding to_lower_case contains text_eq parse_int_auto
validate_untrusted_storage_value value =
    if contains literal_values (to_lower_case value)
    then ok value
    else if text_eq value (codes "emptyArr")
    then ok (codes "[]")
    else if text_eq value (codes "emptyObj")
    then ok (codes "{}")
    else if text_eq value (codes "$remove$")
    then ok (codes "$remove$")
    else if is_small_int (parse_int_auto value)
    then ok value
    else throw invalid_value

-- `storage.getItem(key)`, `storage.setItem(key, value)`, `storage.removeItem(key)`
unfoldable pub get_item : Storage → Text → Option Text
unfolding text_eq
get_item [] key = none
get_item ((k, v) ∷ st) key = if text_eq k key then some v else get_item st key

unfoldable pub set_item : Storage → Text → Text → Storage
unfolding text_eq
set_item [] key value = (key, value) ∷ []
set_item ((k, v) ∷ st) key value =
    if text_eq k key then (k, value) ∷ st else (k, v) ∷ set_item st key value

unfoldable pub remove_item : Storage → Text → Storage
unfolding text_eq
remove_item [] key = []
remove_item ((k, v) ∷ st) key =
    let rest = remove_item st key in if text_eq k key then rest else (k, v) ∷ rest

-- `Object.keys(storage)`
abbrev pub keys : Storage → List Text
keys [] = []
keys ((k, v) ∷ st) = k ∷ keys st

-- The loop over the keys that were there at first, with the `lastIndex` of the expression.
unfoldable pub remove_matching : Regexps → RegExp → ℕ → List Text → Storage → Storage
unfolding remove_item
remove_matching rx re i [] st = st
remove_matching rx re i (k ∷ ks) st =
    let t = test_at rx re i k in
    remove_matching rx re t.last_index ks (if t.holds then remove_item st k else st)

abbrev pub remove_by : Regexps → Text → Storage → Option RegExp → Storage
remove_by rx key st none = remove_item st key
remove_by rx key st (some re) = remove_matching rx re 0 (keys st) st

unfoldable pub remove_from_storage : Regexps → Storage → Text → Storage
unfolding parse_regexp_literal remove_item remove_matching
remove_from_storage rx st key = remove_by rx key st (parse_regexp_literal rx key)

abbrev pub set_or_remove : Regexps → Storage → Text → Text → Storage
set_or_remove rx st key value =
    if text_eq value (codes "$remove$")
    then remove_from_storage rx st key
    else set_item st key value

-- `setLocalStorageItem` and `setSessionStorageItem`, called with two strings.
unfoldable pub set_storage_item : Regexps → Storage → Text → Text → Result Storage
unfolding validate_untrusted_storage_value text_eq remove_from_storage set_item
set_storage_item rx st key value =
    validate_untrusted_storage_value value >>= λ v. ok (set_or_remove rx st key v)
