-- ===== src/Scriptlets/JsonPrune.antt =====
-- jslibs/scriptlets/src/helpers/jsonPrune.ts and matchStack.ts. `prunePath` changes its object in
-- place; here it returns the object as it is then. The script is strict, so that `delete` throws a
-- `TypeError` for a property that cannot be deleted: the length of an array, and what a string has.
-- The fuel counts the levels of objects below; the depth of the value is enough.
pub mod Depth
pub mod Fuel
pub mod Gone
use zen_desktop_localcdn.Common.{
  ℕ, zero, suc, Bool, true, false, not, ◌&&◌, ◌||◌, List, [], ◌∷◌, Option, none, some, ltb,
  if◌then◌else◌, Text, codes, text_eq, ◌++◌, is_space, split, drop, trim, map, length, Result, ok,
  throw, ◌>>=◌, out_of_fuel, type_error,
}
use zen_desktop_localcdn.Regexp.{RegExp, Regexps, parse_search}
use zen_desktop_localcdn.Scriptlets.Json.{
  Value, null, boolean, number, string, array, object, Items, nil, item, hole, Fields, end, field,
  is_object, depth, array_index,
}

abbrev pub PropPath : Type 0
PropPath = List Text

abbrev pub is_star : Text → Bool
is_star seg = text_eq seg (codes "*")

abbrev pub is_brackets : Text → Bool
is_brackets seg = text_eq seg (codes "[]")

abbrev pub is_length : Text → Bool
is_length seg = text_eq seg (codes "length")

abbrev pub no_segment : PropPath → Bool
no_segment [] = true
no_segment (s ∷ p) = false

-- Whether a string of `n` units has the property: one of its units, or its length.
abbrev index_below : ℕ → Option ℕ → Bool
index_below n none = false
index_below n (some i) = ltb i n

unfoldable pub string_has : ℕ → Text → Bool
unfolding array_index text_eq
string_has n seg = index_below n (array_index seg) || is_length seg

-- `prunePath` on a string of `n` units. What it goes on with is one unit, or a number.
unfoldable pub prune_string : ℕ → PropPath → Result (Unit {0})
unfolding string_has text_eq
prune_string n [] = ok tt
prune_string n (seg ∷ rest) =
    let deeper = prune_string 1 rest in
    if is_star seg || is_brackets seg
    then ok tt
    else if string_has n seg
    then (if no_segment rest then throw type_error else if is_length seg then ok tt else deeper)
    else ok tt

-- `obj[i]` for each element, or each own property, changed by `g`.
unfoldable pub map_items : (Value → Result Value) → Items → Result Items
map_items g nil = ok nil
map_items g (item v xs) = g v >>= λ v'. map_items g xs >>= λ ys. ok (item v' ys)
map_items g (hole xs) = map_items g xs >>= λ ys. ok (hole ys)

unfoldable pub map_fields : (Value → Result Value) → Fields → Result Fields
map_fields g end = ok end
map_fields g (field k v fs) = g v >>= λ v'. map_fields g fs >>= λ gs. ok (field k v' gs)

-- `delete obj[seg]`, and a change of `obj[seg]`.
unfoldable pub delete_field : Text → Fields → Fields
unfolding text_eq
delete_field seg end = end
delete_field seg (field k v fs) =
    if text_eq k seg then delete_field seg fs else field k v (delete_field seg fs)

unfoldable pub change_field : (Value → Result Value) → Text → Fields → Result Fields
unfolding text_eq
change_field g seg end = ok end
change_field g seg (field k v fs) = (if text_eq k seg then g v else ok v) >>= λ v'.
    change_field g seg fs >>= λ gs. ok (field k v' gs)

unfoldable pub delete_item : ℕ → Items → Items
delete_item i nil = nil
delete_item zero (item v xs) = hole xs
delete_item zero (hole xs) = hole xs
delete_item (suc i) (item v xs) = item v (delete_item i xs)
delete_item (suc i) (hole xs) = hole (delete_item i xs)

unfoldable pub change_item : (Value → Result Value) → ℕ → Items → Result Items
change_item g i nil = ok nil
change_item g zero (item v xs) = g v >>= λ v'. ok (item v' xs)
change_item g zero (hole xs) = ok (hole xs)
change_item g (suc i) (item v xs) = change_item g i xs >>= λ ys. ok (item v ys)
change_item g (suc i) (hole xs) = change_item g i xs >>= λ ys. ok (hole ys)

-- The object-like values below a `*`: `prunePath(obj[prop], path)`, then `prunePath(obj[prop], rest)`.
abbrev pub below_star : (Value → Result Value) → (Value → Result Value) → Value → Result Value
below_star whole rest v = if is_object v then whole v >>= rest else ok v

abbrev pub array_of : Result Items → Result Value
array_of r = r >>= λ xs. ok (array xs)

abbrev pub object_of : Result Fields → Result Value
object_of r = r >>= λ fs. ok (object fs)

-- A plain segment on an array: an index, or `length`.
abbrev pub prune_index : (Value → Result Value) → Text → Bool → Items → Option ℕ → Result Value
prune_index deeper seg at_end xs none =
    if is_length seg && at_end then throw type_error else ok (array xs)
prune_index deeper seg at_end xs (some i) =
    if at_end then ok (array (delete_item i xs)) else array_of (change_item deeper i xs)

unfoldable pub prune_path : ℕ → PropPath → Value → Result Value
unfolding prune_string map_items map_fields delete_field change_field delete_item change_item
    array_index text_eq
prune_path f [] v = ok v
prune_path f (seg ∷ rest) (string s) = prune_string (length s) (seg ∷ rest) >>= λ u. ok (string s)
prune_path zero (seg ∷ rest) (array xs) = throw out_of_fuel
prune_path zero (seg ∷ rest) (object fs) = throw out_of_fuel
prune_path (suc f) (seg ∷ rest) (array xs) =
    let starred =
      array_of (map_items (below_star (prune_path f (seg ∷ rest)) (prune_path f rest)) xs) in
    let each = array_of (map_items (prune_path f rest) xs) in
    let plain = prune_index (prune_path f rest) seg (no_segment rest) xs (array_index seg) in
    if is_star seg then starred else if is_brackets seg then each else plain
prune_path (suc f) (seg ∷ rest) (object fs) =
    let starred =
      object_of (map_fields (below_star (prune_path f (seg ∷ rest)) (prune_path f rest)) fs) in
    let deeper = object_of (change_field (prune_path f rest) seg fs) in
    if is_star seg
    then starred
    else if is_brackets seg
    then ok (object fs)
    else if no_segment rest
    then ok (object (delete_field seg fs))
    else deeper
prune_path f (seg ∷ rest) v = ok v

-- `matchesPath` on a string of `n` units.
unfoldable pub matches_string : ℕ → PropPath → Bool
unfolding string_has text_eq
matches_string n [] = true
matches_string n (seg ∷ rest) =
    let deeper = matches_string 1 rest in
    if is_star seg || is_brackets seg
    then false
    else if string_has n seg
    then (if is_length seg then no_segment rest else deeper)
    else false

abbrev pub at_length : Text → PropPath → Bool
at_length seg rest = is_length seg && no_segment rest

unfoldable mutual
  unfolding matches_string array_index text_eq

  pub matches_path : Value → PropPath → Bool
  matches_path null path = false
  matches_path (boolean b) path = no_segment path
  matches_path (number n) path = no_segment path
  matches_path (string s) path = matches_string (length s) path
  matches_path (array xs) [] = true
  matches_path (array xs) (seg ∷ rest) =
      if is_star seg
      then star_items xs (seg ∷ rest) rest
      else if is_brackets seg
      then any_item xs rest
      else index_item xs (array_index seg) (at_length seg rest) rest
  matches_path (object fs) [] = true
  matches_path (object fs) (seg ∷ rest) =
      if is_star seg
      then star_fields fs (seg ∷ rest) rest
      else if is_brackets seg
      then false
      else at_field fs seg rest

  pub star_items : Items → PropPath → PropPath → Bool
  star_items nil path rest = false
  star_items (hole xs) path rest = star_items xs path rest
  star_items (item v xs) path rest =
      (is_object v && (matches_path v path || matches_path v rest)) || star_items xs path rest

  pub any_item : Items → PropPath → Bool
  any_item nil rest = false
  any_item (hole xs) rest = any_item xs rest
  any_item (item v xs) rest = matches_path v rest || any_item xs rest

  pub index_item : Items → Option ℕ → Bool → PropPath → Bool
  index_item nil none len rest = len
  index_item nil (some i) len rest = false
  index_item (item v xs) none len rest = len
  index_item (item v xs) (some zero) len rest = matches_path v rest
  index_item (item v xs) (some (suc i)) len rest = index_item xs (some i) len rest
  index_item (hole xs) none len rest = len
  index_item (hole xs) (some zero) len rest = false
  index_item (hole xs) (some (suc i)) len rest = index_item xs (some i) len rest

  pub star_fields : Fields → PropPath → PropPath → Bool
  star_fields end path rest = false
  star_fields (field k v fs) path rest =
      (is_object v && (matches_path v path || matches_path v rest)) || star_fields fs path rest

  pub at_field : Fields → Text → PropPath → Bool
  at_field end seg rest = false
  at_field (field k v fs) seg rest =
      if text_eq k seg then matches_path v rest else at_field fs seg rest

-- `propPaths.split(/\s+/).filter(Boolean)`: the runs of units that are no spaces.
abbrev close_word : Text → List Text → List Text
close_word [] ws = ws
close_word (c ∷ w) ws = (c ∷ w) ∷ ws

unfoldable pub words_from : Text → Text → List Text
unfolding is_space
words_from word [] = close_word word []
words_from word (c ∷ s) =
    let after_space = close_word word (words_from [] s) in
    let longer = words_from (word ++ (c ∷ [])) s in if is_space c then after_space else longer

unfoldable pub parse_prop_paths : Option Text → List PropPath
unfolding words_from split
parse_prop_paths none = []
parse_prop_paths (some s) = map (λ prop. split prop b'.') (words_from [] s)

-- `new Error().stack`, searched line by line, without its first two lines.
some_line : (Text → Bool) → List Text → Bool
some_line p [] = false
some_line p (l ∷ ls) = p l || some_line p ls

unfoldable pub match_stack : Regexps → Option Text → RegExp → Bool
unfolding some_line split trim
match_stack rx none re = false
match_stack rx (some stack) re = some_line (λ l. rx.test re (trim l)) (drop 2 (split stack b'\n'))

-- `matchesPath` at some of the paths.
unfoldable pub some_path : Value → List PropPath → Bool
unfolding matches_path
some_path v [] = false
some_path v (p ∷ ps) = matches_path v p || some_path v ps

-- `prunePath` at each of the paths.
unfoldable pub prune_paths : ℕ → List PropPath → Value → Result Value
unfolding prune_path
prune_paths f [] v = ok v
prune_paths f (p ∷ ps) v = prune_path f p v >>= prune_paths f ps

pub record Pruner : Type 0 where
  pub to_remove : List PropPath
  pub required : List PropPath
  pub stack_re : Option RegExp

-- What `createPrune` computes before it returns `prune`.
unfoldable pub create_prune : Regexps → Text → Option Text → Option Text → Pruner
unfolding parse_prop_paths parse_search
create_prune rx props required stack = record {
  to_remove = parse_prop_paths (some props);
  required = parse_prop_paths required;
  stack_re = elim stack [ none ↦ none | some s ↦ parse_search rx s ];
}

abbrev pub stack_allows : Regexps → Option Text → Option RegExp → Bool
stack_allows rx stack none = true
stack_allows rx stack (some re) = match_stack rx stack re

abbrev pub required_met : Value → List PropPath → Bool
required_met v [] = true
required_met v (p ∷ ps) = some_path v (p ∷ ps)

-- The function `prune`, at the call stack `stack`.
unfoldable pub prune : Regexps → Option Text → Pruner → Value → Result Value
unfolding match_stack some_path prune_paths depth
prune rx stack p v =
    if not (is_object v)
    then ok v
    else if not (stack_allows rx stack p.stack_re)
    then ok v
    else if not (required_met v p.required)
    then ok v
    else prune_paths (depth v) p.to_remove v
