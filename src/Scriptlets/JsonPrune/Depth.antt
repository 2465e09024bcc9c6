-- ===== src/Scriptlets/JsonPrune/Depth.antt =====
-- Pruning makes no value deeper.
use zen_desktop_localcdn.Common.{
  ℕ, zero, suc, ◌≤◌, Bool, true, false, ◌&&◌, [], ◌∷◌, Option, none, some, if◌then◌else◌, Text,
  text_eq, length, ◌≡◌, arith, ap, sym, Result, ok, throw, ◌>>=◌, bind-eq-ok, ok_or, Failure,
  out_of_fuel, type_error,
}
use zen_desktop_localcdn.Scriptlets.Json.{
  Value, null, boolean, number, string, array, object, Items, nil, item, hole, Fields, end, field,
  is_object, depth, depth_items, depth_fields, array_index,
}
use zen_desktop_localcdn.Scriptlets.JsonPrune.{
  PropPath, map_items, map_fields, delete_field, change_field, delete_item, change_item, below_star,
  array_of, object_of, prune_index, prune_path, prune_string, no_segment, is_star, is_brackets,
  is_length,
}

-- A change that makes no value deeper.
abbrev pub Flattens : (Value → Result Value) → Type 0
Flattens g = (v w : Value) → g v ≡ ok w → depth w ≤ depth v

value_of : {v w : Value} → ok v ≡ ok w → w ≡ v
value_of e = sym (ap (ok_or null) e)

items_of : {xs ys : Items} → ok xs ≡ ok ys → ys ≡ xs
items_of e = sym (ap (ok_or nil) e)

fields_of : {fs gs : Fields} → ok fs ≡ ok gs → gs ≡ fs
fields_of e = sym (ap (ok_or end) e)

module _ (g : Value → Result Value) (flat : Flattens g) where
  map_items-depth :
      (xs : Items) {ys : Items} → map_items g xs ≡ ok ys → depth_items ys ≤ depth_items xs
  unfolding map_items depth_items
  map_items-depth nil h = rw (items_of h) (omega arith)
  map_items-depth (item v xs) h =
      let (w, e, h') = bind-eq-ok (g v) _ h in
      let (zs, e', h'') = bind-eq-ok (map_items g xs) _ h' in
      let a = flat v w e in let b = map_items-depth xs e' in rw (items_of h'') (omega arith)
  map_items-depth (hole xs) h =
      let (zs, e, h') = bind-eq-ok (map_items g xs) _ h in
      let b = map_items-depth xs e in rw (items_of h') b

  map_fields-depth :
      (fs : Fields) {gs : Fields} → map_fields g fs ≡ ok gs → depth_fields gs ≤ depth_fields fs
  unfolding map_fields depth_fields
  map_fields-depth end h = rw (fields_of h) (omega arith)
  map_fields-depth (field k v fs) h =
      let (w, e, h') = bind-eq-ok (g v) _ h in
      let (zs, e', h'') = bind-eq-ok (map_fields g fs) _ h' in
      let a = flat v w e in let b = map_fields-depth fs e' in rw (fields_of h'') (omega arith)

  if-flat :
      (b : Bool) (v : Value) {w : Value} → (if b then g v else ok v) ≡ ok w → depth w ≤ depth v
  if-flat true v {w} h = flat v w h
  if-flat false v h = rw (value_of h) (omega arith)

  change_field-depth :
      (seg : Text) (fs : Fields) {gs : Fields}
      → change_field g seg fs ≡ ok gs
      → depth_fields gs ≤ depth_fields fs
  unfolding change_field depth_fields
  change_field-depth seg end h = rw (fields_of h) (omega arith)
  change_field-depth seg (field k v fs) h =
      let (w, e, h') = bind-eq-ok (if text_eq k seg then g v else ok v) _ h in
      let (zs, e', h'') = bind-eq-ok (change_field g seg fs) _ h' in
      let a = if-flat (text_eq k seg) v e in
      let b = change_field-depth seg fs e' in rw (fields_of h'') (omega arith)

  change_item-depth :
      (i : ℕ) (xs : Items) {ys : Items}
      → change_item g i xs ≡ ok ys
      → depth_items ys ≤ depth_items xs
  unfolding change_item depth_items
  change_item-depth i nil h = rw (items_of h) (omega arith)
  change_item-depth zero (item v xs) h =
      let (w, e, h') = bind-eq-ok (g v) _ h in let a = flat v w e in rw (items_of h') (omega arith)
  change_item-depth zero (hole xs) h = rw (items_of h) (omega arith)
  change_item-depth (suc i) (item v xs) h =
      let (zs, e, h') = bind-eq-ok (change_item g i xs) _ h in
      let b = change_item-depth i xs e in rw (items_of h') (omega arith)
  change_item-depth (suc i) (hole xs) h =
      let (zs, e, h') = bind-eq-ok (change_item g i xs) _ h in
      let b = change_item-depth i xs e in rw (items_of h') b

delete_item-depth : (i : ℕ) (xs : Items) → depth_items (delete_item i xs) ≤ depth_items xs
unfolding delete_item depth_items
delete_item-depth i nil = omega arith
delete_item-depth zero (item v xs) = omega arith
delete_item-depth zero (hole xs) = omega arith
delete_item-depth (suc i) (item v xs) = omega (arith, delete_item-depth i xs)
delete_item-depth (suc i) (hole xs) = delete_item-depth i xs

delete_field-depth :
    (seg : Text) (fs : Fields) → depth_fields (delete_field seg fs) ≤ depth_fields fs
unfolding delete_field depth_fields
delete_field-depth seg end = omega arith
delete_field-depth seg (field k v fs) = ground (arith, delete_field-depth seg fs)

-- No value that the call returns is deeper.
abbrev pub Within : ℕ → Result Value → Type 0
Within n r = (w : Value) → r ≡ ok w → depth w ≤ n

if-Within :
    (n : ℕ) (b : Bool) (x y : Result Value)
    → Within n x
    → Within n y
    → Within n (if b then x else y)
if-Within n true x y h k = h
if-Within n false x y h k = k

self-Within : (v : Value) → Within (depth v) (ok v)
self-Within v w h = rw (value_of h) (omega arith)

array-Within :
    (xs : Items) (r : Result Items)
    → ((ys : Items) → r ≡ ok ys → depth_items ys ≤ depth_items xs)
    → Within (depth (array xs)) (array_of r)
unfolding depth
array-Within xs r h w e =
    let (ys, o, e') = bind-eq-ok r _ e in let le = h ys o in rw (value_of e') (omega arith)

object-Within :
    (fs : Fields) (r : Result Fields)
    → ((gs : Fields) → r ≡ ok gs → depth_fields gs ≤ depth_fields fs)
    → Within (depth (object fs)) (object_of r)
unfolding depth
object-Within fs r h w e =
    let (gs, o, e') = bind-eq-ok r _ e in let le = h gs o in rw (value_of e') (omega arith)

throw-Within : (n : ℕ) (e : Failure) → Within n (throw e)
throw-Within n e w h = cc

below_star-flat :
    (whole rest : Value → Result Value)
    → Flattens whole
    → Flattens rest
    → Flattens (below_star whole rest)
below_star-flat whole rest a b v w h = if-below (is_object v) h
  where
    if-below : (c : Bool) → (if c then whole v >>= rest else ok v) ≡ ok w → depth w ≤ depth v
    if-below true e =
        let (u, o, e') = bind-eq-ok (whole v) rest e in
        let le = a v u o in let le' = b u w e' in omega arith
    if-below false e = rw (value_of e) (omega arith)

prune_index-Within :
    (deeper : Value → Result Value) (seg : Text) (at_end : Bool) (xs : Items) (o : Option ℕ)
    → Flattens deeper
    → Within (depth (array xs)) (prune_index deeper seg at_end xs o)
unfolding depth
prune_index-Within deeper seg at_end xs none flat =
    if-Within (depth (array xs)) (is_length seg && at_end) (throw type_error) (ok (array xs))
      (throw-Within (depth (array xs)) type_error) (self-Within (array xs))
prune_index-Within deeper seg true xs (some i) flat =
    array-Within xs (ok (delete_item i xs)) (λ ys e. rw (items_of e) (delete_item-depth i xs))
prune_index-Within deeper seg false xs (some i) flat =
    array-Within xs (change_item deeper i xs) (λ ys e. change_item-depth deeper flat i xs e)

pub then-Within : (v : Value) (r : Result (Unit {0})) → Within (depth v) (r >>= λ u. ok v)
then-Within v r w h = let (u, o, e) = bind-eq-ok r _ h in self-Within v w e

pub prune_path-flat : (f : ℕ) (p : PropPath) → Flattens (prune_path f p)
unfolding prune_path
prune_path-flat f [] v = self-Within v
prune_path-flat f (seg ∷ rest) (string s) =
    then-Within (string s) (prune_string (length s) (seg ∷ rest))
prune_path-flat f (seg ∷ rest) null = self-Within null
prune_path-flat f (seg ∷ rest) (boolean b) = self-Within (boolean b)
prune_path-flat f (seg ∷ rest) (number n) = self-Within (number n)
prune_path-flat zero (seg ∷ rest) (array xs) = throw-Within (depth (array xs)) out_of_fuel
prune_path-flat zero (seg ∷ rest) (object fs) = throw-Within (depth (object fs)) out_of_fuel
prune_path-flat (suc f) (seg ∷ rest) (array xs) =
    let whole = prune_path f (seg ∷ rest) in
    let deeper = prune_path f rest in
    let below =
      below_star-flat whole deeper (prune_path-flat f (seg ∷ rest)) (prune_path-flat f rest) in
    if-Within (depth (array xs)) (is_star seg) _ _
      (array-Within xs (map_items (below_star whole deeper) xs)
        (λ ys e. map_items-depth (below_star whole deeper) below xs e))
      (if-Within (depth (array xs)) (is_brackets seg) _ _
        (array-Within xs (map_items deeper xs)
          (λ ys e. map_items-depth deeper (prune_path-flat f rest) xs e))
        (prune_index-Within deeper seg (no_segment rest) xs (array_index seg)
          (prune_path-flat f rest)))
prune_path-flat (suc f) (seg ∷ rest) (object fs) =
    let whole = prune_path f (seg ∷ rest) in
    let deeper = prune_path f rest in
    let below =
      below_star-flat whole deeper (prune_path-flat f (seg ∷ rest)) (prune_path-flat f rest) in
    if-Within (depth (object fs)) (is_star seg) _ _
      (object-Within fs (map_fields (below_star whole deeper) fs)
        (λ gs e. map_fields-depth (below_star whole deeper) below fs e))
      (if-Within (depth (object fs)) (is_brackets seg) _ _ (self-Within (object fs)) (
        if-Within (depth (object fs)) (no_segment rest) _ _
          (object-Within fs (ok (delete_field seg fs))
            (λ gs e. rw (fields_of e) (delete_field-depth seg fs)))
          (object-Within fs (change_field deeper seg fs)
            (λ gs e. change_field-depth deeper (prune_path-flat f rest) seg fs e))))
