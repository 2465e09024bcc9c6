-- ===== src/Scriptlets/JsonPrune/Gone.antt =====
-- What a path without `*` selects is gone behind its pruning.
use zen_desktop_localcdn.Common.{
  ℕ, zero, suc, Bool, true, false, ◌&&◌, ◌||◌, [], ◌∷◌, Option, none, some, if◌then◌else◌, Text,
  text_eq, length, ◌≡◌, ◌≢◌, refl, ap, sym, ◌∙◌, Result, ok, throw, bind-eq-ok, ok_or, Failure,
  out_of_fuel, type_error, Bool-cases, inl, inr,
}
use mathlib.Core.Path.{subst}
use zen_desktop_localcdn.Scriptlets.Json.{
  Value, null, boolean, number, string, array, object, Items, nil, item, hole, Fields, end, field,
  array_index,
}
use zen_desktop_localcdn.Scriptlets.JsonPrune.{
  PropPath, map_items, delete_field, change_field, delete_item, change_item, object_of, prune_index,
  prune_path, prune_string, no_segment, is_star, is_brackets, is_length, string_has, matches_path,
  matches_string, any_item, index_item, at_field, at_length,
}

-- A path of at least one segment, of which none is `*` and the last is not `[]`.
abbrev pub IsPlain : PropPath → Type 0
IsPlain [] = ⊥
IsPlain (seg ∷ []) = (is_star seg ≡ false) × (is_brackets seg ≡ false)
IsPlain (seg ∷ s ∷ rest) = (is_star seg ≡ false) × IsPlain (s ∷ rest)

-- What a call returns, if it returns, no longer matches.
abbrev pub Removes : PropPath → Result Value → Type 0
Removes p r = (w : Value) → r ≡ ok w → matches_path w p ≡ false

delete_field-at_field : (seg : Text) (fs : Fields) → at_field (delete_field seg fs) seg [] ≡ false
unfolding delete_field at_field
delete_field-at_field seg end = refl
delete_field-at_field seg (field k v fs) = elim (Bool-cases (text_eq k seg)) [
  | inl e ↦ rw e (delete_field-at_field seg fs)
  | inr e ↦ rw e (rw e (delete_field-at_field seg fs))
]

delete_item-index_item :
    (i : ℕ) (xs : Items) (len : Bool) → index_item (delete_item i xs) (some i) len [] ≡ false
unfolding delete_item index_item
delete_item-index_item i nil len = refl
delete_item-index_item zero (item v xs) len = refl
delete_item-index_item zero (hole xs) len = refl
delete_item-index_item (suc i) (item v xs) len = delete_item-index_item i xs len
delete_item-index_item (suc i) (hole xs) len = delete_item-index_item i xs len

module _ (g : Value → Result Value) (p : PropPath) (gone : (v : Value) → Removes p (g v)) where
  map_items-any_item : (xs : Items) {ys : Items} → map_items g xs ≡ ok ys → any_item ys p ≡ false
  unfolding map_items any_item
  map_items-any_item nil h = subst (λ ys. any_item ys p ≡ false) (ap (ok_or nil) h) refl
  map_items-any_item (item v xs) h =
      let (w, e, h') = bind-eq-ok (g v) _ h in
      let (zs, e', h'') = bind-eq-ok (map_items g xs) _ h' in
      subst (λ ys. any_item ys p ≡ false) (ap (ok_or nil) h'')
        (rw (gone v w e) (map_items-any_item xs e'))
  map_items-any_item (hole xs) h =
      let (zs, e, h') = bind-eq-ok (map_items g xs) _ h in
      subst (λ ys. any_item ys p ≡ false) (ap (ok_or nil) h') (map_items-any_item xs e)

  change_item-index_item :
      (i : ℕ) (xs : Items) (len : Bool) {ys : Items}
      → change_item g i xs ≡ ok ys
      → index_item ys (some i) len p ≡ false
  unfolding change_item index_item
  change_item-index_item i nil len h =
      subst (λ ys. index_item ys (some i) len p ≡ false) (ap (ok_or nil) h) refl
  change_item-index_item zero (item v xs) len h =
      let (w, e, h') = bind-eq-ok (g v) _ h in
      subst (λ ys. index_item ys (some zero) len p ≡ false) (ap (ok_or nil) h') (gone v w e)
  change_item-index_item zero (hole xs) len h =
      subst (λ ys. index_item ys (some zero) len p ≡ false) (ap (ok_or nil) h) refl
  change_item-index_item (suc i) (item v xs) len h =
      let (zs, e, h') = bind-eq-ok (change_item g i xs) _ h in
      subst (λ ys. index_item ys (some (suc i)) len p ≡ false) (ap (ok_or nil) h')
        (change_item-index_item i xs len e)
  change_item-index_item (suc i) (hole xs) len h =
      let (zs, e, h') = bind-eq-ok (change_item g i xs) _ h in
      subst (λ ys. index_item ys (some (suc i)) len p ≡ false) (ap (ok_or nil) h')
        (change_item-index_item i xs len e)

  if-removes :
      (b : Bool) (v : Value) {w : Value}
      → b ≡ true
      → (if b then g v else ok v) ≡ ok w
      → matches_path w p ≡ false
  if-removes true v {w} t h = gone v w h
  if-removes false v t h = cc

  change_field-at_field :
      (seg : Text) (fs : Fields) {gs : Fields}
      → change_field g seg fs ≡ ok gs
      → at_field gs seg p ≡ false
  unfolding change_field at_field
  change_field-at_field seg end h = subst (λ gs. at_field gs seg p ≡ false) (ap (ok_or end) h) refl
  change_field-at_field seg (field k v fs) h =
      let (w, e, h') = bind-eq-ok (if text_eq k seg then g v else ok v) _ h in
      let (zs, e', h'') = bind-eq-ok (change_field g seg fs) _ h' in
      subst (λ gs. at_field gs seg p ≡ false) (ap (ok_or end) h'')
        (elim (Bool-cases (text_eq k seg)) [
          | inl t ↦ rw t (if-removes (text_eq k seg) v t e)
          | inr t ↦ rw t (change_field-at_field seg fs e')
        ])

index_item-none : (xs : Items) (len : Bool) (p : PropPath) → index_item xs none len p ≡ len
unfolding index_item
index_item-none nil len p = refl
index_item-none (item v xs) len p = refl
index_item-none (hole xs) len p = refl

-- An array that no longer has the element.
abbrev ArrayGone : Text → PropPath → Option ℕ → Value → Type 0
ArrayGone seg rest o w =
    (ys : Items) × (array ys ≡ w) × (index_item ys o (at_length seg rest) rest ≡ false)

length_throws :
    (b : Bool) (xs : Items) {w : Value}
    → (if b then throw type_error else ok (array xs)) ≡ ok w
    → (b ≡ false) × (array xs ≡ w)
length_throws true xs h = cc
length_throws false xs h = (refl, ap (ok_or null) h)

prune_index-ArrayGone :
    (g : Value → Result Value) (seg : Text) (rest : PropPath) (xs : Items) (o : Option ℕ)
    {w : Value}
    → ((no_segment rest ≡ false) → (v : Value) → Removes rest (g v))
    → prune_index g seg (no_segment rest) xs o ≡ ok w
    → ArrayGone seg rest o w
prune_index-ArrayGone g seg rest xs none gone h =
    let (l, e) = length_throws (is_length seg && no_segment rest) xs h in
    (xs, e, index_item-none xs (at_length seg rest) rest ∙ l)
prune_index-ArrayGone g seg [] xs (some i) gone h =
    (delete_item i xs, ap (ok_or null) h, delete_item-index_item i xs (at_length seg []))
prune_index-ArrayGone g seg (s ∷ rest) xs (some i) gone h =
    let (ys, e, h') = bind-eq-ok (change_item g i xs) _ h in
    (
      ys,
      ap (ok_or null) h',
      change_item-index_item g (s ∷ rest) (gone refl) i xs (at_length seg (s ∷ rest)) e,
    )

string_gone :
    (a b c m : Bool) (r : Result (Unit {0}))
    → (r ≡ ok tt → m ≡ false)
    → (if a then ok tt else if b then (if c then ok tt else r) else ok tt) ≡ ok tt
    → (if a then false else if b then (if c then false else m) else false) ≡ false
string_gone true b c m r k h = refl
string_gone false true true m r k h = refl
string_gone false true false m r k h = k h
string_gone false false c m r k h = refl

abbrev done : Result (Unit {0})
done = ok tt

string_end_gone :
    (a b c : Bool)
    → (if a then done else if b then throw type_error else done) ≡ done
    → (if a then false else if b then (if c then true else true) else false) ≡ false
string_end_gone true b c h = refl
string_end_gone false true c h = cc
string_end_gone false false c h = refl

prune_string-gone :
    (n : ℕ) (p : PropPath) → IsPlain p → prune_string n p ≡ ok tt → matches_string n p ≡ false
unfolding prune_string matches_string
prune_string-gone n [] l h = absurd l
prune_string-gone n (seg ∷ []) l h =
    string_end_gone (is_star seg || is_brackets seg) (string_has n seg) (is_length seg) h
prune_string-gone n (seg ∷ s ∷ rest) l h =
    string_gone (is_star seg || is_brackets seg) (string_has n seg) (is_length seg)
      (matches_string 1 (s ∷ rest)) (prune_string 1 (s ∷ rest)) (prune_string-gone 1 (s ∷ rest) l.1)
      h

self-Removes : (v : Value) (p : PropPath) → matches_path v p ≡ false → Removes p (ok v)
self-Removes v p e w h = subst (λ u. matches_path u p ≡ false) (ap (ok_or null) h) e

throw-Removes : (e : Failure) (p : PropPath) → Removes p (throw e)
throw-Removes e p w h = cc

-- The rest of a path, if there is one.
IsPlain-rest :
    (seg : Text) (rest : PropPath) → IsPlain (seg ∷ rest) → no_segment rest ≡ false → IsPlain rest
IsPlain-rest seg [] l h = cc
IsPlain-rest seg (s ∷ rest) l h = l.1

IsPlain-star : (seg : Text) (rest : PropPath) → IsPlain (seg ∷ rest) → is_star seg ≡ false
IsPlain-star seg [] l = l.0
IsPlain-star seg (s ∷ rest) l = l.0

true-not-false : true ≢ false
true-not-false e = cc

IsPlain-brackets :
    (seg : Text) (rest : PropPath)
    → IsPlain (seg ∷ rest)
    → is_brackets seg ≡ true
    → no_segment rest ≡ false
IsPlain-brackets seg [] l h = absurd (true-not-false (sym h ∙ l.1))
IsPlain-brackets seg (s ∷ rest) l h = refl

array_gone :
    (f : ℕ) (seg : Text) (rest : PropPath) (xs : Items) {w : Value}
    → IsPlain (seg ∷ rest)
    → ((no_segment rest ≡ false) → (v : Value) → Removes rest (prune_path f rest v))
    → prune_path (suc f) (seg ∷ rest) (array xs) ≡ ok w
    → matches_path w (seg ∷ rest) ≡ false
unfolding prune_path matches_path
array_gone f seg rest xs {w} l gone h =
    let star = IsPlain-star seg rest l in
    elim (Bool-cases (is_brackets seg)) [
      | inl b ↦
          let (ys, e, h') = bind-eq-ok (map_items (prune_path f rest) xs) _ (rw (star, b) at h) in
          subst (λ u. matches_path u (seg ∷ rest) ≡ false) (ap (ok_or null) h')
            (rw (star, b)
              (map_items-any_item (prune_path f rest) rest (gone (IsPlain-brackets seg rest l b)) xs
                e))
      | inr b ↦
          let (ys, e, none_left) =
            prune_index-ArrayGone (prune_path f rest) seg rest xs (array_index seg) gone
              (rw (star, b) at h) in
          subst (λ u. matches_path u (seg ∷ rest) ≡ false) e (rw (star, b) none_left)
    ]

-- An object that no longer has the property.
fields_gone :
    (f : ℕ) (seg : Text) (rest : PropPath) (fs : Fields) {w : Value}
    → ((no_segment rest ≡ false) → (v : Value) → Removes rest (prune_path f rest v))
    → (if no_segment rest
        then ok (object (delete_field seg fs))
        else object_of (change_field (prune_path f rest) seg fs))
      ≡ ok w
    → (gs : Fields) × (object gs ≡ w) × (at_field gs seg rest ≡ false)
fields_gone f seg [] fs gone h =
    (delete_field seg fs, ap (ok_or null) h, delete_field-at_field seg fs)
fields_gone f seg (s ∷ rest) fs gone h =
    let (gs, e, h') = bind-eq-ok (change_field (prune_path f (s ∷ rest)) seg fs) _ h in
    (
      gs,
      ap (ok_or null) h',
      change_field-at_field (prune_path f (s ∷ rest)) (s ∷ rest) (gone refl) seg fs e,
    )

object_gone :
    (f : ℕ) (seg : Text) (rest : PropPath) (fs : Fields) {w : Value}
    → IsPlain (seg ∷ rest)
    → ((no_segment rest ≡ false) → (v : Value) → Removes rest (prune_path f rest v))
    → prune_path (suc f) (seg ∷ rest) (object fs) ≡ ok w
    → matches_path w (seg ∷ rest) ≡ false
unfolding prune_path matches_path
object_gone f seg rest fs {w} l gone h =
    let star = IsPlain-star seg rest l in
    elim (Bool-cases (is_brackets seg)) [
      | inl b ↦
          subst (λ u. matches_path u (seg ∷ rest) ≡ false) (ap (ok_or null) (rw (star, b) at h))
            (rw (star, b) refl)
      | inr b ↦
          let (gs, e, none_left) = fields_gone f seg rest fs gone (rw (star, b) at h) in
          subst (λ u. matches_path u (seg ∷ rest) ≡ false) e (rw (star, b) none_left)
    ]

-- Pruning that returns has removed what its path selects: the path no longer matches. (The path has
-- a segment, no segment is `*`, and the last one is not `[]`.)
pub prune_path-matches_path :
    (f : ℕ) (p : PropPath) (v : Value) {w : Value}
    → IsPlain p
    → prune_path f p v ≡ ok w
    → matches_path w p ≡ false
unfolding prune_path matches_path
prune_path-matches_path f [] v l h = absurd l
prune_path-matches_path f (seg ∷ rest) null {w} l h = self-Removes null (seg ∷ rest) refl w h
prune_path-matches_path f (seg ∷ rest) (boolean b) {w} l h =
    self-Removes (boolean b) (seg ∷ rest) refl w h
prune_path-matches_path f (seg ∷ rest) (number n) {w} l h =
    self-Removes (number n) (seg ∷ rest) refl w h
prune_path-matches_path f (seg ∷ rest) (string s) {w} l h =
    let (u, e, h') = bind-eq-ok (prune_string (length s) (seg ∷ rest)) _ h in
    self-Removes (string s) (seg ∷ rest) (prune_string-gone (length s) (seg ∷ rest) l e) w h'
prune_path-matches_path zero (seg ∷ rest) (array xs) {w} l h =
    throw-Removes out_of_fuel (seg ∷ rest) w h
prune_path-matches_path zero (seg ∷ rest) (object fs) {w} l h =
    throw-Removes out_of_fuel (seg ∷ rest) w h
prune_path-matches_path (suc f) (seg ∷ rest) (array xs) {w} l h =
    array_gone f seg rest xs l
      (λ n v u e. prune_path-matches_path f rest v (IsPlain-rest seg rest l n) e) h
prune_path-matches_path (suc f) (seg ∷ rest) (object fs) {w} l h =
    object_gone f seg rest fs l
      (λ n v u e. prune_path-matches_path f rest v (IsPlain-rest seg rest l n) e) h
