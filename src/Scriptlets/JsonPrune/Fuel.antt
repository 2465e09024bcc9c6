-- ===== src/Scriptlets/JsonPrune/Fuel.antt =====
-- The depth of a value is enough fuel.
use zen_desktop_localcdn.Common.{
  ℕ, zero, suc, ◌≤◌, Bool, true, false, not, ◌&&◌, ◌||◌, List, [], ◌∷◌, Option, none, some,
  if◌then◌else◌, Text, text_eq, length, ◌≡◌, refl, arith, Result, ok, throw, ◌>>=◌, type_error, ◌⊎◌,
  inl, inr,
}
use zen_desktop_localcdn.Regexp.{Regexps}
use zen_desktop_localcdn.Scriptlets.Json.{
  Value, null, boolean, number, string, array, object, Items, nil, item, hole, Fields, end, field,
  is_object, depth, depth_items, depth_fields, array_index,
}
use zen_desktop_localcdn.Scriptlets.JsonPrune.{
  PropPath, map_items, map_fields, delete_field, change_field, change_item, below_star, prune_index,
  prune_path, prune_string, no_segment, is_star, is_brackets, is_length, string_has, prune_paths,
  Pruner, stack_allows, required_met, prune,
}
use zen_desktop_localcdn.Scriptlets.JsonPrune.Depth.{prune_path-flat}

-- The call returns, or throws a `TypeError`.
abbrev Settles : {A : Type 0} → Result A → Type 0
Settles (ok a) = Unit
Settles (throw type_error) = Unit
Settles (throw e) = ⊥

bind-Settles :
    {A B : Type 0} (m : Result A) (f : A → Result B)
    → Settles m
    → ((a : A) → Settles (f a))
    → Settles (m >>= f)
bind-Settles (ok a) f h k = k a
bind-Settles (throw type_error) f h k = tt
bind-Settles (throw _) f h k = h

-- The change settles for every value of the depth `n` at most.
abbrev SettlesBelow : ℕ → (Value → Result Value) → Type 0
SettlesBelow n g = (v : Value) → depth v ≤ n → Settles (g v)

if-Settles :
    {A : Type 0} (b : Bool) (x y : Result A) → Settles x → Settles y → Settles (if b then x else y)
if-Settles true x y h k = h
if-Settles false x y h k = k

module _ (n : ℕ) (g : Value → Result Value) (ends : SettlesBelow n g) where
  map_items-Settles : (xs : Items) → depth_items xs ≤ n → Settles (map_items g xs)
  unfolding map_items depth_items
  map_items-Settles nil h = tt
  map_items-Settles (item v xs) h =
      bind-Settles (g v) _ (ends v (omega arith))
        (λ w. bind-Settles (map_items g xs) _ (map_items-Settles xs (omega arith)) (λ ys. tt))
  map_items-Settles (hole xs) h =
      bind-Settles (map_items g xs) _ (map_items-Settles xs h) (λ ys. tt)

  map_fields-Settles : (fs : Fields) → depth_fields fs ≤ n → Settles (map_fields g fs)
  unfolding map_fields depth_fields
  map_fields-Settles end h = tt
  map_fields-Settles (field k v fs) h =
      bind-Settles (g v) _ (ends v (omega arith))
        (λ w. bind-Settles (map_fields g fs) _ (map_fields-Settles fs (omega arith)) (λ gs. tt))

  change_field-Settles :
      (seg : Text) (fs : Fields) → depth_fields fs ≤ n → Settles (change_field g seg fs)
  unfolding change_field depth_fields
  change_field-Settles seg end h = tt
  change_field-Settles seg (field k v fs) h =
      bind-Settles (if text_eq k seg then g v else ok v) _
        (if-Settles (text_eq k seg) (g v) (ok v) (ends v (omega arith)) tt)
        (λ w.
          bind-Settles (change_field g seg fs) _ (change_field-Settles seg fs (omega arith))
            (λ gs. tt))

  change_item-Settles : (i : ℕ) (xs : Items) → depth_items xs ≤ n → Settles (change_item g i xs)
  unfolding change_item depth_items
  change_item-Settles i nil h = tt
  change_item-Settles zero (item v xs) h = bind-Settles (g v) _ (ends v (omega arith)) (λ w. tt)
  change_item-Settles zero (hole xs) h = tt
  change_item-Settles (suc i) (item v xs) h =
      bind-Settles (change_item g i xs) _ (change_item-Settles i xs (omega arith)) (λ ys. tt)
  change_item-Settles (suc i) (hole xs) h =
      bind-Settles (change_item g i xs) _ (change_item-Settles i xs h) (λ ys. tt)

  prune_index-Settles :
      (seg : Text) (at_end : Bool) (xs : Items) (o : Option ℕ)
      → depth_items xs ≤ n
      → Settles (prune_index g seg at_end xs o)
  prune_index-Settles seg at_end xs none h =
      if-Settles (is_length seg && at_end) (throw type_error) (ok (array xs)) tt tt
  prune_index-Settles seg true xs (some i) h = tt
  prune_index-Settles seg false xs (some i) h =
      bind-Settles (change_item g i xs) _ (change_item-Settles i xs h) (λ ys. tt)

prune_string-Settles : (n : ℕ) (p : PropPath) → Settles (prune_string n p)
unfolding prune_string
prune_string-Settles n [] = tt
prune_string-Settles n (seg ∷ rest) = if-Settles (is_star seg || is_brackets seg) (ok tt) _ tt (
    if-Settles (string_has n seg) _ (ok tt)
      (if-Settles (no_segment rest) (throw type_error) _ tt
        (if-Settles (is_length seg) (ok tt) (prune_string 1 rest) tt (prune_string-Settles 1 rest)))
      tt)

-- What follows a call may count on the value that the call returned.
then-Settles :
    (r : Result Value) (k : Value → Result Value)
    → Settles r
    → ((w : Value) → r ≡ ok w → Settles (k w))
    → Settles (r >>= k)
then-Settles (ok v) k h e = e v refl
then-Settles (throw type_error) k h e = tt
then-Settles (throw _) k h e = h

below_star-Settles :
    (f : ℕ) (seg : Text) (rest : PropPath)
    → SettlesBelow f (prune_path f (seg ∷ rest))
    → SettlesBelow f (prune_path f rest)
    → SettlesBelow f (below_star (prune_path f (seg ∷ rest)) (prune_path f rest))
below_star-Settles f seg rest a b v h =
    if-Settles (is_object v) _ (ok v)
      (then-Settles (prune_path f (seg ∷ rest) v) (prune_path f rest) (a v h)
        (λ w e. let le = prune_path-flat f (seg ∷ rest) v w e in b w (omega arith)))
      tt

pub prune_path-Settles : (f : ℕ) (p : PropPath) → SettlesBelow f (prune_path f p)
unfolding prune_path depth
prune_path-Settles f [] v h = tt
prune_path-Settles f (seg ∷ rest) (string s) h =
    bind-Settles (prune_string (length s) (seg ∷ rest)) _
      (prune_string-Settles (length s) (seg ∷ rest)) (λ u. tt)
prune_path-Settles f (seg ∷ rest) null h = tt
prune_path-Settles f (seg ∷ rest) (boolean b) h = tt
prune_path-Settles f (seg ∷ rest) (number n) h = tt
prune_path-Settles zero (seg ∷ rest) (array xs) h = omega arith
prune_path-Settles zero (seg ∷ rest) (object fs) h = omega arith
prune_path-Settles (suc f) (seg ∷ rest) (array xs) h =
    let le : depth_items xs ≤ f = omega arith in
    let whole = prune_path-Settles f (seg ∷ rest) in
    let deeper = prune_path-Settles f rest in
    let below = below_star-Settles f seg rest whole deeper in
    if-Settles (is_star seg) _ _
      (bind-Settles (map_items (below_star (prune_path f (seg ∷ rest)) (prune_path f rest)) xs) _
        (map_items-Settles f _ below xs le) (λ ys. tt))
      (if-Settles (is_brackets seg) _ _
        (bind-Settles (map_items (prune_path f rest) xs) _ (map_items-Settles f _ deeper xs le)
          (λ ys. tt))
        (prune_index-Settles f (prune_path f rest) deeper seg (no_segment rest) xs (array_index seg)
          le))
prune_path-Settles (suc f) (seg ∷ rest) (object fs) h =
    let le : depth_fields fs ≤ f = omega arith in
    let whole = prune_path-Settles f (seg ∷ rest) in
    let deeper = prune_path-Settles f rest in
    let below = below_star-Settles f seg rest whole deeper in
    if-Settles (is_star seg) _ _
      (bind-Settles (map_fields (below_star (prune_path f (seg ∷ rest)) (prune_path f rest)) fs) _
        (map_fields-Settles f _ below fs le) (λ gs. tt))
      (if-Settles (is_brackets seg) (ok (object fs)) _ tt (
        if-Settles (no_segment rest) (ok (object (delete_field seg fs))) _ tt (
          bind-Settles (change_field (prune_path f rest) seg fs) _
            (change_field-Settles f _ deeper seg fs le) (λ gs. tt))))

prune_paths-Settles :
    (f : ℕ) (ps : List PropPath) (v : Value) → depth v ≤ f → Settles (prune_paths f ps v)
unfolding prune_paths
prune_paths-Settles f [] v h = tt
prune_paths-Settles f (p ∷ ps) v h =
    then-Settles (prune_path f p v) (prune_paths f ps) (prune_path-Settles f p v h)
      (λ w e. let le = prune_path-flat f p v w e in prune_paths-Settles f ps w (omega arith))

prune-Settles :
    (rx : Regexps) (stack : Option Text) (p : Pruner) (v : Value) → Settles (prune rx stack p v)
unfolding prune
prune-Settles rx stack p v = if-Settles (not (is_object v)) _ _ tt (
    if-Settles (not (stack_allows rx stack p.stack_re)) _ _ tt (
      if-Settles (not (required_met v p.required)) _ _ tt
        (prune_paths-Settles (depth v) p.to_remove v (omega arith))))

Settles-cases : (r : Result Value) → Settles r → ((w : Value) × (r ≡ ok w)) ⊎ (r ≡ throw type_error)
Settles-cases (ok w) h = inl (w, refl)
Settles-cases (throw type_error) h = inr refl
Settles-cases (throw _) h = absurd h

-- For every value `prune` returns, or throws a `TypeError`: its fuel, the depth of the value, is enough.
pub prune-cases :
    (rx : Regexps) (stack : Option Text) (p : Pruner) (v : Value)
    → ((w : Value) × (prune rx stack p v ≡ ok w)) ⊎ (prune rx stack p v ≡ throw type_error)
prune-cases rx stack p v = Settles-cases (prune rx stack p v) (prune-Settles rx stack p v)
