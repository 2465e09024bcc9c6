-- ===== src/Scriptlets/Storage/Items.antt =====
-- What a storage holds behind the scriptlets.
use zen_desktop_localcdn.Common.{
  ℕ, Bool, true, false, ◌&&◌, ◌||◌, List, [], ◌∷◌, Option, none, some, if◌then◌else◌, Text, codes,
  text_eq, text_eq_iff, ◌≡◌, refl, arith, ok, ok_or, bind-eq-ok, ap, ◌∙◌, sym,
}
use zen_desktop_localcdn.Common.Sets.{text_eq_inst, contains}
use zen_desktop_localcdn.Regexp.{
  RegExp, Regexps, Tested, keeps_position, test_at_lem, parse_regexp_literal,
}
use zen_desktop_localcdn.Scriptlets.Storage.{
  Storage, get_item, set_item, remove_item, keys, remove_matching, remove_by, remove_from_storage,
  validate_untrusted_storage_value, set_storage_item,
}

pub get_item-set_item :
    (st : Storage) (key value k : Text)
    → get_item (set_item st key value) k ≡ (if text_eq key k then some value else get_item st k)
unfolding get_item set_item
get_item-set_item [] key value k = refl
get_item-set_item ((x, v) ∷ st) key value k =
    ground (
      arith,
      get_item-set_item st key value k,
      text_eq_iff x key,
      text_eq_iff x k,
      text_eq_iff key k,
    )

pub get_item-remove_item :
    (st : Storage) (key k : Text)
    → get_item (remove_item st key) k ≡ (if text_eq key k then none else get_item st k)
unfolding get_item remove_item
get_item-remove_item [] key k = ground arith
get_item-remove_item ((x, v) ∷ st) key k =
    ground
      (arith, get_item-remove_item st key k, text_eq_iff x key, text_eq_iff x k, text_eq_iff key k)

removed_first :
    (later now this : Bool) (st : Storage) (x k : Text)
    → (x ≡ k → this ≡ now)
    → (if later && now then none else get_item (if this then remove_item st x else st) k)
      ≡ (if (text_eq k x || later) && now then none else get_item st k)
removed_first later now true st x k h =
    ground (arith, get_item-remove_item st x k, text_eq_iff x k, text_eq_iff k x)
removed_first later now false st x k h = ground (arith, text_eq_iff x k, text_eq_iff k x)

get_item-remove_matching :
    (rx : Regexps) (re : RegExp) (i : ℕ) (ks : List Text) (st : Storage) (k : Text)
    → keeps_position re ≡ false
    → get_item (remove_matching rx re i ks st) k
      ≡ (if contains ks k && rx.test re k then none else get_item st k)
unfolding remove_matching contains
get_item-remove_matching rx re i [] st k p = refl
get_item-remove_matching rx re i (x ∷ ks) st k p =
    ap
      (λ (t : Tested).
        get_item (remove_matching rx re t.last_index ks (if t.holds then remove_item st x else st))
          k)
      (test_at_lem rx re i x p)
    ∙ get_item-remove_matching rx re i ks (if rx.test re x then remove_item st x else st) k p
    ∙ removed_first (contains ks k) (rx.test re k) (rx.test re x) st x k (λ e. ap (rx.test re) e)

get_item-absent : (st : Storage) (k : Text) → contains (keys st) k ≡ false → get_item st k ≡ none
unfolding get_item contains
get_item-absent [] k h = refl
get_item-absent ((x, v) ∷ st) k h =
    ground (arith, get_item-absent st k, text_eq_iff x k, text_eq_iff k x)

-- Whether the scriptlet's key selects a key of the storage.
abbrev pub selected_by : Regexps → Text → Text → Option RegExp → Bool
selected_by rx key k none = text_eq key k
selected_by rx key k (some re) = rx.test re k

abbrev pub selects : Regexps → Text → Text → Bool
selects rx key k = selected_by rx key k (parse_regexp_literal rx key)

-- The expression that the key may be has neither of the flags `g` and `y`.
abbrev pub HasNoPosition : Regexps → Text → Type 0
HasNoPosition rx key =
    (re : RegExp) → parse_regexp_literal rx key ≡ some re → keeps_position re ≡ false

kept_absent :
    (there found : Bool) (o : Option Text)
    → (there ≡ false → o ≡ none)
    → (if there && found then none else o) ≡ (if found then none else o)
kept_absent true found o h = refl
kept_absent false true o h = h refl
kept_absent false false o h = refl

get_item-remove_by :
    (rx : Regexps) (st : Storage) (key k : Text) (o : Option RegExp)
    → ((re : RegExp) → o ≡ some re → keeps_position re ≡ false)
    → get_item (remove_by rx key st o) k ≡ (if selected_by rx key k o then none else get_item st k)
get_item-remove_by rx st key k none p = get_item-remove_item st key k
get_item-remove_by rx st key k (some re) p =
    get_item-remove_matching rx re 0 (keys st) st k (p re refl)
    ∙ kept_absent (contains (keys st) k) (rx.test re k) (get_item st k) (get_item-absent st k)

get_item-set_or_remove :
    (rx : Regexps) (st : Storage) (key v k : Text) (b : Bool)
    → HasNoPosition rx key
    → get_item (if b then remove_from_storage rx st key else set_item st key v) k ≡ (
        if b
        then (if selects rx key k then none else get_item st k)
        else if text_eq key k
        then some v
        else get_item st k)
unfolding remove_from_storage
get_item-set_or_remove rx st key v k true p =
    get_item-remove_by rx st key k (parse_regexp_literal rx key) p
get_item-set_or_remove rx st key v k false p = get_item-set_item st key v k

-- For a key that is no expression with the flag `g` or `y`: a scriptlet that returns has removed the
-- entries that its key selects, if the value asks for that; otherwise it has stored the value, in its
-- canonical form, under its key; and no other entry has changed.
pub get_item-set_storage_item :
    (rx : Regexps) (st : Storage) (key value : Text) {st' : Storage} (k : Text)
    → HasNoPosition rx key
    → set_storage_item rx st key value ≡ ok st'
    → (v : Text) × (validate_untrusted_storage_value value ≡ ok v)
      × (get_item st' k ≡ (
          if text_eq v (codes "$remove$")
          then (if selects rx key k then none else get_item st k)
          else if text_eq key k
          then some v
          else get_item st k))
unfolding set_storage_item
get_item-set_storage_item rx st key value k p h =
    let (v, e, o) = bind-eq-ok (validate_untrusted_storage_value value) _ h in
    (
      v,
      e,
      ap (λ r. get_item (ok_or [] r) k) (sym o)
          ∙ get_item-set_or_remove rx st key v k (text_eq v (codes "$remove$")) p,
    )
