-- ===== src/ExtendedCss/Engine/Maps.antt =====
-- Maps from elements to sets of class names, in insertion order (`Map<Element, Set<string>>`).
use zen_desktop_localcdn.Common.{
  Bool, false, ◌||◌, List, [], ◌∷◌, Option, none, some, ◌==◌, if◌then◌else◌, Text, ◌≡◌, refl, arith,
}
use zen_desktop_localcdn.Common.Sets.{nat_eq, text_eq_inst, contains, NoRepeats}
use zen_desktop_localcdn.ExtendedCss.Env.{Element}

abbrev pub Classes : Type 0
Classes = List (Element × List Text)

-- `map.get(el)`
unfoldable pub find : Classes → Element → Option (List Text)
find [] el = none
find ((k, cs) ∷ m) el = if k == el then some cs else find m el

-- `map.set(el, cs)`
unfoldable pub put : Classes → Element → List Text → Classes
put [] el cs = (el, cs) ∷ []
put ((k, old) ∷ m) el cs = if k == el then (k, cs) ∷ m else (k, old) ∷ put m el cs

pub find-put :
    (m : Classes) (el : Element) (cs : List Text) (x : Element)
    → find (put m el cs) x ≡ (if el == x then some cs else find m x)
unfolding find put
find-put [] el cs x = refl
find-put ((k, old) ∷ m) el cs x = ground (arith, find-put m el cs x)

abbrev pub keys : Classes → List Element
keys [] = []
keys ((k, cs) ∷ m) = k ∷ keys m

-- Whether the map gives an element a class.
abbrev pub in_entry : Option (List Text) → Text → Bool
in_entry none c = false
in_entry (some cs) c = contains cs c

abbrev pub gives : Classes → Element → Text → Bool
gives m el c = in_entry (find m el) c

-- No element has two entries, as in a `Map`.
abbrev pub IsMap : Classes → Type 0
IsMap m = NoRepeats (keys m)

contains-keys-put :
    (m : Classes) (el : Element) (cs : List Text) (x : Element)
    → contains (keys (put m el cs)) x ≡ (contains (keys m) x || (x == el))
unfolding contains put
contains-keys-put [] el cs x = ground arith
contains-keys-put ((k, old) ∷ m) el cs x = ground (arith, contains-keys-put m el cs x)

pub put-IsMap : (m : Classes) (el : Element) (cs : List Text) → IsMap m → IsMap (put m el cs)
unfolding put
put-IsMap [] el cs h = (unfold contains in refl, tt)
put-IsMap ((k, old) ∷ m) el cs h = ground (arith, put-IsMap m el cs, contains-keys-put m el cs k)

pub find-keys : (m : Classes) (x : Element) → contains (keys m) x ≡ false → find m x ≡ none
unfolding find contains
find-keys [] x h = refl
find-keys ((k, cs) ∷ m) x h = ground (arith, find-keys m x)
