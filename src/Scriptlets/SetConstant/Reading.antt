-- ===== src/Scriptlets/SetConstant/Reading.antt =====
-- What the page reads from a property that is set to a constant, beside what it would read from the
-- property without the scriptlet.
use zen_desktop_localcdn.Common.{
  Bool, true, false, not, List, [], ◌∷◌, Option, none, some, if◌then◌else◌, Text, ◌≡◌, refl, ap,
}
use zen_desktop_localcdn.Regexp.{Regexps}
use zen_desktop_localcdn.Scriptlets.JsonPrune.{stack_allows}
use zen_desktop_localcdn.Scriptlets.SetConstant.{
  Fake, Setting, Property, absent, own_data, inherited_data, own_accessor, inherited_accessor,
  own_descriptor, read_property, Cell, cell_of, faked, real, read_real, get_property, set_all,
}

-- The page without the scriptlet: its state and the property.
pub record Native (S V : Type 0) : Type 0 where
  pub state : S
  pub property : Property S V

-- An assignment of the language: a writable property keeps the value, on the object itself; a setter is
-- called; and a property that is not writable or has no setter stays.
unfoldable pub assign : {S V : Type 0} → V → S → Property S V → Native S V
assign v s absent = record { state = s; property = own_data true v }
assign v s (own_data true w) = record { state = s; property = own_data true v }
assign v s (own_data false w) = record { state = s; property = own_data false w }
assign v s (inherited_data true w) = record { state = s; property = own_data true v }
assign v s (inherited_data false w) = record { state = s; property = inherited_data false w }
assign v s (own_accessor get none) = record { state = s; property = own_accessor get none }
assign v s (own_accessor get (some set)) = record {
  state = set v s;
  property = own_accessor get (some set);
}
assign v s (inherited_accessor get none) = record {
  state = s;
  property = inherited_accessor get none;
}
assign v s (inherited_accessor get (some set)) = record {
  state = set v s;
  property = inherited_accessor get (some set);
}

unfoldable pub assign_all : {S V : Type 0} → List V → Native S V → Native S V
unfolding assign
assign_all [] n = n
assign_all (v ∷ vs) n = assign_all vs (assign v n.state n.property)

-- The property is missing, writable, or an accessor of the object itself with a getter or a setter.
unfoldable pub IsKept : {S V : Type 0} → Property S V → Type 0
IsKept absent = Unit
IsKept (own_data writable v) = writable ≡ true
IsKept (inherited_data writable v) = writable ≡ true
IsKept (own_accessor none none) = ⊥
IsKept (own_accessor none (some set)) = Unit
IsKept (own_accessor (some get) set) = Unit
IsKept (inherited_accessor get set) = ⊥

module _ {S V : Type 0} (missing : V) where
  -- What the new accessor gives without the constant, and the page's state, beside the native ones.
  abbrev Agrees : Property S V → List V → Cell S V → Native S V → Type 0
  Agrees p vs c n =
      (read_real (own_descriptor p).get (set_all (own_descriptor p) vs c)
        ≡ read_property missing (assign_all vs n).state (assign_all vs n).property)
      × ((set_all (own_descriptor p) vs c).state ≡ (assign_all vs n).state)

  -- A property that holds a value.
  value-Agrees :
      (vs : List V) (s : S) (v : V)
      → Agrees
          (own_data true v)
          vs
          (record { state = s; local_value = v })
          (record { state = s; property = own_data true v })
  unfolding set_all own_descriptor read_property assign_all
  value-Agrees [] s v = (refl, refl)
  value-Agrees (w ∷ vs) s v = value-Agrees vs s w

  getter-Agrees :
      (get : S → V) (set : Option (V → S → S)) (vs : List V) (s : S) (v : V)
      → Agrees
          (own_accessor (some get) set)
          vs
          (record { state = s; local_value = v })
          (record { state = s; property = own_accessor (some get) set })
  unfolding set_all own_descriptor read_property assign_all
  getter-Agrees get set [] s v = (refl, refl)
  getter-Agrees get none (w ∷ vs) s v = getter-Agrees get none vs s w
  getter-Agrees get (some set) (w ∷ vs) s v = getter-Agrees get (some set) vs (set w s) v

  setter-Agrees :
      (set : V → S → S) (vs : List V) (s : S)
      → Agrees
          (own_accessor none (some set))
          vs
          (record { state = s; local_value = missing })
          (record { state = s; property = own_accessor none (some set) })
  unfolding set_all own_descriptor read_property assign_all
  setter-Agrees set [] s = (refl, refl)
  setter-Agrees set (w ∷ vs) s = setter-Agrees set vs (set w s)

  cell_of-Agrees :
      (p : Property S V) (vs : List V) (s : S)
      → IsKept p
      → Agrees p vs (cell_of missing s p) (record { state = s; property = p })
  unfolding set_all own_descriptor read_property assign_all cell_of IsKept
  cell_of-Agrees absent [] s h = (refl, refl)
  cell_of-Agrees absent (w ∷ vs) s h = value-Agrees vs s w
  cell_of-Agrees (own_data true v) vs s h = value-Agrees vs s v
  cell_of-Agrees (own_data false v) vs s h = cc
  cell_of-Agrees (inherited_data true v) [] s h = (refl, refl)
  cell_of-Agrees (inherited_data true v) (w ∷ vs) s h = value-Agrees vs s w
  cell_of-Agrees (inherited_data false v) vs s h = cc
  cell_of-Agrees (own_accessor none none) vs s h = absurd h
  cell_of-Agrees (own_accessor none (some set)) vs s h = setter-Agrees set vs s
  cell_of-Agrees (own_accessor (some get) set) vs s h = getter-Agrees get set vs s (get s)
  cell_of-Agrees (inherited_accessor get set) vs s h = absurd h

read_chosen :
    {V : Type 0} (b : Bool) (fake : Fake) {r v : V}
    → r ≡ v
    → (if not b then real r else faked fake) ≡ (if b then faked fake else real v)
read_chosen true fake h = refl
read_chosen false fake h = ap real h

-- A property that can be redefined and was missing, writable, or an accessor of the object itself with a
-- getter or a setter: after any writes by the page, code whose call stack the setting selects reads the
-- constant, all other code reads what the language would read after the same writes without the
-- scriptlet, and the page's state is the one that these writes would leave.
pub get_property-set_all :
    {S V : Type 0} (rx : Regexps) (setting : Setting) (missing : V) (s : S) (p : Property S V)
    (stack : Option Text) (vs : List V)
    → IsKept p
    → let c = set_all (own_descriptor p) vs (cell_of missing s p) in
      let n = assign_all vs (record { state = s; property = p }) in
      (get_property rx setting (own_descriptor p) stack c ≡ (
        if stack_allows rx stack setting.stack_re
        then faked setting.fake
        else real (read_property missing n.state n.property)))
      × (c.state ≡ n.state)
unfolding get_property
get_property-set_all rx setting missing s p stack vs h =
    let (read, state) = cell_of-Agrees missing p vs s h in
    (read_chosen (stack_allows rx stack setting.stack_re) setting.fake read, state)
