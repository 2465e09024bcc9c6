-- ===== src/Scriptlets/Traps/Chain.antt =====
-- Where defineProxyChain.ts puts the accessor of a chain.
use zen_desktop_localcdn.Common.{
  ℕ, Bool, true, not, List, [], ◌∷◌, ◌++◌, Option, none, some, if◌then◌else◌, Text, ◌≡◌,
}
use zen_desktop_localcdn.Scriptlets.Traps.{Objects, Place, given_up}

-- Going down the parts from an object, all of which are there and are objects, leads to another.
pub data Leads (o : Objects) : ℕ → List Text → ℕ → Type 0 where
  here : {c : ℕ} → Leads o c [] c
  down :
      {c d e : ℕ} {part : Text} {parts : List Text}
      → o.has_property c part ≡ true
      → o.read c part ≡ some d
      → Leads o d parts e
      → Leads o c (part ∷ parts) e

-- One step of the loop, for a part that is not the last.
go_down : (b : Bool) (found : Option ℕ) (deferred : Place) → (ℕ → Place) → Place
go_down b found deferred k =
    if not b then deferred else elim found [ none ↦ given_up | some below ↦ k below ]

Led : Objects → ℕ → List Text → ℕ → Text → Type 0
Led o c parts d p = (front : List Text) × (parts ≡ front ++ (p ∷ [])) × Leads o c front d
