-- ===== src/Common/Sets.antt =====
-- Equality tests as instances, and the sets of JavaScript: lists in insertion order, with no value
-- twice.
use mathlib.Core.Path.{◌≡◌, refl, sym}
use zen_desktop_localcdn.Common.Tests.{◌==◌ as nat_beq, ==_iff, Bool-cases, Bool-ext, if◌then◌else◌}
use zen_desktop_localcdn.Common.Strings.{Text, text_eq, text_eq_iff}
use Prim.Native.Nat.{ℕ}
use mathlib.Core.Logic.{◌↔◌, inl, inr}
use mathlib.Core.Bool.{Bool, true, false, not, ◌&&◌, ◌||◌}
use mathlib.Core.List.{List, [], ◌∷◌, ◌++◌}
use native.Mathlib.Omega.{arith}

pub record Eq {κ} (T : Type κ) : Type κ where
  pub beq : T → T → Bool
  pub beq_iff : (s t : T) → (beq s t ≡ true) ↔ (s ≡ t)

instance abbrev pub text_eq_inst : Eq Text
text_eq_inst = record { beq = text_eq; beq_iff = text_eq_iff }

instance abbrev pub nat_eq : Eq ℕ
nat_eq = record { beq = nat_beq; beq_iff = ==_iff }

module _ {ℓ} {A : Type ℓ} ⦃e : Eq A⦄ where
  -- `set.has(a)`, `array.includes(a)`
  unfoldable pub contains : List A → A → Bool
  contains [] a = false
  contains (x ∷ xs) a = e.beq a x || contains xs a

  -- `set.add(a)`
  unfoldable pub insert : List A → A → List A
  unfolding contains
  insert xs a = if contains xs a then xs else xs ++ (a ∷ [])

  -- `els.forEach((el) => set.add(el))`
  unfoldable pub insert_all : List A → List A → List A
  unfolding insert
  insert_all xs [] = xs
  insert_all xs (a ∷ as') = insert_all (insert xs a) as'

  -- `set.delete(a)`, `classList.remove(a)`
  unfoldable pub delete : List A → A → List A
  delete [] a = []
  delete (x ∷ xs) a = if e.beq a x then delete xs a else x ∷ delete xs a

  -- No value stands twice.
  abbrev pub NoRepeats : List A → Type 0
  NoRepeats [] = Unit
  NoRepeats (x ∷ xs) = (contains xs x ≡ false) × NoRepeats xs

module _ {ℓ} {A : Type ℓ} ⦃e : Eq A⦄ where
  pub beq_refl : (a : A) → e.beq a a ≡ true
  beq_refl a = (e.beq_iff a a).1 refl

  pub beq_comm : (a b : A) → e.beq a b ≡ e.beq b a
  beq_comm a b =
      Bool-ext _ _ (λ h. (e.beq_iff b a).1 (sym ((e.beq_iff a b).0 h)))
        (λ h. (e.beq_iff a b).1 (sym ((e.beq_iff b a).0 h)))

  pub contains-append :
      (xs ys : List A) (b : A) → contains (xs ++ ys) b ≡ (contains xs b || contains ys b)
  unfolding contains
  contains-append [] ys b = refl
  contains-append (x ∷ xs) ys b = ground (arith, contains-append xs ys b)

  pub contains-insert :
      (xs : List A) (a b : A) → contains (insert xs a) b ≡ (contains xs b || e.beq b a)
  unfolding insert
  contains-insert xs a b = elim (Bool-cases (contains xs a)) [
    | inl old ↦ elim (Bool-cases (e.beq b a)) [
      | inl same ↦ rw (old, same, (e.beq_iff b a).0 same) (rw old)
      | inr other ↦ rw (old, other) (ground arith)
    ]
    | inr new ↦ rw new (rw contains-append (unfold contains in ground arith))
  ]

  pub contains-insert_all :
      (xs as' : List A) (b : A) → contains (insert_all xs as') b ≡ (contains xs b || contains as' b)
  unfolding insert_all contains
  contains-insert_all xs [] b = ground arith
  contains-insert_all xs (a ∷ as') b =
      ground (arith, contains-insert_all (insert xs a) as' b, contains-insert xs a b)

  pub contains-delete :
      (xs : List A) (a b : A) → contains (delete xs a) b ≡ (not (e.beq b a) && contains xs b)
  unfolding contains delete
  contains-delete [] a b = ground arith
  contains-delete (x ∷ xs) a b =
      ground (arith, contains-delete xs a b, e.beq_iff a x, e.beq_iff b x, e.beq_iff b a)

  NoRepeats-append :
      (xs : List A) (a : A) → contains xs a ≡ false → NoRepeats xs → NoRepeats (xs ++ (a ∷ []))
  unfolding contains
  NoRepeats-append [] a c h = (refl, tt)
  NoRepeats-append (x ∷ xs) a c h =
      ground (arith, NoRepeats-append xs a, contains-append xs (a ∷ []) x, beq_comm a x)

  pub NoRepeats-insert : (xs : List A) (a : A) → NoRepeats xs → NoRepeats (insert xs a)
  unfolding insert
  NoRepeats-insert xs a h = elim (Bool-cases (contains xs a)) [
    | inl old ↦ rw old h
    | inr new ↦ rw new (NoRepeats-append xs a new h)
  ]

  pub NoRepeats-insert_all : (xs as' : List A) → NoRepeats xs → NoRepeats (insert_all xs as')
  unfolding insert_all
  NoRepeats-insert_all xs [] h = h
  NoRepeats-insert_all xs (a ∷ as') h =
      NoRepeats-insert_all (insert xs a) as' (NoRepeats-insert xs a h)

  pub NoRepeats-delete : (xs : List A) (a : A) → NoRepeats xs → NoRepeats (delete xs a)
  unfolding delete
  NoRepeats-delete [] a h = tt
  NoRepeats-delete (x ∷ xs) a h = ground (arith, NoRepeats-delete xs a, contains-delete xs a x)
