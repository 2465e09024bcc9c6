-- ===== src/Scriptlets/Clipboard/Pairs.antt =====
-- Lists of pairs without those that a test on the key selects.
use zen_desktop_localcdn.Common.{
  Bool, false, ◌||◌, List, [], ◌∷◌, if◌then◌else◌, Text, text_eq, ◌≡◌, refl, ap, arith, Bool-cases,
  inl, inr,
}
use zen_desktop_localcdn.Scriptlets.Clipboard.{has_param, delete_param}

-- The pairs whose key passes a test, and whether one does not.
abbrev pub without : (Text → Bool) → List (Text × Text) → List (Text × Text)
without p [] = []
without p ((k, v) ∷ q) = if p k then without p q else (k, v) ∷ without p q

abbrev pub any_key : (Text → Bool) → List (Text × Text) → Bool
any_key p [] = false
any_key p ((k, v) ∷ q) = p k || any_key p q

pub has_param-any_key :
    (name : Text) (q : List (Text × Text)) → has_param name q ≡ any_key (text_eq name) q
unfolding has_param
has_param-any_key name [] = refl
has_param-any_key name ((k, v) ∷ q) = elim (Bool-cases (text_eq name k)) [
  | inl e ↦ rw e refl
  | inr e ↦ rw e (has_param-any_key name q)
]

pub delete_param-without :
    (name : Text) (q : List (Text × Text)) → delete_param name q ≡ without (text_eq name) q
unfolding delete_param
delete_param-without name [] = refl
delete_param-without name ((k, v) ∷ q) = elim (Bool-cases (text_eq name k)) [
  | inl e ↦ rw e (delete_param-without name q)
  | inr e ↦ rw e (ap (λ r. (k, v) ∷ r) (delete_param-without name q))
]

pub without_none :
    (p : Text → Bool) (q : List (Text × Text)) → any_key p q ≡ false → without p q ≡ q
without_none p [] h = refl
without_none p ((k, v) ∷ q) h = elim (Bool-cases (p k)) [
  | inl e ↦ ground (arith, e)
  | inr e ↦ rw e (ap (λ r. (k, v) ∷ r) (without_none p q (ground (arith, e))))
]

pub without-without :
    (p r : Text → Bool) (q : List (Text × Text))
    → without r (without p q) ≡ without (λ k. p k || r k) q
without-without p r [] = refl
without-without p r ((k, v) ∷ q) = elim (Bool-cases (p k)) [
  | inl e ↦ rw e (without-without p r q)
  | inr e ↦ rw e (elim (Bool-cases (r k)) [
    | inl f ↦ rw f (without-without p r q)
    | inr f ↦ rw f (ap (λ s. (k, v) ∷ s) (without-without p r q))
  ])
]

pub any_key-without :
    (p r : Text → Bool) (q : List (Text × Text))
    → any_key p q || any_key r (without p q) ≡ any_key (λ k. p k || r k) q
any_key-without p r [] = refl
any_key-without p r ((k, v) ∷ q) = elim (Bool-cases (p k)) [
  | inl e ↦ rw e refl
  | inr e ↦ rw e (elim (Bool-cases (r k)) [
    | inl f ↦ rw f (ground arith)
    | inr f ↦ rw f (any_key-without p r q)
  ])
]
