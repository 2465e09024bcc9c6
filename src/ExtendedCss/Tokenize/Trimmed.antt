-- ===== src/ExtendedCss/Tokenize/Trimmed.antt =====
-- A trimmed text is trimmed.
use zen_desktop_localcdn.Common.{
  ℕ, Bool, true, false, [], ◌∷◌, if◌then◌else◌, Text, is_space, trim_start, keep_unit, trim_end,
  trim, ◌≡◌, refl, sym, ap, ◌∙◌, Bool-cases, inl, inr,
}

trim_end-keep_unit : (c : ℕ) (t : Text) → trim_end t ≡ t → trim_end (keep_unit c t) ≡ keep_unit c t
unfolding trim_end keep_unit
trim_end-keep_unit c [] h = blank (is_space c) refl
  where
    blank :
        (b : Bool)
        → is_space c ≡ b
        → trim_end (if b then [] else c ∷ []) ≡ (if b then [] else c ∷ [])
    blank true e = refl
    blank false e = ap (λ b. if b then [] else c ∷ []) e
trim_end-keep_unit c (d ∷ t) h = ap (keep_unit c) h

trim_end-trim_end : (s : Text) → trim_end (trim_end s) ≡ trim_end s
unfolding trim_end
trim_end-trim_end [] = refl
trim_end-trim_end (c ∷ s) = trim_end-keep_unit c (trim_end s) (trim_end-trim_end s)

trim_start-keep_unit :
    (c : ℕ) (t : Text) → is_space c ≡ false → trim_start (keep_unit c t) ≡ keep_unit c t
unfolding trim_start keep_unit
trim_start-keep_unit c [] h =
    ap (λ b. trim_start (if b then [] else c ∷ [])) h
    ∙ ap (λ b. if b then [] else c ∷ []) h
    ∙ sym (ap (λ b. if b then [] else c ∷ []) h)
trim_start-keep_unit c (d ∷ t) h = ap (λ b. if b then trim_start (d ∷ t) else c ∷ d ∷ t) h

trim_start-trim : (s : Text) → trim_start (trim s) ≡ trim s
unfolding trim_start trim_end trim
trim_start-trim [] = refl
trim_start-trim (c ∷ s) = elim (Bool-cases (is_space c)) [
  | inl e ↦
      ap (λ b. trim_start (trim_end (if b then trim_start s else c ∷ s))) e
      ∙ trim_start-trim s
      ∙ sym (ap (λ b. trim_end (if b then trim_start s else c ∷ s)) e)
  | inr e ↦
      ap (λ b. trim_start (trim_end (if b then trim_start s else c ∷ s))) e
      ∙ trim_start-keep_unit c (trim_end s) e
      ∙ sym (ap (λ b. trim_end (if b then trim_start s else c ∷ s)) e)
]

pub trim-trim : (s : Text) → trim (trim s) ≡ trim s
unfolding trim
trim-trim s = ap trim_end (trim_start-trim s) ∙ trim_end-trim_end (trim_start s)
