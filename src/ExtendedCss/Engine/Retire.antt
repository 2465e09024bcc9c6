-- ===== src/ExtendedCss/Engine/Retire.antt =====
-- The first loop of `applyClasses`: classes that are no longer desired are taken away.
use zen_desktop_localcdn.Common.{
  Bool, true, false, not, ◌&&◌, List, [], ◌∷◌, none, some, ◌==◌, if◌then◌else◌, Text, ◌≡◌, refl,
  arith, Option-cases, inl, inr, ap, sym,
}
use zen_desktop_localcdn.Common.Sets.{nat_eq, text_eq_inst, contains, contains-delete}
use zen_desktop_localcdn.ExtendedCss.Env.{Element}
use zen_desktop_localcdn.ExtendedCss.Engine.Maps.{Classes, find, keys, gives, IsMap, find-keys}
use zen_desktop_localcdn.ExtendedCss.Engine.{Page, remove_class, strip, kept, stale, retire}

contains-remove_class :
    (page : Page) (el : Element) (k : Text) (x : Element) (c : Text)
    → contains (remove_class page el k x) c
      ≡ (contains (page x) c && not (x == el && text_eq_inst.beq c k))
unfolding remove_class
contains-remove_class page el k x c = ground (arith, contains-delete (page x) k c)

pub contains-strip :
    (page : Page) (el : Element) (cs : List Text) (x : Element) (c : Text)
    → contains (strip page el cs x) c ≡ (contains (page x) c && not (x == el && contains cs c))
unfolding strip contains
contains-strip page el [] x c = ground arith
contains-strip page el (k ∷ cs) x c =
    ground (
      arith,
      contains-strip (remove_class page el k) el cs x c,
      contains-remove_class page el k x c,
    )

pub contains-same :
    (d : List Text) (c k : Text) → text_eq_inst.beq c k ≡ true → contains d k ≡ contains d c
contains-same d c k h = ap (contains d) (sym ((text_eq_inst.beq_iff c k).0 h))

contains-kept :
    (d cs : List Text) (c : Text) → contains (kept d cs) c ≡ (contains cs c && contains d c)
unfolding kept contains
contains-kept d [] c = refl
contains-kept d (k ∷ cs) c = ground (arith, contains-kept d cs c, contains-same d c k)

contains-stale :
    (d cs : List Text) (c : Text) → contains (stale d cs) c ≡ (contains cs c && not (contains d c))
unfolding stale contains
contains-stale d [] c = refl
contains-stale d (k ∷ cs) c = ground (arith, contains-stale d cs c, contains-same d c k)

-- One round, by whether the entry's element is desired.
retire-none :
    (d : Classes) (page : Page) (k : Element) (cs : List Text) (m : Classes)
    → find d k ≡ none
    → ((retire d page ((k, cs) ∷ m)).page ≡ (retire d (strip page k cs) m).page)
      × ((retire d page ((k, cs) ∷ m)).applied ≡ (retire d (strip page k cs) m).applied)
unfolding retire
retire-none d page k cs m e = (rw (e, retire) refl, rw (e, retire) refl)

retire-some :
    (d : Classes) (page : Page) (k : Element) (cs : List Text) (m : Classes) (s : List Text)
    → find d k ≡ some s
    → ((retire d page ((k, cs) ∷ m)).page ≡ (retire d (strip page k (stale s cs)) m).page)
      × ((retire d page ((k, cs) ∷ m)).applied
          ≡ (k, kept s cs) ∷ (retire d (strip page k (stale s cs)) m).applied)
unfolding retire
retire-some d page k cs m s e = (rw (e, retire) refl, rw (e, retire) refl)

-- With one entry for each element, the rest of the map has none for `k`.
pub gives-cons :
    (k : Element) (cs : List Text) (m : Classes) (x : Element) (c : Text)
    → contains (keys m) k ≡ false
    → (gives ((k, cs) ∷ m) x c ≡ (if k == x then contains cs c else gives m x c))
      × ((k == x) ≡ true → gives m x c ≡ false)
unfolding find
gives-cons k cs m x c u = (ground arith, λ h. ground (arith, find-keys m k))

retire_page-none :
    (d : Classes) (page : Page) (k : Element) (cs : List Text) (m : Classes) (x : Element)
    (c : Text) (b : Bool)
    → find d k ≡ none
    → contains (keys m) k ≡ false
    → b ≡ (contains (strip page k cs x) c && not (gives m x c && not (gives d x c)))
    → b ≡ (contains (page x) c && not (gives ((k, cs) ∷ m) x c && not (gives d x c)))
retire_page-none d page k cs m x c b e u h =
    ground (arith, contains-strip page k cs x c, gives-cons k cs m x c u)

retire_page-some :
    (d : Classes) (page : Page) (k : Element) (cs s : List Text) (m : Classes) (x : Element)
    (c : Text) (b : Bool)
    → find d k ≡ some s
    → contains (keys m) k ≡ false
    → b ≡ (contains (strip page k (stale s cs) x) c && not (gives m x c && not (gives d x c)))
    → b ≡ (contains (page x) c && not (gives ((k, cs) ∷ m) x c && not (gives d x c)))
retire_page-some d page k cs s m x c b e u h =
    ground (
      arith,
      contains-strip page k (stale s cs) x c,
      contains-stale s cs c,
      gives-cons k cs m x c u,
    )

pub retire-page :
    (d : Classes) (page : Page) (m : Classes) (x : Element) (c : Text)
    → IsMap m
    → contains ((retire d page m).page x) c
      ≡ (contains (page x) c && not (gives m x c && not (gives d x c)))
retire-page d page [] x c u = unfold retire find in ground arith
retire-page d page ((k, cs) ∷ m) x c u = elim (Option-cases (find d k)) [
  | inl e ↦
      rw (retire-none d page k cs m e).0
        (retire_page-none d page k cs m x c _ e u.0 (retire-page d (strip page k cs) m x c u.1))
  | inr (s, e) ↦ rw (retire-some d page k cs m s e).0 (
      retire_page-some d page k cs s m x c _ e u.0
        (retire-page d (strip page k (stale s cs)) m x c u.1))
]

gives_retire-none :
    (d : Classes) (k : Element) (cs : List Text) (m : Classes) (x : Element) (c : Text) (b : Bool)
    → find d k ≡ none
    → contains (keys m) k ≡ false
    → b ≡ (gives m x c && gives d x c)
    → b ≡ (gives ((k, cs) ∷ m) x c && gives d x c)
gives_retire-none d k cs m x c b e u h = ground (arith, gives-cons k cs m x c u)

gives_retire-some :
    (d : Classes) (k : Element) (cs s : List Text) (m r : Classes) (x : Element) (c : Text)
    → find d k ≡ some s
    → contains (keys m) k ≡ false
    → gives r x c ≡ (gives m x c && gives d x c)
    → gives ((k, kept s cs) ∷ r) x c ≡ (gives ((k, cs) ∷ m) x c && gives d x c)
unfolding find
gives_retire-some d k cs s m r x c e u h =
    ground (arith, contains-kept s cs c, gives-cons k cs m x c u)

pub gives-retire :
    (d : Classes) (page : Page) (m : Classes) (x : Element) (c : Text)
    → IsMap m
    → gives (retire d page m).applied x c ≡ (gives m x c && gives d x c)
gives-retire d page [] x c u = unfold retire find in refl
gives-retire d page ((k, cs) ∷ m) x c u = elim (Option-cases (find d k)) [
  | inl e ↦
      rw (retire-none d page k cs m e).1
        (gives_retire-none d k cs m x c _ e u.0 (gives-retire d (strip page k cs) m x c u.1))
  | inr (s, e) ↦ rw (retire-some d page k cs m s e).1 (
      gives_retire-some d k cs s m _ x c e u.0
        (gives-retire d (strip page k (stale s cs)) m x c u.1))
]

contains_key :
    (x k : Element) (ks : List Element)
    → (x == k) ≡ false
    → contains ks x ≡ false
    → contains (k ∷ ks) x ≡ false
unfolding contains
contains_key x k ks h u = ground arith

-- No entry is new.
keys-retire :
    (d : Classes) (page : Page) (m : Classes) (x : Element)
    → contains (keys m) x ≡ false
    → contains (keys (retire d page m).applied) x ≡ false
unfolding contains
keys-retire d page [] x u = unfold retire in refl
keys-retire d page ((k, cs) ∷ m) x u = elim (Option-cases (find d k)) [
  | inl e ↦ rw (retire-none d page k cs m e).1 (keys-retire d (strip page k cs) m x (ground arith))
  | inr (s, e) ↦ rw (retire-some d page k cs m s e).1 (
      contains_key x k _ (ground arith)
        (keys-retire d (strip page k (stale s cs)) m x (ground arith)))
]

pub retire-IsMap :
    (d : Classes) (page : Page) (m : Classes) → IsMap m → IsMap (retire d page m).applied
retire-IsMap d page [] u = unfold retire in tt
retire-IsMap d page ((k, cs) ∷ m) u = elim (Option-cases (find d k)) [
  | inl e ↦ rw (retire-none d page k cs m e).1 (retire-IsMap d (strip page k cs) m u.1)
  | inr (s, e) ↦ rw (retire-some d page k cs m s e).1 (
    keys-retire d (strip page k (stale s cs)) m k u.0,
    retire-IsMap d (strip page k (stale s cs)) m u.1,
  )
]
