-- ===== src/Scriptlets/Clipboard/Cleaned.antt =====
-- Which parameters are left.
use zen_desktop_localcdn.Common.{
  ℕ, All, Bool, true, false, ◌&&◌, ◌||◌, List, [], ◌∷◌, ◌++◌, Option, none, some, if◌then◌else◌,
  Text, text_eq, text_eq_iff, ◌≡◌, refl, sym, ap, ◌∙◌, arith, Bool-cases, inl, inr,
}
use mathlib.Core.List.{append_assoc}
use zen_desktop_localcdn.Regexp.{RegExp, Regexps, Tested, keeps_position, test_at_lem}
use zen_desktop_localcdn.Scriptlets.Clipboard.{
  Url, Urls, Param, named, matching, names_key, has_param, Cleaning, delete_from, delete_matching,
  clean_one, clean_all, written_back, clean_read, clean_url,
}
use zen_desktop_localcdn.Scriptlets.Clipboard.Pairs.{
  without, any_key, has_param-any_key, delete_param-without, without_none, without-without,
  any_key-without,
}

-- Some parameter of the list selects the key.
abbrev pub selects : Regexps → List Param → Text → Bool
selects rx [] key = false
selects rx (p ∷ ps) key = names_key rx p key || selects rx ps key

-- A key that one of the pairs holds, if the expression matches it.
abbrev listed : Regexps → RegExp → List (Text × Text) → Text → Bool
listed rx re [] x = false
listed rx re ((k, v) ∷ ks) x = (rx.test re k && text_eq k x) || listed rx re ks x

same_test :
    (rx : Regexps) (re : RegExp) (k x : Text) (b : Bool)
    → (rx.test re k && text_eq k x) || (rx.test re x && b) ≡ rx.test re x && (text_eq k x || b)
same_test rx re k x b = elim (Bool-cases (text_eq k x)) [
  | inl e ↦ rw e (rw ((text_eq_iff k x).0 e) (ground arith))
  | inr e ↦ rw e (ground arith)
]

listed_lem :
    (rx : Regexps) (re : RegExp) (ks : List (Text × Text)) (x : Text)
    → listed rx re ks x ≡ rx.test re x && any_key (λ k. text_eq k x) ks
listed_lem rx re [] x = ground arith
listed_lem rx re ((k, v) ∷ ks) x =
    ap (λ b. (rx.test re k && text_eq k x) || b) (listed_lem rx re ks x)
    ∙ same_test rx re k x (any_key (λ k. text_eq k x) ks)

any_key-append :
    (x v : Text) (front q : List (Text × Text))
    → any_key (λ k. text_eq k x) (front ++ ((x, v) ∷ q)) ≡ true
any_key-append x v [] q = rw ((text_eq_iff x x).1 refl) refl
any_key-append x v ((k, w) ∷ front) q = ground (arith, any_key-append x v front q)

listed_here :
    (rx : Regexps) (re : RegExp) (front q : List (Text × Text)) (x v : Text)
    → listed rx re (front ++ ((x, v) ∷ q)) x ≡ rx.test re x
listed_here rx re front q x v =
    listed_lem rx re (front ++ ((x, v) ∷ q)) x
    ∙ ap (λ b. rx.test re x && b) (any_key-append x v front q)
    ∙ ground arith

-- Of the pairs behind `front`, the whole list being these and `front`.
without-listed :
    (rx : Regexps) (re : RegExp) (front q : List (Text × Text))
    → without (listed rx re (front ++ q)) q ≡ without (rx.test re) q
without-listed rx re front [] = refl
without-listed rx re front ((k, v) ∷ q) =
    let rest : without (listed rx re (front ++ ((k, v) ∷ q))) q ≡ without (rx.test re) q =
      ap (λ whole. without (listed rx re whole) q) (sym (append_assoc front ((k, v) ∷ []) q))
      ∙ without-listed rx re (front ++ ((k, v) ∷ [])) q in
    ap
      (λ b.
        if b
        then without (listed rx re (front ++ ((k, v) ∷ q))) q
        else (k, v) ∷ without (listed rx re (front ++ ((k, v) ∷ q))) q)
      (listed_here rx re front q k v)
    ∙ ap (λ r. if rx.test re k then r else (k, v) ∷ r) rest

no_key : (q : List (Text × Text)) → any_key (λ x. false) q ≡ false
no_key [] = refl
no_key ((k, v) ∷ q) = no_key q

or_assoc : (a b c : Bool) → (a || b) || c ≡ a || (b || c)
or_assoc a b c = ground arith

or_false : (a b : Bool) → b ≡ false → a ≡ a || b
or_false a b h = ground arith

or_true : (a b : Bool) → b ≡ true → true ≡ a || b
or_true a b h = ground arith

if-Cleaned :
    (b : Bool) (k : Text) (c : Cleaning)
    → ((if b then delete_from k c else c).pairs ≡ without (λ x. b && text_eq k x) c.pairs)
      × ((if b then delete_from k c else c).modified ≡ c.modified || b)
if-Cleaned true k c = (delete_param-without k c.pairs, or_true c.modified true refl)
if-Cleaned false k c =
    (sym (without_none (λ x. false) c.pairs (no_key c.pairs)), or_false c.modified false refl)

-- Without the flags `g` and `y` a test leaves the expression as it is.
delete_matching-cons :
    (rx : Regexps) (re : RegExp) (i : ℕ) (k v : Text) (ks : List (Text × Text)) (c : Cleaning)
    → keeps_position re ≡ false
    → delete_matching rx re i ((k, v) ∷ ks) c
      ≡ delete_matching rx re i ks (if rx.test re k then delete_from k c else c)
unfolding delete_matching
delete_matching-cons rx re i k v ks c h =
    ap
      (λ (t : Tested).
        delete_matching rx re t.last_index ks (if t.holds then delete_from k c else c))
      (test_at_lem rx re i k h)

delete_matching-Cleaned :
    (rx : Regexps) (re : RegExp) (i : ℕ) (ks : List (Text × Text)) (c : Cleaning)
    → keeps_position re ≡ false
    → ((delete_matching rx re i ks c).0.pairs ≡ without (listed rx re ks) c.pairs)
      × ((delete_matching rx re i ks c).0.modified ≡ c.modified || any_key (rx.test re) ks)
      × ((delete_matching rx re i ks c).1 ≡ i)
unfolding delete_matching
delete_matching-Cleaned rx re i [] c h =
    (sym (without_none (λ x. false) c.pairs (no_key c.pairs)), or_false c.modified false refl, refl)
delete_matching-Cleaned rx re i ((k, v) ∷ ks) c h =
    let d = if rx.test re k then delete_from k c else c in
    let same = delete_matching-cons rx re i k v ks c h in
    let (p, m) = if-Cleaned (rx.test re k) k c in
    let (q, n, last) = delete_matching-Cleaned rx re i ks d h in
    (
      ap (λ (r : Cleaning × ℕ). r.0.pairs) same
          ∙ q
          ∙ ap (without (listed rx re ks)) p
          ∙ without-without (λ x. rx.test re k && text_eq k x) (listed rx re ks) c.pairs,
      ap (λ (r : Cleaning × ℕ). r.0.modified) same
          ∙ n
          ∙ ap (λ b. b || any_key (rx.test re) ks) m
          ∙ or_assoc c.modified (rx.test re k) (any_key (rx.test re) ks),
      ap (λ (r : Cleaning × ℕ). r.1) same ∙ last,
    )

-- What is left of the pairs when those that a test selects are gone, and whether there were any.
abbrev Cleaned : (Text → Bool) → Cleaning → Cleaning → Type 0
Cleaned gone c d =
    (d.pairs ≡ without gone c.pairs) × (d.modified ≡ c.modified || any_key gone c.pairs)

named-Cleaned :
    (name : Text) (b : Bool) (c : Cleaning)
    → any_key (text_eq name) c.pairs ≡ b
    → Cleaned (text_eq name) c (if b then delete_from name c else c)
named-Cleaned name true c h = (delete_param-without name c.pairs, or_true c.modified _ h)
named-Cleaned name false c h =
    (sym (without_none (text_eq name) c.pairs h), or_false c.modified _ h)

-- A name, or an expression with neither of the flags `g` and `y`.
abbrev pub HasNoPosition : Param → Type 0
HasNoPosition (named name) = Unit
HasNoPosition (matching re i) = keeps_position re ≡ false

clean_one-Cleaned :
    (rx : Regexps) (p : Param) (c : Cleaning)
    → HasNoPosition p
    → Cleaned (names_key rx p) c (clean_one rx p c).0 × ((clean_one rx p c).1 ≡ p)
clean_one-Cleaned rx (named name) c h =
    (named-Cleaned name (has_param name c.pairs) c (sym (has_param-any_key name c.pairs)), refl)
clean_one-Cleaned rx (matching re i) c h =
    let (q, m, last) = delete_matching-Cleaned rx re i c.pairs c h in
    ((q ∙ without-listed rx re [] c.pairs, m), ap (matching re) last)

clean_all-Cleaned :
    (rx : Regexps) (ps : List Param) (c : Cleaning)
    → All HasNoPosition ps
    → Cleaned (selects rx ps) c (clean_all rx ps c).0 × ((clean_all rx ps c).1 ≡ ps)
unfolding clean_all
clean_all-Cleaned rx [] c h = (
  (
    sym (without_none (λ x. false) c.pairs (no_key c.pairs)),
    or_false c.modified _ (no_key c.pairs),
  ),
  refl,
)
clean_all-Cleaned rx (p ∷ ps) c (h, hs) =
    let d = (clean_one rx p c).0 in
    let ((q, m), one) = clean_one-Cleaned rx p c h in
    let ((r, n), rest) = clean_all-Cleaned rx ps d hs in
    (
      (
        r
            ∙ ap (without (selects rx ps)) q
            ∙ without-without (names_key rx p) (selects rx ps) c.pairs,
        n
            ∙ ap (λ b. b || any_key (selects rx ps) d.pairs) m
            ∙ or_assoc c.modified _ _
            ∙ ap (λ b. c.modified || b)
                (ap (λ q. any_key (names_key rx p) c.pairs || any_key (selects rx ps) q) q
                  ∙ any_key-without (names_key rx p) (selects rx ps) c.pairs),
      ),
      ap (λ x. x ∷ (clean_all rx ps d).1) one ∙ ap (λ xs. p ∷ xs) rest,
    )

-- What `cleanURL` should return for a text that may be an address.
abbrev pub cleaned : Regexps → Urls → Text → List Param → Option Url → Text
cleaned rx urls raw params none = raw
cleaned rx urls raw params (some u) =
    if any_key (selects rx params) u.query
    then urls.write (record { query = without (selects rx params) u.query; rest = u.rest })
    else raw

clean_read-cleaned :
    (rx : Regexps) (urls : Urls) (raw : Text) (params : List Param) (o : Option Url)
    → All HasNoPosition params
    → clean_read rx urls raw params o ≡ (cleaned rx urls raw params o, params)
clean_read-cleaned rx urls raw params none h = refl
clean_read-cleaned rx urls raw params (some u) h =
    let r = clean_all rx params (record { pairs = u.query; modified = false }) in
    let ((q, m), same) =
      clean_all-Cleaned rx params (record { pairs = u.query; modified = false }) h in
    ap (λ b. (written_back urls raw u.rest (record { pairs = r.0.pairs; modified = b }), r.1)) m
    ∙ ap
        (λ ps. (
          written_back urls raw u.rest
              (record { pairs = ps; modified = any_key (selects rx params) u.query }),
          r.1,
        ))
        q
    ∙ ap (λ ps. (cleaned rx urls raw params (some u), ps)) same

-- For a list of which no expression has the flag `g` or `y`: a text that is no address, or an address of
-- which the list selects no query parameter, is returned as it is. Of any other address exactly the
-- parameters that an entry of the list selects, by its name or by its expression, are taken out, and the
-- others stay in their order. The list is the same behind the call.
pub clean_url-cleaned :
    (rx : Regexps) (urls : Urls) (raw : Text) (params : List Param)
    → All HasNoPosition params
    → clean_url rx urls raw params ≡ (cleaned rx urls raw params (urls.read raw), params)
unfolding clean_url
clean_url-cleaned rx urls raw params h = clean_read-cleaned rx urls raw params (urls.read raw) h
