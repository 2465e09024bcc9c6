-- ===== src/ExtendedCss/Rules/Style.antt =====
-- Which `:style()` a rule's declarations are taken from, and what is left of its selector.
use mathlib.Core.Path.{subst}
use zen_desktop_localcdn.Common.{
  ℕ, Bool, true, false, ◌||◌, ◌⊎◌, none, some, if◌then◌else◌, Text, ◌≡◌, ◌↔◌, refl, arith, Result,
  ok, throw, Bool-cases, inl, inr,
}
use zen_desktop_localcdn.ExtendedCss.Ast.{node, Nodes, nil, cons, NodeKind, first}
use zen_desktop_localcdn.ExtendedCss.Env.{Env}
use zen_desktop_localcdn.ExtendedCss.Rules.{
  is_style, style_text, Found, map_found, or_else, taken, extract_nodes,
}

-- Whether a `:style()` stands somewhere in the trees.
abbrev pub has_style : Nodes → Bool
has_style nil = false
has_style (cons (node kind name start end children) rest) =
    is_style kind name || (has_style children || has_style rest)

-- The first `:style()` in document order has this text, and without it these trees are left.
pub data Takes (env : Env) : Nodes → Text → Nodes → Type 0 where
  here :
      {kind : NodeKind} {name : Text} {start end : ℕ} {children rest : Nodes} {style : Text}
      → is_style kind name ≡ true
      → style_text env (first children) ≡ ok style
      → Takes env (cons (node kind name start end children) rest) style rest
  below :
      {kind : NodeKind} {name : Text} {start end : ℕ} {children left rest : Nodes} {style : Text}
      → is_style kind name ≡ false
      → Takes env children style left
      → Takes env
          (cons (node kind name start end children) rest)
          style
          (cons (node kind name start end left) rest)
  behind :
      {kind : NodeKind} {name : Text} {start end : ℕ} {children rest left : Nodes} {style : Text}
      → is_style kind name ≡ false
      → has_style children ≡ false
      → Takes env rest style left
      → Takes env
          (cons (node kind name start end children) rest)
          style
          (cons (node kind name start end children) left)

taken-cases :
    (rest : Nodes) (r : Result Text) {style : Text} {left : Nodes}
    → taken rest r ≡ ok (some (style, left))
    → (r ≡ ok style) × (rest ≡ left)
taken-cases rest (throw e) h = cc
taken-cases rest (ok s) h = (cc, cc)

pub map_found-cases :
    {A B : Type 0} (f : A → B) (r : Found A) {style : Text} {b : B}
    → map_found f r ≡ ok (some (style, b))
    → (a : A) × (r ≡ ok (some (style, a))) × (f a ≡ b)
map_found-cases f (throw e) h = cc
map_found-cases f (ok none) h = cc
map_found-cases f (ok (some (s, a))) h = (a, cc, cc)

or_else-cases :
    (now later : Found Nodes) {style : Text} {left : Nodes}
    → or_else now later ≡ ok (some (style, left))
    → (now ≡ ok (some (style, left))) ⊎ ((now ≡ ok none) × (later ≡ ok (some (style, left))))
or_else-cases (throw e) later h = cc
or_else-cases (ok none) later h = inr (refl, h)
or_else-cases (ok (some found)) later h = inl h

pub map_found-none :
    {A B : Type 0} (f : A → B) (r : Found A) → (map_found f r ≡ ok none) ↔ (r ≡ ok none)
map_found-none f (throw e) = (λ h. cc, λ h. cc)
map_found-none f (ok none) = (λ h. refl, λ h. refl)
map_found-none f (ok (some (s, a))) = (λ h. cc, λ h. cc)

or_else-none :
    (now later : Found Nodes)
    → (or_else now later ≡ ok none) ↔ ((now ≡ ok none) × (later ≡ ok none))
or_else-none (throw e) later = (λ h. cc, λ (h, k). cc)
or_else-none (ok none) later = (λ h. (refl, h), λ (h, k). k)
or_else-none (ok (some (s, a))) later = (λ h. cc, λ (h, k). cc)

taken-some : (rest : Nodes) (r : Result Text) → ¬ (taken rest r ≡ ok none)
taken-some rest (throw e) h = cc
taken-some rest (ok s) h = cc

none_step :
    (b c r : Bool) (style now later : Found Nodes)
    → ¬ (style ≡ ok none)
    → (now ≡ ok none) ↔ (c ≡ false)
    → (later ≡ ok none) ↔ (r ≡ false)
    → ((if b then style else or_else now later) ≡ ok none) ↔ (b || (c || r) ≡ false)
none_step true c r style now later t n l = (λ h. absurd (t h), λ h. cc)
none_step false c r style now later t n l = (
  λ h. let (a, b) = (or_else-none now later).0 h in ground (arith, n.0 a, l.0 b),
  λ h. (or_else-none now later).1 (n.1 (ground arith), l.1 (ground arith)),
)

both_ways : {A B C : Type 0} → A ↔ B → B ↔ C → A ↔ C
both_ways f g = (λ a. g.0 (f.0 a), λ c. f.1 (g.1 c))

-- The walk finds nothing, and throws nothing, exactly if no `:style()` stands anywhere.
pub extract_nodes-none_iff :
    (env : Env) (ns : Nodes) → (extract_nodes env ns ≡ ok none) ↔ (has_style ns ≡ false)
unfolding extract_nodes
extract_nodes-none_iff env nil = (λ h. refl, λ h. refl)
extract_nodes-none_iff env (cons (node kind name start end children) rest) =
    none_step (is_style kind name) (has_style children) (has_style rest) _ _ _
      (taken-some rest (style_text env (first children)))
      (both_ways
        (map_found-none (λ c. cons (node kind name start end c) rest) (extract_nodes env children))
        (extract_nodes-none_iff env children))
      (both_ways
        (map_found-none (cons (node kind name start end children)) (extract_nodes env rest))
        (extract_nodes-none_iff env rest))

-- If the walk finds a style, it is the first one in document order, and what is left is without it.
pub extract_nodes-Takes :
    (env : Env) (ns : Nodes) {style : Text} {left : Nodes}
    → extract_nodes env ns ≡ ok (some (style, left))
    → Takes env ns style left
unfolding extract_nodes
extract_nodes-Takes env nil h = cc
extract_nodes-Takes env (cons (node kind name start end children) rest) {style} {left} h =
    elim (Bool-cases (is_style kind name)) [
      | inl s ↦
          let (t, e) = taken-cases rest (style_text env (first children)) (rw s at h) in
          subst (Takes env (cons (node kind name start end children) rest) style) e (here s t)
      | inr s ↦ elim (or_else-cases _ _ (rw s at h)) [
        | inl now ↦
            let (c, found, e) =
              map_found-cases (λ c. cons (node kind name start end c) rest)
                (extract_nodes env children) now in
            subst (Takes env (cons (node kind name start end children) rest) style) e
              (below s (extract_nodes-Takes env children found))
        | inr (nothing, later) ↦
            let (l, found, e) =
              map_found-cases (cons (node kind name start end children)) (extract_nodes env rest)
                later in
            subst (Takes env (cons (node kind name start end children) rest) style) e (
              behind s (absent env children rest kind name start end nothing)
                (extract_nodes-Takes env rest found))
      ]
    ]
  where
    absent :
        (env : Env) (children rest : Nodes) (kind : NodeKind) (name : Text) (start end : ℕ)
        → map_found (λ c. cons (node kind name start end c) rest) (extract_nodes env children)
          ≡ ok none
        → has_style children ≡ false
    absent env children rest kind name start end h = (extract_nodes-none_iff env children).0 (
        (map_found-none (λ c. cons (node kind name start end c) rest)
            (extract_nodes env children)).0
          h)
