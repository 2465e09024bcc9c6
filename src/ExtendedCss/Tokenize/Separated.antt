-- ===== src/ExtendedCss/Tokenize/Separated.antt =====
-- What the tokenizer returns.
use zen_desktop_localcdn.Common.{
  Bool, true, false, not, ◌&&◌, List, [], ◌∷◌, ◌++◌, Option, none, some, if◌then◌else◌, Text,
  is_empty, text_eq, text_eq_iff, trim, to_lower_case, Result, ok, throw, ◌>>=◌, ok_or, ◌≡◌, refl,
  sym, ap, ◌∙◌, arith,
}
use zen_desktop_localcdn.ExtendedCss.Ast.{
  selector, id_selector, class_selector, type_selector, attribute_selector, combinator,
  pseudo_class_selector, CssNode, node, Nodes, nil, cons, first, get_literal,
}
use zen_desktop_localcdn.ExtendedCss.PseudoClass.{in_ext}
use zen_desktop_localcdn.ExtendedCss.Env.{Env}
use zen_desktop_localcdn.ExtendedCss.Tokenize.{
  IrToken, raw_token, comb_token, ext_token, Tokens, flush_raw, buffer, push_ext,
  enter_pseudo_class, enter, descend, walk, walk_nodes, parse_tokens,
}
use zen_desktop_localcdn.ExtendedCss.Tokenize.Trimmed.{trim-trim}

-- Behind a token, raw or not: a raw token is trimmed and not empty and does not follow another one, and
-- an extended pseudo-class is known.
abbrev pub separated : Bool → List IrToken → Bool
separated after_raw [] = true
separated after_raw (raw_token s ∷ ts) =
    (not after_raw && (not (is_empty s) && text_eq (trim s) s)) && separated true ts
separated after_raw (comb_token s ∷ ts) = separated false ts
separated after_raw (ext_token name s ∷ ts) = in_ext name && separated false ts

abbrev ends_raw : Bool → List IrToken → Bool
ends_raw after_raw [] = after_raw
ends_raw after_raw (raw_token s ∷ ts) = ends_raw true ts
ends_raw after_raw (comb_token s ∷ ts) = ends_raw false ts
ends_raw after_raw (ext_token name s ∷ ts) = ends_raw false ts

separated-append :
    (b : Bool) (ts us : List IrToken)
    → separated b (ts ++ us) ≡ separated b ts && separated (ends_raw b ts) us
separated-append b [] us = refl
separated-append b (raw_token s ∷ ts) us =
    ap (λ r. (not b && (not (is_empty s) && text_eq (trim s) s)) && r) (separated-append true ts us)
    ∙ ground arith
separated-append b (comb_token s ∷ ts) us = separated-append false ts us
separated-append b (ext_token name s ∷ ts) us =
    ap (λ r. in_ext name && r) (separated-append false ts us) ∙ ground arith

ends_raw-append :
    (b : Bool) (ts us : List IrToken) → ends_raw b (ts ++ us) ≡ ends_raw (ends_raw b ts) us
ends_raw-append b [] us = refl
ends_raw-append b (raw_token s ∷ ts) us = ends_raw-append true ts us
ends_raw-append b (comb_token s ∷ ts) us = ends_raw-append false ts us
ends_raw-append b (ext_token name s ∷ ts) us = ends_raw-append false ts us

-- The tokens are separated, and the last one is not raw.
abbrev Open : List IrToken → Type 0
Open ts = (separated false ts ≡ true) × (ends_raw false ts ≡ false)

-- A token that is not raw opens the list again.
abbrev opens : IrToken → Bool
opens (raw_token s) = false
opens (comb_token s) = true
opens (ext_token name s) = in_ext name

push-Open :
    (ts : List IrToken) (t : IrToken)
    → separated false ts ≡ true
    → opens t ≡ true
    → Open (ts ++ (t ∷ []))
push-Open ts (raw_token s) h k = cc
push-Open ts (comb_token s) h k =
    (separated-append false ts _ ∙ ground arith, ends_raw-append false ts _)
push-Open ts (ext_token name s) h k =
    (separated-append false ts (ext_token name s ∷ []) ∙ ground arith, ends_raw-append false ts _)

raw-separated :
    (ts : List IrToken) (t : Text)
    → Open ts
    → trim t ≡ t
    → separated false (if is_empty t then ts else ts ++ (raw_token t ∷ [])) ≡ true
raw-separated ts [] (h, k) e = h
raw-separated ts (c ∷ t) (h, k) e =
    let same = (text_eq_iff (trim (c ∷ t)) (c ∷ t)).1 e in
    separated-append false ts (raw_token (c ∷ t) ∷ []) ∙ ground (arith, same)

flush_raw-separated : (st : Tokens) → Open st.out → separated false (flush_raw st).out ≡ true
unfolding flush_raw
flush_raw-separated st h = raw-separated st.out (trim st.css_buf) h (trim-trim st.css_buf)

-- A call that returns leaves the tokens so.
abbrev Opens : Result Tokens → Type 0
Opens (ok st) = Open st.out
Opens (throw e) = Unit

abbrev EnterOpens : Result (Tokens × Bool) → Type 0
EnterOpens (ok (st, deeper)) = Open st.out
EnterOpens (throw e) = Unit

bind-Opens :
    (m : Result Tokens) (k : Tokens → Result Tokens)
    → Opens m
    → ((st : Tokens) → Open st.out → Opens (k st))
    → Opens (m >>= k)
bind-Opens (ok st) k h f = f st h
bind-Opens (throw e) k h f = tt

then-EnterOpens : (m : Result Tokens) → Opens m → EnterOpens (m >>= λ st. ok (st, false))
then-EnterOpens (ok st) h = h
then-EnterOpens (throw e) h = tt

push_ext-Opens :
    (name : Text) (arg : Option CssNode) (raw_text : Text) (st : Tokens)
    → in_ext name ≡ true
    → separated false st.out ≡ true
    → Opens (push_ext name arg raw_text st)
push_ext-Opens name none raw_text st e h = tt
push_ext-Opens name (some arg) raw_text st e h =
    push-Open st.out (ext_token name (get_literal arg raw_text)) h e

class-Opens :
    (known native : Bool) (name : Text) (arg : Option CssNode) (raw_text lit : Text) (st : Tokens)
    → in_ext name ≡ known
    → Open st.out
    → Opens (
        if known
        then (if native then ok (buffer st lit) else push_ext name arg raw_text (flush_raw st))
        else ok (buffer st lit))
class-Opens true true name arg raw_text lit st e h = h
class-Opens true false name arg raw_text lit st e h =
    push_ext-Opens name arg raw_text (flush_raw st) e (flush_raw-separated st h)
class-Opens false native name arg raw_text lit st e h = h

enter_pseudo_class-Opens :
    (env : Env) (raw_text : Text) (n : CssNode) (st : Tokens)
    → Open st.out
    → Opens (enter_pseudo_class env raw_text n st)
unfolding enter_pseudo_class
enter_pseudo_class-Opens env raw_text (node kind given start end children) st h =
    class-Opens (in_ext (to_lower_case given)) _ (to_lower_case given) (first children) raw_text _
      st refl h

enter-EnterOpens :
    (env : Env) (raw_text : Text) (n : CssNode) (st : Tokens)
    → Open st.out
    → EnterOpens (enter env raw_text n st)
unfolding enter
enter-EnterOpens env raw_text (node selector name start end children) st h = h
enter-EnterOpens env raw_text (node id_selector name start end children) st h = h
enter-EnterOpens env raw_text (node class_selector name start end children) st h = h
enter-EnterOpens env raw_text (node type_selector name start end children) st h = h
enter-EnterOpens env raw_text (node attribute_selector name start end children) st h = h
enter-EnterOpens env raw_text (node combinator name start end children) st h =
    push-Open (flush_raw st).out (comb_token name) (flush_raw-separated st h) refl
enter-EnterOpens env raw_text (node pseudo_class_selector name start end children) st h =
    then-EnterOpens _ (
      enter_pseudo_class-Opens env raw_text (node pseudo_class_selector name start end children) st
        h)
enter-EnterOpens env raw_text (node _ name start end children) st h = tt

descend-Opens :
    (m : Result (Tokens × Bool)) (below : Tokens → Result Tokens)
    → EnterOpens m
    → ((st : Tokens) → Open st.out → Opens (below st))
    → Opens (m >>= λ (st, deeper). descend deeper below st)
descend-Opens (ok (st, true)) below h f = f st h
descend-Opens (ok (st, false)) below h f = h
descend-Opens (throw e) below h f = tt

mutual
  unfolding walk

  walk-Opens :
      (env : Env) (raw_text : Text) (n : CssNode) (st : Tokens)
      → Open st.out
      → Opens (walk env raw_text n st)
  walk-Opens env raw_text (node kind name start end children) st h =
      descend-Opens (enter env raw_text (node kind name start end children) st)
        (walk_nodes env raw_text children)
        (enter-EnterOpens env raw_text (node kind name start end children) st h)
        (walk_nodes-Opens env raw_text children)

  walk_nodes-Opens :
      (env : Env) (raw_text : Text) (ns : Nodes) (st : Tokens)
      → Open st.out
      → Opens (walk_nodes env raw_text ns st)
  walk_nodes-Opens env raw_text nil st h = h
  walk_nodes-Opens env raw_text (cons n ns) st h =
      bind-Opens (walk env raw_text n st) (walk_nodes env raw_text ns)
        (walk-Opens env raw_text n st h) (walk_nodes-Opens env raw_text ns)

last_flush :
    (m : Result Tokens) {ts : List IrToken}
    → Opens m
    → (m >>= λ st. ok (flush_raw st).out) ≡ ok ts
    → separated false ts ≡ true
last_flush (ok st) {ts} h e =
    ap (λ r. separated false (ok_or ts r)) (sym e) ∙ flush_raw-separated st h
last_flush (throw e) h k = cc

-- The tokens of a selector are separated: a raw token is trimmed and not empty, between two raw tokens
-- there is a combinator or an extended pseudo-class, and every extended token has a known name.
pub parse_tokens-separated :
    (env : Env) (raw_text : Text) (ast : CssNode) {ts : List IrToken}
    → parse_tokens env raw_text ast ≡ ok ts
    → separated false ts ≡ true
unfolding parse_tokens
parse_tokens-separated env raw_text ast e =
    last_flush (walk env raw_text ast (record { out = []; css_buf = [] }))
      (walk-Opens env raw_text ast (record { out = []; css_buf = [] }) (refl, refl)) e
