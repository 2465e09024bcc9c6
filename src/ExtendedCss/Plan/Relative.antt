-- ===== src/ExtendedCss/Plan/Relative.antt =====
-- Relative selectors: one step for each token.
use mathlib.Core.Path.{subst}
use mathlib.Core.List.{append-nil, append_assoc}
use zen_desktop_localcdn.Common.{
  true, List, [], ◌∷◌, ◌++◌, Option, none, some, ◌≡◌, refl, arith, Text, ok, bind-eq-ok, sym, ◌∙◌,
  ap, ok_or,
}
use zen_desktop_localcdn.ExtendedCss.PseudoClass.{ExtClass, ext_class}
use zen_desktop_localcdn.ExtendedCss.Tokenize.{IrToken, raw_token, comb_token, ext_token}
use zen_desktop_localcdn.ExtendedCss.Step.{Step, raw_matches}
use zen_desktop_localcdn.ExtendedCss.Plan.{
  PlanState, NewExt, bridge, emit, After, none_follows, comb_follows, raw_follows, ext_follows,
  after, relative_token, plan_loop, plan_start, plan, emit_class, supply_context,
}

-- The step that stands for a token.
abbrev pub StepOf : NewExt → IrToken → Step → Type 0
StepOf new (comb_token l) s = bridge l ≡ ok s
StepOf new (raw_token l) s = s ≡ raw_matches l
StepOf new (ext_token name args) s =
    (cls : ExtClass) × (ext_class name ≡ some cls) × (new cls args ≡ ok s)

-- Token by token.
abbrev pub Steps : NewExt → List IrToken → List Step → Type 0
Steps new [] [] = Unit
Steps new (t ∷ ts) (s ∷ steps) = StepOf new t s × Steps new ts steps
Steps new _ _ = ⊥

-- Whether a token may come first: only a pseudo-class looks at the context.
abbrev Placed : PlanState → IrToken → Type 0
Placed st (comb_token l) = Unit
Placed st t = st.have_context ≡ true

supply_context_self :
    (cls : ExtClass) (st : PlanState) → st.have_context ≡ true → supply_context cls st ≡ st
unfolding supply_context
supply_context_self cls st h = ground arith

emit_class-eq-ok :
    (new : NewExt) (st : PlanState) (o : Option ExtClass) (args : Text) {m : PlanState}
    → st.have_context ≡ true
    → emit_class new st o args ≡ ok m
    → (s : Step) × ((cls : ExtClass) × (o ≡ some cls) × (new cls args ≡ ok s)) × (m ≡ emit st s)
emit_class-eq-ok new st none args c h = cc
emit_class-eq-ok new st (some cls) args c h =
    let (s, n, e) = bind-eq-ok (new cls args) _ h in
    (s, (cls, refl, n), sym (ap (ok_or st) e) ∙ ap (λ t. emit t s) (supply_context_self cls st c))

relative_token-StepOf :
    (new : NewExt) (st : PlanState) (t : IrToken) (next : After) {m : PlanState}
    → Placed st t
    → relative_token new st t next ≡ ok m
    → (s : Step) × StepOf new t s × (m ≡ emit st s)
unfolding relative_token
relative_token-StepOf new st (raw_token l) next c h = (raw_matches l, refl, sym (ap (ok_or st) h))
relative_token-StepOf new st (ext_token n a) next c h = emit_class-eq-ok new st (ext_class n) a c h
relative_token-StepOf new st (comb_token l) none_follows c h = cc
relative_token-StepOf new st (comb_token l) comb_follows c h = cc
relative_token-StepOf new st (comb_token l) raw_follows c h =
    let (s, b, e) = bind-eq-ok (bridge l) _ h in (s, b, sym (ap (ok_or st) e))
relative_token-StepOf new st (comb_token l) ext_follows c h =
    let (s, b, e) = bind-eq-ok (bridge l) _ h in (s, b, sym (ap (ok_or st) e))

Placed-context : (st : PlanState) (t : IrToken) → st.have_context ≡ true → Placed st t
Placed-context st (comb_token l) h = tt
Placed-context st (raw_token l) h = h
Placed-context st (ext_token n a) h = h

abbrev AllPlaced : PlanState → List IrToken → Type 0
AllPlaced st [] = Unit
AllPlaced st (t ∷ ts) = Placed st t

AllPlaced-context : (st : PlanState) (ts : List IrToken) → st.have_context ≡ true → AllPlaced st ts
AllPlaced-context st [] h = tt
AllPlaced-context st (t ∷ ts) h = Placed-context st t h

plan_loop-Steps :
    (new : NewExt) (ts : List IrToken) (st : PlanState) {st' : PlanState}
    → AllPlaced st ts
    → plan_loop (relative_token new) st ts ≡ ok st'
    → (added : List Step) × Steps new ts added × (st'.steps ≡ st.steps ++ added)
unfolding plan_loop
plan_loop-Steps new [] st p h =
    ([], tt, ap (λ r. (ok_or st r).steps) (sym h) ∙ sym (append-nil st.steps))
plan_loop-Steps new (t ∷ ts) st {st'} p h =
    let (m, o, h') = bind-eq-ok (relative_token new st t (after ts)) _ h in
    let (s, is_step, e) = relative_token-StepOf new st t (after ts) p o in
    let rest =
      plan_loop-Steps new ts (emit st s) {st' = st'} (AllPlaced-context (emit st s) ts refl)
        (subst (λ x. plan_loop (relative_token new) x ts ≡ ok st') e h') in
    (s ∷ rest.0, (is_step, rest.1), rest.2 ∙ append_assoc st.steps (s ∷ []) rest.0)

-- A selector that begins with a combinator is planned token by token: a combinator becomes its step,
-- a raw run a test of the elements at hand, and an extended pseudo-class its own step, with nothing
-- merged and nothing added.
pub plan-Steps :
    (new : NewExt) (l : Text) (ts : List IrToken) {steps : List Step}
    → plan new (comb_token l ∷ ts) ≡ ok steps
    → Steps new (comb_token l ∷ ts) steps
unfolding plan
plan-Steps new l ts h =
    let (st, o, e) =
      bind-eq-ok (plan_loop (relative_token new) plan_start (comb_token l ∷ ts)) _ h in
    let (added, is_steps, same) = plan_loop-Steps new (comb_token l ∷ ts) plan_start tt o in
    subst (Steps new (comb_token l ∷ ts)) (sym same ∙ ap (ok_or []) e) is_steps
