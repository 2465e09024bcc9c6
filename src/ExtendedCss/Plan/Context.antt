-- ===== src/ExtendedCss/Plan/Context.antt =====
-- The first step of a plan.
use mathlib.Core.Path.{subst}
use zen_desktop_localcdn.Common.{
  Bool, true, false, List, [], ◌∷◌, ◌++◌, Option, none, some, ◌≡◌, ◌≢◌, refl, ap, Text, is_empty,
  codes, trim, text_eq, Result, ok, bind-eq-ok, ok_or, if◌then◌else◌, Bool-cases, inl, inr,
}
use zen_desktop_localcdn.ExtendedCss.PseudoClass.{ExtClass, ext_class, requires_context}
use zen_desktop_localcdn.ExtendedCss.Tokenize.{IrToken, raw_token, comb_token, ext_token}
use zen_desktop_localcdn.ExtendedCss.Step.{Step, raw_query, raw_matches}
use zen_desktop_localcdn.ExtendedCss.Plan.{
  PlanState, NewExt, emit, bridge, emit_bridge, supply_context, emit_class, After, none_follows,
  comb_follows, raw_follows, ext_follows, after, default_token, bridge_to_raw, ends_in_comb,
  plan_loop, plan_start, plan_default, plan, flush_raw, append_css,
}
use zen_desktop_localcdn.ExtendedCss.Plan.Relative.{Steps, plan-Steps}

-- What may stand first: a query, a combinator, or a pseudo-class that wants no context.
pub data MayBeFirst (new : NewExt) (s : Step) : Type 0 where
  query : (q : Text) → s ≡ raw_query q → MayBeFirst new s
  combinator : (l : Text) → bridge l ≡ ok s → MayBeFirst new s
  free :
      (cls : ExtClass) (args : Text)
      → requires_context cls ≡ false
      → new cls args ≡ ok s
      → MayBeFirst new s

abbrev pub StartsWell : NewExt → List Step → Type 0
StartsWell new [] = Unit
StartsWell new (s ∷ rest) = MayBeFirst new s

-- The invariant of the loop: the steps so far start well, and a context means that there is one.
record Inv (new : NewExt) (st : PlanState) : Type 0 where
  starts : StartsWell new st.steps
  context : st.have_context ≡ true → st.steps ≢ []

if-eq_ok :
    {C : Type 0} (b : Bool) {x y : Result PlanState} {m : PlanState}
    → (if b then x else y) ≡ ok m
    → (x ≡ ok m → C)
    → (y ≡ ok m → C)
    → C
if-eq_ok true h f g = f h
if-eq_ok false h f g = g h

module _ (new : NewExt) where
  StartsWell-append :
      (steps : List Step) (s : Step)
      → StartsWell new steps
      → (steps ≡ [] → MayBeFirst new s)
      → StartsWell new (steps ++ (s ∷ []))
  StartsWell-append [] s h k = k refl
  StartsWell-append (x ∷ steps) s h k = h

  append-ne-nil : (steps : List Step) (s : Step) → steps ++ (s ∷ []) ≢ []
  append-ne-nil [] s e = cc
  append-ne-nil (x ∷ steps) s e = cc

  emit-Inv :
      (st : PlanState) (s : Step)
      → Inv new st
      → (st.steps ≡ [] → MayBeFirst new s)
      → Inv new (emit st s)
  emit-Inv st s i k = record {
    starts = StartsWell-append st.steps s i.starts k;
    context = λ _. append-ne-nil st.steps s;
  }

  bridge-Inv :
      (st : PlanState) (l : Text) {m : PlanState} → Inv new st → emit_bridge st l ≡ ok m → Inv new m
  unfolding emit_bridge
  bridge-Inv st l i h =
      let (s, b, e) = bind-eq-ok (bridge l) _ h in
      subst (Inv new) (ap (ok_or st) e) (emit-Inv st s i (λ _. combinator l b))

  flush_raw-Inv : (st : PlanState) → Inv new st → Inv new (flush_raw st)
  unfolding flush_raw
  flush_raw-Inv st i = elim (Bool-cases (is_empty (trim st.css_builder))) [
    | inl e ↦ rw e (record { starts = i.starts; context = i.context })
    | inr n ↦
        let j = emit-Inv st (raw_query (trim st.css_builder)) i (λ _. query _ refl) in
        rw n (record { starts = j.starts; context = j.context })
  ]

  -- With a context there is a step; without one, `*` is queried first if the class wants it.
  class-Inv :
      (st : PlanState) (cls : ExtClass) (args : Text) (s : Step)
      → Inv new st
      → new cls args ≡ ok s
      → Inv new (emit (supply_context cls st) s)
  unfolding supply_context
  class-Inv st cls args s i n = elim (Bool-cases (requires_context cls)) [
    | inr r ↦ rw r (emit-Inv st s i (λ _. free cls args r n))
    | inl r ↦ elim (Bool-cases st.have_context) [
      | inl c ↦ rw (r, c) (emit-Inv st s i (λ e. absurd (i.context c e)))
      | inr c ↦
          let q = raw_query (codes "*") in
          let j = emit-Inv st q i (λ _. query _ refl) in
          rw (r, c) (emit-Inv (emit st q) s j (λ e. absurd (append-ne-nil st.steps q e)))
    ]
  ]

  emit_class-Inv :
      (st : PlanState) (o : Option ExtClass) (args : Text) {m : PlanState}
      → Inv new st
      → emit_class new st o args ≡ ok m
      → Inv new m
  emit_class-Inv st none args i h = cc
  emit_class-Inv st (some cls) args i h =
      let (s, n, e) = bind-eq-ok (new cls args) _ h in
      subst (Inv new) (ap (ok_or st) e) (class-Inv st cls args s i n)

  append_css-Inv : (st : PlanState) (l : Text) → Inv new st → Inv new (append_css st l)
  append_css-Inv st l i = record { starts = i.starts; context = i.context }

  bridge_to_raw-Inv :
      (st : PlanState) (l : Text) {m : PlanState}
      → Inv new st
      → bridge_to_raw st l ≡ ok m
      → Inv new m
  unfolding bridge_to_raw
  bridge_to_raw-Inv st l i h =
      if-eq_ok (text_eq l (codes " ")) h (λ e. subst (Inv new) (ap (ok_or st) e) i)
        (λ h'.
          if-eq_ok (text_eq l (codes ">")) h'
            (λ e. subst (Inv new) (ap (ok_or st) e) (append_css-Inv st (codes ":scope" ++ l) i))
            (λ e. bridge-Inv st l i e))

  ends_in_comb-ne-nil : (steps : List Step) → ends_in_comb steps ≡ true → steps ≢ []
  unfolding ends_in_comb
  ends_in_comb-ne-nil [] h e = cc
  ends_in_comb-ne-nil (s ∷ steps) h e = cc

  matches-Inv :
      (st : PlanState) (l : Text)
      → Inv new st
      → ends_in_comb st.steps ≡ true
      → Inv new (record st { steps = st.steps ++ (raw_matches l ∷ []) })
  matches-Inv st l i c = record {
    starts =
        StartsWell-append st.steps (raw_matches l) i.starts
          (λ e. absurd (ends_in_comb-ne-nil st.steps c e));
    context = λ _. append-ne-nil st.steps (raw_matches l);
  }

  default_token-Inv :
      (st : PlanState) (t : IrToken) (next : After) {m : PlanState}
      → Inv new st
      → default_token new st t next ≡ ok m
      → Inv new m
  unfolding default_token
  default_token-Inv st (raw_token l) next i h = elim (Bool-cases (ends_in_comb st.steps)) [
    | inl c ↦ subst (Inv new) (ap (ok_or st) (rw c at h)) (matches-Inv st l i c)
    | inr c ↦ subst (Inv new) (ap (ok_or st) (rw c at h)) (append_css-Inv st l i)
  ]
  default_token-Inv st (ext_token n a) next i h =
      emit_class-Inv (flush_raw st) (ext_class n) a (flush_raw-Inv st i) h
  default_token-Inv st (comb_token l) none_follows i h = cc
  default_token-Inv st (comb_token l) comb_follows i h = cc
  default_token-Inv st (comb_token l) ext_follows i h =
      bridge-Inv (flush_raw st) l (flush_raw-Inv st i) h
  default_token-Inv st (comb_token l) raw_follows i h =
      elim (Bool-cases (is_empty st.css_builder)) [
        | inl c ↦ bridge_to_raw-Inv st l i (rw c at h)
        | inr c ↦ subst (Inv new) (ap (ok_or st) (rw c at h)) (append_css-Inv st l i)
      ]

  plan_loop-Inv :
      (ts : List IrToken) (st : PlanState) {st' : PlanState}
      → Inv new st
      → plan_loop (default_token new) st ts ≡ ok st'
      → Inv new st'
  unfolding plan_loop
  plan_loop-Inv [] st i h = subst (Inv new) (ap (ok_or st) h) i
  plan_loop-Inv (t ∷ ts) st i h =
      let (m, o, h') = bind-eq-ok (default_token new st t (after ts)) _ h in
      plan_loop-Inv ts m (default_token-Inv st t (after ts) i o) h'

  plan_default-StartsWell :
      (ts : List IrToken) {steps : List Step}
      → plan_default new ts ≡ ok steps
      → StartsWell new steps
  unfolding plan_default
  plan_default-StartsWell ts h =
      let (st, o, e) = bind-eq-ok (plan_loop (default_token new) plan_start ts) _ h in
      let i = plan_loop-Inv ts plan_start (record { starts = tt; context = λ c. cc }) o in
      subst (StartsWell new) (ap (ok_or []) e) (flush_raw-Inv st i).starts

  Steps-StartsWell :
      (l : Text) (ts : List IrToken) (steps : List Step)
      → Steps new (comb_token l ∷ ts) steps
      → StartsWell new steps
  Steps-StartsWell l ts [] h = tt
  Steps-StartsWell l ts (s ∷ steps) h = combinator l h.0

-- A plan begins with a query, with a combinator, or with a pseudo-class that wants no context: the
-- steps of all other pseudo-classes, and the tests of raw CSS, have a step in front of them.
pub plan-StartsWell :
    (new : NewExt) (ts : List IrToken) {steps : List Step}
    → plan new ts ≡ ok steps
    → StartsWell new steps
unfolding plan
plan-StartsWell new [] h = subst (StartsWell new) (ap (ok_or []) h) tt
plan-StartsWell new (comb_token l ∷ ts) {steps} h =
    Steps-StartsWell new l ts steps (plan-Steps new l ts h)
plan-StartsWell new (raw_token l ∷ ts) h = plan_default-StartsWell new (raw_token l ∷ ts) h
plan-StartsWell new (ext_token n a ∷ ts) h = plan_default-StartsWell new (ext_token n a ∷ ts) h
