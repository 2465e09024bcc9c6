-- ===== src/ExtendedCss/Plan/WellFormed.antt =====
-- Which token lists the planner accepts.
use zen_desktop_localcdn.Common.{
  Bool, true, false, ◌&&◌, List, [], ◌∷◌, Option, none, some, ◌≡◌, refl, ◌∙◌, arith, Text, is_empty,
  Result, ok, throw, ◌>>=◌, bind-eq-ok, is_ok, if◌then◌else◌, sym, text_eq, codes,
}
use zen_desktop_localcdn.ExtendedCss.PseudoClass.{ExtClass, ext_class}
use zen_desktop_localcdn.ExtendedCss.Tokenize.{IrToken, raw_token, comb_token, ext_token}
use zen_desktop_localcdn.ExtendedCss.Step.{Step}
use zen_desktop_localcdn.ExtendedCss.Plan.{
  PlanState, NewExt, bridge, emit_bridge, After, none_follows, comb_follows, raw_follows,
  ext_follows, after, relative_token, default_token, plan_loop, plan_start, plan_relative,
  plan_default, plan, bridge_to_raw, emit_class, emit, supply_context, flush_raw,
}

abbrev pub is_operand : After → Bool
is_operand raw_follows = true
is_operand ext_follows = true
is_operand _ = false

-- Behind every combinator stands a token that is none.
abbrev pub combs_followed : List IrToken → Bool
combs_followed [] = true
combs_followed (comb_token l ∷ ts) = is_operand (after ts) && combs_followed ts
combs_followed (t ∷ ts) = combs_followed ts

abbrev Loop : Type 0
Loop = PlanState → IrToken → After → Result PlanState

-- A loop throws at a combinator that no operand follows.
abbrev ChecksCombs : Loop → Type 0
ChecksCombs one =
    (st m : PlanState) (l : Text) (next : After)
    → one st (comb_token l) next ≡ ok m
    → is_operand next ≡ true

relative_token-ChecksCombs : (new : NewExt) → ChecksCombs (relative_token new)
unfolding relative_token
relative_token-ChecksCombs new st m l none_follows h = cc
relative_token-ChecksCombs new st m l comb_follows h = cc
relative_token-ChecksCombs new st m l raw_follows h = refl
relative_token-ChecksCombs new st m l ext_follows h = refl

default_token-ChecksCombs : (new : NewExt) → ChecksCombs (default_token new)
unfolding default_token
default_token-ChecksCombs new st m l none_follows h = cc
default_token-ChecksCombs new st m l comb_follows h = cc
default_token-ChecksCombs new st m l raw_follows h = refl
default_token-ChecksCombs new st m l ext_follows h = refl

plan_loop-combs_followed :
    (one : Loop)
    → ChecksCombs one
    → (ts : List IrToken) (st : PlanState) {st' : PlanState} → plan_loop one st ts ≡ ok st'
    → combs_followed ts ≡ true
unfolding plan_loop
plan_loop-combs_followed one c [] st h = refl
plan_loop-combs_followed one c (raw_token l ∷ ts) st h =
    let (m, o, h') = bind-eq-ok (one st (raw_token l) (after ts)) _ h in
    plan_loop-combs_followed one c ts m h'
plan_loop-combs_followed one c (ext_token n a ∷ ts) st h =
    let (m, o, h') = bind-eq-ok (one st (ext_token n a) (after ts)) _ h in
    plan_loop-combs_followed one c ts m h'
plan_loop-combs_followed one c (comb_token l ∷ ts) st h =
    let (m, o, h') = bind-eq-ok (one st (comb_token l) (after ts)) _ h in
    rw (c st m l (after ts) o) (plan_loop-combs_followed one c ts m h')

plan_relative-combs_followed :
    (new : NewExt) (ts : List IrToken) {steps : List Step}
    → plan_relative new ts ≡ ok steps
    → combs_followed ts ≡ true
unfolding plan_relative
plan_relative-combs_followed new ts h =
    let (st, l, e) = bind-eq-ok (plan_loop (relative_token new) plan_start ts) _ h in
    plan_loop-combs_followed (relative_token new) (relative_token-ChecksCombs new) ts plan_start l

plan_default-combs_followed :
    (new : NewExt) (ts : List IrToken) {steps : List Step}
    → plan_default new ts ≡ ok steps
    → combs_followed ts ≡ true
unfolding plan_default
plan_default-combs_followed new ts h =
    let (st, l, e) = bind-eq-ok (plan_loop (default_token new) plan_start ts) _ h in
    plan_loop-combs_followed (default_token new) (default_token-ChecksCombs new) ts plan_start l

-- Only a list in which an operand stands behind every combinator is planned.
plan→combs_followed :
    (new : NewExt) (ts : List IrToken) {steps : List Step}
    → plan new ts ≡ ok steps
    → combs_followed ts ≡ true
unfolding plan
plan→combs_followed new [] h = refl
plan→combs_followed new (comb_token l ∷ ts) h =
    plan_relative-combs_followed new (comb_token l ∷ ts) h
plan→combs_followed new (raw_token l ∷ ts) h = plan_default-combs_followed new (raw_token l ∷ ts) h
plan→combs_followed new (ext_token n a ∷ ts) h =
    plan_default-combs_followed new (ext_token n a ∷ ts) h

-- The parts of a list are known: the combinators, and the pseudo-classes with their arguments.
abbrev class_builds : NewExt → Option ExtClass → Text → Bool
class_builds new none args = false
class_builds new (some cls) args = is_ok (new cls args)

abbrev pub is_known : NewExt → IrToken → Bool
is_known new (raw_token l) = true
is_known new (comb_token l) = is_ok (bridge l)
is_known new (ext_token name args) = class_builds new (ext_class name) args

abbrev pub all_known : NewExt → List IrToken → Bool
all_known new [] = true
all_known new (t ∷ ts) = is_known new t && all_known new ts

built-is_ok :
    (r : Result Step) (k : Step → PlanState) → is_ok r ≡ true → is_ok (r >>= λ s. ok (k s)) ≡ true
built-is_ok (ok s) k h = refl
built-is_ok (throw e) k h = cc

emit_class-is_ok :
    (new : NewExt) (st : PlanState) (o : Option ExtClass) (args : Text)
    → class_builds new o args ≡ true
    → is_ok (emit_class new st o args) ≡ true
emit_class-is_ok new st none args h = cc
emit_class-is_ok new st (some cls) args h =
    built-is_ok (new cls args) (λ s. emit (supply_context cls st) s) h

emit_bridge-is_ok :
    (st : PlanState) (l : Text) → is_ok (bridge l) ≡ true → is_ok (emit_bridge st l) ≡ true
unfolding emit_bridge
emit_bridge-is_ok st l h = built-is_ok (bridge l) (emit st) h

if-is_ok :
    (b : Bool) (x y : Result PlanState)
    → is_ok x ≡ true
    → is_ok y ≡ true
    → is_ok (if b then x else y) ≡ true
if-is_ok true x y h k = h
if-is_ok false x y h k = k

bridge_to_raw-is_ok :
    (st : PlanState) (l : Text) → is_ok (bridge l) ≡ true → is_ok (bridge_to_raw st l) ≡ true
unfolding bridge_to_raw
bridge_to_raw-is_ok st l h =
    if-is_ok (text_eq l (codes " ")) _ _ refl
      (if-is_ok (text_eq l (codes ">")) _ _ refl (emit_bridge-is_ok st l h))

-- A loop goes on at every known token behind which what must follow does.
abbrev may_follow : IrToken → After → Bool
may_follow (comb_token l) next = is_operand next
may_follow t next = true

abbrev Progresses : NewExt → Loop → Type 0
Progresses new one =
    (st : PlanState) (t : IrToken) (next : After)
    → is_known new t ≡ true
    → may_follow t next ≡ true
    → is_ok (one st t next) ≡ true

relative_token-Progresses : (new : NewExt) → Progresses new (relative_token new)
unfolding relative_token
relative_token-Progresses new st (raw_token l) next k f = refl
relative_token-Progresses new st (ext_token n a) next k f =
    emit_class-is_ok new st (ext_class n) a k
relative_token-Progresses new st (comb_token l) none_follows k f = cc
relative_token-Progresses new st (comb_token l) comb_follows k f = cc
relative_token-Progresses new st (comb_token l) raw_follows k f = emit_bridge-is_ok st l k
relative_token-Progresses new st (comb_token l) ext_follows k f = emit_bridge-is_ok st l k

default_token-Progresses : (new : NewExt) → Progresses new (default_token new)
unfolding default_token
default_token-Progresses new st (raw_token l) next k f = refl
default_token-Progresses new st (ext_token n a) next k f =
    emit_class-is_ok new (flush_raw st) (ext_class n) a k
default_token-Progresses new st (comb_token l) none_follows k f = cc
default_token-Progresses new st (comb_token l) comb_follows k f = cc
default_token-Progresses new st (comb_token l) raw_follows k f =
    if-is_ok (is_empty st.css_builder) _ _ (bridge_to_raw-is_ok st l k) refl
default_token-Progresses new st (comb_token l) ext_follows k f =
    emit_bridge-is_ok (flush_raw st) l k

&&-eq-true : {a b : Bool} → (a && b) ≡ true → (a ≡ true) × (b ≡ true)
&&-eq-true {a} {b} h = ground arith

go_on :
    {A : Type 0} (r : Result PlanState) (k : PlanState → Result A)
    → is_ok r ≡ true
    → ((m : PlanState) → is_ok (k m) ≡ true)
    → is_ok (r >>= k) ≡ true
go_on (ok m) k h later = later m
go_on (throw e) k h later = cc

combs_followed-cons :
    (t : IrToken) (ts : List IrToken)
    → combs_followed (t ∷ ts) ≡ (may_follow t (after ts) && combs_followed ts)
combs_followed-cons (comb_token l) ts = refl
combs_followed-cons (raw_token l) ts = refl
combs_followed-cons (ext_token n a) ts = refl

plan_loop-is_ok :
    (new : NewExt) (one : Loop)
    → Progresses new one
    → (ts : List IrToken) (st : PlanState) → combs_followed ts ≡ true
    → all_known new ts ≡ true
    → is_ok (plan_loop one st ts) ≡ true
unfolding plan_loop
plan_loop-is_ok new one p [] st c k = refl
plan_loop-is_ok new one p (t ∷ ts) st c k =
    let (follows, c') = &&-eq-true (sym (combs_followed-cons t ts) ∙ c) in
    let (known, k') = &&-eq-true k in
    go_on (one st t (after ts)) _ (p st t (after ts) known follows)
      (λ m. plan_loop-is_ok new one p ts m c' k')

combs_followed→plan :
    (new : NewExt) (ts : List IrToken)
    → combs_followed ts ≡ true
    → all_known new ts ≡ true
    → is_ok (plan new ts) ≡ true
unfolding plan
combs_followed→plan new [] c k = refl
combs_followed→plan new (comb_token l ∷ ts) c k =
    go_on (plan_loop (relative_token new) plan_start (comb_token l ∷ ts)) _
      (plan_loop-is_ok new (relative_token new) (relative_token-Progresses new) (comb_token l ∷ ts)
        plan_start c k)
      (λ m. refl)
combs_followed→plan new (raw_token l ∷ ts) c k =
    go_on (plan_loop (default_token new) plan_start (raw_token l ∷ ts)) _
      (plan_loop-is_ok new (default_token new) (default_token-Progresses new) (raw_token l ∷ ts)
        plan_start c k)
      (λ m. refl)
combs_followed→plan new (ext_token n a ∷ ts) c k =
    go_on (plan_loop (default_token new) plan_start (ext_token n a ∷ ts)) _
      (plan_loop-is_ok new (default_token new) (default_token-Progresses new) (ext_token n a ∷ ts)
        plan_start c k)
      (λ m. refl)

-- The planner returns only if an operand stands behind every combinator; and if that is so, and
-- every combinator and pseudo-class is known and every argument is accepted, it returns.
pub plan_accepts :
    (new : NewExt) (ts : List IrToken)
    → ((steps : List Step) → plan new ts ≡ ok steps → combs_followed ts ≡ true)
      × (combs_followed ts ≡ true → all_known new ts ≡ true → is_ok (plan new ts) ≡ true)
plan_accepts new ts = (λ steps h. plan→combs_followed new ts h, combs_followed→plan new ts)
