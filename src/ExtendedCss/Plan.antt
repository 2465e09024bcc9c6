-- ===== src/ExtendedCss/Plan.antt =====
-- jslibs/extended-css/src/parse/selectorList/plan.ts: from tokens to steps. `new` builds the step of
-- an extended pseudo-class from its argument; ExtendedCss/Parse.antt supplies it.
pub mod WellFormed
pub mod Relative
pub mod Native
pub mod Context
use zen_desktop_localcdn.Common.{
  Bool, true, false, not, ◌&&◌, ◌||◌, List, [], ◌∷◌, ◌++◌, Option, none, some, if◌then◌else◌, Text,
  is_empty, codes, text_eq, trim, Result, ok, throw, ◌>>=◌, dangling_combinator,
  multiple_combinators, unknown_combinator, unknown_pseudo_class,
}
use zen_desktop_localcdn.ExtendedCss.PseudoClass.{ExtClass, ext_class, requires_context}
use zen_desktop_localcdn.ExtendedCss.Tokenize.{IrToken, raw_token, comb_token, ext_token}
use zen_desktop_localcdn.ExtendedCss.Step.{
  Step, raw_query, raw_matches, child, descendant, next_sibling, subsequent_sibling,
}

-- The variables `steps`, `haveContextualStep` and `cssBuilder`.
pub record PlanState : Type 0 where
  pub steps : List Step
  pub have_context : Bool
  pub css_builder : Text

abbrev pub NewExt : Type 0
NewExt = ExtClass → Text → Result Step

abbrev pub emit : PlanState → Step → PlanState
emit st s = record st { steps = st.steps ++ (s ∷ []); have_context = true }

abbrev pub append_css : PlanState → Text → PlanState
append_css st s = record st { css_builder = st.css_builder ++ s }

unfoldable pub bridge : Text → Result Step
unfolding text_eq
bridge literal =
    if text_eq literal (codes " ")
    then ok descendant
    else if text_eq literal (codes "+")
    then ok next_sibling
    else if text_eq literal (codes "~")
    then ok subsequent_sibling
    else if text_eq literal (codes ">")
    then ok child
    else throw unknown_combinator

unfoldable pub emit_bridge : PlanState → Text → Result PlanState
unfolding bridge
emit_bridge st literal = bridge literal >>= λ s. ok (emit st s)

-- `steps.push(new RawQuery('*'))` if the class wants a context and there is none.
unfoldable pub supply_context : ExtClass → PlanState → PlanState
unfolding requires_context
supply_context cls st =
    if requires_context cls && not st.have_context then emit st (raw_query (codes "*")) else st

abbrev pub emit_class : NewExt → PlanState → Option ExtClass → Text → Result PlanState
emit_class new st none args = throw unknown_pseudo_class
emit_class new st (some cls) args = new cls args >>= λ s. ok (emit (supply_context cls st) s)

unfoldable pub emit_ext : NewExt → PlanState → Text → Text → Result PlanState
unfolding ext_class supply_context
emit_ext new st name args = emit_class new st (ext_class name) args

unfoldable pub flush_raw : PlanState → PlanState
unfolding trim
flush_raw st =
    let raw = trim st.css_builder in
    let kept = if is_empty raw then st else emit st (raw_query raw) in
    record kept { css_builder = [] }

-- The test that both loops make of the token behind a combinator.
pub data After : Type 0 where
  none_follows comb_follows raw_follows ext_follows : After

abbrev pub after : List IrToken → After
after [] = none_follows
after (comb_token l ∷ ts) = comb_follows
after (raw_token l ∷ ts) = raw_follows
after (ext_token n a ∷ ts) = ext_follows

-- A combinator in the loop for relative selectors.
unfoldable pub relative_comb : After → PlanState → Text → Result PlanState
unfolding emit_bridge
relative_comb none_follows st literal = throw dangling_combinator
relative_comb comb_follows st literal = throw multiple_combinators
relative_comb _ st literal = emit_bridge st literal

unfoldable pub relative_token : NewExt → PlanState → IrToken → After → Result PlanState
unfolding relative_comb emit_ext
relative_token new st (comb_token literal) next = relative_comb next st literal
relative_token new st (raw_token literal) next = ok (emit st (raw_matches literal))
relative_token new st (ext_token name args) next = emit_ext new st name args

-- `prevStep instanceof Child || …`, at the last step.
unfoldable pub ends_in_comb : List Step → Bool
ends_in_comb [] = false
ends_in_comb (child ∷ []) = true
ends_in_comb (descendant ∷ []) = true
ends_in_comb (next_sibling ∷ []) = true
ends_in_comb (subsequent_sibling ∷ []) = true
ends_in_comb (s ∷ rest) = ends_in_comb rest

-- A combinator in front of a raw token, with no CSS collected before it.
unfoldable pub bridge_to_raw : PlanState → Text → Result PlanState
unfolding emit_bridge text_eq
bridge_to_raw st literal =
    if text_eq literal (codes " ")
    then ok st
    else if text_eq literal (codes ">")
    then ok (append_css st (codes ":scope" ++ literal))
    else emit_bridge st literal

-- A combinator in the default loop.
unfoldable pub default_comb : After → PlanState → Text → Result PlanState
unfolding emit_bridge bridge_to_raw flush_raw
default_comb none_follows st literal = throw dangling_combinator
default_comb comb_follows st literal = throw multiple_combinators
default_comb raw_follows st literal =
    if is_empty st.css_builder then bridge_to_raw st literal else ok (append_css st literal)
default_comb ext_follows st literal = emit_bridge (flush_raw st) literal

unfoldable pub default_token : NewExt → PlanState → IrToken → After → Result PlanState
unfolding default_comb emit_ext flush_raw ends_in_comb
default_token new st (raw_token literal) next = ok (
    if ends_in_comb st.steps
    then record st { steps = st.steps ++ (raw_matches literal ∷ []) }
    else append_css st literal)
default_token new st (comb_token literal) next = default_comb next st literal
default_token new st (ext_token name args) next = emit_ext new (flush_raw st) name args

-- Each of the two loops.
unfoldable pub plan_loop :
    (PlanState → IrToken → After → Result PlanState) → PlanState → List IrToken → Result PlanState
plan_loop one st [] = ok st
plan_loop one st (t ∷ ts) = one st t (after ts) >>= λ st'. plan_loop one st' ts

abbrev pub plan_start : PlanState
plan_start = record { steps = []; have_context = false; css_builder = [] }

unfoldable pub plan_relative : NewExt → List IrToken → Result (List Step)
unfolding plan_loop relative_token
plan_relative new ts = plan_loop (relative_token new) plan_start ts >>= λ st. ok st.steps

unfoldable pub plan_default : NewExt → List IrToken → Result (List Step)
unfolding plan_loop default_token flush_raw
plan_default new ts = plan_loop (default_token new) plan_start ts >>= λ st. ok (flush_raw st).steps

unfoldable pub plan : NewExt → List IrToken → Result (List Step)
unfolding plan_relative plan_default
plan new [] = ok []
plan new (comb_token literal ∷ ts) = plan_relative new (comb_token literal ∷ ts)
plan new (t ∷ ts) = plan_default new (t ∷ ts)
