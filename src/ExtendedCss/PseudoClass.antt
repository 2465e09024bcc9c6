-- ===== src/ExtendedCss/PseudoClass.antt =====
-- jslibs/extended-css/src/parse/extendedPseudoClasses/index.ts: the names of the extended
-- pseudo-classes, and the static field `requiresContext` of their classes.
use zen_desktop_localcdn.Common.{
  Bool, true, false, List, [], ◌∷◌, Option, none, some, if◌then◌else◌, Text, codes, text_eq,
}

-- What a property of the object `extPseudoClasses` can hold. The names are lowered before they are
-- looked up, and two lowered names are found in its prototype: `constructor` is the function
-- `Object`, and `__proto__` the prototype itself.
pub data ExtClass : Type 0 where
  contains has matches_css matches_path matches_attr min_text_length upward is not : ExtClass
  object object_prototype : ExtClass

abbrev ext_pseudo_classes : List (Text × ExtClass)
ext_pseudo_classes =
    (codes "-abp-contains", contains)
    ∷ (codes "has-text", contains)
    ∷ (codes "contains", contains)
    ∷ (codes "-abp-has", has)
    ∷ (codes "has", has)
    ∷ (codes "matches-css", matches_css)
    ∷ (codes "matches-path", matches_path)
    ∷ (codes "matches-attr", matches_attr)
    ∷ (codes "min-text-length", min_text_length)
    ∷ (codes "upward", upward)
    ∷ (codes "is", is)
    ∷ (codes "not", not)
    ∷ (codes "constructor", object)
    ∷ (codes "__proto__", object_prototype)
    ∷ []

find_class : Text → List (Text × ExtClass) → Option ExtClass
find_class name [] = none
find_class name ((key, cls) ∷ rest) = if text_eq name key then some cls else find_class name rest

-- `extPseudoClasses[name]`; `none` is undefined.
unfoldable pub ext_class : Text → Option ExtClass
unfolding find_class text_eq
ext_class name = find_class name ext_pseudo_classes

-- `name in extPseudoClasses`
abbrev pub is_some {ℓ} : {A : Type ℓ} → Option A → Bool
is_some none = false
is_some (some a) = true

unfoldable pub in_ext : Text → Bool
unfolding ext_class
in_ext name = is_some (ext_class name)

-- `extClass.requiresContext`
unfoldable pub requires_context : ExtClass → Bool
requires_context matches_path = false
requires_context object = false
requires_context object_prototype = false
requires_context _ = true
