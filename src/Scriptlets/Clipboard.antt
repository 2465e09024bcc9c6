-- ===== src/Scriptlets/Clipboard.antt =====
-- jslibs/scriptlets/src/sanitize-clipboard.ts: the query parameters that are taken out of a copied
-- address.
pub mod Pairs
pub mod Cleaned
use zen_desktop_localcdn.Common.{
  ℕ, Bool, true, false, not, ◌&&◌, ◌||◌, List, [], ◌∷◌, Option, none, some, ◌==◌, if◌then◌else◌,
  Text, codes, text_eq, is_empty, split, slice, map,
}
use zen_desktop_localcdn.Regexp.{RegExp, Regexps, test_at, parse_regexp_literal}

-- A `URL`: the pairs of its `searchParams`, and the rest of it.
pub record Url : Type 0 where
  pub query : List (Text × Text)
  pub rest : Text

-- `new URL`, with `none` for a throw, and `toString`.
pub record Urls : Type 0 where
  pub read : Text → Option Url
  pub write : Url → Text

-- `string | RegExp`; the object of an expression with its `lastIndex`.
pub data Param : Type 0 where
  named : Text → Param
  matching : RegExp → ℕ → Param

abbrev pub names_key : Regexps → Param → Text → Bool
names_key rx (named name) key = text_eq name key
names_key rx (matching re i) key = rx.test re key

-- `searchParams.has` and `searchParams.delete`
unfoldable pub has_param : Text → List (Text × Text) → Bool
unfolding text_eq
has_param name [] = false
has_param name ((k, v) ∷ q) = if text_eq name k then true else has_param name q

unfoldable pub delete_param : Text → List (Text × Text) → List (Text × Text)
unfolding text_eq
delete_param name [] = []
delete_param name ((k, v) ∷ q) =
    let rest = delete_param name q in if text_eq name k then rest else (k, v) ∷ rest

-- The variables of the loop.
pub record Cleaning : Type 0 where
  pub pairs : List (Text × Text)
  pub modified : Bool

abbrev pub delete_from : Text → Cleaning → Cleaning
delete_from name c = record { pairs = delete_param name c.pairs; modified = true }

-- The loop over `Array.from(keys())`, a copy of the keys, with the `lastIndex` of the expression.
unfoldable pub delete_matching : Regexps → RegExp → ℕ → List (Text × Text) → Cleaning → Cleaning × ℕ
unfolding delete_param
delete_matching rx re i [] c = (c, i)
delete_matching rx re i ((k, v) ∷ keys) c =
    let t = test_at rx re i k in
    delete_matching rx re t.last_index keys (if t.holds then delete_from k c else c)

abbrev pub with_index : RegExp → Cleaning × ℕ → Cleaning × Param
with_index re (c, i) = (c, matching re i)

abbrev pub clean_one : Regexps → Param → Cleaning → Cleaning × Param
clean_one rx (named name) c = (if has_param name c.pairs then delete_from name c else c, named name)
clean_one rx (matching re i) c = with_index re (delete_matching rx re i c.pairs c)

-- The loop over the parameters, whose objects are the same in every call of `cleanURL`.
unfoldable pub clean_all : Regexps → List Param → Cleaning → Cleaning × List Param
unfolding has_param delete_matching
clean_all rx [] c = (c, [])
clean_all rx (p ∷ ps) c =
    let one = clean_one rx p c in let rest = clean_all rx ps one.0 in (rest.0, one.1 ∷ rest.1)

abbrev pub written_back : Urls → Text → Text → Cleaning → Text
written_back urls raw rest c =
    if c.modified then urls.write (record { query = c.pairs; rest = rest }) else raw

abbrev pub clean_read : Regexps → Urls → Text → List Param → Option Url → Text × List Param
clean_read rx urls raw params none = (raw, params)
clean_read rx urls raw params (some u) =
    let r = clean_all rx params (record { pairs = u.query; modified = false }) in
    (written_back urls raw u.rest r.0, r.1)

-- What `cleanURL` returns, and the parameters behind it.
unfoldable pub clean_url : Regexps → Urls → Text → List Param → Text × List Param
unfolding clean_all
clean_url rx urls raw params = clean_read rx urls raw params (urls.read raw)

abbrev param_of : Text → Option RegExp → Param
param_of s none = named s
param_of s (some re) = matching re 0

-- `params.split(' ').map((p) => parseRegexpLiteral(p) || p)`
unfoldable pub parse_params : Regexps → Text → List Param
unfolding split parse_regexp_literal
parse_params rx s = map (λ p. param_of p (parse_regexp_literal rx p)) (split s b' ')

-- What `writeText` is called with: a text, or another value by its `String`.
pub data Payload : Type 0 where
  text other : Text → Payload

abbrev text_unless_same : Text → Text × List Param → Payload × List Param
text_unless_same s (t, params) = (if text_eq t s then text s else text t, params)

-- The proxy of `writeText` passes its arguments on, or another text.
unfoldable pub write_text_proxy : Regexps → Urls → List Param → Payload → Payload × List Param
unfolding clean_url text_eq
write_text_proxy rx urls params (text s) = text_unless_same s (clean_url rx urls s params)
write_text_proxy rx urls params (other s) = let r = clean_url rx urls s params in (text r.0, r.1)

-- The active element: whether it is an `INPUT` or a `TEXTAREA`, its text, and its selection.
pub record Field : Type 0 where
  pub is_text_field : Bool
  pub value : Text
  pub selection_start : Option ℕ
  pub selection_end : Option ℕ

abbrev selected_part : Text → Option ℕ → Option ℕ → Text
selected_part value (some i) (some j) = if i == j then [] else slice value i j
selected_part value _ _ = []

abbrev field_text : Option Field → Text
field_text none = []
field_text (some f) =
    if f.is_text_field then selected_part f.value f.selection_start f.selection_end else []

-- What is copied: the text that is selected in the page, or that in the active field.
unfoldable pub copied_text : Text → Option Field → Text
unfolding slice
copied_text selection field = if is_empty selection then field_text field else selection

abbrev changed : Text → Text × List Param → Option Text × List Param
changed s (t, params) = (if text_eq t s then none else some t, params)

-- `legacyHandler`: the text that it puts in place of what is copied, if any. The event has a clipboard.
unfoldable pub legacy_handler :
    Regexps → Urls → List Param → Text → Option Field → Option Text × List Param
unfolding clean_url copied_text text_eq
legacy_handler rx urls params selection field =
    let s = copied_text selection field in
    if is_empty s then (none, params) else changed s (clean_url rx urls s params)
