-- ===== src/Scriptlets/PruneXhr/Answer.antt =====
-- What the page is given for a response: the `try` blocks of the listener in
-- jslibs/scriptlets/src/json-prune-xhr-response.ts, and the texts of the headers.
use zen_desktop_localcdn.Common.{
  ℕ, Bool, false, ◌&&◌, ◌||◌, List, [], ◌∷◌, ◌++◌, Option, none, some, ◌==◌, if◌then◌else◌, Text,
  codes, trim, Result, ok, throw, ◌>>=◌, type_error, map,
}
use zen_desktop_localcdn.Scriptlets.Json.{Value}

-- `JSON.parse` and `JSON.stringify`, and UTF-8.
pub record Codec : Type 0 where
  pub parse : Text → Result Value
  pub stringify : Value → Text
  pub decode : List ℕ → Text
  pub encode : Text → List ℕ

-- `responseType`; `text_type` is also the empty text.
pub data ResponseType : Type 0 where
  text_type arraybuffer blob json other_type : ResponseType

-- A value of `response`. `pruned_in_part` is an object that an exception left so.
pub data Body : Type 0 where
  string : Text → Body
  buffer blob_of byte_array : List ℕ → Body
  parsed pruned_in_part : Value → Body
  no_body : Body

-- The substitute request when it is done; `none` is a getter that throws. A document is its identity.
pub record SubsResponse : Type 0 where
  pub response_url : Text
  pub status : ℕ
  pub status_text : Text
  pub response : Body
  pub response_xml : Option (Option ℕ)
  pub response_text : Option Text
  pub headers : Text

-- `newProps`, in the order of its keys; `readyState` is always `DONE`.
pub record NewProps : Type 0 where
  pub url : Text
  pub status_code : ℕ
  pub status_line : Text
  pub body : Body
  pub xml : Option (Option ℕ)
  pub text : Option Text

abbrev pub read_props : SubsResponse → NewProps
read_props r = record {
  url = r.response_url;
  status_code = r.status;
  status_line = r.status_text;
  body = r.response;
  xml = r.response_xml;
  text = r.response_text;
}

-- The bytes of an object; `null` has none.
abbrev bytes_of : Body → Result (List ℕ)
bytes_of (buffer bytes) = ok bytes
bytes_of (blob_of bytes) = ok bytes
bytes_of b = throw type_error

abbrev text_or_throw : Option Text → Result Text
text_or_throw none = throw type_error
text_or_throw (some s) = ok s

-- The text of a value that was parsed and pruned.
abbrev pub pruned_text : Codec → (Value → Result Value) → Text → Result Text
pruned_text codec prune s = codec.parse s >>= λ v. prune v >>= λ w. ok (codec.stringify w)

abbrev set_body : NewProps → (Text → Body) → Result Text → NewProps
set_body props f (throw e) = props
set_body props f (ok s) = record props { body = f s }

abbrev set_text : NewProps → Result Text → NewProps
set_text props (throw e) = props
set_text props (ok s) = record props { body = string s; text = some s }

-- `prune` changes the object in place.
abbrev set_value : NewProps → Value → Result Value → NewProps
set_value props v (throw e) = record props { body = pruned_in_part v }
set_value props v (ok w) = record props { body = parsed w }

abbrev prune_parsed : NewProps → (Value → Result Value) → Body → NewProps
prune_parsed props prune (parsed v) = set_value props v (prune v)
prune_parsed props prune no_body = props
prune_parsed props prune b = props

-- An exception is logged, and the property stays what the substitute has.
unfoldable pub new_props : Codec → (Value → Result Value) → ResponseType → SubsResponse → NewProps
new_props codec prune text_type r =
    set_text (read_props r) (text_or_throw r.response_text >>= pruned_text codec prune)
new_props codec prune arraybuffer r =
    set_body (read_props r) (λ s. byte_array (codec.encode s))
      (bytes_of r.response >>= λ bytes. pruned_text codec prune (codec.decode bytes))
new_props codec prune blob r =
    set_body (read_props r) (λ s. blob_of (codec.encode s))
      (bytes_of r.response >>= λ bytes. pruned_text codec prune (codec.decode bytes))
new_props codec prune json r = prune_parsed (read_props r) prune r.response
new_props codec prune other_type r = read_props r

-- Names and values; a line without colon and space has an undefined value.
abbrev pub Headers : Type 0
Headers = List (Text × Option Text)

abbrev pub is_eol : ℕ → Bool
is_eol c = c == 13 || c == 10

abbrev begins_eol : Text → Bool
begins_eol [] = false
begins_eol (c ∷ s) = is_eol c

abbrev onto_first : ℕ → List Text → List Text
onto_first c [] = (c ∷ []) ∷ []
onto_first c (l ∷ ls) = (c ∷ l) ∷ ls

-- `s.split(/[\r\n]+/)`
unfoldable pub split_lines : Text → List Text
split_lines [] = [] ∷ []
split_lines (c ∷ s) =
    let rest = split_lines s in
    if is_eol c then (if begins_eol s then rest else [] ∷ rest) else onto_first c rest

-- The text in front of the first colon and space, and what follows them.
unfoldable pub cut : Text → Text × Option Text
cut [] = ([], none)
cut (c ∷ []) = (c ∷ [], none)
cut (c ∷ d ∷ s) =
    let rest = cut (d ∷ s) in if c == b':' && d == b' ' then ([], some s) else (c ∷ rest.0, rest.1)

abbrev first_of_rest : Option Text → Option Text
first_of_rest none = none
first_of_rest (some t) = some (cut t).0

-- `const [name, value] = header.split(': ')`
unfoldable pub name_and_value : Text → Text × Option Text
unfolding cut
name_and_value s = ((cut s).0, first_of_rest (cut s).1)

unfoldable pub parse_headers : Text → Headers
unfolding trim split_lines name_and_value
parse_headers s = map name_and_value (split_lines (trim s))

-- `${value}`
abbrev pub shown : Option Text → Text
shown none = codes "undefined"
shown (some v) = v

-- `.map(([name, value]) => `${name}: ${value}`).join('\r\n')`
unfoldable pub header_text : Headers → Text
header_text [] = []
header_text ((n, v) ∷ []) = n ++ codes ": " ++ shown v
header_text ((n, v) ∷ h ∷ hs) = n ++ codes ": " ++ shown v ++ (13 ∷ 10 ∷ header_text (h ∷ hs))
