-- ===== src/Tools/OpenApi.antt =====
-- app/tools/openapi_adapter.py. `get` of a value that is no dict is an AttributeError, here `none`.
-- `show` stands for `str` on a JSON value, `urljoin` for the function of that name, `send` for the
-- HTTP client: the JSON of the response, or the text of its exception, which is no TypeError. A text
-- in a place where the code wants a text may be missing, but is no other JSON value.
pub mod Explore
pub mod Calls
pub mod Discovered
use Prim.Native.Char.{Char, code}
use Prim.Native.String
use fastapi_langgraph_templa.Common.{
  ℕ, zero, suc, String, str_eq, str_append, List, [], ◌∷◌, ◌++◌, map, Option, none, some, Bool,
  true, false, ◌&&◌, ◌||◌, ◌==◌, leb, not, any, is_none, if◌then◌else◌,
}
use fastapi_langgraph_templa.Common.Chars.{chars, of_chars}
use fastapi_langgraph_templa.Common.Dict.{lookup, put}
use fastapi_langgraph_templa.Json.{
  Json, Items, Fields, null, bool, num, text, arr, obj, nil, cons, end, field,
}
use fastapi_langgraph_templa.Events.Redact.{codes, lower_code, same_codes}
use fastapi_langgraph_templa.Graph.Validator.{get_field}
use fastapi_langgraph_templa.Tools.{
  ToolDef, ToolRisk, read, write, openapi, ToolRegistry, Called, value, other_error, register,
  register_callable,
}

-- `method.lower() == word`
unfoldable pub is_method : String → String → Bool
unfolding same_codes lower_code
is_method word method = same_codes (map lower_code (codes method)) (codes word)

-- `method.lower() in _METHODS`
abbrev pub is_http_method : String → Bool
is_http_method method =
    any (λ word. is_method word method) ("get" ∷ "post" ∷ "put" ∷ "patch" ∷ "delete" ∷ [])

pub record Operation : Type 0 where
  pub method : String
  pub path : String
  pub parameters : Items
  pub has_body : Bool

pub record Adapter : Type 0 where
  pub url : String
  pub headers : List (String × Json)
  pub tools : List (String × ToolDef)
  pub operations : List (String × Operation)
  pub base_url : String

-- Python's truth of a value
abbrev pub is_truthy : Option Json → Bool
is_truthy none = false
is_truthy (some null) = false
is_truthy (some (bool b)) = b
is_truthy (some (num n)) = not (n == 0)
is_truthy (some (text s)) = not (str_eq s "")
is_truthy (some (arr nil)) = false
is_truthy (some (arr (cons _ _))) = true
is_truthy (some (obj end)) = false
is_truthy (some (obj (field _ _ _))) = true

abbrev pub text_in : String → Fields → Option String
text_in key fs = elim (get_field key fs) [ some (text s) ↦ some s | _ ↦ none ]

-- `a.get(key) or rest`
abbrev pub or_text_in : String → Fields → String → String
or_text_in key fs rest = elim (text_in key fs) [
  | none ↦ rest
  | some s ↦ if str_eq s "" then rest else s
]

abbrev pub or_field : String → Json → Fields → Json
or_field key default fs = elim (get_field key fs) [ none ↦ default | some v ↦ v ]

-- the schema so far: the properties, and the names that are required
pub record Inputs : Type 0 where
  pub properties : List (String × Json)
  pub required : List String

-- `if not name: continue`
abbrev pub add_named : Option String → Fields → Inputs → Inputs
add_named none p inputs = inputs
add_named (some name) p inputs = if str_eq name "" then inputs else record {
  properties =
      put name (or_field "schema" (obj (field "type" (text "string") end)) p) inputs.properties;
  required =
      if is_truthy (get_field "required" p) then inputs.required ++ name ∷ [] else inputs.required;
}

-- `for parameter in parameters`
unfoldable pub add_parameters : Items → Inputs → Option Inputs
add_parameters nil inputs = some inputs
add_parameters (cons (obj p) ps) inputs = add_parameters ps (add_named (text_in "name" p) p inputs)
add_parameters (cons _ ps) inputs = none

abbrev pub first_value : Fields → Option Json
first_value end = none
first_value (field k v fs) = some v

-- `content.get("application/json") or next(iter(content.values()), {})`
abbrev pub media_of : Fields → Option Json
media_of content =
    if is_truthy (get_field "application/json" content)
    then get_field "application/json" content
    else first_value content

abbrev pub add_body : Fields → Option Json → Inputs → Option Inputs
add_body body (some (obj media)) inputs = some (record {
  properties =
      put "body" (or_field "schema" (obj (field "type" (text "object") end)) media)
        inputs.properties;
  required =
      if is_truthy (get_field "required" body)
      then inputs.required ++ "body" ∷ []
      else inputs.required;
})
add_body body none inputs = some (record {
  properties = put "body" (obj (field "type" (text "object") end)) inputs.properties;
  required =
      if is_truthy (get_field "required" body)
      then inputs.required ++ "body" ∷ []
      else inputs.required;
})
add_body body (some _) inputs = none

-- `if request_body`
abbrev pub with_body : Option Json → Inputs → Option Inputs
with_body (some (obj (field k v fs))) inputs = elim (get_field "content" (field k v fs)) [
  | none ↦ add_body (field k v fs) none inputs
  | some (obj content) ↦ add_body (field k v fs) (media_of content) inputs
  | some _ ↦ none
]
with_body request_body inputs = if is_truthy request_body then none else some inputs

-- `request_body is not None`
abbrev pub is_given : Option Json → Bool
is_given none = false
is_given (some null) = false
is_given (some _) = true

unfoldable pub input_schema : Items → Option Json → Option (Inputs × Bool)
unfolding add_parameters
input_schema parameters request_body =
    elim (add_parameters parameters (record { properties = []; required = [] })) [
      | none ↦ none
      | some inputs ↦ elim (with_body request_body inputs) [
        | none ↦ none
        | some schema ↦ some (schema, is_given request_body)
      ]
    ]

abbrev pub as_fields : List (String × Json) → Fields
as_fields [] = end
as_fields ((k, v) ∷ d) = field k v (as_fields d)

abbrev pub name_items : List String → Items
name_items [] = nil
name_items (s ∷ ss) = cons (text s) (name_items ss)

-- `required` only where a name is
abbrev pub required_field : List String → Fields
required_field [] = end
required_field (s ∷ ss) = field "required" (arr (name_items (s ∷ ss))) end

abbrev pub schema_json : Inputs → Json
schema_json inputs = obj (
    field "type" (text "object")
      (field "properties" (obj (as_fields inputs.properties)) (required_field inputs.required)))

abbrev pub is_alnum : ℕ → Bool
is_alnum c = (leb b'a' c && leb c b'z') || (leb b'A' c && leb c b'Z') || (leb b'0' c && leb c b'9')

-- `re.sub(r"[^a-zA-Z0-9]+", "_", path)`, with the underscores at both ends stripped: the words,
-- with one underscore between two of them. `word` is the word so far.
unfoldable pub words : List Char → List Char → List (List Char)
words [] [] = []
words (c ∷ cs) [] = (c ∷ cs) ∷ []
words word (c ∷ cs) =
    let longer = words (word ++ c ∷ []) cs in
    let closed = words [] cs in
    if is_alnum (code c) then longer else elim word [ [] ↦ closed | w ∷ ws ↦ (w ∷ ws) ∷ closed ]

abbrev pub join_words : List (List Char) → List Char
join_words [] = []
join_words (w ∷ []) = w
join_words (w ∷ v ∷ vs) = w ++ chars "_" ++ join_words (v ∷ vs)

-- ASCII letters are folded; a method is one of five words
abbrev pub lower_method : String → String
lower_method method =
    if is_method "get" method
    then "get"
    else if is_method "post" method
    then "post"
    else if is_method "put" method
    then "put"
    else if is_method "patch" method
    then "patch"
    else "delete"

unfoldable pub operation_name : String → String → String
unfolding words
operation_name method path =
    str_append (lower_method method)
      (str_append "_" (of_chars (join_words (words [] (chars path)))))
