-- ===== src/Tools/OpenApi/Calls.antt =====
-- `invoke` and `bind` of app/tools/openapi_adapter.py.
use Prim.Native.Char.{Char}
use fastapi_langgraph_templa.Common.{
  ℕ, zero, suc, ◌-◌, String, str_eq, str_append, List, [], ◌∷◌, ◌++◌, Option, none, some, Bool,
  true, false, ◌&&◌, is_none, if◌then◌else◌, length,
}
use fastapi_langgraph_templa.Common.Chars.{chars, of_chars}
use fastapi_langgraph_templa.Common.Dict.{lookup, put}
use fastapi_langgraph_templa.Json.{Json, Items, Fields, null, text, arr, obj, nil, cons, end, field}
use fastapi_langgraph_templa.Graph.Validator.{get_field}
use fastapi_langgraph_templa.Tools.{ToolRegistry, Called, value, type_error, other_error}
use fastapi_langgraph_templa.Tools.Binding.{bind_tools}
use fastapi_langgraph_templa.Tools.OpenApi.{Operation, Adapter, text_in, or_field}
use fastapi_langgraph_templa.Tools.OpenApi.Explore.{
  HttpRequest, HttpAnswer, payload, http_exception,
}

abbrev pub starts_with : List Char → List Char → Bool
starts_with [] cs = true
starts_with (x ∷ xs) [] = false
starts_with (x ∷ xs) (c ∷ cs) = str_eq (of_chars (x ∷ [])) (of_chars (c ∷ [])) && starts_with xs cs

-- `str.replace(old, new)` of an old text that is not empty; `skip` characters are still replaced
unfoldable pub replace_from : ℕ → List Char → List Char → List Char → List Char
replace_from skip old new [] = []
replace_from (suc skip) old new (c ∷ cs) = replace_from skip old new cs
replace_from zero old new (c ∷ cs) =
    let replaced = new ++ replace_from (length old - 1) old new cs in
    let kept = c ∷ replace_from zero old new cs in
    if starts_with old (c ∷ cs) then replaced else kept

abbrev pub drop_slashes : List Char → List Char
drop_slashes [] = []
drop_slashes (c ∷ cs) = if str_eq (of_chars (c ∷ [])) "/" then drop_slashes cs else c ∷ cs

-- the characters without the slashes at the end
abbrev pub strip_slashes : List Char → List Char
strip_slashes [] = []
strip_slashes (c ∷ cs) = elim (strip_slashes cs) [
  | [] ↦ if str_eq (of_chars (c ∷ [])) "/" then [] else c ∷ []
  | d ∷ ds ↦ c ∷ d ∷ ds
]

-- the path, the query and the headers so far
pub record Placed : Type 0 where
  pub path : String
  pub query : List (String × Json)
  pub headers : List (String × Json)

module _ (show : Json → String) where
  abbrev pub place : String → Json → Option String → Placed → Placed
  place name v none s = s
  place name v (some location) s =
      if str_eq location "path"
      then record s {
        path = of_chars (
            replace_from 0 (chars (str_append "{" (str_append name "}"))) (chars (show v))
              (chars s.path));
      }
      else if str_eq location "query"
      then record s { query = put name v s.query }
      else if str_eq location "header"
      then record s { headers = put name (text (show v)) s.headers }
      else s

  -- `if parameter_name not in arguments: continue`
  abbrev pub place_named : Fields → Option String → Fields → Placed → Placed
  place_named arguments none p s = s
  place_named arguments (some name) p s = elim (get_field name arguments) [
    | none ↦ s
    | some v ↦ place name v (text_in "in" p) s
  ]

  unfoldable pub place_all : Fields → Items → Placed → Placed
  unfolding replace_from
  place_all arguments nil s = s
  place_all arguments (cons (obj p) ps) s =
      place_all arguments ps (place_named arguments (text_in "name" p) p s)
  place_all arguments (cons _ ps) s = place_all arguments ps s

  abbrev pub request_of : (String → String → String) → Adapter → Operation → Fields → HttpRequest
  request_of urljoin a o arguments =
      let placed =
        place_all arguments o.parameters
          (record { path = o.path; query = []; headers = a.headers }) in
      record {
        method = o.method;
        url =
            urljoin (str_append (of_chars (strip_slashes (chars a.base_url))) "/")
              (of_chars (drop_slashes (chars placed.path)));
        params = placed.query;
        headers = placed.headers;
        body = if o.has_body then or_field "body" null arguments else null;
      }

  -- `payload if isinstance(payload, dict) else {"result": payload}`
  abbrev pub as_dict : HttpAnswer → Called
  as_dict (http_exception message) = other_error message
  as_dict (payload (obj fs)) = value (obj fs)
  as_dict (payload v) = value (obj (field "result" v end))

  abbrev pub invoke_operation :
      (String → String → String)
      → (HttpRequest → HttpAnswer)
      → Adapter
      → String
      → Fields
      → Option Operation
      → Called
  invoke_operation urljoin send a name arguments none =
      other_error (str_append "OpenAPI operation not discovered: " name)
  invoke_operation urljoin send a name arguments (some o) =
      as_dict (send (request_of urljoin a o arguments))

  unfoldable pub invoke :
      (String → String → String) → (HttpRequest → HttpAnswer) → Adapter → String → Fields → Called
  unfolding place_all
  invoke urljoin send a name arguments =
      if is_none (lookup name a.tools)
      then other_error (str_append "OpenAPI tool not found: " name)
      else invoke_operation urljoin send a name arguments (lookup name a.operations)

  -- `get` of a name that is no text: no key of a dict, or unhashable
  unfoldable pub invoke_named :
      (String → String → String) → (HttpRequest → HttpAnswer) → Adapter → Json → Fields → Called
  unfolding invoke
  invoke_named urljoin send a (text name) arguments = invoke urljoin send a name arguments
  invoke_named urljoin send a (arr xs) arguments = type_error "unhashable type: 'list'"
  invoke_named urljoin send a (obj fs) arguments = type_error "unhashable type: 'dict'"
  invoke_named urljoin send a name arguments =
      other_error (str_append "OpenAPI tool not found: " (show name))

  abbrev pub bind :
      (String → String → String)
      → (HttpRequest → HttpAnswer)
      → Adapter
      → ToolRegistry
      → ToolRegistry
  bind urljoin send a = bind_tools (invoke_named urljoin send a) a.tools
