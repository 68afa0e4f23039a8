-- ===== src/Tools/OpenApi/Explore.antt =====
-- `discover` of app/tools/openapi_adapter.py. Its exception ends the start of the process; it is
-- `none`.
use mathlib.Core.Option
use fastapi_langgraph_templa.Common.{
  String, str_eq, List, [], ◌∷◌, ◌++◌, Option, none, some, Bool, if◌then◌else◌,
}
use fastapi_langgraph_templa.Common.Dict.{put}
use fastapi_langgraph_templa.Json.{Json, Items, Fields, text, arr, obj, nil, cons, end, field}
use fastapi_langgraph_templa.Graph.Validator.{get_field}
use fastapi_langgraph_templa.Tools.{ToolDef, read, write, openapi}
use fastapi_langgraph_templa.Tools.OpenApi.{
  is_method, is_http_method, Adapter, is_truthy, text_in, or_text_in, Inputs, input_schema,
  schema_json, operation_name,
}

abbrev pub new_adapter : String → List (String × Json) → String → Adapter
new_adapter url headers base_url = record {
  url = url;
  headers = headers;
  tools = [];
  operations = [];
  base_url = base_url;
}

abbrev pub append_items : Items → Items → Items
append_items nil ys = ys
append_items (cons x xs) ys = cons x (append_items xs ys)

-- what a list display takes from `.get("parameters", [])`; none is an exception, then or at the `get`
-- of a character or of a key
abbrev pub elements : Option Json → Option Items
elements none = some nil
elements (some (arr xs)) = some xs
elements (some (obj end)) = some nil
elements (some (text s)) = if str_eq s "" then some nil else none
elements (some _) = none

-- `[*xs, *ys]`
abbrev pub joined : Option Json → Option Json → Option Items
joined shared own = elim (elements shared) [
  | none ↦ none
  | some xs ↦ Option.map (append_items xs) (elements own)
]

abbrev pub upper_method : String → String
upper_method method =
    if is_method "get" method
    then "GET"
    else if is_method "post" method
    then "POST"
    else if is_method "put" method
    then "PUT"
    else if is_method "patch" method
    then "PATCH"
    else "DELETE"

abbrev pub tool_of : String → String → Fields → Inputs → ToolDef
tool_of method name operation schema = record {
  name = name;
  description = or_text_in "description" operation (or_text_in "summary" operation name);
  input_schema = schema_json schema;
  risk = if is_method "get" method then read else write;
  source = openapi;
}

-- the adapter with the tools that were discovered, or an exception
abbrev pub Discovery : Type 0
Discovery = Option (Adapter × List ToolDef)

abbrev pub add_schema :
    String
    → String
    → String
    → Fields
    → Items
    → Option (Inputs × Bool)
    → Adapter × List ToolDef
    → Discovery
add_schema path method name operation parameters none (a, found) = none
add_schema path method name operation parameters (some (schema, has_body)) (a, found) =
    let tool = tool_of method name operation schema in
    some (
      record a {
        tools = put name tool a.tools;
        operations =
            put name
              (record {
                method = upper_method method;
                path = path;
                parameters = parameters;
                has_body = has_body;
              })
              a.operations;
      },
      found ++ tool ∷ [],
    )

abbrev pub add_parsed : String → String → Fields → Option Items → Adapter × List ToolDef → Discovery
add_parsed path method operation none s = none
add_parsed path method operation (some parameters) s =
    add_schema path method (or_text_in "operationId" operation (operation_name method path))
      operation parameters (input_schema parameters (get_field "requestBody" operation)) s

-- an entry of a path; what is no operation is passed over
abbrev pub add_operation : String → Option Json → String → Json → Adapter × List ToolDef → Discovery
add_operation path shared method (obj operation) s =
    if is_http_method method
    then add_parsed path method operation (joined shared (get_field "parameters" operation)) s
    else some s
add_operation path shared method _ s = some s

infixl 5 ◌and_next◌
abbrev pub ◌and_next◌ : Discovery → (Adapter × List ToolDef → Discovery) → Discovery
none and_next f = none
(some s) and_next f = f s

unfoldable pub add_operations : String → Option Json → Fields → Adapter × List ToolDef → Discovery
add_operations path shared end s = some s
add_operations path shared (field method operation fs) s =
    add_operation path shared method operation s and_next add_operations path shared fs

abbrev pub add_path : String → Json → Adapter × List ToolDef → Discovery
add_path path (obj item) s = add_operations path (get_field "parameters" item) item s
add_path path _ s = none

unfoldable pub add_all_paths : Fields → Adapter × List ToolDef → Discovery
unfolding add_operations
add_all_paths end s = some s
add_all_paths (field path item fs) s = add_path path item s and_next add_all_paths fs

-- `spec.get("paths", {}).items()`
abbrev pub paths_of : Option Json → Option Fields
paths_of none = some end
paths_of (some (obj fs)) = some fs
paths_of (some _) = none

-- the URL of the first server, if there is one; the outer none is an exception
abbrev pub server_url : Option Json → Option (Option String)
server_url (some (arr (cons (obj server) _))) = some (text_in "url" server)
server_url (some (arr (cons _ _))) = none
server_url servers = if is_truthy servers then none else some none

abbrev pub with_server : (String → String → String) → Option String → Adapter → Adapter
with_server urljoin none a = a
with_server urljoin (some url) a =
    if str_eq url "" then a else record a { base_url = urljoin a.url url }

abbrev pub discover_paths :
    Option (Option String) → Option Fields → (String → String → String) → Adapter → Discovery
discover_paths (some server) (some paths) urljoin a =
    add_all_paths paths (with_server urljoin server a, [])
discover_paths _ _ urljoin a = none

pub record HttpRequest : Type 0 where
  pub method : String
  pub url : String
  pub params : List (String × Json)
  pub headers : List (String × Json)
  pub body : Json

pub data HttpAnswer : Type 0 where
  payload : Json → HttpAnswer
  http_exception : String → HttpAnswer

-- `_request_json` of the document
abbrev pub spec_of : HttpAnswer → Option Fields
spec_of (http_exception message) = none
spec_of (payload (obj fs)) = some fs
spec_of (payload v) = some (field "result" v end)

unfoldable pub discover : (String → String → String) → Fields → Adapter → Discovery
unfolding add_all_paths
discover urljoin spec a =
    discover_paths (server_url (get_field "servers" spec)) (paths_of (get_field "paths" spec))
      urljoin a
