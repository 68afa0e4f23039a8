-- ===== src/Tools/OpenApi/Discovered.antt =====
-- What an OpenAPI adapter discovers, and what binding it adds to a registry.
use fastapi_langgraph_templa.Common.{
  String, str_eq, eq_iff, ◌≡◌, refl, sym, ◌∙◌, subst, List, [], Option, none, some, Bool, true,
  false, ◌⊎◌, inl, inr, Bool-cases,
}
use fastapi_langgraph_templa.Common.Dict.{lookup, put, lookup-put, lookup-put_other}
use fastapi_langgraph_templa.Json.{Json, Items, Fields, null, bool, num, text, arr, obj, end, field}
use fastapi_langgraph_templa.Graph.Validator.{get_field}
use fastapi_langgraph_templa.Tools.{ToolDef, read, write, openapi}
use fastapi_langgraph_templa.Tools.Binding.Found.{IsByName, put-IsByName}
use fastapi_langgraph_templa.Tools.OpenApi.{is_method, is_http_method, Operation, Adapter, Inputs}
use fastapi_langgraph_templa.Tools.OpenApi.Explore.{
  upper_method, tool_of, Discovery, add_schema, add_parsed, add_operation, ◌and_next◌,
  add_operations, add_path, add_all_paths, paths_of, server_url, with_server, discover_paths,
  discover,
}

-- the tool has an operation under its name, and the risk of its method: reading for GET, and writing
-- for all others
abbrev pub Described : String → ToolDef → Option Operation → Type 0
Described k t o =
    (t.name ≡ k)
    × (t.source ≡ openapi)
    × ((op : Operation) × (o ≡ some op)
        × (((t.risk ≡ read) × (str_eq op.method "GET" ≡ true))
            ⊎ ((t.risk ≡ write) × (str_eq op.method "GET" ≡ false))))

abbrev pub IsDescribed : Adapter → Type 0
IsDescribed a =
    IsByName a.tools
    × ((k : String) (t : ToolDef)
        → lookup k a.tools ≡ some t
        → Described k t (lookup k a.operations))

abbrev DescribedAfter : Discovery → Type 0
DescribedAfter none = Unit
DescribedAfter (some (a, found)) = IsDescribed a

other_method :
    (method : String) → is_method "get" method ≡ false → str_eq (upper_method method) "GET" ≡ false
other_method method h = elim (Bool-cases (is_method "post" method)) [
  | inl post ↦ rw (h, post) refl
  | inr not_post ↦ elim (Bool-cases (is_method "put" method)) [
    | inl put_ ↦ rw (h, not_post, put_) refl
    | inr not_put ↦ elim (Bool-cases (is_method "patch" method)) [
      | inl patch ↦ rw (h, not_post, not_put, patch) refl
      | inr not_patch ↦ rw (h, not_post, not_put, not_patch) refl
    ]
  ]
]

tool_of-Described :
    (path method name : String) (operation : Fields) (parameters : Items) (schema : Inputs)
    (has_body : Bool)
    → Described name (tool_of method name operation schema) (
        some (record {
          method = upper_method method;
          path = path;
          parameters = parameters;
          has_body = has_body;
        }))
tool_of-Described path method name operation parameters schema has_body = (
  refl,
  refl,
  (
    record {
      method = upper_method method;
      path = path;
      parameters = parameters;
      has_body = has_body;
    },
    refl,
    elim (Bool-cases (is_method "get" method)) [
      | inl get_ ↦ inl (rw get_ refl, rw get_ refl)
      | inr other ↦ inr (rw other refl, other_method method other)
    ],
  ),
)

put-Described :
    (name : String) (tool : ToolDef) (op : Operation) (a : Adapter)
    → Described name tool (some op)
    → IsDescribed a
    → IsDescribed
        (record a { tools = put name tool a.tools; operations = put name op a.operations })
put-Described name tool op a new (by_name, old) = (
  put-IsByName name tool a.tools new.0 by_name,
  λ k t h. elim (Bool-cases (str_eq name k)) [
    | inl e ↦
        let same : name ≡ k = (eq_iff name k).0 e in
        let found : lookup k (put name tool a.tools) ≡ some tool =
          subst (λ x. lookup x (put name tool a.tools) ≡ some tool) same
            (lookup-put name tool a.tools) in
        let operated : lookup k (put name op a.operations) ≡ some op =
          subst (λ x. lookup x (put name op a.operations) ≡ some op) same
            (lookup-put name op a.operations) in
        let is : tool ≡ t = cc (found, h) in
        subst (Described k t) (sym operated) (
          subst (λ (x : ToolDef). Described k x (some op)) is
            (subst (λ x. Described x tool (some op)) same new))
    | inr e ↦
        subst (Described k t) (sym (lookup-put_other name k op a.operations e))
          (old k t (sym (lookup-put_other name k tool a.tools e) ∙ h))
  ],
)

schema_after :
    (path method name : String) (operation : Fields) (parameters : Items)
    (o : Option (Inputs × Bool)) (a : Adapter) (found : List ToolDef)
    → IsDescribed a
    → DescribedAfter (add_schema path method name operation parameters o (a, found))
schema_after path method name operation parameters none a found h = tt
schema_after path method name operation parameters (some (schema, has_body)) a found h =
    put-Described name _ _ a
      (tool_of-Described path method name operation parameters schema has_body) h

parsed_after :
    (path method : String) (operation : Fields) (o : Option Items) (a : Adapter)
    (found : List ToolDef)
    → IsDescribed a
    → DescribedAfter (add_parsed path method operation o (a, found))
parsed_after path method operation none a found h = tt
parsed_after path method operation (some parameters) a found h =
    schema_after path method _ operation parameters _ a found h

operation_after :
    (path : String) (shared : Option Json) (method : String) (v : Json) (a : Adapter)
    (found : List ToolDef)
    → IsDescribed a
    → DescribedAfter (add_operation path shared method v (a, found))
operation_after path shared method (obj operation) a found h =
    elim (Bool-cases (is_http_method method)) [
      | inl is ↦ rw is (parsed_after path method operation _ a found h)
      | inr other ↦ rw other h
    ]
operation_after path shared method null a found h = h
operation_after path shared method (bool b) a found h = h
operation_after path shared method (num n) a found h = h
operation_after path shared method (text s) a found h = h
operation_after path shared method (arr xs) a found h = h

-- one part of a discovery after another
next_after :
    (d : Discovery) (f : Adapter × List ToolDef → Discovery)
    → DescribedAfter d
    → ((a : Adapter) (found : List ToolDef) → IsDescribed a → DescribedAfter (f (a, found)))
    → DescribedAfter (d and_next f)
next_after none f h each = tt
next_after (some (a, found)) f h each = each a found h

operations_after :
    (path : String) (shared : Option Json) (fs : Fields) (a : Adapter) (found : List ToolDef)
    → IsDescribed a
    → DescribedAfter (add_operations path shared fs (a, found))
unfolding add_operations
operations_after path shared end a found h = h
operations_after path shared (field method v fs) a found h =
    next_after (add_operation path shared method v (a, found)) (add_operations path shared fs)
      (operation_after path shared method v a found h)
      (λ b more k. operations_after path shared fs b more k)

path_after :
    (path : String) (v : Json) (a : Adapter) (found : List ToolDef)
    → IsDescribed a
    → DescribedAfter (add_path path v (a, found))
path_after path (obj item) a found h =
    operations_after path (get_field "parameters" item) item a found h
path_after path null a found h = tt
path_after path (bool b) a found h = tt
path_after path (num n) a found h = tt
path_after path (text s) a found h = tt
path_after path (arr xs) a found h = tt

paths_after :
    (fs : Fields) (a : Adapter) (found : List ToolDef)
    → IsDescribed a
    → DescribedAfter (add_all_paths fs (a, found))
unfolding add_all_paths
paths_after end a found h = h
paths_after (field path v fs) a found h =
    next_after (add_path path v (a, found)) (add_all_paths fs) (path_after path v a found h)
      (λ b more k. paths_after fs b more k)

server_after :
    (urljoin : String → String → String) (o : Option String) (a : Adapter)
    → IsDescribed a
    → IsDescribed (with_server urljoin o a)
server_after urljoin none a h = h
server_after urljoin (some url) a h = elim (Bool-cases (str_eq url "")) [
  | inl blank ↦ rw blank h
  | inr given ↦ rw given h
]

discovery_after :
    (server : Option (Option String)) (paths : Option Fields) (urljoin : String → String → String)
    (a : Adapter)
    → IsDescribed a
    → DescribedAfter (discover_paths server paths urljoin a)
discovery_after none paths urljoin a h = tt
discovery_after (some server) none urljoin a h = tt
discovery_after (some server) (some paths) urljoin a h =
    paths_after paths (with_server urljoin server a) [] (server_after urljoin server a h)

-- If every tool of an adapter has its operation and the risk of its method, then so it is after a
-- discovery of any specification: the tool of a GET reads, every other tool writes, and each can be
-- invoked by its name.
pub discover-IsDescribed :
    (urljoin : String → String → String) (spec : Fields) (a after : Adapter) (found : List ToolDef)
    → IsDescribed a
    → discover urljoin spec a ≡ some (after, found)
    → IsDescribed after
unfolding discover
discover-IsDescribed urljoin spec a after found h e = subst DescribedAfter e (
    discovery_after (server_url (get_field "servers" spec)) (paths_of (get_field "paths" spec))
      urljoin a h)
