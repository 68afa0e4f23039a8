-- ===== src/Tools.antt =====
-- app/tools: the metadata of a tool, the scope, the normalized result, and the registry with its
-- `ainvoke`. `matches` stands for fnmatch. A callable ends with a value, at once or awaited, with a
-- TypeError, or with another exception.
pub mod Permitted
pub mod OpenApi
pub mod Binding
pub mod Mcp
pub mod Builtin
pub mod Bootstrap
use fastapi_langgraph_templa.Common.{
  String, str_append, List, [], ◌∷◌, map, Option, none, some, Bool, true, false, not, if◌then◌else◌,
  any, is_none, is_some,
}
use fastapi_langgraph_templa.Common.Dict.{lookup, put}
use fastapi_langgraph_templa.State.{ErrorCategory, NormalizedError}
use fastapi_langgraph_templa.Json.{Json, Fields, obj, field, end}

pub data ToolSource : Type 0 where
  builtin mcp openapi : ToolSource

pub data ToolRisk : Type 0 where
  read write sensitive : ToolRisk

pub record ToolDef : Type 0 where
  pub name : String
  pub description : String
  pub input_schema : Json
  pub risk : ToolRisk
  pub source : ToolSource

pub record ToolScope : Type 0 where
  pub allow : List String
  pub deny : List String

pub record ToolResult : Type 0 where
  pub success : Bool
  pub data_ : Option Json
  pub error : Option NormalizedError

abbrev pub ok : Json → ToolResult
ok value = record { success = true; data_ = some value; error = none }

abbrev pub fail : ErrorCategory → String → ToolResult
fail category message = record {
  success = false;
  data_ = none;
  error = some (record { category = category; message = message; recoverable = false });
}

-- a list that is empty is false
abbrev pub allow_all : List String → Bool → Bool
allow_all [] rest = true
allow_all (p ∷ ps) rest = rest

unfoldable pub is_allowed : (String → String → Bool) → ToolScope → String → Bool
is_allowed matches scope tool_name =
    if any (matches tool_name) scope.deny
    then false
    else allow_all scope.allow (any (matches tool_name) scope.allow)

pub data Called : Type 0 where
  value : Json → Called
  type_error : String → Called
  other_error : String → Called

pub record ToolRegistry : Type 0 where
  pub tools : List (String × ToolDef)
  pub callables : List (String × (Fields → Called))
  pub scope : ToolScope

unfoldable pub register : ToolDef → ToolRegistry → ToolRegistry
register def r = record r { tools = put def.name def r.tools }

unfoldable pub register_callable : String → (Fields → Called) → ToolRegistry → ToolRegistry
register_callable name func r = record r { callables = put name func r.callables }

abbrev pub list_tools : ToolRegistry → List ToolDef
list_tools r = map (λ (x : String × ToolDef). x.1) r.tools

-- ToolNotFoundError, ToolPermissionError, or a result
pub data Invocation : Type 0 where
  not_found : String → Invocation
  not_permitted : String → Invocation
  result : ToolResult → Invocation

abbrev pub normalize : Called → ToolResult
normalize (value data_) = ok (obj (field "result" data_ end))
normalize (type_error message) = fail ErrorCategory.validation_error message
normalize (other_error message) = fail ErrorCategory.tool_error message

abbrev pub call_bound : String → Fields → Option (Fields → Called) → ToolResult
call_bound name arguments none =
    fail ErrorCategory.tool_error (str_append "no callable bound for tool '" (str_append name "'"))
call_bound name arguments (some func) = normalize (func arguments)

unfoldable pub ainvoke : (String → String → Bool) → ToolRegistry → String → Fields → Invocation
unfolding is_allowed
ainvoke matches r name arguments =
    if is_none (lookup name r.tools)
    then not_found (str_append "tool not found: " name)
    else if not (is_allowed matches r.scope name)
    then not_permitted (str_append "tool '" (str_append name "' is not allowed by current scope"))
    else result (call_bound name arguments (lookup name r.callables))
