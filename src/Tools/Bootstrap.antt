-- ===== src/Tools/Bootstrap.antt =====
-- `build_tool_registry` of app/tools/bootstrap.py, which app/runtime/worker_main.py calls when a
-- Worker starts. `pages` is the fuel of each discovery of an MCP server.
pub mod Gated
use Prim.Native.Char.{Char}
use Prim.Native.String
use fastapi_langgraph_templa.Common.{
  ℕ, String, str_eq, str_append, List, [], ◌∷◌, Option, none, some, Bool, true, false,
  if◌then◌else◌,
}
use fastapi_langgraph_templa.Common.Chars.{chars, of_chars}
use fastapi_langgraph_templa.Json.{Json, Fields, null, end}
use fastapi_langgraph_templa.Tools.{ToolDef, ToolRegistry, Called, register, register_callable}
use fastapi_langgraph_templa.Tools.Builtin.{
  Python, calculator, get_current_time, calculator_tool, datetime_tool,
}
use fastapi_langgraph_templa.Tools.Mcp
use fastapi_langgraph_templa.Tools.Mcp.{Listed, CallAnswer}
use fastapi_langgraph_templa.Tools.OpenApi.{Adapter}
use fastapi_langgraph_templa.Tools.OpenApi.Calls
use fastapi_langgraph_templa.Tools.OpenApi.Explore
use fastapi_langgraph_templa.Tools.OpenApi.Explore.{HttpRequest, HttpAnswer, spec_of, new_adapter}

-- the servers behind the endpoints and URLs, and the functions of Python
pub record Outside : Type 0 where
  pub list_tools : String → Option String → Listed
  pub call_tool : String → String → Fields → CallAnswer
  pub send : HttpRequest → HttpAnswer
  pub urljoin : String → String → String
  pub python : Python

-- the registry, an exception that ends the start, or no fuel for another page
pub data Built : Type 0 where
  built : ToolRegistry → Built
  start_exception : Built
  too_many_pages : Built

infixl 5 ◌and_bind◌
abbrev pub ◌and_bind◌ : Built → (ToolRegistry → Built) → Built
built r and_bind f = f r
start_exception and_bind f = start_exception
too_many_pages and_bind f = too_many_pages

abbrev pub bind_mcp : Outside → String → Mcp.Discovery → ToolRegistry → Built
bind_mcp out endpoint (Mcp.found s) r =
    built (Mcp.bind out.python.show (out.call_tool endpoint) s.tools r)
bind_mcp out endpoint (Mcp.failed message) r = start_exception
bind_mcp out endpoint Mcp.no_fuel r = too_many_pages

unfoldable pub add_mcp : Outside → ℕ → List String → ToolRegistry → Built
add_mcp out pages [] r = built r
add_mcp out pages (endpoint ∷ endpoints) r =
    bind_mcp out endpoint (Mcp.discover (out.list_tools endpoint) pages []) r
    and_bind add_mcp out pages endpoints

-- the characters before the last slash; none when there is no slash
abbrev pub before_slash : List Char → Option (List Char)
before_slash [] = none
before_slash (c ∷ cs) = elim (before_slash cs) [
  | some before ↦ some (c ∷ before)
  | none ↦ if str_eq (of_chars (c ∷ [])) "/" then some [] else none
]

-- `openapi_url.rsplit("/", 1)[0] + "/"`
abbrev pub base_of : String → String
base_of url = elim (before_slash (chars url)) [
  | none ↦ str_append url "/"
  | some before ↦ str_append (of_chars before) "/"
]

-- `_request_json("GET", self._url)`
abbrev pub get_spec : Outside → String → Option Fields
get_spec out url =
    spec_of
      (out.send (record { method = "GET"; url = url; params = []; headers = []; body = null }))

abbrev pub discover_spec : Outside → String → Option Fields → Explore.Discovery
discover_spec out url none = none
discover_spec out url (some spec) =
    Explore.discover out.urljoin spec (new_adapter url [] (base_of url))

abbrev pub bind_openapi : Outside → Explore.Discovery → ToolRegistry → Built
bind_openapi out none r = start_exception
bind_openapi out (some (a, discovered)) r =
    built (Calls.bind out.python.show out.urljoin out.send a r)

unfoldable pub add_openapi : Outside → List String → ToolRegistry → Built
add_openapi out [] r = built r
add_openapi out (url ∷ urls) r =
    bind_openapi out (discover_spec out url (get_spec out url)) r and_bind add_openapi out urls

-- `ToolRegistry()` with the two built-in tools
abbrev pub builtin_registry : Python → ToolRegistry
builtin_registry python = register_callable "datetime" (get_current_time python) (
    register datetime_tool (
      register_callable "calculator" (calculator python) (
        register calculator_tool
          (record { tools = []; callables = []; scope = record { allow = []; deny = [] } }))))

unfoldable pub build_tool_registry : Outside → ℕ → List String → List String → Built
unfolding add_mcp add_openapi
build_tool_registry out pages mcp_endpoints openapi_urls =
    add_mcp out pages mcp_endpoints (builtin_registry out.python)
    and_bind add_openapi out openapi_urls
