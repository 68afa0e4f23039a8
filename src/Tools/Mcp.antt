-- ===== src/Tools/Mcp.antt =====
-- app/tools/mcp_adapter.py. `list_tools` and `call_tool` stand for the session with the MCP server: an
-- answer, or the text of an exception, which is no TypeError. A server may give pages without end, so
-- `discover` has fuel, a page for each unit.
pub mod Paged
pub mod Advertised
use fastapi_langgraph_templa.Common.{
  ℕ, zero, suc, String, str_eq, str_append, List, [], ◌∷◌, ◌++◌, Option, none, some, Bool, true,
  false, is_none, if◌then◌else◌,
}
use fastapi_langgraph_templa.Common.Dict.{lookup, put}
use fastapi_langgraph_templa.Json.{
  Json, Items, Fields, null, bool, text, arr, obj, nil, cons, end, field,
}
use fastapi_langgraph_templa.Tools.{
  ToolDef, ToolRisk, read, write, sensitive, mcp, ToolRegistry, Called, value, type_error,
  other_error,
}
use fastapi_langgraph_templa.Tools.Binding.{bind_tools}

-- an attribute that is missing, or is None, is not set
pub record Annotations : Type 0 where
  pub read_only_hint : Option Bool
  pub destructive_hint : Option Bool

-- a tool as the server lists it
pub record McpTool : Type 0 where
  pub name : String
  pub description : Option String
  pub input_schema : Json
  pub annotations : Option Annotations

pub record Page : Type 0 where
  pub tools : List McpTool
  pub next_cursor : Option String

pub data Listed : Type 0 where
  page : Page → Listed
  list_exception : String → Listed

abbrev pub is_set : Option Bool → Bool
is_set none = false
is_set (some b) = b

abbrev pub read_only : Option Annotations → Bool
read_only none = false
read_only (some a) = is_set a.read_only_hint

abbrev pub destructive : Option Annotations → Bool
destructive none = false
destructive (some a) = is_set a.destructive_hint

-- `tool.description or tool.name`
abbrev pub describe : Option String → String → String
describe none name = name
describe (some s) name = if str_eq s "" then name else s

unfoldable pub tool_def_of : McpTool → ToolDef
tool_def_of tool = record {
  name = tool.name;
  description = describe tool.description tool.name;
  input_schema = tool.input_schema;
  risk =
      if destructive tool.annotations
      then sensitive
      else if read_only tool.annotations
      then read
      else write;
  source = mcp;
}

-- the adapter's tools, and the tools that were discovered
pub record Found : Type 0 where
  pub tools : List (String × ToolDef)
  pub discovered : List ToolDef

abbrev pub add_tool : ToolDef → Found → Found
add_tool t s = record { tools = put t.name t s.tools; discovered = s.discovered ++ t ∷ [] }

-- `for tool in page.tools`
unfoldable pub add_tools : List McpTool → Found → Found
unfolding tool_def_of
add_tools [] s = s
add_tools (x ∷ xs) s = add_tools xs (add_tool (tool_def_of x) s)

pub data Discovery : Type 0 where
  found : Found → Discovery
  failed : String → Discovery
  no_fuel : Discovery

-- the end of the loop, or its next round
abbrev pub next_page : (String → Found → Discovery) → Found → Option String → Discovery
next_page next s none = found s
next_page next s (some cursor) = next cursor s

abbrev pub after_page : (String → Found → Discovery) → Found → Listed → Discovery
after_page next s (list_exception message) = failed message
after_page next s (page p) = next_page next (add_tools p.tools s) p.next_cursor

-- `while True`, with the cursor of the next page
unfoldable pub discover_from : (Option String → Listed) → ℕ → Option String → Found → Discovery
unfolding add_tools
discover_from list_tools zero cursor s = no_fuel
discover_from list_tools (suc fuel) cursor s =
    after_page (λ next. discover_from list_tools fuel (some next)) s (list_tools cursor)

unfoldable pub discover : (Option String → Listed) → ℕ → List (String × ToolDef) → Discovery
unfolding discover_from
discover list_tools fuel tools =
    discover_from list_tools fuel none (record { tools = tools; discovered = [] })

-- a result of the server; the content of a block as JSON
pub record CallResult : Type 0 where
  pub is_error : Option Bool
  pub structured_content : Option Json
  pub content : Items

pub data CallAnswer : Type 0 where
  answer : CallResult → CallAnswer
  call_exception : String → CallAnswer

abbrev pub null_or : Option Json → Json
null_or none = null
null_or (some v) = v

abbrev pub result_of : CallAnswer → Called
result_of (call_exception message) = other_error message
result_of (answer r) = value (
    obj (
      field "is_error" (bool (is_set r.is_error)) (
        field "structured_content" (null_or r.structured_content)
          (field "content" (arr r.content) end))))

-- `show` stands for `str` on a JSON value
module _ (show : Json → String) (call_tool : String → Fields → CallAnswer) where
  unfoldable pub invoke : List (String × ToolDef) → Json → Fields → Called
  invoke tools (text name) arguments =
      if is_none (lookup name tools)
      then other_error (str_append "MCP tool not found: " name)
      else result_of (call_tool name arguments)
  invoke tools (arr xs) arguments = type_error "unhashable type: 'list'"
  invoke tools (obj fs) arguments = type_error "unhashable type: 'dict'"
  invoke tools name arguments = other_error (str_append "MCP tool not found: " (show name))

  abbrev pub bind : List (String × ToolDef) → ToolRegistry → ToolRegistry
  bind tools = bind_tools (invoke tools) tools
