-- ===== src/Tools/Binding.antt =====
-- The loop of `bind`, which app/tools/openapi_adapter.py and app/tools/mcp_adapter.py have in common:
-- each tool of the adapter is registered with a function that invokes it by its own name. That name
-- is the default of the parameter `_name` of the function, so an argument `_name` takes its place.
pub mod Found
pub mod Overridden
use fastapi_langgraph_templa.Common.{
  String, str_eq, List, [], ◌∷◌, Option, none, some, if◌then◌else◌,
}
use fastapi_langgraph_templa.Json.{Json, Fields, text, end, field}
use fastapi_langgraph_templa.Graph.Validator.{get_field}
use fastapi_langgraph_templa.Tools.{ToolDef, ToolRegistry, Called, register, register_callable}

-- the keyword arguments that are left for `**arguments`
unfoldable pub without : String → Fields → Fields
without key end = end
without key (field k v fs) = if str_eq k key then without key fs else field k v (without key fs)

-- `call(**arguments)`, where `invoke` stands for the adapter's
unfoldable pub bound_call : (Json → Fields → Called) → String → Fields → Called
bound_call invoke tool_name arguments = elim (get_field "_name" arguments) [
  | none ↦ invoke (text tool_name) arguments
  | some name ↦ invoke name (without "_name" arguments)
]

unfoldable pub bind_tools :
    (Json → Fields → Called) → List (String × ToolDef) → ToolRegistry → ToolRegistry
unfolding register register_callable
bind_tools invoke [] r = r
bind_tools invoke ((key, tool) ∷ tools) r =
    bind_tools invoke tools
      (register_callable tool.name (bound_call invoke tool.name) (register tool r))
