-- ===== src/Examples/Tools.antt =====
-- The theorems on the adapters of tools at concrete servers.
use fastapi_langgraph_templa.Common.{
  ◌+◌, String, str_eq, str_append, ◌≡◌, refl, List, [], ◌∷◌, map, Option, none, some, true, false,
}
use fastapi_langgraph_templa.Common.Dict.{lookup, put}
use fastapi_langgraph_templa.Json.{Json, Fields, null, num, text, obj, end, field}
use fastapi_langgraph_templa.Graph.Validator.{get_field}
use fastapi_langgraph_templa.Graph.Runtime.{tool_requires_approval}
use fastapi_langgraph_templa.Tools.{
  ToolDef, ToolRegistry, Called, value, is_allowed, ainvoke, result, normalize,
}
use fastapi_langgraph_templa.Tools.Binding.{without, bind_tools}
use fastapi_langgraph_templa.Tools.Binding.Overridden.{ainvoke-bind_tools}
use fastapi_langgraph_templa.Tools.Builtin.{Python}
use fastapi_langgraph_templa.Tools.Mcp
use fastapi_langgraph_templa.Tools.Mcp.{
  Annotations, McpTool, Page, Listed, page, tool_def_of, Found, found, add_tools, discover_from,
}
use fastapi_langgraph_templa.Tools.Mcp.Paged.{Pages, last, next, discover-Pages}
use fastapi_langgraph_templa.Tools.OpenApi.{input_schema, operation_name, is_method}
use fastapi_langgraph_templa.Tools.OpenApi.Explore
use fastapi_langgraph_templa.Tools.OpenApi.Explore.{
  HttpRequest, HttpAnswer, payload, new_adapter, add_operations, add_all_paths,
}
use fastapi_langgraph_templa.Tools.Bootstrap.{Outside, Built, built, build_tool_registry}
use fastapi_langgraph_templa.Tools.Bootstrap.Gated.{IsDestructive, requires_approval-IsDestructive}

abbrev list_tool : McpTool
list_tool = record {
  name = "list";
  description = none;
  input_schema = obj end;
  annotations = some (record { read_only_hint = some true; destructive_hint = none });
}

abbrev wipe_tool : McpTool
wipe_tool = record {
  name = "wipe";
  description = some "wipes the disk";
  input_schema = obj end;
  annotations = some (record { read_only_hint = none; destructive_hint = some true });
}

abbrev page1 : Page
page1 = record { tools = list_tool ∷ []; next_cursor = some "p2" }

abbrev page2 : Page
page2 = record { tools = wipe_tool ∷ []; next_cursor = none }

-- a server with two pages
abbrev two_pages : Option String → Listed
two_pages none = page page1
two_pages (some cursor) = page page2

two_pages-Pages : Pages two_pages none (page1 ∷ page2 ∷ [])
two_pages-Pages =
    next two_pages none page1 "p2" (page2 ∷ []) refl refl
      (last two_pages (some "p2") page2 refl refl)

discover-Pages_example :
    (s : Found) × (Mcp.discover two_pages (2 + 3) [] ≡ found s)
    × (s.discovered ≡ map tool_def_of (list_tool ∷ wipe_tool ∷ []))
discover-Pages_example = discover-Pages two_pages [] (page1 ∷ page2 ∷ []) 3 two_pages-Pages

-- an adapter that says which tool it was asked for
abbrev says_name : Json → Fields → Called
says_name name arguments = value name

abbrev both_tools : List (String × ToolDef)
both_tools = ("list", tool_def_of list_tool) ∷ ("wipe", tool_def_of wipe_tool) ∷ []

abbrev without_wipe : ToolRegistry
without_wipe = record {
  tools = [];
  callables = [];
  scope = record { allow = []; deny = "wipe" ∷ [] };
}

abbrev naming_wipe : Fields
naming_wipe = field "_name" (text "wipe") end

ainvoke-bind_tools_example :
    (get_field "_name" naming_wipe ≡ none
      → ainvoke str_eq (bind_tools says_name both_tools without_wipe) "list" naming_wipe
        ≡ result (normalize (says_name (text "list") naming_wipe)))
    × ((name : Json)
        → get_field "_name" naming_wipe ≡ some name
        → ainvoke str_eq (bind_tools says_name both_tools without_wipe) "list" naming_wipe
          ≡ result (normalize (says_name name (without "_name" naming_wipe))))
unfolding lookup is_allowed tool_def_of
ainvoke-bind_tools_example =
    ainvoke-bind_tools str_eq says_name both_tools without_wipe "list" (tool_def_of list_tool)
      naming_wipe (refl, refl, (refl, refl, tt)) refl refl

-- `wipe` is denied, but a call of `list` with the name as an argument runs it
wipe_denied : is_allowed str_eq without_wipe.scope "wipe" ≡ false
unfolding is_allowed
wipe_denied = refl

wipe_runs :
    ainvoke str_eq (bind_tools says_name both_tools without_wipe) "list" naming_wipe
    ≡ result (normalize (value (text "wipe")))
unfolding get_field
wipe_runs = ainvoke-bind_tools_example.1 (text "wipe") refl

-- a document with one operation for reading and one for writing
abbrev document : Fields
document =
    field "paths"
      (obj (
        field "/items/{id}"
          (obj (
            field "get" (obj end)
              (field "delete" (obj (field "operationId" (text "drop_item") end)) end)))
          end))
      end

generated_name : operation_name "GET" "/items/{id}/" ≡ "get_items_id"
unfolding operation_name is_method
generated_name = refl

abbrev join : String → String → String
join a b = str_append a b

abbrev no_answer : Json → Json → Called
no_answer a b = value null

abbrev python : Python
python = record {
  add = no_answer;
  sub = no_answer;
  mul = no_answer;
  truediv = no_answer;
  pow = no_answer;
  isoformat = text "2026-01-01T00:00:00+00:00";
  timestamp = num 1767225600;
  show = λ v. "";
  signature_error = λ fs. "unexpected arguments";
}

abbrev outside : Outside
outside = record {
  list_tools = λ endpoint. two_pages;
  call_tool = λ endpoint name arguments. Mcp.call_exception "down";
  send = λ request. payload (obj document);
  urljoin = join;
  python = python;
}

abbrev registry_of : Built → ToolRegistry
registry_of (built r) = r
registry_of _ = without_wipe

abbrev bootstrapped : Built
bootstrapped = build_tool_registry outside 5 ("http://m/" ∷ []) ("http://h/openapi.json" ∷ [])

requires_approval-IsDestructive_example :
    (t : ToolDef) × (lookup "wipe" (registry_of bootstrapped).tools ≡ some t)
    × IsDestructive outside ("http://m/" ∷ []) t
unfolding tool_requires_approval build_tool_registry Mcp.discover Explore.discover get_field
    is_method input_schema lookup bind_tools put operation_name
requires_approval-IsDestructive_example =
    requires_approval-IsDestructive outside 5 ("http://m/" ∷ []) ("http://h/openapi.json" ∷ [])
      (registry_of bootstrapped) "wipe" refl refl
