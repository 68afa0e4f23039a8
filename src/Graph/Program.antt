-- ===== src/Graph/Program.antt =====
-- `compile_langgraph` and `_supervisor_path_map` of app/graph/langgraph_runtime.py: what is handed to
-- LangGraph's StateGraph, a node with its way out for each node of the compiled graph, and how that
-- ends. LangGraph's own errors are an argument; that of an `add_edge`, which the code reaches only
-- with the ids of added nodes or the END, counts among those of `compile`.
pub mod Closed
pub mod Landing
use fastapi_langgraph_templa.Common.{
  String, List, [], ◌∷◌, Option, none, some, Bool, true, false, ◌==◌, ◌&&◌, not, is_none, is_some,
  if◌then◌else◌, length, filter, map,
}
use fastapi_langgraph_templa.Common.Dict.{lookup, put}
use fastapi_langgraph_templa.Graph.{
  NodeType, NodeDef, EdgeDef, CompiledGraph, is_supervisor, is_capability,
}
use fastapi_langgraph_templa.Graph.Routing.{edges_of}

-- the END, or a node
pub data Target : Type 0 where
  finish : Target
  node : String → Target

-- `add_edge`, or `add_conditional_edges` with the map of its paths
pub data Way : Type 0 where
  goes : Target → Way
  decides : List (String × Target) → Way

-- the edge from START, and the nodes
pub record Program : Type 0 where
  pub start : String
  pub ways : List (String × Way)

-- What LangGraph refuses: the error of adding nodes with these ids in this order, and that of
-- `compile` on what was added, if any; `ValueError`s as a rule.
pub record StateGraph : Type 0 where
  pub add_error : List String → Option String
  pub compile_error : Program → Option String

-- a program, a GraphValidationError, or an error of LangGraph
pub data BuiltProgram : Type 0 where
  program : Program → BuiltProgram
  refused : String → BuiltProgram
  langgraph_error : String → BuiltProgram

abbrev pub is_capability_node : NodeDef → Bool
is_capability_node n = is_capability n.type

-- `for node_id, node in compiled.node_map.items()`
unfoldable pub add_paths : List (String × NodeDef) → List (String × Target) → List (String × Target)
add_paths [] paths = paths
add_paths ((node_id, n) ∷ ns) paths =
    add_paths ns (if is_capability_node n then put node_id (node node_id) paths else paths)

unfoldable pub supervisor_path_map : CompiledGraph → List (String × Target)
supervisor_path_map compiled = add_paths compiled.node_map (("__end__", finish) ∷ [])

abbrev pub explicit_edge : List EdgeDef → List EdgeDef → Option Way
explicit_edge (e ∷ []) (_ ∷ []) = some (goes (node e.target))
explicit_edge _ _ = none

-- the edges of a node that are its own; none is the GraphValidationError
abbrev pub way_along : List EdgeDef → Option Way
way_along [] = some (goes finish)
way_along (e ∷ es) = explicit_edge (filter (λ x. is_none x.condition) (e ∷ es)) (e ∷ es)

-- `node_def.type in capability_types and compiled.supervisor_id is not None`
abbrev pub return_or_along : Bool → Option String → List EdgeDef → Option Way
return_or_along true (some supervisor_id) edges = some (goes (node supervisor_id))
return_or_along _ _ edges = way_along edges

abbrev pub way_at : CompiledGraph → NodeType → String → Option Way
way_at compiled type node_id =
    if is_supervisor type
    then some (decides (supervisor_path_map compiled))
    else return_or_along (is_capability type) compiled.supervisor_id
        (edges_of (lookup node_id compiled.out_edges))

abbrev pub add_way :
    String → Option Way → Option (List (String × Way)) → Option (List (String × Way))
add_way node_id none rest = none
add_way node_id (some w) none = none
add_way node_id (some w) (some ws) = some ((node_id, w) ∷ ws)

unfoldable pub add_ways : CompiledGraph → List (String × NodeDef) → Option (List (String × Way))
add_ways compiled [] = some []
add_ways compiled ((node_id, n) ∷ ns) =
    add_way node_id (way_at compiled n.type node_id) (add_ways compiled ns)

abbrev pub started_at : String → Option (List (String × Way)) → BuiltProgram
started_at entry_id none = refused "a node requires exactly one explicit edge"
started_at entry_id (some ways) = program (record { start = entry_id; ways = ways })

-- the edge from START, and the loop that adds the ways
abbrev pub add_all_ways : CompiledGraph → BuiltProgram
add_all_ways compiled = started_at compiled.entry_id (add_ways compiled compiled.node_map)

abbrev pub compiled_or : Program → Option String → BuiltProgram
compiled_or p none = program p
compiled_or p (some error) = langgraph_error error

-- `builder.compile`
abbrev pub accepted : StateGraph → BuiltProgram → BuiltProgram
accepted builder (program p) = compiled_or p (builder.compile_error p)
accepted builder end_ = end_

-- the loop of `builder.add_node`
abbrev pub nodes_added : StateGraph → CompiledGraph → Option String → BuiltProgram
nodes_added builder compiled (some error) = langgraph_error error
nodes_added builder compiled none = accepted builder (add_all_ways compiled)

abbrev pub node_ids : List (String × NodeDef) → List String
node_ids items = map (λ (item : String × NodeDef). item.0) items

unfoldable pub compile_langgraph : StateGraph → CompiledGraph → BuiltProgram
unfolding add_ways
compile_langgraph builder compiled =
    if is_none (lookup compiled.entry_id compiled.node_map)
    then refused "LangGraph execution requires entry to reference a node id"
    else nodes_added builder compiled (builder.add_error (node_ids compiled.node_map))
