-- ===== src/Examples/Graphs.antt =====
-- The theorems on graphs at a Supervisor with one tool.
use fastapi_langgraph_templa.Common.{◌≡◌, refl, ◌↔◌, [], ◌∷◌, none, some}
use fastapi_langgraph_templa.Json.{end}
use fastapi_langgraph_templa.Graph.{AgentDefinition, NodeDef, supervisor, tool}
use fastapi_langgraph_templa.Common.Names.{contains}
use fastapi_langgraph_templa.Graph.Routing.{SupervisorDecision, Action}
use fastapi_langgraph_templa.Graph.Validator.{
  validate_graph, valid, visit, adjacency, roots, duplicates_from, edges_within,
  check_at_most_one_supervisor, check_no_nested_subagent, check_entry_reachable,
}
use fastapi_langgraph_templa.Graph.Validator.Spec.{IsValid}
use fastapi_langgraph_templa.Graph.Validator.Correct.{validate_graph_iff}
use Prim.Native.Char.{Char, code}
use fastapi_langgraph_templa.Common.{Bool, String, str_eq, Option, if◌then◌else◌}
use fastapi_langgraph_templa.Tools.OpenApi.{is_alnum}
use fastapi_langgraph_templa.Graph.Compiler.{build, compile_graph}
use fastapi_langgraph_templa.RunManager.Graphs.{Read, definition, loaded, Cache, load_graph}
use fastapi_langgraph_templa.RunManager.Graphs.Cached.{IsStored, load_all, load_graph-IsStored}

abbrev pub small : AgentDefinition
small = record {
  name = "small";
  nodes =
      record { type = supervisor; id = "boss"; prompt = none; config = end }
      ∷ record { type = tool; id = "calc"; prompt = none; config = end }
      ∷ [];
  edges = record { source = "boss"; target = "calc"; condition = none } ∷ [];
  entry = "boss";
  exit = "END";
}

validate_graph_iff_example : (validate_graph small ≡ valid) ↔ IsValid small
validate_graph_iff_example = validate_graph_iff small

abbrev pub boss : NodeDef
boss = record { type = supervisor; id = "boss"; prompt = none; config = end }

pub small_valid : validate_graph small ≡ valid
unfolding validate_graph duplicates_from edges_within check_at_most_one_supervisor
    check_no_nested_subagent check_entry_reachable visit roots adjacency contains
small_valid = refl

abbrev pub to_calc : SupervisorDecision
to_calc = record {
  action = Action.tool;
  capability_node_id = some "calc";
  tool_name = none;
  knowledge_base_id = none;
  input = none;
  target = none;
  final_response = none;
}

-- a directory with one file
abbrev files : String → Option Read
files path = if str_eq path "graphs/my-graph.yaml" then some (definition small) else none

abbrev no_files : String → Option Read
no_files path = none

abbrev ascii : Char → Bool
ascii c = is_alnum (code c)

load_graph-IsStored_example :
    IsStored ascii "my-graph" (build small)
    × (let later : Cache =
          load_all ascii "graphs"
            ((no_files, "../secret") ∷ [])
            (load_graph ascii "graphs" files "my-graph" []).0 in
        load_graph ascii "graphs" no_files "my-graph" later ≡ (later, loaded (build small)))
unfolding load_graph fastapi_langgraph_templa.Common.Dict.lookup compile_graph validate_graph
    duplicates_from contains edges_within check_at_most_one_supervisor check_no_nested_subagent
    check_entry_reachable visit roots adjacency
load_graph-IsStored_example =
    load_graph-IsStored ascii "graphs" "my-graph" files no_files [] ((no_files, "../secret") ∷ [])
      (build small) refl
