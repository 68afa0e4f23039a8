-- ===== src/Graph/Compiler.antt =====
-- app/graph/compiler.py: `compile_graph`.
pub mod Lookups
use fastapi_langgraph_templa.Common.{String, List, [], ◌∷◌, Option, none, some}
use fastapi_langgraph_templa.Common.Dict.{put, append_to}
use fastapi_langgraph_templa.Graph.{NodeDef, EdgeDef, AgentDefinition, CompiledGraph}
use fastapi_langgraph_templa.Graph.Validator.{
  Fault, Check, valid, invalid, validate_graph, supervisors,
}

-- `{key(x): value(x) for x in xs}`, from the items before
unfoldable pub put_all {ℓ κ} :
    {A : Type ℓ} {V : Type κ}
    → (A → String)
    → (A → V)
    → List A
    → List (String × V)
    → List (String × V)
put_all key value [] d = d
put_all key value (x ∷ xs) d = put_all key value xs (put (key x) (value x) d)

-- `for edge in definition.edges`
unfoldable pub add_edges :
    List EdgeDef → List (String × List EdgeDef) → List (String × List EdgeDef)
add_edges [] d = d
add_edges (e ∷ es) d = add_edges es (append_to e.source e d)

abbrev pub first_id : List NodeDef → Option String
first_id [] = none
first_id (n ∷ ns) = some n.id

unfoldable pub build : AgentDefinition → CompiledGraph
build definition = record {
  definition = definition;
  node_map = put_all (λ (n : NodeDef). n.id) (λ n. n) definition.nodes [];
  out_edges =
      add_edges definition.edges (put_all (λ (n : NodeDef). n.id) (λ n. []) definition.nodes []);
  supervisor_id = first_id (supervisors definition.nodes);
  entry_id = definition.entry;
  exit_id = definition.exit;
}

-- the compiled graph, or the fault that `validate_graph` raised
pub data Compiled : Type 0 where
  compiled : CompiledGraph → Compiled
  rejected : Fault → Compiled

abbrev pub compile_checked : AgentDefinition → Check → Compiled
compile_checked definition valid = compiled (build definition)
compile_checked definition (invalid fault) = rejected fault

unfoldable pub compile_graph : AgentDefinition → Compiled
compile_graph definition = compile_checked definition (validate_graph definition)
