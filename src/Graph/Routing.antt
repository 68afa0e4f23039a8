-- ===== src/Graph/Routing.antt =====
-- app/graph/routing.py: `route_next`. `_find_conditional` is reached only without a decision, and
-- then finds nothing; it is modelled as it is written.
pub mod Returns
use fastapi_langgraph_templa.Common.{
  String, str_eq, List, [], ◌∷◌, Option, none, some, Bool, true, false, ◌&&◌, not, if◌then◌else◌,
}
use fastapi_langgraph_templa.Common.Dict.{lookup}
use fastapi_langgraph_templa.Json.{Fields}
use fastapi_langgraph_templa.Graph.{NodeDef, EdgeDef, CompiledGraph, is_capability}

-- the literals of the field `action`
pub data Action : Type 0 where
  tool rag subagent approval final : Action

abbrev pub action_text : Action → String
action_text tool = "tool"
action_text rag = "rag"
action_text subagent = "subagent"
action_text approval = "approval"
action_text final = "final"

abbrev pub is_final : Action → Bool
is_final final = true
is_final _ = false

-- SupervisorDecision of app/core/state.py, the fields that the runtime reads; `tool_name` and
-- `knowledge_base_id` are those of the dict `resource`
pub record SupervisorDecision : Type 0 where
  pub action : Action
  pub capability_node_id : Option String
  pub tool_name : Option String
  pub knowledge_base_id : Option String
  pub input : Option Fields
  pub target : Option String
  pub final_response : Option String

-- `edge.condition and edge.condition == decision.action`
abbrev pub condition_is : String → Option String → Bool
condition_is action none = false
condition_is action (some c) = not (str_eq c "") && str_eq c action

abbrev pub find_conditional : List EdgeDef → Option SupervisorDecision → Option EdgeDef
find_conditional edges none = none
find_conditional [] (some decision) = none
find_conditional (e ∷ es) (some decision) =
    let rest = find_conditional es (some decision) in
    if condition_is (action_text decision.action) e.condition then some e else rest

-- `compiled.out_edges.get(current_node_id, [])`
abbrev pub edges_of : Option (List EdgeDef) → List EdgeDef
edges_of none = []
edges_of (some es) = es

abbrev pub follow_edges : List EdgeDef → Option SupervisorDecision → Option String
follow_edges [] decision = none
follow_edges (e ∷ es) decision = elim (find_conditional (e ∷ es) decision) [
  | none ↦ some e.target
  | some c ↦ some c.target
]

-- without the return of a capability
abbrev pub route_on : List EdgeDef → Option SupervisorDecision → Option String
route_on edges (some decision) = if is_final decision.action then none else decision.target
route_on edges none = follow_edges edges none

abbrev pub returns : Option NodeDef → Bool
returns none = false
returns (some n) = is_capability n.type

-- `none` is the END
unfoldable pub route_next : CompiledGraph → String → Option SupervisorDecision → Option String
route_next compiled current_node_id decision =
    if returns (lookup current_node_id compiled.node_map)
    then compiled.supervisor_id
    else route_on (edges_of (lookup current_node_id compiled.out_edges)) decision
