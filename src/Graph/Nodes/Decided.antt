-- ===== src/Graph/Nodes/Decided.antt =====
-- Where a Supervisor that ran leads.
use fastapi_langgraph_templa.Common.{
  String, str_eq, eq_iff, ◌≡◌, refl, ap, sym, ◌∙◌, subst, Option, none, some, true, false, ◌⊎◌, inl,
  inr, Bool-cases,
}
use mathlib.Core.List.{Memᴰ}
use fastapi_langgraph_templa.Common.Dict.{lookup, lookup-put}
use fastapi_langgraph_templa.State.{NormalizedError}
use fastapi_langgraph_templa.Json.{text}
use fastapi_langgraph_templa.Events.Emitter.{Emitter}
use fastapi_langgraph_templa.ModelsGateway.Completion.{ModelRequest, ModelResult}
use fastapi_langgraph_templa.Graph.{
  NodeType, NodeDef, AgentDefinition, CompiledGraph, is_capability,
}
use fastapi_langgraph_templa.Graph.Validator.{ids, valid, validate_graph}
use fastapi_langgraph_templa.Graph.Compiler.{build}
use fastapi_langgraph_templa.Graph.Compiler.Lookups.{node_map_sound}
use fastapi_langgraph_templa.Graph.Routing.{SupervisorDecision, Action, action_text, is_final}
use fastapi_langgraph_templa.Graph.Runtime.{
  Node, type_text, selected_node_id, or_blank, check_selected, validate_decision, ended, to_node,
  route_checked, supervisor_route,
}
use fastapi_langgraph_templa.Graph.Runtime.Routed.{selected_cases}
use fastapi_langgraph_templa.Graph.Program.{node, supervisor_path_map}
use fastapi_langgraph_templa.Graph.Program.Landing.{supervisor_path_map-capability}
use fastapi_langgraph_templa.Graph.Program.Closed.{Mem-map}
use fastapi_langgraph_templa.Graph.Nodes.{
  GraphState, Patch, patched, Dependencies, apply_patch, merge_dict,
}
use fastapi_langgraph_templa.Graph.Nodes.Models.{
  decision_patch, decided_or, supervisor_answered, supervisor_called, run_supervisor,
}

decided_inv :
    (d : SupervisorDecision) (o : Option String) (p : Patch)
    → decided_or d o ≡ patched p
    → (o ≡ none) × (decision_patch d ≡ p)
decided_inv d none p h = (refl, cc)
decided_inv d (some error) p h = cc

module _ (k : Node) (deps : Dependencies) (compiled : CompiledGraph) where
  answered_inv :
      (r : ModelResult SupervisorDecision) (e : Option NormalizedError)
      (o : Option SupervisorDecision) (m : Emitter) (p : Patch)
      → (supervisor_answered k deps compiled r e o m).1 ≡ patched p
      → (d : SupervisorDecision) × (validate_decision d compiled ≡ none) × (decision_patch d ≡ p)
  answered_inv r (some e) o m p h = cc
  answered_inv r none none m p h = cc
  answered_inv r none (some d) m p h =
      let (ok, same) = decided_inv d (validate_decision d compiled) p h in (d, ok, same)

  called_inv :
      (o : Option ModelRequest) (m : Emitter) (p : Patch)
      → (supervisor_called k deps compiled o m).1 ≡ patched p
      → (d : SupervisorDecision) × (validate_decision d compiled ≡ none) × (decision_patch d ≡ p)
  called_inv none m p h = cc
  called_inv (some request) m p h =
      answered_inv (deps.gateway request) (deps.gateway request).error
        (deps.gateway request).structured m p h

  -- a Supervisor that gives a patch has made a decision that is valid
  pub supervisor_decides :
      (s : GraphState) (m : Emitter) (p : Patch)
      → (run_supervisor k deps compiled s m).1 ≡ patched p
      → (d : SupervisorDecision) × (validate_decision d compiled ≡ none) × (decision_patch d ≡ p)
  unfolding run_supervisor
  supervisor_decides s m p h = called_inv _ _ p h

-- the action of a decision never names a type that is no capability
no_action :
    (t : NodeType)
    → is_capability t ≡ false
    → (a : Action) → str_eq (type_text t) (action_text a) ≡ false
no_action NodeType.llm e Action.tool = refl
no_action NodeType.llm e Action.rag = refl
no_action NodeType.llm e Action.subagent = refl
no_action NodeType.llm e Action.approval = refl
no_action NodeType.llm e Action.final = refl
no_action NodeType.supervisor e Action.tool = refl
no_action NodeType.supervisor e Action.rag = refl
no_action NodeType.supervisor e Action.subagent = refl
no_action NodeType.supervisor e Action.approval = refl
no_action NodeType.supervisor e Action.final = refl
no_action NodeType.transform e Action.tool = refl
no_action NodeType.transform e Action.rag = refl
no_action NodeType.transform e Action.subagent = refl
no_action NodeType.transform e Action.approval = refl
no_action NodeType.transform e Action.final = refl
no_action NodeType.tool e a = cc
no_action NodeType.rag e a = cc
no_action NodeType.subagent e a = cc
no_action NodeType.approval e a = cc

capability_of : (t : NodeType) (a : Action) → type_text t ≡ action_text a → is_capability t ≡ true
capability_of t a h = elim (Bool-cases (is_capability t)) [
  | inl able ↦ able
  | inr plain ↦ cc ((eq_iff (type_text t) (action_text a)).1 h, no_action t plain a)
]

-- the graph ends with the response of the decision, or it goes on to a capability of the kind that
-- the action names, on one of the paths of the program
abbrev pub Lands : AgentDefinition → SupervisorDecision → GraphState → Type 0
Lands d dec s =
    ((supervisor_route (build d) s.decision ≡ ended)
      × (lookup "final_response" s.data_ ≡ some (text (or_blank dec.final_response))))
    ⊎ ((n : NodeDef) × Memᴰ n d.nodes
        × (supervisor_route (build d) s.decision ≡ to_node n.id)
        × (type_text n.type ≡ action_text dec.action)
        × (is_capability n.type ≡ true)
        × (lookup n.id (supervisor_path_map (build d)) ≡ some (node n.id)))

final-Lands :
    (d : AgentDefinition) (dec : SupervisorDecision) (s : GraphState)
    → is_final dec.action ≡ true
    → Lands d dec (apply_patch s (decision_patch dec))
unfolding apply_patch supervisor_route merge_dict
final-Lands d dec s is =
    inl
      (rw is refl, rw is (lookup-put "final_response" (text (or_blank dec.final_response)) s.data_))

goes_at :
    (d : AgentDefinition) (dec : SupervisorDecision)
    → is_final dec.action ≡ false
    → validate_decision dec (build d) ≡ none
    → check_selected dec (lookup (or_blank (selected_node_id dec)) (build d).node_map) ≡ none
unfolding validate_decision
goes_at d dec goes ok = rw goes at ok

route_to :
    (d : AgentDefinition) (dec : SupervisorDecision) (id : String)
    → is_final dec.action ≡ false
    → selected_node_id dec ≡ some id
    → check_selected dec (lookup (or_blank (selected_node_id dec)) (build d).node_map) ≡ none
    → supervisor_route (build d) (some dec) ≡ to_node id
unfolding supervisor_route validate_decision
route_to d dec id goes selected checked =
    let at = ap (λ o. check_selected dec (lookup (or_blank o) (build d).node_map)) selected in
    rw (goes, selected) (ap (route_checked (some id)) (sym at ∙ checked))

selected-Lands :
    (d : AgentDefinition) (dec : SupervisorDecision) (s : GraphState) (o : Option String)
    → validate_graph d ≡ valid
    → (¬ Memᴰ "" (ids d.nodes))
    → is_final dec.action ≡ false
    → validate_decision dec (build d) ≡ none
    → selected_node_id dec ≡ o
    → Lands d dec (apply_patch s (decision_patch dec))
unfolding apply_patch supervisor_route
selected-Lands d dec s none ok blank goes checked selected =
    let (n, found, _) =
      selected_cases dec (lookup (or_blank (selected_node_id dec)) (build d).node_map)
        (goes_at d dec goes checked) in
    let (m, id) = node_map_sound d (or_blank (selected_node_id dec)) n found in
    absurd
      (blank (subst (λ x. Memᴰ x (ids d.nodes)) (id ∙ ap or_blank selected) (Mem-map n d.nodes m)))
selected-Lands d dec s (some id) ok blank goes checked selected =
    let (n, found, same) =
      selected_cases dec (lookup (or_blank (selected_node_id dec)) (build d).node_map)
        (goes_at d dec goes checked) in
    let (m, is) = node_map_sound d (or_blank (selected_node_id dec)) n found in
    let own : id ≡ n.id = ap or_blank (sym selected) ∙ sym is in
    let able = capability_of n.type dec.action same in
    inr (
      n,
      m,
      route_to d dec id goes selected (goes_at d dec goes checked) ∙ ap to_node own,
      same,
      able,
      supervisor_path_map-capability d n ok m able,
    )

-- If a Supervisor of a valid graph gives a patch, then the state with the patch leads on: either its
-- decision is final, the route is the END and the state holds its response, or the route is a node
-- of the graph, which is a capability of the type that the action names, and the program has the
-- path. No node may have the empty id.
pub run_supervisor-Lands :
    (k : Node) (deps : Dependencies) (d : AgentDefinition) (s : GraphState) (m : Emitter)
    (p : Patch)
    → validate_graph d ≡ valid
    → (¬ Memᴰ "" (ids d.nodes))
    → (run_supervisor k deps (build d) s m).1 ≡ patched p
    → (dec : SupervisorDecision) × ((apply_patch s p).decision ≡ some dec)
      × Lands d dec (apply_patch s p)
unfolding apply_patch
run_supervisor-Lands k deps d s m p ok blank h =
    let (dec, checked, same) = supervisor_decides k deps (build d) s m p h in
    let landed : Lands d dec (apply_patch s (decision_patch dec)) =
      elim (Bool-cases (is_final dec.action)) [
        | inl final ↦ final-Lands d dec s final
        | inr goes ↦ selected-Lands d dec s (selected_node_id dec) ok blank goes checked refl
      ] in
    (
      dec,
      ap (λ (q : Patch). (apply_patch s q).decision) (sym same),
      subst (λ (q : Patch). Lands d dec (apply_patch s q)) same landed,
    )
