-- ===== src/Graph/Runtime/Routed.antt =====
-- Where the Supervisor can route to.
use fastapi_langgraph_templa.Common.{
  String, str_eq, eq_iff, ◌≡◌, refl, sym, ◌∙◌, subst, Option, none, some, false, Bool-cases, inl,
  inr, ◌↔◌,
}
use mathlib.Core.List.{Memᴰ}
use fastapi_langgraph_templa.Common.Dict.{lookup}
use fastapi_langgraph_templa.Graph.{NodeDef, AgentDefinition}
use fastapi_langgraph_templa.Graph.Validator.{valid, validate_graph}
use fastapi_langgraph_templa.Graph.Compiler.{build}
use fastapi_langgraph_templa.Graph.Compiler.Lookups.{compile_graph-lookup, node_map_sound}
use fastapi_langgraph_templa.Graph.Routing.{SupervisorDecision, action_text, is_final}
use fastapi_langgraph_templa.Graph.Runtime.{
  type_text, selected_node_id, check_selected, validate_decision, to_node, route_checked,
  supervisor_route,
}

-- a node with the id, of the type that the action names
abbrev pub IsMeant : AgentDefinition → SupervisorDecision → String → Type 0
IsMeant d dec id =
    (n : NodeDef) × Memᴰ n d.nodes × (n.id ≡ id) × (type_text n.type ≡ action_text dec.action)

routed_cases : (o : Option String) (id : String) → route_checked (some id) o ≡ to_node id → o ≡ none
routed_cases none id h = refl
routed_cases (some error) id h = cc

pub selected_cases :
    (dec : SupervisorDecision) (o : Option NodeDef)
    → check_selected dec o ≡ none
    → (n : NodeDef) × (o ≡ some n) × (type_text n.type ≡ action_text dec.action)
selected_cases dec none h = cc
selected_cases dec (some n) h =
    elim (Bool-cases (str_eq (type_text n.type) (action_text dec.action))) [
      | inl e ↦ (n, refl, (eq_iff (type_text n.type) (action_text dec.action)).0 e)
      | inr e ↦ cc (rw e at h)
    ]

route_at :
    (d : AgentDefinition) (dec : SupervisorDecision) (id : String)
    → is_final dec.action ≡ false
    → selected_node_id dec ≡ some id
    → supervisor_route (build d) (some dec)
      ≡ route_checked (some id) (check_selected dec (lookup id (build d).node_map))
unfolding supervisor_route validate_decision
route_at d dec id goes selected = rw (goes, selected) refl

-- In a valid graph, a decision that is not final and selects an id is routed to it exactly if a node
-- of the graph has that id and the type that the decision's action names.
supervisor_route_iff :
    (d : AgentDefinition) (dec : SupervisorDecision) (id : String)
    → validate_graph d ≡ valid
    → is_final dec.action ≡ false
    → selected_node_id dec ≡ some id
    → (supervisor_route (build d) (some dec) ≡ to_node id) ↔ IsMeant d dec id
supervisor_route_iff d dec id ok goes selected =
    let at = route_at d dec id goes selected in
    (
      λ h.
          let (n, found, same) =
            selected_cases dec (lookup id (build d).node_map)
              (routed_cases (check_selected dec (lookup id (build d).node_map)) id (sym at ∙ h)) in
          let (m, e) = node_map_sound d id n found in (n, m, e, same),
      λ (n, m, e, same).
          let found : lookup id (build d).node_map ≡ some n =
            subst (λ k. lookup k (build d).node_map ≡ some n) e (compile_graph-lookup d ok n m).1 in
          at ∙ rw (found, (eq_iff (type_text n.type) (action_text dec.action)).1 same) refl,
    )
