-- ===== src/Graph/Routing/Returns.antt =====
-- Where a compiled graph routes to.
use fastapi_langgraph_templa.Common.{
  String, str_eq, ◌≡◌, refl, sym, ◌∙◌, subst, List, [], ◌∷◌, Option, none, some, true, false,
  filter, Bool-cases, inl, inr, All,
}
use mathlib.Core.List.{Memᴰ}
use fastapi_langgraph_templa.Graph.{NodeDef, EdgeDef, AgentDefinition, is_capability, is_supervisor}
use fastapi_langgraph_templa.Graph.Validator.{ids, valid, validate_graph, supervisors}
use fastapi_langgraph_templa.Graph.Validator.Correct.{validate_graph_iff}
use fastapi_langgraph_templa.Graph.Compiler.{build, first_id}
use fastapi_langgraph_templa.Graph.Compiler.Lookups.{compile_graph-lookup}
use fastapi_langgraph_templa.Graph.Routing.{SupervisorDecision, route_next, follow_edges}

pub first_supervisor :
    (ns : List NodeDef) (t : String) → first_id (supervisors ns) ≡ some t → Memᴰ t (ids ns)
first_supervisor [] t h = cc
first_supervisor (n ∷ ns) t h = elim (Bool-cases (is_supervisor n.type)) [
  | inl is ↦ let same : some n.id ≡ some t = rw is at h in Memᴰ.head (cc same)
  | inr other ↦ Memᴰ.tail (first_supervisor ns t (rw other at h))
]

first_target :
    (k : String) (known : List String) (es : List EdgeDef) (t : String)
    → All (λ e. Memᴰ e.source known × Memᴰ e.target known) es
    → follow_edges (filter (λ e. str_eq e.source k) es) none ≡ some t
    → Memᴰ t known
first_target k known [] t inside h = cc
first_target k known (e ∷ es) t inside h = elim (Bool-cases (str_eq e.source k)) [
  | inl own ↦
      let same : some e.target ≡ some t = rw own at h in
      subst (λ s. Memᴰ s known) (cc same) inside.0.1
  | inr other ↦ first_target k known es t inside.1 (rw other at h)
]

build-supervisor : (d : AgentDefinition) → (build d).supervisor_id ≡ first_id (supervisors d.nodes)
unfolding build
build-supervisor d = refl

-- After a capability of a valid graph the route goes to the Supervisor (invariant A3), whatever the
-- decision and the edges are.
pub capability_returns :
    (d : AgentDefinition) (n : NodeDef) (decision : Option SupervisorDecision)
    → validate_graph d ≡ valid
    → Memᴰ n d.nodes
    → is_capability n.type ≡ true
    → route_next (build d) n.id decision ≡ first_id (supervisors d.nodes)
unfolding route_next
capability_returns d n decision ok m is =
    let (_, node, edges) = compile_graph-lookup d ok n m in rw (node, is) (build-supervisor d)

along_edges :
    (d : AgentDefinition) (n : NodeDef)
    → validate_graph d ≡ valid
    → Memᴰ n d.nodes
    → is_capability n.type ≡ false
    → route_next (build d) n.id none
      ≡ follow_edges (filter (λ e. str_eq e.source n.id) d.edges) none
unfolding route_next
along_edges d n ok m other =
    let (_, node, edges) = compile_graph-lookup d ok n m in rw (node, other, edges) refl

-- From a node of a valid graph, without a decision, the next node is a node of the graph, if there
-- is one.
route_next-known :
    (d : AgentDefinition) (n : NodeDef) (t : String)
    → validate_graph d ≡ valid
    → Memᴰ n d.nodes
    → route_next (build d) n.id none ≡ some t
    → Memᴰ t (ids d.nodes)
route_next-known d n t ok m h = elim (Bool-cases (is_capability n.type)) [
  | inl is ↦ first_supervisor d.nodes t (sym (capability_returns d n none ok m is) ∙ h)
  | inr other ↦
      first_target n.id (ids d.nodes) d.edges t ((validate_graph_iff d).0 ok).edges
        (sym (along_edges d n ok m other) ∙ h)
]
