-- ===== src/Graph/Validator/Spec.antt =====
-- What a valid graph is, independently of how `validate_graph` finds it out.
use fastapi_langgraph_templa.Common.{
  ◌≤◌, String, ◌≡◌, ◌≢◌, List, [], ◌∷◌, Option, none, some, Bool, true, length, filter, ◌⊎◌, All,
}
use mathlib.Core.List.{Memᴰ}
use fastapi_langgraph_templa.Json.{Json, Items, text, arr, obj, nil, cons, end}
use fastapi_langgraph_templa.Graph.{
  NodeType, NodeDef, EdgeDef, AgentDefinition, is_supervisor, is_subagent, is_capability,
}
use fastapi_langgraph_templa.Graph.Validator.{ids, get_field}

abbrev pub Distinct : List String → Type 0
Distinct [] = Unit
Distinct (x ∷ xs) = (¬ Memᴰ x xs) × Distinct xs

-- the node is of the kind
abbrev pub HasKind : (NodeType → Bool) → AgentDefinition → String → Type 0
HasKind kind d id = (n : NodeDef) × Memᴰ n d.nodes × (kind n.type ≡ true) × (n.id ≡ id)

-- an edge of the graph, or the Supervisor's dispatch to a capability, or the return from it
abbrev pub Follows : AgentDefinition → String → String → Type 0
Follows d a b =
    ((e : EdgeDef) × Memᴰ e d.edges × (e.source ≡ a) × (e.target ≡ b))
    ⊎ (HasKind is_supervisor d a × HasKind is_capability d b)
    ⊎ (HasKind is_capability d a × HasKind is_supervisor d b)

-- an edge leads to the node
abbrev pub Entered : AgentDefinition → String → Type 0
Entered d a = (e : EdgeDef) × Memᴰ e d.edges × (e.target ≡ a)

-- where the graph starts: at its entry, if that is a node; otherwise at the nodes that no edge leads
-- to, or at every node if there are none of these
abbrev pub IsRoot : AgentDefinition → String → Type 0
IsRoot d a =
    (Memᴰ d.entry (ids d.nodes) × (a ≡ d.entry))
    ⊎ ((¬ Memᴰ d.entry (ids d.nodes))
        × Memᴰ a (ids d.nodes)
        × ((¬ Entered d a) ⊎ ((b : String) → Memᴰ b (ids d.nodes) → Entered d b)))

pub data Reaches (d : AgentDefinition) : String → Type 0 where
  root : {a : String} → IsRoot d a → Reaches d a
  follow : {a b : String} → Reaches d a → Follows d a b → Reaches d b

-- the children in a subagent's configuration are dicts, none of them of the type subagent
abbrev pub NoSubagents : Items → Type 0
NoSubagents nil = Unit
NoSubagents (cons (obj fs) rest) = (get_field "type" fs ≢ some (text "subagent")) × NoSubagents rest
NoSubagents (cons _ rest) = ⊥

abbrev pub IsFlat : Option Json → Type 0
IsFlat none = Unit
IsFlat (some (arr xs)) = NoSubagents xs
IsFlat (some (obj end)) = Unit
IsFlat (some (text s)) = s ≡ ""
IsFlat (some _) = ⊥

pub record IsValid (d : AgentDefinition) : Type 0 where
  pub distinct : Distinct (ids d.nodes)
  pub edges : All (λ e. Memᴰ e.source (ids d.nodes) × Memᴰ e.target (ids d.nodes)) d.edges
  pub one_supervisor : length (filter (λ n. is_supervisor n.type) d.nodes) ≤ 1
  pub flat : All (λ n. is_subagent n.type ≡ true → IsFlat (get_field "nodes" n.config)) d.nodes
  pub entry : (d.entry ≡ "START") ⊎ Memᴰ d.entry (ids d.nodes)
  pub reachable : (id : String) → Memᴰ id (ids d.nodes) → Reaches d id
