-- ===== src/Graph/Validator.antt =====
-- app/graph/validator.py. A GraphValidationError is a fault; `broken_child` is the TypeError or
-- AttributeError of a `nodes` entry in a subagent's configuration that is no list of dicts. The
-- check of the node types has nothing left to do: pydantic admits only the members of NodeType.
-- A set of ids is the list of its elements, perhaps repeated; no result depends on the order.
pub mod Spec
pub mod Roots
pub mod Adjacency
pub mod Search
pub mod Checks
pub mod Reachable
pub mod Correct
use fastapi_langgraph_templa.Common.{
  ℕ, zero, suc, ◌+◌, ◌*◌, String, str_eq, List, [], ◌∷◌, ◌++◌, map, Option, none, some, Bool, true,
  false, ◌&&◌, ◌||◌, not, if◌then◌else◌, ltb, length, filter, any,
}
use fastapi_langgraph_templa.Common.Names.{contains}
use fastapi_langgraph_templa.Json.{
  Json, Items, Fields, null, bool, num, text, arr, obj, nil, cons, end, field,
}
use fastapi_langgraph_templa.Graph.{
  NodeType, NodeDef, EdgeDef, AgentDefinition, is_supervisor, is_subagent, is_capability,
}

pub data Fault : Type 0 where
  duplicate_id : String → Fault
  bad_source bad_target : String → Fault
  many_supervisors : ℕ → Fault
  nested_subagent broken_child : Fault
  bad_entry : String → Fault
  unreachable : List String → Fault

-- `valid`, or the error that was raised
pub data Check : Type 0 where
  valid : Check
  invalid : Fault → Check

-- one check after the other
infixl 5 ◌and_then◌
abbrev pub ◌and_then◌ : Check → Check → Check
valid and_then c = c
invalid f and_then c = invalid f

abbrev pub ids : List NodeDef → List String
ids = map (λ (n : NodeDef). n.id)

unfoldable pub duplicates_from : List String → List NodeDef → Check
duplicates_from seen [] = valid
duplicates_from seen (n ∷ ns) =
    if contains seen n.id then invalid (duplicate_id n.id) else duplicates_from (n.id ∷ seen) ns

unfoldable pub edges_within : List String → List EdgeDef → Check
edges_within known [] = valid
edges_within known (e ∷ es) =
    if contains known e.source
    then if contains known e.target then edges_within known es else invalid (bad_target e.target)
    else invalid (bad_source e.source)

abbrev pub supervisors : List NodeDef → List NodeDef
supervisors = filter (λ n. is_supervisor n.type)

unfoldable pub check_at_most_one_supervisor : List NodeDef → Check
check_at_most_one_supervisor ns =
    if ltb 1 (length (supervisors ns))
    then invalid (many_supervisors (length (supervisors ns)))
    else valid

-- `d.get(key)`
unfoldable pub get_field : String → Fields → Option Json
get_field key end = none
get_field key (field k v fs) = if str_eq k key then some v else get_field key fs

-- `child.get("type") == "subagent"`
abbrev pub says_subagent : Option Json → Bool
says_subagent (some (text s)) = str_eq s "subagent"
says_subagent _ = false

unfoldable pub check_children : Items → Check
unfolding get_field
check_children nil = valid
check_children (cons (obj fs) rest) =
    if says_subagent (get_field "type" fs) then invalid nested_subagent else check_children rest
check_children (cons _ rest) = invalid broken_child

-- `for child in config.get("nodes", [])`
unfoldable pub check_nodes_entry : Option Json → Check
unfolding check_children
check_nodes_entry none = valid
check_nodes_entry (some (arr xs)) = check_children xs
check_nodes_entry (some (obj end)) = valid
check_nodes_entry (some (text s)) = if str_eq s "" then valid else invalid broken_child
check_nodes_entry (some _) = invalid broken_child

unfoldable pub check_no_nested_subagent : List NodeDef → Check
unfolding check_nodes_entry get_field
check_no_nested_subagent [] = valid
check_no_nested_subagent (n ∷ ns) =
    (if is_subagent n.type then check_nodes_entry (get_field "nodes" n.config) else valid)
    and_then check_no_nested_subagent ns

-- the ids of the nodes of a kind
abbrev pub ids_of : (NodeType → Bool) → List NodeDef → List String
ids_of kind ns = ids (filter (λ n. kind n.type) ns)

abbrev pub edge_targets : String → List EdgeDef → List String
edge_targets id es = map (λ (e : EdgeDef). e.target) (filter (λ e. str_eq e.source id) es)

-- `adjacency[id]`: the edges, and the implicit dispatch and return of the Supervisor
unfoldable pub adjacency : AgentDefinition → String → List String
adjacency d id =
    edge_targets id d.edges
    ++ ((if contains (ids_of is_supervisor d.nodes) id then ids_of is_capability d.nodes else [])
        ++ (if contains (ids_of is_capability d.nodes) id
            then ids_of is_supervisor d.nodes
            else []))

-- without an entry: the nodes with no incoming edge, or else all of them
abbrev pub or_all : List String → List String → List String
or_all [] known = known
or_all (r ∷ rs) known = r ∷ rs

unfoldable pub roots : AgentDefinition → List String
roots d =
    if contains (ids d.nodes) d.entry
    then d.entry ∷ []
    else or_all
        (filter (λ id. not (contains (map (λ (e : EdgeDef). e.target) d.edges) id)) (ids d.nodes))
        (ids d.nodes)

-- The `while frontier` loop; the head of the list is the end of the frontier. `none` would mean that
-- the fuel ran out.
unfoldable pub visit : (String → List String) → ℕ → List String → List String → Option (List String)
visit next fuel [] seen = some seen
visit next zero (id ∷ frontier) seen = none
visit next (suc fuel) (id ∷ frontier) seen =
    let skip = visit next fuel frontier seen in
    let expand =
      visit next fuel (filter (λ m. not (contains (id ∷ seen) m)) (next id) ++ frontier)
        (id ∷ seen) in
    if contains seen id then skip else expand

-- the rounds that are enough: see `visit-total`
abbrev pub enough : AgentDefinition → ℕ
enough d =
    length (roots d) + length (ids d.nodes) * (length d.edges + (length d.nodes + length d.nodes))

abbrev pub report : List String → Option (List String) → Check
report known none = valid
report known (some seen) = elim (filter (λ id. not (contains seen id)) known) [
  | [] ↦ valid
  | id ∷ rest ↦ invalid (unreachable (id ∷ rest))
]

unfoldable pub check_entry_reachable : AgentDefinition → Check
check_entry_reachable d =
    if not (str_eq d.entry "START") && not (contains (ids d.nodes) d.entry)
    then invalid (bad_entry d.entry)
    else report (ids d.nodes) (visit (adjacency d) (enough d) (roots d) [])

unfoldable pub validate_graph : AgentDefinition → Check
validate_graph d =
    duplicates_from [] d.nodes
    and_then edges_within (ids d.nodes) d.edges
    and_then check_at_most_one_supervisor d.nodes
    and_then check_no_nested_subagent d.nodes
    and_then check_entry_reachable d
