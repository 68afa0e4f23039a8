-- ===== src/Graph/Program/Landing.antt =====
-- Where the ways of a program lead, and the paths after a Supervisor.
use fastapi_langgraph_templa.Common.{
  String, str_eq, eq_iff, ◌≡◌, refl, ap, sym, ◌∙◌, subst, List, [], ◌∷◌, map, Option, some, true,
  inl, inr, Bool-cases, All, filter,
}
use mathlib.Core.List.{Memᴰ}
use mathlib.Core.List.Memᴰ
use fastapi_langgraph_templa.Common.Dict.{lookup, put, lookup-put, lookup-put_other}
use fastapi_langgraph_templa.Graph.{NodeDef, EdgeDef, AgentDefinition, is_capability}
use fastapi_langgraph_templa.Graph.Validator.{ids, valid, validate_graph}
use fastapi_langgraph_templa.Graph.Validator.Correct.{validate_graph_iff}
use fastapi_langgraph_templa.Graph.Compiler.{build}
use fastapi_langgraph_templa.Graph.Compiler.Lookups.{node_map_items}
use fastapi_langgraph_templa.Graph.Routing.Returns.{first_supervisor}
use fastapi_langgraph_templa.Graph.Program.{
  Target, finish, node, Way, goes, decides, Program, program, add_paths, supervisor_path_map,
  StateGraph, compile_langgraph, is_capability_node,
}
use fastapi_langgraph_templa.Graph.Program.Closed.{
  InGraph, StaysInGraph, IsClosed, Kind, plain, deciding, returning, kind_of, Has, Each-names,
  Each-All, add_ways-Each, started, item, leaving, along, way_plain, along_HasOneWay,
  HasOneWay-along, Mem-map, boss_of,
}

module _ (P : String × Target → Type 0) where
  All-put :
      (k : String) (t : Target) (d : List (String × Target))
      → P (k, t)
      → All P d
      → All P (put k t d)
  unfolding put
  All-put k t [] p h = (p, tt)
  All-put k t ((j, u) ∷ d) p h = elim (Bool-cases (str_eq j k)) [
    | inl e ↦ rw e (subst (λ x. P (x, t)) (sym ((eq_iff j k).0 e)) p, h.1)
    | inr e ↦ rw e (h.0, All-put k t d p h.1)
  ]

  All-add_paths :
      (ns : List NodeDef) (paths : List (String × Target))
      → ((n : NodeDef) → Memᴰ n ns → P (n.id, node n.id))
      → All P paths
      → All P (add_paths (map item ns) paths)
  unfolding add_paths
  All-add_paths [] paths each h = h
  All-add_paths (n ∷ ns) paths each h = elim (Bool-cases (is_capability_node n)) [
    | inl e ↦
        rw (e, add_paths)
          (All-add_paths ns (put n.id (node n.id) paths) (λ x m. each x (Memᴰ.tail m))
            (All-put n.id (node n.id) paths (each n (Memᴰ.head refl)) h))
    | inr e ↦ rw (e, add_paths) (All-add_paths ns paths (λ x m. each x (Memᴰ.tail m)) h)
  ]

abbrev Leads : String → List (String × Target) → Type 0
Leads k paths = lookup k paths ≡ some (node k)

put-Leads :
    (k j : String) (paths : List (String × Target)) → Leads k paths → Leads k (put j (node j) paths)
put-Leads k j paths h = elim (Bool-cases (str_eq j k)) [
  | inl e ↦
      subst (λ x. Leads x (put j (node j) paths)) ((eq_iff j k).0 e) (lookup-put j (node j) paths)
  | inr e ↦ lookup-put_other j k (node j) paths e ∙ h
]

add_paths-Leads :
    (k : String) (ns : List NodeDef) (paths : List (String × Target))
    → Leads k paths
    → Leads k (add_paths (map item ns) paths)
unfolding add_paths
add_paths-Leads k [] paths h = h
add_paths-Leads k (n ∷ ns) paths h = elim (Bool-cases (is_capability_node n)) [
  | inl e ↦
      rw (e, add_paths)
        (add_paths-Leads k ns (put n.id (node n.id) paths) (put-Leads k n.id paths h))
  | inr e ↦ rw (e, add_paths) (add_paths-Leads k ns paths h)
]

capability-Leads :
    (n : NodeDef) (ns : List NodeDef) (paths : List (String × Target))
    → Memᴰ n ns
    → is_capability n.type ≡ true
    → Leads n.id (add_paths (map item ns) paths)
unfolding add_paths
capability-Leads n [] paths m able = absurd (Memᴰ.not-nil m)
capability-Leads n (x ∷ ns) paths m able = elim (Memᴰ.cases_cons m) [
  | inl e ↦
      let able' : is_capability x.type ≡ true =
        subst (λ (y : NodeDef). is_capability y.type ≡ true) e able in
      rw (able', add_paths)
        (subst (λ (y : NodeDef). Leads y.id (add_paths (map item ns) (put x.id (node x.id) paths)))
          (sym e)
          (add_paths-Leads x.id ns (put x.id (node x.id) paths)
            (lookup-put x.id (node x.id) paths)))
  | inr later ↦ elim (Bool-cases (is_capability_node x)) [
    | inl e ↦ rw (e, add_paths) (capability-Leads n ns (put x.id (node x.id) paths) later able)
    | inr e ↦ rw (e, add_paths) (capability-Leads n ns paths later able)
  ]
]

path_map_items :
    (d : AgentDefinition)
    → validate_graph d ≡ valid
    → supervisor_path_map (build d) ≡ add_paths (map item d.nodes) (("__end__", finish) ∷ [])
unfolding supervisor_path_map
path_map_items d ok = ap (λ ns. add_paths ns (("__end__", finish) ∷ [])) (node_map_items d ok)

-- every capability of a valid graph has its path
pub supervisor_path_map-capability :
    (d : AgentDefinition) (n : NodeDef)
    → validate_graph d ≡ valid
    → Memᴰ n d.nodes
    → is_capability n.type ≡ true
    → lookup n.id (supervisor_path_map (build d)) ≡ some (node n.id)
supervisor_path_map-capability d n ok m able =
    ap (lookup n.id) (path_map_items d ok)
    ∙ capability-Leads n d.nodes (("__end__", finish) ∷ []) m able

along_InGraph :
    (d : AgentDefinition) (k : String) (es : List EdgeDef)
    → All (λ e. Memᴰ e.source (ids d.nodes) × Memᴰ e.target (ids d.nodes)) es
    → StaysInGraph d (along (filter (λ e. str_eq e.source k) es))
along_InGraph d k [] h = tt
along_InGraph d k (e ∷ es) h = elim (Bool-cases (str_eq e.source k)) [
  | inl own ↦ rw own h.0.1
  | inr other ↦ rw other (along_InGraph d k es h.1)
]

paths_InGraph :
    (d : AgentDefinition)
    → validate_graph d ≡ valid
    → All (λ p. InGraph d p.1) (supervisor_path_map (build d))
paths_InGraph d ok = subst (All (λ p. InGraph d p.1)) (sym (path_map_items d ok)) (
    All-add_paths (λ p. InGraph d p.1) d.nodes (("__end__", finish) ∷ [])
      (λ n m. Mem-map n d.nodes m) (tt, tt))

same_way : {v w : Way} {o : Option Way} → o ≡ some v → o ≡ some w → v ≡ w
same_way e f = cc

way_InGraph :
    (d : AgentDefinition)
    → validate_graph d ≡ valid
    → (n : NodeDef) (w : Way) → Memᴰ n d.nodes
    → Has d n w
    → Kind d n
    → StaysInGraph d w
way_InGraph d ok n w m h (plain p) =
    let one = along_HasOneWay (leaving d n) w (sym (way_plain d ok n m p) ∙ h) in
    subst (StaysInGraph d) (same_way (way_plain d ok n m p ∙ HasOneWay-along (leaving d n) one) h)
      (along_InGraph d n.id d.edges ((validate_graph_iff d).0 ok).edges)
way_InGraph d ok n w m h (deciding is) =
    let here_ : Has d n (decides (supervisor_path_map (build d))) = rw is refl in
    subst (StaysInGraph d) (same_way here_ h) (paths_InGraph d ok)
way_InGraph d ok n w m h (returning boss other able is) =
    let here_ : Has d n (goes (node boss)) = rw (other, able, boss_of d, is) refl in
    subst (StaysInGraph d) (same_way here_ h) (first_supervisor d.nodes boss is)

-- A program that `compile_langgraph` builds for a valid graph has exactly one way out of every node,
-- starts at a node of the graph, and each of its edges and paths leads to a node of the graph or to
-- the END.
pub compile_langgraph-IsClosed :
    (builder : StateGraph) (d : AgentDefinition) (p : Program)
    → validate_graph d ≡ valid
    → compile_langgraph builder (build d) ≡ program p
    → IsClosed d p
compile_langgraph-IsClosed builder d p ok h =
    let (entry, same, ways, _, _) = started builder d ok p h in
    let each = add_ways-Each d d.nodes p.ways ways in
    record {
      start = subst (λ k. Memᴰ k (ids d.nodes)) (sym same) entry;
      nodes = Each-names (Has d) d.nodes p.ways each;
      ways =
          Each-All (Has d) (StaysInGraph d) d.nodes p.ways
            (λ n w m e. way_InGraph d ok n w m e (kind_of d n)) each;
    }
