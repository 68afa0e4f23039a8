-- ===== src/Graph/Program/Closed.antt =====
-- Which graphs `compile_langgraph` builds, and where the ways of a program lead.
use fastapi_langgraph_templa.Common.{
  String, str_eq, ◌≡◌, refl, ap, sym, ◌∙◌, subst, List, [], ◌∷◌, map, Option, none, some, Bool,
  if◌then◌else◌, true, false, ◌↔◌, ◌⊎◌, inl, inr, Bool-cases, Option-cases, All, filter, is_none,
}
use mathlib.Core.List.{Memᴰ}
use mathlib.Core.List.Memᴰ
use fastapi_langgraph_templa.Common.Dict.{lookup}
use fastapi_langgraph_templa.Graph.{NodeDef, EdgeDef, AgentDefinition, is_supervisor, is_capability}
use fastapi_langgraph_templa.Graph.Validator.{ids, supervisors, valid, validate_graph}
use fastapi_langgraph_templa.Graph.Compiler.{build, first_id}
use fastapi_langgraph_templa.Graph.Compiler.Lookups.{
  compile_graph-lookup, node_map_items, node_map_sound,
}
use fastapi_langgraph_templa.Graph.Program.{
  Target, finish, node, Way, goes, decides, Program, program, refused, explicit_edge,
  supervisor_path_map, return_or_along, StateGraph, BuiltProgram, langgraph_error, add_all_ways,
  accepted, nodes_added, node_ids, way_along, way_at, add_way, add_ways, started_at,
  compile_langgraph,
}

-- the edges that leave a node
abbrev pub leaving : AgentDefinition → NodeDef → List EdgeDef
leaving d n = filter (λ e. str_eq e.source n.id) d.edges

-- the edges of a node decide where it goes: it is no Supervisor, and no capability of a graph that has one
abbrev pub IsPlain : AgentDefinition → NodeDef → Type 0
IsPlain d n =
    (is_supervisor n.type ≡ false)
    × ((is_capability n.type ≡ false) ⊎ (first_id (supervisors d.nodes) ≡ none))

-- no edge, or one without a condition
abbrev pub HasOneWay : List EdgeDef → Type 0
HasOneWay [] = Unit
HasOneWay (e ∷ []) = e.condition ≡ none
HasOneWay (e ∷ f ∷ es) = ⊥

-- the entry names a node, and each plain node has one way
pub record IsRunnable (d : AgentDefinition) : Type 0 where
  pub entry : Memᴰ d.entry (ids d.nodes)
  pub one_way : (n : NodeDef) → Memᴰ n d.nodes → IsPlain d n → HasOneWay (leaving d n)

explicit_many :
    (us : List EdgeDef) (e f : EdgeDef) (es : List EdgeDef) → explicit_edge us (e ∷ f ∷ es) ≡ none
explicit_many [] e f es = refl
explicit_many (u ∷ []) e f es = refl
explicit_many (u ∷ v ∷ us) e f es = refl

pub along_HasOneWay : (es : List EdgeDef) (w : Way) → way_along es ≡ some w → HasOneWay es
along_HasOneWay [] w h = tt
along_HasOneWay (e ∷ []) w h = elim (Option-cases e.condition) [
  | inl plain ↦ plain
  | inr (c, has) ↦ cc (rw has at h)
]
along_HasOneWay (e ∷ f ∷ es) w h =
    cc (explicit_many (filter (λ x. is_none x.condition) (e ∷ f ∷ es)) e f es, h)

-- the target of the only edge, or the END
abbrev pub along : List EdgeDef → Way
along [] = goes finish
along (e ∷ _) = goes (node e.target)

pub HasOneWay-along : (es : List EdgeDef) → HasOneWay es → way_along es ≡ some (along es)
HasOneWay-along [] h = refl
HasOneWay-along (e ∷ []) h = rw h refl
HasOneWay-along (e ∷ f ∷ es) h = elim h [ ]

pub Mem-map : (n : NodeDef) (ns : List NodeDef) → Memᴰ n ns → Memᴰ n.id (ids ns)
Mem-map n [] m = absurd (Memᴰ.not-nil m)
Mem-map n (x ∷ ns) m = elim (Memᴰ.cases_cons m) [
  | inl e ↦ Memᴰ.head (ap (λ (y : NodeDef). y.id) e)
  | inr later ↦ Memᴰ.tail (Mem-map n ns later)
]

Mem-ids :
    (k : String) (ns : List NodeDef) → Memᴰ k (ids ns) → (n : NodeDef) × Memᴰ n ns × (n.id ≡ k)
Mem-ids k [] m = absurd (Memᴰ.not-nil m)
Mem-ids k (x ∷ ns) m = elim (Memᴰ.cases_cons m) [
  | inl e ↦ (x, Memᴰ.head refl, sym e)
  | inr later ↦ let (n, p, e) = Mem-ids k ns later in (n, Memᴰ.tail p, e)
]

module _ (d : AgentDefinition) where
  -- how a node is led: by its edges, or else by a decision, or back to the Supervisor
  pub data Kind (n : NodeDef) : Type 0 where
    plain : IsPlain d n → Kind n
    deciding : is_supervisor n.type ≡ true → Kind n
    returning :
        (boss : String)
        → is_supervisor n.type ≡ false
        → is_capability n.type ≡ true
        → first_id (supervisors d.nodes) ≡ some boss
        → Kind n

  pub kind_of : (n : NodeDef) → Kind n
  kind_of n = elim (Bool-cases (is_supervisor n.type)) [
    | inl is ↦ deciding is
    | inr other ↦ elim (Bool-cases (is_capability n.type)) [
      | inr simple ↦ plain (other, inl simple)
      | inl able ↦ elim (Option-cases (first_id (supervisors d.nodes))) [
        | inl alone ↦ plain (other, inr alone)
        | inr (boss, is) ↦ returning boss other able is
      ]
    ]
  ]

pub boss_of : (d : AgentDefinition) → (build d).supervisor_id ≡ first_id (supervisors d.nodes)
unfolding build
boss_of d = refl

alone_along : (b : Bool) (es : List EdgeDef) → return_or_along b none es ≡ way_along es
alone_along true es = refl
alone_along false es = refl

module _ (d : AgentDefinition) (ok : validate_graph d ≡ valid) (n : NodeDef)
    (m : Memᴰ n d.nodes) where
  pub way_plain : IsPlain d n → way_at (build d) n.type n.id ≡ way_along (leaving d n)
  way_plain (other, why) =
      let (_, _, edges) = compile_graph-lookup d ok n m in
      elim why [
        | inl simple ↦ rw (other, simple, edges) refl
        | inr alone ↦
            rw (other, boss_of d, alone, edges) (alone_along (is_capability n.type) (leaving d n))
      ]

  -- every node that is not plain has a way
  way_of :
      Kind d n
      → (IsPlain d n → HasOneWay (leaving d n))
      → (w : Way) × (way_at (build d) n.type n.id ≡ some w)
  way_of (plain p) one = (along (leaving d n), way_plain p ∙ HasOneWay-along (leaving d n) (one p))
  way_of (deciding is) one = (decides (supervisor_path_map (build d)), rw is refl)
  way_of (returning boss other able is) one =
      (goes (node boss), rw (other, able, boss_of d, is) refl)

-- the END or a node of the graph
abbrev pub InGraph : AgentDefinition → Target → Type 0
InGraph d finish = Unit
InGraph d (node t) = Memᴰ t (ids d.nodes)

abbrev pub StaysInGraph : AgentDefinition → Way → Type 0
StaysInGraph d (goes t) = InGraph d t
StaysInGraph d (decides paths) = All (λ p. InGraph d p.1) paths

-- every node has one way, and every way leads to a node or to the END
pub record IsClosed (d : AgentDefinition) (p : Program) : Type 0 where
  pub start : Memᴰ p.start (ids d.nodes)
  pub nodes : map (λ (w : String × Way). w.0) p.ways ≡ ids d.nodes
  pub ways : All (λ w. StaysInGraph d w.1) p.ways

abbrev pub item : NodeDef → String × NodeDef
item n = (n.id, n)

add_ways-built :
    (d : AgentDefinition) (ns : List NodeDef)
    → ((n : NodeDef) → Memᴰ n ns → (w : Way) × (way_at (build d) n.type n.id ≡ some w))
    → (ws : List (String × Way)) × (add_ways (build d) (map item ns) ≡ some ws)
unfolding add_ways
add_ways-built d [] has = ([], refl)
add_ways-built d (n ∷ ns) has =
    let (w, e) = has n (Memᴰ.head refl) in
    let (ws, es) = add_ways-built d ns (λ x m. has x (Memᴰ.tail m)) in
    ((n.id, w) ∷ ws, rw (e, es) refl)

add_way_inv :
    (id : String) (w : Option Way) (rest : Option (List (String × Way))) (ws : List (String × Way))
    → add_way id w rest ≡ some ws
    → (v : Way) × (vs : List (String × Way)) × (w ≡ some v) × (rest ≡ some vs) × (ws ≡ (id, v) ∷ vs)
add_way_inv id none rest ws h = cc
add_way_inv id (some v) none ws h = cc
add_way_inv id (some v) (some vs) ws h = (v, vs, refl, refl, cc)

-- each node with its way, in order
abbrev pub Each : (NodeDef → Way → Type 0) → List NodeDef → List (String × Way) → Type 0
Each P [] [] = Unit
Each P (n ∷ ns) ((id, w) ∷ ws) = (id ≡ n.id) × P n w × Each P ns ws
Each P _ _ = ⊥

abbrev pub Has : AgentDefinition → NodeDef → Way → Type 0
Has d n w = way_at (build d) n.type n.id ≡ some w

pub add_ways-Each :
    (d : AgentDefinition) (ns : List NodeDef) (ws : List (String × Way))
    → add_ways (build d) (map item ns) ≡ some ws
    → Each (Has d) ns ws
unfolding add_ways
add_ways-Each d [] ws h = let same : [] ≡ ws = cc h in subst (Each (Has d) []) same tt
add_ways-Each d (n ∷ ns) ws h =
    let (v, vs, e, es, same) =
      add_way_inv n.id (way_at (build d) n.type n.id) (add_ways (build d) (map item ns)) ws h in
    subst (Each (Has d) (n ∷ ns)) (sym same) (refl, e, add_ways-Each d ns vs es)

pub Each-names :
    (P : NodeDef → Way → Type 0) (ns : List NodeDef) (ws : List (String × Way))
    → Each P ns ws
    → map (λ (w : String × Way). w.0) ws ≡ ids ns
Each-names P [] [] h = refl
Each-names P [] (w ∷ ws) h = elim h [ ]
Each-names P (n ∷ ns) [] h = elim h [ ]
Each-names P (n ∷ ns) ((id, w) ∷ ws) (e, _, rest) = rw (e, Each-names P ns ws rest) refl

Each-Mem :
    (P : NodeDef → Way → Type 0) (ns : List NodeDef) (ws : List (String × Way)) (n : NodeDef)
    → Each P ns ws
    → Memᴰ n ns
    → (w : Way) × P n w
Each-Mem P [] ws n h m = absurd (Memᴰ.not-nil m)
Each-Mem P (x ∷ ns) [] n h m = elim h [ ]
Each-Mem P (x ∷ ns) ((id, w) ∷ ws) n (_, p, rest) m = elim (Memᴰ.cases_cons m) [
  | inl same ↦ (w, subst (λ y. P y w) (sym same) p)
  | inr later ↦ Each-Mem P ns ws n rest later
]

pub Each-All :
    (P : NodeDef → Way → Type 0) (Q : Way → Type 0) (ns : List NodeDef) (ws : List (String × Way))
    → ((n : NodeDef) (w : Way) → Memᴰ n ns → P n w → Q w)
    → Each P ns ws
    → All (λ (w : String × Way). Q w.1) ws
Each-All P Q [] [] f h = tt
Each-All P Q [] (w ∷ ws) f h = elim h [ ]
Each-All P Q (n ∷ ns) [] f h = elim h [ ]
Each-All P Q (n ∷ ns) ((id, w) ∷ ws) f (_, p, rest) =
    (f n w (Memᴰ.head refl) p, Each-All P Q ns ws (λ x v m. f x v (Memᴰ.tail m)) rest)

started_inv :
    (entry : String) (o : Option (List (String × Way))) (p : Program)
    → started_at entry o ≡ program p
    → (p.start ≡ entry) × (o ≡ some p.ways)
started_inv entry none p h = cc
started_inv entry (some ws) p h =
    let same : record { start = entry; ways = ws } ≡ p = cc h in
    (ap (λ (q : Program). q.start) (sym same), ap (λ (q : Program). some q.ways) same)

ids-item : (ns : List NodeDef) → node_ids (map item ns) ≡ ids ns
ids-item [] = refl
ids-item (n ∷ ns) = ap (λ t. n.id ∷ t) (ids-item ns)

some-inj : {v w : List (String × Way)} → some v ≡ some w → v ≡ w
some-inj h = cc

same_program : (p q : Program) → p.start ≡ q.start → p.ways ≡ q.ways → p ≡ q
same_program p q start ways = made start ways
  where
    made : p.start ≡ q.start → p.ways ≡ q.ways → record { start = p.start; ways = p.ways } ≡ q
    made start ways = rw (start, ways) refl

Each-add_ways :
    (d : AgentDefinition) (ns : List NodeDef) (ws : List (String × Way))
    → Each (Has d) ns ws
    → add_ways (build d) (map item ns) ≡ some ws
unfolding add_ways
Each-add_ways d [] [] h = refl
Each-add_ways d [] (w ∷ ws) h = elim h [ ]
Each-add_ways d (n ∷ ns) [] h = elim h [ ]
Each-add_ways d (n ∷ ns) ((id, w) ∷ ws) (e, is, rest) = rw (is, Each-add_ways d ns ws rest, e) refl

module _ (builder : StateGraph) (d : AgentDefinition) (ok : validate_graph d ≡ valid) where
  compiled_at : compile_langgraph builder (build d) ≡ (
      if is_none (lookup d.entry (build d).node_map)
      then refused "LangGraph execution requires entry to reference a node id"
      else nodes_added builder (build d) (builder.add_error (ids d.nodes)))
  unfolding compile_langgraph build
  compiled_at =
      ap
        (λ names.
          if is_none (lookup d.entry (build d).node_map)
          then refused "LangGraph execution requires entry to reference a node id"
          else nodes_added builder (build d) (builder.add_error names))
        (ap node_ids (node_map_items d ok) ∙ ids-item d.nodes)

  ways_at : add_all_ways (build d) ≡ started_at d.entry (add_ways (build d) (map item d.nodes))
  unfolding build
  ways_at = ap (λ ns. started_at d.entry (add_ways (build d) ns)) (node_map_items d ok)

  accepted_inv :
      (b : BuiltProgram) (p : Program)
      → accepted builder b ≡ program p
      → (b ≡ program p) × (builder.compile_error p ≡ none)
  accepted_inv (refused error) p h = cc
  accepted_inv (langgraph_error error) p h = cc
  accepted_inv (program q) p h = elim (Option-cases (builder.compile_error q)) [
    | inl fine ↦
        let same : q ≡ p = cc (rw fine at h) in
        (ap program same, subst (λ x. builder.compile_error x ≡ none) same fine)
    | inr (error, bad) ↦ cc (rw bad at h)
  ]

  -- what is left of a program where LangGraph has no error
  added_inv :
      (o : Option String) (p : Program)
      → nodes_added builder (build d) o ≡ program p
      → (o ≡ none)
        × (started_at d.entry (add_ways (build d) (map item d.nodes)) ≡ program p)
        × (builder.compile_error p ≡ none)
  added_inv (some error) p h = cc
  added_inv none p h =
      let (e, fine) = accepted_inv (add_all_ways (build d)) p h in (refl, sym ways_at ∙ e, fine)

  -- A program is built from an entry that names a node, and from a way for each node.
  pub started :
      (p : Program)
      → compile_langgraph builder (build d) ≡ program p
      → Memᴰ d.entry (ids d.nodes)
        × (p.start ≡ d.entry)
        × (add_ways (build d) (map item d.nodes) ≡ some p.ways)
        × (builder.add_error (ids d.nodes) ≡ none)
        × (builder.compile_error p ≡ none)
  started p h = elim (Option-cases (lookup d.entry (build d).node_map)) [
    | inl absent ↦ cc (rw absent at (sym compiled_at ∙ h))
    | inr (n, found) ↦
        let (m, id) = node_map_sound d d.entry n found in
        let (added, e, fine) =
          added_inv (builder.add_error (ids d.nodes)) p (rw found at (sym compiled_at ∙ h)) in
        let (s, w) = started_inv d.entry (add_ways (build d) (map item d.nodes)) p e in
        (subst (λ k. Memᴰ k (ids d.nodes)) id (Mem-map n d.nodes m), s, w, added, fine)
  ]

  known : (p : Program) → compile_langgraph builder (build d) ≡ program p → IsRunnable d
  known p h =
      let (entry, _, ways, _, _) = started p h in
      record {
        entry = entry;
        one_way = λ n m plain.
            let (w, e) =
              Each-Mem (Has d) d.nodes p.ways n (add_ways-Each d d.nodes p.ways ways) m in
            along_HasOneWay (leaving d n) w (sym (way_plain d ok n m plain) ∙ e);
      }

  -- the program that is handed to LangGraph: it starts at the entry and has the way of each node
  abbrev pub IsHanded : Program → Type 0
  IsHanded p = (p.start ≡ d.entry) × Each (Has d) d.nodes p.ways

  handed_once :
      (p q : Program)
      → add_ways (build d) (map item d.nodes) ≡ some p.ways
      → p.start ≡ d.entry
      → IsHanded q
      → p ≡ q
  handed_once p q e at (start, each) =
      let ways : p.ways ≡ q.ways = some-inj (sym e ∙ Each-add_ways d d.nodes q.ways each) in
      same_program p q (at ∙ sym start) ways

  runs :
      IsRunnable d
      → builder.add_error (ids d.nodes) ≡ none
      → ((p : Program) → IsHanded p → builder.compile_error p ≡ none)
      → (p : Program) × (compile_langgraph builder (build d) ≡ program p)
  runs r added fine =
      let (ws, e) =
        add_ways-built d d.nodes (λ n m. way_of d ok n m (kind_of d n) (r.one_way n m)) in
      let (n, m, id) = Mem-ids d.entry d.nodes r.entry in
      let found : lookup d.entry (build d).node_map ≡ some n =
        subst (λ k. lookup k (build d).node_map ≡ some n) id (compile_graph-lookup d ok n m).1 in
      let p : Program = record { start = d.entry; ways = ws } in
      let fine' = fine p (refl, add_ways-Each d d.nodes ws e) in
      (p, compiled_at ∙ rw (found, added, ways_at, e, fine') refl)

  -- For a valid graph `compile_langgraph` builds a program exactly if the entry names a node, each
  -- node that is no Supervisor, and no capability of a graph with a Supervisor, has no edge or only
  -- one, without a condition, and LangGraph has no error for the ids of the nodes and none for the
  -- program that starts at the entry and has the way of each node.
  pub compile_langgraph_iff :
      ((p : Program) × (compile_langgraph builder (build d) ≡ program p)) ↔ (
        IsRunnable d
        × (builder.add_error (ids d.nodes) ≡ none)
        × ((p : Program) → IsHanded p → builder.compile_error p ≡ none))
  compile_langgraph_iff = (
    λ (p, h).
        let (_, at, e, added, fine) = started p h in
        (
          known p h,
          added,
          λ q is. subst (λ x. builder.compile_error x ≡ none) (handed_once p q e at is) fine,
        ),
    λ (r, added, fine). runs r added fine,
  )
