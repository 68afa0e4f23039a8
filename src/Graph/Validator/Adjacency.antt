-- ===== src/Graph/Validator/Adjacency.antt =====
-- The adjacency that the validator computes.
use fastapi_langgraph_templa.Common.{
  ◌+◌, ◌≤◌, String, str_eq, eq_iff, ◌≡◌, ap, sym, subst, ◌∙◌, List, [], ◌∷◌, Bool, true, ◌&&◌, ◌||◌,
  arith, length, length-append, Bool-cases, inl, inr, ◌↔◌, All,
}
use mathlib.Core.List.{Memᴰ}
use mathlib.Core.List.Memᴰ
use fastapi_langgraph_templa.Common.Names.{
  contains, contains_iff, contains-append, Among, contains-Among, Among-contains,
}
use fastapi_langgraph_templa.Graph.{
  NodeType, NodeDef, EdgeDef, AgentDefinition, is_supervisor, is_capability,
}
use fastapi_langgraph_templa.Graph.Validator.{ids, ids_of, edge_targets, adjacency}
use fastapi_langgraph_templa.Graph.Validator.Spec.{HasKind, Follows}

module _ (d : AgentDefinition) where
  abbrev at_supervisor : String → Bool
  at_supervisor = contains (ids_of is_supervisor d.nodes)

  abbrev at_capability : String → Bool
  at_capability = contains (ids_of is_capability d.nodes)

  contains-adjacency :
      (a b : String)
      → contains (adjacency d a) b ≡ (
          contains (edge_targets a d.edges) b
          || ((at_supervisor a && at_capability b) || (at_capability a && at_supervisor b)))
  unfolding adjacency contains
  contains-adjacency a b =
      rw (contains-append, contains-append)
        (elim (Bool-cases (at_supervisor a)) [
          | inl s ↦ elim (Bool-cases (at_capability a)) [ inl c ↦ rw (s, c) | inr c ↦ rw (s, c) ]
          | inr s ↦ elim (Bool-cases (at_capability a)) [ inl c ↦ rw (s, c) | inr c ↦ rw (s, c) ]
        ])

  kind_of :
      (kind : NodeType → Bool) (a : String)
      → contains (ids_of kind d.nodes) a ≡ true
      → HasKind kind d a
  kind_of kind a h = contains-Among (λ (n : NodeDef). n.id) (λ n. kind n.type) a d.nodes h

  of_kind :
      (kind : NodeType → Bool) (a : String)
      → HasKind kind d a
      → contains (ids_of kind d.nodes) a ≡ true
  of_kind kind a h = Among-contains (λ (n : NodeDef). n.id) (λ n. kind n.type) a d.nodes h

  adjacency-Follows : (a b : String) → contains (adjacency d a) b ≡ true → Follows d a b
  adjacency-Follows a b h =
      let h' = rw contains-adjacency at h in
      elim (Bool-cases (contains (edge_targets a d.edges) b)) [
        | inl edge ↦
            let (e, m, from, to) =
              contains-Among (λ (e : EdgeDef). e.target) (λ e. str_eq e.source a) b d.edges edge in
            inl (e, m, (eq_iff e.source a).0 from, to)
        | inr no_edge ↦ elim (Bool-cases (at_supervisor a && at_capability b)) [
          | inl both ↦
              inr (
                inl
                  (kind_of is_supervisor a (ground arith), kind_of is_capability b (ground arith)))
          | inr neither ↦
              inr (
                inr
                  (kind_of is_capability a (ground arith), kind_of is_supervisor b (ground arith)))
        ]
      ]

  Follows-adjacency : (a b : String) → Follows d a b → contains (adjacency d a) b ≡ true
  Follows-adjacency a b (inl (e, m, from, to)) =
      let edge =
        Among-contains (λ (x : EdgeDef). x.target) (λ x. str_eq x.source a) b d.edges
          (e, m, (eq_iff e.source a).1 from, to) in
      rw (contains-adjacency, edge)
  Follows-adjacency a b (inr (inl (s, c))) =
      rw contains-adjacency (ground (arith, of_kind is_supervisor a s, of_kind is_capability b c))
  Follows-adjacency a b (inr (inr (c, s))) =
      rw contains-adjacency (ground (arith, of_kind is_capability a c, of_kind is_supervisor b s))

  -- The computed neighbours of a node are what follows it.
  pub adjacency_iff : (a b : String) → (contains (adjacency d a) b ≡ true) ↔ Follows d a b
  adjacency_iff a b = (adjacency-Follows a b, Follows-adjacency a b)

  known_node :
      (kind : NodeType → Bool) (a : String) (ns : List NodeDef)
      → Among (λ (n : NodeDef). n.id) (λ n. kind n.type) a ns
      → Memᴰ a (ids ns)
  known_node kind a [] (n, m, _, e) = absurd (Memᴰ.not-nil m)
  known_node kind a (x ∷ xs) (n, m, q, e) = elim (Memᴰ.cases_cons m) [
    | inl same ↦ Memᴰ.head (sym e ∙ ap (λ (t : NodeDef). t.id) same)
    | inr later ↦ Memᴰ.tail (known_node kind a xs (n, later, q, e))
  ]

  target_known :
      (es : List EdgeDef) (known : List String) (e : EdgeDef)
      → All (λ e. Memᴰ e.source known × Memᴰ e.target known) es
      → Memᴰ e es
      → Memᴰ e.target known
  target_known [] known e h m = absurd (Memᴰ.not-nil m)
  target_known (x ∷ xs) known e h m = elim (Memᴰ.cases_cons m) [
    | inl same ↦ subst (λ (t : EdgeDef). Memᴰ t.target known) (sym same) h.0.1
    | inr later ↦ target_known xs known e h.1 later
  ]

  pub adjacency-known :
      All (λ e. Memᴰ e.source (ids d.nodes) × Memᴰ e.target (ids d.nodes)) d.edges
      → (a b : String) → contains (adjacency d a) b ≡ true
      → contains (ids d.nodes) b ≡ true
  adjacency-known edges a b h = (contains_iff (ids d.nodes) b).1 (elim (adjacency-Follows a b h) [
    | inl (e, m, from, to) ↦
        subst (λ t. Memᴰ t (ids d.nodes)) to (target_known d.edges (ids d.nodes) e edges m)
    | inr (inl (s, c)) ↦ known_node is_capability b d.nodes c
    | inr (inr (c, s)) ↦ known_node is_supervisor b d.nodes s
  ])

  length-ids_of : (kind : NodeType → Bool) (ns : List NodeDef) → length (ids_of kind ns) ≤ length ns
  length-ids_of kind [] = omega arith
  length-ids_of kind (n ∷ ns) = ground (arith, length-ids_of kind ns)

  length-edge_targets : (a : String) (es : List EdgeDef) → length (edge_targets a es) ≤ length es
  length-edge_targets a [] = omega arith
  length-edge_targets a (e ∷ es) = ground (arith, length-edge_targets a es)

  pub length-adjacency :
      (a : String) → length (adjacency d a) ≤ length d.edges + (length d.nodes + length d.nodes)
  unfolding adjacency
  length-adjacency a =
      rw (length-append, length-append)
        (elim (Bool-cases (at_supervisor a)) [
          | inl s ↦ elim (Bool-cases (at_capability a)) [
            | inl c ↦
                rw (s, c)
                  (omega (
                    arith,
                    length-edge_targets a d.edges,
                    length-ids_of is_capability d.nodes,
                    length-ids_of is_supervisor d.nodes,
                  ))
            | inr c ↦
                rw (s, c)
                  (omega
                    (arith, length-edge_targets a d.edges, length-ids_of is_capability d.nodes))
          ]
          | inr s ↦ elim (Bool-cases (at_capability a)) [
            | inl c ↦
                rw (s, c)
                  (omega
                    (arith, length-edge_targets a d.edges, length-ids_of is_supervisor d.nodes))
            | inr c ↦ rw (s, c) (omega (arith, length-edge_targets a d.edges))
          ]
        ])
