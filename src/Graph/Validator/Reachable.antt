-- ===== src/Graph/Validator/Reachable.antt =====
-- `_check_entry_reachable` decides whether every node can be reached.
use fastapi_langgraph_templa.Common.{
  ℕ, ◌+◌, ◌*◌, ◌≤◌, String, eq_iff, eq_refl, ◌≡◌, refl, ap, sym, ◌∙◌, List, [], ◌∷◌, map, some,
  true, not, arith, length, filter, Bool-cases, inl, inr, All,
}
use mathlib.Core.List.{Memᴰ}
use fastapi_langgraph_templa.Common.Names.{contains, contains-filter, length-filter-le}
use fastapi_langgraph_templa.Graph.{EdgeDef, AgentDefinition}
use fastapi_langgraph_templa.Graph.Validator.{
  valid, ids, adjacency, roots, or_all, visit, enough, report,
}
use fastapi_langgraph_templa.Graph.Validator.Spec.{Reaches, root, follow}
use fastapi_langgraph_templa.Graph.Validator.Roots.{roots_iff}
use fastapi_langgraph_templa.Graph.Validator.Adjacency.{
  adjacency_iff, adjacency-known, length-adjacency,
}
use fastapi_langgraph_templa.Graph.Validator.Search.{Each, visit-total, visit_sound, visit_complete}

or_all-known :
    (rs known : List String) (a : String)
    → Each (λ x. contains known x ≡ true) rs
    → contains (or_all rs known) a ≡ true
    → contains known a ≡ true
or_all-known [] known a h m = m
or_all-known (r ∷ rs) known a h m = h a m

missing_none :
    (known seen missing : List String)
    → filter (λ id. not (contains seen id)) known ≡ missing
    → report known (some seen) ≡ valid
    → missing ≡ []
missing_none known seen [] e h = refl
missing_none known seen (m ∷ ms) e h = cc (rw (e, report) at h)

pub report_valid :
    (known seen : List String)
    → report known (some seen) ≡ valid
    → Each (λ a. contains seen a ≡ true) known
unfolding contains
report_valid known seen h a m =
    let none_missing = missing_none known seen _ refl h in
    ground (
      arith,
      contains-filter (λ id. not (contains seen id)) known a,
      ap (λ (z : List String). contains z a) none_missing,
    )

none_missing :
    (known seen : List String)
    → Each (λ a. contains seen a ≡ true) known
    → filter (λ id. not (contains seen id)) known ≡ []
unfolding contains
none_missing [] seen h = refl
none_missing (k ∷ ks) seen h =
    rw (h k (rw (eq_refl k))) (none_missing ks seen (λ a m. h a (ground arith)))

pub report-seen :
    (known seen : List String)
    → Each (λ a. contains seen a ≡ true) known
    → report known (some seen) ≡ valid
report-seen known seen h = rw (report, none_missing known seen h)

room : (u n r k : ℕ) → u ≤ n → r + u * k ≤ r + n * k
room u n r k h = grind arith

module _ (d : AgentDefinition) where
  roots-known : Each (λ a. contains (ids d.nodes) a ≡ true) (roots d)
  unfolding roots contains
  roots-known a m = elim (Bool-cases (contains (ids d.nodes) d.entry)) [
    | inl known ↦
        let entry : contains (d.entry ∷ []) a ≡ true = rw known at m in
        ap (contains (ids d.nodes)) (sym ((eq_iff d.entry a).0 (ground arith))) ∙ known
    | inr free ↦
        or_all-known _ (ids d.nodes) a
          (λ x w. ground (
            arith,
            contains-filter (λ id. not (contains (map (λ (e : EdgeDef). e.target) d.edges) id))
                (ids d.nodes) x,
          ))
          (rw free at m)
  ]

  module _
      (edges : All (λ e. Memᴰ e.source (ids d.nodes) × Memᴰ e.target (ids d.nodes)) d.edges) where
    -- The fuel is enough: the search of a graph whose edges join its nodes ends by its own test.
    pub search_total : (r : List String) × (visit (adjacency d) (enough d) (roots d) [] ≡ some r)
    unfolding contains
    search_total =
        visit-total (adjacency d) (ids d.nodes) (length d.edges + (length d.nodes + length d.nodes))
          (length-adjacency d) (adjacency-known d edges) (enough d) (roots d) [] roots-known
          (room (length (filter (λ id. not (contains [] id)) (ids d.nodes))) (length (ids d.nodes))
            (length (roots d)) (length d.edges + (length d.nodes + length d.nodes))
            (length-filter-le (λ id. not (contains [] id)) (ids d.nodes)))

    pub found_reached :
        (r : List String)
        → visit (adjacency d) (enough d) (roots d) [] ≡ some r
        → (a : String) → contains r a ≡ true
        → Reaches d a
    unfolding contains
    found_reached r h =
        visit_sound (adjacency d) (Reaches d) (λ x y w m. follow w ((adjacency_iff d x y).0 m))
          (enough d) (roots d) [] r (λ x m. root ((roots_iff d x).0 m)) (λ x m. cc) h

    pub reached_found :
        (r : List String)
        → visit (adjacency d) (enough d) (roots d) [] ≡ some r
        → (a : String) → Reaches d a
        → contains r a ≡ true
    unfolding contains
    reached_found r h a (root m) =
        (visit_complete (adjacency d) (enough d) (roots d) [] r (λ i x p q. cc) h).0 a
          ((roots_iff d a).1 m)
    reached_found r h a (follow {a = b} w step) = ground (
      arith,
      (visit_complete (adjacency d) (enough d) (roots d) [] r (λ i x p q. cc) h).1 b a
          (reached_found r h b w) ((adjacency_iff d b a).1 step),
    )
