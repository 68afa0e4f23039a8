-- ===== src/Graph/Validator/Correct.antt =====
-- `validate_graph` decides what a valid graph is.
use fastapi_langgraph_templa.Common.{
  String, str_eq, eq_iff, ◌≡◌, refl, [], Bool, true, false, ◌&&◌, not, arith, if◌then◌else◌,
  Bool-cases, inl, inr, ◌⊎◌, ◌↔◌, All,
}
use mathlib.Core.List.{Memᴰ}
use fastapi_langgraph_templa.Common.Names.{contains, contains_iff}
use fastapi_langgraph_templa.Graph.{AgentDefinition}
use fastapi_langgraph_templa.Graph.Validator.{
  Fault, Check, valid, invalid, ids, check_entry_reachable, validate_graph, bad_entry,
}
use fastapi_langgraph_templa.Graph.Validator.Spec.{Reaches, IsValid}
use fastapi_langgraph_templa.Graph.Validator.Checks.{
  and_then-valid, both_valid, duplicates_from-Distinct, Distinct-duplicates_from, edges_within_iff,
  one_supervisor_iff, no_nested_iff,
}
use fastapi_langgraph_templa.Graph.Validator.Reachable.{
  search_total, found_reached, reached_found, report_valid, report-seen,
}

guard_valid :
    (g : Bool) (f : Fault) (c : Check)
    → (if g then invalid f else c) ≡ valid
    → (g ≡ false) × (c ≡ valid)
guard_valid true f c h = cc
guard_valid false f c h = (refl, h)

module _ (d : AgentDefinition)
    (edges : All (λ e. Memᴰ e.source (ids d.nodes) × Memᴰ e.target (ids d.nodes)) d.edges) where
  -- the entry is START or a node
  abbrev EntryKnown : Type 0
  EntryKnown = (d.entry ≡ "START") ⊎ Memᴰ d.entry (ids d.nodes)

  entry_known :
      (not (str_eq d.entry "START") && not (contains (ids d.nodes) d.entry)) ≡ false → EntryKnown
  entry_known h = elim (Bool-cases (str_eq d.entry "START")) [
    | inl start ↦ inl ((eq_iff d.entry "START").0 start)
    | inr other ↦ inr ((contains_iff (ids d.nodes) d.entry).0 (ground arith))
  ]

  known_entry :
      EntryKnown → (not (str_eq d.entry "START") && not (contains (ids d.nodes) d.entry)) ≡ false
  known_entry (inl start) = rw ((eq_iff d.entry "START").1 start)
  known_entry (inr known) = ground (arith, (contains_iff (ids d.nodes) d.entry).1 known)

  check_entry_reachable_iff :
      (check_entry_reachable d ≡ valid)
      ↔ (EntryKnown × ((id : String) → Memᴰ id (ids d.nodes) → Reaches d id))
  unfolding check_entry_reachable
  check_entry_reachable_iff =
      let (r, found) = search_total d edges in
      (
        λ h.
            let (known, all) = guard_valid _ (bad_entry d.entry) _ h in
            (
              entry_known known,
              λ id m. found_reached d edges r found id (
                  report_valid (ids d.nodes) r (rw found at all) id
                    ((contains_iff (ids d.nodes) id).1 m)),
            ),
        λ h.
            rw (known_entry h.0, found)
              (report-seen (ids d.nodes) r (λ id m.
                reached_found d edges r found id (h.1 id ((contains_iff (ids d.nodes) id).0 m)))),
      )

-- `validate_graph` accepts a graph exactly if its ids are distinct, its edges join its nodes, it has
-- one supervisor at most, no subagent's configuration has a subagent (or is malformed), its entry is
-- one of its nodes or START, and every node can be reached, along the edges and the Supervisor's
-- dispatch and return, from the entry, or if that is START from the nodes that no edge leads to (from
-- any node if there are none).
pub validate_graph_iff : (d : AgentDefinition) → (validate_graph d ≡ valid) ↔ IsValid d
unfolding validate_graph contains
validate_graph_iff d = (
  λ h.
      let (h, reach) = and_then-valid _ _ h in
      let (h, flat) = and_then-valid _ _ h in
      let (h, one) = and_then-valid _ _ h in
      let (once, joined) = and_then-valid _ _ h in
      let edges = (edges_within_iff (ids d.nodes) d.edges).0 joined in
      let (entry, all) = (check_entry_reachable_iff d edges).0 reach in
      record {
        distinct = (duplicates_from-Distinct [] d.nodes once).0;
        edges = edges;
        one_supervisor = (one_supervisor_iff d.nodes).0 one;
        flat = (no_nested_iff d.nodes).0 flat;
        entry = entry;
        reachable = all;
      },
  λ v.
      both_valid _ _
        (both_valid _ _
          (both_valid _ _
            (both_valid _ _ (Distinct-duplicates_from [] d.nodes v.distinct (λ id s m. cc))
              ((edges_within_iff (ids d.nodes) d.edges).1 v.edges))
            ((one_supervisor_iff d.nodes).1 v.one_supervisor))
          ((no_nested_iff d.nodes).1 v.flat))
        ((check_entry_reachable_iff d v.edges).1 (v.entry, v.reachable)),
)
