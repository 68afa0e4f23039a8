-- ===== src/Graph/Compiler/Lookups.antt =====
-- What the compiled graph finds at a node.
use fastapi_langgraph_templa.Common.{
  String, str_eq, eq_iff, ◌≡◌, refl, ap, sym, ◌∙◌, subst, List, [], ◌∷◌, ◌++◌, map, none, some,
  false, filter, Bool-cases, inl, inr, ◌⊎◌,
}
use mathlib.Core.List.{Memᴰ, append-nil, append_assoc}
use mathlib.Core.List.Memᴰ
use fastapi_langgraph_templa.Common.Dict.{
  lookup, put, append_to, lookup-put, lookup-put_other, lookup-append_to, lookup-append_to_other,
}
use fastapi_langgraph_templa.Graph.{NodeDef, EdgeDef, AgentDefinition}
use fastapi_langgraph_templa.Graph.Validator.{valid, validate_graph}
use fastapi_langgraph_templa.Graph.Validator.Spec.{Distinct}
use fastapi_langgraph_templa.Graph.Validator.Correct.{validate_graph_iff}
use fastapi_langgraph_templa.Graph.Compiler.{put_all, add_edges, build, compiled, compile_graph}

module _ {ℓ κ} {A : Type ℓ} {V : Type κ} (key : A → String) (value : A → V) where
  lookup-put_all_other :
      (k : String) (xs : List A) (d : List (String × V))
      → ¬ Memᴰ k (map key xs)
      → lookup k (put_all key value xs d) ≡ lookup k d
  unfolding put_all
  lookup-put_all_other k [] d absent = refl
  lookup-put_all_other k (x ∷ xs) d absent = elim (Bool-cases (str_eq (key x) k)) [
    | inl e ↦ absurd (absent (Memᴰ.head (sym ((eq_iff (key x) k).0 e))))
    | inr e ↦
        lookup-put_all_other k xs (put (key x) (value x) d) (λ m. absent (Memᴰ.tail m))
        ∙ lookup-put_other (key x) k (value x) d e
  ]

  -- With distinct keys, every element is found under its own.
  lookup-put_all :
      (xs : List A) (d : List (String × V))
      → Distinct (map key xs)
      → (x : A) → Memᴰ x xs
      → lookup (key x) (put_all key value xs d) ≡ some (value x)
  unfolding put_all
  lookup-put_all [] d h x m = absurd (Memᴰ.not-nil m)
  lookup-put_all (y ∷ ys) d h x m = elim (Memᴰ.cases_cons m) [
    | inl e ↦
        let here_ : lookup (key y) (put_all key value ys (put (key y) (value y) d))
            ≡ some (value y) =
          lookup-put_all_other (key y) ys (put (key y) (value y) d) h.0
          ∙ lookup-put (key y) (value y) d in
        subst
          (λ z. lookup (key z) (put_all key value ys (put (key y) (value y) d)) ≡ some (value z))
          (sym e) here_
    | inr later ↦ lookup-put_all ys (put (key y) (value y) d) h.1 x later
  ]

module _ {ℓ κ} {A : Type ℓ} {V : Type κ} (key : A → String) (value : A → V) where
  -- What is found under a key is one of the elements, or was there before.
  pub put_all_sound :
      (k : String) (xs : List A) (d : List (String × V)) (v : V)
      → lookup k (put_all key value xs d) ≡ some v
      → ((x : A) × Memᴰ x xs × (key x ≡ k) × (value x ≡ v)) ⊎ (lookup k d ≡ some v)
  unfolding put_all
  put_all_sound k [] d v h = inr h
  put_all_sound k (x ∷ xs) d v h = elim (put_all_sound k xs (put (key x) (value x) d) v h) [
    | inl (y, m, e, f) ↦ inl (y, Memᴰ.tail m, e, f)
    | inr before ↦ elim (Bool-cases (str_eq (key x) k)) [
      | inl own ↦
          let same = (eq_iff (key x) k).0 own in
          let found : lookup k (put (key x) (value x) d) ≡ some (value x) =
            subst (λ z. lookup z (put (key x) (value x) d) ≡ some (value x)) same
              (lookup-put (key x) (value x) d) in
          inl (x, Memᴰ.head refl, same, cc (found, before))
      | inr other ↦ inr (sym (lookup-put_other (key x) k (value x) d other) ∙ before)
    ]
  ]

-- A node that the compiled graph finds is a node of the graph with that id.
pub node_map_sound :
    (d : AgentDefinition) (k : String) (n : NodeDef)
    → lookup k (build d).node_map ≡ some n
    → Memᴰ n d.nodes × (n.id ≡ k)
unfolding build lookup
node_map_sound d k n h = elim (put_all_sound (λ (x : NodeDef). x.id) (λ x. x) k d.nodes [] n h) [
  | inl (x, m, e, f) ↦ (subst (λ y. Memᴰ y d.nodes) f m, ap (λ (y : NodeDef). y.id) (sym f) ∙ e)
  | inr none_before ↦ cc none_before
]

lookup-add_edges :
    (k : String) (es vs : List EdgeDef) (d : List (String × List EdgeDef))
    → lookup k d ≡ some vs
    → lookup k (add_edges es d) ≡ some (vs ++ filter (λ e. str_eq e.source k) es)
unfolding add_edges
lookup-add_edges k [] vs d h = h ∙ ap some (sym (append-nil vs))
lookup-add_edges k (e ∷ es) vs d h = elim (Bool-cases (str_eq e.source k)) [
  | inl own ↦
      let k_found : lookup k (append_to e.source e d) ≡ some (vs ++ e ∷ []) =
        subst (λ s. lookup k (append_to s e d) ≡ some (vs ++ e ∷ []))
          (sym ((eq_iff e.source k).0 own)) (lookup-append_to k e vs d h) in
      rw own (
        lookup-add_edges k es (vs ++ e ∷ []) (append_to e.source e d) k_found
        ∙ ap some (append_assoc vs (e ∷ []) (filter (λ x. str_eq x.source k) es)))
  | inr other ↦ rw other (
      lookup-add_edges k es vs (append_to e.source e d)
        (lookup-append_to_other e.source k e d other ∙ h))
]

-- A valid graph compiles, and the compiled graph finds every node under its id, and with it all the
-- edges that leave it, in the order of the definition.
pub compile_graph-lookup :
    (d : AgentDefinition)
    → validate_graph d ≡ valid
    → (n : NodeDef) → Memᴰ n d.nodes
    → (compile_graph d ≡ compiled (build d))
      × (lookup n.id (build d).node_map ≡ some n)
      × (lookup n.id (build d).out_edges ≡ some (filter (λ e. str_eq e.source n.id) d.edges))
unfolding compile_graph build
compile_graph-lookup d ok n m =
    let distinct = ((validate_graph_iff d).0 ok).distinct in
    (
      rw ok refl,
      lookup-put_all (λ (x : NodeDef). x.id) (λ x. x) d.nodes [] distinct n m,
      lookup-add_edges n.id d.edges [] _
          (lookup-put_all (λ (x : NodeDef). x.id) (λ x. []) d.nodes [] distinct n m),
    )

module _ {ℓ κ} {A : Type ℓ} {V : Type κ} (key : A → String) (value : A → V) where
  put_new :
      (k : String) (v : V) (d : List (String × V))
      → lookup k d ≡ none
      → put k v d ≡ d ++ (k, v) ∷ []
  unfolding lookup put
  put_new k v [] h = refl
  put_new k v ((j, w) ∷ d) h = elim (Bool-cases (str_eq j k)) [
    | inl e ↦ cc (rw e at h)
    | inr e ↦ rw e (ap (λ t. (j, w) ∷ t) (put_new k v d (rw e at h)))
  ]

  lookup-append_absent :
      (k j : String) (v : V) (d : List (String × V))
      → lookup k d ≡ none
      → str_eq j k ≡ false
      → lookup k (d ++ (j, v) ∷ []) ≡ none
  unfolding lookup
  lookup-append_absent k j v [] h e = rw e
  lookup-append_absent k j v ((i, w) ∷ d) h e = elim (Bool-cases (str_eq i k)) [
    | inl f ↦ cc (rw f at h)
    | inr f ↦ rw f (lookup-append_absent k j v d (rw f at h) e)
  ]

  different :
      (x : String) (xs : List String) (k : String) → Memᴰ k xs → ¬ Memᴰ x xs → str_eq x k ≡ false
  different x xs k m absent = elim (Bool-cases (str_eq x k)) [
    | inl e ↦ absurd (absent (subst (λ y. Memᴰ y xs) (sym ((eq_iff x k).0 e)) m))
    | inr e ↦ e
  ]

  -- New keys are put at the end, in the order of the elements.
  put_all_new :
      (xs : List A) (d : List (String × V))
      → Distinct (map key xs)
      → ((k : String) → Memᴰ k (map key xs) → lookup k d ≡ none)
      → put_all key value xs d ≡ d ++ map (λ x. (key x, value x)) xs
  unfolding put_all
  put_all_new [] d h absent = sym (append-nil d)
  put_all_new (x ∷ xs) d h absent =
      ap (put_all key value xs) (put_new (key x) (value x) d (absent (key x) (Memᴰ.head refl)))
      ∙ put_all_new xs (d ++ (key x, value x) ∷ []) h.1 (λ k m.
        lookup-append_absent k (key x) (value x) d (absent k (Memᴰ.tail m))
          (different (key x) (map key xs) k m h.0))
      ∙ append_assoc d ((key x, value x) ∷ []) (map (λ y. (key y, value y)) xs)

-- The items of the node map are the nodes, in their order.
pub node_map_items :
    (d : AgentDefinition)
    → validate_graph d ≡ valid
    → (build d).node_map ≡ map (λ (n : NodeDef). (n.id, n)) d.nodes
unfolding build lookup
node_map_items d ok =
    put_all_new (λ (n : NodeDef). n.id) (λ n. n) d.nodes [] ((validate_graph_iff d).0 ok).distinct
      (λ k m. refl)
