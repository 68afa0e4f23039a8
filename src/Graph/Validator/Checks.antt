-- ===== src/Graph/Validator/Checks.antt =====
-- What each check of `validate_graph` but the last one decides.
use fastapi_langgraph_templa.Common.{
  ◌≤◌, String, str_eq, eq_iff, eq_refl, ◌≡◌, refl, ap, sym, subst, List, [], ◌∷◌, Option, none,
  some, true, arith, if◌then◌else◌, length, Bool-cases, inl, inr, ◌↔◌, All,
}
use mathlib.Core.List.{Memᴰ}
use mathlib.Core.List.Memᴰ
use fastapi_langgraph_templa.Common.Names.{contains, contains_iff}
use fastapi_langgraph_templa.Json.{
  Json, Items, null, bool, num, text, arr, obj, nil, cons, end, field,
}
use fastapi_langgraph_templa.Graph.{NodeDef, EdgeDef, is_subagent}
use fastapi_langgraph_templa.Graph.Validator.{
  Check, valid, invalid, ◌and_then◌, ids, duplicates_from, edges_within, supervisors,
  check_at_most_one_supervisor, get_field, says_subagent, check_children, check_nodes_entry,
  check_no_nested_subagent,
}
use fastapi_langgraph_templa.Graph.Validator.Spec.{Distinct, NoSubagents, IsFlat}

pub and_then-valid : (a b : Check) → (a and_then b) ≡ valid → (a ≡ valid) × (b ≡ valid)
and_then-valid valid b h = (refl, h)
and_then-valid (invalid f) b h = cc

pub both_valid : (a b : Check) → a ≡ valid → b ≡ valid → (a and_then b) ≡ valid
both_valid valid b h g = g
both_valid (invalid f) b h g = cc

-- none of the seen ids comes again
abbrev Unseen : List String → List NodeDef → Type 0
Unseen seen ns = (id : String) → contains seen id ≡ true → Memᴰ id (ids ns) → ⊥

pub duplicates_from-Distinct :
    (seen : List String) (ns : List NodeDef)
    → duplicates_from seen ns ≡ valid
    → Distinct (ids ns) × Unseen seen ns
unfolding duplicates_from contains
duplicates_from-Distinct seen [] h = (tt, λ id s m. Memᴰ.not-nil m)
duplicates_from-Distinct seen (n ∷ ns) h = elim (Bool-cases (contains seen n.id)) [
  | inl twice ↦ cc (rw twice at h)
  | inr once ↦
      let (distinct, fresh) = duplicates_from-Distinct (n.id ∷ seen) ns (rw once at h) in
      (
        (fresh n.id (rw (eq_refl n.id)), distinct),
        λ id s m. elim (Memᴰ.cases_cons m) [
          | inl e ↦ cc (ap (contains seen) e, s, once)
          | inr later ↦ fresh id (ground arith) later
        ],
      )
]

pub Distinct-duplicates_from :
    (seen : List String) (ns : List NodeDef)
    → Distinct (ids ns)
    → Unseen seen ns
    → duplicates_from seen ns ≡ valid
unfolding duplicates_from contains
Distinct-duplicates_from seen [] h u = refl
Distinct-duplicates_from seen (n ∷ ns) h u = elim (Bool-cases (contains seen n.id)) [
  | inl twice ↦ absurd (u n.id twice (Memᴰ.head refl))
  | inr once ↦ rw once (
      Distinct-duplicates_from (n.id ∷ seen) ns h.1 (λ id s m. elim (Bool-cases (str_eq n.id id)) [
        | inl e ↦ h.0 (subst (λ t. Memᴰ t (ids ns)) (sym ((eq_iff n.id id).0 e)) m)
        | inr e ↦ u id (rw e at s) (Memᴰ.tail m)
      ]))
]

pub edges_within_iff :
    (known : List String) (es : List EdgeDef)
    → (edges_within known es ≡ valid) ↔ All (λ e. Memᴰ e.source known × Memᴰ e.target known) es
unfolding edges_within
edges_within_iff known [] = (λ _. tt, λ _. refl)
edges_within_iff known (e ∷ es) = (
  λ h. elim (Bool-cases (contains known e.source)) [
    | inr bad ↦ cc (rw bad at h)
    | inl ok ↦ elim (Bool-cases (contains known e.target)) [
      | inr bad ↦ cc (rw (ok, bad) at h)
      | inl ok' ↦ (
        ((contains_iff known e.source).0 ok, (contains_iff known e.target).0 ok'),
        (edges_within_iff known es).0 (rw (ok, ok') at h),
      )
    ]
  ],
  λ h.
      rw ((contains_iff known e.source).1 h.0.0, (contains_iff known e.target).1 h.0.1)
        ((edges_within_iff known es).1 h.1),
)

pub one_supervisor_iff :
    (ns : List NodeDef) → (check_at_most_one_supervisor ns ≡ valid) ↔ (length (supervisors ns) ≤ 1)
unfolding check_at_most_one_supervisor
one_supervisor_iff ns = (λ h. ground arith, λ h. ground arith)

says_subagent_iff : (o : Option Json) → (says_subagent o ≡ true) ↔ (o ≡ some (text "subagent"))
says_subagent_iff none = (λ h. cc, λ h. cc)
says_subagent_iff (some (text s)) = (
  λ h. ap (λ t. some (text t)) ((eq_iff s "subagent").0 h),
  λ h. (eq_iff s "subagent").1 (ground arith),
)
says_subagent_iff (some null) = (λ h. cc, λ h. cc)
says_subagent_iff (some (bool b)) = (λ h. cc, λ h. cc)
says_subagent_iff (some (num n)) = (λ h. cc, λ h. cc)
says_subagent_iff (some (arr xs)) = (λ h. cc, λ h. cc)
says_subagent_iff (some (obj fs)) = (λ h. cc, λ h. cc)

check_children_iff : (xs : Items) → (check_children xs ≡ valid) ↔ NoSubagents xs
unfolding check_children
check_children_iff nil = (λ _. tt, λ _. refl)
check_children_iff (cons (obj fs) rest) = (
  λ h. elim (Bool-cases (says_subagent (get_field "type" fs))) [
    | inl bad ↦ cc (rw bad at h)
    | inr ok ↦ (
      λ e. cc ((says_subagent_iff (get_field "type" fs)).1 e, ok),
      (check_children_iff rest).0 (rw ok at h),
    )
  ],
  λ h. elim (Bool-cases (says_subagent (get_field "type" fs))) [
    | inl bad ↦ absurd (h.0 ((says_subagent_iff (get_field "type" fs)).0 bad))
    | inr ok ↦ rw ok ((check_children_iff rest).1 h.1)
  ],
)
check_children_iff (cons null rest) = (λ h. cc, λ h. absurd h)
check_children_iff (cons (bool b) rest) = (λ h. cc, λ h. absurd h)
check_children_iff (cons (num n) rest) = (λ h. cc, λ h. absurd h)
check_children_iff (cons (text s) rest) = (λ h. cc, λ h. absurd h)
check_children_iff (cons (arr xs) rest) = (λ h. cc, λ h. absurd h)

check_nodes_entry_iff : (o : Option Json) → (check_nodes_entry o ≡ valid) ↔ IsFlat o
unfolding check_nodes_entry
check_nodes_entry_iff none = (λ _. tt, λ _. refl)
check_nodes_entry_iff (some (arr xs)) = check_children_iff xs
check_nodes_entry_iff (some (obj end)) = (λ _. tt, λ _. refl)
check_nodes_entry_iff (some (obj (field k v fs))) = (λ h. cc, λ h. absurd h)
check_nodes_entry_iff (some (text s)) =
    (λ h. (eq_iff s "").0 (ground arith), λ h. rw ((eq_iff s "").1 h))
check_nodes_entry_iff (some null) = (λ h. cc, λ h. absurd h)
check_nodes_entry_iff (some (bool b)) = (λ h. cc, λ h. absurd h)
check_nodes_entry_iff (some (num n)) = (λ h. cc, λ h. absurd h)

pub no_nested_iff :
    (ns : List NodeDef)
    → (check_no_nested_subagent ns ≡ valid)
      ↔ All (λ n. is_subagent n.type ≡ true → IsFlat (get_field "nodes" n.config)) ns
unfolding check_no_nested_subagent
no_nested_iff [] = (λ _. tt, λ _. refl)
no_nested_iff (n ∷ ns) = (
  λ h.
      let (this, rest) =
        and_then-valid
          (if is_subagent n.type then check_nodes_entry (get_field "nodes" n.config) else valid) _
          h in
      (
        λ is. (check_nodes_entry_iff (get_field "nodes" n.config)).0 (rw is at this),
        (no_nested_iff ns).0 rest,
      ),
  λ h.
      both_valid _ _
        (elim (Bool-cases (is_subagent n.type)) [
          | inl is ↦ rw is ((check_nodes_entry_iff (get_field "nodes" n.config)).1 (h.0 is))
          | inr other ↦ rw other
        ])
        ((no_nested_iff ns).1 h.1),
)
