-- ===== src/Graph/Validator/Roots.antt =====
-- The roots of the search in `_check_entry_reachable` are where the graph starts.
use fastapi_langgraph_templa.Common.{
  String, str_eq, eq_iff, eq_refl, ◌≡◌, refl, ap, sym, ◌∙◌, subst, List, [], ◌∷◌, map, Bool, true,
  false, not, arith, filter, Bool-cases, inl, inr, ◌⊎◌, ◌↔◌,
}
use mathlib.Core.List.{Memᴰ}
use mathlib.Core.List.Memᴰ
use fastapi_langgraph_templa.Common.Names.{contains, contains_iff, contains-filter, not_contains}
use fastapi_langgraph_templa.Graph.{EdgeDef, AgentDefinition}
use fastapi_langgraph_templa.Graph.Validator.{ids, roots, or_all}
use fastapi_langgraph_templa.Graph.Validator.Spec.{Entered, IsRoot}

abbrev targets : List EdgeDef → List String
targets = map (λ (e : EdgeDef). e.target)

targets_entered :
    (es : List EdgeDef) (a : String)
    → contains (targets es) a ≡ true
    → (e : EdgeDef) × Memᴰ e es × (e.target ≡ a)
unfolding contains
targets_entered [] a h = cc
targets_entered (e ∷ es) a h = elim (Bool-cases (str_eq e.target a)) [
  | inl is ↦ (e, Memᴰ.head refl, (eq_iff e.target a).0 is)
  | inr other ↦ let (f, m, is) = targets_entered es a (rw other at h) in (f, Memᴰ.tail m, is)
]

entered_targets :
    (es : List EdgeDef) (a : String) (e : EdgeDef)
    → Memᴰ e es
    → e.target ≡ a
    → contains (targets es) a ≡ true
unfolding contains
entered_targets [] a e m is = absurd (Memᴰ.not-nil m)
entered_targets (f ∷ es) a e m is = elim (Memᴰ.cases_cons m) [
  | inl same ↦
      let own : str_eq f.target a ≡ true =
        (eq_iff f.target a).1 (ap (λ (x : EdgeDef). x.target) (sym same) ∙ is) in
      rw own refl
  | inr later ↦ let found = entered_targets es a e later is in ground (arith, found)
]

module _ (d : AgentDefinition) where
  abbrev known : List String
  known = ids d.nodes

  abbrev no_target : String → Bool
  no_target id = not (contains (targets d.edges) id)

  -- the nodes that no edge leads to
  abbrev sources : List String
  sources = filter no_target known

  not-Entered : (a : String) → no_target a ≡ true → ¬ Entered d a
  not-Entered a h (e, m, is) = let found = entered_targets d.edges a e m is in cc (rw found at h)

  source_split :
      (a : String) → contains sources a ≡ true → (no_target a ≡ true) × (contains known a ≡ true)
  source_split a h = ground (arith, contains-filter no_target known a)

  or_all-IsRoot :
      (ss : List String) (a : String)
      → ss ≡ sources
      → contains (or_all ss known) a ≡ true
      → Memᴰ a known × ((¬ Entered d a) ⊎ ((b : String) → Memᴰ b known → Entered d b))
  unfolding contains
  or_all-IsRoot [] a e h = (
    (contains_iff known a).0 h,
    inr (λ b m. targets_entered d.edges b (
        let there = (contains_iff known b).1 m in
        let none_ : contains sources b ≡ false = ap (λ l. contains l b) (sym e) in
        ground (arith, contains-filter no_target known b))),
  )
  or_all-IsRoot (s ∷ ss) a e h =
      let (free, there) = source_split a (subst (λ l. contains l a ≡ true) e h) in
      ((contains_iff known a).0 there, inl (not-Entered a free))

  IsRoot-or_all :
      (ss : List String) (a : String)
      → ss ≡ sources
      → Memᴰ a known
      → (¬ Entered d a) ⊎ ((b : String) → Memᴰ b known → Entered d b)
      → contains (or_all ss known) a ≡ true
  unfolding contains
  IsRoot-or_all [] a e m h = (contains_iff known a).1 m
  IsRoot-or_all (s ∷ ss) a e m (inl free) =
      let there = (contains_iff known a).1 m in
      let untargeted : no_target a ≡ true = elim (Bool-cases (contains (targets d.edges) a)) [
        | inl hit ↦ absurd (free (targets_entered d.edges a hit))
        | inr miss ↦ rw miss refl
      ] in
      subst (λ l. contains l a ≡ true) (sym e)
        (contains-filter no_target known a ∙ rw (untargeted, there) refl)
  IsRoot-or_all (s ∷ ss) a e m (inr all_entered) =
      let own : contains sources s ≡ true =
        subst (λ l. contains l s ≡ true) e (rw (eq_refl s) refl) in
      let (free, there) = source_split s own in
      absurd (not-Entered s free (all_entered s ((contains_iff known s).0 there)))

  pub roots_iff : (a : String) → (contains (roots d) a ≡ true) ↔ IsRoot d a
  unfolding roots contains
  roots_iff a = elim (Bool-cases (contains known d.entry)) [
    | inl entered ↦ (
      λ h.
          let only : contains (d.entry ∷ []) a ≡ true = rw entered at h in
          inl ((contains_iff known d.entry).0 entered, sym ((eq_iff d.entry a).0 (ground arith))),
      λ r. elim r [
        | inl (m, is) ↦ rw (entered, is, eq_refl d.entry) refl
        | inr (no_, m, rest) ↦ absurd (no_ ((contains_iff known d.entry).0 entered))
      ],
    )
    | inr free ↦ (
      λ h.
          let (m, rest) = or_all-IsRoot sources a refl (rw free at h) in
          inr (not_contains known d.entry free, m, rest),
      λ r. elim r [
        | inl (m, is) ↦ absurd (not_contains known d.entry free m)
        | inr (no_, m, rest) ↦ rw free (IsRoot-or_all sources a refl m rest)
      ],
    )
  ]
