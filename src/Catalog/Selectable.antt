-- ===== src/Catalog/Selectable.antt =====
-- Which models a policy can get.
use fastapi_langgraph_templa.Common.{
  ℕ, String, str_eq, eq_iff, eq_refl, ◌≡◌, ◌≢◌, refl, ap, sym, subst, ◌∙◌, List, [], ◌∷◌, map,
  Option, none, some, true, ◌&&◌, ◌||◌, not, arith, filter, Bool-cases, inl, inr, ◌↔◌,
}
use fastapi_langgraph_templa.Common.Names.{contains, contains-filter}
use fastapi_langgraph_templa.Common.Dict.{lookup}
use fastapi_langgraph_templa.Catalog.{
  ModelCatalogEntry, ModelCatalogSnapshot, entry_ids, selectable_ids, build_snapshot, sorted_ids,
  insert_id, is_embedding, entry, str_before,
}
use fastapi_langgraph_templa.Catalog.Offered.{IsOffered, Passes, Passes-IsOffered}
use fastapi_langgraph_templa.Catalog.Policy.{
  ModelTier, ModelPolicy, Mode, specific, by_tier, auto, balanced, ModelDecision, deciding,
  or_blank, tier_key, decided, Refusal, require, require_covered, require_mapped, missing,
  entry_capabilities, resolve_in_mode, resolve_model_policy,
}

none_missing :
    (caps required : List String)
    → filter (λ c. not (contains caps c)) required ≡ []
    → (c : String) → contains required c ≡ true
    → contains caps c ≡ true
unfolding contains
none_missing caps required h c m = ground (
  arith,
  contains-filter (λ x. not (contains caps x)) required c,
  ap (λ (z : List String). contains z c) h,
)

missing_none :
    (caps required : List String)
    → ((c : String) → contains required c ≡ true → contains caps c ≡ true)
    → filter (λ c. not (contains caps c)) required ≡ []
unfolding contains
missing_none caps [] h = refl
missing_none caps (c ∷ cs) h =
    rw (h c (rw (eq_refl c))) (missing_none caps cs (λ a m. h a (ground arith)))

covered_cases :
    (decision d : ModelDecision) (lacking : List String)
    → require_covered decision lacking ≡ decided d
    → (lacking ≡ []) × (decision ≡ d)
covered_cases decision d [] h = (refl, cc)
covered_cases decision d (c ∷ cs) h = cc

require_iff :
    (s : ModelCatalogSnapshot) (required : List String) (decision d : ModelDecision)
    → (require s required decision ≡ decided d)
      ↔ ((decision ≡ d) × Passes s required decision.resolved_model)
unfolding require missing
require_iff s required decision d = (
  λ h. elim (Bool-cases (contains (selectable_ids s) decision.resolved_model)) [
    | inl ok ↦
        let (lacks, same) = covered_cases decision d _ (rw ok at h) in
        (same, (ok, none_missing (entry_capabilities s decision.resolved_model) required lacks))
    | inr no_ ↦ cc (rw no_ at h)
  ],
  λ (same, (ok, covers)).
      rw (ok, missing_none (entry_capabilities s decision.resolved_model) required covers)
        (ap decided same),
)

-- the decision that a mode makes, as the code has it
abbrev pub Made :
    Mode → ModelPolicy → ModelCatalogSnapshot → List (String × String) → ModelDecision → Type 0
Made specific policy s tier_map d = deciding policy s none (or_blank policy.model_id) ≡ d
Made by_tier policy s tier_map d =
    (or_blank (lookup (tier_key policy.tier) tier_map) ≢ "")
    × (deciding policy s policy.tier (or_blank (lookup (tier_key policy.tier) tier_map)) ≡ d)
Made auto policy s tier_map d =
    (or_blank (lookup "balanced" tier_map) ≢ "")
    × (deciding policy s (some balanced) (or_blank (lookup "balanced" tier_map)) ≡ d)

Passes-same :
    (s : ModelCatalogSnapshot) (required : List String) (a b : ModelDecision)
    → a ≡ b
    → Passes s required a.resolved_model
    → Passes s required b.resolved_model
Passes-same s required a b e = subst (λ (x : ModelDecision). Passes s required x.resolved_model) e

made_iff :
    (s : ModelCatalogSnapshot) (required : List String) (decision d : ModelDecision)
    → (require s required decision ≡ decided d)
      ↔ ((decision ≡ d) × Passes s required d.resolved_model)
made_iff s required decision d = (
  λ h.
      let (same, offered) = (require_iff s required decision d).0 h in
      (same, Passes-same s required decision d same offered),
  λ h. (require_iff s required decision d).1 (h.0, Passes-same s required d decision (sym h.0) h.1),
)

mapped_iff :
    (s : ModelCatalogSnapshot) (required : List String) (make : String → ModelDecision)
    (r : Refusal) (mapped : String) (d : ModelDecision)
    → (require_mapped s required make r mapped ≡ decided d)
      ↔ (((mapped ≢ "") × (make mapped ≡ d)) × Passes s required d.resolved_model)
mapped_iff s required make r mapped d = (
  λ h. elim (Bool-cases (str_eq mapped "")) [
    | inl blank ↦ cc (rw blank at h)
    | inr named ↦
        let (same, offered) = (made_iff s required (make mapped) d).0 (rw named at h) in
        ((λ e. cc ((eq_iff mapped "").1 e, named), same), offered)
  ],
  λ h. elim (Bool-cases (str_eq mapped "")) [
    | inl blank ↦ absurd (h.0.0 ((eq_iff mapped "").0 blank))
    | inr named ↦ rw named ((made_iff s required (make mapped) d).1 (h.0.1, h.1))
  ],
)

resolve-Made :
    (policy : ModelPolicy) (s : ModelCatalogSnapshot) (tier_map : List (String × String))
    (required : List String) (d : ModelDecision)
    → (resolve_model_policy policy s tier_map required ≡ decided d)
      ↔ (Made policy.mode policy s tier_map d × Passes s required d.resolved_model)
unfolding resolve_model_policy
resolve-Made policy s tier_map required d = in_mode policy.mode
  where
    in_mode :
        (m : Mode)
        → (resolve_in_mode m policy s tier_map required ≡ decided d)
          ↔ (Made m policy s tier_map d × Passes s required d.resolved_model)
    in_mode specific = made_iff s required (deciding policy s none (or_blank policy.model_id)) d
    in_mode by_tier =
        mapped_iff s required (deciding policy s policy.tier) _
          (or_blank (lookup (tier_key policy.tier) tier_map)) d
    in_mode auto =
        mapped_iff s required (deciding policy s (some balanced)) _
          (or_blank (lookup "balanced" tier_map)) d

-- the fields of a decision
abbrev pub Picks :
    ModelPolicy → ModelCatalogSnapshot → Option ModelTier → String → ModelDecision → Type 0
Picks policy s tier model d =
    (d.requested ≡ policy)
    × (d.resolved_model ≡ model)
    × (d.resolved_tier ≡ tier)
    × (d.catalog_version ≡ s.version)

-- a tier has a model
abbrev pub IsMapped : List (String × String) → String → String → Type 0
IsMapped tier_map tier model = (lookup tier tier_map ≡ some model) × (model ≢ "")

-- A specific policy gets the model that it names; one by tier the model that is configured for its
-- tier, and an automatic one the model that is configured for the balanced tier.
abbrev pub Chosen :
    Mode → ModelPolicy → ModelCatalogSnapshot → List (String × String) → ModelDecision → Type 0
Chosen specific policy s tier_map d = Picks policy s none (or_blank policy.model_id) d
Chosen by_tier policy s tier_map d =
    (model : String) × IsMapped tier_map (tier_key policy.tier) model
    × Picks policy s policy.tier model d
Chosen auto policy s tier_map d =
    (model : String) × IsMapped tier_map "balanced" model × Picks policy s (some balanced) model d

deciding-Picks :
    (policy : ModelPolicy) (s : ModelCatalogSnapshot) (tier : Option ModelTier) (model : String)
    (d : ModelDecision)
    → (deciding policy s tier model ≡ d) ↔ Picks policy s tier model d
deciding-Picks policy s tier model d = (
  λ e. subst (Picks policy s tier model) e (refl, refl, refl, refl),
  λ (requested, resolved, at, version). made requested resolved at version,
)
  where
    made :
        d.requested ≡ policy
        → d.resolved_model ≡ model
        → d.resolved_tier ≡ tier
        → d.catalog_version ≡ s.version
        → deciding policy s tier model ≡ d
    made requested resolved at version = rw (sym requested, sym resolved, sym at, sym version) refl

mapped_once :
    (o : Option String) (P : String → Type 0)
    → ((or_blank o ≢ "") × P (or_blank o))
      ↔ ((model : String) × ((o ≡ some model) × (model ≢ "")) × P model)
mapped_once none P = (λ (no_, _). absurd (no_ refl), λ (model, (e, _), _). cc)
mapped_once (some x) P = (
  λ (named, p). (x, (refl, named), p),
  λ (model, (e, named), p).
      let same : model ≡ x = cc in ((λ blank. named (same ∙ blank)), subst P same p),
)

Made-Chosen :
    (m : Mode) (policy : ModelPolicy) (s : ModelCatalogSnapshot) (tier_map : List (String × String))
    (d : ModelDecision)
    → Made m policy s tier_map d ↔ Chosen m policy s tier_map d
Made-Chosen specific policy s tier_map d = deciding-Picks policy s none (or_blank policy.model_id) d
Made-Chosen by_tier policy s tier_map d =
    let pick = λ (model : String). deciding-Picks policy s policy.tier model d in
    let once =
      mapped_once (lookup (tier_key policy.tier) tier_map)
        (λ model. Picks policy s policy.tier model d) in
    (
      λ (named, e). once.0 (named, (pick _).0 e),
      λ c. let (named, p) = once.1 c in (named, (pick _).1 p),
    )
Made-Chosen auto policy s tier_map d =
    let pick = λ (model : String). deciding-Picks policy s (some balanced) model d in
    let once =
      mapped_once (lookup "balanced" tier_map) (λ model. Picks policy s (some balanced) model d) in
    (
      λ (named, e). once.0 (named, (pick _).0 e),
      λ c. let (named, p) = once.1 c in (named, (pick _).1 p),
    )

-- A policy is resolved to a decision exactly if the decision names the policy, the version of the
-- catalog, and the model that the policy names or that is configured for its tier, the balanced
-- one for an automatic policy, together with that tier; an entry of the catalog with that model is
-- selectable, and the last one with it has all the required capabilities.
pub resolve_model_policy_iff :
    (policy : ModelPolicy) (s : ModelCatalogSnapshot) (tier_map : List (String × String))
    (required : List String) (d : ModelDecision)
    → (resolve_model_policy policy s tier_map required ≡ decided d)
      ↔ (Chosen policy.mode policy s tier_map d × IsOffered s required d.resolved_model)
resolve_model_policy_iff policy s tier_map required d =
    let all = resolve-Made policy s tier_map required d in
    let made = Made-Chosen policy.mode policy s tier_map d in
    let offered = Passes-IsOffered s required d.resolved_model in
    (λ h. let (m, p) = all.0 h in (made.0 m, offered.0 p), λ (m, p). all.1 (made.1 m, offered.1 p))

contains-insert_id :
    (a : String) (xs : List String) (m : String)
    → contains (insert_id a xs) m ≡ (str_eq a m || contains xs m)
unfolding insert_id contains
contains-insert_id a [] m = refl
contains-insert_id a (b ∷ bs) m = elim (Bool-cases (str_eq b a)) [
  | inl e ↦ rw e (rw ((eq_iff b a).0 e) (ground arith))
  | inr e ↦ elim (Bool-cases (str_before a b)) [
    | inl f ↦ rw (e, f) refl
    | inr f ↦ rw (e, f) (ground (arith, contains-insert_id a bs m))
  ]
]

contains-sorted_ids : (xs : List String) (m : String) → contains (sorted_ids xs) m ≡ contains xs m
unfolding sorted_ids contains
contains-sorted_ids [] m = refl
contains-sorted_ids (x ∷ xs) m =
    contains-insert_id x (sorted_ids xs) m ∙ ap (λ b. str_eq x m || b) (contains-sorted_ids xs m)

all_offered :
    (capabilities : List (String × List String)) (ids : List String)
    → entry_ids (filter (λ (e : ModelCatalogEntry). e.selectable) (map (entry capabilities) ids))
      ≡ ids
all_offered capabilities [] = refl
all_offered capabilities (x ∷ xs) = ap (λ t. x ∷ t) (all_offered capabilities xs)

-- A fresh catalog offers exactly the models that the server lists, less those for embeddings.
build_snapshot-offers :
    (digest : List ModelCatalogEntry → String) (model_ids : List String) (now : ℕ)
    (capabilities : List (String × List String)) (m : String)
    → contains (selectable_ids (build_snapshot digest model_ids now capabilities)) m
      ≡ (not (is_embedding m) && contains model_ids m)
unfolding build_snapshot selectable_ids
build_snapshot-offers digest model_ids now capabilities m =
    ap (λ ids. contains ids m)
      (all_offered capabilities (filter (λ id. not (is_embedding id)) (sorted_ids model_ids)))
    ∙ contains-filter (λ id. not (is_embedding id)) (sorted_ids model_ids) m
    ∙ ap (λ b. not (is_embedding m) && b) (contains-sorted_ids model_ids m)
