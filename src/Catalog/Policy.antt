-- ===== src/Catalog/Policy.antt =====
-- `ModelPolicy` and `resolve_model_policy` of app/services/model_catalog.py. A ModelSelectionError
-- is a Refusal. The time of the decision is left out.
use fastapi_langgraph_templa.Common.{
  String, str_eq, List, [], ◌∷◌, Option, none, some, Bool, true, false, ◌&&◌, not, if◌then◌else◌,
  filter, is_some, is_none,
}
use fastapi_langgraph_templa.Common.Names.{contains}
use fastapi_langgraph_templa.Common.Dict.{lookup}
use fastapi_langgraph_templa.Graph.Compiler.{put_all}
use fastapi_langgraph_templa.Catalog.{ModelCatalogEntry, ModelCatalogSnapshot, selectable_ids}

pub data Mode : Type 0 where
  specific by_tier auto : Mode

pub data ModelTier : Type 0 where
  economy balanced performance : ModelTier

abbrev pub tier_name : ModelTier → String
tier_name economy = "economy"
tier_name balanced = "balanced"
tier_name performance = "performance"

pub record ModelPolicy : Type 0 where
  pub mode : Mode
  pub model_id : Option String
  pub tier : Option ModelTier

-- `not s` of an optional text
abbrev pub is_blank : Option String → Bool
is_blank none = true
is_blank (some s) = str_eq s ""

abbrev pub is_specific : Mode → Bool
is_specific specific = true
is_specific _ = false

abbrev pub is_by_tier : Mode → Bool
is_by_tier by_tier = true
is_by_tier _ = false

-- The message of the ValueError, if there is one.
unfoldable pub check_fields : ModelPolicy → Option String
check_fields p =
    if is_specific p.mode && is_blank p.model_id
    then some "mode 'specific' requires model_id"
    else if is_by_tier p.mode && is_none p.tier
    then some "mode 'tier' requires tier"
    else if not (is_specific p.mode) && is_some p.model_id
    then some "model_id is only valid for mode 'specific'"
    else if not (is_by_tier p.mode) && is_some p.tier
    then some "tier is only valid for mode 'tier'"
    else none

pub data Refusal : Type 0 where
  not_selectable : String → Refusal
  lacks_capabilities : String → List String → Refusal
  tier_not_configured : Option ModelTier → Refusal
  no_balanced_tier : Refusal

pub record ModelDecision : Type 0 where
  pub requested : ModelPolicy
  pub resolved_model : String
  pub resolved_tier : Option ModelTier
  pub catalog_version : String

pub data Resolved : Type 0 where
  decided : ModelDecision → Resolved
  refused : Refusal → Resolved

-- what the dict `entries` has for an id, of which the entries are a comprehension
abbrev pub capabilities_at : Option ModelCatalogEntry → List String
capabilities_at none = []
capabilities_at (some e) = e.capabilities

unfoldable pub entry_capabilities : ModelCatalogSnapshot → String → List String
entry_capabilities s model_id =
    capabilities_at
      (lookup model_id (put_all (λ (e : ModelCatalogEntry). e.catalog_id) (λ e. e) s.entries []))

unfoldable pub missing : ModelCatalogSnapshot → List String → String → List String
unfolding entry_capabilities
missing s required model_id =
    filter (λ c. not (contains (entry_capabilities s model_id) c)) required

-- `_require`, and the decision on the model
abbrev pub require_covered : ModelDecision → List String → Resolved
require_covered decision [] = decided decision
require_covered decision (c ∷ cs) = refused (lacks_capabilities decision.resolved_model (c ∷ cs))

unfoldable pub require : ModelCatalogSnapshot → List String → ModelDecision → Resolved
unfolding missing
require s required decision =
    if not (contains (selectable_ids s) decision.resolved_model)
    then refused (not_selectable decision.resolved_model)
    else require_covered decision (missing s required decision.resolved_model)

-- `dict.get(key) or ""`
abbrev pub or_blank : Option String → String
or_blank none = ""
or_blank (some s) = s

abbrev pub tier_key : Option ModelTier → String
tier_key none = ""
tier_key (some t) = tier_name t

-- the mapped model of a tier, or the refusal of a tier that is not configured
abbrev pub require_mapped :
    ModelCatalogSnapshot → List String → (String → ModelDecision) → Refusal → String → Resolved
require_mapped s required decision refusal mapped =
    if str_eq mapped "" then refused refusal else require s required (decision mapped)

abbrev pub deciding : ModelPolicy → ModelCatalogSnapshot → Option ModelTier → String → ModelDecision
deciding policy s tier model = record {
  requested = policy;
  resolved_model = model;
  resolved_tier = tier;
  catalog_version = s.version;
}

unfoldable pub resolve_in_mode :
    Mode → ModelPolicy → ModelCatalogSnapshot → List (String × String) → List String → Resolved
unfolding require
resolve_in_mode specific policy s tier_map required =
    require s required (deciding policy s none (or_blank policy.model_id))
resolve_in_mode by_tier policy s tier_map required =
    require_mapped s required (deciding policy s policy.tier) (tier_not_configured policy.tier)
      (or_blank (lookup (tier_key policy.tier) tier_map))
resolve_in_mode auto policy s tier_map required =
    require_mapped s required (deciding policy s (some balanced)) no_balanced_tier
      (or_blank (lookup "balanced" tier_map))

unfoldable pub resolve_model_policy :
    ModelPolicy → ModelCatalogSnapshot → List (String × String) → List String → Resolved
unfolding resolve_in_mode
resolve_model_policy policy s tier_map required =
    resolve_in_mode policy.mode policy s tier_map required
