-- ===== src/Catalog.antt =====
-- app/services/model_catalog.py: the policies, the catalog of models and its cache. `digest` stands
-- for the sha256 over the entries that names a version of the catalog.
pub mod Policy
pub mod Service
pub mod Offered
pub mod Selectable
pub mod Cache
use fastapi_langgraph_templa.Common.{
  ℕ, String, str_eq, List, [], ◌∷◌, map, Option, none, some, Bool, true, false, ◌&&◌, ◌||◌, not,
  ◌==◌, if◌then◌else◌, filter,
}
use Prim.Native.String.{compare}
use Prim.Native.Nat.{Ordering}
use fastapi_langgraph_templa.Common.Names.{contains}
use fastapi_langgraph_templa.Common.Dict.{lookup}
use fastapi_langgraph_templa.Events.Redact.{codes, lower_code}

pub data Availability : Type 0 where
  available stale : Availability

pub record ModelCatalogEntry : Type 0 where
  pub catalog_id : String
  pub display_name : String
  pub capabilities : List String
  pub selectable : Bool
  pub availability : Availability

pub record ModelCatalogSnapshot : Type 0 where
  pub version : String
  pub fetched_at : ℕ
  pub entries : List ModelCatalogEntry
  pub stale : Bool

abbrev pub entry_ids : List ModelCatalogEntry → List String
entry_ids = map (λ (e : ModelCatalogEntry). e.catalog_id)

-- the set of `selectable_ids`
unfoldable pub selectable_ids : ModelCatalogSnapshot → List String
selectable_ids s = entry_ids (filter (λ (e : ModelCatalogEntry). e.selectable) s.entries)

unfoldable pub as_stale : ModelCatalogSnapshot → ModelCatalogSnapshot
as_stale s = record s {
  stale = true;
  entries =
      map (λ (e : ModelCatalogEntry). record e { availability = Availability.stale }) s.entries;
}

-- a text begins with another, on their code points
unfoldable pub begins : List ℕ → List ℕ → Bool
begins [] text = true
begins (c ∷ cs) [] = false
begins (c ∷ cs) (d ∷ text) = (c == d) && begins cs text

unfoldable pub occurs : List ℕ → List ℕ → Bool
unfolding begins
occurs word [] = begins word []
occurs word (c ∷ text) = begins word (c ∷ text) || occurs word text

-- `"embed" in model_id.lower()`: no letter outside ASCII has a lower case in "embed"
unfoldable pub is_embedding : String → Bool
unfolding occurs lower_code
is_embedding model_id = occurs (codes "embed") (map lower_code (codes model_id))

abbrev pub str_before : String → String → Bool
str_before a b = elim (compare a b) [ Ordering.lt ↦ true | _ ↦ false ]

-- `sorted(dict.fromkeys(ids))`, by insertion
unfoldable pub insert_id : String → List String → List String
insert_id a [] = a ∷ []
insert_id a (b ∷ bs) =
    if str_eq b a then b ∷ bs else if str_before a b then a ∷ b ∷ bs else b ∷ insert_id a bs

unfoldable pub sorted_ids : List String → List String
unfolding insert_id
sorted_ids [] = []
sorted_ids (a ∷ as') = insert_id a (sorted_ids as')

-- `capability_map.get(model_id, [])`
abbrev pub capabilities_of : Option (List String) → List String
capabilities_of none = []
capabilities_of (some cs) = cs

abbrev pub entry : List (String × List String) → String → ModelCatalogEntry
entry capabilities model_id = record {
  catalog_id = model_id;
  display_name = model_id;
  capabilities = capabilities_of (lookup model_id capabilities);
  selectable = true;
  availability = Availability.available;
}

unfoldable pub build_snapshot :
    (List ModelCatalogEntry → String)
    → List String
    → ℕ
    → List (String × List String)
    → ModelCatalogSnapshot
unfolding sorted_ids is_embedding
build_snapshot digest model_ids now capabilities =
    let entries =
      map (entry capabilities) (filter (λ id. not (is_embedding id)) (sorted_ids model_ids)) in
    record { version = digest entries; fetched_at = now; entries = entries; stale = false }
