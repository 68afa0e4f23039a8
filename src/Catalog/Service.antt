-- ===== src/Catalog/Service.antt =====
-- `ModelCatalogService` of app/services/model_catalog.py. The lock makes one call a step of the
-- state. `now` is the time of the test, `stored_at` the time after the fetch; how the fetch ends is
-- an argument.
use fastapi_langgraph_templa.Common.{
  ℕ, ◌-◌, String, str_append, Option, none, some, ltb, if◌then◌else◌,
}
use fastapi_langgraph_templa.Catalog.{ModelCatalogSnapshot, as_stale}

pub record CatalogState : Type 0 where
  pub snapshot : Option ModelCatalogSnapshot
  pub cached_at : Option ℕ

pub data Fetch : Type 0 where
  fetched : ModelCatalogSnapshot → Fetch
  fetch_failed : String → Fetch

-- a snapshot, or the ModelSelectionError with its HTTP status
pub data Served : Type 0 where
  served : ModelCatalogSnapshot → Served
  unavailable : ℕ → String → Served

-- the snapshot that is fresh enough
abbrev pub fresh : ℕ → ℕ → CatalogState → Option ModelCatalogSnapshot
fresh ttl_seconds now st = elim st.snapshot [
  | none ↦ none
  | some s ↦ elim st.cached_at [
    | none ↦ none
    | some t ↦ if ltb (now - t) ttl_seconds then some s else none
  ]
]

abbrev pub serve_stale : String → Option ModelCatalogSnapshot → Served
serve_stale error none = unavailable 503 (str_append "model catalog unavailable: " error)
serve_stale error (some s) = served (as_stale s)

abbrev pub refresh : ℕ → Fetch → CatalogState → CatalogState × Served
refresh stored_at (fetched s) st =
    (record { snapshot = some s; cached_at = some stored_at }, served s)
refresh stored_at (fetch_failed error) st = (st, serve_stale error st.snapshot)

abbrev pub serve_fresh :
    ℕ → Fetch → CatalogState → Option ModelCatalogSnapshot → CatalogState × Served
serve_fresh stored_at fetch st (some s) = (st, served s)
serve_fresh stored_at fetch st none = refresh stored_at fetch st

unfoldable pub get_snapshot : ℕ → ℕ → ℕ → Fetch → CatalogState → CatalogState × Served
get_snapshot ttl_seconds now stored_at fetch st =
    serve_fresh stored_at fetch st (fresh ttl_seconds now st)
