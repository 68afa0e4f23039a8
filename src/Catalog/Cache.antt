-- ===== src/Catalog/Cache.antt =====
-- What the cache of the catalog serves.
use fastapi_langgraph_templa.Common.{true}
use fastapi_langgraph_templa.Common.{
  ℕ, ◌-◌, ◌≤◌, ◌<◌, String, ◌≡◌, refl, List, [], ◌∷◌, map, some, false, arith, ltb, lt→ltb, filter,
}
use fastapi_langgraph_templa.Catalog.{
  ModelCatalogEntry, ModelCatalogSnapshot, as_stale, selectable_ids, entry_ids, Availability,
}
use fastapi_langgraph_templa.Catalog.Service.{
  CatalogState, Fetch, fetched, fetch_failed, served, get_snapshot,
}

-- the snapshot is cached since a time
abbrev pub holding : ModelCatalogSnapshot → ℕ → CatalogState
holding s t = record { snapshot = some s; cached_at = some t }

abbrev mark : List ModelCatalogEntry → List ModelCatalogEntry
mark = map (λ (e : ModelCatalogEntry). record e { availability = Availability.stale })

stale_ids :
    (es : List ModelCatalogEntry)
    → entry_ids (filter (λ (e : ModelCatalogEntry). e.selectable) (mark es))
      ≡ entry_ids (filter (λ (e : ModelCatalogEntry). e.selectable) es)
stale_ids [] = refl
stale_ids (e ∷ es) = ground (arith, stale_ids es)

-- A stale copy offers the same models.
pub as_stale-selectable_ids :
    (s : ModelCatalogSnapshot) → selectable_ids (as_stale s) ≡ selectable_ids s
unfolding as_stale selectable_ids
as_stale-selectable_ids s = stale_ids s.entries

-- A successful fetch, made when the copy is as old as the time to live, is served, and the next call,
-- within the time to live after it, gets the same snapshot and leaves the state as it is, whatever a
-- fetch would give then.
get_snapshot-get_snapshot :
    (ttl now stored_at cached_at later stored_later : ℕ) (s new_one : ModelCatalogSnapshot)
    (fetch : Fetch)
    → ttl ≤ now - cached_at
    → later - stored_at < ttl
    → let (st, first) = get_snapshot ttl now stored_at (fetched new_one) (holding s cached_at) in
      (first ≡ served new_one)
      × (get_snapshot ttl later stored_later fetch st ≡ (st, served new_one))
unfolding get_snapshot
get_snapshot-get_snapshot ttl now stored_at cached_at later stored_later s new_one fetch old young =
    let over : ltb (now - cached_at) ttl ≡ false = ground arith in
    rw (over, lt→ltb (later - stored_at) ttl young) (refl, refl)

-- A fetch that fails, made when the copy is as old as the time to live, leaves the copy as it is and
-- serves it marked as stale, with the same version and the same models to select.
get_snapshot_stale :
    (ttl now stored_at cached_at : ℕ) (s : ModelCatalogSnapshot) (error : String)
    → ttl ≤ now - cached_at
    → (stale_one : ModelCatalogSnapshot) × (get_snapshot ttl now stored_at
          (fetch_failed error)
          (holding s cached_at)
        ≡ (holding s cached_at, served stale_one))
      × (stale_one.stale ≡ true)
      × (stale_one.version ≡ s.version)
      × (selectable_ids stale_one ≡ selectable_ids s)
unfolding get_snapshot as_stale
get_snapshot_stale ttl now stored_at cached_at s error old =
    let over : ltb (now - cached_at) ttl ≡ false = ground arith in
    (as_stale s, rw over refl, refl, refl, as_stale-selectable_ids s)
