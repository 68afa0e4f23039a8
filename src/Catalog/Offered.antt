-- ===== src/Catalog/Offered.antt =====
-- The models of a catalog that a policy may get, described by the entries of the catalog.
use fastapi_langgraph_templa.Common.{
  String, str_eq, eq_iff, ◌≡◌, refl, ap, sym, ◌∙◌, subst, List, [], ◌∷◌, Option, none, some, true,
  arith, Bool-cases, Option-cases, inl, inr, ◌↔◌, if◌then◌else◌, filter,
}
use mathlib.Core.List.{Memᴰ}
use mathlib.Core.List.Memᴰ
use fastapi_langgraph_templa.Common.Names.{contains}
use fastapi_langgraph_templa.Common.Dict.{lookup, put, lookup-put, lookup-put_other}
use fastapi_langgraph_templa.Graph.Compiler.{put_all}
use fastapi_langgraph_templa.Catalog.{
  ModelCatalogEntry, ModelCatalogSnapshot, entry_ids, selectable_ids,
}
use fastapi_langgraph_templa.Catalog.Policy.{entry_capabilities, capabilities_at}

abbrev or_else : Option ModelCatalogEntry → Option ModelCatalogEntry → Option ModelCatalogEntry
or_else none other = other
or_else (some e) other = some e

-- the last entry with the id
abbrev pub last_entry : String → List ModelCatalogEntry → Option ModelCatalogEntry
last_entry model [] = none
last_entry model (e ∷ es) =
    or_else (last_entry model es) (if str_eq e.catalog_id model then some e else none)

-- an entry with the id is selectable, and the last one with the id has all the capabilities
abbrev pub IsOffered : ModelCatalogSnapshot → List String → String → Type 0
IsOffered s required model =
    ((e : ModelCatalogEntry) × Memᴰ e s.entries × (e.catalog_id ≡ model) × (e.selectable ≡ true))
    × ((e : ModelCatalogEntry) × (last_entry model s.entries ≡ some e)
        × ((c : String) → contains required c ≡ true → contains e.capabilities c ≡ true))

-- what the code tests
abbrev pub Passes : ModelCatalogSnapshot → List String → String → Type 0
Passes s required model =
    (contains (selectable_ids s) model ≡ true)
    × ((c : String) → contains required c ≡ true → contains (entry_capabilities s model) c ≡ true)

HasOpen : String → List ModelCatalogEntry → Type 0
HasOpen model es =
    (e : ModelCatalogEntry) × Memᴰ e es × (e.catalog_id ≡ model) × (e.selectable ≡ true)

open_sound :
    (model : String) (es : List ModelCatalogEntry)
    → contains (entry_ids (filter (λ (e : ModelCatalogEntry). e.selectable) es)) model ≡ true
    → HasOpen model es
unfolding HasOpen contains
open_sound model [] h = cc
open_sound model (e ∷ es) h = elim (Bool-cases e.selectable) [
  | inl can ↦ elim (Bool-cases (str_eq e.catalog_id model)) [
    | inl same ↦ (e, Memᴰ.head refl, (eq_iff e.catalog_id model).0 same, can)
    | inr other ↦
        let (x, m, id, ok) = open_sound model es (rw (can, other) at h) in (x, Memᴰ.tail m, id, ok)
  ]
  | inr not_ ↦ let (x, m, id, ok) = open_sound model es (rw not_ at h) in (x, Memᴰ.tail m, id, ok)
]

open_complete :
    (model : String) (es : List ModelCatalogEntry)
    → HasOpen model es
    → contains (entry_ids (filter (λ (e : ModelCatalogEntry). e.selectable) es)) model ≡ true
unfolding HasOpen contains
open_complete model [] (x, m, id, can) = absurd (Memᴰ.not-nil m)
open_complete model (e ∷ es) (x, m, id, can) = elim (Memᴰ.cases_cons m) [
  | inl same ↦
      let can' : e.selectable ≡ true =
        ap (λ (y : ModelCatalogEntry). y.selectable) (sym same) ∙ can in
      let id' : str_eq e.catalog_id model ≡ true =
        (eq_iff e.catalog_id model).1
          (ap (λ (y : ModelCatalogEntry). y.catalog_id) (sym same) ∙ id) in
      rw (can', id') refl
  | inr later ↦ elim (Bool-cases e.selectable) [
    | inl can2 ↦ rw can2 (ground (arith, open_complete model es (x, later, id, can)))
    | inr not_ ↦ rw not_ (open_complete model es (x, later, id, can))
  ]
]

abbrev id_of : ModelCatalogEntry → String
id_of e = e.catalog_id

lookup-last :
    (model : String) (es : List ModelCatalogEntry) (d : List (String × ModelCatalogEntry))
    → lookup model (put_all id_of (λ e. e) es d) ≡ or_else (last_entry model es) (lookup model d)
unfolding put_all
lookup-last model [] d = refl
lookup-last model (e ∷ es) d =
    lookup-last model es (put e.catalog_id e d) ∙ elim (Option-cases (last_entry model es)) [
      | inr (x, found) ↦ rw found refl
      | inl none_ ↦ elim (Bool-cases (str_eq e.catalog_id model)) [
        | inl same ↦
            rw (none_, same)
              (subst (λ k. lookup k (put e.catalog_id e d) ≡ some e)
                ((eq_iff e.catalog_id model).0 same) (lookup-put e.catalog_id e d))
        | inr other ↦ rw (none_, other) (lookup-put_other e.catalog_id model e d other)
      ]
    ]

last-some :
    (model : String) (es : List ModelCatalogEntry) (x : ModelCatalogEntry)
    → Memᴰ x es
    → x.catalog_id ≡ model
    → (e : ModelCatalogEntry) × (last_entry model es ≡ some e)
last-some model [] x m id = absurd (Memᴰ.not-nil m)
last-some model (y ∷ ys) x m id = elim (Option-cases (last_entry model ys)) [
  | inr (e, found) ↦ (e, rw found refl)
  | inl none_ ↦ elim (Memᴰ.cases_cons m) [
    | inl same ↦
        let id' : str_eq y.catalog_id model ≡ true =
          (eq_iff y.catalog_id model).1
            (ap (λ (z : ModelCatalogEntry). z.catalog_id) (sym same) ∙ id) in
        (y, rw (none_, id') refl)
    | inr later ↦ let (e, found) = last-some model ys x later id in cc (found, none_)
  ]
]

capabilities_of_last :
    (s : ModelCatalogSnapshot) (model : String) (e : ModelCatalogEntry)
    → last_entry model s.entries ≡ some e
    → entry_capabilities s model ≡ e.capabilities
unfolding entry_capabilities
capabilities_of_last s model e last =
    ap capabilities_at (lookup-last model s.entries [] ∙ ap (λ o. or_else o (lookup model [])) last)

pub Passes-IsOffered :
    (s : ModelCatalogSnapshot) (required : List String) (model : String)
    → Passes s required model ↔ IsOffered s required model
unfolding selectable_ids HasOpen
Passes-IsOffered s required model = (
  λ (open_, covers).
      let (x, m, id, can) = open_sound model s.entries open_ in
      let (e, last) = last-some model s.entries x m id in
      (
        (x, m, id, can),
        (
          e,
          last,
          λ c r.
              subst (λ caps. contains caps c ≡ true) (capabilities_of_last s model e last)
                (covers c r),
        ),
      ),
  λ (there, (e, last, covers)). (
    open_complete model s.entries there,
    λ c r.
        subst (λ caps. contains caps c ≡ true) (sym (capabilities_of_last s model e last))
          (covers c r),
  ),
)
