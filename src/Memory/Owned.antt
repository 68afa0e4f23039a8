-- ===== src/Memory/Owned.antt =====
-- Whose memories a response holds.
use fastapi_langgraph_templa.Common.{
  ℕ, String, ◌≡◌, refl, subst, List, [], ◌∷◌, Option, none, some, ◌&&◌, leb, inl, inr, Bool-cases,
  arith,
}
use fastapi_langgraph_templa.Common.Int.{ℤ, pos, negsuc}
use fastapi_langgraph_templa.Json.{Json, Items, nil, cons}
use fastapi_langgraph_templa.Api.Runs.{Response, success}
use fastapi_langgraph_templa.Memory.{
  MemoryRecord, Functions, RowEnd, passed_over, gives, row_exception, record_of, add_record,
  records_of, rows_of, records, filters, Client, search, list, Settings, respond, with_store,
  search_within, search_memory, list_page, list_memory,
}

abbrev AllRows : (Json → Type 0) → Items → Type 0
AllRows P nil = Unit
AllRows P (cons row rows) = P row × AllRows P rows

-- the records are made of rows with a property
abbrev AllFrom : Functions → (Json → Type 0) → List MemoryRecord → Type 0
AllFrom py P [] = Unit
AllFrom py P (r ∷ rs) = ((row : Json) × P row × (record_of py row ≡ gives r)) × AllFrom py P rs

-- what the client answers on the filters of a user holds rows of that user only
abbrev IsFiltered : (String → Json → Type 0) → Client → Type 0
IsFiltered Owner client =
    ((query user_id : String) (top_k : ℕ) (response : Json) (rows : Items)
      → client.search query (filters user_id) top_k ≡ some response
      → rows_of response ≡ some rows
      → AllRows (Owner user_id) rows)
    × ((user_id : String) (page page_size : ℕ) (response : Json) (rows : Items)
        → client.get_all (filters user_id) page page_size ≡ some response
        → rows_of response ≡ some rows
        → AllRows (Owner user_id) rows)

module _ (py : Functions) (P : Json → Type 0) where
  add_record-AllFrom :
      (row : Json) (e : RowEnd) (rest : Option (List MemoryRecord)) (rs : List MemoryRecord)
      → record_of py row ≡ e
      → P row
      → ((rs' : List MemoryRecord) → rest ≡ some rs' → AllFrom py P rs')
      → add_record e rest ≡ some rs
      → AllFrom py P rs
  add_record-AllFrom row passed_over rest rs is p later h = later rs h
  add_record-AllFrom row row_exception rest rs is p later h = cc
  add_record-AllFrom row (gives r) none rs is p later h = cc
  add_record-AllFrom row (gives r) (some rs') rs is p later h =
      let same : r ∷ rs' ≡ rs = cc in subst (AllFrom py P) same ((row, p, is), later rs' refl)

  records_of-AllFrom :
      (rows : Items) (rs : List MemoryRecord)
      → AllRows P rows
      → records_of py rows ≡ some rs
      → AllFrom py P rs
  unfolding records_of
  records_of-AllFrom nil rs all h = let same : [] ≡ rs = cc in subst (AllFrom py P) same tt
  records_of-AllFrom (cons row rows) rs (p, all) h =
      add_record-AllFrom row (record_of py row) (records_of py rows) rs refl p
        (λ rs' e. records_of-AllFrom rows rs' all e) h

  rows-AllFrom :
      (o : Option Items) (rs : List MemoryRecord)
      → ((rows : Items) → o ≡ some rows → AllRows P rows)
      → elim o [ none ↦ none | some rows ↦ records_of py rows ] ≡ some rs
      → AllFrom py P rs
  rows-AllFrom none rs all h = cc
  rows-AllFrom (some rows) rs all h = records_of-AllFrom rows rs (all rows refl) h

  records-AllFrom :
      (o : Option Json) (rs : List MemoryRecord)
      → ((response : Json) (rows : Items)
          → o ≡ some response
          → rows_of response ≡ some rows
          → AllRows P rows)
      → records py o ≡ some rs
      → AllFrom py P rs
  unfolding records
  records-AllFrom none rs all h = cc
  records-AllFrom (some response) rs all h =
      rows-AllFrom (rows_of response) rs (λ rows e. all response rows refl e) h

respond_success :
    (o : Option (List MemoryRecord)) (rs : List MemoryRecord) → respond o ≡ success rs → o ≡ some rs
respond_success none rs h = ground arith
respond_success (some x) rs h = ground arith

with_store_success :
    (s : Settings) (r : Response (List MemoryRecord)) (rs : List MemoryRecord)
    → with_store s r ≡ success rs
    → r ≡ success rs
with_store_success s r rs h = ground arith

module _ (s : Settings) (py : Functions) (client : Client) (Owner : String → Json → Type 0)
    (filtered : IsFiltered Owner client) where
  search-AllFrom :
      (user_id query : String) (top_k : ℤ) (rs : List MemoryRecord)
      → search_within s py client user_id query top_k ≡ success rs
      → AllFrom py (Owner user_id) rs
  unfolding search
  search-AllFrom user_id query (pos top_k) rs h = elim (Bool-cases (leb 1 top_k && leb top_k 50)) [
    | inl ok ↦
        records-AllFrom py (Owner user_id) (client.search query (filters user_id) top_k) rs
          (filtered.0 query user_id top_k)
          (respond_success (search py client user_id query top_k) rs (rw ok at h))
    | inr bad ↦ let h' = rw bad at h in cc
  ]
  search-AllFrom user_id query (negsuc n) rs h = ground arith

  list-AllFrom :
      (user_id : String) (page page_size : ℤ) (rs : List MemoryRecord)
      → list_page s py client user_id page page_size ≡ success rs
      → AllFrom py (Owner user_id) rs
  unfolding list
  list-AllFrom user_id (pos page) (pos page_size) rs h =
      elim (Bool-cases (leb 1 page && (leb 1 page_size && leb page_size 100))) [
        | inl ok ↦
            records-AllFrom py (Owner user_id) (client.get_all (filters user_id) page page_size) rs
              (filtered.1 user_id page page_size)
              (respond_success (list py client user_id page page_size) rs (rw ok at h))
        | inr bad ↦ let h' = rw bad at h in cc
      ]
  list-AllFrom user_id (negsuc n) page_size rs h = ground arith
  list-AllFrom user_id (pos page) (negsuc n) rs h = ground arith

-- If the client of Mem0 filters by the user, then every memory in a response to a search or to a
-- listing for a user is made of a row of that user.
memory-AllFrom :
    (s : Settings) (py : Functions) (client : Client) (Owner : String → Json → Type 0)
    (user_id query : String) (top_k page page_size : ℤ) (rs : List MemoryRecord)
    → IsFiltered Owner client
    → (search_memory s py client user_id query top_k ≡ success rs → AllFrom py (Owner user_id) rs)
      × (list_memory s py client user_id page page_size ≡ success rs
          → AllFrom py (Owner user_id) rs)
unfolding search_memory list_memory
memory-AllFrom s py client Owner user_id query top_k page page_size rs filtered = (
  λ h.
      search-AllFrom s py client Owner filtered user_id query top_k rs
        (with_store_success s (search_within s py client user_id query top_k) rs h),
  λ h.
      list-AllFrom s py client Owner filtered user_id page page_size rs
        (with_store_success s (list_page s py client user_id page page_size) rs h),
)
