-- ===== src/Memory.antt =====
-- app/capabilities/memory_store.py and app/api/memory.py. `Client` stands for the client of Mem0: the
-- JSON of its response (None is null), or none for an exception. `show`, `to_float` and `to_dict`
-- stand for `str`, `float` and `dict` on a JSON value, the last two with none for an exception. An
-- exception that no handler catches is a status 500.
pub mod Owned
use fastapi_langgraph_templa.Common.{
  ℕ, String, str_eq, List, [], ◌∷◌, Option, none, some, Bool, true, false, ◌&&◌, ◌||◌, not, leb,
  if◌then◌else◌,
}
use fastapi_langgraph_templa.Common.Int.{ℤ, pos, below}
use fastapi_langgraph_templa.Json.{
  Json, Items, Fields, null, bool, num, text, arr, obj, nil, cons, end, field,
}
use fastapi_langgraph_templa.Graph.Validator.{get_field}
use fastapi_langgraph_templa.Tools.OpenApi.{is_truthy}
use fastapi_langgraph_templa.Api.Runs.{Response, success, http_error}

record MemoryRecord : Type 0 where
  id : Option String
  text : String
  score : Option Json
  metadata : Fields

record Functions : Type 0 where
  show : Json → String
  to_float : Json → Option Json
  to_dict : Json → Option Fields

-- `a or b` of two values that may be missing
abbrev or_value : Option Json → Option Json → Option Json
or_value a b = if is_truthy a then a else b

-- `value is not None`
abbrev not_none : Option Json → Option Json
not_none none = none
not_none (some null) = none
not_none (some v) = some v

abbrev text_of_row : Fields → Option Json
text_of_row row =
    not_none (
      or_value (or_value (get_field "memory" row) (get_field "text" row)) (get_field "content" row))

-- the score of a row; the outer none is an exception
abbrev score_of : Functions → Option Json → Option (Option Json)
score_of py none = some none
score_of py (some v) = elim (py.to_float v) [ none ↦ none | some f ↦ some (some f) ]

-- `dict(value or {})`
abbrev dict_of : Functions → Option Json → Option Fields
dict_of py (some (obj fs)) = some fs
dict_of py (some v) = if is_truthy (some v) then py.to_dict v else some end
dict_of py none = some end

abbrev record_with :
    Functions → Fields → Json → Option (Option Json) → Option Fields → Option MemoryRecord
record_with py row v (some score) (some metadata) = some (record {
  id = elim (not_none (get_field "id" row)) [ none ↦ none | some i ↦ some (py.show i) ];
  text = py.show v;
  score = score;
  metadata = metadata;
})
record_with py row v _ _ = none

-- a row that gives no record, a record, or an exception
data RowEnd : Type 0 where
  passed_over : RowEnd
  gives : MemoryRecord → RowEnd
  row_exception : RowEnd

abbrev row_end : Option MemoryRecord → RowEnd
row_end none = row_exception
row_end (some r) = gives r

abbrev with_text : Functions → Fields → Option Json → RowEnd
with_text py row none = passed_over
with_text py row (some v) = row_end (
    record_with py row v (score_of py (not_none (get_field "score" row)))
      (dict_of py (get_field "metadata" row)))

unfoldable record_of : Functions → Json → RowEnd
record_of py (obj row) = with_text py row (text_of_row row)
record_of py _ = passed_over

abbrev add_record : RowEnd → Option (List MemoryRecord) → Option (List MemoryRecord)
add_record row_exception rest = none
add_record passed_over rest = rest
add_record (gives r) none = none
add_record (gives r) (some rs) = some (r ∷ rs)

-- `for row in rows`
unfoldable records_of : Functions → Items → Option (List MemoryRecord)
unfolding record_of
records_of py nil = some []
records_of py (cons row rows) = add_record (record_of py row) (records_of py rows)

-- the rows that the loop goes through: a text and a dict give texts, which are no rows
abbrev iterated : Json → Option Items
iterated (arr rows) = some rows
iterated (text s) = some nil
iterated (obj fs) = some nil
iterated _ = none

abbrev rows_of : Json → Option Items
rows_of (obj payload) = elim (get_field "results" payload) [ none ↦ some nil | some v ↦ iterated v ]
rows_of (arr rows) = some rows
rows_of _ = some nil

-- `_records`
unfoldable records : Functions → Option Json → Option (List MemoryRecord)
unfolding records_of
records py none = none
records py (some response) = elim (rows_of response) [
  | none ↦ none
  | some rows ↦ records_of py rows
]

-- `{"user_id": user_id}`
abbrev filters : String → Json
filters user_id = obj (field "user_id" (text user_id) end)

record Client : Type 0 where
  add : Items → String → Fields → Option Json
  search : String → Json → ℕ → Option Json
  get_all : Json → ℕ → ℕ → Option Json

module _ (py : Functions) (client : Client) where
  unfoldable add : String → Items → Fields → Option (List MemoryRecord)
  unfolding records
  add user_id messages metadata = records py (client.add messages user_id metadata)

  unfoldable search : String → String → ℕ → Option (List MemoryRecord)
  unfolding records
  search user_id query top_k = records py (client.search query (filters user_id) top_k)

  unfoldable list : String → ℕ → ℕ → Option (List MemoryRecord)
  unfolding records
  list user_id page page_size = records py (client.get_all (filters user_id) page page_size)

-- `settings.mem0_enabled` and `settings.mem0_api_key`
record Settings : Type 0 where
  mem0_enabled : Bool
  mem0_api_key : String

abbrev respond : Option (List MemoryRecord) → Response (List MemoryRecord)
respond none = http_error 500 "Internal Server Error"
respond (some rs) = success rs

-- `Depends(get_memory_store)`
abbrev with_store : Settings → Response (List MemoryRecord) → Response (List MemoryRecord)
with_store s r =
    if not s.mem0_enabled || str_eq s.mem0_api_key ""
    then http_error 503 "Mem0 is not configured"
    else r

module _ (s : Settings) (py : Functions) (client : Client) where
  unfoldable add_memory : String → Items → Fields → Response (List MemoryRecord)
  unfolding add
  add_memory user_id nil metadata = with_store s (http_error 422 "messages must not be empty")
  add_memory user_id (cons m ms) metadata =
      with_store s (respond (add py client user_id (cons m ms) metadata))

  -- the bounds of `top_k` are those of the pydantic field, which is read after the dependency
  abbrev search_within : String → String → ℤ → Response (List MemoryRecord)
  search_within user_id query (pos top_k) =
      if leb 1 top_k && leb top_k 50
      then respond (search py client user_id query top_k)
      else http_error 422 "validation error"
  search_within user_id query _ = http_error 422 "validation error"

  unfoldable search_memory : String → String → ℤ → Response (List MemoryRecord)
  unfolding search
  search_memory user_id query top_k = with_store s (search_within user_id query top_k)

  abbrev list_page : String → ℤ → ℤ → Response (List MemoryRecord)
  list_page user_id (pos page) (pos page_size) =
      if leb 1 page && (leb 1 page_size && leb page_size 100)
      then respond (list py client user_id page page_size)
      else http_error 422 "invalid pagination"
  list_page user_id _ _ = http_error 422 "invalid pagination"

  unfoldable list_memory : String → ℤ → ℤ → Response (List MemoryRecord)
  unfolding list
  list_memory user_id page page_size = with_store s (list_page user_id page page_size)
