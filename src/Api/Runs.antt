-- ===== src/Api/Runs.antt =====
-- app/api/runs.py: `cancel_run`, `get_run`, `list_runs` and `get_run_events`. A response is its
-- status code with what it shows; `execute_run` only refuses.
use fastapi_langgraph_templa.Common.{
  ℕ, String, List, [], ◌∷◌, Option, none, some, leb, if◌then◌else◌, max, min, take, str_eq,
}
use fastapi_langgraph_templa.Common.Int.{ℤ, pos, negsuc}
use fastapi_langgraph_templa.Common.Table.{update_where}
use fastapi_langgraph_templa.State.{RunStatus, EventType, is_terminal}
use fastapi_langgraph_templa.Json.{text, obj, end, field}
use fastapi_langgraph_templa.Schema.{RunRow, EventRow, Db, run_by_id}
use fastapi_langgraph_templa.Events.{append_many, list_after}
use fastapi_langgraph_templa.Worker.RunOnce.{event}

pub data Response {ℓ} (A : Type ℓ) : Type ℓ where
  success : A → Response A
  http_error : ℕ → String → Response A

abbrev pub cancel : ℕ → RunRow → RunRow
cancel now r = record r { status = RunStatus.cancelled; updated_at = now }

abbrev pub cancelled_event : (ℕ → String) → String → Db → Db
cancelled_event ids run_id =
    append_many ids run_id
      (event EventType.run_cancelled run_id (obj (field "reason" (text "user_cancelled") end)) ∷ [])

abbrev pub cancel_found : ℕ → String → Option RunRow → Db → Db × Response RunRow
cancel_found now run_id none db = (db, http_error 404 "run not found")
cancel_found now run_id (some run) db =
    if is_terminal run.status then (db, http_error 409 "terminal run is immutable") else (
      record db { runs = update_where (λ r. str_eq r.id run_id) (cancel now) db.runs },
      success (cancel now run),
    )

-- the first transaction of `cancel_run`, which commits the status
unfoldable pub cancel_status : ℕ → String → Db → Db × Response RunRow
cancel_status now run_id db = cancel_found now run_id (run_by_id run_id db.runs) db

abbrev pub announce : (ℕ → String) → String → Response RunRow → Db → Db
announce ids run_id (success run) db = cancelled_event ids run_id db
announce ids run_id (http_error _ _) db = db

-- The two transactions; `between` is what others commit between them.
unfoldable pub cancel_run : (ℕ → String) → ℕ → String → (Db → Db) → Db → Db × Response RunRow
unfolding cancel_status
cancel_run ids now run_id between db =
    let (db', response) = cancel_status now run_id db in
    (announce ids run_id response (between db'), response)

unfoldable pub get_run : String → Db → Response RunRow
get_run run_id db = elim (run_by_id run_id db.runs) [
  | none ↦ http_error 404 "run not found"
  | some run ↦ success run
]

unfoldable pub execute_run : String → Db → Response RunRow
execute_run run_id db = http_error 409 "runs are executed asynchronously by the PostgreSQL worker"

-- max(1, min(limit, 200))
unfoldable pub bounded_limit : ℤ → ℕ
bounded_limit (pos limit) = max 1 (min limit 200)
bounded_limit (negsuc _) = 1

-- ORDER BY created_at DESC
unfoldable pub insert_newest : RunRow → List RunRow → List RunRow
insert_newest r [] = r ∷ []
insert_newest r (s ∷ ss) =
    if leb s.created_at r.created_at then r ∷ s ∷ ss else s ∷ insert_newest r ss

unfoldable pub newest_first : List RunRow → List RunRow
unfolding insert_newest
newest_first [] = []
newest_first (r ∷ rs) = insert_newest r (newest_first rs)

unfoldable pub list_runs : ℤ → Db → List RunRow
unfolding newest_first bounded_limit
list_runs limit db = take (bounded_limit limit) (newest_first db.runs)

-- `events[-1].seq if events else after_seq`
abbrev pub last_seq : ℤ → List EventRow → ℤ
last_seq after_seq [] = after_seq
last_seq after_seq (e ∷ es) = last_seq (pos e.seq) es

unfoldable pub get_run_events : String → ℤ → Db → List EventRow × ℤ
get_run_events run_id after_seq db =
    let events = list_after run_id after_seq db in (events, last_seq after_seq events)
