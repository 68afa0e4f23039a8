-- ===== src/Events.antt =====
-- app/services/events.py and app/services/event_repository.py: the emitter of one execution and the
-- durable event log. The ids of uuid4 are arguments and do not collide, so an insert conflicts only
-- on the constraint `uq_run_event_seq` or on the index `uq_run_terminal_event` of alembic/versions
-- (000_bootstrap_runtime.py, 003_terminal_event_cancelled.py).
pub mod Redact
pub mod Sequence
pub mod Ordered
pub mod Appended
pub mod Gapless
pub mod Replay
pub mod Emitter
use fastapi_langgraph_templa.Common.{
  ℕ, zero, suc, ◌+◌, ◌≤◌, String, str_eq, List, [], ◌∷◌, ◌++◌, Option, none, some, Bool, true,
  false, ◌&&◌, ◌||◌, not, ltb, leb, ◌==◌, if◌then◌else◌, is_none, filter, any, max,
}
use fastapi_langgraph_templa.Common.Int.{ℤ, pos, negsuc, below}
use fastapi_langgraph_templa.Common.Table.{find}
use fastapi_langgraph_templa.State.{RunStatus, EventType, event_value}
use fastapi_langgraph_templa.Json.{Json}
use fastapi_langgraph_templa.Schema.{EventRow, RunRow, Db, run_by_id}
use Redact.{redact}

-- RuntimeEvent; `seq` is the emitter's own count, which the repository does not store.
pub record RuntimeEvent : Type 0 where
  pub seq : ℕ
  pub type : EventType
  pub run_id : String
  pub node : Option String
  pub payload : Json

abbrev pub of_run : String → List EventRow → List EventRow
of_run run_id = filter (λ e. str_eq e.run_id run_id)

-- SELECT max(seq) WHERE run_id = ...
abbrev pub bigger : ℕ → Option ℕ → ℕ
bigger m none = m
bigger m (some n) = max m n

unfoldable pub max_seq : String → List EventRow → Option ℕ
max_seq run_id [] = none
max_seq run_id (e ∷ es) =
    let rest = max_seq run_id es in
    if str_eq e.run_id run_id then some (bigger e.seq rest) else rest

-- coalesce(max(seq), -1) + 1
abbrev pub successor : Option ℕ → ℕ
successor none = 0
successor (some m) = m + 1

unfoldable pub next_seq : String → List EventRow → ℕ
unfolding max_seq
next_seq run_id rows = successor (max_seq run_id rows)

-- `type IN ('run.completed', 'run.failed', 'run.cancelled')`
abbrev pub ends_run : EventType → Bool
ends_run EventType.run_completed = true
ends_run EventType.run_failed = true
ends_run EventType.run_cancelled = true
ends_run _ = false

abbrev pub clashes : EventRow → EventRow → Bool
clashes row e =
    str_eq e.run_id row.run_id && ((e.seq == row.seq) || (ends_run e.type && ends_run row.type))

-- INSERT ... ON CONFLICT DO NOTHING
unfoldable pub insert_event : EventRow → List EventRow → List EventRow
insert_event row rows = if any (clashes row) rows then rows else rows ++ row ∷ []

abbrev pub event_row : String → String → ℕ → RuntimeEvent → EventRow
event_row id run_id seq event = record {
  id = id;
  seq = seq;
  run_id = run_id;
  type = event.type;
  node = event.node;
  payload = redact event.payload;
}

-- the loop over `enumerate(pending)`
unfoldable pub insert_all :
    (ℕ → String) → String → ℕ → ℕ → List RuntimeEvent → List EventRow → List EventRow
unfolding insert_event
insert_all ids run_id next offset [] rows = rows
insert_all ids run_id next offset (event ∷ rest) rows =
    insert_all ids run_id next (offset + 1) rest
      (insert_event (event_row (ids offset) run_id (next + offset) event) rows)

-- the rows after the transaction
unfoldable pub log_many : (ℕ → String) → String → List RuntimeEvent → List EventRow → List EventRow
unfolding insert_all next_seq
log_many ids run_id [] rows = rows
log_many ids run_id (event ∷ rest) rows =
    insert_all ids run_id (next_seq run_id rows) 0 (event ∷ rest) rows

unfoldable pub append_many : (ℕ → String) → String → List RuntimeEvent → Db → Db
unfolding log_many
append_many ids run_id events db = record db { events = log_many ids run_id events db.events }

-- ORDER BY seq
unfoldable pub insert_by_seq : EventRow → List EventRow → List EventRow
insert_by_seq e [] = e ∷ []
insert_by_seq e (f ∷ fs) = if leb e.seq f.seq then e ∷ f ∷ fs else f ∷ insert_by_seq e fs

unfoldable pub sort_by_seq : List EventRow → List EventRow
unfolding insert_by_seq
sort_by_seq [] = []
sort_by_seq (e ∷ es) = insert_by_seq e (sort_by_seq es)

unfoldable pub list_after : String → ℤ → Db → List EventRow
unfolding sort_by_seq
list_after run_id after_seq db =
    sort_by_seq (filter (λ e. str_eq e.run_id run_id && below after_seq e.seq) db.events)

unfoldable pub has_event : String → String → Db → Bool
has_event run_id type_value db = not (
    is_none
      (find (λ e. str_eq e.run_id run_id && str_eq (event_value e.type) type_value) db.events))

unfoldable pub run_exists : String → Db → Bool
run_exists run_id db = not (is_none (run_by_id run_id db.runs))

abbrev pub settled : Option RunRow → Bool
settled none = false
settled (some r) = elim r.status [ RunStatus.queued ↦ false | RunStatus.running ↦ false | _ ↦ true ]

unfoldable pub run_is_terminal_or_paused : String → Db → Bool
run_is_terminal_or_paused run_id db = settled (run_by_id run_id db.runs)
