-- ===== src/Api/Streaming.antt =====
-- app/api/streaming.py: the stream of a Run's events. The text of a frame is a function of its row,
-- so a frame is the row, or the comment that keeps the connection alive. Each round of the loop
-- sees whether the client has left, the database at the time of `list_after`, and the database at
-- the time of `run_is_terminal_or_paused`. The header is what `int` makes of it.
pub mod Contiguous
use fastapi_langgraph_templa.Common.{
  ℕ, suc, ◌+◌, ◌%◌, ◌==◌, String, str_eq, List, [], ◌∷◌, ◌++◌, Option, none, some, Bool, true,
  false, ◌||◌, if◌then◌else◌, any,
}
use fastapi_langgraph_templa.Common.Int.{ℤ, pos, negsuc}
use fastapi_langgraph_templa.State.{EventType, event_value}
use fastapi_langgraph_templa.Schema.{EventRow, Db}
use fastapi_langgraph_templa.Events.{list_after, run_exists, run_is_terminal_or_paused}
use fastapi_langgraph_templa.Api.Runs.{Response, success, http_error}

pub record Poll : Type 0 where
  pub disconnected : Bool
  pub listed : Db
  pub checked : Db

pub data Frame : Type 0 where
  sse_event : EventRow → Frame
  keep_alive : Frame

-- `event.type in terminal_types`
abbrev pub ends_stream : EventType → Bool
ends_stream type =
    any (str_eq (event_value type)) ("run.completed" ∷ "run.failed" ∷ "run.cancelled" ∷ [])

-- what the generator has yielded, its cursor, and whether it has returned
pub record Stream : Type 0 where
  pub frames : List Frame
  pub cursor : ℤ
  pub returned : Bool

abbrev pub yielding : Frame → Stream → Stream
yielding f s = record s { frames = f ∷ s.frames }

-- the frames after the given ones
abbrev pub after_frames : List Frame → Stream → Stream
after_frames fs s = record s { frames = fs ++ s.frames }

-- `for event in pending`
unfoldable pub deliver : List EventRow → ℤ → Stream
deliver [] cursor = record { frames = []; cursor = cursor; returned = false }
deliver (event ∷ rest) cursor =
    let more = deliver rest (pos event.seq) in
    yielding (sse_event event) (
      if ends_stream event.type
      then record { frames = []; cursor = pos event.seq; returned = true }
      else more)

-- what a connected round does with the pending events: its frames, the cursor after it, whether the
-- generator returns, and `idle_polls`
abbrev pub answer : String → ℤ → ℕ → Poll → List EventRow → Stream × ℕ
answer run_id cursor idle_polls p (event ∷ rest) = (deliver (event ∷ rest) cursor, 0)
answer run_id cursor idle_polls p [] =
    if run_is_terminal_or_paused run_id p.checked
    then (record { frames = []; cursor = cursor; returned = true }, idle_polls)
    else (
      record {
        frames = if suc idle_polls % 15 == 0 then keep_alive ∷ [] else [];
        cursor = cursor;
        returned = false;
      },
      suc idle_polls,
    )

unfoldable pub round : String → ℤ → ℕ → Poll → Stream × ℕ
round run_id cursor idle_polls p =
    if p.disconnected
    then (record { frames = []; cursor = cursor; returned = true }, idle_polls)
    else answer run_id cursor idle_polls p (list_after run_id cursor p.listed)

-- the generator over the rounds until it returns, or until now
unfoldable pub event_generator : String → ℤ → ℕ → List Poll → Stream
unfolding round
event_generator run_id cursor idle_polls [] = record {
  frames = [];
  cursor = cursor;
  returned = false;
}
event_generator run_id cursor idle_polls (p ∷ ps) =
    let (s, idle) = round run_id cursor idle_polls p in
    let rest = event_generator run_id s.cursor idle ps in
    if s.returned then s else after_frames s.frames rest

-- no header, a header that is no number, or a number
pub data LastEventId : Type 0 where
  absent malformed : LastEventId
  given : ℤ → LastEventId

abbrev pub start_cursor : ℤ → LastEventId → ℤ
start_cursor after_seq (given n) = n
start_cursor after_seq _ = after_seq

unfoldable pub stream_run_events : String → ℤ → LastEventId → Db → List Poll → Response Stream
unfolding event_generator
stream_run_events run_id after_seq header db polls =
    if run_exists run_id db
    then success (event_generator run_id (start_cursor after_seq header) 0 polls)
    else http_error 404 "run not found"
