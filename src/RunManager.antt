-- ===== src/RunManager.antt =====
-- app/runtime/run_manager.py: the execution of a Run. `program` stands for the compiled LangGraph
-- graph: it takes how it is started, the emitter and the database, and ends with both and an
-- outcome. `load` stands for the pydantic parsing of the stored snapshot (or of the YAML file) with
-- `compile_graph` after it.
pub mod Failure
pub mod Attempt
pub mod Create
pub mod Graphs
use fastapi_langgraph_templa.Common.{
  ℕ, String, str_eq, str_append, List, [], ◌∷◌, Option, none, some, Bool, true, false, ◌&&◌, ◌||◌,
  not, if◌then◌else◌, is_none, ltb, filter,
}
use fastapi_langgraph_templa.Common.Table.{find, update_where}
use fastapi_langgraph_templa.State.{
  RunStatus, EventType, ErrorCategory, ApprovalStatus, is_terminal, same_status, is_resolution,
}
use fastapi_langgraph_templa.Json.{Json, Items, Fields, null, text, arr, obj, nil, cons, end, field}
use fastapi_langgraph_templa.Schema.{RunRow, JobRow, ApprovalRow, Db, run_by_id}
use fastapi_langgraph_templa.Events.{RuntimeEvent, has_event}
use fastapi_langgraph_templa.Events.Emitter.{Emitter, new_emitter, emit, drain}
use fastapi_langgraph_templa.Worker.{may_write}
use fastapi_langgraph_templa.Worker.RunOnce.{Outcome}
use Failure.{
  Exc, classify_failure, execution_is_retryable, persisted_attempt_status, or_text, deterministic,
}

-- a column as JSON
abbrev pub json_text : Option String → Json
json_text none = null
json_text (some s) = text s

-- the value that a paused thread is resumed with
pub record ResumeValue : Type 0 where
  pub decision : ApprovalStatus
  pub approval_id : String
  pub action_id : Option String

-- `ainvoke` with the initial state of an input, or `aresume`
pub data Start : Type 0 where
  invoke : String → Start
  resume : ResumeValue → Start

-- How the graph ends: with `data["final_response"]` if there is one, with RunPausedError and its
-- interrupts, or with another exception.
pub data Ending : Type 0 where
  finished : Option String → Ending
  interrupted : Items → Ending
  raised : Exc → Ending

abbrev pub Program : Type 0
Program = Start → Emitter → Db → Emitter × Db × Ending

pub record Execution : Type 0 where
  pub run_id : String
  pub status : RunStatus
  pub output : String
  pub events : List RuntimeEvent
  pub termination_reason : Option String
  pub error : Option String

-- ORDER BY resolved_at DESC LIMIT 1; PostgreSQL puts NULL first
abbrev pub resolved_later : ApprovalRow → Option ApprovalRow → Option ApprovalRow
resolved_later a none = some a
resolved_later a (some b) = elim b.resolved_at [
  | none ↦ some b
  | some t ↦ elim a.resolved_at [ none ↦ some a | some s ↦ if ltb s t then some b else some a ]
]

unfoldable pub last_resolved : (ApprovalRow → Bool) → List ApprovalRow → Option ApprovalRow
last_resolved p [] = none
last_resolved p (a ∷ as') =
    let rest = last_resolved p as' in if p a then resolved_later a rest else rest

abbrev pub resume_value : ApprovalRow → ResumeValue
resume_value a = record { decision = a.status; approval_id = a.id; action_id = a.action_id }

-- `resume_value` and `run_paused_without_approval`, as what the execution is to start with
pub data Plan : Type 0 where
  start_with : Start → Plan
  wait_for_approval : Plan

unfoldable pub plan : String → String → RunRow → Db → Plan
unfolding last_resolved
plan run_id input_text run db =
    if same_status run.status RunStatus.paused
    then elim (last_resolved (λ a. str_eq a.run_id run_id && is_resolution a.status) db.approvals) [
      | none ↦ wait_for_approval
      | some a ↦ start_with (resume (resume_value a))
    ]
    else start_with (invoke input_text)

-- without the checkpointer every execution is a fresh `ainvoke`
abbrev pub effective_start : Bool → String → Start → Start
effective_start true input_text s = s
effective_start false input_text s = invoke input_text

-- UPDATE of the outcome that never touches another terminal status
unfoldable pub update_run :
    String → RunStatus → String → Option String → Option String → ℕ → Db → Db
update_run run_id status output error reason now db = record db {
  runs =
      update_where (may_write run_id status)
        (λ r. record r {
          status = status;
          output_text = some output;
          error = error;
          termination_reason = reason;
          updated_at = now;
        })
        db.runs;
}

-- what the `try` statement leaves: status, output, error, reason, and the event that it emits
pub record Verdict : Type 0 where
  pub status : RunStatus
  pub output : String
  pub error : Option String
  pub reason : String
  pub event : EventType
  pub payload : Json

unfoldable pub verdict : Ending → Verdict
unfolding classify_failure
verdict (finished response) = record {
  status = RunStatus.completed;
  output = or_text response "";
  error = none;
  reason = "supervisor_final";
  event = EventType.run_completed;
  payload = obj (field "termination_reason" (text "supervisor_final") end);
}
verdict (interrupted interrupts) = record {
  status = RunStatus.paused;
  output = "";
  error = none;
  reason = "approval_required";
  event = EventType.approval_required;
  payload = obj (field "interrupts" (arr interrupts) end);
}
verdict (raised exc) =
    let (status, reason, error) = classify_failure exc in
    record {
      status = status;
      output = "";
      error = some error;
      reason = reason;
      event = EventType.run_attempt_failed;
      payload = obj (field "error" (text error) (field "termination_reason" (text reason) end));
    }

-- `run.started` is emitted once for each Run
unfoldable pub emit_started : String → Db → Emitter → Emitter
emit_started run_id db m =
    if has_event run_id "run.started" db
    then m
    else emit EventType.run_started run_id none (obj end) m

-- the arguments that do not change between executions
pub record Manager : Type 0 where
  pub load : RunRow → Option String  -- the error, if the graph does not load or compile
  pub program : RunRow → Program
  pub use_postgres_checkpointer : Bool

abbrev pub paused_execution : String → Execution
paused_execution run_id = record {
  run_id = run_id;
  status = RunStatus.paused;
  output = "";
  events = [];
  termination_reason = some "approval_required";
  error = none;
}

-- an exception of the whole call, or its result
pub data Attempted : Type 0 where
  threw : String → Attempted
  gave : Execution → Attempted

-- from the end of the graph to the end of the call
unfoldable pub conclude : (ℕ → String) → ℕ → String → Emitter → Db → Ending → Db × Attempted
unfolding verdict persisted_attempt_status
conclude ids now run_id m db ending =
    let v = verdict ending in
    let (m', db') = drain ids (emit v.event run_id none v.payload m) db in
    (
      update_run run_id (persisted_attempt_status v.status (some v.reason)) v.output v.error
          (some v.reason) now db',
      gave (record {
        run_id = run_id;
        status = v.status;
        output = v.output;
        events = m'.events;
        termination_reason = some v.reason;
        error = v.error;
      }),
    )

unfoldable pub execute_planned :
    Manager → (ℕ → String) → ℕ → String → String → RunRow → Plan → Db → Db × Attempted
unfolding conclude emit_started
execute_planned mgr ids now run_id input_text run wait_for_approval db =
    (db, gave (paused_execution run_id))
execute_planned mgr ids now run_id input_text run (start_with start) db =
    let (m, db', ending) =
      mgr.program run (effective_start mgr.use_postgres_checkpointer input_text start)
        (emit_started run_id db new_emitter) db in
    conclude ids now run_id m db' ending

abbrev pub execute_loaded :
    Manager → (ℕ → String) → ℕ → String → String → RunRow → Option String → Db → Db × Attempted
execute_loaded mgr ids now run_id input_text run (some error) db = (db, threw error)
execute_loaded mgr ids now run_id input_text run none db =
    execute_planned mgr ids now run_id input_text run (plan run_id input_text run db) db

abbrev pub execute_found :
    Manager → (ℕ → String) → ℕ → String → String → Option RunRow → Db → Db × Attempted
execute_found mgr ids now run_id input_text none db =
    (db, threw (str_append "run not found: " run_id))
execute_found mgr ids now run_id input_text (some run) db =
    execute_loaded mgr ids now run_id input_text run (mgr.load run) db

unfoldable pub execute_run_sync : Manager → (ℕ → String) → ℕ → String → String → Db → Db × Attempted
unfolding plan execute_planned
execute_run_sync mgr ids now run_id input_text db =
    execute_found mgr ids now run_id input_text (run_by_id run_id db.runs) db

-- the end of `execute_job`: what the worker's handler returns or raises
unfoldable pub job_outcome : Attempted → Outcome
unfolding execution_is_retryable deterministic
job_outcome (threw error) = Outcome.raised error
job_outcome (gave e) =
    if same_status e.status RunStatus.failed
    then if execution_is_retryable e.termination_reason
      then Outcome.raised (or_text e.error "run execution failed")
      else Outcome.not_retryable (deterministic e.termination_reason e.error)
    else Outcome.returned e.status

abbrev pub execute_job_found :
    Manager → (ℕ → String) → ℕ → JobRow → Option RunRow → Db → Db × Outcome
execute_job_found mgr ids now job none db =
    (db, Outcome.raised (str_append "run not found: " job.run_id))
execute_job_found mgr ids now job (some run) db =
    if is_terminal run.status
    then (db, Outcome.returned run.status)
    else let (db', attempted) = execute_run_sync mgr ids now job.run_id run.input_text db in
      (db', job_outcome attempted)

unfoldable pub execute_job : Manager → (ℕ → String) → ℕ → JobRow → Db → Db × Outcome
unfolding execute_run_sync job_outcome
execute_job mgr ids now job db = execute_job_found mgr ids now job (run_by_id job.run_id db.runs) db
