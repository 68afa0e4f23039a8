-- ===== src/Worker/RunOnce.antt =====
-- `run_once`, `_heartbeat_loop` and `run_forever` of app/runtime/worker.py. The handler runs as a
-- task beside the heartbeat while other workers and the API use the database, so it is an argument
-- that takes the database before it to the database after all of that, with its outcome. An error
-- of the database itself is not modelled. `clock` gives the readings of the clock in order, `ids`
-- the uuids of inserted events.
use fastapi_langgraph_templa.Common.{
  ℕ, ◌+◌, ◌-◌, ◌*◌, ◌^◌, String, List, [], ◌∷◌, Option, none, some, Bool, true, false, leb,
  if◌then◌else◌, or_number, min,
}
use fastapi_langgraph_templa.State.{RunStatus, EventType}
use fastapi_langgraph_templa.Json.{Json, num, text, obj, end, field}
use fastapi_langgraph_templa.Schema.{JobRow, Db}
use fastapi_langgraph_templa.Events.{RuntimeEvent, append_many}
use fastapi_langgraph_templa.Worker.{
  WorkerConfig, claim_next, complete, fail, fail_without_retry, heartbeat, set_run_status,
}

-- How the handler task ended: with a RunStatus, with another value, cancelled by the heartbeat loop
-- after the lease was lost, by JobNotRetryable, by another exception, or by the shutdown of the
-- process (the only cancellation that leaves `run_once`).
pub data Outcome : Type 0 where
  returned : RunStatus → Outcome
  returned_other : Outcome
  lease_lost : Outcome
  not_retryable : String → Outcome
  raised : String → Outcome
  shutdown : Outcome

pub data Processed : Type 0 where
  idle processed stopped : Processed

abbrev pub Handler : Type 0
Handler = JobRow → Db → Db × Outcome

abbrev pub event : EventType → String → Json → RuntimeEvent
event type run_id payload = record {
  seq = 0;
  type = type;
  run_id = run_id;
  node = none;
  payload = payload;
}

unfoldable pub emit_run_failed : (ℕ → String) → String → String → ℕ → Db → Db
emit_run_failed ids run_id error attempts = append_many ids run_id (
    event EventType.run_failed run_id
      (obj (field "error" (text error) (field "attempts" (num attempts) end)))
    ∷ [])

unfoldable pub emit_retrying : WorkerConfig → (ℕ → String) → JobRow → Db → Db
emit_retrying w ids job = append_many ids job.run_id (
    event EventType.llm_retrying job.run_id (
      obj (
        field "scope" (text "worker_job") (
          field "attempt" (num job.attempt_count)
            (field "retry_in_seconds" (num w.retry_delay_seconds) end))))
    ∷ [])

abbrev pub attempts_exhausted : JobRow → Bool
attempts_exhausted job = leb (or_number job.max_attempts 3) job.attempt_count

-- promote the Run only where the handler saw it completed, or said nothing
abbrev pub promoted : RunStatus → String → ℕ → Db → Db
promoted RunStatus.completed run_id now db = set_run_status run_id RunStatus.completed none now db
promoted _ run_id now db = db

-- what follows the handler, by its outcome
unfoldable pub settle :
    WorkerConfig → (ℕ → ℕ) → (ℕ → String) → JobRow → Outcome → Db → Db × Processed
unfolding emit_run_failed emit_retrying
settle w clock ids job (returned status) db =
    (promoted status job.run_id (clock 3) (complete w (clock 2) job.id db), processed)
settle w clock ids job returned_other db = (
  set_run_status job.run_id RunStatus.completed none (clock 3) (complete w (clock 2) job.id db),
  processed,
)
settle w clock ids job lease_lost db = (db, processed)
settle w clock ids job (not_retryable error) db = (
  emit_run_failed ids job.run_id error job.attempt_count (
      set_run_status job.run_id RunStatus.failed (some error) (clock 3)
        (fail_without_retry w (clock 2) job.id error db)),
  processed,
)
settle w clock ids job (raised error) db =
    let exhausted = attempts_exhausted job in
    let db' =
      set_run_status job.run_id (if exhausted then RunStatus.failed else RunStatus.queued)
        (some error) (clock 3) (fail w (clock 2) job.id error db) in
    (
      if exhausted
          then emit_run_failed ids job.run_id error job.attempt_count db'
          else emit_retrying w ids job db',
      processed,
    )
settle w clock ids job shutdown db = (db, stopped)

-- from the claimed job to the end of the handler
unfoldable pub start_handler : (ℕ → ℕ) → Handler → JobRow → Db → Db × Outcome
start_handler clock handler job db =
    handler job (set_run_status job.run_id RunStatus.running none (clock 1) db)

abbrev pub process :
    WorkerConfig → (ℕ → ℕ) → (ℕ → String) → Handler → Option JobRow → Db → Db × Processed
process w clock ids handler none db = (db, idle)
process w clock ids handler (some job) db =
    let (db', outcome) = start_handler clock handler job db in settle w clock ids job outcome db'

unfoldable pub run_once :
    WorkerConfig → (ℕ → ℕ) → (ℕ → String) → (JobRow → Bool) → Handler → Db → Db × Processed
unfolding start_handler settle
run_once w clock ids locked handler db =
    let (db', job) = claim_next w (clock 0) locked db in process w clock ids handler job db'

-- One wait of the heartbeat loop: the handler stopped it, or it timed out at the given time.
pub data Wait : Type 0 where
  stopped_waiting : Wait
  timed_out : ℕ → Wait

-- The result says whether the lease was lost, upon which the handler is cancelled.
unfoldable pub heartbeat_loop : WorkerConfig → String → List Wait → Db → Db × Bool
heartbeat_loop w job_id [] db = (db, false)
heartbeat_loop w job_id (stopped_waiting ∷ waits) db = (db, false)
heartbeat_loop w job_id (timed_out now ∷ waits) db =
    let (db', alive) = heartbeat w now job_id db in
    let rest = heartbeat_loop w job_id waits db' in if alive then rest else (db', true)

-- How one round of `run_forever` ends, and how long it sleeps after it.
pub data Round : Type 0 where
  worked idled errored cancelled : Round

unfoldable pub backoff : WorkerConfig → ℕ → ℕ
backoff w consecutive_failures =
    min (w.retry_delay_seconds * 2 ^ min (consecutive_failures - 1) 5) 60

-- The sleeps of the loop for a sequence of rounds, from a count of consecutive failures; a
-- cancellation ends the loop.
unfoldable pub run_forever : WorkerConfig → ℕ → ℕ → List Round → List ℕ
unfolding backoff
run_forever w poll_interval failures [] = []
run_forever w poll_interval failures (cancelled ∷ rounds) = []
run_forever w poll_interval failures (errored ∷ rounds) =
    backoff w (failures + 1) ∷ run_forever w poll_interval (failures + 1) rounds
run_forever w poll_interval failures (worked ∷ rounds) = run_forever w poll_interval 0 rounds
run_forever w poll_interval failures (idled ∷ rounds) =
    poll_interval ∷ run_forever w poll_interval 0 rounds
