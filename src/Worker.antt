-- ===== src/Worker.antt =====
-- app/runtime/worker.py: `WorkerQueue`, the job queue over the `jobs` and `runs` tables. An
-- operation is one transaction: a function from the database to the database. The clock, the ids
-- of uuid4 and the trace context that OpenTelemetry injects are arguments; metrics, spans and log
-- lines are left out.
pub mod RunOnce
pub mod Claim
pub mod Exclusive
pub mod Leases
pub mod Attempts
pub mod Settled
use fastapi_langgraph_templa.Common.{
  ℕ, ◌+◌, String, str_eq, List, [], ◌∷◌, ◌++◌, Option, none, some, Bool, true, false, ◌&&◌, ◌||◌,
  not, ltb, leb, if◌then◌else◌, or_number, is_none,
}
use fastapi_langgraph_templa.Common.Table.{find, update_where}
use fastapi_langgraph_templa.State.{RunStatus, is_terminal, same_status}
use fastapi_langgraph_templa.Json.{Fields}
use fastapi_langgraph_templa.Schema.{JobStatus, JobRow, RunRow, Db, run_by_id, job_by_id}

-- The arguments of the constructor, the handler left out.
pub record WorkerConfig : Type 0 where
  pub worker_id : String
  pub lease_seconds : ℕ
  pub retry_delay_seconds : ℕ

-- the job that `enqueue`, `create_run` and `resolve_and_enqueue` insert
abbrev pub new_job : String → String → Fields → ℕ → JobRow
new_job id run_id trace_context now = record {
  id = id;
  run_id = run_id;
  status = JobStatus.queued;
  lease_owner = none;
  lease_expires_at = none;
  heartbeat_at = none;
  attempt_count = 0;
  max_attempts = 3;
  next_attempt_at = none;
  claimed_at = none;
  finished_at = none;
  error = none;
  trace_context = trace_context;
  created_at = now;
}

unfoldable pub enqueue : String → String → Fields → ℕ → Db → Db × JobRow
enqueue job_id run_id trace_context now db =
    let job = new_job job_id run_id trace_context now in
    (record db { jobs = db.jobs ++ job ∷ [] }, job)

-- SQL comparisons with a NULL are not true
abbrev pub null_or_le : Option ℕ → ℕ → Bool
null_or_le none now = true
null_or_le (some t) now = leb t now

abbrev pub lt_if_set : Option ℕ → ℕ → Bool
lt_if_set none now = false
lt_if_set (some t) now = ltb t now

-- the `or_` of the WHERE clause of `claim_next`
abbrev pub is_due : ℕ → JobStatus → JobRow → Bool
is_due now JobStatus.queued j = true
is_due now JobStatus.retry_wait j = null_or_le j.next_attempt_at now
is_due now JobStatus.running j = lt_if_set j.lease_expires_at now
is_due now _ j = false

-- the join with the run, and the condition on its status
abbrev pub open_run : Option RunRow → Bool
open_run none = false
open_run (some r) = not (is_terminal r.status)

unfoldable pub is_claimable : ℕ → List RunRow → JobRow → Bool
is_claimable now runs j = open_run (run_by_id j.run_id runs) && is_due now j.status j

-- ORDER BY created_at LIMIT 1 (the first in table order among equal times)
abbrev pub earlier : JobRow → Option JobRow → Option JobRow
earlier j none = some j
earlier j (some k) = if ltb k.created_at j.created_at then some k else some j

unfoldable pub first_by_created : (JobRow → Bool) → List JobRow → Option JobRow
first_by_created p [] = none
first_by_created p (j ∷ js) =
    let rest = first_by_created p js in if p j then earlier j rest else rest

abbrev pub claimed : WorkerConfig → ℕ → JobRow → JobRow
claimed w now job = record job {
  status = JobStatus.running;
  lease_owner = some w.worker_id;
  claimed_at = some now;
  heartbeat_at = some now;
  lease_expires_at = some (now + w.lease_seconds);
  attempt_count = job.attempt_count + 1;
  next_attempt_at = none;
}

abbrev pub claim_found : WorkerConfig → ℕ → Option JobRow → Db → Db × Option JobRow
claim_found w now none db = (db, none)
claim_found w now (some job) db = (
  record db { jobs = update_where (λ j. str_eq j.id job.id) (claimed w now) db.jobs },
  some (claimed w now job),
)

-- `locked` holds of the rows that other transactions have locked: SKIP LOCKED passes over them.
unfoldable pub claim_next : WorkerConfig → ℕ → (JobRow → Bool) → Db → Db × Option JobRow
unfolding is_claimable first_by_created
claim_next w now locked db =
    claim_found w now (first_by_created (λ j. is_claimable now db.runs j && not (locked j)) db.jobs)
      db

-- `JobModel.lease_owner == self.worker_id`
abbrev pub owned_by : Option String → String → Bool
owned_by none w = false
owned_by (some o) w = str_eq o w

abbrev pub owns : WorkerConfig → String → JobRow → Bool
owns w job_id j = str_eq j.id job_id && owned_by j.lease_owner w.worker_id

abbrev pub finished : JobStatus → Option String → ℕ → JobRow → JobRow
finished status error now j = record j {
  status = status;
  error = error;
  finished_at = some now;
  lease_owner = none;
  lease_expires_at = none;
}

unfoldable pub complete : WorkerConfig → ℕ → String → Db → Db
complete w now job_id db = record db {
  jobs = update_where (owns w job_id) (λ j. finished JobStatus.completed j.error now j) db.jobs;
}

-- the body of `fail`, on the row that it selected
abbrev pub failed_attempt : WorkerConfig → ℕ → String → JobRow → JobRow
failed_attempt w now error job =
    let released = record job { error = some error; lease_owner = none; lease_expires_at = none } in
    if ltb job.attempt_count (or_number job.max_attempts 3)
    then record released {
      status = JobStatus.retry_wait;
      next_attempt_at = some (now + w.retry_delay_seconds);
    }
    else record released { status = JobStatus.failed; finished_at = some now }

-- The SELECT names a primary key, so the row it finds is the row it updates.
unfoldable pub fail : WorkerConfig → ℕ → String → String → Db → Db
fail w now job_id error db = record db {
  jobs = update_where (owns w job_id) (failed_attempt w now error) db.jobs;
}

unfoldable pub fail_without_retry : WorkerConfig → ℕ → String → String → Db → Db
fail_without_retry w now job_id error db = record db {
  jobs = update_where (owns w job_id) (finished JobStatus.failed (some error) now) db.jobs;
}

abbrev pub is_running : JobStatus → Bool
is_running JobStatus.running = true
is_running _ = false

abbrev pub beats : WorkerConfig → String → JobRow → Bool
beats w job_id j = str_eq j.id job_id && (is_running j.status && owned_by j.lease_owner w.worker_id)

-- `bool(result.rowcount)` is whether some row met the condition.
unfoldable pub heartbeat : WorkerConfig → ℕ → String → Db → Db × Bool
heartbeat w now job_id db = (
  record db {
    jobs =
        update_where (beats w job_id)
          (λ j. record j {
            heartbeat_at = some now;
            lease_expires_at = some (now + w.lease_seconds);
          })
          db.jobs;
  },
  not (is_none (find (beats w job_id) db.jobs)),
)

-- `status NOT IN terminal OR status = new`
abbrev pub may_write : String → RunStatus → RunRow → Bool
may_write run_id status r =
    str_eq r.id run_id && (not (is_terminal r.status) || same_status r.status status)

unfoldable pub set_run_status : String → RunStatus → Option String → ℕ → Db → Db
set_run_status run_id status error now db = record db {
  runs =
      update_where (may_write run_id status)
        (λ r. record r { status = status; error = error; updated_at = now }) db.runs;
}
