-- ===== src/Lifecycle.antt =====
-- The transactions of the whole program that write to Runs, Jobs, events and approvals, as steps
-- between databases. Workers, the API and the executions interleave them in any order.
pub mod Runs
pub mod Jobs
use fastapi_langgraph_templa.Common.{ℕ, String, List, [], ◌∷◌, ◌++◌, Option, Bool}
use fastapi_langgraph_templa.State.{RunStatus, ApprovalStatus}
use fastapi_langgraph_templa.Json.{Json, Fields}
use fastapi_langgraph_templa.Schema.{JobRow, RunRow, Db}
use fastapi_langgraph_templa.Events.{RuntimeEvent, append_many}
use fastapi_langgraph_templa.Worker.{
  WorkerConfig, new_job, enqueue, claim_next, complete, fail, fail_without_retry, heartbeat,
  set_run_status,
}
use fastapi_langgraph_templa.Approvals.{
  PendingAction, Resolver, create_pending, resolve_and_enqueue,
}
use fastapi_langgraph_templa.RunManager.{update_run}
use fastapi_langgraph_templa.RunManager.Create.{insert_run}
use fastapi_langgraph_templa.Api.Runs.{cancel_status}

pub data Step : Db → Db → Type 0 where
  inserts_run :
      (session_id job_id : String) (run : RunRow) (trace : Fields) (now : ℕ) (db : Db)
      → Step db (insert_run session_id run (new_job job_id run.id trace now) db)
  enqueues :
      (job_id run_id : String) (trace : Fields) (now : ℕ) (db : Db)
      → Step db (enqueue job_id run_id trace now db).0
  claims :
      (w : WorkerConfig) (now : ℕ) (locked : JobRow → Bool) (db : Db)
      → Step db (claim_next w now locked db).0
  completes :
      (w : WorkerConfig) (now : ℕ) (job_id : String) (db : Db) → Step db (complete w now job_id db)
  fails :
      (w : WorkerConfig) (now : ℕ) (job_id error : String) (db : Db)
      → Step db (fail w now job_id error db)
  gives_up :
      (w : WorkerConfig) (now : ℕ) (job_id error : String) (db : Db)
      → Step db (fail_without_retry w now job_id error db)
  beats :
      (w : WorkerConfig) (now : ℕ) (job_id : String) (db : Db)
      → Step db (heartbeat w now job_id db).0
  sets_status :
      (run_id : String) (status : RunStatus) (error : Option String) (now : ℕ) (db : Db)
      → Step db (set_run_status run_id status error now db)
  updates_run :
      (run_id : String) (status : RunStatus) (output : String) (error reason : Option String)
      (now : ℕ) (db : Db)
      → Step db (update_run run_id status output error reason now db)
  appends :
      (ids : ℕ → String) (run_id : String) (events : List RuntimeEvent) (db : Db)
      → Step db (append_many ids run_id events db)
  asks_approval :
      (canonical_hash : Json → String) (id : String) (now : ℕ) (action : PendingAction) (db : Db)
      → Step db (create_pending canonical_hash id now action db).0
  resolves :
      (job_id : String) (now : ℕ) (approval_id : String) (status : ApprovalStatus) (by : Resolver)
      (db : Db)
      → Step db (resolve_and_enqueue job_id now approval_id status by db).0
  cancels : (now : ℕ) (run_id : String) (db : Db) → Step db (cancel_status now run_id db).0

-- any number of steps
pub data Steps (s : Db) : Db → Type 0 where
  here : Steps s s
  next : {t u : Db} → Steps s t → Step t u → Steps s u
