-- ===== src/RunManager/Attempt.antt =====
-- How an execution starts and how it ends, on each path of the code.
use fastapi_langgraph_templa.Common.{
  ℕ, String, str_eq, ◌≡◌, refl, ◌∙◌, List, [], ◌∷◌, none, some, Bool, true, false, arith, ◌&&◌,
  Bool-cases, Option-cases, inl, inr, ◌⊎◌,
}
use fastapi_langgraph_templa.Common.Table.{find_sound}
use fastapi_langgraph_templa.State.{
  RunStatus, is_terminal, queued, running, paused, failed, cancelled, is_resolution,
}
use fastapi_langgraph_templa.Schema.{RunRow, JobRow, ApprovalRow, Db, run_by_id}
use fastapi_langgraph_templa.Worker.{set_run_status, may_write}
use fastapi_langgraph_templa.Worker.RunOnce.{Outcome, start_handler}
use fastapi_langgraph_templa.Lifecycle.Runs.{run_by_id-update_where}
use fastapi_langgraph_templa.Events.{RuntimeEvent}
use fastapi_langgraph_templa.RunManager.Failure.{
  Exc, run_cancelled_error, graph_recursion_error, model_call_error, other_error,
  is_rate_or_timeout, persisted_attempt_status, or_text, deterministic,
}
use fastapi_langgraph_templa.RunManager.{
  Manager, invoke, resume, resume_value, start_with, wait_for_approval, plan, last_resolved, gave,
  Execution, verdict, Ending, raised, execute_planned, execute_run_sync, execute_job, job_outcome,
}

-- the row of a Run after the worker has set it to `running`
abbrev pub started : ℕ → RunRow → RunRow
started now r = record r { status = running; error = none; updated_at = now }

started_found :
    (run_id : String) (now : ℕ) (db : Db) (run : RunRow)
    → run_by_id run_id db.runs ≡ some run
    → is_terminal run.status ≡ false
    → run_by_id run_id (set_run_status run_id running none now db).runs ≡ some (started now run)
unfolding set_run_status
started_found run_id now db run found live =
    let own = find_sound (λ a. str_eq a.id run_id) db.runs run found in
    run_by_id-update_where run_id (may_write run_id running) (started now) (λ a. refl) db.runs run
      found
    ∙ rw (own, live)

module _ (mgr : Manager) (ids : ℕ → String) (now : ℕ) where
  execute_job-invokes :
      (job : JobRow) (run : RunRow) (db : Db)
      → run_by_id job.run_id db.runs ≡ some run
      → run.status ≡ running
      → mgr.load run ≡ none
      → execute_job mgr ids now job db ≡ (
          let (db', attempted) =
            execute_planned mgr ids now job.run_id run.input_text run
              (start_with (invoke run.input_text))
              db in
          (db', job_outcome attempted))
  unfolding execute_job execute_run_sync plan
  execute_job-invokes job run db found is loads = rw (found, is, found, loads, is) refl

-- When a worker runs a claimed job whose Run is not terminal and whose graph loads, the execution
-- always starts by a fresh `ainvoke` with the input text: the worker has set the Run to `running`
-- before, so the branch of `execute_run_sync` that resumes a paused Run from its resolved approval
-- is never taken, whatever the status of the Run was and whatever approvals are resolved.
pub worker_never_resumes :
    (mgr : Manager) (ids : ℕ → String) (clock : ℕ → ℕ) (now : ℕ) (job : JobRow) (run : RunRow)
    (db : Db)
    → run_by_id job.run_id db.runs ≡ some run
    → is_terminal run.status ≡ false
    → mgr.load (started (clock 1) run) ≡ none
    → start_handler clock (execute_job mgr ids now) job db ≡ (
        let (db', attempted) =
          execute_planned mgr ids now job.run_id run.input_text
            (started (clock 1) run)
            (start_with (invoke run.input_text))
            (set_run_status job.run_id running none (clock 1) db) in
        (db', job_outcome attempted))
unfolding start_handler
worker_never_resumes mgr ids clock now job run db found live loads =
    execute_job-invokes mgr ids now job (started (clock 1) run)
      (set_run_status job.run_id running none (clock 1) db)
      (started_found job.run_id (clock 1) db run found live) refl loads

-- `plan` on a paused Run resumes from the resolved approval, or waits
abbrev pub resolved_for : String → ApprovalRow → Bool
resolved_for run_id a = str_eq a.run_id run_id && is_resolution a.status

last_resolved_sound :
    (p : ApprovalRow → Bool) (rows : List ApprovalRow) (a : ApprovalRow)
    → last_resolved p rows ≡ some a
    → p a ≡ true
unfolding last_resolved
last_resolved_sound p [] a h = cc
last_resolved_sound p (x ∷ xs) a h = ground (arith, last_resolved_sound p xs a)

-- A paused Run that is executed directly (not by the worker) either waits, or resumes with the
-- decision of a resolved approval of this Run.
plan_paused :
    (run_id input : String) (run : RunRow) (db : Db)
    → run.status ≡ paused
    → (plan run_id input run db ≡ wait_for_approval)
      ⊎ ((a : ApprovalRow) × (plan run_id input run db ≡ start_with (resume (resume_value a)))
          × (resolved_for run_id a ≡ true))
unfolding plan
plan_paused run_id input run db is =
    elim (Option-cases (last_resolved (resolved_for run_id) db.approvals)) [
      | inl e ↦ inl (rw (is, e))
      | inr (a, e) ↦ inr (a, rw (is, e), last_resolved_sound (resolved_for run_id) db.approvals a e)
    ]

-- the exceptions after which another attempt may succeed
abbrev pub Transient : Exc → Type 0
Transient (run_cancelled_error m) = ⊥
Transient (graph_recursion_error m) = ⊥
Transient (model_call_error category recoverable m) =
    (is_rate_or_timeout category ≡ true) × (recoverable ≡ true)
Transient (other_error m) = Unit

abbrev pub persisted : Ending → RunStatus
persisted ending = persisted_attempt_status (verdict ending).status (some (verdict ending).reason)

abbrev pub execution_of : String → List RuntimeEvent → Ending → Execution
execution_of run_id events ending =
    let v = verdict ending in
    record {
      run_id = run_id;
      status = v.status;
      output = v.output;
      events = events;
      termination_reason = some v.reason;
      error = v.error;
    }

-- What one attempt writes to the Run and what the worker's handler does with it agree on every
-- exception: after a transient one the Run is queued again and the handler raises, so the job is
-- retried; after a cancellation both say cancelled; after any other the Run has failed and the
-- handler raises JobNotRetryable.
pub failure_consistent :
    (exc : Exc) (run_id : String) (events : List RuntimeEvent)
    → (Transient exc
        × (persisted (raised exc) ≡ queued)
        × ((m : String) × (job_outcome (gave (execution_of run_id events (raised exc)))
              ≡ Outcome.raised m)))
      ⊎ ((persisted (raised exc) ≡ cancelled)
          × (job_outcome (gave (execution_of run_id events (raised exc)))
              ≡ Outcome.returned cancelled))
      ⊎ (¬ Transient exc
          × (persisted (raised exc) ≡ failed)
          × ((m : String) × (job_outcome (gave (execution_of run_id events (raised exc)))
                ≡ Outcome.not_retryable m)))
unfolding verdict persisted_attempt_status job_outcome
failure_consistent (run_cancelled_error m) run_id events = inr (inl (refl, refl))
failure_consistent (graph_recursion_error m) run_id events = inr (inr (λ t. t, refl, (_, refl)))
failure_consistent (other_error m) run_id events = inl (tt, refl, (_, refl))
failure_consistent (model_call_error c true m) run_id events =
    elim (Bool-cases (is_rate_or_timeout c)) [
      | inl e ↦ inl ((e, refl), rw e refl, (or_text (some m) "run execution failed", rw e refl))
      | inr e ↦ inr (
          inr
            (λ t. cc (t.0, e), rw e refl, (deterministic (some "model_error") (some m), rw e refl)))
    ]
failure_consistent (model_call_error c false m) run_id events =
    elim (Bool-cases (is_rate_or_timeout c)) [
      | inl e ↦ inr (
          inr (
            λ t. cc (t.1),
            rw e refl,
            (deterministic (some "model_error:fatal") (some m), rw e refl),
          ))
      | inr e ↦ inr (
          inr
            (λ t. cc (t.0, e), rw e refl, (deterministic (some "model_error") (some m), rw e refl)))
    ]
