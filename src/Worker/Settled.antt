-- ===== src/Worker/Settled.antt =====
-- The job and its Run after a failure of the handler.
use fastapi_langgraph_templa.Common.{if◌then◌else◌}
use fastapi_langgraph_templa.Common.{
  ℕ, String, str_eq, eq_refl, ◌≡◌, refl, ap, ◌∙◌, List, Option, none, some, true, false, arith, ltb,
  or_number, Bool-cases, inl, inr,
}
use mathlib.Core.Option
use fastapi_langgraph_templa.Common.Table.{touched, find-update_where, find_sound}
use fastapi_langgraph_templa.State.{RunStatus, is_terminal, queued, failed}
use fastapi_langgraph_templa.Schema.{JobRow, RunRow, JobStatus, Db, run_by_id, job_by_id}
use fastapi_langgraph_templa.Events.{RuntimeEvent, append_many}
use fastapi_langgraph_templa.Worker.{
  WorkerConfig, owns, owned_by, fail, failed_attempt, set_run_status, may_write,
}
use fastapi_langgraph_templa.Worker.RunOnce.{
  raised, settle, attempts_exhausted, emit_run_failed, emit_retrying,
}
use fastapi_langgraph_templa.Lifecycle.Runs.{run_by_id-update_where, runs-append_many}
use fastapi_langgraph_templa.Lifecycle.Jobs.{jobs-append_many}

failed_attempt-id :
    (w : WorkerConfig) (now : ℕ) (error : String) (j : JobRow)
    → (failed_attempt w now error j).id ≡ j.id
failed_attempt-id w now error j =
    elim (Bool-cases (ltb j.attempt_count (or_number j.max_attempts 3))) [
      | inl again ↦ rw again refl
      | inr over ↦ rw over refl
    ]

-- a row that the worker owns, found after `fail`
failed_job :
    (w : WorkerConfig) (now : ℕ) (error : String) (db : Db) (job : JobRow)
    → job_by_id job.id db.jobs ≡ some job
    → owned_by job.lease_owner w.worker_id ≡ true
    → job_by_id job.id (fail w now job.id error db).jobs ≡ some (failed_attempt w now error job)
unfolding fail
failed_job w now error db job found mine =
    find-update_where (λ j. str_eq j.id job.id) (owns w job.id) (failed_attempt w now error) db.jobs
      (λ j. ap (λ i. str_eq i job.id) (failed_attempt-id w now error j))
    ∙ ap (Option.map (touched (owns w job.id) (failed_attempt w now error))) found
    ∙ rw (eq_refl job.id, mine) refl

-- a live Run, found after its status was set
written_run :
    (run_id : String) (status : RunStatus) (error : Option String) (now : ℕ) (db : Db)
    (run : RunRow)
    → run_by_id run_id db.runs ≡ some run
    → is_terminal run.status ≡ false
    → run_by_id run_id (set_run_status run_id status error now db).runs
      ≡ some (record run { status = status; error = error; updated_at = now })
unfolding set_run_status
written_run run_id status error now db run found live =
    run_by_id-update_where run_id (may_write run_id status)
      (λ r. record r { status = status; error = error; updated_at = now }) (λ a. refl) db.runs run
      found
    ∙ rw (find_sound (λ a. str_eq a.id run_id) db.runs run found, live) refl

-- the job and its Run are there, with these statuses, and nobody owns the job
abbrev pub Ends : JobRow → JobStatus → RunStatus → Db → Type 0
Ends job job_status run_status db =
    ((j : JobRow) × (job_by_id job.id db.jobs ≡ some j)
      × (j.status ≡ job_status)
      × (j.lease_owner ≡ none))
    × ((r : RunRow) × (run_by_id job.run_id db.runs ≡ some r) × (r.status ≡ run_status))

module _ (w : WorkerConfig) (clock : ℕ → ℕ) (ids : ℕ → String) (error : String) (db : Db)
    (job : JobRow) (run : RunRow) (job_found : job_by_id job.id db.jobs ≡ some job)
    (mine : owned_by job.lease_owner w.worker_id ≡ true)
    (run_found : run_by_id job.run_id db.runs ≡ some run)
    (live : is_terminal run.status ≡ false) where
  -- the database after `fail` and `_set_run_status`, with the row of the job
  Ends-in :
      (status : RunStatus) (job_status : JobStatus)
      → (failed_attempt w (clock 2) error job).status ≡ job_status
      → (failed_attempt w (clock 2) error job).lease_owner ≡ none
      → Ends job job_status status (
          set_run_status job.run_id status
            (some error)
            (clock 3)
            (fail w (clock 2) job.id error db))
  unfolding set_run_status fail
  Ends-in status job_status e free = (
    (
      failed_attempt w (clock 2) error job,
      failed_job w (clock 2) error db job job_found mine,
      e,
      free,
    ),
    (
      record run { status = status; error = some error; updated_at = clock 3 },
      written_run job.run_id status (some error) (clock 3) (fail w (clock 2) job.id error db) run
          run_found live,
      refl,
    ),
  )

  -- the events that follow change neither
  after_events :
      (job_status : JobStatus) (status : RunStatus) (t : Db) (events : List RuntimeEvent)
      → Ends job job_status status t
      → Ends job job_status status (append_many ids job.run_id events t)
  after_events job_status status t events h =
      rw (jobs-append_many ids job.run_id events t, runs-append_many ids job.run_id events t) h

  retries :
      ltb job.attempt_count (or_number job.max_attempts 3) ≡ true
      → Ends job JobStatus.retry_wait queued (settle w clock ids job (raised error) db).0
  unfolding settle emit_run_failed emit_retrying
  retries again =
      let not_over : attempts_exhausted job ≡ false = ground arith in
      rw not_over (
        after_events JobStatus.retry_wait queued _ _
          (Ends-in queued JobStatus.retry_wait (rw again refl) (rw again refl)))

  gives_up :
      ltb job.attempt_count (or_number job.max_attempts 3) ≡ false
      → Ends job JobStatus.failed failed (settle w clock ids job (raised error) db).0
  unfolding settle emit_run_failed emit_retrying
  gives_up not_again =
      let over : attempts_exhausted job ≡ true = ground arith in
      rw over (
        after_events JobStatus.failed failed _ _
          (Ends-in failed JobStatus.failed (rw not_again refl) (rw not_again refl)))

  -- After an exception that another attempt may cure, of a job that the worker still owns and whose
  -- Run is not terminal, the job and its Run agree: while attempts are left, the job waits for its
  -- retry and the Run is queued; otherwise both have failed. Either way nobody owns the job.
  pub settle_raised :
      let again = ltb job.attempt_count (or_number job.max_attempts 3) in
      Ends job
        (if again then JobStatus.retry_wait else JobStatus.failed)
        (if again then queued else failed)
        (settle w clock ids job (raised error) db).0
  settle_raised = elim (Bool-cases (ltb job.attempt_count (or_number job.max_attempts 3))) [
    | inl again ↦ rw again (retries again)
    | inr over ↦ rw over (gives_up over)
  ]
