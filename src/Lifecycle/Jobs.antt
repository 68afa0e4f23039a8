-- ===== src/Lifecycle/Jobs.antt =====
-- What the steps do to the leases of Jobs and to the log of events.
use fastapi_langgraph_templa.Common.{
  ℕ, String, ◌≡◌, refl, List, [], ◌∷◌, Option, none, some, arith, Bool-cases, inl, inr,
}
use fastapi_langgraph_templa.State.{
  ApprovalStatus, is_terminal, is_pending, is_resolution, same_status, paused,
}
use fastapi_langgraph_templa.Json.{Json, end}
use fastapi_langgraph_templa.Schema.{
  ApprovalRow, EventRow, JobRow, RunRow, Db, run_by_id, approval_by_id,
}
use fastapi_langgraph_templa.Events.{RuntimeEvent, append_many, log_many}
use fastapi_langgraph_templa.Events.Ordered.{
  IsOrdered, ends_of, log_many-IsOrdered, log_many-ends_of,
}
use fastapi_langgraph_templa.Worker.{
  set_run_status, claim_found, claim_next, WorkerConfig, enqueue, complete, fail,
  fail_without_retry, heartbeat,
}
use fastapi_langgraph_templa.Worker.Leases.{
  AllLeased, AllLeased-append, new_job-IsLeased, enqueue-AllLeased, claim_next-AllLeased,
  complete-AllLeased, fail-AllLeased, fail_without_retry-AllLeased, heartbeat-AllLeased,
}
use fastapi_langgraph_templa.Approvals.{
  PendingAction, Resolver, create_pending, resolve_and_enqueue, resolve_found, resolve_pending,
  requeue_if_paused, put_approval, resolve, has_expired,
}
use fastapi_langgraph_templa.RunManager.{update_run}
use fastapi_langgraph_templa.RunManager.Create.{insert_run}
use fastapi_langgraph_templa.Api.Runs.{cancel_status, cancel_found}
use fastapi_langgraph_templa.Lifecycle.{
  Step, Steps, inserts_run, enqueues, claims, completes, fails, gives_up, beats, sets_status,
  updates_run, appends, asks_approval, resolves, cancels, here, next,
}

pub jobs-append_many :
    (ids : ℕ → String) (run_id : String) (events : List RuntimeEvent) (db : Db)
    → (append_many ids run_id events db).jobs ≡ db.jobs
unfolding append_many
jobs-append_many ids run_id [] db = refl
jobs-append_many ids run_id (e ∷ es) db = refl

jobs-cancel_found :
    (now : ℕ) (run_id : String) (o : Option RunRow) (db : Db)
    → (cancel_found now run_id o db).0.jobs ≡ db.jobs
jobs-cancel_found now run_id none db = refl
jobs-cancel_found now run_id (some run) db = elim (Bool-cases (is_terminal run.status)) [
  | inl done ↦ rw done
  | inr live ↦ rw live
]

jobs-create_pending :
    (canonical_hash : Json → String) (id : String) (now : ℕ) (action : PendingAction) (db : Db)
    → (create_pending canonical_hash id now action db).0.jobs ≡ db.jobs
unfolding create_pending
jobs-create_pending canonical_hash id now action db = ground arith

events-create_pending :
    (canonical_hash : Json → String) (id : String) (now : ℕ) (action : PendingAction) (db : Db)
    → (create_pending canonical_hash id now action db).0.events ≡ db.events
unfolding create_pending
events-create_pending canonical_hash id now action db = ground arith

events-claim_found :
    (w : WorkerConfig) (now : ℕ) (o : Option JobRow) (db : Db)
    → (claim_found w now o db).0.events ≡ db.events
events-claim_found w now none db = refl
events-claim_found w now (some job) db = refl

-- every job is leased exactly while it is running, and the log has a property
pub record Keeps (P : List EventRow → Type 0) (db : Db) : Type 0 where
  pub leased : AllLeased db.jobs
  pub logged : P db.events

-- Whatever the appends to the log keep, every transaction keeps.
module _ (P : List EventRow → Type 0)
    (log : (ids : ℕ → String) (run_id : String) (events : List RuntimeEvent) (rows : List EventRow)
      → P rows
      → P (log_many ids run_id events rows)) where
  -- where an operation touches neither, or only one
  Keeps-same : {s t : Db} → t.jobs ≡ s.jobs → t.events ≡ s.events → Keeps P s → Keeps P t
  Keeps-same j e h = record { leased = rw j h.leased; logged = rw e h.logged }

  Keeps-jobs : {s t : Db} → AllLeased t.jobs → t.events ≡ s.events → Keeps P s → Keeps P t
  Keeps-jobs l e h = record { leased = l; logged = rw e h.logged }

  append_many-Keeps :
      (ids : ℕ → String) (run_id : String) (events : List RuntimeEvent) (db : Db)
      → Keeps P db
      → Keeps P (append_many ids run_id events db)
  unfolding append_many
  append_many-Keeps ids run_id events db h = record {
    leased = rw (jobs-append_many ids run_id events db) h.leased;
    logged = log ids run_id events db.events h.logged;
  }

  cancel_found-Keeps :
      (now : ℕ) (run_id : String) (o : Option RunRow) (db : Db)
      → Keeps P db
      → Keeps P (cancel_found now run_id o db).0
  cancel_found-Keeps now run_id none db h = h
  cancel_found-Keeps now run_id (some run) db h = elim (Bool-cases (is_terminal run.status)) [
    | inl done ↦ rw done h
    | inr live ↦ rw live (Keeps-same refl refl h)
  ]

  requeue_if_paused-Keeps :
      (job_id : String) (now : ℕ) (run : RunRow) (db : Db)
      → Keeps P db
      → Keeps P (requeue_if_paused job_id now run db)
  unfolding requeue_if_paused
  requeue_if_paused-Keeps job_id now run db h = elim (Bool-cases (same_status run.status paused)) [
    | inr other ↦ rw other h
    | inl is ↦ rw is (
        Keeps-jobs (AllLeased-append db.jobs _ h.leased (new_job-IsLeased job_id run.id end now))
          refl h)
  ]

  resolve_pending-Keeps :
      (job_id : String) (now : ℕ) (status : ApprovalStatus) (by : Resolver) (a : ApprovalRow)
      (o : Option RunRow) (db : Db)
      → Keeps P db
      → Keeps P (resolve_pending job_id now status by a o db).0
  resolve_pending-Keeps job_id now status by a none db h = h
  resolve_pending-Keeps job_id now status by a (some run) db h =
      requeue_if_paused-Keeps job_id now run (put_approval a.id (resolve status by now) db)
        (Keeps-same refl refl h)

  resolve_found-Keeps :
      (job_id : String) (now : ℕ) (status : ApprovalStatus) (by : Resolver) (o : Option ApprovalRow)
      (db : Db)
      → Keeps P db
      → Keeps P (resolve_found job_id now status by o db).0
  resolve_found-Keeps job_id now status by none db h = h
  resolve_found-Keeps job_id now status by (some a) db h = elim (Bool-cases (is_pending a.status)) [
    | inr settled ↦ rw settled h
    | inl open_ ↦ elim (Bool-cases (has_expired a.expires_at now)) [
      | inl late ↦ rw (open_, late) (Keeps-same refl refl h)
      | inr live ↦
          rw (open_, live)
            (resolve_pending-Keeps job_id now status by a (run_by_id a.run_id db.runs) db h)
    ]
  ]

  Step-Keeps : {s t : Db} → Step s t → Keeps P s → Keeps P t
  unfolding insert_run cancel_status resolve_and_enqueue enqueue complete fail fail_without_retry
      heartbeat set_run_status update_run claim_next
  Step-Keeps (inserts_run session_id job_id run trace now db) h =
      Keeps-jobs (AllLeased-append db.jobs _ h.leased (new_job-IsLeased job_id run.id trace now))
        refl h
  Step-Keeps (enqueues job_id run_id trace now db) h =
      Keeps-jobs (enqueue-AllLeased job_id run_id trace now db h.leased) refl h
  Step-Keeps (claims w now locked db) h =
      Keeps-jobs (claim_next-AllLeased w now locked db h.leased) (events-claim_found w now _ db) h
  Step-Keeps (completes w now job_id db) h =
      Keeps-jobs (complete-AllLeased w now job_id db h.leased) refl h
  Step-Keeps (fails w now job_id error db) h =
      Keeps-jobs (fail-AllLeased w now job_id error db h.leased) refl h
  Step-Keeps (gives_up w now job_id error db) h =
      Keeps-jobs (fail_without_retry-AllLeased w now job_id error db h.leased) refl h
  Step-Keeps (beats w now job_id db) h =
      Keeps-jobs (heartbeat-AllLeased w now job_id db h.leased) refl h
  Step-Keeps (sets_status run_id status error now db) h = Keeps-same refl refl h
  Step-Keeps (updates_run run_id status output error reason now db) h = Keeps-same refl refl h
  Step-Keeps (appends ids run_id events db) h = append_many-Keeps ids run_id events db h
  Step-Keeps (asks_approval canonical_hash id now action db) h =
      Keeps-same (jobs-create_pending canonical_hash id now action db)
        (events-create_pending canonical_hash id now action db) h
  Step-Keeps (resolves job_id now approval_id status by db) h =
      elim (Bool-cases (is_resolution status)) [
        | inl ok ↦ rw ok (
            resolve_found-Keeps job_id now status by (approval_by_id approval_id db.approvals) db h)
        | inr bad ↦ rw bad h
      ]
  Step-Keeps (cancels now run_id db) h =
      cancel_found-Keeps now run_id (run_by_id run_id db.runs) db h

  pub Steps-Keeps : {s t : Db} → Steps s t → Keeps P s → Keeps P t
  Steps-Keeps here h = h
  Steps-Keeps (next steps step) h = Step-Keeps step (Steps-Keeps steps h)

-- Every job is leased exactly while it is running, and for every Run the events stand in the log in
-- the order of their numbers, which are all different, and at most one is terminal.
abbrev pub IsSound : Db → Type 0
IsSound = Keeps (λ rows. (run_id : String) → IsOrdered run_id rows)

-- Every sequence of transactions of the program keeps a database sound: a job has an owner and a
-- lease exactly while it is running; the events of every Run stand in the log in the order of their
-- numbers, no number comes twice, and no Run has two terminal events.
pub Steps-IsSound : {s t : Db} → Steps s t → IsSound s → IsSound t
Steps-IsSound = Steps-Keeps (λ rows. (run_id : String) → IsOrdered run_id rows) log_many-IsOrdered

-- The first terminal event of a Run is final: once the log of a sound database has a terminal event
-- of a Run, then after any transactions it has that one and no other.
pub first_end_stays :
    {s t : Db} (run_id : String) (e : EventRow)
    → Steps s t
    → IsSound s
    → ends_of run_id s.events ≡ e ∷ []
    → ends_of run_id t.events ≡ e ∷ []
first_end_stays run_id e steps sound h =
    (Steps-Keeps (λ rows. ends_of run_id rows ≡ e ∷ [])
      (λ ids r events rows. log_many-ends_of ids r run_id events e rows) steps
      (record { leased = sound.leased; logged = h })).logged
