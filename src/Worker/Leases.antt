-- ===== src/Worker/Leases.antt =====
-- The lease of a job: who owns it, and for how long.
use fastapi_langgraph_templa.Common.{
  ℕ, ◌+◌, String, str_eq, ◌≡◌, refl, ap, List, [], ◌∷◌, ◌++◌, Option, none, some, Bool, true, false,
  arith, Bool-cases, inl, inr, All, is_some,
}
use fastapi_langgraph_templa.Common.Table.{find, update_where}
use fastapi_langgraph_templa.Json.{Fields}
use fastapi_langgraph_templa.Schema.{JobStatus, JobRow, Db}
use fastapi_langgraph_templa.Worker.{
  WorkerConfig, enqueue, new_job, claimed, claim_found, claim_next, owns, complete, fail,
  failed_attempt, finished, fail_without_retry, heartbeat, beats, is_running,
}

-- A job has an owner, and a time at which its lease runs out, exactly while it is running.
pub record IsLeased (j : JobRow) : Type 0 where
  pub owner : is_some j.lease_owner ≡ is_running j.status
  pub expiry : is_some j.lease_expires_at ≡ is_running j.status

unfoldable pub AllLeased : List JobRow → Type 0
AllLeased = All IsLeased

module _ (q : JobRow → Bool) (u : JobRow → JobRow)
    (keep : (j : JobRow) → IsLeased j → q j ≡ true → IsLeased (u j)) where
  update_where-AllLeased : (jobs : List JobRow) → AllLeased jobs → AllLeased (update_where q u jobs)
  unfolding AllLeased
  update_where-AllLeased [] h = tt
  update_where-AllLeased (j ∷ js) h = elim (Bool-cases (q j)) [
    | inl hit ↦ rw hit (keep j h.0 hit, update_where-AllLeased js h.1)
    | inr miss ↦ rw miss (h.0, update_where-AllLeased js h.1)
  ]

pub AllLeased-append :
    (xs : List JobRow) (j : JobRow) → AllLeased xs → IsLeased j → AllLeased (xs ++ j ∷ [])
unfolding AllLeased
AllLeased-append [] j h l = (l, tt)
AllLeased-append (x ∷ xs) j h l = (h.0, AllLeased-append xs j h.1 l)

pub new_job-IsLeased :
    (id run_id : String) (trace : Fields) (now : ℕ) → IsLeased (new_job id run_id trace now)
new_job-IsLeased id run_id trace now = record { owner = refl; expiry = refl }

pub enqueue-AllLeased :
    (job_id run_id : String) (trace : Fields) (now : ℕ) (db : Db)
    → AllLeased db.jobs
    → AllLeased (enqueue job_id run_id trace now db).0.jobs
unfolding enqueue
enqueue-AllLeased job_id run_id trace now db h =
    AllLeased-append db.jobs _ h (new_job-IsLeased job_id run_id trace now)

claim_found-AllLeased :
    (w : WorkerConfig) (now : ℕ) (o : Option JobRow) (db : Db)
    → AllLeased db.jobs
    → AllLeased (claim_found w now o db).0.jobs
claim_found-AllLeased w now none db h = h
claim_found-AllLeased w now (some job) db h =
    update_where-AllLeased (λ j. str_eq j.id job.id) (claimed w now)
      (λ j l q. record { owner = refl; expiry = refl }) db.jobs h

pub claim_next-AllLeased :
    (w : WorkerConfig) (now : ℕ) (locked : JobRow → Bool) (db : Db)
    → AllLeased db.jobs
    → AllLeased (claim_next w now locked db).0.jobs
unfolding claim_next
claim_next-AllLeased w now locked db h = claim_found-AllLeased w now _ db h

pub complete-AllLeased :
    (w : WorkerConfig) (now : ℕ) (job_id : String) (db : Db)
    → AllLeased db.jobs
    → AllLeased (complete w now job_id db).jobs
unfolding complete
complete-AllLeased w now job_id db h =
    update_where-AllLeased (owns w job_id) (λ j. finished JobStatus.completed j.error now j)
      (λ j l q. record { owner = refl; expiry = refl }) db.jobs h

failed_attempt-IsLeased :
    (w : WorkerConfig) (now : ℕ) (error : String) (j : JobRow)
    → IsLeased (failed_attempt w now error j)
failed_attempt-IsLeased w now error j = ground arith

pub fail-AllLeased :
    (w : WorkerConfig) (now : ℕ) (job_id error : String) (db : Db)
    → AllLeased db.jobs
    → AllLeased (fail w now job_id error db).jobs
unfolding fail
fail-AllLeased w now job_id error db h =
    update_where-AllLeased (owns w job_id) (failed_attempt w now error)
      (λ j l q. failed_attempt-IsLeased w now error j) db.jobs h

pub fail_without_retry-AllLeased :
    (w : WorkerConfig) (now : ℕ) (job_id error : String) (db : Db)
    → AllLeased db.jobs
    → AllLeased (fail_without_retry w now job_id error db).jobs
unfolding fail_without_retry
fail_without_retry-AllLeased w now job_id error db h =
    update_where-AllLeased (owns w job_id) (finished JobStatus.failed (some error) now)
      (λ j l q. record { owner = refl; expiry = refl }) db.jobs h

beat-IsLeased :
    (w : WorkerConfig) (now : ℕ) (job_id : String) (j : JobRow)
    → IsLeased j
    → beats w job_id j ≡ true
    → IsLeased
        (record j { heartbeat_at = some now; lease_expires_at = some (now + w.lease_seconds) })
beat-IsLeased w now job_id j l q = record { owner = l.owner; expiry = ground arith }

pub heartbeat-AllLeased :
    (w : WorkerConfig) (now : ℕ) (job_id : String) (db : Db)
    → AllLeased db.jobs
    → AllLeased (heartbeat w now job_id db).0.jobs
unfolding heartbeat
heartbeat-AllLeased w now job_id db h =
    update_where-AllLeased (beats w job_id)
      (λ j. record j { heartbeat_at = some now; lease_expires_at = some (now + w.lease_seconds) })
      (beat-IsLeased w now job_id) db.jobs h

-- An operation of a worker on a job that another owns, or nobody, changes no job.
update_where-none :
    (q : JobRow → Bool) (u : JobRow → JobRow) (jobs : List JobRow)
    → All (λ j. q j ≡ false) jobs
    → update_where q u jobs ≡ jobs
update_where-none q u [] h = refl
update_where-none q u (j ∷ js) h = ground (arith, update_where-none q u js h.1)

-- a worker that does not own the job: neither its row nor any other changes, and its heartbeat fails
not_owned :
    (w : WorkerConfig) (job_id : String) (jobs : List JobRow)
    → All (λ j. owns w job_id j ≡ false) jobs
    → All (λ j. beats w job_id j ≡ false) jobs
not_owned w job_id [] h = tt
not_owned w job_id (j ∷ js) h = ground (arith, not_owned w job_id js h.1)

find-none :
    (q : JobRow → Bool) (jobs : List JobRow) → All (λ j. q j ≡ false) jobs → find q jobs ≡ none
find-none q [] h = refl
find-none q (j ∷ js) h = ground (arith, find-none q js h.1)

-- A worker that has lost the lease of a job (its row has another owner, or none) can no longer
-- complete it, fail it with or without a retry, or extend the lease: the database stays as it is,
-- and its heartbeat answers False.
pub lost_lease_inert :
    (w : WorkerConfig) (now : ℕ) (job_id error : String) (db : Db)
    → All (λ j. owns w job_id j ≡ false) db.jobs
    → (complete w now job_id db ≡ db)
      × (fail w now job_id error db ≡ db)
      × (fail_without_retry w now job_id error db ≡ db)
      × (heartbeat w now job_id db ≡ (db, false))
unfolding complete fail fail_without_retry heartbeat
lost_lease_inert w now job_id error db h = (
  ap (λ t. record db { jobs = t }) (update_where-none _ _ db.jobs h),
  ap (λ t. record db { jobs = t }) (update_where-none _ _ db.jobs h),
  ap (λ t. record db { jobs = t }) (update_where-none _ _ db.jobs h),
  rw
      (
        find-none (beats w job_id) db.jobs (not_owned w job_id db.jobs h),
        update_where-none (beats w job_id) _ db.jobs (not_owned w job_id db.jobs h),
      )
      refl,
)
