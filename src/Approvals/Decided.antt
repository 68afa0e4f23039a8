-- ===== src/Approvals/Decided.antt =====
-- What resolving an approval does to its row, its Run and the jobs.
use fastapi_langgraph_templa.Common.{
  ℕ, ◌≤◌, ◌≢◌, String, ◌≡◌, refl, ap, ◌∙◌, [], ◌∷◌, ◌++◌, Option, none, some, true, arith,
  Bool-cases, inl, inr, if◌then◌else◌,
}
use fastapi_langgraph_templa.State.{
  ApprovalStatus, is_pending, is_resolution, same_status, paused, queued,
}
use fastapi_langgraph_templa.Json.{end}
use fastapi_langgraph_templa.Schema.{
  ApprovalRow, JobRow, JobStatus, RunRow, Db, run_by_id, approval_by_id,
}
use fastapi_langgraph_templa.Worker.{new_job}
use fastapi_langgraph_templa.Lifecycle.Runs.{same_status_sound}
use fastapi_langgraph_templa.Approvals.{
  Resolver, row, resolve_and_enqueue, put_approval, resolve, has_expired, expire,
}
use fastapi_langgraph_templa.Approvals.Resolve.{resolved_row, put_found}

expired_row :
    (job_id : String) (now : ℕ) (id : String) (status : ApprovalStatus) (by : Resolver) (db : Db)
    (a : ApprovalRow)
    → is_resolution status ≡ true
    → approval_by_id id db.approvals ≡ some a
    → is_pending a.status ≡ true
    → has_expired a.expires_at now ≡ true
    → resolve_and_enqueue job_id now id status by db
      ≡ (put_approval a.id (expire now) db, row (expire now a))
unfolding resolve_and_enqueue
expired_row job_id now id status by db a ok there open_ late = rw (ok, there, open_, late)

-- the time of the approval is over
abbrev pub IsLate : ApprovalRow → ℕ → Type 0
IsLate a now = (t : ℕ) × (a.expires_at ≡ some t) × (t ≤ now)

late_expired : (o : Option ℕ) (now : ℕ) (t : ℕ) → o ≡ some t → t ≤ now → has_expired o now ≡ true
late_expired none now t h le = ground arith
late_expired (some u) now t h le = ground arith

expired_late :
    (o : Option ℕ) (now : ℕ) → has_expired o now ≡ true → (t : ℕ) × (o ≡ some t) × (t ≤ now)
expired_late none now h = ground arith
expired_late (some u) now h = (u, refl, ground arith)

-- the row after the decision: the status, who gave it, when and why, and the same action as before
abbrev pub IsDecided : ApprovalStatus → Resolver → ℕ → ApprovalRow → ApprovalRow → Type 0
IsDecided status by now a b =
    (b.status ≡ status)
    × (b.resolved_at ≡ some now)
    × (b.resolved_by ≡ some by.resolved_by)
    × (b.reason ≡ by.reason)
    × (b.id ≡ a.id)
    × (b.run_id ≡ a.run_id)
    × (b.action_id ≡ a.action_id)

-- a job for the Run that no worker has claimed yet
abbrev pub IsOpen : String → String → JobRow → Type 0
IsOpen job_id run_id j =
    (j.id ≡ job_id)
    × (j.run_id ≡ run_id)
    × (j.status ≡ JobStatus.queued)
    × (j.lease_owner ≡ none)
    × (j.attempt_count ≡ 0)
    × (j.max_attempts ≡ 3)

-- a paused Run is queued, with one job more; another Run stays, and the jobs stay
abbrev pub IsRequeued : String → RunRow → Db → Db → String → Type 0
IsRequeued job_id run db after run_id =
    (run.status ≡ paused
      → ((j : JobRow) × IsOpen job_id run_id j × (after.jobs ≡ db.jobs ++ j ∷ []))
        × ((r : RunRow) × (run_by_id run_id after.runs ≡ some r) × (r.status ≡ queued)))
    × (run.status ≢ paused → (after.jobs ≡ db.jobs) × (run_by_id run_id after.runs ≡ some run))

requeue_cases :
    (job_id : String) (now : ℕ) (run_id : String) (run : RunRow) (db after : Db)
    → after.jobs ≡ (
        if same_status run.status paused
        then db.jobs ++ new_job job_id run_id end now ∷ []
        else db.jobs)
    → run_by_id run_id after.runs
      ≡ some (
          if same_status run.status paused
          then record run { status = queued; updated_at = now }
          else run)
    → IsRequeued job_id run db after run_id
requeue_cases job_id now run_id run db after jobs runs =
    elim (Bool-cases (same_status run.status paused)) [
      | inl is ↦ (
        λ _. (
          (new_job job_id run_id end now, (refl, refl, refl, refl, refl, refl), rw is at jobs),
          (record run { status = queued; updated_at = now }, rw is at runs, refl),
        ),
        λ other. absurd (other (same_status_sound run.status paused is)),
      )
      | inr differs ↦ (λ is. cc (rw is at differs), λ _. (rw differs at jobs, rw differs at runs))
    ]

-- What resolving a pending approval, either way, does. If its time is over, the row expires, whatever
-- the decision is, and no Run and no job changes. Otherwise, its Run being there, the row gets the
-- decision with its resolver, its reason and its time, and is given back so; a Run that is paused is
-- queued and gets one new job, while a Run that is not paused and the jobs stay as they are.
pub resolve-IsDecided :
    (job_id : String) (now : ℕ) (id : String) (status : ApprovalStatus) (by : Resolver) (db : Db)
    (a : ApprovalRow) (run : RunRow)
    → is_resolution status ≡ true
    → approval_by_id id db.approvals ≡ some a
    → a.status ≡ ApprovalStatus.pending
    → run_by_id a.run_id db.runs ≡ some run
    → let (after, result) = resolve_and_enqueue job_id now id status by db in
      (b : ApprovalRow) × (result ≡ row b)
      × (approval_by_id id after.approvals ≡ some b)
      × (IsLate a now
          → (b.status ≡ ApprovalStatus.expired) × (after.jobs ≡ db.jobs) × (after.runs ≡ db.runs))
      × ((¬ IsLate a now) → IsDecided status by now a b × IsRequeued job_id run db after a.run_id)
resolve-IsDecided job_id now id status by db a run ok there pending found =
    let open_ : is_pending a.status ≡ true = rw pending refl in
    elim (Bool-cases (has_expired a.expires_at now)) [
      | inl late ↦
          let is = expired_row job_id now id status by db a ok there open_ late in
          (
            expire now a,
            ap (λ p. p.1) is,
            ap (λ p. approval_by_id id p.0.approvals) is
                ∙ put_found id (expire now) db a (λ b. refl) there,
            λ _. (refl, ap (λ p. p.0.jobs) is, ap (λ p. p.0.runs) is),
            λ live. absurd (live (expired_late a.expires_at now late)),
          )
      | inr live ↦
          let (result, approvals, jobs, runs) =
            resolved_row job_id now id status by db a run ok there open_ live found in
          (
            resolve status by now a,
            result,
            approvals,
            λ (t, set, le). cc (late_expired a.expires_at now t set le, live),
            λ _. (
              (refl, refl, refl, refl, refl, refl, refl),
              requeue_cases job_id now a.run_id run db
                  (resolve_and_enqueue job_id now id status by db).0 jobs runs,
            ),
          )
    ]
