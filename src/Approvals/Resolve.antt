-- ===== src/Approvals/Resolve.antt =====
-- Resolving an approval, once.
use fastapi_langgraph_templa.Common.{if◌then◌else◌}
use fastapi_langgraph_templa.Common.{
  ℕ, String, str_eq, eq_iff, eq_refl, ◌≡◌, refl, ap, sym, ◌∙◌, [], ◌∷◌, ◌++◌, Option, none, some,
  true, false, arith, Bool-cases, inl, inr,
}
use mathlib.Core.Option
use fastapi_langgraph_templa.Common.Table.{touched, find-update_where, find_sound}
use fastapi_langgraph_templa.State.{
  ApprovalStatus, is_pending, is_resolution, same_status, paused, queued,
}
use fastapi_langgraph_templa.Json.{end}
use fastapi_langgraph_templa.Schema.{ApprovalRow, RunRow, Db, run_by_id, approval_by_id}
use fastapi_langgraph_templa.Worker.{new_job}
use fastapi_langgraph_templa.Lifecycle.Runs.{run_by_id-update_where, same_status_sound}
use fastapi_langgraph_templa.Approvals.{
  Resolver, row, resolve_and_enqueue, resolve_found, resolve_pending, requeue_if_paused,
  put_approval, resolve, has_expired, expire,
}

pub put_found :
    (id : String) (u : ApprovalRow → ApprovalRow) (db : Db) (a : ApprovalRow)
    → ((b : ApprovalRow) → (u b).id ≡ b.id)
    → approval_by_id id db.approvals ≡ some a
    → approval_by_id id (put_approval a.id u db).approvals ≡ some (u a)
put_found id u db a keep there =
    find-update_where (λ b. str_eq b.id id) (λ b. str_eq b.id a.id) u db.approvals
      (λ b. ap (λ i. str_eq i id) (keep b))
    ∙ ap (Option.map (touched (λ b. str_eq b.id a.id) u)) there
    ∙ rw (eq_refl a.id)

-- a row that is no longer pending comes back as it is
pub settled_same :
    (job_id : String) (now : ℕ) (id : String) (status : ApprovalStatus) (by : Resolver) (db : Db)
    (a : ApprovalRow)
    → is_resolution status ≡ true
    → approval_by_id id db.approvals ≡ some a
    → is_pending a.status ≡ false
    → resolve_and_enqueue job_id now id status by db ≡ (db, row a)
unfolding resolve_and_enqueue
settled_same job_id now id status by db a ok there settled = rw (ok, there, settled)

row_injective : (a b : ApprovalRow) → row a ≡ row b → a ≡ b
row_injective a b h = ground arith

-- the approval is there with the given row, which is settled
abbrev pub IsSettled : String → ApprovalRow → Db → Type 0
IsSettled id a db = (approval_by_id id db.approvals ≡ some a) × (is_pending a.status ≡ false)

approvals-requeue :
    (job_id : String) (now : ℕ) (run : RunRow) (db : Db)
    → (requeue_if_paused job_id now run db).approvals ≡ db.approvals
unfolding requeue_if_paused
approvals-requeue job_id now run db = ground arith

module _ (job_id : String) (now : ℕ) (id : String) (status : ApprovalStatus) (by : Resolver)
    (ok : is_resolution status ≡ true) where
  resolved_not_pending : is_pending status ≡ false
  resolved_not_pending = ground arith

  pending-IsSettled :
      (old : ApprovalRow) (o : Option RunRow) (db : Db) (a : ApprovalRow)
      → approval_by_id id db.approvals ≡ some old
      → (resolve_pending job_id now status by old o db).1 ≡ row a
      → IsSettled id a (resolve_pending job_id now status by old o db).0
  pending-IsSettled old none db a there h = cc
  pending-IsSettled old (some run) db a there h =
      let put : approval_by_id id (put_approval old.id (resolve status by now) db).approvals
          ≡ some (resolve status by now old) =
        put_found id (resolve status by now) db old (λ b. refl) there in
      (
        rw (approvals-requeue job_id now run (put_approval old.id (resolve status by now) db))
            (put ∙ ground arith),
        ground (arith, resolved_not_pending),
      )

  found-IsSettled :
      (old : ApprovalRow) (db : Db) (a : ApprovalRow)
      → approval_by_id id db.approvals ≡ some old
      → (resolve_found job_id now status by (some old) db).1 ≡ row a
      → IsSettled id a (resolve_found job_id now status by (some old) db).0
  found-IsSettled old db a there h = elim (Bool-cases (is_pending old.status)) [
    | inr settled ↦
        let same = row_injective old a (rw settled at h) in
        rw settled
          (there ∙ ap some same, ap (λ (r : ApprovalRow). is_pending r.status) (sym same) ∙ settled)
    | inl open_ ↦ elim (Bool-cases (has_expired old.expires_at now)) [
      | inl late ↦
          let same = row_injective (expire now old) a (rw (open_, late) at h) in
          rw (open_, late)
            (
              put_found id (expire now) db old (λ b. refl) there ∙ ap some same,
              ap (λ (r : ApprovalRow). is_pending r.status) (sym same),
            )
      | inr live ↦
          rw (open_, live)
            (pending-IsSettled old (run_by_id old.run_id db.runs) db a there
              (rw (open_, live) at h))
    ]
  ]

  lookup-IsSettled :
      (o : Option ApprovalRow) (db : Db) (a : ApprovalRow)
      → approval_by_id id db.approvals ≡ o
      → (resolve_found job_id now status by o db).1 ≡ row a
      → IsSettled id a (resolve_found job_id now status by o db).0
  lookup-IsSettled none db a there h = cc
  lookup-IsSettled (some old) db a there h = found-IsSettled old db a there h

  resolve-IsSettled :
      (db : Db) (a : ApprovalRow)
      → (resolve_and_enqueue job_id now id status by db).1 ≡ row a
      → IsSettled id a (resolve_and_enqueue job_id now id status by db).0
  unfolding resolve_and_enqueue
  resolve-IsSettled db a h =
      rw ok (lookup-IsSettled (approval_by_id id db.approvals) db a refl (rw ok at h))

-- The first resolution of an approval is final: whoever resolves it again later, either way, gets
-- the row that the first call left (approved, rejected or expired), and nothing changes: no second
-- job is queued.
pub resolve_once :
    (job_id job_id' : String) (now later : ℕ) (id : String) (status status' : ApprovalStatus)
    (by by' : Resolver) (db : Db) (a : ApprovalRow)
    → is_resolution status ≡ true
    → is_resolution status' ≡ true
    → (resolve_and_enqueue job_id now id status by db).1 ≡ row a
    → resolve_and_enqueue job_id' later id status' by'
        (resolve_and_enqueue job_id now id status by db).0
      ≡ ((resolve_and_enqueue job_id now id status by db).0, row a)
resolve_once job_id job_id' now later id status status' by by' db a ok ok' h =
    let (there, settled) = resolve-IsSettled job_id now id status by ok db a h in
    settled_same job_id' later id status' by' (resolve_and_enqueue job_id now id status by db).0 a
      ok' there settled

requeued :
    (job_id : String) (now : ℕ) (j : String) (run : RunRow) (db : Db)
    → run_by_id j db.runs ≡ some run
    → run.status ≡ paused
    → ((requeue_if_paused job_id now run db).jobs ≡ db.jobs ++ new_job job_id j end now ∷ [])
      × (run_by_id j (requeue_if_paused job_id now run db).runs
          ≡ some (record run { status = queued; updated_at = now }))
unfolding requeue_if_paused
requeued job_id now j run db found is =
    let own : run.id ≡ j =
      (eq_iff run.id j).0 (find_sound (λ a. str_eq a.id j) db.runs run found) in
    rw is (
      ap (λ i. db.jobs ++ new_job job_id i end now ∷ []) own,
      run_by_id-update_where j (λ r. str_eq r.id run.id)
            (λ r. record r { status = queued; updated_at = now }) (λ r. refl) db.runs run found
          ∙ rw (eq_refl run.id),
    )

-- a Run that is paused is queued with a new job; another stays as it is
requeue_lem :
    (job_id : String) (now : ℕ) (j : String) (run : RunRow) (db : Db)
    → run_by_id j db.runs ≡ some run
    → ((requeue_if_paused job_id now run db).jobs ≡ (
        if same_status run.status paused
        then db.jobs ++ new_job job_id j end now ∷ []
        else db.jobs))
      × (run_by_id j (requeue_if_paused job_id now run db).runs
          ≡ some (
              if same_status run.status paused
              then record run { status = queued; updated_at = now }
              else run))
unfolding requeue_if_paused
requeue_lem job_id now j run db found = elim (Bool-cases (same_status run.status paused)) [
  | inl is ↦
      let (jobs, runs) =
        requeued job_id now j run db found (same_status_sound run.status paused is) in
      rw is (rw is at jobs, rw is at runs)
  | inr other ↦ rw other (refl, found)
]

-- a pending approval that has not expired, of a Run that is there
pub resolved_row :
    (job_id : String) (now : ℕ) (id : String) (status : ApprovalStatus) (by : Resolver) (db : Db)
    (a : ApprovalRow) (run : RunRow)
    → is_resolution status ≡ true
    → approval_by_id id db.approvals ≡ some a
    → is_pending a.status ≡ true
    → has_expired a.expires_at now ≡ false
    → run_by_id a.run_id db.runs ≡ some run
    → let (db', result) = resolve_and_enqueue job_id now id status by db in
      (result ≡ row (resolve status by now a))
      × (approval_by_id id db'.approvals ≡ some (resolve status by now a))
      × (db'.jobs ≡ (
          if same_status run.status paused
          then db.jobs ++ new_job job_id a.run_id end now ∷ []
          else db.jobs))
      × (run_by_id a.run_id db'.runs
          ≡ some (
              if same_status run.status paused
              then record run { status = queued; updated_at = now }
              else run))
unfolding resolve_and_enqueue
resolved_row job_id now id status by db a run ok there open_ live found =
    let (jobs, runs) =
      requeue_lem job_id now a.run_id run (put_approval a.id (resolve status by now) db) found in
    rw (ok, there, open_, live, found)
      (
        refl,
        rw (approvals-requeue job_id now run (put_approval a.id (resolve status by now) db))
            (put_found id (resolve status by now) db a (λ b. refl) there),
        jobs,
        runs,
      )
