-- ===== src/Lifecycle/Runs.antt =====
-- What the steps do to the status of a Run.
use fastapi_langgraph_templa.Common.{
  ℕ, String, str_eq, eq_iff, ◌≡◌, refl, List, [], ◌∷◌, Option, none, some, Bool, true, false, arith,
  ap, ◌∙◌, sym, inl, inr, Bool-cases,
}
use mathlib.Core.Option
use fastapi_langgraph_templa.Common.Table.{
  find, update_where, touched, find-update_where, find-append, or_else, find_sound,
}
use fastapi_langgraph_templa.State.{
  RunStatus, ApprovalStatus, is_pending, is_resolution, paused, queued, is_terminal, same_status,
}
use fastapi_langgraph_templa.Schema.{RunRow, JobRow, ApprovalRow, approval_by_id, Db, run_by_id}
use fastapi_langgraph_templa.Events.{RuntimeEvent, append_many}
use fastapi_langgraph_templa.Worker.{
  WorkerConfig, new_job, enqueue, claim_next, claim_found, complete, fail, fail_without_retry,
  heartbeat, set_run_status, may_write,
}
use fastapi_langgraph_templa.Json.{Json}
use fastapi_langgraph_templa.Approvals.{
  PendingAction, Resolver, create_pending, resolve_and_enqueue, resolve_found, resolve_pending,
  requeue_if_paused, put_approval, has_expired, resolve,
}
use fastapi_langgraph_templa.RunManager.{update_run}
use fastapi_langgraph_templa.RunManager.Create.{insert_run}
use fastapi_langgraph_templa.Api.Runs.{cancel_status, cancel_found, cancel}
use fastapi_langgraph_templa.Lifecycle.{
  Step, Steps, inserts_run, enqueues, claims, completes, fails, gives_up, beats, sets_status,
  updates_run, appends, asks_approval, resolves, cancels, here, next,
}

pub same_status_sound : (a b : RunStatus) → same_status a b ≡ true → a ≡ b
same_status_sound a b h = ground arith

-- The Run `k` is there with the status `s`.
abbrev pub HasStatus : String → RunStatus → List RunRow → Type 0
HasStatus k s runs = (r : RunRow) × (run_by_id k runs ≡ some r) × (r.status ≡ s)

-- an update of Runs that leaves the ids alone
module _ (k : String) (q : RunRow → Bool) (u : RunRow → RunRow)
    (keep : (r : RunRow) → (u r).id ≡ r.id) where
  pub run_by_id-update_where :
      (runs : List RunRow) (r : RunRow)
      → run_by_id k runs ≡ some r
      → run_by_id k (update_where q u runs) ≡ some (touched q u r)
  run_by_id-update_where runs r h =
      find-update_where (λ a. str_eq a.id k) q u runs (λ a. ap (λ i. str_eq i k) (keep a))
      ∙ ap (Option.map (touched q u)) h

-- Two lookups that find rows of one id find the same row.
same_row :
    (k j : String) (runs : List RunRow) (r run : RunRow)
    → run_by_id k runs ≡ some r
    → run_by_id j runs ≡ some run
    → str_eq r.id j ≡ true
    → r ≡ run
same_row k j runs r run h g e =
    let at_k = (eq_iff r.id k).0 (find_sound (λ a. str_eq a.id k) runs r h) in
    let at_j = (eq_iff r.id j).0 e in
    let keys : k ≡ j = cc (at_k, at_j) in cc (ap (λ x. run_by_id x runs) keys, h, g)

module _ (k : String) (st : RunStatus) (final : is_terminal st ≡ true) where
  set_run_status-HasStatus :
      (run_id : String) (status : RunStatus) (error : Option String) (now : ℕ) (db : Db)
      → HasStatus k st db.runs
      → HasStatus k st (set_run_status run_id status error now db).runs
  unfolding set_run_status
  set_run_status-HasStatus run_id status error now db (r, found, is) = (
    touched (may_write run_id status)
        (λ a. record a { status = status; error = error; updated_at = now }) r,
    run_by_id-update_where k (may_write run_id status)
        (λ a. record a { status = status; error = error; updated_at = now }) (λ a. refl) db.runs r
        found,
    ground (arith, same_status_sound r.status status),
  )

  update_run-HasStatus :
      (run_id : String) (status : RunStatus) (output : String) (error reason : Option String)
      (now : ℕ) (db : Db)
      → HasStatus k st db.runs
      → HasStatus k st (update_run run_id status output error reason now db).runs
  unfolding update_run
  update_run-HasStatus run_id status output error reason now db (r, found, is) =
      let write : RunRow → RunRow = λ a. record a {
        status = status;
        output_text = some output;
        error = error;
        termination_reason = reason;
        updated_at = now;
      } in
      (
        touched (may_write run_id status) write r,
        run_by_id-update_where k (may_write run_id status) write (λ a. refl) db.runs r found,
        ground (arith, same_status_sound r.status status),
      )

  insert_run-HasStatus :
      (session_id : String) (run : RunRow) (job : JobRow) (db : Db)
      → HasStatus k st db.runs
      → HasStatus k st (insert_run session_id run job db).runs
  unfolding insert_run
  insert_run-HasStatus session_id run job db (r, found, is) = (
    r,
    find-append (λ a. str_eq a.id k) db.runs (run ∷ [])
        ∙ ap (λ o. or_else o (find (λ a. str_eq a.id k) (run ∷ []))) found,
    is,
  )

  -- an update of the row with the id `j`, which is not terminal
  other_row :
      (j : String) (u : RunRow → RunRow) (run : RunRow) (runs : List RunRow)
      → ((a : RunRow) → (u a).id ≡ a.id)
      → run_by_id j runs ≡ some run
      → is_terminal run.status ≡ false
      → HasStatus k st runs
      → HasStatus k st (update_where (λ a. str_eq a.id j) u runs)
  other_row j u run runs keep there live (r, found, is) = elim (Bool-cases (str_eq r.id j)) [
    | inl e ↦ cc (final, live, is, same_row k j runs r run found there e)
    | inr e ↦ (r, run_by_id-update_where k (λ a. str_eq a.id j) u keep runs r found ∙ rw e, is)
  ]

-- these leave the table of Runs alone
runs-claim_found :
    (w : WorkerConfig) (now : ℕ) (o : Option JobRow) (db : Db)
    → (claim_found w now o db).0.runs ≡ db.runs
runs-claim_found w now none db = refl
runs-claim_found w now (some job) db = refl

runs-claim_next :
    (w : WorkerConfig) (now : ℕ) (locked : JobRow → Bool) (db : Db)
    → (claim_next w now locked db).0.runs ≡ db.runs
unfolding claim_next
runs-claim_next w now locked db = runs-claim_found w now _ db

pub runs-append_many :
    (ids : ℕ → String) (run_id : String) (events : List RuntimeEvent) (db : Db)
    → (append_many ids run_id events db).runs ≡ db.runs
unfolding append_many
runs-append_many ids run_id [] db = refl
runs-append_many ids run_id (e ∷ es) db = refl

runs-create_pending :
    (canonical_hash : Json → String) (id : String) (now : ℕ) (action : PendingAction) (db : Db)
    → (create_pending canonical_hash id now action db).0.runs ≡ db.runs
unfolding create_pending
runs-create_pending canonical_hash id now action db = ground arith

module _ (k : String) (st : RunStatus) (final : is_terminal st ≡ true) where
  cancel_found-HasStatus :
      (now : ℕ) (run_id : String) (o : Option RunRow) (db : Db)
      → run_by_id run_id db.runs ≡ o
      → HasStatus k st db.runs
      → HasStatus k st (cancel_found now run_id o db).0.runs
  cancel_found-HasStatus now run_id none db e h = h
  cancel_found-HasStatus now run_id (some run) db e h = elim (Bool-cases (is_terminal run.status)) [
    | inl done ↦ rw done h
    | inr live ↦ rw live (other_row k st final run_id (cancel now) run db.runs (λ a. refl) e live h)
  ]

  requeue_if_paused-HasStatus :
      (job_id : String) (now : ℕ) (j : String) (run : RunRow) (db : Db)
      → run_by_id j db.runs ≡ some run
      → HasStatus k st db.runs
      → HasStatus k st (requeue_if_paused job_id now run db).runs
  unfolding requeue_if_paused
  requeue_if_paused-HasStatus job_id now j run db e h =
      let own : j ≡ run.id =
        sym ((eq_iff run.id j).0 (find_sound (λ a. str_eq a.id j) db.runs run e)) in
      elim (Bool-cases (same_status run.status paused)) [
        | inl is ↦ rw is (
            other_row k st final run.id (λ r. record r { status = queued; updated_at = now }) run
              db.runs (λ a. refl) (ap (λ x. run_by_id x db.runs) (sym own) ∙ e)
              (ap is_terminal (same_status_sound run.status paused is)) h)
        | inr other ↦ rw other h
      ]

  resolve_pending-HasStatus :
      (job_id : String) (now : ℕ) (status : ApprovalStatus) (by : Resolver) (a : ApprovalRow)
      (o : Option RunRow) (db : Db)
      → run_by_id a.run_id db.runs ≡ o
      → HasStatus k st db.runs
      → HasStatus k st (resolve_pending job_id now status by a o db).0.runs
  resolve_pending-HasStatus job_id now status by a none db e h = h
  resolve_pending-HasStatus job_id now status by a (some run) db e h =
      requeue_if_paused-HasStatus job_id now a.run_id run
        (put_approval a.id (resolve status by now) db) e h

  resolve_found-HasStatus :
      (job_id : String) (now : ℕ) (status : ApprovalStatus) (by : Resolver) (o : Option ApprovalRow)
      (db : Db)
      → HasStatus k st db.runs
      → HasStatus k st (resolve_found job_id now status by o db).0.runs
  resolve_found-HasStatus job_id now status by none db h = h
  resolve_found-HasStatus job_id now status by (some a) db h =
      elim (Bool-cases (is_pending a.status)) [
        | inr settled ↦ rw settled h
        | inl open_ ↦ elim (Bool-cases (has_expired a.expires_at now)) [
          | inl late ↦ rw (open_, late) h
          | inr live ↦
              rw (open_, live)
                (resolve_pending-HasStatus job_id now status by a (run_by_id a.run_id db.runs) db
                  refl h)
        ]
      ]

  Step-HasStatus : {s t : Db} → Step s t → HasStatus k st s.runs → HasStatus k st t.runs
  unfolding enqueue complete fail fail_without_retry heartbeat cancel_status resolve_and_enqueue
  Step-HasStatus (inserts_run session_id job_id run trace now db) h =
      insert_run-HasStatus k st final session_id run (new_job job_id run.id trace now) db h
  Step-HasStatus (enqueues job_id run_id trace now db) h = h
  Step-HasStatus (claims w now locked db) h = rw (runs-claim_next w now locked db) h
  Step-HasStatus (completes w now job_id db) h = h
  Step-HasStatus (fails w now job_id error db) h = h
  Step-HasStatus (gives_up w now job_id error db) h = h
  Step-HasStatus (beats w now job_id db) h = h
  Step-HasStatus (sets_status run_id status error now db) h =
      set_run_status-HasStatus k st final run_id status error now db h
  Step-HasStatus (updates_run run_id status output error reason now db) h =
      update_run-HasStatus k st final run_id status output error reason now db h
  Step-HasStatus (appends ids run_id events db) h = rw (runs-append_many ids run_id events db) h
  Step-HasStatus (asks_approval canonical_hash id now action db) h =
      rw (runs-create_pending canonical_hash id now action db) h
  Step-HasStatus (resolves job_id now approval_id status by db) h =
      elim (Bool-cases (is_resolution status)) [
        | inl ok ↦ rw ok (
            resolve_found-HasStatus job_id now status by (approval_by_id approval_id db.approvals)
              db h)
        | inr bad ↦ rw bad h
      ]
  Step-HasStatus (cancels now run_id db) h =
      cancel_found-HasStatus now run_id (run_by_id run_id db.runs) db refl h

-- Once a Run has a terminal status, it keeps it through every sequence of transactions, whoever
-- makes them: workers, executions that end late, the cancel API, approvals.
pub terminal_final :
    (k : String) (st : RunStatus) {s t : Db}
    → is_terminal st ≡ true
    → Steps s t
    → HasStatus k st s.runs
    → HasStatus k st t.runs
terminal_final k st final here h = h
terminal_final k st final (next steps step) h =
    Step-HasStatus k st final step (terminal_final k st final steps h)
