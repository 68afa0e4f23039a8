-- ===== src/Approvals.antt =====
-- app/services/approval_repository.py and app/api/approvals.py: durable approvals, and the job that
-- resumes a paused Run. `canonical_hash` stands for sha256 over the JSON of the arguments.
pub mod Asked
pub mod Resolve
pub mod Decided
use fastapi_langgraph_templa.Common.{
  ℕ, String, str_eq, List, [], ◌∷◌, ◌++◌, Option, none, some, Bool, true, false, ◌&&◌, leb,
  if◌then◌else◌, filter,
}
use fastapi_langgraph_templa.Common.Table.{find, update_where}
use fastapi_langgraph_templa.State.{
  RunStatus, ApprovalStatus, is_pending, is_resolution, same_status,
}
use fastapi_langgraph_templa.Json.{Json, text, obj, end, field}
use fastapi_langgraph_templa.Schema.{ApprovalRow, RunRow, JobRow, Db, run_by_id, approval_by_id}
use fastapi_langgraph_templa.Worker.{new_job, null_or_le}

pub record PendingAction : Type 0 where
  pub action_id : String
  pub run_id : String
  pub node_id : String
  pub action : String
  pub tool_name : Option String
  pub canonical_arguments : Json
  pub risk : String
  pub expires_at : ℕ

abbrev pub has_action_id : String → ApprovalRow → Bool
has_action_id action_id a = elim a.action_id [ none ↦ false | some i ↦ str_eq i action_id ]

abbrev pub new_approval : (Json → String) → String → ℕ → PendingAction → ApprovalRow
new_approval canonical_hash id now action = record {
  id = id;
  run_id = action.run_id;
  node_id = action.node_id;
  action = action.action;
  action_id = some action.action_id;
  tool_name = action.tool_name;
  canonical_arguments = some action.canonical_arguments;
  arguments_hash = some (canonical_hash action.canonical_arguments);
  status = ApprovalStatus.pending;
  details = obj (field "risk" (text action.risk) end);
  created_at = now;
  resolved_at = none;
  resolved_by = none;
  reason = none;
  expires_at = some action.expires_at;
}

abbrev pub create_unless :
    Option ApprovalRow → (Json → String) → String → ℕ → PendingAction → Db → Db × ApprovalRow
create_unless (some existing) canonical_hash id now action db = (db, existing)
create_unless none canonical_hash id now action db =
    let approval = new_approval canonical_hash id now action in
    (record db { approvals = db.approvals ++ approval ∷ [] }, approval)

unfoldable pub create_pending : (Json → String) → String → ℕ → PendingAction → Db → Db × ApprovalRow
create_pending canonical_hash id now action db =
    create_unless (find (has_action_id action.action_id) db.approvals) canonical_hash id now action
      db

-- ORDER BY created_at
unfoldable pub insert_by_created : ApprovalRow → List ApprovalRow → List ApprovalRow
insert_by_created a [] = a ∷ []
insert_by_created a (b ∷ bs) =
    if leb a.created_at b.created_at then a ∷ b ∷ bs else b ∷ insert_by_created a bs

unfoldable pub sort_by_created : List ApprovalRow → List ApprovalRow
unfolding insert_by_created
sort_by_created [] = []
sort_by_created (a ∷ as') = insert_by_created a (sort_by_created as')

unfoldable pub list_for_run : String → Bool → Db → List ApprovalRow
unfolding sort_by_created
list_for_run run_id pending_only db = sort_by_created (
    filter (λ a. str_eq a.run_id run_id && (if pending_only then is_pending a.status else true))
      db.approvals)

-- How `resolve_and_enqueue` ends: ValueError, None, a row, or the NoResultFound of `scalar_one`.
pub data Resolution : Type 0 where
  bad_status not_found missing_run : Resolution
  row : ApprovalRow → Resolution

pub record Resolver : Type 0 where
  pub resolved_by : String
  pub reason : Option String

-- `expires_at is not None and expires_at <= now`
abbrev pub has_expired : Option ℕ → ℕ → Bool
has_expired none now = false
has_expired (some t) now = leb t now

abbrev pub expire : ℕ → ApprovalRow → ApprovalRow
expire now a = record a { status = ApprovalStatus.expired; resolved_at = some now }

abbrev pub resolve : ApprovalStatus → Resolver → ℕ → ApprovalRow → ApprovalRow
resolve status by now a = record a {
  status = status;
  resolved_at = some now;
  resolved_by = some by.resolved_by;
  reason = by.reason;
}

abbrev pub put_approval : String → (ApprovalRow → ApprovalRow) → Db → Db
put_approval id u db = record db { approvals = update_where (λ a. str_eq a.id id) u db.approvals }

-- the job that resumes the Run, if it is paused
unfoldable pub requeue_if_paused : String → ℕ → RunRow → Db → Db
requeue_if_paused job_id now run db =
    if same_status run.status RunStatus.paused
    then record db {
      runs =
          update_where (λ r. str_eq r.id run.id)
            (λ r. record r { status = RunStatus.queued; updated_at = now }) db.runs;
      jobs = db.jobs ++ new_job job_id run.id end now ∷ [];
    }
    else db

-- on a pending approval that has not expired; an exception rolls the transaction back
abbrev pub resolve_pending :
    String → ℕ → ApprovalStatus → Resolver → ApprovalRow → Option RunRow → Db → Db × Resolution
resolve_pending job_id now status by a none db = (db, missing_run)
resolve_pending job_id now status by a (some run) db = (
  requeue_if_paused job_id now run (put_approval a.id (resolve status by now) db),
  row (resolve status by now a),
)

abbrev pub resolve_found :
    String → ℕ → ApprovalStatus → Resolver → Option ApprovalRow → Db → Db × Resolution
resolve_found job_id now status by none db = (db, not_found)
resolve_found job_id now status by (some a) db =
    if is_pending a.status
    then if has_expired a.expires_at now
      then (put_approval a.id (expire now) db, row (expire now a))
      else resolve_pending job_id now status by a (run_by_id a.run_id db.runs) db
    else (db, row a)

unfoldable pub resolve_and_enqueue :
    String → ℕ → String → ApprovalStatus → Resolver → Db → Db × Resolution
unfolding requeue_if_paused
resolve_and_enqueue job_id now approval_id status by db =
    if is_resolution status
    then resolve_found job_id now status by (approval_by_id approval_id db.approvals) db
    else (db, bad_status)
