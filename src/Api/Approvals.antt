-- ===== src/Api/Approvals.antt =====
-- app/api/approvals.py: the endpoints on approvals. A response shows the row. The ValueError of
-- another status cannot arise here; the missing Run is an unhandled exception.
pub mod Final
use fastapi_langgraph_templa.Common.{ℕ, String, List, Bool, true, false}
use fastapi_langgraph_templa.State.{ApprovalStatus}
use fastapi_langgraph_templa.Schema.{ApprovalRow, Db}
use fastapi_langgraph_templa.Approvals.{
  Resolver, Resolution, row, not_found, missing_run, bad_status, list_for_run, resolve_and_enqueue,
}
use fastapi_langgraph_templa.Api.Runs.{Response, success, http_error}

unfoldable pub list_approvals : String → Db → List ApprovalRow
list_approvals run_id db = list_for_run run_id false db

abbrev pub answered : Resolution → Response ApprovalRow
answered (row a) = success a
answered not_found = http_error 404 "approval not found"
answered missing_run = http_error 500 "No row was found when one was required"
answered bad_status = http_error 500 "status must be approved or rejected"

unfoldable pub approve : String → ℕ → String → Resolver → Db → Db × Response ApprovalRow
approve job_id now approval_id by db =
    let (db', r) = resolve_and_enqueue job_id now approval_id ApprovalStatus.approved by db in
    (db', answered r)

unfoldable pub reject : String → ℕ → String → Resolver → Db → Db × Response ApprovalRow
reject job_id now approval_id by db =
    let (db', r) = resolve_and_enqueue job_id now approval_id ApprovalStatus.rejected by db in
    (db', answered r)
