-- ===== src/Api/Approvals/Final.antt =====
-- An answered approval stays as it is.
use fastapi_langgraph_templa.Common.{ℕ, String, ◌≡◌, refl, ap}
use fastapi_langgraph_templa.State.{ApprovalStatus}
use fastapi_langgraph_templa.Schema.{ApprovalRow, Db}
use fastapi_langgraph_templa.Approvals.{
  Resolver, Resolution, row, not_found, missing_run, bad_status, resolve_and_enqueue,
}
use fastapi_langgraph_templa.Approvals.Resolve.{resolve_once}
use fastapi_langgraph_templa.Api.Runs.{success}
use fastapi_langgraph_templa.Api.Approvals.{approve, reject, answered}

shown_row : (r : Resolution) (a : ApprovalRow) → answered r ≡ success a → r ≡ row a
shown_row (row b) a h = cc
shown_row not_found a h = cc
shown_row missing_run a h = cc
shown_row bad_status a h = cc

-- Once an approval was approved through the API (or was found to be resolved or expired), a later
-- rejection through the API is answered with the same row and changes nothing.
reject-approve :
    (job_id job_id' : String) (now later : ℕ) (id : String) (by by' : Resolver) (db : Db)
    (a : ApprovalRow)
    → (approve job_id now id by db).1 ≡ success a
    → reject job_id' later id by' (approve job_id now id by db).0
      ≡ ((approve job_id now id by db).0, success a)
unfolding approve reject
reject-approve job_id job_id' now later id by by' db a h =
    ap (λ (x : Db × Resolution). (x.0, answered x.1))
      (resolve_once job_id job_id' now later id ApprovalStatus.approved ApprovalStatus.rejected by
        by' db a refl refl
        (shown_row (resolve_and_enqueue job_id now id ApprovalStatus.approved by db).1 a h))
