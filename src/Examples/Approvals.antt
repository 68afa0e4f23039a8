-- ===== src/Examples/Approvals.antt =====
-- The theorems on approvals at concrete rows.

use fastapi_langgraph_templa.Common.{◌≡◌, refl, String, [], ◌∷◌, none, some}
use fastapi_langgraph_templa.State.{ApprovalStatus, paused}
use fastapi_langgraph_templa.Json.{Json, null}
use fastapi_langgraph_templa.Schema.{approval_by_id}
use fastapi_langgraph_templa.Approvals.{PendingAction, Resolver, resolve, row, resolve_and_enqueue}
use fastapi_langgraph_templa.Approvals.Resolve.{resolve_once}
use fastapi_langgraph_templa.Approvals.Decided.{resolve-IsDecided, IsLate, IsDecided, IsRequeued}
use fastapi_langgraph_templa.Schema.{ApprovalRow}
use fastapi_langgraph_templa.Api.Runs.{success}
use fastapi_langgraph_templa.Api.Approvals.{approve}
use fastapi_langgraph_templa.Examples.{db_with, pending1, run_in}

abbrev action1 : PendingAction
action1 = record {
  action_id = "x2";
  run_id = "r1";
  node_id = "n1";
  action = "invoke_tool";
  tool_name = some "calculator";
  canonical_arguments = null;
  risk = "dangerous";
  expires_at = 50;
}

abbrev same_hash : Json → String
same_hash _ = "h"

abbrev eve : Resolver
eve = record { resolved_by = "eve"; reason = none }

first_resolved :
    (resolve_and_enqueue "j9" 20 "a1" ApprovalStatus.approved eve (db_with paused [])).1
    ≡ row (resolve ApprovalStatus.approved eve 20 pending1)
unfolding resolve_and_enqueue
first_resolved = refl

resolve_once_example :
    resolve_and_enqueue "j10" 30 "a1" ApprovalStatus.rejected eve
      (resolve_and_enqueue "j9" 20 "a1" ApprovalStatus.approved eve (db_with paused [])).0
    ≡ (
      (resolve_and_enqueue "j9" 20 "a1" ApprovalStatus.approved eve (db_with paused [])).0,
      row (resolve ApprovalStatus.approved eve 20 pending1),
    )
resolve_once_example =
    resolve_once "j9" "j10" 20 30 "a1" ApprovalStatus.approved ApprovalStatus.rejected eve eve
      (db_with paused []) (resolve ApprovalStatus.approved eve 20 pending1) refl refl first_resolved

resolve-IsDecided_example :
    let (after, result) =
      resolve_and_enqueue "j9" 20 "a1" ApprovalStatus.approved eve (db_with paused []) in
    (b : ApprovalRow) × (result ≡ row b)
    × (approval_by_id "a1" after.approvals ≡ some b)
    × (IsLate pending1 20
        → (b.status ≡ ApprovalStatus.expired)
          × (after.jobs ≡ [])
          × (after.runs ≡ run_in paused ∷ []))
    × ((¬ IsLate pending1 20)
        → IsDecided ApprovalStatus.approved eve 20 pending1 b
          × IsRequeued "j9" (run_in paused) (db_with paused []) after "r1")
resolve-IsDecided_example =
    resolve-IsDecided "j9" 20 "a1" ApprovalStatus.approved eve (db_with paused []) pending1
      (run_in paused) refl refl refl refl

first_approved :
    (approve "j9" 20 "a1" eve (db_with paused [])).1
    ≡ success (resolve ApprovalStatus.approved eve 20 pending1)
unfolding approve resolve_and_enqueue
first_approved = refl
