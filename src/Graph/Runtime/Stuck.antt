-- ===== src/Graph/Runtime/Stuck.antt =====
-- A fresh execution that comes to a sensitive action whose approval is resolved already.
use fastapi_langgraph_templa.Common.{ℕ, String, str_append, ◌≡◌, refl, none, some, true, false}
use fastapi_langgraph_templa.Common.Table.{find}
use fastapi_langgraph_templa.State.{ApprovalStatus, is_pending, is_resolution}
use fastapi_langgraph_templa.Json.{Fields}
use fastapi_langgraph_templa.Schema.{ApprovalRow, Db, approval_by_id}
use fastapi_langgraph_templa.Approvals.{has_action_id, Resolver, resolve_and_enqueue, row}
use fastapi_langgraph_templa.Approvals.Asked.{create_pending-there}
use fastapi_langgraph_templa.Approvals.Resolve.{settled_same}
use fastapi_langgraph_templa.Graph.Validator.{get_field}
use fastapi_langgraph_templa.Graph.Runtime.{
  Node, action_id, pending_action, expires_in, tool_requires_approval, call_tool, require_approval,
  paused,
}

-- the call of a sensitive tool asks for the approval that is there, and waits for it
called_again :
    (k : Node) (id : String) (now seconds : ℕ) (tool_name : String) (arguments : Fields) (db : Db)
    (a : ApprovalRow)
    → tool_requires_approval k.registry tool_name ≡ true
    → expires_in k.parse_int (get_field "expires_in" k.node_def.config) ≡ some seconds
    → k.resumed ≡ none
    → find (has_action_id (action_id k.canonical_hash k.run_id k.node_def arguments)) db.approvals
      ≡ some a
    → call_tool k id now tool_name arguments db ≡ (db, paused a)
unfolding call_tool require_approval
called_again k id now seconds tool_name arguments db a risky within first there =
    let again =
      create_pending-there k.canonical_hash id now
        (pending_action k now seconds (str_append "tool:" tool_name) (some tool_name) arguments) db
        a there in
    rw (risky, within, first, again) refl

-- When an execution that was not resumed comes to a sensitive tool (with a number of seconds to
-- expire in) whose approval for the same run, node and arguments is no longer pending, then it is
-- interrupted again, by that same approval, and no other approval is asked for. Resolving the
-- approval, either way and by anyone, then gives the row as it is and changes nothing: no job is
-- queued.
pub resolved_waits_again :
    (k : Node) (id job_id : String) (now seconds later : ℕ) (tool_name : String)
    (arguments : Fields) (status : ApprovalStatus) (by : Resolver) (db : Db) (a : ApprovalRow)
    → tool_requires_approval k.registry tool_name ≡ true
    → expires_in k.parse_int (get_field "expires_in" k.node_def.config) ≡ some seconds
    → k.resumed ≡ none
    → find (has_action_id (action_id k.canonical_hash k.run_id k.node_def arguments)) db.approvals
      ≡ some a
    → approval_by_id a.id db.approvals ≡ some a
    → is_pending a.status ≡ false
    → is_resolution status ≡ true
    → (call_tool k id now tool_name arguments db ≡ (db, paused a))
      × (resolve_and_enqueue job_id later a.id status by db ≡ (db, row a))
resolved_waits_again k id job_id now seconds later tool_name arguments status by db a risky within
      first there own settled ok =
    (
      called_again k id now seconds tool_name arguments db a risky within first there,
      settled_same job_id later a.id status by db a ok own settled,
    )
