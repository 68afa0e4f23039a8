-- ===== src/Schema.antt =====
-- app/models/db.py: the rows of the tables, and the database as the tables together. A time is a
-- number of seconds. The column `created_at` of a row without a use in any query is left out, and
-- so are columns that no operation writes (`team_id`, `step_count`).
use fastapi_langgraph_templa.Common.{ℕ, String, Option, List, str_eq}
use fastapi_langgraph_templa.Common.Table.{find}
use fastapi_langgraph_templa.State.{RunStatus, EventType, ApprovalStatus}
use fastapi_langgraph_templa.Json.{Json, Fields}

pub record SessionRow : Type 0 where
  pub id : String

pub record RunRow : Type 0 where
  pub id : String
  pub session_id : String
  pub status : RunStatus
  pub graph_name : String
  pub graph_version : String
  pub graph_definition_hash : Option String
  pub graph_snapshot : Option Json
  pub model_decision : Option Json
  pub input_text : String
  pub output_text : Option String
  pub error : Option String
  pub termination_reason : Option String
  pub created_at : ℕ
  pub updated_at : ℕ

pub data JobStatus : Type 0 where
  queued running retry_wait completed failed : JobStatus

pub record JobRow : Type 0 where
  pub id : String
  pub run_id : String
  pub status : JobStatus
  pub lease_owner : Option String
  pub lease_expires_at : Option ℕ
  pub heartbeat_at : Option ℕ
  pub attempt_count : ℕ
  pub max_attempts : ℕ
  pub next_attempt_at : Option ℕ
  pub claimed_at : Option ℕ
  pub finished_at : Option ℕ
  pub error : Option String
  pub trace_context : Fields
  pub created_at : ℕ

pub record EventRow : Type 0 where
  pub id : String
  pub seq : ℕ
  pub run_id : String
  pub type : EventType
  pub node : Option String
  pub payload : Json

pub record ApprovalRow : Type 0 where
  pub id : String
  pub run_id : String
  pub node_id : String
  pub action : String
  pub action_id : Option String
  pub tool_name : Option String
  pub canonical_arguments : Option Json
  pub arguments_hash : Option String
  pub status : ApprovalStatus
  pub details : Json
  pub created_at : ℕ
  pub resolved_at : Option ℕ
  pub resolved_by : Option String
  pub reason : Option String
  pub expires_at : Option ℕ

pub record Db : Type 0 where
  pub sessions : List SessionRow
  pub runs : List RunRow
  pub jobs : List JobRow
  pub events : List EventRow
  pub approvals : List ApprovalRow

-- SELECT by primary key
abbrev pub run_by_id : String → List RunRow → Option RunRow
run_by_id k = find (λ r. str_eq r.id k)

abbrev pub job_by_id : String → List JobRow → Option JobRow
job_by_id k = find (λ j. str_eq j.id k)

abbrev pub approval_by_id : String → List ApprovalRow → Option ApprovalRow
approval_by_id k = find (λ a. str_eq a.id k)
