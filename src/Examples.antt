-- ===== src/Examples.antt =====
-- The rows that the examples use.
mod Jobs
mod Runs
mod Approvals
mod Graphs
mod Services
mod Streams
mod Nodes
mod Knowledge
mod Tools
use fastapi_langgraph_templa.Common.{ℕ, String, List, [], ◌∷◌, none, some}
use fastapi_langgraph_templa.State.{RunStatus, queued, EventType, ApprovalStatus}
use fastapi_langgraph_templa.Json.{Fields, null, end, obj}
use fastapi_langgraph_templa.Schema.{RunRow, JobRow, ApprovalRow, Db}
use fastapi_langgraph_templa.Events.{RuntimeEvent}
use fastapi_langgraph_templa.Worker.{WorkerConfig, new_job}

abbrev pub ann : WorkerConfig
ann = record { worker_id = "ann"; lease_seconds = 60; retry_delay_seconds = 2 }

abbrev pub bob : WorkerConfig
bob = record { worker_id = "bob"; lease_seconds = 60; retry_delay_seconds = 2 }

abbrev pub run_in : RunStatus → RunRow
run_in s = record {
  id = "r1";
  session_id = "s1";
  status = s;
  graph_name = "g";
  graph_version = "1";
  graph_definition_hash = none;
  graph_snapshot = none;
  model_decision = none;
  input_text = "hello";
  output_text = none;
  error = none;
  termination_reason = none;
  created_at = 5;
  updated_at = 5;
}

abbrev pub job1 : JobRow
job1 = new_job "j1" "r1" end 5

abbrev pub job2 : JobRow
job2 = new_job "j2" "r1" end 6

abbrev pub event_of : EventType → RuntimeEvent
event_of t = record { seq = 0; type = t; run_id = "r1"; node = none; payload = obj end }

abbrev pub pending1 : ApprovalRow
pending1 = record {
  id = "a1";
  run_id = "r1";
  node_id = "n1";
  action = "invoke_tool";
  action_id = some "x1";
  tool_name = some "calculator";
  canonical_arguments = some null;
  arguments_hash = none;
  status = ApprovalStatus.pending;
  details = null;
  created_at = 6;
  resolved_at = none;
  resolved_by = none;
  reason = none;
  expires_at = some 100;
}

-- one Run in a state, with its jobs
abbrev pub db_with : RunStatus → List JobRow → Db
db_with s jobs = record {
  sessions = [];
  runs = run_in s ∷ [];
  jobs = jobs;
  events = [];
  approvals = pending1 ∷ [];
}
