-- ===== src/State.antt =====
-- app/core/state.py and app/capabilities/approval.py: the enumerations of the runtime. A member of
-- a StrEnum is the constructor.
use fastapi_langgraph_templa.Common.{String, Bool, true, false}

pub data RunStatus : Type 0 where
  queued running paused completed failed cancelled : RunStatus

-- `status in TERMINAL_RUN_STATUSES`
abbrev pub is_terminal : RunStatus → Bool
is_terminal completed = true
is_terminal failed = true
is_terminal cancelled = true
is_terminal _ = false

-- equality of two members
abbrev pub same_status : RunStatus → RunStatus → Bool
same_status queued queued = true
same_status running running = true
same_status paused paused = true
same_status completed completed = true
same_status failed failed = true
same_status cancelled cancelled = true
same_status _ _ = false

pub data EventType : Type 0 where
  run_started run_attempt_failed model_resolved : EventType
  llm_requested llm_completed llm_failed llm_fallback llm_retrying : EventType
  node_started node_completed llm_token : EventType
  tool_started tool_completed rag_started rag_completed : EventType
  subagent_started subagent_completed approval_required checkpoint_created : EventType
  run_completed run_failed run_cancelled : EventType

-- the text that the member is stored as
abbrev pub event_value : EventType → String
event_value run_started = "run.started"
event_value run_attempt_failed = "run.attempt_failed"
event_value model_resolved = "model.resolved"
event_value llm_requested = "llm.requested"
event_value llm_completed = "llm.completed"
event_value llm_failed = "llm.failed"
event_value llm_fallback = "llm.fallback"
event_value llm_retrying = "llm.retrying"
event_value node_started = "node.started"
event_value node_completed = "node.completed"
event_value llm_token = "llm.token"
event_value tool_started = "tool.started"
event_value tool_completed = "tool.completed"
event_value rag_started = "rag.started"
event_value rag_completed = "rag.completed"
event_value subagent_started = "subagent.started"
event_value subagent_completed = "subagent.completed"
event_value approval_required = "approval.required"
event_value checkpoint_created = "checkpoint.created"
event_value run_completed = "run.completed"
event_value run_failed = "run.failed"
event_value run_cancelled = "run.cancelled"

-- `category_cancelled` is the member `cancelled`.
pub data ErrorCategory : Type 0 where
  validation_error timeout rate_limit permission_denied provider_error : ErrorCategory
  tool_error rag_error subagent_error internal_error category_cancelled : ErrorCategory

pub record NormalizedError : Type 0 where
  pub category : ErrorCategory
  pub message : String
  pub recoverable : Bool

pub data ApprovalStatus : Type 0 where
  pending approved rejected expired : ApprovalStatus

abbrev pub is_pending : ApprovalStatus → Bool
is_pending pending = true
is_pending _ = false

-- `status in {ApprovalStatus.approved, ApprovalStatus.rejected}`
abbrev pub is_resolution : ApprovalStatus → Bool
is_resolution approved = true
is_resolution rejected = true
is_resolution _ = false
