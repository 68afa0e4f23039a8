-- ===== src/RunManager/Failure.antt =====
-- `_classify_failure`, `execution_is_retryable` and `persisted_attempt_status` of
-- app/runtime/run_manager.py, over the exceptions of app/services/errors.py.
use fastapi_langgraph_templa.Common.{
  String, str_eq, str_append, Option, none, some, Bool, true, false, ◌&&◌, ◌||◌, if◌then◌else◌,
}
use fastapi_langgraph_templa.State.{RunStatus, ErrorCategory, same_status}

-- The exceptions that the code tells apart, each with its text.
pub data Exc : Type 0 where
  run_cancelled_error : String → Exc
  graph_recursion_error : String → Exc
  model_call_error : ErrorCategory → Bool → String → Exc
  other_error : String → Exc

abbrev pub is_rate_or_timeout : ErrorCategory → Bool
is_rate_or_timeout ErrorCategory.timeout = true
is_rate_or_timeout ErrorCategory.rate_limit = true
is_rate_or_timeout _ = false

-- status, termination_reason, error
unfoldable pub classify_failure : Exc → RunStatus × String × String
classify_failure (run_cancelled_error message) = (RunStatus.cancelled, "cancelled", message)
classify_failure (graph_recursion_error message) =
    (RunStatus.failed, "max_steps", "recursion limit reached: max_steps exceeded")
classify_failure (model_call_error category recoverable message) =
    if is_rate_or_timeout category
    then (
      RunStatus.failed,
      if recoverable then "model_error:recoverable" else "model_error:fatal",
      message,
    )
    else (RunStatus.failed, "model_error", message)
classify_failure (other_error message) = (RunStatus.failed, "error", message)

unfoldable pub execution_is_retryable : Option String → Bool
execution_is_retryable none = false
execution_is_retryable (some reason) =
    str_eq reason "error" || str_eq reason "model_error:recoverable"

unfoldable pub persisted_attempt_status : RunStatus → Option String → RunStatus
unfolding execution_is_retryable
persisted_attempt_status status reason =
    if same_status status RunStatus.failed && execution_is_retryable reason
    then RunStatus.queued
    else status

-- `s or d`: None and the empty text are false
abbrev pub or_text : Option String → String → String
or_text none d = d
or_text (some s) d = if str_eq s "" then d else s

abbrev pub shown : Option String → String
shown none = "None"
shown (some s) = s

-- the message of JobNotRetryable
unfoldable pub deterministic : Option String → Option String → String
deterministic reason error =
    str_append (shown reason) (str_append ": " (or_text error "deterministic failure"))
