-- ===== src/ModelsGateway.antt =====
-- `_normalize_model_error` of app/models_gateway.py, on the name of the exception's class, its
-- status code if it has one that is an integer and not negative, and its text. The words that are
-- looked for have only ASCII letters.
pub mod Retried
pub mod Completion
pub mod Embedding
use fastapi_langgraph_templa.Common.{
  ℕ, String, List, [], ◌∷◌, map, Option, none, some, Bool, true, false, ◌&&◌, ◌||◌, ◌==◌, leb, ltb,
  if◌then◌else◌, any,
}
use fastapi_langgraph_templa.State.{ErrorCategory, NormalizedError}
use fastapi_langgraph_templa.Events.Redact.{codes, lower_code}
use fastapi_langgraph_templa.Catalog.{occurs}

-- `word in name.lower()`
unfoldable pub mentions : String → String → Bool
unfolding occurs lower_code
mentions name word = occurs (codes word) (map lower_code (codes name))

abbrev pub status_in : List ℕ → Option ℕ → Bool
status_in codes none = false
status_in codes (some s) = any (λ c. s == c) codes

abbrev pub is_server_error : Option ℕ → Bool
is_server_error none = false
is_server_error (some s) = leb 500 s && ltb s 600

abbrev pub problem : ErrorCategory → Bool → String → NormalizedError
problem category recoverable message = record {
  category = category;
  message = message;
  recoverable = recoverable;
}

abbrev pub is_timeout : String → Option ℕ → Bool
is_timeout name status = mentions name "timeout" || status_in (408 ∷ 504 ∷ []) status

abbrev pub is_rate_limit : String → Option ℕ → Bool
is_rate_limit name status =
    mentions name "ratelimit" || (mentions name "rate_limit" || status_in (429 ∷ []) status)

abbrev pub is_denied : String → Option ℕ → Bool
is_denied name status =
    mentions name "permission"
    || (mentions name "authentication" || status_in (401 ∷ 403 ∷ []) status)

abbrev pub is_transient : String → Option ℕ → Bool
is_transient name status =
    any (mentions name)
      ("connection" ∷ "serviceunavailable" ∷ "internalserver" ∷ "apiconnection" ∷ [])
    || is_server_error status

-- the chain of tests, on their values
abbrev pub categorize : Bool → Bool → Bool → Bool → String → NormalizedError
categorize true _ _ _ message = problem ErrorCategory.timeout true message
categorize false true _ _ message = problem ErrorCategory.rate_limit true message
categorize false false true _ message = problem ErrorCategory.permission_denied false message
categorize false false false transient message =
    problem ErrorCategory.provider_error transient message

unfoldable pub normalize_model_error : String → Option ℕ → String → NormalizedError
normalize_model_error name status message =
    categorize (is_timeout name status) (is_rate_limit name status) (is_denied name status)
      (is_transient name status) message
