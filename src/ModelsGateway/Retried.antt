-- ===== src/ModelsGateway/Retried.antt =====
-- Which errors of a model call lead to another attempt, by the node that calls the model.
use fastapi_langgraph_templa.Common.{
  ℕ, String, ◌≡◌, refl, sym, ◌∙◌, Option, none, some, Bool, true, false, not, ◌&&◌, ◌||◌, ◌⊎◌, inl,
  inr, ◌↔◌, arith, if◌then◌else◌, Bool-cases,
}
use fastapi_langgraph_templa.State.{RunStatus, queued, failed}
use fastapi_langgraph_templa.Events.Emitter.{Emitter}
use fastapi_langgraph_templa.RunManager
use fastapi_langgraph_templa.RunManager.{verdict}
use fastapi_langgraph_templa.RunManager.Failure.{persisted_attempt_status}
use fastapi_langgraph_templa.RunManager.Attempt.{persisted}
use fastapi_langgraph_templa.ModelsGateway.{
  normalize_model_error, categorize, mentions, is_timeout, is_rate_limit, is_denied, is_transient,
}
use fastapi_langgraph_templa.ModelsGateway.Completion.{ModelResult}
use fastapi_langgraph_templa.Graph.{CompiledGraph}
use fastapi_langgraph_templa.Graph.Routing.{SupervisorDecision}
use fastapi_langgraph_templa.Graph.Runtime.{Node}
use fastapi_langgraph_templa.Graph.Nodes.{NodeEnd, raised, Dependencies}
use fastapi_langgraph_templa.Graph.Nodes.Models.{llm_answered, supervisor_answered}

-- what the execution persists for the Run after the exception of a node, if it raised one
abbrev pub status_after : NodeEnd → Option RunStatus
status_after (raised exc) = some (persisted (RunManager.raised exc))
status_after _ = none

-- by its name or its status code, the exception is a timeout or a rate limit
abbrev pub IsBusy : String → Option ℕ → Type 0
IsBusy name status =
    (mentions name "timeout" ≡ true)
    ⊎ ((mentions name "ratelimit" ≡ true)
        ⊎ ((mentions name "rate_limit" ≡ true)
            ⊎ ((status ≡ some 408) ⊎ ((status ≡ some 504) ⊎ (status ≡ some 429)))))

abbrev is_busy : String → Option ℕ → Bool
is_busy name status = is_timeout name status || is_rate_limit name status

is_busy-IsBusy :
    (name : String) (status : Option ℕ) → is_busy name status ≡ true → IsBusy name status
is_busy-IsBusy name none h = ground arith
is_busy-IsBusy name (some s) h = ground arith

IsBusy-is_busy :
    (name : String) (status : Option ℕ) → IsBusy name status → is_busy name status ≡ true
IsBusy-is_busy name none h = ground arith
IsBusy-is_busy name (some s) h = ground arith

module _ (k : Node) (deps : Dependencies) (compiled : CompiledGraph)
    (r : ModelResult SupervisorDecision) (d : Option SupervisorDecision) (m : Emitter) where
  -- what follows from an error, by the tests that categorize it
  categorized :
      (t l p c : Bool) (message : String)
      → let e = categorize t l p c message in
        (status_after (llm_answered k deps r (some e) m).1
          ≡ some (if t || l then queued else failed))
        × (status_after (supervisor_answered k deps compiled r (some e) d m).1 ≡ some failed)
        × (e.recoverable ≡ (t || (l || (not p && c))))
  unfolding verdict persisted_attempt_status
  categorized true l p c message = (refl, refl, refl)
  categorized false true p c message = (refl, refl, refl)
  categorized false false true c message = (refl, refl, refl)
  categorized false false false c message = (refl, refl, refl)

  -- What follows where a node's model call answers with a normalized error. After that of an llm
  -- node the Run is queued for another attempt exactly if the exception is a timeout or a rate limit
  -- by its name or by one of the status codes 408, 504 and 429, and else it has failed. After any error
  -- of a Supervisor, also after these, the Run has failed. Yet an error of the connection or of the
  -- server, unless it is one of permissions, is marked as recoverable too.
  pub normalized_retried :
      (name : String) (status : Option ℕ) (message : String)
      → let e = normalize_model_error name status message in
        let after_llm = status_after (llm_answered k deps r (some e) m).1 in
        ((after_llm ≡ some queued) ↔ IsBusy name status)
        × ((¬ IsBusy name status) → after_llm ≡ some failed)
        × (status_after (supervisor_answered k deps compiled r (some e) d m).1 ≡ some failed)
        × (is_transient name status ≡ true → is_denied name status ≡ false → e.recoverable ≡ true)
  unfolding normalize_model_error
  normalized_retried name status message =
      let (after, boss, marked) =
        categorized (is_timeout name status) (is_rate_limit name status) (is_denied name status)
          (is_transient name status) message in
      (
        (
          λ again. elim (Bool-cases (is_busy name status)) [
            | inl busy ↦ is_busy-IsBusy name status busy
            | inr idle ↦ cc (rw idle at (sym after ∙ again))
          ],
          λ busy. rw (IsBusy-is_busy name status busy) at after,
        ),
        λ idle. elim (Bool-cases (is_busy name status)) [
          | inl busy ↦ absurd (idle (is_busy-IsBusy name status busy))
          | inr is ↦ rw is at after
        ],
        boss,
        λ transient denied. marked ∙ ground arith,
      )
