-- ===== src/Graph/Nodes/Models.antt =====
-- `_run_llm`, `_run_supervisor` and `_run_transform` of app/graph/langgraph_runtime.py.
use fastapi_langgraph_templa.Common.{
  ℕ, ◌-◌, String, str_eq, str_append, List, [], ◌∷◌, Option, none, some, Bool, true, false,
  if◌then◌else◌, drop, length,
}
use fastapi_langgraph_templa.State.{ErrorCategory, NormalizedError, EventType}
use fastapi_langgraph_templa.Json.{Json, Fields, null, bool, text, end, field}
use fastapi_langgraph_templa.Events.Emitter.{Emitter}
use fastapi_langgraph_templa.RunManager.Failure.{model_call_error}
use fastapi_langgraph_templa.ModelsGateway.Completion.{Message, ModelRequest, ModelResult}
use fastapi_langgraph_templa.Graph.{CompiledGraph}
use fastapi_langgraph_templa.Graph.Validator.{get_field}
use fastapi_langgraph_templa.Graph.Routing.{SupervisorDecision, is_final}
use fastapi_langgraph_templa.Graph.Runtime.{Node, type_text, validate_decision, or_blank}
use fastapi_langgraph_templa.Graph.Nodes.{
  GraphState, Patch, NodeEnd, patched, raised, Dependencies, emit_at, invalid, data_patch,
  category_value,
}

abbrev pub new_call_id : Node → Dependencies → String
new_call_id k deps =
    str_append k.run_id (str_append ":" (str_append k.node_def.id (str_append ":" deps.nonce)))

-- `node_def.config.get("model", deps.model_name)`
abbrev pub configured_model : Node → Dependencies → Json
configured_model k deps = elim (get_field "model" k.node_def.config) [
  | none ↦ text deps.model_name
  | some model ↦ model
]

abbrev pub call_payload : Node → Dependencies → Fields → Fields
call_payload k deps more =
    field "model" (configured_model k deps) (field "call_id" (text (new_call_id k deps)) more)

-- the request; pydantic refuses a model that is no text
abbrev pub request_for : Node → Dependencies → List Message → Bool → Json → Option ModelRequest
request_for k deps messages structured (text model) = some (record {
  model = model;
  messages = messages;
  structured = structured;
  call_id = some (new_call_id k deps);
  metadata = field "run_id" (text k.run_id) (
      field "node_id" (text k.node_def.id)
        (field "node_type" (text (type_text k.node_def.type)) end));
})
request_for k deps messages structured _ = none

abbrev pub system : String → Message
system prompt = record { role = "system"; content = some prompt }

abbrev pub served : Option String → Json
served none = null
served (some model) = text model

unfoldable pub emit_llm_done :
    Node → Dependencies → ModelResult SupervisorDecision → Emitter → Emitter
emit_llm_done k deps r m =
    let payload =
      call_payload k deps
        (field "served_model" (served r.served_model) (field "fallback" (bool r.fallback) end)) in
    let m' = if r.fallback then emit_at k EventType.llm_fallback payload m else m in
    emit_at k EventType.llm_completed payload m'

-- `error.category if error else d`
abbrev pub category_or : ErrorCategory → Option NormalizedError → ErrorCategory
category_or d none = d
category_or d (some e) = e.category

abbrev pub message_or : String → Option NormalizedError → String
message_or d none = d
message_or d (some e) = e.message

abbrev pub llm_failed :
    Node → Dependencies → ErrorCategory → Option NormalizedError → Emitter → Emitter
llm_failed k deps d error =
    emit_at k EventType.llm_failed
      (call_payload k deps (field "category" (text (category_value (category_or d error))) end))

-- `if node_def.prompt`
abbrev pub prompted : Option String → List Message → List Message
prompted none messages = messages
prompted (some prompt) messages = if str_eq prompt "" then messages else system prompt ∷ messages

abbrev pub reply : String → Patch
reply content = record {
  messages = record { role = "assistant"; content = some content } ∷ [];
  data_ = [];
  decision = none;
}

abbrev pub llm_answered :
    Node
    → Dependencies
    → ModelResult SupervisorDecision
    → Option NormalizedError
    → Emitter
    → Emitter × NodeEnd
llm_answered k deps r (some e) m = (
  llm_failed k deps ErrorCategory.provider_error (some e) m,
  raised (model_call_error e.category e.recoverable e.message),
)
llm_answered k deps r none m = (emit_llm_done k deps r m, patched (reply r.content))

abbrev pub llm_called : Node → Dependencies → Option ModelRequest → Emitter → Emitter × NodeEnd
llm_called k deps none m = (m, invalid "model: Input should be a valid string")
llm_called k deps (some request) m = let r = deps.gateway request in llm_answered k deps r r.error m

unfoldable pub run_llm : Node → Dependencies → GraphState → Emitter → Emitter × NodeEnd
unfolding emit_llm_done
run_llm k deps s m =
    llm_called k deps
      (request_for k deps (prompted k.node_def.prompt s.messages) false (configured_model k deps))
      (emit_at k EventType.llm_requested (call_payload k deps end) m)

-- `messages[-n:]`
abbrev pub last : ℕ → List Message → List Message
last n messages = drop (length messages - n) messages

-- `node_def.prompt or d`
abbrev pub prompt_or : String → Option String → String
prompt_or d none = d
prompt_or d (some prompt) = if str_eq prompt "" then d else prompt

abbrev pub decision_patch : SupervisorDecision → Patch
decision_patch d = record {
  messages = [];
  data_ =
      if is_final d.action then ("final_response", text (or_blank d.final_response)) ∷ [] else [];
  decision = some d;
}

abbrev pub decided_or : SupervisorDecision → Option String → NodeEnd
decided_or d (some error) = invalid error
decided_or d none = patched (decision_patch d)

abbrev pub supervisor_refused :
    Node → Dependencies → Option NormalizedError → Emitter → Emitter × NodeEnd
supervisor_refused k deps error m = (
  llm_failed k deps ErrorCategory.validation_error error m,
  raised (
      model_call_error (category_or ErrorCategory.validation_error error) false
        (message_or "invalid supervisor response" error)),
)

-- `not result.success or result.structured is None`
abbrev pub supervisor_answered :
    Node
    → Dependencies
    → CompiledGraph
    → ModelResult SupervisorDecision
    → Option NormalizedError
    → Option SupervisorDecision
    → Emitter
    → Emitter × NodeEnd
supervisor_answered k deps compiled r (some e) d m = supervisor_refused k deps (some e) m
supervisor_answered k deps compiled r none none m = supervisor_refused k deps none m
supervisor_answered k deps compiled r none (some d) m =
    (emit_llm_done k deps r m, decided_or d (validate_decision d compiled))

abbrev pub supervisor_called :
    Node → Dependencies → CompiledGraph → Option ModelRequest → Emitter → Emitter × NodeEnd
supervisor_called k deps compiled none m = (m, invalid "model: Input should be a valid string")
supervisor_called k deps compiled (some request) m =
    let r = deps.gateway request in supervisor_answered k deps compiled r r.error r.structured m

unfoldable pub run_supervisor :
    Node → Dependencies → CompiledGraph → GraphState → Emitter → Emitter × NodeEnd
unfolding emit_llm_done
run_supervisor k deps compiled s m =
    supervisor_called k deps compiled
      (request_for k deps
        (system (prompt_or "Choose the next declared capability or return final." k.node_def.prompt)
          ∷ last 8 s.messages)
        true (configured_model k deps))
      (emit_at k EventType.llm_requested (call_payload k deps end) m)

-- `messages[-1].get("content", "") if messages else ""`
abbrev pub last_content : List Message → String
last_content [] = ""
last_content (x ∷ []) = or_blank x.content
last_content (x ∷ y ∷ ys) = last_content (y ∷ ys)

-- `str(value)`, of the last message where the configuration has none
abbrev pub transform_text : Dependencies → GraphState → Option Json → String
transform_text deps s none = last_content s.messages
transform_text deps s (some null) = last_content s.messages
transform_text deps s (some (text t)) = t
transform_text deps s (some value) = deps.show value

-- `operations[op]`; none where the operation is unknown
abbrev pub operation : Dependencies → String → Option (String → String)
operation deps op =
    if str_eq op "upper"
    then some deps.upper
    else if str_eq op "lower"
    then some deps.lower
    else if str_eq op "strip"
    then some deps.strip
    else none

-- a value of the configuration as text; `d` where it has none
abbrev pub shown_or : Dependencies → String → Option Json → String
shown_or deps d none = d
shown_or deps d (some (text t)) = t
shown_or deps d (some value) = deps.show value

abbrev pub transformed : String → String → String → Option (String → String) → NodeEnd
transformed op output_ref t none = invalid (str_append "unknown transform operation: " op)
transformed op output_ref t (some f) = patched (data_patch output_ref (text (f t)))

unfoldable pub run_transform : Node → Dependencies → GraphState → NodeEnd
run_transform k deps s =
    let op = shown_or deps "strip" (get_field "operation" k.node_def.config) in
    transformed op (shown_or deps k.node_def.id (get_field "output_ref" k.node_def.config))
      (transform_text deps s (get_field "value" k.node_def.config)) (operation deps op)
