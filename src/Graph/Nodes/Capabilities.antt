-- ===== src/Graph/Nodes/Capabilities.antt =====
-- `_run_tool`, `_run_rag`, `_run_subagent` and `_run_approval` of app/graph/langgraph_runtime.py.
-- Where the code takes the items of a list or a key of the configuration as text, a value that is
-- none is read by `show`.
use fastapi_langgraph_templa.Common.{
  ℕ, String, str_eq, List, [], ◌∷◌, Option, none, some, if◌then◌else◌,
}
use fastapi_langgraph_templa.State.{EventType}
use fastapi_langgraph_templa.Json.{
  Json, Items, Fields, null, text, obj, bool, nil, cons, end, field,
}
use fastapi_langgraph_templa.Schema.{ApprovalRow, Db}
use fastapi_langgraph_templa.Events.Emitter.{Emitter}
use fastapi_langgraph_templa.RunManager.Failure.{other_error}
use fastapi_langgraph_templa.Subagent.{SubagentTask}
use fastapi_langgraph_templa.Graph.Validator.{get_field}
use fastapi_langgraph_templa.Graph.Routing.{SupervisorDecision, action_text}
use fastapi_langgraph_templa.Graph.Runtime.{
  Node, ToolEnd, paused, done, failed, Gate, decided, bad_config, action_id, require_approval,
  run_tool, arguments_of, or_else_text, or_blank, non_blank,
}
use fastapi_langgraph_templa.Graph.Runtime
use fastapi_langgraph_templa.Graph.Nodes.{
  GraphState, NodeEnd, interrupted, raised, Dependencies, Delegated, delegated, delegation_failed,
  Retrieved, retrieved, retrieval_failed, emit_at, invalid, existing, appended, as_list,
  dump_result,
}
use fastapi_langgraph_templa.Graph.Nodes.Models.{last_content, shown_or}

abbrev pub tool_ended : GraphState → ToolEnd → NodeEnd
tool_ended s (paused a) = interrupted a
tool_ended s (failed message) = invalid message
tool_ended s (done r) = appended "tool_results" (dump_result r) (existing "tool_results" s)

unfoldable pub run_tool_node :
    Node → Dependencies → String → ℕ → GraphState → Emitter → Db → Emitter × Db × NodeEnd
run_tool_node k deps id now s m db =
    let (m', db', ended) = run_tool k deps.has_approvals id now s.decision m db in
    if deps.has_registry
    then (m', db', tool_ended s ended)
    else (m, db, invalid "ToolRegistry not configured")

-- a value as text; the empty text where there is none
abbrev pub text_or_blank : Dependencies → Option Json → String
text_or_blank deps value = shown_or deps "" value

-- `(decision.input or {}).get("query", "")`, or the last message
abbrev pub query_of : Dependencies → SupervisorDecision → GraphState → String
query_of deps d s =
    let query = text_or_blank deps (get_field "query" (arguments_of d.input)) in
    if str_eq query "" then last_content s.messages else query

abbrev pub knowledge_base_of : Node → Dependencies → SupervisorDecision → String
knowledge_base_of k deps d = or_blank (
    or_else_text d.knowledge_base_id
      (some (text_or_blank deps (get_field "knowledge_base_id" k.node_def.config))))

abbrev pub rag_ended : Node → GraphState → Retrieved → Emitter → Emitter × NodeEnd
rag_ended k s (retrieval_failed message) m = (m, raised (other_error message))
rag_ended k s (retrieved r) m = (
  emit_at k EventType.rag_completed (field "success" (bool r.success) end) m,
  appended "rag_results" (dump_result r) (existing "rag_results" s),
)

abbrev pub rag_decided :
    Node
    → Dependencies
    → (String → String → Retrieved)
    → GraphState
    → Option SupervisorDecision
    → Emitter
    → Emitter × NodeEnd
rag_decided k deps retrieve s none m = (m, invalid "capability invoked without SupervisorDecision")
rag_decided k deps retrieve s (some d) m =
    rag_ended k s (retrieve (knowledge_base_of k deps d) (query_of deps d s))
      (emit_at k EventType.rag_started end m)

abbrev pub rag_with :
    Node
    → Dependencies
    → Option (String → String → Retrieved)
    → GraphState
    → Emitter
    → Emitter × NodeEnd
rag_with k deps none s m = (m, raised (other_error "Retriever not configured"))
rag_with k deps (some retrieve) s m = rag_decided k deps retrieve s s.decision m

unfoldable pub run_rag : Node → Dependencies → GraphState → Emitter → Emitter × NodeEnd
run_rag k deps s m = rag_with k deps deps.retriever s m

abbrev pub texts : Dependencies → Items → List String
texts deps nil = []
texts deps (cons (text t) xs) = t ∷ texts deps xs
texts deps (cons x xs) = deps.show x ∷ texts deps xs

-- `list(value)` of an optional value; the outer none is the TypeError
abbrev pub texts_in : Dependencies → Option Json → Option (List String)
texts_in deps none = some []
texts_in deps (some value) = elim (as_list value) [ none ↦ none | some xs ↦ some (texts deps xs) ]

abbrev pub first_some : Option Json → Option Json → Option Json
first_some none b = b
first_some (some a) b = some a

-- `expected_output_schema=config.get(...)`: null is None
abbrev pub not_null : Option Json → Option Json
not_null (some null) = none
not_null o = o

abbrev pub task_of :
    Node → Dependencies → Fields → Option (List String) → Option (List String) → Option SubagentTask
task_of k deps task_input (some selected_context) (some allowed_tools) = some (record {
  task =
      text_or_blank deps
        (first_some (get_field "task" task_input) (get_field "task" k.node_def.config));
  selected_context = selected_context;
  allowed_tools = allowed_tools;
  expected_output_schema = not_null (get_field "expected_output_schema" k.node_def.config);
  template = shown_or deps "react" (get_field "template" k.node_def.config);
})
task_of k deps task_input _ _ = none

abbrev pub subagent_ended : Node → GraphState → Delegated → Emitter → Emitter × NodeEnd
subagent_ended k s (delegation_failed message) m = (m, raised (other_error message))
subagent_ended k s (delegated status result) m = (
  emit_at k EventType.subagent_completed (field "status" (text status) end) m,
  appended "subagent_results" result (existing "subagent_results" s),
)

abbrev pub subagent_tasked :
    Node
    → (SubagentTask → Delegated)
    → GraphState
    → Option SubagentTask
    → Emitter
    → Emitter × NodeEnd
subagent_tasked k execute s none m = (m, invalid "object is not iterable")
subagent_tasked k execute s (some task) m =
    subagent_ended k s (execute task) (emit_at k EventType.subagent_started end m)

abbrev pub subagent_decided :
    Node
    → Dependencies
    → (SubagentTask → Delegated)
    → GraphState
    → Option SupervisorDecision
    → Emitter
    → Emitter × NodeEnd
subagent_decided k deps execute s none m =
    (m, invalid "capability invoked without SupervisorDecision")
subagent_decided k deps execute s (some d) m =
    let task_input = arguments_of d.input in
    subagent_tasked k execute s
      (task_of k deps task_input (texts_in deps (get_field "selected_context" task_input))
        (texts_in deps (get_field "allowed_tools" k.node_def.config)))
      m

abbrev pub subagent_with :
    Node
    → Dependencies
    → Option (SubagentTask → Delegated)
    → GraphState
    → Emitter
    → Emitter × NodeEnd
subagent_with k deps none s m = (m, raised (other_error "SubagentExecutor not configured"))
subagent_with k deps (some execute) s m = subagent_decided k deps execute s s.decision m

unfoldable pub run_subagent : Node → Dependencies → GraphState → Emitter → Emitter × NodeEnd
run_subagent k deps s m = subagent_with k deps deps.subagent s m

-- the decision of a human, with the approval that it answers
abbrev pub approval_result : Node → Fields → ApprovalRow → String → Json
approval_result k arguments a decision = obj (
    field "approval_id" (text a.id) (
      field "action_id" (text (action_id k.canonical_hash k.run_id k.node_def arguments))
        (field "decision" (text decision) end)))

abbrev pub approval_ended : Node → GraphState → Fields → Gate → NodeEnd
approval_ended k s arguments (Runtime.interrupted a) = interrupted a
approval_ended k s arguments bad_config = invalid "expires_in"
approval_ended k s arguments (decided a decision) =
    appended "approval_results" (approval_result k arguments a decision)
      (existing "approval_results" s)

abbrev pub approval_decided :
    Node → Dependencies → String → ℕ → GraphState → Option SupervisorDecision → Db → Db × NodeEnd
approval_decided k deps id now s none db =
    (db, invalid "capability invoked without SupervisorDecision")
approval_decided k deps id now s (some d) db =
    let arguments = arguments_of d.input in
    let (db', gate) =
      require_approval k id now
        (shown_or deps (action_text d.action) (get_field "action" k.node_def.config)) d.tool_name
        arguments db in
    (db', approval_ended k s arguments gate)

unfoldable pub run_approval : Node → Dependencies → String → ℕ → GraphState → Db → Db × NodeEnd
run_approval k deps id now s db =
    let (db', ended) = approval_decided k deps id now s s.decision db in
    if deps.has_approvals then (db', ended) else (db, invalid "ApprovalRepository not configured")
