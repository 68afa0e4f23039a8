-- ===== src/Graph/Nodes.antt =====
-- app/graph/langgraph_runtime.py: the state of a graph, its patches and what the nodes use. The
-- dict `control` holds nothing but the Supervisor's decision, and `runtime` nothing but the Run's
-- id; a stored decision is read back as it was. `show` stands for `str` on a JSON value, and
-- `upper`, `lower` and `strip` for the methods of str.
pub mod Models
pub mod Capabilities
pub mod Run
pub mod Decided
pub mod Stopped
use Prim.Native.String
use fastapi_langgraph_templa.Common.{
  ℕ, String, str_append, List, [], ◌∷◌, ◌++◌, map, Option, none, some, Bool,
}
use fastapi_langgraph_templa.Common.Table.{or_else}
use fastapi_langgraph_templa.Common.Dict.{lookup, put}
use fastapi_langgraph_templa.State.{ErrorCategory, NormalizedError, EventType}
use fastapi_langgraph_templa.Json.{
  Json, Items, Fields, null, bool, num, text, arr, obj, nil, cons, end, field,
}
use fastapi_langgraph_templa.Schema.{ApprovalRow, Db}
use fastapi_langgraph_templa.Events.Emitter.{Emitter, emit}
use fastapi_langgraph_templa.RunManager.Failure.{Exc, other_error}
use fastapi_langgraph_templa.ModelsGateway.Completion.{Message, ModelRequest, ModelResult}
use fastapi_langgraph_templa.Tools.{ToolResult}
use fastapi_langgraph_templa.Subagent.{SubagentTask}
use fastapi_langgraph_templa.Graph.Routing.{SupervisorDecision}
use fastapi_langgraph_templa.Graph.Runtime.{Node}

-- LangGraphState, and what a node returns of it
pub record GraphState : Type 0 where
  pub messages : List Message
  pub data_ : List (String × Json)
  pub decision : Option SupervisorDecision

abbrev pub Patch : Type 0
Patch = GraphState

-- `{**left, **right}`
unfoldable pub merge_dict : List (String × Json) → List (String × Json) → List (String × Json)
merge_dict left [] = left
merge_dict left ((k, v) ∷ right) = merge_dict (put k v left) right

-- the reducers: `operator.add` and `_merge_dict`
unfoldable pub apply_patch : GraphState → Patch → GraphState
unfolding merge_dict
apply_patch s p = record {
  messages = s.messages ++ p.messages;
  data_ = merge_dict s.data_ p.data_;
  decision = or_else p.decision s.decision;
}

-- how a node ends
pub data NodeEnd : Type 0 where
  patched : Patch → NodeEnd
  interrupted : ApprovalRow → NodeEnd
  raised : Exc → NodeEnd

-- what `execute` gives, awaited: the status and the dict of the result, or an exception
pub data Delegated : Type 0 where
  delegated : String → Json → Delegated
  delegation_failed : String → Delegated

-- what `retrieve` gives, awaited
pub data Retrieved : Type 0 where
  retrieved : ToolResult → Retrieved
  retrieval_failed : String → Retrieved

-- RuntimeDependencies but for the emitter and the tools; `nonce` is the uuid of a call
pub record Dependencies : Type 0 where
  pub gateway : ModelRequest → ModelResult SupervisorDecision
  pub model_name : String
  pub has_registry : Bool
  pub has_approvals : Bool
  pub retriever : Option (String → String → Retrieved)
  pub subagent : Option (SubagentTask → Delegated)
  pub cancel_check : Option (String → Db → Bool)
  pub nonce : String
  pub show : Json → String
  pub upper : String → String
  pub lower : String → String
  pub strip : String → String

-- `deps.emitter.emit(type, run_id, node=node_def.id, payload=...)`
abbrev pub emit_at : Node → EventType → Fields → Emitter → Emitter
emit_at k type payload = emit type k.run_id (some k.node_def.id) (obj payload)

-- a GraphValidationError, which nothing tells apart from other exceptions
abbrev pub invalid : String → NodeEnd
invalid message = raised (other_error message)

abbrev pub data_patch : String → Json → Patch
data_patch key value = record { messages = []; data_ = (key, value) ∷ []; decision = none }

-- the characters of a text, as `list` gives them
abbrev pub text_items : String → Items
text_items String.[] = nil
text_items (String.◌∷◌ c s) = cons (text (String.◌∷◌ c String.[])) (text_items s)

abbrev pub keys : Fields → Items
keys end = nil
keys (field k v fs) = cons (text k) (keys fs)

-- `list(value)`; none is the TypeError
abbrev pub as_list : Json → Option Items
as_list (arr xs) = some xs
as_list (obj fs) = some (keys fs)
as_list (text s) = some (text_items s)
as_list _ = none

abbrev pub snoc : Items → Json → Items
snoc nil x = cons x nil
snoc (cons y ys) x = cons y (snoc ys x)

-- `list(state.get("data", {}).get(key, []))`
abbrev pub existing : String → GraphState → Option Items
existing key s = elim (lookup key s.data_) [ none ↦ some nil | some value ↦ as_list value ]

-- `{"data": {key: [*existing, result]}}`
abbrev pub appended : String → Json → Option Items → NodeEnd
appended key result none = invalid "object is not iterable"
appended key result (some items) = patched (data_patch key (arr (snoc items result)))

abbrev pub category_value : ErrorCategory → String
category_value ErrorCategory.validation_error = "validation_error"
category_value ErrorCategory.timeout = "timeout"
category_value ErrorCategory.rate_limit = "rate_limit"
category_value ErrorCategory.permission_denied = "permission_denied"
category_value ErrorCategory.provider_error = "provider_error"
category_value ErrorCategory.tool_error = "tool_error"
category_value ErrorCategory.rag_error = "rag_error"
category_value ErrorCategory.subagent_error = "subagent_error"
category_value ErrorCategory.internal_error = "internal_error"
category_value ErrorCategory.category_cancelled = "cancelled"

abbrev pub dump_error : Option NormalizedError → Json
dump_error none = null
dump_error (some e) = obj (
    field "category" (text (category_value e.category))
      (field "message" (text e.message) (field "recoverable" (bool e.recoverable) end)))

abbrev pub or_null : Option Json → Json
or_null none = null
or_null (some v) = v

-- `result.model_dump()` of a ToolResult
abbrev pub dump_result : ToolResult → Json
dump_result r = obj (
    field "success" (bool r.success)
      (field "data" (or_null r.data_) (field "error" (dump_error r.error) end)))
