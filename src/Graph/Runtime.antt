-- ===== src/Graph/Runtime.antt =====
-- app/graph/langgraph_runtime.py: the route after the Supervisor, and the tool node with its gate
-- for sensitive tools. `canonical_hash` stands for sha256 over the JSON of the arguments,
-- `parse_int` for `int` on a text, `matches` for fnmatch. The first time, `interrupt` raises the
-- interrupt that pauses the Run; when the thread is resumed, the node runs again and `interrupt`
-- returns the decision: `resumed` is that decision, or none.
pub mod Routed
pub mod Sensitive
pub mod Stuck
use fastapi_langgraph_templa.Common.{
  ℕ, ◌+◌, String, str_eq, str_append, List, [], ◌∷◌, map, Option, none, some, Bool, true, false,
  not, ◌&&◌, if◌then◌else◌, filter,
}
use fastapi_langgraph_templa.Common.Dict.{lookup}
use fastapi_langgraph_templa.State.{EventType, ErrorCategory}
use fastapi_langgraph_templa.Json.{Json, Fields, null, bool, num, text, arr, obj, end, field}
use fastapi_langgraph_templa.Schema.{ApprovalRow, Db}
use fastapi_langgraph_templa.Events.Emitter.{Emitter, emit}
use fastapi_langgraph_templa.Approvals.{PendingAction, create_pending}
use fastapi_langgraph_templa.Tools.{
  ToolDef, ToolRisk, read, write, sensitive, ToolRegistry, ToolResult, fail, Invocation, not_found,
  not_permitted, result, ainvoke,
}
use fastapi_langgraph_templa.Graph.{NodeType, NodeDef, CompiledGraph, is_capability}
use fastapi_langgraph_templa.Graph.Validator.{get_field}
use fastapi_langgraph_templa.Graph.Routing.{SupervisorDecision, Action, action_text, is_final}

-- the value of the member of NodeType
abbrev pub type_text : NodeType → String
type_text NodeType.llm = "llm"
type_text NodeType.supervisor = "supervisor"
type_text NodeType.tool = "tool"
type_text NodeType.rag = "rag"
type_text NodeType.subagent = "subagent"
type_text NodeType.approval = "approval"
type_text NodeType.transform = "transform"

-- `a or b` of optional texts
abbrev pub or_else_text : Option String → Option String → Option String
or_else_text none b = b
or_else_text (some a) b = if str_eq a "" then b else some a

-- `selected_node_id` of app/core/state.py
abbrev pub selected_node_id : SupervisorDecision → Option String
selected_node_id d = or_else_text d.capability_node_id d.target

abbrev pub or_blank : Option String → String
or_blank none = ""
or_blank (some s) = s

-- a GraphValidationError, or nothing
abbrev pub check_selected : SupervisorDecision → Option NodeDef → Option String
check_selected d none = some "Supervisor selected unknown capability node"
check_selected d (some n) =
    if str_eq (type_text n.type) (action_text d.action)
    then none
    else some "Supervisor action does not match the type of the node"

unfoldable pub validate_decision : SupervisorDecision → CompiledGraph → Option String
validate_decision d compiled =
    if is_final d.action
    then none
    else check_selected d (lookup (or_blank (selected_node_id d)) compiled.node_map)

-- `"__end__"`, a node, or a GraphValidationError
pub data Route : Type 0 where
  ended : Route
  to_node : String → Route
  no_route : String → Route

abbrev pub route_checked : Option String → Option String → Route
route_checked node_id (some error) = no_route error
route_checked none none = to_node "None"
route_checked (some node_id) none = to_node node_id

unfoldable pub supervisor_route : CompiledGraph → Option SupervisorDecision → Route
unfolding validate_decision
supervisor_route compiled none = no_route "capability invoked without SupervisorDecision"
supervisor_route compiled (some d) =
    if is_final d.action
    then ended
    else route_checked (selected_node_id d) (validate_decision d compiled)

abbrev pub is_sensitive_risk : ToolRisk → Bool
is_sensitive_risk sensitive = true
is_sensitive_risk _ = false

unfoldable pub tool_requires_approval : ToolRegistry → String → Bool
tool_requires_approval r tool_name = elim (lookup tool_name r.tools) [
  | none ↦ false
  | some t ↦ is_sensitive_risk t.risk
]

-- `int(node_def.config.get("expires_in", 3600))`; none is its exception
abbrev pub expires_in : (String → Option ℕ) → Option Json → Option ℕ
expires_in parse_int none = some 3600
expires_in parse_int (some (num n)) = some n
expires_in parse_int (some (bool true)) = some 1
expires_in parse_int (some (bool false)) = some 0
expires_in parse_int (some (text s)) = parse_int s
expires_in parse_int (some _) = none

abbrev pub action_id : (Json → String) → String → NodeDef → Fields → String
action_id canonical_hash run_id n arguments =
    str_append run_id
      (str_append ":" (str_append n.id (str_append ":" (canonical_hash (obj arguments)))))

-- how `_require_approval` ends: interrupted, with a decision, or with an exception
pub data Gate : Type 0 where
  interrupted : ApprovalRow → Gate
  decided : ApprovalRow → String → Gate
  bad_config : Gate

-- the arguments that do not change within a node
pub record Node : Type 0 where
  pub matches : String → String → Bool
  pub canonical_hash : Json → String
  pub parse_int : String → Option ℕ
  pub registry : ToolRegistry
  pub run_id : String
  pub node_def : NodeDef
  pub resumed : Option String

abbrev pub pending_action : Node → ℕ → ℕ → String → Option String → Fields → PendingAction
pending_action k now seconds action tool_name arguments = record {
  action_id = action_id k.canonical_hash k.run_id k.node_def arguments;
  run_id = k.run_id;
  node_id = k.node_def.id;
  action = action;
  tool_name = tool_name;
  canonical_arguments = obj arguments;
  risk = "sensitive";
  expires_at = now + seconds;
}

abbrev pub gate_of : ApprovalRow → Option String → Gate
gate_of a none = interrupted a
gate_of a (some decision) = decided a decision

abbrev pub require_within :
    Node → String → ℕ → String → Option String → Fields → Option ℕ → Db → Db × Gate
require_within k id now action tool_name arguments none db = (db, bad_config)
require_within k id now action tool_name arguments (some seconds) db =
    let (db', a) =
      create_pending k.canonical_hash id now
        (pending_action k now seconds action tool_name arguments) db in
    (db', gate_of a k.resumed)

unfoldable pub require_approval :
    Node → String → ℕ → String → Option String → Fields → Db → Db × Gate
require_approval k id now action tool_name arguments db =
    require_within k id now action tool_name arguments
      (expires_in k.parse_int (get_field "expires_in" k.node_def.config)) db

-- how the tool node ends: interrupted, with a result, or with an exception
pub data ToolEnd : Type 0 where
  paused : ApprovalRow → ToolEnd
  done : ToolResult → ToolEnd
  failed : String → ToolEnd

abbrev pub invoked : Invocation → ToolEnd
invoked (not_found message) = failed message
invoked (not_permitted message) = failed message
invoked (result r) = done r

abbrev pub refused : String → ToolResult
refused tool_name =
    fail ErrorCategory.permission_denied
      (str_append "sensitive tool '" (str_append tool_name "' was not approved"))

abbrev pub after_gate : Node → String → Fields → Gate → ToolEnd
after_gate k tool_name arguments (interrupted a) = paused a
after_gate k tool_name arguments bad_config = failed "expires_in"
after_gate k tool_name arguments (decided a decision) =
    if str_eq decision "approved"
    then invoked (ainvoke k.matches k.registry tool_name arguments)
    else done (refused tool_name)

-- the body of the span: the tool, behind the gate if it is sensitive
unfoldable pub call_tool : Node → String → ℕ → String → Fields → Db → Db × ToolEnd
unfolding require_approval
call_tool k id now tool_name arguments db =
    let (db', gate) =
      require_approval k id now (str_append "tool:" tool_name) (some tool_name) arguments db in
    if tool_requires_approval k.registry tool_name
    then (db', after_gate k tool_name arguments gate)
    else (db, invoked (ainvoke k.matches k.registry tool_name arguments))

abbrev pub text_of : Option Json → Option String
text_of (some (text s)) = some s
text_of _ = none

abbrev pub arguments_of : Option Fields → Fields
arguments_of none = end
arguments_of (some fs) = fs

-- `tool_completed` only where the span ends with a result
abbrev pub complete_tool : Node → String → ToolEnd → Emitter → Emitter
complete_tool k tool_name (done r) m =
    emit EventType.tool_completed k.run_id (some k.node_def.id)
      (obj (field "tool" (text tool_name) (field "success" (bool r.success) end))) m
complete_tool k tool_name _ m = m

-- a sensitive tool, for which `_require_approval` first looks for the ApprovalRepository
abbrev pub call_gated : Node → Bool → String → ℕ → String → Fields → Db → Db × ToolEnd
call_gated k has_approvals id now tool_name arguments db =
    let (db', tool_end) = call_tool k id now tool_name arguments db in
    if tool_requires_approval k.registry tool_name && not has_approvals
    then (db, failed "ApprovalRepository not configured")
    else (db', tool_end)

abbrev pub run_named :
    Node → Bool → String → ℕ → Fields → Option String → Emitter → Db → Emitter × Db × ToolEnd
run_named k has_approvals id now arguments none m db =
    (m, db, failed "Supervisor did not select a tool resource")
run_named k has_approvals id now arguments (some tool_name) m db =
    let m' =
      emit EventType.tool_started k.run_id (some k.node_def.id)
        (obj (field "tool" (text tool_name) end)) m in
    let (db', tool_end) = call_gated k has_approvals id now tool_name arguments db in
    (complete_tool k tool_name tool_end m', db', tool_end)

abbrev pub non_blank : Option String → Option String
non_blank none = none
non_blank (some s) = if str_eq s "" then none else some s

-- the tool of the decision, or else that of the configuration (a text)
unfoldable pub run_tool :
    Node → Bool → String → ℕ → Option SupervisorDecision → Emitter → Db → Emitter × Db × ToolEnd
unfolding call_tool
run_tool k has_approvals id now none m db =
    (m, db, failed "capability invoked without SupervisorDecision")
run_tool k has_approvals id now (some d) m db =
    run_named k has_approvals id now (arguments_of d.input)
      (non_blank (or_else_text d.tool_name (text_of (get_field "tool" k.node_def.config)))) m db
