-- ===== src/Graph/Runtime/Sensitive.antt =====
-- The gate of sensitive tools.
use fastapi_langgraph_templa.Common.{
  ℕ, String, str_eq, str_append, eq_iff, ◌≡◌, ◌≢◌, refl, none, some, true, Bool-cases, inl, inr,
}
use fastapi_langgraph_templa.Json.{Fields}
use fastapi_langgraph_templa.Schema.{ApprovalRow, Db}
use fastapi_langgraph_templa.Approvals.{create_pending, has_action_id}
use fastapi_langgraph_templa.Approvals.Asked.{created_found}
use fastapi_langgraph_templa.Common.{List, ap, sym, ◌∙◌, Option}
use fastapi_langgraph_templa.Common.Table.{find}
use fastapi_langgraph_templa.Tools.{Called}
use fastapi_langgraph_templa.Graph.Runtime.{
  action_id, gate_of, after_gate, require_within, Gate, interrupted, bad_config, decided,
}
use fastapi_langgraph_templa.Graph.Validator.{get_field}
use fastapi_langgraph_templa.Graph.Runtime.{
  Node, pending_action, expires_in, tool_requires_approval, call_tool, require_approval, paused,
}

-- the approval that the node asks for, and the database with it
abbrev pub asked : Node → String → ℕ → ℕ → String → Fields → Db → Db × ApprovalRow
asked k id now seconds tool_name arguments db =
    create_pending k.canonical_hash id now
      (pending_action k now seconds (str_append "tool:" tool_name) (some tool_name) arguments) db

gate_denied :
    (a b : ApprovalRow) (o : Option String)
    → o ≢ some "approved"
    → gate_of a o ≢ decided b "approved"
gate_denied a b none h e = cc
gate_denied a b (some decision) h e = let same : decision ≡ "approved" = cc in h (ap some same)

require_denied :
    (k : Node) (id : String) (now : ℕ) (tool_name : String) (arguments : Fields) (o : Option ℕ)
    (db : Db) (b : ApprovalRow)
    → k.resumed ≢ some "approved"
    → (require_within k id now (str_append "tool:" tool_name) (some tool_name) arguments o db).1
      ≢ decided b "approved"
require_denied k id now tool_name arguments none db b h e = cc
require_denied k id now tool_name arguments (some seconds) db b h e =
    gate_denied (asked k id now seconds tool_name arguments db).1 b k.resumed h e

-- with other functions bound to the tools
abbrev pub rebound : Node → List (String × (Fields → Called)) → Node
rebound k others = record k { registry = record k.registry { callables = others } }

same_end :
    (k : Node) (others : List (String × (Fields → Called))) (tool_name : String)
    (arguments : Fields) (g : Gate)
    → ((b : ApprovalRow) → g ≢ decided b "approved")
    → after_gate (rebound k others) tool_name arguments g ≡ after_gate k tool_name arguments g
same_end k others tool_name arguments (interrupted a) h = refl
same_end k others tool_name arguments bad_config h = refl
same_end k others tool_name arguments (decided a decision) h =
    elim (Bool-cases (str_eq decision "approved")) [
      | inl is ↦ absurd (h a (ap (decided a) ((eq_iff decision "approved").0 is)))
      | inr is_not ↦ rw is_not refl
    ]

same_risk :
    (k : Node) (others : List (String × (Fields → Called))) (tool_name : String)
    → tool_requires_approval (rebound k others).registry tool_name
      ≡ tool_requires_approval k.registry tool_name
unfolding tool_requires_approval
same_risk k others tool_name = refl

gated_call :
    (k : Node) (id : String) (now : ℕ) (tool_name : String) (arguments : Fields) (db : Db)
    → tool_requires_approval k.registry tool_name ≡ true
    → call_tool k id now tool_name arguments db ≡ (
        let (db', gate) =
          require_approval k id now (str_append "tool:" tool_name) (some tool_name) arguments db in
        (db', after_gate k tool_name arguments gate))
unfolding call_tool
gated_call k id now tool_name arguments db risky = rw risky refl

-- A sensitive tool that is not approved is not invoked: unless the node is resumed with "approved",
-- it does the same and ends the same whatever functions the registry binds to the tools.
pub sensitive_gated :
    (k : Node) (id : String) (now : ℕ) (tool_name : String) (arguments : Fields) (db : Db)
    (others : List (String × (Fields → Called)))
    → tool_requires_approval k.registry tool_name ≡ true
    → k.resumed ≢ some "approved"
    → call_tool (rebound k others) id now tool_name arguments db
      ≡ call_tool k id now tool_name arguments db
unfolding require_approval
sensitive_gated k id now tool_name arguments db others risky denied =
    let gate =
      require_approval k id now (str_append "tool:" tool_name) (some tool_name) arguments db in
    gated_call (rebound k others) id now tool_name arguments db
      (same_risk k others tool_name ∙ risky)
    ∙ ap (λ e. (gate.0, e))
        (same_end k others tool_name arguments gate.1 (λ b.
          require_denied k id now tool_name arguments
            (expires_in k.parse_int (get_field "expires_in" k.node_def.config)) db b denied))
    ∙ sym (gated_call k id now tool_name arguments db risky)

-- The first time, the node of a sensitive tool (with a number of seconds to expire in) is interrupted,
-- with the approval that the table then has for its run, node and arguments.
sensitive_waits :
    (k : Node) (id : String) (now seconds : ℕ) (tool_name : String) (arguments : Fields) (db : Db)
    → tool_requires_approval k.registry tool_name ≡ true
    → expires_in k.parse_int (get_field "expires_in" k.node_def.config) ≡ some seconds
    → k.resumed ≡ none
    → (a : ApprovalRow) × ((call_tool k id now tool_name arguments db).1 ≡ paused a)
      × (find
            (has_action_id (action_id k.canonical_hash k.run_id k.node_def arguments))
            (call_tool k id now tool_name arguments db).0.approvals
          ≡ some a)
unfolding call_tool require_approval
sensitive_waits k id now seconds tool_name arguments db risky within first = (
  (asked k id now seconds tool_name arguments db).1,
  rw (risky, within, first) refl,
  rw (risky, within)
      (created_found k.canonical_hash id now
        (pending_action k now seconds (str_append "tool:" tool_name) (some tool_name) arguments)
        db),
)
