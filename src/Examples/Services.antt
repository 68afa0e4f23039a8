-- ===== src/Examples/Services.antt =====
-- The theorems on the catalog, the tools, the subagent and the creation of Runs at concrete data.
use fastapi_langgraph_templa.Common.{true, refl}
use fastapi_langgraph_templa.Common.{◌≡◌, ◌↔◌, String, List, [], ◌∷◌, none, some, Bool}
use fastapi_langgraph_templa.Common.Names.{contains}
use fastapi_langgraph_templa.Common.Dict.{lookup}
use fastapi_langgraph_templa.Json.{null, end}
use fastapi_langgraph_templa.State.{queued}
use fastapi_langgraph_templa.Catalog.{ModelCatalogEntry, ModelCatalogSnapshot, build_snapshot}
use fastapi_langgraph_templa.Catalog.Policy.{
  ModelPolicy, auto, balanced, decided, resolve_model_policy, deciding,
}
use fastapi_langgraph_templa.Catalog.Selectable.{Chosen, resolve_model_policy_iff}
use fastapi_langgraph_templa.Catalog.Offered.{IsOffered}
use fastapi_langgraph_templa.Catalog.Service.{served}
use fastapi_langgraph_templa.Tools.{
  ToolDef, ToolRegistry, ToolResult, value, read, builtin, result, ainvoke,
}
use fastapi_langgraph_templa.Tools.Permitted.{Permitted, ainvoke_iff}
use fastapi_langgraph_templa.Subagent.{SubagentTask, tool, Gateway, execute}
use fastapi_langgraph_templa.Subagent.Bounded.{IsWithin, execute-IsWithin}
use fastapi_langgraph_templa.RunManager.Create.{Surroundings, Ids, Request, definition, create_run}
use fastapi_langgraph_templa.RunManager.Create.Checked.{AllOrNothing, create_run-AllOrNothing}
use fastapi_langgraph_templa.Tools.{sensitive}
use fastapi_langgraph_templa.Graph.Validator.{get_field}
use fastapi_langgraph_templa.Graph.Runtime.{Node, expires_in, tool_requires_approval, call_tool}
use fastapi_langgraph_templa.Graph.Runtime.Sensitive.{rebound, sensitive_gated}
use fastapi_langgraph_templa.Graph.{AgentDefinition, NodeType}
use fastapi_langgraph_templa.Examples.{db_with, pending1}
use fastapi_langgraph_templa.State.{ApprovalStatus}
use fastapi_langgraph_templa.Schema.{ApprovalRow, Db}
use fastapi_langgraph_templa.Approvals.{resolve_and_enqueue, row}
use fastapi_langgraph_templa.Graph.Runtime.{paused}
use fastapi_langgraph_templa.Graph.Runtime.Stuck.{resolved_waits_again}

abbrev count : List ModelCatalogEntry → String
count _ = "v1"

abbrev catalog : ModelCatalogSnapshot
catalog = build_snapshot count ("m1" ∷ "m1-embed" ∷ []) 3 []

abbrev any_model : ModelPolicy
any_model = record { mode = auto; model_id = none; tier = none }

abbrev tiers : List (String × String)
tiers = ("balanced", "m1") ∷ []

resolve_model_policy_iff_example :
    (resolve_model_policy any_model catalog tiers []
      ≡ decided (deciding any_model catalog (some balanced) "m1"))
    ↔ (Chosen auto any_model catalog tiers (deciding any_model catalog (some balanced) "m1")
        × IsOffered catalog [] "m1")
resolve_model_policy_iff_example =
    resolve_model_policy_iff any_model catalog tiers []
      (deciding any_model catalog (some balanced) "m1")

abbrev adder : ToolDef
adder = record {
  name = "add";
  description = "";
  input_schema = null;
  risk = read;
  source = builtin;
}

abbrev registry : ToolRegistry
registry = record {
  tools = ("add", adder) ∷ [];
  callables = ("add", λ _. value null) ∷ [];
  scope = record { allow = []; deny = "rm" ∷ [] };
}

-- a pattern matches the name that it is
abbrev same_name : String → String → Bool
same_name name pattern = contains (pattern ∷ []) name

ainvoke_iff_example : ((x : ToolResult) × (ainvoke same_name registry "add" end ≡ result x)) ↔ (
    ((t : ToolDef) × (lookup "add" registry.tools ≡ some t))
    × Permitted same_name registry.scope "add")
ainvoke_iff_example = ainvoke_iff same_name registry "add" end

-- a model that asks for the tool again and again
abbrev stubborn : Gateway
stubborn n messages = record {
  content = "";
  structured =
      some (record { action = tool; tool_name = some "add"; arguments = end; answer = none });
  error = none;
}

abbrev sum : SubagentTask
sum = record {
  task = "sum";
  selected_context = [];
  allowed_tools = "add" ∷ [];
  expected_output_schema = none;
  template = "react";
}

execute-IsWithin_example :
    IsWithin same_name registry stubborn sum 3 (execute same_name registry stubborn sum 3 0)
execute-IsWithin_example = execute-IsWithin same_name registry stubborn sum 3 0

abbrev one_node : AgentDefinition
one_node = record {
  name = "g";
  nodes = record { type = NodeType.llm; id = "answer"; prompt = none; config = end } ∷ [];
  edges = [];
  entry = "answer";
  exit = "END";
}

abbrev surroundings : Surroundings
surroundings = record {
  load_definition = λ _. definition one_node;
  builder = record { add_error = λ _. none; compile_error = λ _. none };
  dump = λ _. null;
  digest = λ _. "h";
  dump_decision = λ _. null;
  dump_policy = λ _. null;
  reason = λ _. "auto_default";
  tier_map = tiers;
}

abbrev new_ids : Ids
new_ids = record { run_id = "r2"; job_id = "j2"; event_id = λ _. "e" }

abbrev request : Request
request = record { session_id = "s2"; graph_name = "g"; input_text = "hello"; model_policy = none }

create_run-AllOrNothing_example :
    AllOrNothing surroundings new_ids 7 end request
      (served catalog)
      (db_with queued [])
      (create_run surroundings new_ids 7 end request (served catalog) (db_with queued []))
create_run-AllOrNothing_example =
    create_run-AllOrNothing surroundings new_ids 7 end request (served catalog) (db_with queued [])

abbrev wipe : ToolDef
wipe = record {
  name = "wipe";
  description = "";
  input_schema = null;
  risk = sensitive;
  source = builtin;
}

-- the node of a sensitive tool, run for the first time
abbrev node : Node
node = record {
  matches = same_name;
  canonical_hash = λ _. "h";
  parse_int = λ _. none;
  registry = record {
    tools = ("wipe", wipe) ∷ [];
    callables = [];
    scope = record { allow = []; deny = [] };
  };
  run_id = "r1";
  node_def = record { type = NodeType.tool; id = "n1"; prompt = none; config = end };
  resumed = none;
}

wipe_risky : tool_requires_approval node.registry "wipe" ≡ true
unfolding tool_requires_approval lookup
wipe_risky = refl

expires_set : expires_in node.parse_int (get_field "expires_in" node.node_def.config) ≡ some 3600
unfolding get_field
expires_set = refl

sensitive_gated_example :
    call_tool (rebound node (("wipe", λ _. value null) ∷ [])) "a9" 5 "wipe" end (db_with queued [])
    ≡ call_tool node "a9" 5 "wipe" end (db_with queued [])
sensitive_gated_example =
    sensitive_gated node "a9" 5 "wipe" end (db_with queued []) (("wipe", λ _. value null) ∷ [])
      wipe_risky (λ e. cc)

-- the approval of that node's action, after it was given
abbrev given : ApprovalRow
given = record pending1 {
  action_id = some "r1:n1:h";
  status = ApprovalStatus.approved;
  resolved_at = some 9;
  resolved_by = some "eve";
}

abbrev given_db : Db
given_db = record (db_with queued []) { approvals = given ∷ [] }

resolved_waits_again_example :
    (call_tool node "a9" 12 "wipe" end given_db ≡ (given_db, paused given))
    × (resolve_and_enqueue "j9" 13 "a1" ApprovalStatus.approved
          (record { resolved_by = "eve"; reason = none })
          given_db
        ≡ (given_db, row given))
resolved_waits_again_example =
    resolved_waits_again node "a9" "j9" 12 3600 13 "wipe" end ApprovalStatus.approved
      (record { resolved_by = "eve"; reason = none }) given_db given wipe_risky expires_set refl
      refl refl refl refl
