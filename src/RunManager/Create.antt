-- ===== src/RunManager/Create.antt =====
-- `create_run` of app/runtime/run_manager.py and of app/api/runs.py. The YAML files, what LangGraph
-- itself refuses, the JSON of a graph and of a decision and the sha256 of the former are arguments. The
-- cache of compiled graphs is left out: a graph compiles to the same each time.
pub mod Checked
use fastapi_langgraph_templa.Common.{
  ℕ, String, str_eq, List, [], ◌∷◌, ◌++◌, Option, none, some, Bool, true, false, is_none,
  if◌then◌else◌,
}
use fastapi_langgraph_templa.Common.Table.{find}
use fastapi_langgraph_templa.Json.{Json, Fields, text, obj, end, field}
use fastapi_langgraph_templa.State.{RunStatus, EventType}
use fastapi_langgraph_templa.Schema.{SessionRow, RunRow, JobRow, Db}
use fastapi_langgraph_templa.Events.{append_many}
use fastapi_langgraph_templa.Worker.{new_job}
use fastapi_langgraph_templa.Worker.RunOnce.{event}
use fastapi_langgraph_templa.Graph.{AgentDefinition, CompiledGraph}
use fastapi_langgraph_templa.Graph.Validator.{Fault, supervisors}
use fastapi_langgraph_templa.Graph.Compiler.{Compiled, compiled, rejected, compile_graph}
use fastapi_langgraph_templa.Graph.Program
use fastapi_langgraph_templa.Graph.Program.{StateGraph, BuiltProgram, program, compile_langgraph}
use fastapi_langgraph_templa.Catalog.{ModelCatalogSnapshot}
use fastapi_langgraph_templa.Catalog.Service.{Served, served, unavailable}
use fastapi_langgraph_templa.Catalog.Policy.{
  ModelPolicy, auto, ModelDecision, Refusal, Resolved, decided, refused, resolve_model_policy,
}

-- the transaction: the session if it is missing, the Run, and its job
unfoldable pub insert_run : String → RunRow → JobRow → Db → Db
insert_run session_id run job db = record db {
  sessions =
      if is_none (find (λ s. str_eq s.id session_id) db.sessions)
      then db.sessions ++ record { id = session_id } ∷ []
      else db.sessions;
  runs = db.runs ++ run ∷ [];
  jobs = db.jobs ++ job ∷ [];
}

-- how the loading of a YAML file ends
pub data Loaded : Type 0 where
  definition : AgentDefinition → Loaded
  no_file : String → Loaded
  load_failed : String → Loaded

pub record Surroundings : Type 0 where
  pub load_definition : String → Loaded
  pub builder : StateGraph
  pub dump : AgentDefinition → Json
  pub digest : Json → String
  pub dump_decision : ModelDecision → Json
  pub dump_policy : ModelPolicy → Json
  pub reason : ModelDecision → String
  pub tier_map : List (String × String)

-- the exceptions of `create_run`
pub data CreateError : Type 0 where
  graph_not_found : String → CreateError
  graph_failed : String → CreateError
  graph_refused : String → CreateError
  graph_invalid : Fault → CreateError
  model_refused : Refusal → CreateError
  catalog_unavailable : ℕ → String → CreateError

pub data Created : Type 0 where
  created : RunRow → Created
  not_created : CreateError → Created

pub record Request : Type 0 where
  pub session_id : String
  pub graph_name : String
  pub input_text : String
  pub model_policy : Option ModelPolicy

-- `{"structured_output" for node in nodes if node.type == "supervisor"}`
abbrev pub required_for : AgentDefinition → List String
required_for d = elim (supervisors d.nodes) [ [] ↦ [] | n ∷ ns ↦ "structured_output" ∷ [] ]

abbrev pub policy_or_auto : Option ModelPolicy → ModelPolicy
policy_or_auto none = record { mode = auto; model_id = none; tier = none }
policy_or_auto (some p) = p

abbrev pub new_run : Surroundings → String → ℕ → Request → AgentDefinition → ModelDecision → RunRow
new_run env id now req d decision = record {
  id = id;
  session_id = req.session_id;
  status = RunStatus.queued;
  graph_name = req.graph_name;
  graph_version = "1";
  graph_definition_hash = some (env.digest (env.dump d));
  graph_snapshot = some (env.dump d);
  model_decision = some (env.dump_decision decision);
  input_text = req.input_text;
  output_text = none;
  error = none;
  termination_reason = none;
  created_at = now;
  updated_at = now;
}

abbrev pub resolved_payload : Surroundings → ModelDecision → Json
resolved_payload env decision = obj (
    field "requested" (env.dump_policy decision.requested) (
      field "resolved_model" (text decision.resolved_model) (
        field "reason" (text (env.reason decision))
          (field "catalog_version" (text decision.catalog_version) end))))

-- the ids of uuid4: of the Run, the job, and the rows of the events
pub record Ids : Type 0 where
  pub run_id : String
  pub job_id : String
  pub event_id : ℕ → String

unfoldable pub store_run :
    Surroundings → Ids → ℕ → Fields → Request → AgentDefinition → ModelDecision → Db → Db
store_run env ids now trace req d decision db =
    append_many ids.event_id ids.run_id
      (event EventType.model_resolved ids.run_id (resolved_payload env decision) ∷ [])
      (insert_run req.session_id (new_run env ids.run_id now req d decision)
        (new_job ids.job_id ids.run_id trace now) db)

abbrev pub create_decided :
    Surroundings → Ids → ℕ → Fields → Request → AgentDefinition → Resolved → Db → Db × Created
create_decided env ids now trace req d (refused r) db = (db, not_created (model_refused r))
create_decided env ids now trace req d (decided decision) db = (
  store_run env ids now trace req d decision db,
  created (new_run env ids.run_id now req d decision),
)

-- `resolve_model_decision` on what the catalog served
abbrev pub decide : Surroundings → Request → AgentDefinition → ModelCatalogSnapshot → Resolved
decide env req d s =
    resolve_model_policy (policy_or_auto req.model_policy) s env.tier_map (required_for d)

abbrev pub create_served :
    Surroundings → Ids → ℕ → Fields → Request → AgentDefinition → Served → Db → Db × Created
create_served env ids now trace req d (unavailable status error) db =
    (db, not_created (catalog_unavailable status error))
create_served env ids now trace req d (served s) db =
    create_decided env ids now trace req d (decide env req d s) db

-- the error of `_ensure_runtime_compilable`, if any: a GraphValidationError, or one of LangGraph
abbrev pub runtime_error : BuiltProgram → Option CreateError
runtime_error (program p) = none
runtime_error (Program.refused error) = some (graph_refused error)
runtime_error (Program.langgraph_error error) = some (graph_failed error)

abbrev pub create_runnable :
    Surroundings
    → Ids
    → ℕ
    → Fields
    → Request
    → AgentDefinition
    → Served
    → Option CreateError
    → Db
    → Db × Created
create_runnable env ids now trace req d catalog (some error) db = (db, not_created error)
create_runnable env ids now trace req d catalog none db =
    create_served env ids now trace req d catalog db

abbrev pub create_compiled :
    Surroundings
    → Ids
    → ℕ
    → Fields
    → Request
    → AgentDefinition
    → Served
    → Compiled
    → Db
    → Db × Created
create_compiled env ids now trace req d catalog (rejected fault) db =
    (db, not_created (graph_invalid fault))
create_compiled env ids now trace req d catalog (compiled g) db =
    create_runnable env ids now trace req d catalog
      (runtime_error (compile_langgraph env.builder g)) db

abbrev pub create_loaded :
    Surroundings → Ids → ℕ → Fields → Request → Served → Loaded → Db → Db × Created
create_loaded env ids now trace req catalog (no_file error) db =
    (db, not_created (graph_not_found error))
create_loaded env ids now trace req catalog (load_failed error) db =
    (db, not_created (graph_failed error))
create_loaded env ids now trace req catalog (definition d) db =
    create_compiled env ids now trace req d catalog (compile_graph d) db

unfoldable pub create_run : Surroundings → Ids → ℕ → Fields → Request → Served → Db → Db × Created
unfolding store_run
create_run env ids now trace req catalog db =
    create_loaded env ids now trace req catalog (env.load_definition req.graph_name) db

-- the status code that the endpoint answers with
unfoldable pub status_code : Created → ℕ
status_code (created run) = 200
status_code (not_created (graph_not_found _)) = 404
status_code (not_created (graph_invalid _)) = 422
status_code (not_created (graph_refused _)) = 422
status_code (not_created (model_refused _)) = 422
status_code (not_created (catalog_unavailable status _)) = status
status_code (not_created (graph_failed _)) = 500
