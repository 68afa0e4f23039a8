-- ===== src/Examples/Nodes.antt =====
-- The theorems on LangGraph programs and their nodes at a Supervisor with one tool.
use fastapi_langgraph_templa.Common.{
  ◌≡◌, ◌↔◌, refl, String, [], ◌∷◌, none, some, true, false, if◌then◌else◌,
}
use mathlib.Core.List.{Memᴰ}
use fastapi_langgraph_templa.Common.Names.{contains, not_contains}
use fastapi_langgraph_templa.Graph.Validator.{get_field}
use fastapi_langgraph_templa.Common.Dict.{lookup, put}
use fastapi_langgraph_templa.State.{RunStatus, running, queued, failed, EventType}
use fastapi_langgraph_templa.Json.{end, obj, field, text}
use fastapi_langgraph_templa.Schema.{Db}
use fastapi_langgraph_templa.Events.{RuntimeEvent, append_many}
use fastapi_langgraph_templa.Worker.RunOnce.{event}
use fastapi_langgraph_templa.Events.Emitter.{new_emitter}
use fastapi_langgraph_templa.Worker.{set_run_status}
use fastapi_langgraph_templa.Lifecycle.{here, next, sets_status, appends}
use fastapi_langgraph_templa.Api.Runs.{cancel_run, cancel_status}
use fastapi_langgraph_templa.RunManager.Failure.{run_cancelled_error, classify_failure}
use fastapi_langgraph_templa.ModelsGateway.Completion.{ModelRequest, ModelResult}
use fastapi_langgraph_templa.ModelsGateway.{normalize_model_error, is_transient, is_denied}
use fastapi_langgraph_templa.ModelsGateway.Retried.{status_after, IsBusy, normalized_retried}
use fastapi_langgraph_templa.Graph.Compiler.{build, put_all, add_edges}
use fastapi_langgraph_templa.Graph.Routing.{SupervisorDecision}
use fastapi_langgraph_templa.Graph.Runtime.{Node, validate_decision}
use fastapi_langgraph_templa.Graph.Program.{
  StateGraph, Program, program, goes, decides, node, supervisor_path_map, compile_langgraph,
}
use fastapi_langgraph_templa.Graph.Program.Closed.{
  IsRunnable, IsClosed, IsHanded, compile_langgraph_iff,
}
use fastapi_langgraph_templa.Graph.Program.Landing.{compile_langgraph-IsClosed}
use fastapi_langgraph_templa.Graph.Nodes.{GraphState, Dependencies, patched, raised, apply_patch}
use fastapi_langgraph_templa.Graph.Nodes.Models.{
  run_supervisor, decision_patch, llm_answered, supervisor_answered,
}
use fastapi_langgraph_templa.Graph.Nodes.Run.{run_node, is_cancelled}
use fastapi_langgraph_templa.Graph.Nodes.Decided.{Lands, run_supervisor-Lands}
use fastapi_langgraph_templa.Graph.Nodes.Stopped.{stop_message, cancelled_node_stops}
use fastapi_langgraph_templa.Examples.{db_with, run_in}
use fastapi_langgraph_templa.Examples.Graphs.{small, small_valid, boss, to_calc}

-- LangGraph keeps two names for itself
abbrev builder : StateGraph
builder = record {
  add_error =
      λ names. if contains names "__start__" then some "Node `__start__` is reserved." else none;
  compile_error = λ _. none;
}

compile_langgraph_iff_example :
    ((p : Program) × (compile_langgraph builder (build small) ≡ program p)) ↔ (
      IsRunnable small
      × (builder.add_error ("boss" ∷ "calc" ∷ []) ≡ none)
      × ((p : Program) → IsHanded builder small small_valid p → builder.compile_error p ≡ none))
compile_langgraph_iff_example = compile_langgraph_iff builder small small_valid

abbrev small_program : Program
small_program = record {
  start = "boss";
  ways = ("boss", decides (supervisor_path_map (build small))) ∷ ("calc", goes (node "boss")) ∷ [];
}

small_builds : compile_langgraph builder (build small) ≡ program small_program
unfolding compile_langgraph build contains put_all put add_edges lookup
small_builds = refl

compile_langgraph-IsClosed_example : IsClosed small small_program
compile_langgraph-IsClosed_example =
    compile_langgraph-IsClosed builder small small_program small_valid small_builds

-- the node of the Supervisor
abbrev at_boss : Node
at_boss = record {
  matches = λ _ _. false;
  canonical_hash = λ _. "h";
  parse_int = λ _. none;
  registry = record { tools = []; callables = []; scope = record { allow = []; deny = [] } };
  run_id = "r1";
  node_def = boss;
  resumed = none;
}

-- a model that always selects the calculator
abbrev picks_calc : ModelRequest → ModelResult SupervisorDecision
picks_calc request = record {
  content = "";
  structured = some to_calc;
  model = some "m1";
  served_model = some "m1";
  fallback = false;
  call_id = request.call_id;
  usage = end;
  error = none;
}

-- an answer of a call without an id
abbrev calc_result : ModelResult SupervisorDecision
calc_result = record {
  content = "";
  structured = some to_calc;
  model = some "m1";
  served_model = some "m1";
  fallback = false;
  call_id = none;
  usage = end;
  error = none;
}

abbrev dependencies : Dependencies
dependencies = record {
  gateway = picks_calc;
  model_name = "m1";
  has_registry = false;
  has_approvals = false;
  retriever = none;
  subagent = none;
  cancel_check = some is_cancelled;
  nonce = "n";
  show = λ _. "";
  upper = λ s. s;
  lower = λ s. s;
  strip = λ s. s;
}

abbrev at_start : GraphState
at_start = record {
  messages = record { role = "user"; content = some "add 1 and 2" } ∷ [];
  data_ = [];
  decision = none;
}

decides_calc :
    (run_supervisor at_boss dependencies (build small) at_start new_emitter).1
    ≡ patched (decision_patch to_calc)
unfolding run_supervisor validate_decision build put_all put lookup get_field
decides_calc = refl

no_blank : ¬ Memᴰ {A = String} "" ("boss" ∷ "calc" ∷ [])
unfolding contains
no_blank = not_contains ("boss" ∷ "calc" ∷ []) "" refl

run_supervisor-Lands_example :
    (dec : SupervisorDecision) × ((apply_patch at_start (decision_patch to_calc)).decision
      ≡ some dec)
    × Lands small dec (apply_patch at_start (decision_patch to_calc))
run_supervisor-Lands_example =
    run_supervisor-Lands at_boss dependencies small at_start new_emitter (decision_patch to_calc)
      small_valid no_blank decides_calc

abbrev user_cancelled : RuntimeEvent
user_cancelled =
    event EventType.run_cancelled "r1" (obj (field "reason" (text "user_cancelled") end))

abbrev late_worker : Db → Db
late_worker = set_run_status "r1" running none 9

-- a worker sets the Run to running after the status of the cancellation, in vain
abbrev later : Db
later = (cancel_run (λ _. "e") 7 "r1" late_worker (db_with running [])).0

cancelled_node_stops_example :
    (run_node at_boss dependencies (build small) "a1" 9 at_start new_emitter later
      ≡ (new_emitter, later, raised (run_cancelled_error (stop_message at_boss))))
    × ((classify_failure (run_cancelled_error (stop_message at_boss))).0 ≡ RunStatus.cancelled)
unfolding cancel_run append_many
cancelled_node_stops_example =
    cancelled_node_stops 7 (run_in running) (db_with running []) later at_boss dependencies
      (build small) "a1" 9 at_start new_emitter refl refl
      (next
        (next here (sets_status "r1" running none 9 (cancel_status 7 "r1" (db_with running [])).0))
        (appends (λ _. "e") "r1" (user_cancelled ∷ [])
          (late_worker (cancel_status 7 "r1" (db_with running [])).0)))
      refl

-- a rate limit
normalized_retried_example :
    let e = normalize_model_error "APIError" (some 429) "slow down" in
    let after_llm =
      status_after (llm_answered at_boss dependencies calc_result (some e) new_emitter).1 in
    ((after_llm ≡ some queued) ↔ IsBusy "APIError" (some 429))
    × ((¬ IsBusy "APIError" (some 429)) → after_llm ≡ some failed)
    × (status_after
          (supervisor_answered at_boss dependencies
            (build small)
            calc_result
            (some e)
            none
            new_emitter).1
        ≡ some failed)
    × (is_transient "APIError" (some 429) ≡ true
        → is_denied "APIError" (some 429) ≡ false
        → e.recoverable ≡ true)
normalized_retried_example =
    normalized_retried at_boss dependencies (build small) calc_result none new_emitter "APIError"
      (some 429) "slow down"
