-- ===== src/Graph/Nodes/Run.antt =====
-- `_make_node` of app/graph/langgraph_runtime.py: a node of the LangGraph program, around the body
-- of its type, and `RunManager._is_cancelled` of app/runtime/run_manager.py, its cancellation check.
use fastapi_langgraph_templa.Common.{
  ℕ, String, str_append, Option, none, some, Bool, false, if◌then◌else◌,
}
use fastapi_langgraph_templa.State.{RunStatus, EventType, same_status}
use fastapi_langgraph_templa.Json.{end}
use fastapi_langgraph_templa.Schema.{RunRow, Db, run_by_id}
use fastapi_langgraph_templa.Events.Emitter.{Emitter}
use fastapi_langgraph_templa.RunManager.Failure.{run_cancelled_error}
use fastapi_langgraph_templa.Graph.{NodeType, CompiledGraph}
use fastapi_langgraph_templa.Graph.Runtime.{Node}
use fastapi_langgraph_templa.Graph.Nodes.{
  GraphState, NodeEnd, patched, raised, Dependencies, emit_at,
}
use fastapi_langgraph_templa.Graph.Nodes.Models.{run_llm, run_supervisor, run_transform}
use fastapi_langgraph_templa.Graph.Nodes.Capabilities.{
  run_tool_node, run_rag, run_subagent, run_approval,
}

-- `status == RunStatus.cancelled.value` of a row that may be missing
abbrev pub row_cancelled : Option RunRow → Bool
row_cancelled none = false
row_cancelled (some run) = same_status run.status RunStatus.cancelled

unfoldable pub is_cancelled : String → Db → Bool
is_cancelled run_id db = row_cancelled (run_by_id run_id db.runs)

-- `deps.cancel_check is not None and await deps.cancel_check(run_id)`
abbrev pub stops : Option (String → Db → Bool) → String → Db → Bool
stops none run_id db = false
stops (some check) run_id db = check run_id db

abbrev pub beside : Db → Emitter × NodeEnd → Emitter × Db × NodeEnd
beside db (m, ended) = (m, db, ended)

abbrev pub above : Emitter → Db × NodeEnd → Emitter × Db × NodeEnd
above m (db, ended) = (m, db, ended)

-- the body of the span
abbrev pub run_body :
    Node
    → Dependencies
    → CompiledGraph
    → String
    → ℕ
    → GraphState
    → NodeType
    → Emitter
    → Db
    → Emitter × Db × NodeEnd
run_body k deps compiled id now s NodeType.llm m db = beside db (run_llm k deps s m)
run_body k deps compiled id now s NodeType.supervisor m db =
    beside db (run_supervisor k deps compiled s m)
run_body k deps compiled id now s NodeType.transform m db = (m, db, run_transform k deps s)
run_body k deps compiled id now s NodeType.tool m db = run_tool_node k deps id now s m db
run_body k deps compiled id now s NodeType.rag m db = beside db (run_rag k deps s m)
run_body k deps compiled id now s NodeType.subagent m db = beside db (run_subagent k deps s m)
run_body k deps compiled id now s NodeType.approval m db = above m (run_approval k deps id now s db)

-- `node_completed`, where the body returns
abbrev pub completed : Node → NodeEnd → Emitter → Emitter
completed k (patched p) m = emit_at k EventType.node_completed end m
completed k _ m = m

unfoldable pub run_node :
    Node
    → Dependencies
    → CompiledGraph
    → String
    → ℕ
    → GraphState
    → Emitter
    → Db
    → Emitter × Db × NodeEnd
run_node k deps compiled id now s m db =
    let (m', db', ended) =
      run_body k deps compiled id now s k.node_def.type (emit_at k EventType.node_started end m)
        db in
    if stops deps.cancel_check k.run_id db
    then (
      m,
      db,
      raised (
          run_cancelled_error (
            str_append "run "
              (str_append k.run_id (str_append " cancelled before node " k.node_def.id)))),
    )
    else (completed k ended m', db', ended)
