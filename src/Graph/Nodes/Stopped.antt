-- ===== src/Graph/Nodes/Stopped.antt =====
-- Nodes of a Run that was cancelled.
use fastapi_langgraph_templa.Common.{
  ℕ, String, str_eq, str_append, ◌≡◌, refl, ap, ◌∙◌, some, true, false, if◌then◌else◌,
}
use mathlib.Core.Option
use fastapi_langgraph_templa.Common.Table.{touched, find-update_where, find_sound}
use fastapi_langgraph_templa.State.{RunStatus, same_status, is_terminal}
use fastapi_langgraph_templa.Schema.{RunRow, Db, run_by_id}
use fastapi_langgraph_templa.Events.Emitter.{Emitter}
use fastapi_langgraph_templa.Api.Runs.{cancel, cancel_status}
use fastapi_langgraph_templa.Lifecycle.{Steps}
use fastapi_langgraph_templa.Lifecycle.Runs.{HasStatus, terminal_final}
use fastapi_langgraph_templa.RunManager.Failure.{run_cancelled_error, classify_failure}
use fastapi_langgraph_templa.Graph.{CompiledGraph}
use fastapi_langgraph_templa.Graph.Runtime.{Node}
use fastapi_langgraph_templa.Graph.Nodes.{GraphState, raised, Dependencies}
use fastapi_langgraph_templa.Graph.Nodes.Run.{is_cancelled, run_node}

-- the exception of a node before which the Run was cancelled
abbrev pub stop_message : Node → String
stop_message k =
    str_append "run " (str_append k.run_id (str_append " cancelled before node " k.node_def.id))

is_cancelled_lem :
    (run_id : String) (t : Db)
    → HasStatus run_id RunStatus.cancelled t.runs
    → is_cancelled run_id t ≡ true
unfolding is_cancelled
is_cancelled_lem run_id t (run, found, status) =
    rw found (ap (λ s. same_status s RunStatus.cancelled) status)

cancel_status-HasStatus :
    (now : ℕ) (run_id : String) (run : RunRow) (db : Db)
    → run_by_id run_id db.runs ≡ some run
    → is_terminal run.status ≡ false
    → HasStatus run_id RunStatus.cancelled (cancel_status now run_id db).0.runs
unfolding cancel_status
cancel_status-HasStatus now run_id run db found live =
    let at =
      find-update_where (λ (r : RunRow). str_eq r.id run_id) (λ r. str_eq r.id run_id) (cancel now)
        db.runs (λ r. refl) in
    let hit = find_sound (λ (r : RunRow). str_eq r.id run_id) db.runs run found in
    (
      cancel now run,
      rw (found, live)
          (at
            ∙ ap (Option.map (touched (λ (r : RunRow). str_eq r.id run_id) (cancel now))) found
            ∙ ap some (ap (λ b. if b then cancel now run else run) hit)),
      refl,
    )

-- Once `cancel_run` has committed the status of a Run that was not terminal, then after any further
-- transactions, its own second one with the event and those of others in any order, a node of its execution that checks for cancellation does nothing: it emits nothing,
-- leaves the database as it is, and raises the error that makes the Run cancelled.
pub cancelled_node_stops :
    (now : ℕ) (run : RunRow) (db t : Db) (k : Node) (deps : Dependencies) (compiled : CompiledGraph)
    (id : String) (at : ℕ) (s : GraphState) (m : Emitter)
    → run_by_id k.run_id db.runs ≡ some run
    → is_terminal run.status ≡ false
    → Steps (cancel_status now k.run_id db).0 t
    → deps.cancel_check ≡ some is_cancelled
    → (run_node k deps compiled id at s m t ≡ (m, t, raised (run_cancelled_error (stop_message k))))
      × ((classify_failure (run_cancelled_error (stop_message k))).0 ≡ RunStatus.cancelled)
unfolding run_node classify_failure
cancelled_node_stops now run db t k deps compiled id at s m found live steps checks =
    let has =
      terminal_final k.run_id RunStatus.cancelled refl steps
        (cancel_status-HasStatus now k.run_id run db found live) in
    (rw (checks, is_cancelled_lem k.run_id t has) refl, refl)
