-- ===== src/RunManager/Create/Checked.antt =====
-- A Run is created only after every check.
use fastapi_langgraph_templa.Common.{
  ℕ, subst, ◌+◌, String, str_eq, ◌≡◌, refl, ap, sym, ◌∙◌, List, [], ◌∷◌, ◌++◌, none, some, true,
  arith, is_none, if◌then◌else◌, Bool-cases, inl, inr,
}
use mathlib.Core.List.{Memᴰ}
use mathlib.Core.List.Memᴰ
use fastapi_langgraph_templa.Common.Table.{find}
use fastapi_langgraph_templa.Common.Names.{contains}
use fastapi_langgraph_templa.Json.{Fields}
use fastapi_langgraph_templa.State.{RunStatus, EventType}
use fastapi_langgraph_templa.Schema.{RunRow, JobRow, JobStatus, EventRow, Db}
use fastapi_langgraph_templa.Events.{next_seq, event_row, append_many}
use fastapi_langgraph_templa.Events.Sequence.{stored, log_many-open}
use fastapi_langgraph_templa.Events.Appended.{IsNext, next_seq-IsNext}
use fastapi_langgraph_templa.Worker.{new_job}
use fastapi_langgraph_templa.Worker.RunOnce.{event}
use fastapi_langgraph_templa.Graph.{AgentDefinition, NodeDef, is_supervisor}
use fastapi_langgraph_templa.Graph.Validator
use fastapi_langgraph_templa.Graph.Validator.{Check, valid, invalid, validate_graph, supervisors}
use fastapi_langgraph_templa.Graph.Validator.Spec.{IsValid}
use fastapi_langgraph_templa.Graph.Validator.Correct.{validate_graph_iff}
use fastapi_langgraph_templa.Graph.Compiler.{compile_graph, compile_checked, build}
use fastapi_langgraph_templa.Graph.Program
use fastapi_langgraph_templa.Graph.Program.{Program, BuiltProgram, program, compile_langgraph}
use fastapi_langgraph_templa.Graph.Program.Closed.{IsRunnable, compile_langgraph_iff}
use fastapi_langgraph_templa.Catalog.{ModelCatalogEntry, ModelCatalogSnapshot}
use fastapi_langgraph_templa.Catalog.Service.{Served, served, unavailable}
use fastapi_langgraph_templa.Catalog.Policy.{ModelDecision, Resolved, decided, refused}
use fastapi_langgraph_templa.Catalog.Offered.{IsOffered, last_entry}
use fastapi_langgraph_templa.Catalog.Selectable.{Chosen, resolve_model_policy_iff}
use fastapi_langgraph_templa.RunManager.Create.{
  Surroundings, Ids, Request, Created, created, not_created, Loaded, definition, no_file,
  load_failed, create_run, create_loaded, create_compiled, create_runnable, create_served,
  create_decided, runtime_error, store_run, insert_run, new_run, resolved_payload, decide,
  required_for, policy_or_auto,
}

-- a queued Run of the request, with the graph as it was when it was created
abbrev pub IsNewRun :
    Surroundings → Ids → ℕ → Request → AgentDefinition → ModelDecision → RunRow → Type 0
IsNewRun env ids now req d decision run =
    (run.id ≡ ids.run_id)
    × (run.session_id ≡ req.session_id)
    × (run.status ≡ RunStatus.queued)
    × (run.graph_name ≡ req.graph_name)
    × (run.input_text ≡ req.input_text)
    × (run.graph_snapshot ≡ some (env.dump d))
    × (run.graph_definition_hash ≡ some (env.digest (env.dump d)))
    × (run.model_decision ≡ some (env.dump_decision decision))
    × (run.output_text ≡ none)
    × (run.created_at ≡ now)

-- the job of the Run, that no worker has claimed
abbrev pub IsNewJob : Ids → JobRow → Type 0
IsNewJob ids job =
    (job.id ≡ ids.job_id)
    × (job.run_id ≡ ids.run_id)
    × (job.status ≡ JobStatus.queued)
    × (job.lease_owner ≡ none)
    × (job.attempt_count ≡ 0)
    × (job.max_attempts ≡ 3)
    × (job.next_attempt_at ≡ none)

-- the event with the decision, with the next number of the Run
abbrev pub IsFirstEvent : Ids → Db → EventRow → Type 0
IsFirstEvent ids db e =
    (e.run_id ≡ ids.run_id)
    × (e.type ≡ EventType.model_resolved)
    × IsNext ids.run_id e.seq db.events

-- What the transactions leave: the Run, its job and its event are added after the rows that were there, and the
-- session is added if it was not there.
pub record IsStored (env : Surroundings) (ids : Ids) (now : ℕ) (req : Request) (d : AgentDefinition)
    (decision : ModelDecision) (db after : Db) (run : RunRow) : Type 0 where
  pub run_new : IsNewRun env ids now req d decision run
  pub runs : after.runs ≡ db.runs ++ run ∷ []
  pub job : JobRow
  pub job_new : IsNewJob ids job
  pub jobs : after.jobs ≡ db.jobs ++ job ∷ []
  pub first : EventRow
  pub first_event : IsFirstEvent ids db first
  pub events : after.events ≡ db.events ++ first ∷ []
  pub session : after.sessions ≡ (
      if is_none (find (λ s. str_eq s.id req.session_id) db.sessions)
      then db.sessions ++ record { id = req.session_id } ∷ []
      else db.sessions)

add_zero : (n : ℕ) → n ≡ n + 0
add_zero n = omega arith

store_run-IsStored :
    (env : Surroundings) (ids : Ids) (now : ℕ) (trace : Fields) (req : Request)
    (d : AgentDefinition) (decision : ModelDecision) (db : Db)
    → IsStored env ids now req d decision db
        (store_run env ids now trace req d decision db)
        (new_run env ids.run_id now req d decision)
unfolding store_run insert_run append_many stored
store_run-IsStored env ids now trace req d decision db = record {
  run_new = (refl, refl, refl, refl, refl, refl, refl, refl, refl, refl);
  runs = refl;
  job = new_job ids.job_id ids.run_id trace now;
  job_new = (refl, refl, refl, refl, refl, refl, refl);
  jobs = refl;
  first =
      event_row (ids.event_id 0) ids.run_id (next_seq ids.run_id db.events + 0)
        (event EventType.model_resolved ids.run_id (resolved_payload env decision));
  first_event = (
    refl,
    refl,
    subst (λ k. IsNext ids.run_id k db.events) (add_zero (next_seq ids.run_id db.events))
        (next_seq-IsNext ids.run_id db.events),
  );
  events =
      log_many-open ids.event_id ids.run_id
        (event EventType.model_resolved ids.run_id (resolved_payload env decision)) db.events refl;
  session = refl;
}

-- every Supervisor has a model with structured output
abbrev pub Serves : ModelCatalogSnapshot → String → AgentDefinition → Type 0
Serves s model d =
    (n : NodeDef)
    → Memᴰ n d.nodes
    → is_supervisor n.type ≡ true
    → (e : ModelCatalogEntry) × (last_entry model s.entries ≡ some e)
      × (contains e.capabilities "structured_output" ≡ true)

required_by :
    (ns : List NodeDef) (n : NodeDef)
    → Memᴰ n ns
    → is_supervisor n.type ≡ true
    → contains
        (elim (supervisors ns) [ [] ↦ [] | m ∷ ms ↦ "structured_output" ∷ [] ])
        "structured_output"
      ≡ true
unfolding contains
required_by [] n m is = absurd (Memᴰ.not-nil m)
required_by (x ∷ ns) n m is = elim (Memᴰ.cases_cons m) [
  | inl same ↦
      let is' : is_supervisor x.type ≡ true =
        ap (λ (y : NodeDef). is_supervisor y.type) (sym same) ∙ is in
      rw is' refl
  | inr later ↦ elim (Bool-cases (is_supervisor x.type)) [
    | inl first ↦ rw first refl
    | inr other ↦ rw other (required_by ns n later is)
  ]
]

IsOffered-Serves :
    (d : AgentDefinition) (s : ModelCatalogSnapshot) (model : String)
    → IsOffered s (required_for d) model
    → Serves s model d
IsOffered-Serves d s model (_, (e, last, covers)) n m is =
    (e, last, covers "structured_output" (required_by d.nodes n m is))

-- Where a Run is created: its graph is valid, a LangGraph program is built from it, an entry of the
-- catalog with its model is selectable, and the model serves the Supervisors of the graph.
pub record IsChecked (env : Surroundings) (ids : Ids) (now : ℕ) (trace : Fields) (req : Request)
    (catalog : Served) (db after : Db) (run : RunRow) : Type 0 where
  pub d : AgentDefinition
  pub s : ModelCatalogSnapshot
  pub decision : ModelDecision
  pub loaded : env.load_definition req.graph_name ≡ definition d
  pub graph_valid : IsValid d
  pub runnable : IsRunnable d
  pub accepted : env.builder.add_error (Validator.ids d.nodes) ≡ none
  pub catalog_served : catalog ≡ served s
  pub chosen :
      Chosen
        (policy_or_auto req.model_policy).mode
        (policy_or_auto req.model_policy)
        s
        env.tier_map
        decision
  pub offered :
      (e : ModelCatalogEntry) × Memᴰ e s.entries
      × (e.catalog_id ≡ decision.resolved_model)
      × (e.selectable ≡ true)
  pub serves : Serves s decision.resolved_model d
  pub stored_ : IsStored env ids now req d decision db after run

module _ (env : Surroundings) (ids : Ids) (now : ℕ) (trace : Fields) (req : Request)
    (catalog : Served) (db : Db) where
  -- the database is as it was, or a checked Run was created
  abbrev pub AllOrNothing : Db × Created → Type 0
  AllOrNothing (after, created run) = IsChecked env ids now trace req catalog db after run
  AllOrNothing (after, not_created e) = after ≡ db

  module _ (d : AgentDefinition) (loaded : env.load_definition req.graph_name ≡ definition d)
      (graph_valid : IsValid d) (p : Program)
      (builds : compile_langgraph env.builder (build d) ≡ program p) where
    decided_checked :
        (s : ModelCatalogSnapshot) (r : Resolved)
        → catalog ≡ served s
        → decide env req d s ≡ r
        → AllOrNothing (create_decided env ids now trace req d r db)
    decided_checked s (refused why) c e = refl
    decided_checked s (decided decision) c e =
        let (runnable, added, _) =
          (compile_langgraph_iff env.builder d ((validate_graph_iff d).1 graph_valid)).0
            (p, builds) in
        let (chosen, offered) =
          (resolve_model_policy_iff (policy_or_auto req.model_policy) s env.tier_map
              (required_for d) decision).0
            e in
        record {
          d = d;
          s = s;
          decision = decision;
          loaded = loaded;
          graph_valid = graph_valid;
          runnable = runnable;
          accepted = added;
          catalog_served = c;
          chosen = chosen;
          offered = offered.0;
          serves = IsOffered-Serves d s decision.resolved_model offered;
          stored_ = store_run-IsStored env ids now trace req d decision db;
        }

    served_checked :
        (c : Served) → catalog ≡ c → AllOrNothing (create_served env ids now trace req d c db)
    served_checked (unavailable status error) e = refl
    served_checked (served s) e = decided_checked s (decide env req d s) e refl

  runnable_checked :
      (d : AgentDefinition) (b : BuiltProgram)
      → env.load_definition req.graph_name ≡ definition d
      → IsValid d
      → compile_langgraph env.builder (build d) ≡ b
      → AllOrNothing (create_runnable env ids now trace req d catalog (runtime_error b) db)
  runnable_checked d (Program.refused error) l v e = refl
  runnable_checked d (Program.langgraph_error error) l v e = refl
  runnable_checked d (program p) l v e = served_checked d l v p e catalog refl

  compiled_checked :
      (d : AgentDefinition) (c : Check)
      → env.load_definition req.graph_name ≡ definition d
      → validate_graph d ≡ c
      → AllOrNothing (create_compiled env ids now trace req d catalog (compile_checked d c) db)
  compiled_checked d (invalid fault) l e = refl
  compiled_checked d valid l e =
      runnable_checked d (compile_langgraph env.builder (build d)) l ((validate_graph_iff d).0 e)
        refl

  loaded_checked :
      (l : Loaded)
      → env.load_definition req.graph_name ≡ l
      → AllOrNothing (create_loaded env ids now trace req catalog l db)
  unfolding compile_graph
  loaded_checked (no_file error) e = refl
  loaded_checked (load_failed error) e = refl
  loaded_checked (definition d) e = compiled_checked d (validate_graph d) e refl

  -- `create_run` either raises an error and leaves the database as it was, or adds a queued Run of
  -- the request with the graph and the decision, its unclaimed job, its event `model_resolved`, and
  -- the session if it is not there; then the graph is valid and runnable, LangGraph has no error
  -- for its node ids, the model is the one that the policy chooses, an entry of the catalog with it
  -- is selectable, and, if the graph has a Supervisor, its last entry has structured output.
  pub create_run-AllOrNothing : AllOrNothing (create_run env ids now trace req catalog db)
  unfolding create_run
  create_run-AllOrNothing = loaded_checked (env.load_definition req.graph_name) refl
