-- ===== src/Lib.antt =====
-- FastAPI + LangGraph agent runtime: a model of its durable execution, with what it promises.
--
-- The program runs agents as durable Runs. The API creates a Run with a Job (app/api/runs.py,
-- app/runtime/run_manager.py); workers claim Jobs under a lease and execute the Run's graph
-- (app/runtime/worker.py, app/runtime/run_manager.py); the execution emits events that are stored
-- and streamed (app/services/events.py, app/services/event_repository.py, app/api/streaming.py); a
-- Run that waits for a human is paused and resumed through an approval
-- (app/services/approval_repository.py). Around that stand the validation and compilation of graphs
-- (app/graph), the catalog of models (app/services/model_catalog.py), the tools (app/tools) and the
-- subagent (app/capabilities/subagent.py). All of them meet in the PostgreSQL tables: the state of
-- the model is the database, and an operation is a function from the database to the database.
--
-- - Common: what the files share: tests on numbers, lists, tables (SELECT and UPDATE with a
--   condition), dicts, slices, sets of names.
-- - Json: JSON values. State: app/core/state.py and the status of approvals. Schema:
--   app/models/db.py, a record for each row and `Db` for the tables together.
-- - Worker: the transactions of `WorkerQueue`. Worker/RunOnce: `run_once` around an abstract
--   handler, with its outcomes as values, the heartbeat loop and `run_forever`.
--   Worker/Claim, Worker/Exclusive, Worker/Leases, Worker/Attempts and Worker/Settled: the proofs
--   on them.
-- - Events: `RuntimeEventRepository`; Events/Redact: `_redact`; Events/Emitter: the emitters of an
--   execution; Events/Sequence, Events/Ordered, Events/Appended, Events/Gapless,
--   Events/Replay and Events/Redact/Hidden: the proofs.
-- - Approvals: `ApprovalRepository`; Approvals/Asked, Approvals/Resolve and
--   Approvals/Decided: the proofs.
-- - RunManager: `execute_run_sync` and `execute_job` around a parameter for the compiled LangGraph
--   program; RunManager/Failure: the classification of failures; RunManager/Create: `create_run` of
--   the manager and its endpoint; RunManager/Graphs: `load_graph` with its cache and
--   app/api/graphs.py; RunManager/Graphs/Cached, RunManager/Attempt and
--   RunManager/Create/Checked: the proofs.
-- - Api/Runs: the endpoints of Runs; Api/Streaming: the event generator over the databases that its
--   rounds see; Api/Approvals: the endpoints of approvals; Api/Streaming/Contiguous and
--   Api/Approvals/Final: the proofs.
-- - Lifecycle: all transactions as steps between databases, in any order and by anyone;
--   Lifecycle/Runs and Lifecycle/Jobs: invariants of their sequences.
-- - Graph: app/graph/schemas.py; Graph/Validator: app/graph/validator.py, with its specification in
--   Graph/Validator/Spec and the proofs in Graph/Validator/Roots, Graph/Validator/Reachable and
--   Graph/Validator/Correct; Graph/Compiler: app/graph/compiler.py; Graph/Routing:
--   app/graph/routing.py. app/graph/langgraph_runtime.py: Graph/Program has `compile_langgraph` and
--   the paths after a Supervisor; Graph/Runtime the route after the Supervisor and the gate of the
--   sensitive tools; Graph/Nodes the state and its patches, with Graph/Nodes/Models,
--   Graph/Nodes/Capabilities (the bodies of the nodes) and Graph/Nodes/Run (`_make_node` with the
--   cancellation check). Graph/Program/Closed, Graph/Program/Landing, Graph/Runtime/Routed,
--   Graph/Runtime/Sensitive, Graph/Runtime/Stuck, Graph/Nodes/Decided and Graph/Nodes/Stopped: the
--   proofs.
-- - Catalog: snapshots; Catalog/Policy: `resolve_model_policy`; Catalog/Service: the cache;
--   Catalog/Offered, Catalog/Selectable and Catalog/Cache: the proofs.
-- - ModelsGateway: the normalization of errors of app/models_gateway.py; ModelsGateway/Completion:
--   `complete`; ModelsGateway/Embedding: `embed`, with `compute_embeddings` of
--   app/capabilities/embeddings.py; ModelsGateway/Retried, ModelsGateway/Completion/Shaped and
--   ModelsGateway/Embedding/Ordered: the proofs.
-- - Rag: app/services/rag_repository.py over the knowledge tables; Rag/Api: app/api/rag.py;
--   Rag/Ingested, Rag/Nearest and Rag/Api/Ends: the proofs. Capabilities/Retriever:
--   app/capabilities/rag.py.
-- - Memory: app/capabilities/memory_store.py and app/api/memory.py; Memory/Owned: the proofs.
-- - Tools: app/tools/registry.py, scope.py, result.py and metadata.py. Tools/Binding: the `bind` of
--   the two adapters; Tools/OpenApi, Tools/OpenApi/Explore and Tools/OpenApi/Calls:
--   app/tools/openapi_adapter.py; Tools/Mcp: app/tools/mcp_adapter.py; Tools/Builtin:
--   app/tools/builtin; Tools/Bootstrap: app/tools/bootstrap.py. Tools/Permitted,
--   Tools/Binding/Found, Tools/Binding/Overridden, Tools/OpenApi/Discovered, Tools/Mcp/Paged,
--   Tools/Mcp/Advertised and Tools/Bootstrap/Gated: the proofs.
-- - Subagent: app/capabilities/subagent.py. Capabilities/Chunks: `chunk_text` of
--   app/capabilities/embeddings.py.
-- - Examples: the theorems at concrete data.
--
-- Bounds. Three loops run on fuel. The reachability search of the validator gets as many rounds as
-- its roots and, for each node, its greatest number of neighbours: it always ends by its own test
-- then. `chunk_text` gets as many rounds as the text has characters. The discovery of an MCP server
-- has a bound on the pages it reads, any number that the server's pages do not exceed: the program
-- has no bound. Times are whole seconds.
--
-- What is not modelled: telemetry, configuration, the process start and migrations; how LangGraph
-- runs a program and keeps its checkpoints; the web UI. Code of other packages is an argument where
-- a definition uses it: LangGraph, LiteLLM, the clients of MCP and Mem0, the HTTP client, urljoin,
-- fnmatch, sha256, the YAML loader, the catalog's HTTP request, the cosine distance of pgvector,
-- pydantic's reading of JSON. Python's arithmetic on floats is an argument too.
pub mod Api
pub mod Approvals
pub mod Capabilities
pub mod Catalog
pub mod Common
pub mod Events
pub mod Examples
pub mod Graph
pub mod Json
pub mod Lifecycle
pub mod Memory
pub mod ModelsGateway
pub mod Rag
pub mod RunManager
pub mod Schema
pub mod State
pub mod Subagent
pub mod Tools
pub mod Worker
