-- ===== src/Api.antt =====
-- app/api: the HTTP endpoints that change or read the state of Runs.
pub mod Runs
pub mod Streaming
pub mod Approvals
