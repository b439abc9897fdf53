-- ===== src/Workflow.antt =====
-- The workflow engine of eami-gateway/internal/workflow: a chain of connector calls, run step by step.
pub mod Types
pub mod Params
pub mod Connector
pub mod Resolve
pub mod Extraction
pub mod Executor
pub mod Trace
pub mod FailStop
pub mod Resolved
pub mod Runs
mod Examples
