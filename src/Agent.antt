-- ===== src/Agent.antt =====
-- The agent: its configuration, and the worker that verifies and resolves.
pub mod Config
pub mod Execution
pub mod Memory
pub mod Evidence
pub mod Action
pub mod Decision
pub mod Permitting
pub mod Policy
pub mod Kubernetes
pub mod Worker
