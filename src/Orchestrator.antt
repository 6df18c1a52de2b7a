-- ===== src/Orchestrator.antt =====
-- The controller of AgentTasks (pkg/orchestrator/controller.go).
pub mod Basic
pub mod Submission
pub mod Reconcile
pub mod Writes
pub mod Lifecycle
pub mod Retries
pub mod Cases
pub mod Backoff
pub mod Attempts
pub mod Submitting
pub mod Cleanup
pub mod Running
pub mod Examples
pub mod Watch
pub mod Watching
pub mod Starting
pub mod WatchExamples
