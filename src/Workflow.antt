-- ===== src/Workflow.antt =====
-- pkg/workflow/workflow.go: the workflow definitions that a run follows.
pub mod Types
pub mod Retry
pub mod Registry
pub mod Builder
pub mod Validate
