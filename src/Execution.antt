-- ===== src/Execution.antt =====
-- core/orchestrator-actions.ts: what carries out the actions that the state machine asks for.
pub mod Deps
pub mod Inbox
pub mod Launch
pub mod MergeBase
pub mod MergeFailure
pub mod MergeSuccess
pub mod Rebasing
pub mod Sessions
pub mod Notices
pub mod Dispatch
pub mod Laws
