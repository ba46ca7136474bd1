-- ===== src/Orchestrator.antt =====
-- The orchestrator: core/orchestrator.ts, core/orchestrator-types.ts, core/orchestrator-guards.ts.
pub mod Types
pub mod Actions
pub mod Item
pub mod Guards
pub mod Transition
pub mod Rebase
pub mod Workers
pub mod Feedback
pub mod Merge
pub mod Pipeline
pub mod Reviews
pub mod Reviewing
pub mod Implementing
pub mod PostMerge
pub mod Store
pub mod Setup
pub mod Process
pub mod Poll
pub mod Laws
