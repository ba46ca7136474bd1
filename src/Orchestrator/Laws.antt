-- ===== src/Orchestrator/Laws.antt =====
-- What holds of the state machine of core/orchestrator.ts.
pub mod Post
pub mod Parking
pub mod Handoffs
pub mod Gate
pub mod Checks
pub mod Reviews
pub mod Workers
pub mod Implementing
pub mod PostMerge
pub mod Legality
pub mod MergeGate
pub mod Polls
pub mod Slots
pub mod Liveness
pub mod Batches
pub mod MergeQueue
