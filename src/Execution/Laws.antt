-- ===== src/Execution/Laws.antt =====
-- What holds of the actions of core/orchestrator-actions.ts.
pub mod Moves
pub mod BaseChecks
pub mod Gate
pub mod Failures
pub mod Refusals
pub mod LaunchEnds
pub mod Launches
pub mod Rebases
pub mod Forgotten
