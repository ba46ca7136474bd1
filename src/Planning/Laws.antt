-- ===== src/Planning/Laws.antt =====
-- What holds of the batches of core/commands/batch-order.ts.
pub mod Rounds
pub mod Order
pub mod Outcome
pub mod Unknown
