-- ===== src/Planning.antt =====
-- core/commands/batch-order.ts: the batches in which work items can be done.
pub mod Batches
pub mod Laws
