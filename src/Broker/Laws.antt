-- ===== src/Broker/Laws.antt =====
-- What holds of the crew broker of core/broker-state.ts.
pub mod Claims
pub mod Keys
pub mod Runs
pub mod Reach
