-- ===== src/Broker.antt =====
-- core/broker-state.ts: the crew broker, which shares work items among the daemons of a crew.
pub mod Crew
pub mod Daemons
pub mod Items
pub mod Laws
