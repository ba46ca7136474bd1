-- ===== src/Requests/Laws.antt =====
-- What holds of the request queue of core/request-queue.ts.
pub mod Wakes
pub mod Waiting
pub mod Rate
pub mod Flow
pub mod Categories
