-- ===== src/Requests.antt =====
-- core/request-queue.ts: the queue of requests to GitHub, with its rate limit and its slots.
pub mod Semaphore
pub mod Bucket
pub mod Queue
pub mod Laws
