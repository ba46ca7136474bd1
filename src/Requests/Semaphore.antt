-- ===== src/Requests/Semaphore.antt =====
-- core/request-queue.ts: `PrioritySemaphore`. A waiter's `resolve` is known by a number.
use ninthwave.Prelude.{
  ℕ, zero, suc, ◌+◌, ◌-◌, Bool, List, [], ◌∷◌, ◌++◌, Option, none, some, if◌then◌else◌, ltb,
}

pub data RequestPriority : Type 0 where
  critical high normal low : RequestPriority

abbrev pub priority_order : RequestPriority → ℕ
priority_order critical = 0
priority_order high = 1
priority_order normal = 2
priority_order low = 3

pub record WaitEntry : Type 0 where
  pub priority : RequestPriority
  pub resolve : ℕ

abbrev pub order_of : WaitEntry → ℕ
order_of w = priority_order w.priority

pub record Semaphore : Type 0 where
  pub running : ℕ
  pub max_concurrency : ℕ
  pub wait_queue : List WaitEntry

abbrev pub new_semaphore : ℕ → Semaphore
new_semaphore max_concurrency = record {
  running = 0;
  max_concurrency = max_concurrency;
  wait_queue = [];
}

abbrev pub default_concurrency : ℕ
default_concurrency = 6

-- Whether the slot is granted at once.
unfoldable pub acquire : WaitEntry → Semaphore → Semaphore × Bool
acquire entry s =
    if ltb s.running s.max_concurrency
    then (record s { running = s.running + 1 }, Bool.true)
    else (record s { wait_queue = s.wait_queue ++ entry ∷ [] }, Bool.false)

-- The loop of `release`: the entries from index `i` on, and the best index and order so far.
unfoldable pub best_index : ℕ → ℕ → ℕ → List WaitEntry → ℕ
best_index i best_idx best_priority [] = best_idx
best_index i best_idx best_priority (w ∷ rest) =
    best_index (i + 1) (if ltb (order_of w) best_priority then i else best_idx)
      (if ltb (order_of w) best_priority then order_of w else best_priority) rest

-- `splice(index, 1)`: what is taken out, and the rest.
unfoldable pub splice : ℕ → List WaitEntry → Option WaitEntry × List WaitEntry
splice n [] = (none, [])
splice zero (w ∷ rest) = (some w, rest)
splice (suc n) (w ∷ rest) = let r = splice n rest in (r.0, w ∷ r.1)

-- The two branches of `release`, by the queue. With no slot in use `running` would become negative:
-- there the result is `none`.
unfoldable pub release_from : List WaitEntry → Semaphore → Option (Semaphore × Option WaitEntry)
release_from [] s =
    if ltb 0 s.running then some (record s { running = s.running - 1 }, none) else none
release_from (w ∷ rest) s =
    let r = splice (best_index 1 0 (order_of w) rest) (w ∷ rest) in
    some (record s { wait_queue = r.1 }, r.0)

-- A release wakes a waiter or frees the slot.
unfoldable pub release : Semaphore → Option (Semaphore × Option WaitEntry)
unfolding release_from
release s = release_from s.wait_queue s
