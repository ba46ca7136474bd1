-- ===== src/Examples/Requests.antt =====
-- Concrete inputs for core/request-queue.ts.
use ninthwave.Prelude.{
  ℕ, ◌+◌, ◌*◌, ◌≤◌, List, [], ◌∷◌, refl, arith, In, none, some, Option, false, ◌≡◌,
}
use ninthwave.Requests.Semaphore.{
  critical, normal, WaitEntry, Semaphore, release, new_semaphore, acquire, release_from, splice,
  best_index,
}
use ninthwave.Requests.Bucket.{Bucket, default_bucket}
use ninthwave.Requests.Queue.{
  RequestQueue, InFlightEntry, new_queue, take_slot, start_request, finish_request,
  record_completion, delete_key, find_entry,
}
use ninthwave.Requests.Laws.Flow.{Runs, begins, slots, starts, ends, finish_request-total}
use ninthwave.Requests.Laws.Categories.{IsAccounted, Runs-IsAccounted}
use ninthwave.Requests.Laws.Wakes.{IsRelease, release-IsRelease}
use ninthwave.Requests.Laws.Waiting.{Event, arrives, releases, woken_by, woken_by-In}
use ninthwave.Requests.Laws.Rate.{give_out, give_out-bounded}

abbrev entry : ℕ → WaitEntry
entry n = record { priority = normal; resolve = n }

abbrev urgent : WaitEntry
urgent = record { priority = critical; resolve = 9 }

-- All slots are in use, and three requests wait.
abbrev busy : Semaphore
busy = record { running = 6; max_concurrency = 6; wait_queue = entry 1 ∷ urgent ∷ entry 2 ∷ [] }

release-IsRelease_example : IsRelease busy (release busy)
release-IsRelease_example = release-IsRelease busy

abbrev evening : List Event
evening = releases ∷ arrives (entry 3) ∷ releases ∷ releases ∷ []

woken_by-In_example : In (entry 2) (woken_by evening busy)
woken_by-In_example =
    woken_by-In evening busy (entry 2) (entry 1 ∷ urgent ∷ []) [] refl refl (omega arith)

abbrev seconds : List ℕ
seconds = 1000 ∷ 2000 ∷ 3000 ∷ []

give_out-bounded_example :
    (give_out seconds (default_bucket 0)).0 * 3_600_000
      + ((give_out seconds (default_bucket 0)).1.tokens + 0)
    ≤ 72_000_000 + (give_out seconds (default_bucket 0)).1.last_refill * 4250
give_out-bounded_example = give_out-bounded seconds (default_bucket 0)

abbrev bucket : Bucket
bucket = default_bucket 0

abbrev call : InFlightEntry
call = record { category = "merge"; item_id = none; start_ms = 5 }

-- A queue of one slot: a request takes it and starts, and another waits.
abbrev granted : RequestQueue
granted = (take_slot urgent (new_queue bucket (new_semaphore 1))).0

abbrev started : RequestQueue
started = (take_slot (entry 1) (start_request 0 call granted)).0

history : Runs bucket 1 started 0 ("merge" ∷ [])
unfolding take_slot acquire start_request
history = slots (entry 1) (starts 0 call (slots urgent begins))

-- The request ends.
abbrev nothing_left : RequestQueue × Option WaitEntry
nothing_left = (started, none)

abbrev or_same : Option (RequestQueue × Option WaitEntry) → RequestQueue × Option WaitEntry
or_same none = nothing_left
or_same (some r) = r

ended : RequestQueue × Option WaitEntry
unfolding finish_request
ended = or_same (finish_request 0 "merge" 20 false started)

Runs-IsAccounted_example : IsAccounted 1 ended.0 1 ("merge" ∷ [])
unfolding ended finish_request take_slot acquire start_request release release_from splice
    best_index record_completion delete_key find_entry
Runs-IsAccounted_example =
    Runs-IsAccounted bucket 1 ended.0 1 ("merge" ∷ [])
      (ends 0 20 call false (some (entry 1)) history refl refl)

finish_request-total_example :
    (q' : RequestQueue) × (woken : Option WaitEntry) × (finish_request 0 "merge" 20 false started
      ≡ some (q', woken))
unfolding take_slot start_request acquire
finish_request-total_example =
    finish_request-total bucket 1 0 20 "merge" false started 0 ("merge" ∷ []) history refl
