-- ===== src/Requests/Laws/Flow.antt =====
-- core/request-queue.ts: what a request queue can become.
use ninthwave.Prelude.{
  ℕ, suc, ◌+◌, ◌≤◌, Bool, true, false, not, ◌&&◌, String, List, [], ◌∷◌, ◌≡◌, refl, subst, ◌∙◌,
  arith, Option, none, some, is_empty, length, length-append, ltb,
}
use ninthwave.Requests.Bucket.{Bucket}
use ninthwave.Requests.Semaphore.{WaitEntry, Semaphore, new_semaphore, acquire, release}
use ninthwave.Requests.Laws.Wakes.{IsRelease, release-IsRelease}
use ninthwave.Requests.Queue.{
  RequestQueue, InFlightEntry, CategoryAccumulator, new_queue, sync_budget, take_rate, take_slot,
  start_request, has_key, find_entry, delete_key, record_completion, check_drain, finish_request,
  drain,
}

-- The requests that got a slot.
abbrev pub woken_count : Option WaitEntry → ℕ
woken_count none = 0
woken_count (some w) = 1

abbrev pub granted_count : Bool → ℕ
granted_count true = 1
granted_count false = 0

-- The runs of a queue with `limit` slots. The number is that of the requests that have a slot and have not
-- started yet; only these start, and only requests in flight end, each under the category with which it
-- started. The list has the categories of all requests that started.
pub data Runs (bucket : Bucket) (limit : ℕ) : RequestQueue → ℕ → List String → Type 0 where
  begins : Runs bucket limit (new_queue bucket (new_semaphore limit)) 0 []
  budget :
      (remaining reset_at now : ℕ) {q : RequestQueue} {n : ℕ} {started : List String}
      → Runs bucket limit q n started
      → Runs bucket limit (sync_budget remaining reset_at now q) n started
  rates :
      (category : String) (readings : List ℕ) {q q' : RequestQueue} {n : ℕ} {started : List String}
      → Runs bucket limit q n started
      → take_rate category readings q ≡ some q'
      → Runs bucket limit q' n started
  slots :
      (w : WaitEntry) {q : RequestQueue} {n : ℕ} {started : List String}
      → Runs bucket limit q n started
      → Runs bucket limit (take_slot w q).0 (n + granted_count (take_slot w q).1) started
  starts :
      (key : ℕ) (entry : InFlightEntry) {q : RequestQueue} {n : ℕ} {started : List String}
      → Runs bucket limit q (suc n) started
      → Runs bucket limit (start_request key entry q) n (entry.category ∷ started)
  ends :
      (key latency_ms : ℕ) (entry : InFlightEntry) (failed : Bool) {q q' : RequestQueue} {n : ℕ}
      {started : List String} (woken : Option WaitEntry)
      → Runs bucket limit q n started
      → find_entry key q.in_flight ≡ some entry
      → finish_request key entry.category latency_ms failed q ≡ some (q', woken)
      → Runs bucket limit q' (n + woken_count woken) started
  drains :
      {q : RequestQueue} {n : ℕ} {started : List String}
      → Runs bucket limit q n started
      → Runs bucket limit (drain q).0 n started

abbrev pub completed : List (String × CategoryAccumulator) → ℕ
completed [] = 0
completed (p ∷ rest) = p.1.count + completed rest

completed-record_completion :
    (c : String) (l : ℕ) (f : Bool) (cs : List (String × CategoryAccumulator))
    → completed (record_completion c l f cs) ≡ completed cs + 1
unfolding record_completion
completed-record_completion c l f [] = refl
completed-record_completion c l f (p ∷ rest) =
    ground (arith, completed-record_completion c l f rest)

length-delete_key :
    (key : ℕ) (es : List (ℕ × InFlightEntry))
    → has_key key es ≡ true
    → length (delete_key key es) + 1 ≡ length es
unfolding delete_key
length-delete_key key [] h = ground arith
length-delete_key key (p ∷ rest) h = ground (arith, length-delete_key key rest)

-- The account of the slots, the requests and the drain of a queue.
abbrev pub IsSlotted : ℕ → RequestQueue → ℕ → Type 0
IsSlotted limit q n =
    (q.semaphore.running ≡ length q.in_flight + n)
    × (q.semaphore.running ≤ limit)
    × (q.semaphore.max_concurrency ≡ limit)
    × (q.total_requests ≡ length q.in_flight + completed q.categories)
    × ((q.draining && is_empty q.in_flight) ≡ false)

length-is_empty : (es : List (ℕ × InFlightEntry)) → is_empty es ≡ not (ltb 0 (length es))
length-is_empty [] = refl
length-is_empty (e ∷ es) = ground arith

take_rate-IsSlotted :
    (limit : ℕ) (c : String) (rs : List ℕ) (q q' : RequestQueue) (n : ℕ)
    → IsSlotted limit q n
    → take_rate c rs q ≡ some q'
    → IsSlotted limit q' n
unfolding take_rate
take_rate-IsSlotted limit c rs q q' n h e = ground arith

take_slot-IsSlotted :
    (limit : ℕ) (w : WaitEntry) (q : RequestQueue) (n : ℕ)
    → IsSlotted limit q n
    → IsSlotted limit (take_slot w q).0 (n + granted_count (take_slot w q).1)
unfolding take_slot acquire
take_slot-IsSlotted limit w q n h = ground arith

start_request-IsSlotted :
    (limit key : ℕ) (entry : InFlightEntry) (q : RequestQueue) (n : ℕ)
    → IsSlotted limit q (suc n)
    → IsSlotted limit (start_request key entry q) n
unfolding start_request
start_request-IsSlotted limit key entry q n h =
    grind (arith, length-append {0} q.in_flight ((key, entry) ∷ []))

woken_count-le : (w : Option WaitEntry) → woken_count w ≤ 1
woken_count-le none = omega arith
woken_count-le (some w) = omega arith

never_both : (a b : Bool) → ((a && not b) && b) ≡ false
never_both true true = refl
never_both true false = refl
never_both false b = refl

-- A release passes its slot on or frees it.
release-running :
    (s after : Semaphore) (woken : Option WaitEntry)
    → release s ≡ some (after, woken)
    → (after.running + 1 ≡ s.running + woken_count woken)
      × (after.max_concurrency ≡ s.max_concurrency)
release-running s after none e =
    let r = subst (λ o. IsRelease s o) e (release-IsRelease s) in (omega (arith, r.2), r.3)
release-running s after (some w) e =
    let r = subst (λ o. IsRelease s o) e (release-IsRelease s) in (omega (arith, r.1), r.2)

finish_request-IsSlotted :
    (limit key latency_ms : ℕ) (category : String) (failed : Bool) (q q' : RequestQueue) (n : ℕ)
    (woken : Option WaitEntry)
    → IsSlotted limit q n
    → has_key key q.in_flight ≡ true
    → finish_request key category latency_ms failed q ≡ some (q', woken)
    → IsSlotted limit q' (n + woken_count woken)
unfolding finish_request
finish_request-IsSlotted limit key latency_ms category failed q q' n woken h k e =
    from (release q.semaphore) refl e
  where
    finished : Semaphore → RequestQueue
    finished after = check_drain (record q {
      semaphore = after;
      categories = record_completion category latency_ms failed q.categories;
      in_flight = delete_key key q.in_flight;
    })

    accounted :
        (after : Semaphore) (w : Option WaitEntry)
        → release q.semaphore ≡ some (after, w)
        → IsSlotted limit (finished after) (n + woken_count w)
    accounted after w r =
        let freed = release-running q.semaphore after w r in
        let left = length-delete_key key q.in_flight k in
        let more = completed-record_completion category latency_ms failed q.categories in
        (
          omega (arith, h.0, freed.0, left),
          omega (arith, h.1, freed.0, woken_count-le w),
          freed.1 ∙ h.2,
          omega (arith, h.3, left, more),
          never_both q.draining (is_empty (delete_key key q.in_flight)),
        )

    Finished : Option (Semaphore × Option WaitEntry) → Option (RequestQueue × Option WaitEntry)
    Finished none = none
    Finished (some r) = some (finished r.0, r.1)

    from :
        (o : Option (Semaphore × Option WaitEntry))
        → release q.semaphore ≡ o
        → Finished o ≡ some (q', woken)
        → IsSlotted limit q' (n + woken_count woken)
    from none r f = absurd (ground arith)
    from (some (after, w)) r f =
        let same : finished after ≡ q' = cc in
        let same_woken : w ≡ woken = cc in
        subst (λ x. IsSlotted limit x (n + woken_count woken)) same
          (subst (λ x. IsSlotted limit (finished after) (n + woken_count x)) same_woken
            (accounted after w r))

drain-IsSlotted :
    (limit : ℕ) (q : RequestQueue) (n : ℕ) → IsSlotted limit q n → IsSlotted limit (drain q).0 n
unfolding drain
drain-IsSlotted limit q n h = ground (arith, length-is_empty q.in_flight)

find_entry-has_key :
    (key : ℕ) (es : List (ℕ × InFlightEntry)) (e : InFlightEntry)
    → find_entry key es ≡ some e
    → has_key key es ≡ true
unfolding find_entry
find_entry-has_key key [] e h = ground arith
find_entry-has_key key (p ∷ rest) e h = grind (arith, find_entry-has_key key rest e)

pub Runs-IsSlotted :
    (bucket : Bucket) (limit : ℕ) (q : RequestQueue) (n : ℕ) (started : List String)
    → Runs bucket limit q n started
    → IsSlotted limit q n
Runs-IsSlotted bucket limit _ _ _ begins = (refl, omega arith, refl, refl, refl)
Runs-IsSlotted bucket limit _ n s (budget remaining reset_at now {q = q} r) =
    Runs-IsSlotted bucket limit q n s r
Runs-IsSlotted bucket limit q' n s (rates category readings {q = q} r e) =
    take_rate-IsSlotted limit category readings q q' n (Runs-IsSlotted bucket limit q n s r) e
Runs-IsSlotted bucket limit _ _ s (slots w {q = q} {n = n} r) =
    take_slot-IsSlotted limit w q n (Runs-IsSlotted bucket limit q n s r)
Runs-IsSlotted bucket limit _ n _ (starts key entry {q = q} {started = s} r) =
    start_request-IsSlotted limit key entry q n (Runs-IsSlotted bucket limit q (suc n) s r)
Runs-IsSlotted bucket limit q' _ s (ends key latency_ms entry failed {q = q} {n = n} woken r k e) =
    finish_request-IsSlotted limit key latency_ms entry.category failed q q' n woken
      (Runs-IsSlotted bucket limit q n s r) (find_entry-has_key key q.in_flight entry k) e
Runs-IsSlotted bucket limit _ n s (drains {q = q} r) =
    drain-IsSlotted limit q n (Runs-IsSlotted bucket limit q n s r)

-- The end of a request that is in flight always has a slot to release, so it never fails.
pub finish_request-total :
    (bucket : Bucket) (limit key latency_ms : ℕ) (category : String) (failed : Bool)
    (q : RequestQueue) (n : ℕ) (started : List String)
    → Runs bucket limit q n started
    → has_key key q.in_flight ≡ true
    → (q' : RequestQueue) × (woken : Option WaitEntry) × (finish_request key category latency_ms
          failed q
        ≡ some (q', woken))
unfolding finish_request
finish_request-total bucket limit key latency_ms category failed q n started r k =
    from (release q.semaphore) refl
  where
    finished : Semaphore → RequestQueue
    finished after = check_drain (record q {
      semaphore = after;
      categories = record_completion category latency_ms failed q.categories;
      in_flight = delete_key key q.in_flight;
    })

    Finished : Option (Semaphore × Option WaitEntry) → Option (RequestQueue × Option WaitEntry)
    Finished none = none
    Finished (some r) = some (finished r.0, r.1)

    from :
        (o : Option (Semaphore × Option WaitEntry))
        → release q.semaphore ≡ o
        → (q' : RequestQueue) × (woken : Option WaitEntry) × (Finished o ≡ some (q', woken))
    from none e =
        let idle = subst (λ x. IsRelease q.semaphore x) e (release-IsRelease q.semaphore) in
        absurd (
          omega (
            arith,
            idle.0,
            (Runs-IsSlotted bucket limit q n started r).0,
            length-delete_key key q.in_flight k,
          ))
    from (some (after, w)) e = (finished after, w, refl)
