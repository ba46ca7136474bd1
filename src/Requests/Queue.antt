-- ===== src/Requests/Queue.antt =====
-- core/request-queue.ts: `RequestQueue`, by the steps between which `enqueue` waits: the token, the slot,
-- the start and the end of a request. The key of a request in flight, a symbol, is a number. The audit
-- log is left out.
use ninthwave.Prelude.{
  ℕ, ◌+◌, ◌/◌, ◌*◌, Bool, true, false, not, ◌&&◌, String, List, [], ◌∷◌, ◌++◌, Option, none, some,
  any, is_empty, length, if◌then◌else◌, ltb, ◌==◌, str_eq,
}
use ninthwave.Requests.Bucket.{Bucket, update_budget, acquire_token}
use ninthwave.Requests.Semaphore.{WaitEntry, Semaphore, acquire, release}

pub record InFlightEntry : Type 0 where
  pub category : String
  pub item_id : Option String
  pub start_ms : ℕ

pub record CategoryAccumulator : Type 0 where
  pub count : ℕ
  pub total_latency_ms : ℕ
  pub failure_count : ℕ

-- Whether a `drain` waits is `draining`.
pub record RequestQueue : Type 0 where
  pub token_bucket : Bucket
  pub semaphore : Semaphore
  pub in_flight : List (ℕ × InFlightEntry)
  pub categories : List (String × CategoryAccumulator)
  pub total_requests : ℕ
  pub draining : Bool

abbrev pub new_queue : Bucket → Semaphore → RequestQueue
new_queue bucket semaphore = record {
  token_bucket = bucket;
  semaphore = semaphore;
  in_flight = [];
  categories = [];
  total_requests = 0;
  draining = false;
}

-- `updateBudget`.
abbrev pub sync_budget : ℕ → ℕ → ℕ → RequestQueue → RequestQueue
sync_budget remaining reset_at now q = record q {
  token_bucket = update_budget remaining reset_at now q.token_bucket;
}

-- The first wait of `enqueue`, at these readings of the clock.
unfoldable pub take_rate : String → List ℕ → RequestQueue → Option RequestQueue
unfolding acquire_token
take_rate category readings q = elim (acquire_token category readings q.token_bucket) [
  | none ↦ none
  | some b ↦ some (record q { token_bucket = b })
]

-- The second: whether the slot is there at once.
unfoldable pub take_slot : WaitEntry → RequestQueue → RequestQueue × Bool
unfolding acquire
take_slot w q = let r = acquire w q.semaphore in (record q { semaphore = r.0 }, r.1)

-- A request with its slot starts.
unfoldable pub start_request : ℕ → InFlightEntry → RequestQueue → RequestQueue
start_request key entry q = record q {
  in_flight = q.in_flight ++ (key, entry) ∷ [];
  total_requests = q.total_requests + 1;
}

abbrev pub has_key : ℕ → List (ℕ × InFlightEntry) → Bool
has_key key entries = any (λ p. p.0 == key) entries

-- `inFlight.get`.
unfoldable pub find_entry : ℕ → List (ℕ × InFlightEntry) → Option InFlightEntry
find_entry key [] = none
find_entry key (p ∷ rest) = if p.0 == key then some p.1 else find_entry key rest

-- `Map.delete`.
unfoldable pub delete_key : ℕ → List (ℕ × InFlightEntry) → List (ℕ × InFlightEntry)
delete_key key [] = []
delete_key key (p ∷ rest) =
    let later = delete_key key rest in if p.0 == key then rest else p ∷ later

abbrev pub counted : ℕ → Bool → CategoryAccumulator → CategoryAccumulator
counted latency_ms failed acc = record {
  count = acc.count + 1;
  total_latency_ms = acc.total_latency_ms + latency_ms;
  failure_count = if failed then acc.failure_count + 1 else acc.failure_count;
}

-- `recordCompletion`, on the accumulators.
unfoldable pub record_completion :
    String → ℕ → Bool → List (String × CategoryAccumulator) → List (String × CategoryAccumulator)
record_completion category latency_ms failed [] =
    (
      category,
      counted latency_ms failed (record { count = 0; total_latency_ms = 0; failure_count = 0 }),
    )
    ∷ []
record_completion category latency_ms failed (p ∷ rest) =
    let later = record_completion category latency_ms failed rest in
    if str_eq p.0 category then (p.0, counted latency_ms failed p.1) ∷ rest else p ∷ later

-- `checkDrain`.
abbrev pub check_drain : RequestQueue → RequestQueue
check_drain q = record q { draining = q.draining && not (is_empty q.in_flight) }

-- A request ends, well or with an exception: it is recorded, its slot passes on, and it leaves. The waiter
-- that is woken is returned; `none` is a release with no slot in use.
unfoldable pub finish_request :
    ℕ → String → ℕ → Bool → RequestQueue → Option (RequestQueue × Option WaitEntry)
unfolding release record_completion delete_key
finish_request key category latency_ms failed q = elim (release q.semaphore) [
  | none ↦ none
  | some r ↦ some (
    check_drain (record q {
      semaphore = r.0;
      categories = record_completion category latency_ms failed q.categories;
      in_flight = delete_key key q.in_flight;
    }),
    r.1,
  )
]

-- `drain`: whether it is over at once.
unfoldable pub drain : RequestQueue → RequestQueue × Bool
drain q = if ltb 0 (length q.in_flight) then (record q { draining = true }, false) else (q, true)

-- The mean latency of a category, rounded half up.
abbrev pub avg_latency_ms : CategoryAccumulator → ℕ
avg_latency_ms acc =
    if ltb 0 acc.count then (2 * acc.total_latency_ms + acc.count) / (2 * acc.count) else 0
