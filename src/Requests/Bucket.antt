-- ===== src/Requests/Bucket.antt =====
-- core/request-queue.ts: `TokenBucket`, in exact arithmetic. Tokens are counted in fractions: `unit` of them make a token
-- and `rate` are added in a millisecond, in place of the floating point of the source. The refill rate
-- of 4250 / 3600 tokens a second is a rate of 4250 with a unit of 3600000. Times are in milliseconds,
-- and the reset of the budget in seconds.
use ninthwave.Prelude.{
  ℕ, ◌+◌, ◌-◌, ◌*◌, min, max, Bool, false, ◌&&◌, String, List, [], ◌∷◌, Option, none, some, is_some,
  if◌then◌else◌, ltb, leb, ◌==◌, str_eq,
}

pub record Bucket : Type 0 where
  pub tokens : ℕ
  pub burst_size : ℕ
  pub rate : ℕ
  pub unit : ℕ
  pub last_refill : ℕ
  pub budget_remaining : Option ℕ
  pub budget_reset_at : Option ℕ

-- The burst is given in tokens.
abbrev pub new_bucket : ℕ → ℕ → ℕ → ℕ → Bucket
new_bucket rate unit burst now = record {
  tokens = burst * unit;
  burst_size = burst * unit;
  rate = rate;
  unit = unit;
  last_refill = now;
  budget_remaining = none;
  budget_reset_at = none;
}

abbrev pub default_bucket : ℕ → Bucket
default_bucket now = new_bucket 4250 3_600_000 20 now

-- `updateBudget(remaining, resetAt)`.
unfoldable pub update_budget : ℕ → ℕ → ℕ → Bucket → Bucket
update_budget remaining reset_at now b = record b {
  budget_remaining = some remaining;
  budget_reset_at = some reset_at;
  tokens = if ltb 0 remaining then max b.tokens (min (remaining * b.unit) b.burst_size) else 0;
  last_refill = now;
}

abbrev pub is_spent : Option ℕ → Bool
is_spent none = false
is_spent (some n) = n == 0

abbrev pub is_before : ℕ → Option ℕ → Bool
is_before now none = false
is_before now (some reset_at) = ltb now (reset_at * 1000)

-- The refill by the time that has passed.
abbrev pub add_tokens : ℕ → Bucket → Bucket
add_tokens now b = record b {
  tokens = min b.burst_size (b.tokens + (now - b.last_refill) * b.rate);
  last_refill = now;
}

unfoldable pub refill : ℕ → Bucket → Bucket
refill now b =
    if leb now b.last_refill
    then b
    else if is_spent b.budget_remaining && is_before now b.budget_reset_at
    then record b { tokens = 0; last_refill = now }
    else if is_spent b.budget_remaining
    then add_tokens now (record b { budget_remaining = none; budget_reset_at = none })
    else add_tokens now b

abbrev pub spend : Option ℕ → Option ℕ
spend none = none
spend (some n) = some (n - 1)

-- The token is taken, if there is one.
unfoldable pub take_token : Bucket → Option Bucket
take_token b =
    if ltb b.tokens b.unit
    then none
    else some (record b { tokens = b.tokens - b.unit; budget_remaining = spend b.budget_remaining })

abbrev pub exempt_category : String
exempt_category = "rate-limit-query"

-- The loop of `acquire`, by the readings of the clock: one at the start, and one after each sleep. The
-- result is `none` where it still waits after the last of them.
unfoldable pub wait_for_token : List ℕ → Bucket → Option Bucket
unfolding refill take_token
wait_for_token [] b = none
wait_for_token (now ∷ later) b = elim (take_token (refill now b)) [
  | some b' ↦ some b'
  | none ↦ wait_for_token later (refill now b)
]

unfoldable pub acquire_token : String → List ℕ → Bucket → Option Bucket
unfolding wait_for_token
acquire_token category readings b =
    if str_eq category exempt_category then some b else wait_for_token readings b

unfoldable pub is_throttled : ℕ → Bucket → Bucket × Bool
unfolding refill
is_throttled now b = (refill now b, ltb (refill now b).tokens b.unit)

-- `getBudgetUtilization`, in parts of 5000.
unfoldable pub budget_utilization : Bucket → ℕ
budget_utilization b = elim b.budget_remaining [
  | none ↦ 0
  | some remaining ↦ if is_some b.budget_reset_at then 5000 - remaining else 0
]
