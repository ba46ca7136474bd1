-- ===== src/Orchestrator/Workers.antt =====
-- core/orchestrator.ts: worker liveness, timeouts with their grace period, retries and respawns.
use Prim.Native.String.{String}
use text.Mathlib.Text.{starts_with}
use ninthwave.Prelude.{
  ℕ, ◌+◌, max, Bool, true, false, not, ◌&&◌, [], ◌∷◌, Option, none, some, if◌then◌else◌, ltb, leb,
  ◌==◌,
}
use ninthwave.Orchestrator.Types.{Config, ready, stuck, not_alive_threshold}
use ninthwave.Orchestrator.Actions.{
  Stamp, at, malformed, ms, Message, FailureReason, retry, workspace_close,
}
use ninthwave.Orchestrator.Item.{
  Item, ItemSnapshot, undefined, HeadlessPhase, in_implementing, in_waiting,
}
use ninthwave.Orchestrator.Rebase.{commit_time, ms_of, is_true}
use ninthwave.Orchestrator.Transition.{Clock, ok, ◌>>=◌, Outcome, transition}

pub data Liveness : Type 0 where
  alive dead debouncing unknown : Liveness

-- The item with its new count, and the verdict.
unfoldable pub check_worker_liveness : ItemSnapshot → Item → Item × Liveness
check_worker_liveness snap item = elim snap.worker_alive [
  | none ↦ (item, unknown)
  | some up ↦ if up then (record item { not_alive_count = 0 }, alive) else (
    record item { not_alive_count = item.not_alive_count + 1 },
    if leb not_alive_threshold (item.not_alive_count + 1) then dead else debouncing,
  )
]

abbrev pub is_dead : Liveness → Bool
is_dead dead = true
is_dead _ = false

-- The item with its new deadline, and whether the kill is put off.
unfoldable pub should_defer_timeout : Config → Clock → Item → Item × Bool
should_defer_timeout config clock item =
    if config.grace_period_ms == 0 then (item, false) else elim item.timeout_deadline [
      | none ↦ (
        record item {
          timeout_deadline = some (at (clock.now + config.grace_period_ms));
          timeout_extension_count = 0;
        },
        true,
      )
      | some deadline ↦ (item, before clock.now deadline)
    ]
  where
    before : ℕ → Stamp → Bool
    before now (at t) = ltb now t
    before now (malformed s) = false

-- `extendTimeout`, for an item that is tracked; `new Date(NaN).toISOString()` throws, so a deadline
-- that cannot be read is the `none` of the result.
unfoldable pub extend_timeout : Config → ℕ → Item → Option (Item × Bool)
extend_timeout config now item = elim item.timeout_deadline [
  | none ↦ some (item, false)
  | some (malformed s) ↦
      if leb config.max_timeout_extensions item.timeout_extension_count
      then some (item, false)
      else none
  | some (at deadline) ↦
      if leb config.max_timeout_extensions item.timeout_extension_count
      then some (item, false)
      else some (
        record item {
          timeout_deadline = some (at (max now deadline + config.grace_period_ms));
          timeout_extension_count = item.timeout_extension_count + 1;
        },
        true,
      )
]

-- The assignments that `stuckOrRetry` makes before the item goes back to `ready`.
abbrev pub prepare_retry : Item → Item
prepare_retry item = record item {
  retry_count = item.retry_count + 1;
  last_alive_at = none;
  not_alive_count = 0;
  last_commit_time = undefined;
  pending_retry_workspace_ref = item.workspace_ref;
  workspace_ref = none;
}

unfoldable pub stuck_or_retry : Config → Clock → FailureReason → Item → Outcome
stuck_or_retry config clock reason item =
    if ltb item.retry_count config.max_retries
    then (do
      item' ← transition clock ready none (prepare_retry item)
      ok (item', retry item.id ∷ []))
    else do
      item' ← transition clock stuck none item
      ok (record item' { failure_reason = some reason }, workspace_close item.id ∷ [])

unfoldable pub respawn_ci_fix_worker : Clock → Item → Outcome
respawn_ci_fix_worker clock item = do
  item' ← transition clock ready none (record item {
    needs_ci_fix = true;
    not_alive_count = 0;
    last_alive_at = none;
    ci_notify_wall_at = none;
    pending_retry_workspace_ref = item.workspace_ref;
    workspace_ref = none;
  })
  ok (item', retry item.id ∷ [])

unfoldable pub respawn_for_feedback : Clock → Message → Item → Outcome
respawn_for_feedback clock message item = do
  item' ← transition clock ready none (record item {
    review_completed = false;
    needs_feedback_response = true;
    pending_feedback_message = some message;
    pending_feedback_live_delivery_armed = false;
    not_alive_count = 0;
    last_alive_at = none;
    pending_retry_workspace_ref = item.workspace_ref;
    workspace_ref = none;
  })
  ok (item', retry item.id ∷ [])

abbrev pub is_headless : Option String → Bool
is_headless none = false
is_headless (some ref) = starts_with ref "headless:"

abbrev pub made_progress : Option HeadlessPhase → Bool
made_progress (some in_waiting) = true
made_progress (some in_implementing) = true
made_progress _ = false

unfoldable pub is_recoverable_headless_stop : Item → ItemSnapshot → Bool
is_recoverable_headless_stop item snap =
    is_headless item.workspace_ref
    && (not (is_true snap.worker_alive) && made_progress snap.headless_phase)

unfoldable pub recover_headless_worker : Clock → Item → Outcome
recover_headless_worker clock item = do
  item' ← transition clock ready none (record item {
    not_alive_count = 0;
    last_alive_at = none;
    last_commit_time = undefined;
    pending_retry_workspace_ref = item.workspace_ref;
    workspace_ref = none;
  })
  ok (item', retry item.id ∷ [])

-- The latest of the times that can be read.
abbrev pub latest : Option ℕ → Option ℕ → Option ℕ
latest none b = b
latest (some a) none = some a
latest (some a) (some b) = some (max a b)

unfoldable pub inbox_wait_stalled : Config → Item → ItemSnapshot → ℕ → Bool
inbox_wait_stalled config item snap now =
    if config.inbox_wait_expire_ms == 0
    then false
    else elim (latest (ms_of snap.inbox_waiting_since)
        (latest (ms_of (commit_time snap item)) (ms item.last_transition))) [
          | none ↦ false
          | some t ↦ ltb (t + config.inbox_wait_expire_ms) now
        ]
