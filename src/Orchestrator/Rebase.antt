-- ===== src/Orchestrator/Rebase.antt =====
-- core/orchestrator.ts: the tracking of rebase requests, and the CI failure notification.
use ninthwave.Prelude.{
  ℕ, ◌+◌, Bool, true, false, not, ◌&&◌, List, [], ◌∷◌, Option, none, some, get_or, or_else, is_some,
  if◌then◌else◌, ltb, leb,
}
use ninthwave.Orchestrator.Types.{
  State, Config, ci_pending, ci_passed, ci_failed, review_pending, reviewing,
}
use ninthwave.Orchestrator.Actions.{
  Stamp, at, ms, Message, Action, daemon_rebase, notify_ci_failure,
}
use ninthwave.Orchestrator.Item.{Item, ItemSnapshot, Nullable, undefined, null, stamp}
use ninthwave.Orchestrator.Guards.{is_rebase_stale}
use ninthwave.Orchestrator.Transition.{Clock}

unfoldable pub clear_rebase_retry_state : Bool → Item → Item
clear_rebase_retry_state clear_attempts item = record item {
  rebase_requested = false;
  last_rebase_nudge_at = none;
  rebase_nudge_count = 0;
  rebase_attempt_count = if clear_attempts then 0 else item.rebase_attempt_count;
}

unfoldable pub reset_rebase_retry_cooldown : Clock → Option Stamp → Item → Item
reset_rebase_retry_cooldown clock progress_at item = record item {
  rebase_requested = false;
  last_rebase_nudge_at = some (get_or progress_at (at clock.wall));
  rebase_nudge_count = 0;
}

-- `snap?.lastCommitTime ?? item.lastCommitTime`, with `null` read as absent.
abbrev pub commit_time : ItemSnapshot → Item → Option Stamp
commit_time snap item = or_else snap.last_commit_time (given item.last_commit_time)
  where
    given : Nullable → Option Stamp
    given (stamp s) = some s
    given _ = none

abbrev pub ms_of : Option Stamp → Option ℕ
ms_of none = none
ms_of (some s) = ms s

abbrev pub later : Option ℕ → Option ℕ → Bool
later (some a) (some b) = ltb b a
later _ _ = false

unfoldable pub has_commit_progress : Item → ItemSnapshot → Bool
has_commit_progress item snap =
    later (ms_of (commit_time snap item)) (ms_of item.last_rebase_nudge_at)

unfoldable pub plan_rebase_conflict_action : Config → Clock → Message → Item → Item × List Action
plan_rebase_conflict_action config clock message item =
    if item.rebase_requested && not (is_some item.last_rebase_nudge_at)
    then (record item { last_rebase_nudge_at = some (at clock.now) }, [])
    else if not item.rebase_requested
    then (if not stale then (item, []) else (
      record item {
        rebase_requested = true;
        last_rebase_nudge_at = some (at clock.now);
        rebase_nudge_count = 0;
      },
      daemon_rebase item.id message false ∷ [],
    ))
    else if not stale
    then (item, [])
    else (
      record item {
        last_rebase_nudge_at = some (at clock.now);
        rebase_nudge_count = item.rebase_nudge_count + 1;
      },
      daemon_rebase item.id message (leb 1 item.rebase_nudge_count) ∷ [],
    )
  where
    stale : Bool
    stale = is_rebase_stale item.last_rebase_nudge_at clock.now config.rebase_retry_stale_ms

-- `REBASE_TRACKING_STATES`.
abbrev pub is_rebase_tracking : State → Bool
is_rebase_tracking ci_pending = true
is_rebase_tracking ci_passed = true
is_rebase_tracking ci_failed = true
is_rebase_tracking review_pending = true
is_rebase_tracking reviewing = true
is_rebase_tracking _ = false

-- `=== true` and `=== false` on an optional Boolean.
abbrev pub is_true : Option Bool → Bool
is_true (some true) = true
is_true _ = false

abbrev pub is_false : Option Bool → Bool
is_false (some false) = true
is_false _ = false

unfoldable pub update_rebase_tracking : Clock → ItemSnapshot → Item → Item
unfolding clear_rebase_retry_state reset_rebase_retry_cooldown has_commit_progress
update_rebase_tracking clock snap item =
    if not (is_rebase_tracking item.state)
    then item
    else if is_true snap.is_mergeable
    then clear_rebase_retry_state (ltb 0 item.rebase_attempt_count) item
    else if has_commit_progress item snap
    then reset_rebase_retry_cooldown clock (or_else snap.last_commit_time snap.event_time) item
    else item

-- `item.lastCommitTime ?? null`.
abbrev pub or_null : Nullable → Nullable
or_null undefined = null
or_null null = null
or_null (stamp s) = stamp s

unfoldable pub emit_ci_failure_notification : Clock → Message → Item → Item × Action
emit_ci_failure_notification clock message item = (
  record item {
    ci_failure_notified = true;
    ci_failure_notified_at = or_null item.last_commit_time;
    ci_notify_wall_at = some (at clock.now);
  },
  notify_ci_failure item.id item.pr_number message,
)
