-- ===== src/Orchestrator/Implementing.antt =====
-- core/orchestrator.ts: the handlers of `launching` and `implementing`.
use ninthwave.Prelude.{
  not, ◌&&◌, [], ◌∷◌, Option, none, some, get_or, or_else, is_some, if◌then◌else◌,
}
use ninthwave.Orchestrator.Types.{
  Config, implementing, ci_pending, heartbeat_timeout, launching_timeout,
}
use ninthwave.Orchestrator.Actions.{
  Stamp, at, Message, FailureReason, crashed_in_launch, launch_timeout, crashed_without_pr,
  stalled_alive, stalled_no_commits, stalled_no_new_commits, clear_feedback_done_signal,
}
use ninthwave.Orchestrator.Item.{Item, ItemSnapshot, is_open}
use ninthwave.Orchestrator.Guards.{is_heartbeat_active, is_activity_timed_out, is_launch_timed_out}
use ninthwave.Orchestrator.Rebase.{is_true, commit_time}
use ninthwave.Orchestrator.Workers.{
  Liveness, alive, dead, debouncing, unknown, check_worker_liveness, should_defer_timeout,
  stuck_or_retry, respawn_for_feedback, is_recoverable_headless_stop, recover_headless_worker,
  inbox_wait_stalled,
}
use ninthwave.Orchestrator.Merge.{or_next, is_unchanged, try_handle_no_new_info}
use ninthwave.Orchestrator.Pipeline.{handle_ci_pending, try_handle_pushback, sync_stack}
use ninthwave.Orchestrator.Reviews.{feedback_answered}
use ninthwave.Orchestrator.Transition.{Clock, ok, ◌>>=◌, Outcome, prepend, transition}

-- A timeout, after its grace period.
unfoldable pub time_out : Config → Clock → FailureReason → ItemSnapshot → Item → Outcome
time_out config clock reason snap item =
    let (item', deferred) = should_defer_timeout config clock item in
    if deferred
    then ok (item', [])
    else if is_recoverable_headless_stop item' snap
    then recover_headless_worker clock item'
    else stuck_or_retry config clock reason item'

-- The case `launching` of `transitionItem`; here a headless worker is not recovered.
unfoldable pub launching_by_liveness : Config → Clock → ItemSnapshot → Item × Liveness → Outcome
launching_by_liveness config clock snap (item, alive) = do
  item' ← transition clock implementing snap.event_time item
  ok (item', [])
launching_by_liveness config clock snap (item, dead) =
    stuck_or_retry config clock crashed_in_launch item
launching_by_liveness config clock snap (item, debouncing) = ok (item, [])
launching_by_liveness config clock snap (item, unknown) =
    if not (is_launch_timed_out item.last_transition clock.now launching_timeout)
    then ok (item, [])
    else (let (item', deferred) = should_defer_timeout config clock item in
        if deferred then ok (item', []) else stuck_or_retry config clock launch_timeout item')

unfoldable pub handle_launching : Config → Clock → ItemSnapshot → Item → Outcome
handle_launching config clock snap item =
    launching_by_liveness config clock snap (check_worker_liveness snap item)

-- The parked-worker stall detector for feedback that was delivered.
unfoldable pub feedback_wait_by : Config → Clock → ItemSnapshot → Item → Option Message → Outcome
feedback_wait_by config clock snap item none = ok (item, [])
feedback_wait_by config clock snap item (some message) =
    if item.needs_feedback_response
      && (is_some snap.inbox_waiting_since && inbox_wait_stalled config item snap clock.now)
    then respawn_for_feedback clock message item
    else ok (item, [])

unfoldable pub watch_feedback_wait : Config → Clock → ItemSnapshot → Item → Outcome
unfolding feedback_wait_by
watch_feedback_wait config clock snap item =
    feedback_wait_by config clock snap item item.pending_feedback_message

-- The commit-based timeouts. `last_alive` is `sd?.lastAliveAt`.
unfoldable pub watch_commits_by :
    Config → Clock → ItemSnapshot → Option Stamp → Item → Option Stamp → Outcome
watch_commits_by config clock snap last_alive item none =
    if is_true snap.worker_alive
    then (if is_activity_timed_out item.last_transition clock.now config.activity_timeout_ms
        then time_out config clock stalled_alive snap item
        else watch_feedback_wait config clock snap item)
    else if is_launch_timed_out
        (get_or (or_else last_alive item.last_alive_at) item.last_transition) clock.now
        config.launch_timeout_ms
    then time_out config clock stalled_no_commits snap item
    else watch_feedback_wait config clock snap item
watch_commits_by config clock snap last_alive item (some commit) =
    if is_activity_timed_out commit clock.now config.activity_timeout_ms
    then time_out config clock stalled_no_new_commits snap item
    else watch_feedback_wait config clock snap item

unfoldable pub watch_commits : Config → Clock → ItemSnapshot → Option Stamp → Item → Outcome
unfolding watch_commits_by
watch_commits config clock snap last_alive item =
    watch_commits_by config clock snap last_alive item (commit_time snap item)

-- A fresh heartbeat keeps the timeouts away.
unfoldable pub watch_heartbeat : Config → Clock → ItemSnapshot → Option Stamp → Item → Outcome
watch_heartbeat config clock snap last_alive item =
    if is_heartbeat_active snap.last_heartbeat clock.now heartbeat_timeout
    then ok (item, [])
    else watch_commits config clock snap last_alive item

abbrev pub saw_alive : Clock → Item → Item
saw_alive clock item = record item { last_alive_at = some (at clock.now) }

unfoldable pub watch_without_pr :
    Config → Clock → ItemSnapshot → Option Stamp → Item × Liveness → Outcome
watch_without_pr config clock snap last_alive (item, dead) =
    if is_recoverable_headless_stop item snap
    then recover_headless_worker clock item
    else stuck_or_retry config clock crashed_without_pr item
watch_without_pr config clock snap last_alive (item, alive) =
    watch_heartbeat config clock snap last_alive (saw_alive clock item)
watch_without_pr config clock snap last_alive (item, debouncing) =
    watch_heartbeat config clock snap last_alive item
watch_without_pr config clock snap last_alive (item, unknown) =
    watch_heartbeat config clock snap last_alive item

-- `handleImplementing` behind the handling of an open pull request.
unfoldable pub watch_implementer : Config → Clock → ItemSnapshot → Item → Outcome
watch_implementer config clock snap item =
    if not (is_some snap.pr_number)
    then watch_without_pr config clock snap item.last_alive_at (check_worker_liveness snap item)
    else if is_true snap.worker_alive
    then watch_heartbeat config clock snap item.last_alive_at
        (saw_alive clock (record item { not_alive_count = 0 }))
    else watch_heartbeat config clock snap item.last_alive_at item

-- The pull request is open: its checks are handled in the same poll.
unfoldable pub open_pull_request : Config → Clock → ItemSnapshot → Item → Outcome
open_pull_request config clock snap item = do
  item' ← transition clock ci_pending snap.event_time (record item { pr_number = snap.pr_number })
  prepend (sync_stack item') (handle_ci_pending config clock snap item')

-- The feedback-done signal, or nothing yet.
unfoldable pub finish_answer : Config → Clock → ItemSnapshot → Item → Outcome
finish_answer config clock snap item =
    if snap.feedback_done_signal
    then prepend (clear_feedback_done_signal item.id ∷ [])
        (open_pull_request config clock snap (feedback_answered item))
    else watch_implementer config clock snap (record item { pr_number = snap.pr_number })

-- The worker was launched to answer a review, and has not pushed since.
unfoldable pub await_answer : Config → Clock → ItemSnapshot → Item → Outcome
await_answer config clock snap item = or_next (try_handle_no_new_info clock snap item) λ item.
    or_next (try_handle_pushback config clock snap item)
      λ item. finish_answer config clock snap item

unfoldable pub handle_implementing : Config → Clock → ItemSnapshot → Item → Outcome
handle_implementing config clock snap item =
    if not (is_some snap.pr_number && is_open snap.pr_state)
    then watch_implementer config clock snap item
    else if is_unchanged item snap
    then await_answer config clock snap item
    else open_pull_request config clock snap item
