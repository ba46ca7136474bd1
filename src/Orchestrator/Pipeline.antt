-- ===== src/Orchestrator/Pipeline.antt =====
-- core/orchestrator.ts: the handlers of the states in which a pull request waits for its checks.
use ninthwave.Prelude.{
  ◌+◌, Bool, true, false, not, ◌&&◌, List, [], ◌∷◌, ◌++◌, Option, none, some, or_else, is_some,
  if◌then◌else◌, ltb,
}
use ninthwave.Orchestrator.Types.{
  Config, ci_pending, ci_passed, ci_failed, stuck, ci_fix_ack_timeout,
}
use ninthwave.Orchestrator.Actions.{
  Stamp, FailureReason, merge_conflicts, ci_checks_failed, max_ci_retries_exceeded,
  worker_not_responding, ci_failed_fix, ci_still_failing_fix, rebase_for_failed_ci,
  rebase_for_conflicts, Action, workspace_close, sync_stack_comments, clear_pushback_signal,
}
use ninthwave.Orchestrator.Item.{
  Item, ItemSnapshot, CiStatus, pass, fail, pending, unknown, PushbackRound,
}
use ninthwave.Orchestrator.Guards.{
  is_ci_fail_trustworthy, should_renotify_ci_failure, is_ci_fix_ack_timed_out,
}
use ninthwave.Orchestrator.Rebase.{
  is_true, is_false, or_null, reset_rebase_retry_cooldown, plan_rebase_conflict_action,
  emit_ci_failure_notification,
}
use ninthwave.Orchestrator.Workers.{is_dead, check_worker_liveness, respawn_ci_fix_worker}
use ninthwave.Orchestrator.Feedback.{Handoff, acted, resolve_pending_feedback_batch}
use ninthwave.Orchestrator.Merge.{or_next, is_unchanged, evaluate_merge}
use ninthwave.Orchestrator.Transition.{Clock, Result, ok, ◌>>=◌, Outcome, prepend, transition}

abbrev pub is_status : CiStatus → Option CiStatus → Bool
is_status pass (some pass) = true
is_status fail (some fail) = true
is_status pending (some pending) = true
is_status unknown (some unknown) = true
is_status _ _ = false

-- The shared steps of each way into `ci-failed`: the transition, the counters and the reason.
unfoldable pub enter_ci_failed : Clock → FailureReason → ItemSnapshot → Item → Result Item
enter_ci_failed clock reason snap item = do
  item' ← transition clock ci_failed snap.event_time item
  ok (record item' {
    ci_fail_count = item'.ci_fail_count + 1;
    ci_fail_count_total = item'.ci_fail_count_total + 1;
    failure_reason = some (if is_false snap.is_mergeable then merge_conflicts else reason);
  })

abbrev pub notified : Item × Action → Item × List Action
notified (item, action) = (item, action ∷ [])

-- CI failed: a merge conflict asks for a rebase, anything else notifies the worker.
unfoldable pub fail_ci : Config → Clock → ItemSnapshot → Item → Outcome
unfolding enter_ci_failed
fail_ci config clock snap item = do
  item' ← enter_ci_failed clock ci_checks_failed snap item
  ok (
      if is_false snap.is_mergeable
      then plan_rebase_conflict_action config clock rebase_for_failed_ci item'
      else notified (emit_ci_failure_notification clock ci_failed_fix item'))

-- CI is running again.
unfoldable pub back_to_pending : Clock → Option Stamp → ItemSnapshot → Item → Outcome
back_to_pending clock progress_at snap item = do
  item' ← transition clock ci_pending snap.event_time item
  ok (reset_rebase_retry_cooldown clock progress_at item', [])

abbrev pub progress : ItemSnapshot → Option Stamp
progress snap = or_else snap.event_time snap.last_commit_time

unfoldable pub pass_ci : Config → Clock → ItemSnapshot → Item → Outcome
pass_ci config clock snap item = do
  item' ← transition clock ci_passed snap.event_time item
  evaluate_merge config clock snap item'

unfoldable pub handle_ci_pending : Config → Clock → ItemSnapshot → Item → Outcome
handle_ci_pending config clock snap item =
    if is_status fail snap.ci_status
      && not
          (is_ci_fail_trustworthy item.ci_pending_since clock.now config.ci_pending_fail_grace_ms)
    then ok (item, [])
    else if is_status fail snap.ci_status
    then fail_ci config clock snap item
    else if is_false snap.is_mergeable
    then ok (plan_rebase_conflict_action config clock rebase_for_conflicts item)
    else if is_status pass snap.ci_status
    then pass_ci config clock snap item
    else or_next (resolve_pending_feedback_batch clock snap item) λ item. ok (item, [])

unfoldable pub handle_ci_passed : Config → Clock → ItemSnapshot → Item → Outcome
handle_ci_passed config clock snap item =
    if is_status fail snap.ci_status
    then fail_ci config clock snap item
    else if is_status pending snap.ci_status
    then back_to_pending clock (progress snap) snap item
    else if is_false snap.is_mergeable
    then (do
      item' ← transition clock ci_pending snap.event_time item
      ok (plan_rebase_conflict_action config clock rebase_for_conflicts item'))
    else evaluate_merge config clock snap item

-- The circuit breaker of `handleCiFailed`; a live worker's session is parked.
unfoldable pub break_circuit : Config → Clock → ItemSnapshot → Item → Outcome
break_circuit config clock snap item = do
  item' ← transition clock stuck none item
  let failed = record item' {
    failure_reason = some (max_ci_retries_exceeded config.max_ci_retries);
  }
  ok (
      if is_true snap.worker_alive
      then (record failed { session_parked = true }, [])
      else (failed, workspace_close item.id ∷ []))

-- One notification for each failure, again after a new commit.
unfoldable pub renotify : Clock → Item → Item × List Action
renotify clock item =
    let reset = record item {
      ci_failure_notified =
          item.ci_failure_notified
          && not (
              should_renotify_ci_failure item.last_commit_time
                (or_null item.ci_failure_notified_at));
    } in
    if reset.ci_failure_notified
    then (reset, [])
    else notified (emit_ci_failure_notification clock ci_still_failing_fix reset)

-- `sd`, which was read before the notification, decides on the acknowledgement.
abbrev pub ack_timed_out : Clock → ItemSnapshot → Item → Bool
ack_timed_out clock snap sd = elim sd.ci_notify_wall_at [
  | none ↦ false
  | some notify ↦
      sd.ci_failure_notified
      && is_ci_fix_ack_timed_out notify snap.last_heartbeat clock.now ci_fix_ack_timeout
]

-- The end of `handleCiFailed`: a dead or silent worker is replaced.
unfoldable pub watch_ci_fix : Clock → ItemSnapshot → Item → Item × List Action → Outcome
watch_ci_fix clock snap sd (item, actions) =
    let (item', liveness) = check_worker_liveness snap item in
    if is_dead liveness
    then respawn_ci_fix_worker clock
        (record item' { failure_reason = some (worker_not_responding item'.not_alive_count) })
    else if ack_timed_out clock snap sd
    then respawn_ci_fix_worker clock item'
    else prepend actions
        (or_next (resolve_pending_feedback_batch clock snap item') λ item. ok (item, []))

unfoldable pub handle_ci_failed : Config → Clock → ItemSnapshot → Item → Outcome
handle_ci_failed config clock snap item =
    if ltb config.max_ci_retries item.ci_fail_count
    then break_circuit config clock snap item
    else if is_status pass snap.ci_status
    then (do
      item' ← transition clock ci_passed snap.event_time item
      handle_ci_passed config clock snap item')
    else if is_status pending snap.ci_status
    then back_to_pending clock (progress snap) snap item
    else if is_false snap.is_mergeable
    then ok (plan_rebase_conflict_action config clock rebase_for_failed_ci item)
    else watch_ci_fix clock snap item (renotify clock item)

-- Disagreement with a review: the round is recorded and the review starts again.
abbrev pub record_pushback : ItemSnapshot → PushbackRound → Item → Item
record_pushback snap round item = record item {
  pushback_rounds = item.pushback_rounds ++ round ∷ [];
  last_reviewed_commit_sha = none;
  needs_feedback_response = false;
  pending_feedback_message = none;
  review_completed = false;
  pr_number = or_else snap.pr_number item.pr_number;
}

-- `[{ type: "sync-stack-comments" }]` for a stacked item.
abbrev pub sync_stack : Item → List Action
sync_stack item = if is_some item.base_branch then sync_stack_comments item.id ∷ [] else []

unfoldable pub push_back : Config → Clock → ItemSnapshot → Item → Option PushbackRound → Handoff
push_back config clock snap item none = ok (item, none)
push_back config clock snap item (some round) =
    if not (is_unchanged item snap) then ok (item, none) else do
      item' ← transition clock ci_pending snap.event_time (record_pushback snap round item)
      acted (
          prepend (clear_pushback_signal item.id ∷ sync_stack item')
            (handle_ci_pending config clock snap item'))

unfoldable pub try_handle_pushback : Config → Clock → ItemSnapshot → Item → Handoff
unfolding push_back
try_handle_pushback config clock snap item = push_back config clock snap item snap.pushback_signal
