-- ===== src/Orchestrator/Reviewing.antt =====
-- core/orchestrator.ts: the handlers of `reviewing` and `rebasing`, in which a second worker is
-- at work on the item.
use ninthwave.Prelude.{
  Bool, true, not, ◌&&◌, ◌||◌, [], ◌∷◌, Option, none, some, get_or, is_some, if◌then◌else◌,
}
use ninthwave.Orchestrator.Types.{
  Config, ci_pending, ci_passed, review_pending, stuck, heartbeat_timeout,
}
use ninthwave.Orchestrator.Actions.{
  ci_regression_in_review, rebaser_died, Message, ci_failed_in_review_fix, rebase_for_failed_ci,
  rebase_for_conflicts, review_feedback, Verdict, ReviewVerdict, approve, request_changes, success,
  failure, reviewer_died, review_passed, changes_requested, clean_review, clean_rebaser,
  set_commit_status, post_review, notify_review, notify_ci_failure,
}
use ninthwave.Orchestrator.Item.{Item, ItemSnapshot, pass, fail, pending}
use ninthwave.Orchestrator.Guards.{is_heartbeat_active, is_event_fresher_than}
use ninthwave.Orchestrator.Rebase.{
  is_false, reset_rebase_retry_cooldown, plan_rebase_conflict_action,
}
use ninthwave.Orchestrator.Workers.{Liveness, unknown, is_dead, check_worker_liveness}
use ninthwave.Orchestrator.Merge.{evaluate_merge}
use ninthwave.Orchestrator.Pipeline.{is_status, enter_ci_failed, progress}
use ninthwave.Orchestrator.Reviews.{drain_review}
use ninthwave.Orchestrator.Transition.{Clock, ok, ◌>>=◌, Outcome, prepend, transition}

unfoldable pub approve_review : Config → Clock → ItemSnapshot → ReviewVerdict → Item → Outcome
approve_review config clock snap v item = do
  item' ← transition clock ci_passed snap.event_time (record item {
    review_completed = true;
    last_reviewed_commit_sha = snap.head_sha;
    last_approved_commit_sha = snap.head_sha;
  })
  prepend
      (clean_review item.id
        ∷ post_review item.id item.pr_number v
        ∷ set_commit_status item.id item.pr_number success
            (review_passed v.blocking_count v.non_blocking_count)
        ∷ [])
      (evaluate_merge config clock snap item')

abbrev pub feedback_of : ReviewVerdict → Item → Message
feedback_of v item =
    review_feedback (get_or item.review_round 1) v.blocking_count v.non_blocking_count v.summary

unfoldable pub request_review_changes : Clock → ItemSnapshot → ReviewVerdict → Item → Outcome
request_review_changes clock snap v item = do
  item' ←
      transition clock review_pending snap.event_time
        (record item { last_reviewed_commit_sha = snap.head_sha })
  ok (
    record item' { pending_feedback_message = some (feedback_of v item) },
    clean_review item.id
        ∷ post_review item.id item.pr_number v
        ∷ set_commit_status item.id item.pr_number failure
            (changes_requested v.blocking_count v.non_blocking_count)
        ∷ notify_review item.id (feedback_of v item)
        ∷ [],
  )

unfoldable pub recover_dead_reviewer : Config → Clock → ItemSnapshot → Item → Outcome
recover_dead_reviewer config clock snap item = do
  item' ← transition clock ci_passed snap.event_time item
  prepend
      (clean_review item.id ∷ set_commit_status item.id item.pr_number failure reviewer_died ∷ [])
      (evaluate_merge config clock snap item')

unfoldable pub fail_ci_in_review : Config → Clock → ItemSnapshot → Item → Outcome
fail_ci_in_review config clock snap item = do
  item' ← enter_ci_failed clock ci_regression_in_review snap item
  prepend (clean_review item.id ∷ []) (
      ok (
        if is_false snap.is_mergeable
        then plan_rebase_conflict_action config clock rebase_for_failed_ci item'
        else (item', notify_ci_failure item.id item.pr_number ci_failed_in_review_fix ∷ [])))

-- The liveness is asked for only while a review worker is known.
abbrev pub reviewer_liveness : ItemSnapshot → Item → Item × Liveness
reviewer_liveness snap item =
    if is_some item.review_workspace_ref then check_worker_liveness snap item else (item, unknown)

-- `handleReviewing` from the liveness check on.
unfoldable pub watch_reviewer : Config → Clock → ItemSnapshot → Item × Liveness → Outcome
watch_reviewer config clock snap (item, liveness) =
    if is_dead liveness
    then recover_dead_reviewer config clock snap item
    else if is_status fail snap.ci_status
    then fail_ci_in_review config clock snap item
    else if is_false snap.is_mergeable
    then (do
      item' ← transition clock ci_pending snap.event_time item
      prepend (clean_review item.id ∷ [])
          (ok (plan_rebase_conflict_action config clock rebase_for_conflicts item')))
    else ok (item, [])

unfoldable pub act_on_verdict :
    Config → Clock → ItemSnapshot → ReviewVerdict → Verdict → Item → Outcome
act_on_verdict config clock snap v approve item = approve_review config clock snap v item
act_on_verdict config clock snap v request_changes item = request_review_changes clock snap v item

unfoldable pub review_by : Config → Clock → ItemSnapshot → Item → Option ReviewVerdict → Outcome
unfolding act_on_verdict
review_by config clock snap item (some v) = act_on_verdict config clock snap v v.verdict item
review_by config clock snap item none =
    if item.review_completed && config.skip_review
    then drain_review config clock snap (clean_review item.id ∷ []) item
    else watch_reviewer config clock snap (reviewer_liveness snap item)

unfoldable pub handle_reviewing : Config → Clock → ItemSnapshot → Item → Outcome
unfolding review_by
handle_reviewing config clock snap item = review_by config clock snap item snap.review_verdict

abbrev pub is_reported : ItemSnapshot → Bool
is_reported snap =
    is_status pending snap.ci_status
    || (is_status pass snap.ci_status || is_status fail snap.ci_status)

-- `handleRebasing` reads the heartbeat against `new Date()`, not against `now`.
unfoldable pub handle_rebasing : Clock → ItemSnapshot → Item → Outcome
handle_rebasing clock snap item =
    if is_heartbeat_active snap.last_heartbeat clock.wall heartbeat_timeout
    then ok (item, [])
    else if is_event_fresher_than snap.event_time item.last_transition && is_reported snap
    then (do
      item' ← transition clock ci_pending none item
      ok (reset_rebase_retry_cooldown clock (progress snap) item', clean_rebaser item.id ∷ []))
    else if not (is_some item.rebaser_workspace_ref)
    then ok (item, [])
    else (let (item', liveness) = check_worker_liveness snap item in
        if not (is_dead liveness) then ok (item', []) else do
          failed ← transition clock stuck none item'
          ok (record failed { failure_reason = some rebaser_died }, clean_rebaser item.id ∷ []))
