-- ===== src/Orchestrator/Reviews.antt =====
-- core/orchestrator.ts: the handlers of `review-pending` and `merging`.
use ninthwave.Prelude.{
  Bool, true, false, not, ◌&&◌, ◌||◌, List, [], ◌∷◌, ◌++◌, Option, none, some, get_or, is_some,
  if◌then◌else◌, leb,
}
use ninthwave.Orchestrator.Types.{Config, ci_passed, stuck}
use ninthwave.Orchestrator.Actions.{
  ci_checks_failed, merge_aborted, ci_failed_fix, rebase_for_failed_ci, rebase_for_conflicts,
  review_changes_requested, github_changes_requested, success, reviews_disabled, Action, merge,
  set_commit_status, clear_feedback_done_signal,
}
use ninthwave.Orchestrator.Item.{
  Item, ItemSnapshot, ReviewDecision, approved, pass, fail, pending, is_open, is_closed,
}
use ninthwave.Orchestrator.Rebase.{
  is_false, plan_rebase_conflict_action, emit_ci_failure_notification,
}
use ninthwave.Orchestrator.Workers.{
  Liveness, is_dead, respawn_ci_fix_worker, respawn_for_feedback, inbox_wait_stalled,
}
use ninthwave.Orchestrator.Feedback.{
  liveness_of_workspace, resolve_pending_feedback_batch, continue_pending_feedback_handoff,
}
use ninthwave.Orchestrator.Merge.{
  or_next, is_unchanged, asks_changes, is_manual, is_bypass, try_handle_no_new_info, evaluate_merge,
}
use ninthwave.Orchestrator.Pipeline.{
  is_status, enter_ci_failed, notified, back_to_pending, progress, pass_ci, try_handle_pushback,
}
use ninthwave.Orchestrator.Transition.{Clock, ok, ◌>>=◌, Outcome, prepend, transition}

-- A review-pending item whose reviewer is dead goes back through the review gate.
unfoldable pub handle_review_pending_stall : Config → Clock → ItemSnapshot → Item → Outcome
handle_review_pending_stall config clock snap item =
    if leb config.max_review_rounds (get_or item.review_round 0) then ok (item, []) else do
      item' ← transition clock ci_passed snap.event_time (record item {
        review_completed = false;
        last_reviewed_commit_sha = none;
        session_parked = false;
      })
      evaluate_merge config clock snap item'

-- The end of `handleReviewPending`: a conflict asks for a rebase, and the stall detector runs.
-- `actions` is the list built so far; some branches return without it, as in the source.
unfoldable pub watch_review_pending : Config → Clock → ItemSnapshot → List Action → Item → Outcome
watch_review_pending config clock snap actions item =
    let (item', rebases) =
      if is_false snap.is_mergeable
      then plan_rebase_conflict_action config clock rebase_for_conflicts item
      else (item, []) in
    if is_false snap.has_reviewer_comment && inbox_wait_stalled config item' snap clock.now
    then prepend (actions ++ rebases) (handle_review_pending_stall config clock snap item')
    else ok (item', actions ++ rebases)

-- The checks fail for an item under review.
unfoldable pub fail_review_pending : Config → Clock → ItemSnapshot → List Action → Item → Outcome
fail_review_pending config clock snap actions item = do
  item' ← enter_ci_failed clock ci_checks_failed snap item
  if is_false snap.is_mergeable
      then prepend actions
          (ok (plan_rebase_conflict_action config clock rebase_for_failed_ci item'))
      else if item.session_parked
      then respawn_ci_fix_worker clock item'
      else prepend actions (ok (notified (emit_ci_failure_notification clock ci_failed_fix item')))

-- The worker that should address the feedback is dead, or still at work on the same commit.
abbrev pub await_push : Clock → List Action → Item × Liveness → Outcome
await_push clock actions (item, liveness) =
    if is_dead liveness
    then respawn_for_feedback clock
        (get_or item.pending_feedback_message (review_changes_requested item.pr_number)) item
    else ok (item, actions)

-- `handleReviewPending` from the CI status on.
unfoldable pub follow_ci_in_review : Config → Clock → ItemSnapshot → List Action → Item → Outcome
follow_ci_in_review config clock snap actions item =
    if is_status fail snap.ci_status
    then fail_review_pending config clock snap actions item
    else if item.review_completed
    then watch_review_pending config clock snap actions item
    else if is_unchanged item snap
    then await_push clock actions (liveness_of_workspace snap item)
    else if is_status pending snap.ci_status
    then prepend actions (back_to_pending clock (progress snap) snap item)
    else if is_status pass snap.ci_status
    then prepend actions (pass_ci config clock snap item)
    else watch_review_pending config clock snap actions item

abbrev pub approves : Option ReviewDecision → Bool
approves (some approved) = true
approves _ = false

-- Both ways to a merge from `review-pending`.
abbrev pub may_merge : Config → ItemSnapshot → Item → Bool
may_merge config snap item =
    is_status pass snap.ci_status
    && (approves snap.review_decision
        || (item.review_completed && not (is_manual config.merge_strategy)))

-- `handleReviewPending` behind the feedback handoffs.
unfoldable pub settle_review : Config → Clock → ItemSnapshot → List Action → Item → Outcome
settle_review config clock snap actions item =
    if may_merge config snap item
    then (if is_some item.workspace_ref
        then ok (item, actions)
        else prepend actions (evaluate_merge config clock snap item))
    else if item.session_parked && asks_changes snap.review_decision
    then respawn_for_feedback clock
        (get_or item.pending_feedback_message (github_changes_requested item.pr_number)) item
    else follow_ci_in_review config clock snap actions item

-- `handleReviewPending` behind the one-shot signals.
unfoldable pub hand_off_review : Config → Clock → ItemSnapshot → List Action → Item → Outcome
hand_off_review config clock snap actions item =
    or_next (continue_pending_feedback_handoff clock snap item) λ item.
      or_next (resolve_pending_feedback_batch clock snap item)
        λ item. settle_review config clock snap actions item

-- The gate is lifted: the worker answered the feedback with no change of code.
abbrev pub feedback_answered : Item → Item
feedback_answered item = record item {
  last_reviewed_commit_sha = none;
  needs_feedback_response = false;
  pending_feedback_message = none;
}

-- The feedback-done signal. With a CI status other than pending and pass the rest of the handler
-- runs, with the clearing of the signal in its list.
unfoldable pub finish_feedback : Config → Clock → ItemSnapshot → Item → Outcome
finish_feedback config clock snap item =
    if is_status pending snap.ci_status
    then prepend (clear_feedback_done_signal item.id ∷ [])
        (back_to_pending clock (progress snap) snap (feedback_answered item))
    else if is_status pass snap.ci_status
    then prepend (clear_feedback_done_signal item.id ∷ [])
        (pass_ci config clock snap (feedback_answered item))
    else hand_off_review config clock snap (clear_feedback_done_signal item.id ∷ [])
        (feedback_answered item)

-- `skipReview` was switched on while the item was under review.
unfoldable pub drain_review : Config → Clock → ItemSnapshot → List Action → Item → Outcome
drain_review config clock snap actions item = do
  item' ← transition clock ci_passed snap.event_time item
  prepend (actions ++ set_commit_status item.id item.pr_number success reviews_disabled ∷ [])
      (evaluate_merge config clock snap item')

unfoldable pub handle_review_pending : Config → Clock → ItemSnapshot → Item → Outcome
handle_review_pending config clock snap item =
    if item.review_completed && config.skip_review
    then drain_review config clock snap [] item
    else or_next (try_handle_no_new_info clock snap item) λ item.
      or_next (try_handle_pushback config clock snap item) λ item.
        if snap.feedback_done_signal && is_unchanged item snap
        then finish_feedback config clock snap item
        else hand_off_review config clock snap [] item

unfoldable pub handle_merging : Config → Clock → ItemSnapshot → Item → Outcome
handle_merging config clock snap item =
    or_next (continue_pending_feedback_handoff clock snap item) λ item.
      or_next (resolve_pending_feedback_batch clock snap item) λ item.
        if is_closed snap.pr_state
        then (do
          item' ← transition clock stuck none item
          ok (record item' { failure_reason = some merge_aborted }, []))
        else if is_open snap.pr_state && is_status pass snap.ci_status
        then ok (item, merge item.id item.pr_number (is_bypass config.merge_strategy) ∷ [])
        else ok (item, [])
