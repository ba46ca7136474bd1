-- ===== src/Orchestrator/Laws/Reviews.antt =====
-- core/orchestrator.ts: the handlers of `review-pending` and `merging`.
use ninthwave.Prelude.{
  true, ◌&&◌, List, [], ◌∷◌, ◌++◌, ◌≡◌, refl, ◌∙◌, inl, inr, none, leb, is_some, get_or,
  if◌then◌else◌,
}
use ninthwave.Orchestrator.Types.{Config, ci_passed, ci_failed, review_pending, merging, stuck}
use ninthwave.Orchestrator.Actions.{
  Action, ci_checks_failed, rebase_for_conflicts, rebase_for_failed_ci, clear_feedback_done_signal,
  set_commit_status, success, reviews_disabled,
}
use ninthwave.Orchestrator.Item.{Item, ItemSnapshot, is_open, is_closed, pass, fail, pending}
use ninthwave.Orchestrator.Rebase.{
  is_false, plan_rebase_conflict_action, emit_ci_failure_notification,
}
use ninthwave.Orchestrator.Workers.{Liveness, is_dead}
use ninthwave.Orchestrator.Feedback.{
  liveness_of_workspace, resolve_pending_feedback_batch, continue_pending_feedback_handoff,
}
use ninthwave.Orchestrator.Merge.{is_unchanged, asks_changes, try_handle_no_new_info}
use ninthwave.Orchestrator.Pipeline.{is_status, enter_ci_failed, progress, try_handle_pushback}
use ninthwave.Orchestrator.Reviews.{
  handle_review_pending_stall, watch_review_pending, fail_review_pending, await_push,
  follow_ci_in_review, may_merge, settle_review, hand_off_review, feedback_answered,
  finish_feedback, drain_review, handle_review_pending, handle_merging,
}
use ninthwave.Orchestrator.Transition.{Clock}
use ninthwave.Orchestrator.Laws.Post.{
  Post, Post-bind, prepend-Post, or_next-Post, if-Post, if-holds, may_move,
}
use ninthwave.Orchestrator.Laws.Parking.{
  well_parked, Parks, Enters, Enters-then-Parks, SameParking, SameParking-well_parked,
  check_worker_liveness_keeps, respawn_ci_fix_worker-Parks, respawn_for_feedback-Parks,
}
use ninthwave.Orchestrator.Laws.Handoffs.{
  resolve_pending_feedback_batch-Parks, continue_pending_feedback_handoff-Parks,
  try_handle_no_new_info-Parks,
}
use ninthwave.Orchestrator.Laws.Gate.{evaluate_merge-Parks}
use ninthwave.Orchestrator.Laws.Checks.{
  plan_rebase_keeps, plan_rebase-Parks, enter_ci_failed_parks, back_to_pending-Parks, pass_ci-Parks,
  try_handle_pushback-Parks,
}

abbrev IsParkedWell : Item → Type 0
IsParkedWell i = well_parked i ≡ true

module _ (config : Config) (clock : Clock) (snap : ItemSnapshot) where
  handle_review_pending_stall-Parks :
      (item : Item)
      → item.state ≡ review_pending
      → well_parked item ≡ true
      → Post Parks (handle_review_pending_stall config clock snap item)
  unfolding handle_review_pending_stall
  handle_review_pending_stall-Parks item s h =
      if-Post Parks (leb config.max_review_rounds (get_or item.review_round 0)) _ _ (λ _. h)
        λ _.
          Enters-then-Parks clock ci_passed snap.event_time _ _ (rw s refl) refl
            λ i e. evaluate_merge-Parks config clock snap i (inl e.0) e.1

  watch_review_pending-Parks :
      (actions : List Action) (item : Item)
      → item.state ≡ review_pending
      → well_parked item ≡ true
      → Post Parks (watch_review_pending config clock snap actions item)
  unfolding watch_review_pending
  watch_review_pending-Parks actions item s h =
      if-Post Parks (is_false snap.has_reviewer_comment && _) _ _
        (λ _.
          prepend-Post IsParkedWell (actions ++ planned.1) _
            (handle_review_pending_stall-Parks planned.0 (same.0 ∙ s) parked))
        (λ _. parked)
    where
      planned : Item × List Action
      planned =
          if is_false snap.is_mergeable
          then plan_rebase_conflict_action config clock rebase_for_conflicts item
          else (item, [])

      same : SameParking planned.0 item
      same =
          if-holds {A = Item × List Action} (λ p. SameParking p.0 item) (is_false snap.is_mergeable)
            _ _ (plan_rebase_keeps config clock rebase_for_conflicts item) (refl, refl)

      parked : well_parked planned.0 ≡ true
      parked = SameParking-well_parked planned.0 item same h

  fail_review_pending-Parks :
      (actions : List Action) (item : Item)
      → item.state ≡ review_pending
      → well_parked item ≡ true
      → Post Parks (fail_review_pending config clock snap actions item)
  unfolding fail_review_pending emit_ci_failure_notification
  fail_review_pending-Parks actions item s h =
      Post-bind (Enters ci_failed) Parks (enter_ci_failed clock ci_checks_failed snap item) _
        (enter_ci_failed_parks clock ci_checks_failed snap item (rw s refl) h)
        λ i e.
          if-Post Parks (is_false snap.is_mergeable) _ _
            (λ _. plan_rebase-Parks config clock rebase_for_failed_ci i e.1)
            λ _.
              if-Post Parks item.session_parked _ _
                (λ _. respawn_ci_fix_worker-Parks clock i (rw e.0 refl) e.1) (λ _. e.1)

  await_push-Parks :
      (actions : List Action) (item : Item)
      → item.state ≡ review_pending
      → well_parked item ≡ true
      → Post Parks (await_push clock actions (liveness_of_workspace snap item))
  await_push-Parks actions item s h =
      if-Post Parks (is_dead read.1) _ _
        (λ _. respawn_for_feedback-Parks clock _ read.0 (rw (keeps.0, s) refl) counted)
        (λ _. counted)
    where
      read : Item × Liveness
      read = liveness_of_workspace snap item

      keeps : SameParking read.0 item
      keeps =
          if-holds {A = Item × Liveness} (λ p. SameParking p.0 item) (is_some item.workspace_ref) _
            _ (check_worker_liveness_keeps snap item) (refl, refl)

      counted : well_parked read.0 ≡ true
      counted = SameParking-well_parked read.0 item keeps h

  follow_ci_in_review-Parks :
      (actions : List Action) (item : Item)
      → item.state ≡ review_pending
      → well_parked item ≡ true
      → Post Parks (follow_ci_in_review config clock snap actions item)
  unfolding follow_ci_in_review
  follow_ci_in_review-Parks actions item s h =
      if-Post Parks (is_status fail snap.ci_status) _ _
        (λ _. fail_review_pending-Parks actions item s h)
        λ _.
          if-Post Parks item.review_completed _ _ (λ _. watch_review_pending-Parks actions item s h)
            λ _.
              if-Post Parks (is_unchanged item snap) _ _ (λ _. await_push-Parks actions item s h)
                λ _.
                  if-Post Parks (is_status pending snap.ci_status) _ _
                    (λ _.
                      prepend-Post IsParkedWell actions _ (
                        back_to_pending-Parks config clock snap (progress snap) item (rw s refl) h))
                    λ _.
                      if-Post Parks (is_status pass snap.ci_status) _ _
                        (λ _.
                          prepend-Post IsParkedWell actions _
                            (pass_ci-Parks config clock snap item (rw s refl) h))
                        (λ _. watch_review_pending-Parks actions item s h)

  settle_review-Parks :
      (actions : List Action) (item : Item)
      → item.state ≡ review_pending
      → well_parked item ≡ true
      → Post Parks (settle_review config clock snap actions item)
  unfolding settle_review
  settle_review-Parks actions item s h =
      if-Post Parks (may_merge config snap item) _ _
        (λ _.
          if-Post Parks (is_some item.workspace_ref) _ _ (λ _. h)
            (λ _.
              prepend-Post IsParkedWell actions _
                (evaluate_merge-Parks config clock snap item (inr s) h)))
        λ _.
          if-Post Parks (item.session_parked && asks_changes snap.review_decision) _ _
            (λ _. respawn_for_feedback-Parks clock _ item (rw s refl) h)
            (λ _. follow_ci_in_review-Parks actions item s h)

  hand_off_review-Parks :
      (actions : List Action) (item : Item)
      → item.state ≡ review_pending
      → well_parked item ≡ true
      → Post Parks (hand_off_review config clock snap actions item)
  unfolding hand_off_review
  hand_off_review-Parks actions item s h =
      or_next-Post Parks item (continue_pending_feedback_handoff clock snap item) _
        (continue_pending_feedback_handoff-Parks clock snap item h (inl s))
        (or_next-Post Parks item (resolve_pending_feedback_batch clock snap item) _
          (resolve_pending_feedback_batch-Parks clock snap item h)
          (settle_review-Parks actions item s h))

  finish_feedback-Parks :
      (item : Item)
      → item.state ≡ review_pending
      → well_parked item ≡ true
      → Post Parks (finish_feedback config clock snap item)
  unfolding finish_feedback
  finish_feedback-Parks item s h =
      let answered = feedback_answered item in
      let clear = clear_feedback_done_signal item.id ∷ [] in
      if-Post Parks (is_status pending snap.ci_status) _ _
        (λ _.
          prepend-Post IsParkedWell clear _
            (back_to_pending-Parks config clock snap (progress snap) answered (rw s refl) h))
        λ _.
          if-Post Parks (is_status pass snap.ci_status) _ _
            (λ _.
              prepend-Post IsParkedWell clear _
                (pass_ci-Parks config clock snap answered (rw s refl) h))
            (λ _. hand_off_review-Parks _ answered s h)

  pub drain_review-Parks :
      (actions : List Action) (item : Item)
      → may_move item.state ci_passed ≡ true
      → well_parked item ≡ true
      → Post Parks (drain_review config clock snap actions item)
  unfolding drain_review
  drain_review-Parks actions item legal h =
      Enters-then-Parks clock ci_passed snap.event_time item _ legal h λ i e.
        prepend-Post IsParkedWell
          (actions ++ set_commit_status item.id item.pr_number success reviews_disabled ∷ []) _
          (evaluate_merge-Parks config clock snap i (inl e.0) e.1)

  pub handle_review_pending-Parks :
      (item : Item)
      → item.state ≡ review_pending
      → well_parked item ≡ true
      → Post Parks (handle_review_pending config clock snap item)
  unfolding handle_review_pending
  handle_review_pending-Parks item s h =
      if-Post Parks (item.review_completed && config.skip_review) _ _
        (λ _. drain_review-Parks [] item (rw s refl) h)
        λ _.
          or_next-Post Parks item (try_handle_no_new_info clock snap item) _
            (try_handle_no_new_info-Parks clock snap item h (rw s refl))
            (or_next-Post Parks item (try_handle_pushback config clock snap item) _
              (try_handle_pushback-Parks config clock snap item (rw s refl) h)
              (if-Post Parks (snap.feedback_done_signal && is_unchanged item snap) _ _
                (λ _. finish_feedback-Parks item s h) (λ _. hand_off_review-Parks [] item s h)))

  pub handle_merging-Parks :
      (item : Item)
      → item.state ≡ merging
      → well_parked item ≡ true
      → Post Parks (handle_merging config clock snap item)
  unfolding handle_merging
  handle_merging-Parks item s h =
      or_next-Post Parks item (continue_pending_feedback_handoff clock snap item) _
        (continue_pending_feedback_handoff-Parks clock snap item h (inr (inr s)))
        (or_next-Post Parks item (resolve_pending_feedback_batch clock snap item) _
          (resolve_pending_feedback_batch-Parks clock snap item h)
          (if-Post Parks (is_closed snap.pr_state) _ _
            (λ _. Enters-then-Parks clock stuck none item _ (rw s refl) h λ i e. e.1)
            λ _.
              if-Post Parks (is_open snap.pr_state && is_status pass snap.ci_status) _ _ (λ _. h)
                (λ _. h)))
