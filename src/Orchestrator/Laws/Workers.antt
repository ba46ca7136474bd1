-- ===== src/Orchestrator/Laws/Workers.antt =====
-- core/orchestrator.ts: the handlers of `reviewing` and `rebasing`, in which a second worker is at work.
use ninthwave.Prelude.{true, not, ◌&&◌, [], ◌∷◌, ◌≡◌, refl, ◌∙◌, inl, some, none, Option, is_some}
use ninthwave.Orchestrator.Types.{
  Config, ci_pending, ci_passed, ci_failed, review_pending, reviewing, rebasing, stuck,
  heartbeat_timeout,
}
use ninthwave.Orchestrator.Actions.{
  ci_regression_in_review, Verdict, ReviewVerdict, approve, request_changes, rebase_for_conflicts,
  rebase_for_failed_ci, clean_review, set_commit_status, post_review, success, failure,
  reviewer_died, review_passed,
}
use ninthwave.Orchestrator.Item.{Item, ItemSnapshot, fail}
use ninthwave.Orchestrator.Guards.{is_heartbeat_active, is_event_fresher_than}
use ninthwave.Orchestrator.Rebase.{is_false, reset_rebase_retry_cooldown}
use ninthwave.Orchestrator.Workers.{Liveness, is_dead, check_worker_liveness}
use ninthwave.Orchestrator.Pipeline.{is_status, enter_ci_failed}
use ninthwave.Orchestrator.Reviewing.{
  approve_review, request_review_changes, recover_dead_reviewer, fail_ci_in_review,
  reviewer_liveness, watch_reviewer, act_on_verdict, review_by, handle_reviewing, is_reported,
  handle_rebasing,
}
use ninthwave.Orchestrator.Transition.{Clock}
use ninthwave.Orchestrator.Laws.Post.{Post, Post-bind, prepend-Post, if-Post, if-holds}
use ninthwave.Orchestrator.Laws.Parking.{
  well_parked, Parks, Enters, Enters-then-Parks, SameParking, SameParking-well_parked,
  check_worker_liveness_keeps,
}
use ninthwave.Orchestrator.Laws.Gate.{evaluate_merge-Parks}
use ninthwave.Orchestrator.Laws.Checks.{plan_rebase-Parks, enter_ci_failed_parks}
use ninthwave.Orchestrator.Laws.Reviews.{drain_review-Parks}

abbrev IsParkedWell : Item → Type 0
IsParkedWell i = well_parked i ≡ true

module _ (config : Config) (clock : Clock) (snap : ItemSnapshot) where
  approve_review-Parks :
      (v : ReviewVerdict) (item : Item)
      → item.state ≡ reviewing
      → well_parked item ≡ true
      → Post Parks (approve_review config clock snap v item)
  unfolding approve_review
  approve_review-Parks v item s h =
      Enters-then-Parks clock ci_passed snap.event_time _ _ (rw s refl) h λ i e.
        prepend-Post IsParkedWell
          (clean_review item.id
            ∷ post_review item.id item.pr_number v
            ∷ set_commit_status item.id item.pr_number success
                (review_passed v.blocking_count v.non_blocking_count)
            ∷ [])
          _ (evaluate_merge-Parks config clock snap i (inl e.0) e.1)

  request_review_changes-Parks :
      (v : ReviewVerdict) (item : Item)
      → item.state ≡ reviewing
      → well_parked item ≡ true
      → Post Parks (request_review_changes clock snap v item)
  unfolding request_review_changes
  request_review_changes-Parks v item s h =
      Enters-then-Parks clock review_pending snap.event_time _ _ (rw s refl) h λ i e. e.1

  recover_dead_reviewer-Parks :
      (item : Item)
      → item.state ≡ reviewing
      → well_parked item ≡ true
      → Post Parks (recover_dead_reviewer config clock snap item)
  unfolding recover_dead_reviewer
  recover_dead_reviewer-Parks item s h =
      Enters-then-Parks clock ci_passed snap.event_time item _ (rw s refl) h λ i e.
        prepend-Post IsParkedWell
          (clean_review item.id
            ∷ set_commit_status item.id item.pr_number failure reviewer_died
            ∷ [])
          _ (evaluate_merge-Parks config clock snap i (inl e.0) e.1)

  fail_ci_in_review-Parks :
      (item : Item)
      → item.state ≡ reviewing
      → well_parked item ≡ true
      → Post Parks (fail_ci_in_review config clock snap item)
  unfolding fail_ci_in_review
  fail_ci_in_review-Parks item s h =
      Post-bind (Enters ci_failed) Parks (enter_ci_failed clock ci_regression_in_review snap item) _
        (enter_ci_failed_parks clock ci_regression_in_review snap item (rw s refl) h)
        λ i e.
          if-holds Parks (is_false snap.is_mergeable) _ _
            (plan_rebase-Parks config clock rebase_for_failed_ci i e.1) e.1

  watch_reviewer-Parks :
      (item : Item) (liveness : Liveness)
      → item.state ≡ reviewing
      → well_parked item ≡ true
      → Post Parks (watch_reviewer config clock snap (item, liveness))
  unfolding watch_reviewer
  watch_reviewer-Parks item liveness s h =
      if-Post Parks (is_dead liveness) _ _ (λ _. recover_dead_reviewer-Parks item s h)
        λ _.
          if-Post Parks (is_status fail snap.ci_status) _ _ (λ _. fail_ci_in_review-Parks item s h)
            λ _.
              if-Post Parks (is_false snap.is_mergeable) _ _
                (λ _.
                  Enters-then-Parks clock ci_pending snap.event_time item _ (rw s refl) h
                    λ i e. plan_rebase-Parks config clock rebase_for_conflicts i e.1)
                (λ _. h)

  pub handle_reviewing-Parks :
      (item : Item)
      → item.state ≡ reviewing
      → well_parked item ≡ true
      → Post Parks (handle_reviewing config clock snap item)
  unfolding handle_reviewing
  handle_reviewing-Parks item s h = verdict snap.review_verdict
    where
      read : Item × Liveness
      read = reviewer_liveness snap item

      keeps : SameParking read.0 item
      keeps =
          if-holds {A = Item × Liveness} (λ p. SameParking p.0 item)
            (is_some item.review_workspace_ref) _ _ (check_worker_liveness_keeps snap item)
            (refl, refl)

      verdict : (v : Option ReviewVerdict) → Post Parks (review_by config clock snap item v)
      verdict none =
          if-Post Parks (item.review_completed && config.skip_review) _ _
            (λ _. drain_review-Parks config clock snap _ item (rw s refl) h)
            (λ _.
              watch_reviewer-Parks read.0 read.1 (keeps.0 ∙ s)
                (SameParking-well_parked read.0 item keeps h))
      verdict (some v) = act v.verdict
        where
          act : (verdict : Verdict) → Post Parks (act_on_verdict config clock snap v verdict item)
          act approve = approve_review-Parks v item s h
          act request_changes = request_review_changes-Parks v item s h

  pub handle_rebasing-Parks :
      (item : Item)
      → item.state ≡ rebasing
      → well_parked item ≡ true
      → Post Parks (handle_rebasing clock snap item)
  unfolding handle_rebasing reset_rebase_retry_cooldown
  handle_rebasing-Parks item s h =
      if-Post Parks (is_heartbeat_active snap.last_heartbeat clock.wall heartbeat_timeout) _ _
        (λ _. h)
        λ _.
          if-Post Parks
            (is_event_fresher_than snap.event_time item.last_transition && is_reported snap) _ _
            (λ _. Enters-then-Parks clock ci_pending none item _ (rw s refl) h λ i e. e.1)
            λ _.
              if-Post Parks (not (is_some item.rebaser_workspace_ref)) _ _ (λ _. h)
                λ _.
                  if-Post Parks (not (is_dead read.1)) _ _ (λ _. counted)
                    (λ _.
                      Enters-then-Parks clock stuck none read.0 _ (rw (keeps.0, s) refl) counted
                        λ i e. e.1)
    where
      read : Item × Liveness
      read = check_worker_liveness snap item

      keeps : SameParking read.0 item
      keeps = check_worker_liveness_keeps snap item

      counted : well_parked read.0 ≡ true
      counted = SameParking-well_parked read.0 item keeps h
