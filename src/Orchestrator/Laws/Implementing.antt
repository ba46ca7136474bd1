-- ===== src/Orchestrator/Laws/Implementing.antt =====
-- core/orchestrator.ts: the handlers of `launching` and `implementing`.
use ninthwave.Prelude.{
  Bool, true, false, not, ◌&&◌, [], ◌∷◌, ◌≡◌, refl, ◌∙◌, arith, some, none, Option, is_some,
}
use ninthwave.Orchestrator.Types.{
  Config, ci_pending, review_pending, launching, implementing, heartbeat_timeout, launching_timeout,
}
use ninthwave.Orchestrator.Actions.{
  Stamp, Message, FailureReason, clear_feedback_done_signal, stalled_alive, stalled_no_commits,
  stalled_no_new_commits, crashed_in_launch, crashed_without_pr, launch_timeout,
}
use ninthwave.Orchestrator.Item.{Item, ItemSnapshot, is_open}
use ninthwave.Orchestrator.Guards.{is_heartbeat_active, is_activity_timed_out, is_launch_timed_out}
use ninthwave.Orchestrator.Rebase.{is_true, commit_time}
use ninthwave.Orchestrator.Workers.{
  Liveness, alive, dead, debouncing, unknown, check_worker_liveness, should_defer_timeout,
  is_recoverable_headless_stop,
}
use ninthwave.Orchestrator.Merge.{is_unchanged, try_handle_no_new_info}
use ninthwave.Orchestrator.Pipeline.{handle_ci_pending, try_handle_pushback, sync_stack}
use ninthwave.Orchestrator.Reviews.{feedback_answered}
use ninthwave.Orchestrator.Implementing.{
  time_out, launching_by_liveness, handle_launching, feedback_wait_by, watch_feedback_wait,
  watch_commits_by, watch_commits, watch_heartbeat, saw_alive, watch_without_pr, watch_implementer,
  open_pull_request, finish_answer, await_answer, handle_implementing,
}
use ninthwave.Orchestrator.Transition.{Clock, illegal_transition, transition}
use ninthwave.Orchestrator.Laws.Post.{Post, Hands, prepend-Post, or_next-Post, if-Post}
use ninthwave.Orchestrator.Laws.Parking.{
  well_parked, Parks, Enters-then-Parks, SameParking, SameParking-well_parked,
  check_worker_liveness_keeps, should_defer_timeout_keeps, stuck_or_retry-Parks,
  recover_headless_worker-Parks, respawn_for_feedback-Parks,
}
use ninthwave.Orchestrator.Laws.Checks.{handle_ci_pending-Parks, try_handle_pushback-Parks}

abbrev IsParkedWell : Item → Type 0
IsParkedWell i = well_parked i ≡ true

module _ (config : Config) (clock : Clock) (snap : ItemSnapshot) where
  time_out-Parks :
      (reason : FailureReason) (item : Item)
      → item.state ≡ implementing
      → well_parked item ≡ true
      → Post Parks (time_out config clock reason snap item)
  unfolding time_out
  time_out-Parks reason item s h =
      if-Post Parks deferred.1 _ _ (λ _. counted)
        λ _.
          if-Post Parks (is_recoverable_headless_stop deferred.0 snap) _ _
            (λ _. recover_headless_worker-Parks clock deferred.0 (rw (keeps.0, s) refl) counted)
            (λ _.
              stuck_or_retry-Parks config clock reason deferred.0 (rw (keeps.0, s) refl)
                (rw (keeps.0, s) refl) counted)
    where
      deferred : Item × Bool
      deferred = should_defer_timeout config clock item

      keeps : SameParking deferred.0 item
      keeps = should_defer_timeout_keeps config clock item

      counted : well_parked deferred.0 ≡ true
      counted = SameParking-well_parked deferred.0 item keeps h

  launching_by_liveness-Parks :
      (item : Item) (liveness : Liveness)
      → item.state ≡ launching
      → well_parked item ≡ true
      → Post Parks (launching_by_liveness config clock snap (item, liveness))
  unfolding launching_by_liveness
  launching_by_liveness-Parks item alive s h =
      Enters-then-Parks clock implementing snap.event_time item _ (rw s refl) h λ i e. e.1
  launching_by_liveness-Parks item dead s h =
      stuck_or_retry-Parks config clock crashed_in_launch item (rw s refl) (rw s refl) h
  launching_by_liveness-Parks item debouncing s h = h
  launching_by_liveness-Parks item unknown s h =
      if-Post Parks (not (is_launch_timed_out item.last_transition clock.now launching_timeout)) _ _
        (λ _. h)
        λ _.
          if-Post Parks deferred.1 _ _ (λ _. counted)
            (λ _.
              stuck_or_retry-Parks config clock launch_timeout deferred.0 (rw (keeps.0, s) refl)
                (rw (keeps.0, s) refl) counted)
    where
      deferred : Item × Bool
      deferred = should_defer_timeout config clock item

      keeps : SameParking deferred.0 item
      keeps = should_defer_timeout_keeps config clock item

      counted : well_parked deferred.0 ≡ true
      counted = SameParking-well_parked deferred.0 item keeps h

  pub handle_launching-Parks :
      (item : Item)
      → item.state ≡ launching
      → well_parked item ≡ true
      → Post Parks (handle_launching config clock snap item)
  unfolding handle_launching
  handle_launching-Parks item s h =
      let keeps = check_worker_liveness_keeps snap item in
      launching_by_liveness-Parks (check_worker_liveness snap item).0
        (check_worker_liveness snap item).1 (keeps.0 ∙ s)
        (SameParking-well_parked (check_worker_liveness snap item).0 item keeps h)

  watch_feedback_wait-Parks :
      (item : Item)
      → item.state ≡ implementing
      → well_parked item ≡ true
      → Post Parks (watch_feedback_wait config clock snap item)
  unfolding watch_feedback_wait feedback_wait_by
  watch_feedback_wait-Parks item s h = waited item.pending_feedback_message
    where
      waited : (m : Option Message) → Post Parks (feedback_wait_by config clock snap item m)
      waited none = h
      waited (some m) =
          if-Post Parks (item.needs_feedback_response && _) _ _
            (λ _. respawn_for_feedback-Parks clock m item (rw s refl) h) (λ _. h)

  watch_commits-Parks :
      (last : Option Stamp) (item : Item)
      → item.state ≡ implementing
      → well_parked item ≡ true
      → Post Parks (watch_commits config clock snap last item)
  unfolding watch_commits watch_commits_by
  watch_commits-Parks last item s h = by_commit (commit_time snap item)
    where
      wait : Post Parks (watch_feedback_wait config clock snap item)
      wait = watch_feedback_wait-Parks item s h

      by_commit : (t : Option Stamp) → Post Parks (watch_commits_by config clock snap last item t)
      by_commit none =
          if-Post Parks (is_true snap.worker_alive) _ _
            (λ _.
              if-Post Parks (is_activity_timed_out item.last_transition clock.now _) _ _
                (λ _. time_out-Parks stalled_alive item s h) (λ _. wait))
            (λ _.
              if-Post Parks (is_launch_timed_out _ clock.now _) _ _
                (λ _. time_out-Parks stalled_no_commits item s h) (λ _. wait))
      by_commit (some t) =
          if-Post Parks (is_activity_timed_out t clock.now _) _ _
            (λ _. time_out-Parks stalled_no_new_commits item s h) (λ _. wait)

  watch_heartbeat-Parks :
      (last : Option Stamp) (item : Item)
      → item.state ≡ implementing
      → well_parked item ≡ true
      → Post Parks (watch_heartbeat config clock snap last item)
  unfolding watch_heartbeat
  watch_heartbeat-Parks last item s h =
      if-Post Parks (is_heartbeat_active snap.last_heartbeat clock.now heartbeat_timeout) _ _
        (λ _. h) (λ _. watch_commits-Parks last item s h)

  watch_without_pr-Parks :
      (last : Option Stamp) (item : Item) (liveness : Liveness)
      → item.state ≡ implementing
      → well_parked item ≡ true
      → Post Parks (watch_without_pr config clock snap last (item, liveness))
  unfolding watch_without_pr
  watch_without_pr-Parks last item dead s h =
      if-Post Parks (is_recoverable_headless_stop item snap) _ _
        (λ _. recover_headless_worker-Parks clock item (rw s refl) h)
        (λ _. stuck_or_retry-Parks config clock crashed_without_pr item (rw s refl) (rw s refl) h)
  watch_without_pr-Parks last item alive s h = watch_heartbeat-Parks last (saw_alive clock item) s h
  watch_without_pr-Parks last item debouncing s h = watch_heartbeat-Parks last item s h
  watch_without_pr-Parks last item unknown s h = watch_heartbeat-Parks last item s h

  watch_implementer-Parks :
      (item : Item)
      → item.state ≡ implementing
      → well_parked item ≡ true
      → Post Parks (watch_implementer config clock snap item)
  unfolding watch_implementer
  watch_implementer-Parks item s h =
      if-Post Parks (not (is_some snap.pr_number)) _ _
        (λ _.
          watch_without_pr-Parks item.last_alive_at (check_worker_liveness snap item).0
            (check_worker_liveness snap item).1 (keeps.0 ∙ s)
            (SameParking-well_parked (check_worker_liveness snap item).0 item keeps h))
        λ _.
          if-Post Parks (is_true snap.worker_alive) _ _
            (λ _. watch_heartbeat-Parks item.last_alive_at _ s h)
            (λ _. watch_heartbeat-Parks item.last_alive_at item s h)
    where
      keeps : SameParking (check_worker_liveness snap item).0 item
      keeps = check_worker_liveness_keeps snap item

  open_pull_request-Parks :
      (item : Item)
      → item.state ≡ implementing
      → well_parked item ≡ true
      → Post Parks (open_pull_request config clock snap item)
  unfolding open_pull_request
  open_pull_request-Parks item s h =
      Enters-then-Parks clock ci_pending snap.event_time _ _ (rw s refl) h λ i e.
        prepend-Post IsParkedWell (sync_stack i) (handle_ci_pending config clock snap i)
          (handle_ci_pending-Parks config clock snap i e.0 e.1)

  finish_answer-Parks :
      (item : Item)
      → item.state ≡ implementing
      → well_parked item ≡ true
      → Post Parks (finish_answer config clock snap item)
  unfolding finish_answer
  finish_answer-Parks item s h =
      if-Post Parks snap.feedback_done_signal _ _
        (λ _.
          prepend-Post IsParkedWell (clear_feedback_done_signal item.id ∷ []) _
            (open_pull_request-Parks (feedback_answered item) s h))
        (λ _. watch_implementer-Parks _ s h)

  no_signal-Hands :
      (item : Item)
      → snap.no_new_info_signal ≡ false
      → Hands Parks item (try_handle_no_new_info clock snap item)
  unfolding try_handle_no_new_info
  no_signal-Hands item quiet = rw quiet refl

  -- Without the no-new-info signal the handler is legal.
  pub handle_implementing-Parks :
      (item : Item)
      → item.state ≡ implementing
      → well_parked item ≡ true
      → snap.no_new_info_signal ≡ false
      → Post Parks (handle_implementing config clock snap item)
  unfolding handle_implementing await_answer
  handle_implementing-Parks item s h quiet =
      if-Post Parks (not (is_some snap.pr_number && is_open snap.pr_state)) _ _
        (λ _. watch_implementer-Parks item s h)
        λ _.
          if-Post Parks (is_unchanged item snap) _ _
            (λ _.
              or_next-Post Parks item (try_handle_no_new_info clock snap item) _
                (no_signal-Hands item quiet)
                (or_next-Post Parks item (try_handle_pushback config clock snap item) _
                  (try_handle_pushback-Parks config clock snap item (rw s refl) h)
                  (finish_answer-Parks item s h)))
            (λ _. open_pull_request-Parks item s h)

-- For an implementing item whose open pull request has the head that was last reviewed, and with the
-- no-new-info signal, the handler throws: it goes from `implementing` to `review-pending`, which the
-- table does not allow.
pub handle_implementing_no_new_info_throws :
    (config : Config) (clock : Clock) (snap : ItemSnapshot) (item : Item)
    → item.state ≡ implementing
    → is_some snap.pr_number ≡ true
    → is_open snap.pr_state ≡ true
    → is_unchanged item snap ≡ true
    → snap.no_new_info_signal ≡ true
    → handle_implementing config clock snap item ≡ illegal_transition implementing review_pending
unfolding handle_implementing await_answer try_handle_no_new_info transition
handle_implementing_no_new_info_throws config clock snap item s p o u n = ground arith
