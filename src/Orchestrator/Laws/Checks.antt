-- ===== src/Orchestrator/Laws/Checks.antt =====
-- core/orchestrator.ts: the handlers of `ci-pending`, `ci-passed` and `ci-failed`.
use ninthwave.Prelude.{
  true, false, not, ◌&&◌, List, [], ◌∷◌, ◌≡◌, refl, ◌∙◌, inl, arith, some, none, Option, ltb,
}
use ninthwave.Orchestrator.Types.{Config, ci_pending, ci_passed, ci_failed, stuck, ready}
use ninthwave.Orchestrator.Actions.{
  Stamp, Action, Message, FailureReason, ci_checks_failed, clear_pushback_signal,
}
use ninthwave.Orchestrator.Item.{Item, ItemSnapshot, PushbackRound, pass, fail, pending}
use ninthwave.Orchestrator.Rebase.{
  is_true, is_false, plan_rebase_conflict_action, emit_ci_failure_notification,
  reset_rebase_retry_cooldown,
}
use ninthwave.Orchestrator.Workers.{Liveness, is_dead, check_worker_liveness}
use ninthwave.Orchestrator.Feedback.{resolve_pending_feedback_batch}
use ninthwave.Orchestrator.Merge.{or_next, is_unchanged}
use ninthwave.Orchestrator.Pipeline.{
  is_status, enter_ci_failed, fail_ci, back_to_pending, progress, pass_ci, handle_ci_pending,
  handle_ci_passed, break_circuit, renotify, ack_timed_out, watch_ci_fix, handle_ci_failed,
  push_back, try_handle_pushback, record_pushback, sync_stack,
}
use ninthwave.Orchestrator.Transition.{Clock, transition, prepend, ok, state-moved}
use ninthwave.Orchestrator.Laws.Post.{
  Post, Handed, Hands, acted-Hands, Post-bind, prepend-Post, or_next-Post, if-Post, if-holds,
  transition-Post, may_move,
}
use ninthwave.Orchestrator.Laws.Parking.{
  well_parked, Parks, Enters, transition-Enters, Enters-then-Parks, SameParking,
  SameParking-well_parked, check_worker_liveness_keeps, respawn_ci_fix_worker-Parks,
}
use ninthwave.Orchestrator.Laws.Handoffs.{resolve_pending_feedback_batch-Parks}
use ninthwave.Orchestrator.Laws.Gate.{evaluate_merge-Parks}

-- Planning a rebase and notifying a worker leave the state and the parking alone.
pub plan_rebase_keeps :
    (config : Config) (clock : Clock) (m : Message) (item : Item)
    → SameParking (plan_rebase_conflict_action config clock m item).0 item
unfolding plan_rebase_conflict_action
plan_rebase_keeps config clock m item = ground arith

renotify_keeps : (clock : Clock) (item : Item) → SameParking (renotify clock item).0 item
unfolding renotify emit_ci_failure_notification
renotify_keeps clock item = ground arith

pub plan_rebase-Parks :
    (config : Config) (clock : Clock) (m : Message) (item : Item)
    → well_parked item ≡ true
    → Parks (plan_rebase_conflict_action config clock m item)
plan_rebase-Parks config clock m item h =
    SameParking-well_parked (plan_rebase_conflict_action config clock m item).0 item
      (plan_rebase_keeps config clock m item) h

pub enter_ci_failed_parks :
    (clock : Clock) (reason : FailureReason) (snap : ItemSnapshot) (item : Item)
    → may_move item.state ci_failed ≡ true
    → well_parked item ≡ true
    → Post (Enters ci_failed) (enter_ci_failed clock reason snap item)
unfolding enter_ci_failed
enter_ci_failed_parks clock reason snap item legal h =
    Post-bind (Enters ci_failed) (Enters ci_failed)
      (transition clock ci_failed snap.event_time item) _
      (transition-Enters clock ci_failed snap.event_time item legal h) (λ i e. e)

module _ (config : Config) (clock : Clock) (snap : ItemSnapshot) where
  pub fail_ci-Parks :
      (item : Item)
      → may_move item.state ci_failed ≡ true
      → well_parked item ≡ true
      → Post Parks (fail_ci config clock snap item)
  unfolding fail_ci emit_ci_failure_notification
  fail_ci-Parks item legal h =
      Post-bind (Enters ci_failed) Parks (enter_ci_failed clock ci_checks_failed snap item) _
        (enter_ci_failed_parks clock ci_checks_failed snap item legal h)
        λ i e.
          if-holds Parks (is_false snap.is_mergeable) _ _ (plan_rebase-Parks config clock _ i e.1)
            e.1

  pub back_to_pending-Parks :
      (t : Option Stamp) (item : Item)
      → may_move item.state ci_pending ≡ true
      → well_parked item ≡ true
      → Post Parks (back_to_pending clock t snap item)
  unfolding back_to_pending reset_rebase_retry_cooldown
  back_to_pending-Parks t item legal h =
      Enters-then-Parks clock ci_pending snap.event_time item _ legal h λ i e. e.1

  pub pass_ci-Parks :
      (item : Item)
      → may_move item.state ci_passed ≡ true
      → well_parked item ≡ true
      → Post Parks (pass_ci config clock snap item)
  unfolding pass_ci
  pass_ci-Parks item legal h =
      Enters-then-Parks clock ci_passed snap.event_time item _ legal h
        λ i e. evaluate_merge-Parks config clock snap i (inl e.0) e.1

  -- A batch that is due, and otherwise nothing.
  resolve_or_rest-Parks :
      (item : Item)
      → well_parked item ≡ true
      → Post Parks (or_next (resolve_pending_feedback_batch clock snap item) λ i. ok (i, []))
  resolve_or_rest-Parks item h =
      or_next-Post Parks item (resolve_pending_feedback_batch clock snap item) _
        (resolve_pending_feedback_batch-Parks clock snap item h) h

  pub handle_ci_pending-Parks :
      (item : Item)
      → item.state ≡ ci_pending
      → well_parked item ≡ true
      → Post Parks (handle_ci_pending config clock snap item)
  unfolding handle_ci_pending
  handle_ci_pending-Parks item s h =
      if-Post Parks (is_status fail snap.ci_status && _) _ _ (λ _. h)
        λ _.
          if-Post Parks (is_status fail snap.ci_status) _ _ (λ _. fail_ci-Parks item (rw s refl) h)
            λ _.
              if-Post Parks (is_false snap.is_mergeable) _ _
                (λ _. plan_rebase-Parks config clock _ item h)
                λ _.
                  if-Post Parks (is_status pass snap.ci_status) _ _
                    (λ _. pass_ci-Parks item (rw s refl) h) (λ _. resolve_or_rest-Parks item h)

  pub handle_ci_passed-Parks :
      (item : Item)
      → item.state ≡ ci_passed
      → well_parked item ≡ true
      → Post Parks (handle_ci_passed config clock snap item)
  unfolding handle_ci_passed
  handle_ci_passed-Parks item s h =
      if-Post Parks (is_status fail snap.ci_status) _ _ (λ _. fail_ci-Parks item (rw s refl) h)
        λ _.
          if-Post Parks (is_status pending snap.ci_status) _ _
            (λ _. back_to_pending-Parks (progress snap) item (rw s refl) h)
            λ _.
              if-Post Parks (is_false snap.is_mergeable) _ _
                (λ _.
                  Enters-then-Parks clock ci_pending snap.event_time item _ (rw s refl) h
                    λ i e. plan_rebase-Parks config clock _ i e.1)
                (λ _. evaluate_merge-Parks config clock snap item (inl s) h)

  -- The circuit breaker closes the session of a worker that is not alive.
  break_circuit-Parks :
      (item : Item)
      → item.state ≡ ci_failed
      → well_parked item ≡ true
      → is_true snap.worker_alive ≡ false
      → Post Parks (break_circuit config clock snap item)
  unfolding break_circuit
  break_circuit-Parks item s h gone =
      Enters-then-Parks clock stuck none item _ (rw s refl) h λ i e. rw gone e.1

  -- It ends in `stuck` in any case.
  pub break_circuit_sticks :
      (item : Item)
      → item.state ≡ ci_failed
      → Post (λ r. r.0.state ≡ stuck) (break_circuit config clock snap item)
  unfolding break_circuit
  break_circuit_sticks item s =
      Post-bind (λ i. i.state ≡ stuck) (λ r. r.0.state ≡ stuck) (transition clock stuck none item) _
        (transition-Post (λ i. i.state ≡ stuck) clock stuck none item (rw s refl) (λ e. e)
          (state-moved clock.wall stuck none item))
        λ i e.
          if-holds {A = Item × List Action} (λ r. r.0.state ≡ stuck) (is_true snap.worker_alive) _ _
            e e

  watch_ci_fix-Parks :
      (sd item : Item) (actions : List Action)
      → item.state ≡ ci_failed
      → well_parked item ≡ true
      → Post Parks (watch_ci_fix clock snap sd (item, actions))
  unfolding watch_ci_fix
  watch_ci_fix-Parks sd item actions s h =
      if-Post Parks (is_dead read.1) _ _
        (λ _. respawn_ci_fix_worker-Parks clock _ ready_allowed counted)
        λ _.
          if-Post Parks (ack_timed_out clock snap sd) _ _
            (λ _. respawn_ci_fix_worker-Parks clock read.0 ready_allowed counted)
            (λ _.
              prepend-Post (λ i. well_parked i ≡ true) actions _
                (resolve_or_rest-Parks read.0 counted))
    where
      read : Item × Liveness
      read = check_worker_liveness snap item

      keeps : SameParking read.0 item
      keeps = check_worker_liveness_keeps snap item

      counted : well_parked read.0 ≡ true
      counted = SameParking-well_parked read.0 item keeps h

      ready_allowed : may_move read.0.state ready ≡ true
      ready_allowed = rw (keeps.0, s) refl

  pub handle_ci_failed-Parks :
      (item : Item)
      → item.state ≡ ci_failed
      → well_parked item ≡ true
      → (ltb config.max_ci_retries item.ci_fail_count && is_true snap.worker_alive) ≡ false
      → Post Parks (handle_ci_failed config clock snap item)
  unfolding handle_ci_failed
  handle_ci_failed-Parks item s h calm =
      if-Post Parks (ltb config.max_ci_retries item.ci_fail_count) _ _
        (λ over. break_circuit-Parks item s h (ground arith))
        λ _.
          if-Post Parks (is_status pass snap.ci_status) _ _
            (λ _.
              Enters-then-Parks clock ci_passed snap.event_time item _ (rw s refl) h
                λ i e. handle_ci_passed-Parks i e.0 e.1)
            λ _.
              if-Post Parks (is_status pending snap.ci_status) _ _
                (λ _. back_to_pending-Parks (progress snap) item (rw s refl) h)
                λ _.
                  if-Post Parks (is_false snap.is_mergeable) _ _
                    (λ _. plan_rebase-Parks config clock _ item h)
                    (λ _.
                      watch_ci_fix-Parks item (renotify clock item).0 (renotify clock item).1
                        ((renotify_keeps clock item).0 ∙ s)
                        (SameParking-well_parked (renotify clock item).0 item
                          (renotify_keeps clock item) h))

  pub try_handle_pushback-Parks :
      (item : Item)
      → may_move item.state ci_pending ≡ true
      → well_parked item ≡ true
      → Hands Parks item (try_handle_pushback config clock snap item)
  unfolding try_handle_pushback
  try_handle_pushback-Parks item legal h = push snap.pushback_signal
    where
      push :
          (signal : Option PushbackRound)
          → Hands Parks item (push_back config clock snap item signal)
      push none = refl
      push (some round) =
          if-Post (Handed Parks item) (not (is_unchanged item snap)) _ _ (λ _. refl)
            λ _.
              Post-bind (Enters ci_pending) (Handed Parks item)
                (transition clock ci_pending snap.event_time (record_pushback snap round item)) _
                (transition-Enters clock ci_pending snap.event_time
                  (record_pushback snap round item) legal h)
                λ i e.
                  let cleared = clear_pushback_signal item.id ∷ sync_stack i in
                  let o = handle_ci_pending config clock snap i in
                  acted-Hands Parks item (prepend cleared o) (
                    prepend-Post (λ i. well_parked i ≡ true) cleared o
                      (handle_ci_pending-Parks i e.0 e.1))
