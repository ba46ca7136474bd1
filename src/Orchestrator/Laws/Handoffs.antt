-- ===== src/Orchestrator/Laws/Handoffs.antt =====
-- core/orchestrator.ts: the handoffs that come before a merge, and when they are legal.
use ninthwave.Prelude.{
  not, ◌||◌, ◌∙◌, is_some, true, ◌≡◌, refl, ◌⊎◌, arith, some, none, Option, is_empty, ltb,
}
use ninthwave.Orchestrator.Types.{is, review_pending, ready, ci_passed, merging}
use ninthwave.Orchestrator.Actions.{Message, Batch}
use ninthwave.Orchestrator.Item.{Item, ItemSnapshot}
use ninthwave.Orchestrator.Transition.{ok, Clock, transition}
use ninthwave.Orchestrator.Workers.{
  Liveness, alive, dead, debouncing, unknown, check_worker_liveness,
}
use ninthwave.Orchestrator.Feedback.{
  handoff_by_liveness, liveness_of_workspace, to_review_pending, keep_head, DeliveryMode, relaunch,
  take_batch, deliver, wait, hand_over, arm_live_delivery, reopen_review,
  feedback_batch_delivery_mode, resolve_batch, resolve_pending_feedback_batch, continue_with,
  continue_pending_feedback_handoff,
}
use ninthwave.Orchestrator.Merge.{try_handle_no_new_info}
use ninthwave.Orchestrator.Laws.Post.{
  if-holds, Post, Handed, Hands, acted-Hands, Post-bind, if-Post, may_move,
}
use ninthwave.Orchestrator.Laws.Parking.{
  check_worker_liveness_keeps, transition-Enters, Enters, well_parked, Parks, SameParking,
  SameParking-well_parked, arm_live_delivery_keeps, respawn_for_feedback-Parks, moves,
}

-- The mode is `relaunch` only where a relaunch is legal.
delivery_mode_legal :
    (snap : ItemSnapshot) (item : Item)
    → well_parked item ≡ true
    → SameParking (feedback_batch_delivery_mode snap item).0 item
      × ((feedback_batch_delivery_mode snap item).1 ≡ relaunch → item.state ≡ review_pending)
unfolding feedback_batch_delivery_mode check_worker_liveness
delivery_mode_legal snap item h = (ground arith, ground arith)

reopen_review_parks :
    (clock : Clock) (snap : ItemSnapshot) (item : Item)
    → well_parked item ≡ true
    → Post (λ i. well_parked i ≡ true) (reopen_review clock snap item)
unfolding reopen_review transition
reopen_review_parks clock snap item h = grind moves

hand_over-Parks :
    (clock : Clock) (snap : ItemSnapshot) (batch : Batch) (before item : Item) (mode : DeliveryMode)
    → well_parked item ≡ true
    → (mode ≡ relaunch → may_move item.state ready ≡ true)
    → Hands Parks before (hand_over clock snap batch (item, mode))
unfolding hand_over
hand_over-Parks clock snap batch before item wait h r = h
hand_over-Parks clock snap batch before item relaunch h r =
    acted-Hands Parks before _ (respawn_for_feedback-Parks clock _ _ (r refl) h)
hand_over-Parks clock snap batch before item deliver h r =
    Post-bind (λ i. well_parked i ≡ true) (Handed Parks before) (reopen_review clock snap _) _
      (reopen_review_parks clock snap (take_batch snap batch.comments item) h)
      (λ i p.
        SameParking-well_parked (arm_live_delivery snap i) i (arm_live_delivery_keeps snap i) p)

-- A batch that is due is handed over legally.
pub resolve_pending_feedback_batch-Parks :
    (clock : Clock) (snap : ItemSnapshot) (item : Item)
    → well_parked item ≡ true
    → Hands Parks item (resolve_pending_feedback_batch clock snap item)
unfolding resolve_pending_feedback_batch
resolve_pending_feedback_batch-Parks clock snap item h = due item.pending_feedback_batch
  where
    mode : Item × DeliveryMode
    mode = feedback_batch_delivery_mode snap item

    legal : SameParking mode.0 item × (mode.1 ≡ relaunch → item.state ≡ review_pending)
    legal = delivery_mode_legal snap item h

    handed : (batch : Batch) → Hands Parks item (hand_over clock snap batch mode)
    handed batch =
        hand_over-Parks clock snap batch item mode.0 mode.1
          (SameParking-well_parked mode.0 item legal.0 h) (λ r. rw (legal.0.0, legal.1 r) refl)

    due : (b : Option Batch) → Hands Parks item (resolve_batch clock snap item b)
    due none = refl
    due (some batch) =
        if-Post (Handed Parks item) (is_empty batch.comments) _ _ (λ _. refl)
          λ _.
            if-Post (Handed Parks item) (ltb clock.now batch.deadline) _ _ (λ _. h)
              (λ _. handed batch)

to_review_pending-Enters :
    (clock : Clock) (snap : ItemSnapshot) (item : Item)
    → well_parked item ≡ true
    → (item.state ≡ review_pending) ⊎ (item.state ≡ ci_passed) ⊎ (item.state ≡ merging)
    → Post (Enters review_pending) (to_review_pending clock snap item)
to_review_pending-Enters clock snap item h n =
    if-Post (Enters review_pending) (is item.state ci_passed || is item.state merging) _ _
      (λ _. transition-Enters clock review_pending snap.event_time _ (ground arith) h)
      (λ other. (ground arith, h))

handoff_by_liveness-Parks :
    (before : Item) (clock : Clock) (m : Message) (item : Item) (l : Liveness)
    → Enters review_pending item
    → Hands Parks before (handoff_by_liveness clock m (item, l))
handoff_by_liveness-Parks before clock m item dead w =
    acted-Hands Parks before _ (respawn_for_feedback-Parks clock m item (rw (w.0) refl) w.1)
handoff_by_liveness-Parks before clock m item alive w = w.1
handoff_by_liveness-Parks before clock m item debouncing w = w.1
handoff_by_liveness-Parks before clock m item unknown w = w.1

liveness_of_workspace_keeps :
    (snap : ItemSnapshot) (item : Item) → SameParking (liveness_of_workspace snap item).0 item
liveness_of_workspace_keeps snap item =
    if-holds {A = Item × Liveness} (λ r. SameParking r.0 item) (is_some item.workspace_ref)
      (check_worker_liveness snap item) (item, dead) (check_worker_liveness_keeps snap item)
      (refl, refl)

continue_with-Parks :
    (clock : Clock) (snap : ItemSnapshot) (item : Item) (m : Message)
    → well_parked item ≡ true
    → (item.state ≡ review_pending) ⊎ (item.state ≡ ci_passed) ⊎ (item.state ≡ merging)
    → Hands Parks item (continue_with clock snap item m)
unfolding continue_with
continue_with-Parks clock snap item m h n =
    Post-bind (Enters review_pending) (Handed Parks item)
      (to_review_pending clock snap (keep_head snap item)) _
      (to_review_pending-Enters clock snap (keep_head snap item) h n)
      λ i w.
        if-Post (Handed Parks item) i.session_parked _ _
          (λ _. acted-Hands Parks item _ (respawn_for_feedback-Parks clock m i (rw (w.0) refl) w.1))
          λ _.
            let keeps = liveness_of_workspace_keeps snap i in
            handoff_by_liveness-Parks item clock m (liveness_of_workspace snap i).0
              (liveness_of_workspace snap i).1
              (keeps.0 ∙ w.0, SameParking-well_parked (liveness_of_workspace snap i).0 i keeps w.1)

pub continue_pending_feedback_handoff-Parks :
    (clock : Clock) (snap : ItemSnapshot) (item : Item)
    → well_parked item ≡ true
    → (item.state ≡ review_pending) ⊎ (item.state ≡ ci_passed) ⊎ (item.state ≡ merging)
    → Hands Parks item (continue_pending_feedback_handoff clock snap item)
unfolding continue_pending_feedback_handoff
continue_pending_feedback_handoff-Parks clock snap item h n =
    if-Post (Handed Parks item) (not item.needs_feedback_response) _ _ (λ _. refl)
      (λ _. sent item.pending_feedback_message)
  where
    sent :
        (o : Option Message)
        → Hands Parks item
            (elim o [ none ↦ ok (item, none) | some m ↦ continue_with clock snap item m ])
    sent none = refl
    sent (some m) = continue_with-Parks clock snap item m h n

-- A spurious wake is settled legally from the states that may become `review-pending`.
pub try_handle_no_new_info-Parks :
    (clock : Clock) (snap : ItemSnapshot) (item : Item)
    → well_parked item ≡ true
    → may_move item.state review_pending ≡ true
    → Hands Parks item (try_handle_no_new_info clock snap item)
unfolding try_handle_no_new_info transition
try_handle_no_new_info-Parks clock snap item h legal = grind moves
