-- ===== src/Orchestrator/Laws/Gate.antt =====
-- core/orchestrator.ts: `evaluateMerge`, from the two states that lead to it.
use ninthwave.Prelude.{true, ◌≡◌, ◌⊎◌, arith, ltb}
use ninthwave.Orchestrator.Types.{Config, review_pending, stuck, ci_passed, merging, reviewing, is}
use ninthwave.Orchestrator.Item.{Item, ItemSnapshot}
use ninthwave.Orchestrator.Transition.{Clock}
use ninthwave.Orchestrator.Feedback.{
  resolve_pending_feedback_batch, continue_pending_feedback_handoff,
}
use ninthwave.Orchestrator.Merge.{
  is_unchanged, next_round, launch_review_round, park_session, merge_or_hold, holds_for_human,
  try_handle_no_new_info, evaluate_merge, skip_review_gate,
}
use ninthwave.Orchestrator.Laws.Post.{Post, or_next-Post, if-Post}
use ninthwave.Orchestrator.Laws.Parking.{well_parked, Parks, Enters-then-Parks}
use ninthwave.Orchestrator.Laws.Handoffs.{
  resolve_pending_feedback_batch-Parks, continue_pending_feedback_handoff-Parks,
  try_handle_no_new_info-Parks,
}

-- The states from which a merge is evaluated.
abbrev pub AtGate : Item → Type 0
AtGate item = (item.state ≡ ci_passed) ⊎ (item.state ≡ review_pending)

park_session-Parks :
    (snap : ItemSnapshot) (item : Item)
    → item.state ≡ review_pending
    → well_parked item ≡ true
    → Parks (park_session snap item)
unfolding park_session
park_session-Parks snap item h p = ground arith

module _ (config : Config) (clock : Clock) (snap : ItemSnapshot) where
  launch_review_round-Parks :
      (item : Item)
      → AtGate item
      → well_parked item ≡ true
      → Post Parks (launch_review_round config clock snap item)
  unfolding launch_review_round
  launch_review_round-Parks item g h =
      if-Post Parks (is item.state reviewing) _ _ (λ _. h)
        λ _.
          if-Post Parks (is_unchanged item snap) _ _ (λ _. h)
            λ _.
              if-Post Parks (ltb config.max_review_rounds (next_round item)) _ _
                (λ _. Enters-then-Parks clock stuck snap.event_time _ _ (ground arith) h λ i e. e.1)
                (λ _.
                  Enters-then-Parks clock reviewing snap.event_time _ _ (ground arith) h λ i e. e.1)

  merge_or_hold-Parks :
      (item : Item)
      → AtGate item
      → well_parked item ≡ true
      → Post Parks (merge_or_hold config clock snap item)
  unfolding merge_or_hold
  merge_or_hold-Parks item g h =
      if-Post Parks (holds_for_human config snap item) _ _
        (λ _.
          Enters-then-Parks clock review_pending snap.event_time _ _ (ground arith) h
            λ i e. park_session-Parks snap i e.0 e.1)
        (λ _. Enters-then-Parks clock merging snap.event_time _ _ (ground arith) h λ i e. e.1)

  pub evaluate_merge-Parks :
      (item : Item)
      → AtGate item
      → well_parked item ≡ true
      → Post Parks (evaluate_merge config clock snap item)
  unfolding evaluate_merge
  evaluate_merge-Parks item g h =
      or_next-Post Parks item (try_handle_no_new_info clock snap item) _
        (try_handle_no_new_info-Parks clock snap item h (ground arith))
        (or_next-Post Parks item (continue_pending_feedback_handoff clock snap item) _
          (continue_pending_feedback_handoff-Parks clock snap item h (ground arith))
          (or_next-Post Parks item (resolve_pending_feedback_batch clock snap item) _
            (resolve_pending_feedback_batch-Parks clock snap item h)
            (if-Post Parks (skip_review_gate config item).review_completed _ _
              (λ _. merge_or_hold-Parks (skip_review_gate config item) g h)
              (λ _. launch_review_round-Parks (skip_review_gate config item) g h))))
