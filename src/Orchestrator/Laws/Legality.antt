-- ===== src/Orchestrator/Laws/Legality.antt =====
-- core/orchestrator.ts: the `switch` of `transitionItem` and the exception of `transition`.
use ninthwave.Prelude.{Bool, true, not, ◌&&◌, ◌≡◌, refl, arith, ltb}
use ninthwave.Orchestrator.Types.{
  State, Config, queued, ready, launching, implementing, ci_pending, ci_passed, ci_failed, rebasing,
  review_pending, reviewing, merging, merged, forward_fix_pending, fix_forward_failed,
  fixing_forward, done, blocked, stuck, is,
}
use ninthwave.Orchestrator.Item.{Item, ItemSnapshot}
use ninthwave.Orchestrator.Rebase.{is_true}
use ninthwave.Orchestrator.Process.{dispatch, handle}
use ninthwave.Orchestrator.Transition.{Clock}
use ninthwave.Orchestrator.Laws.Post.{Post}
use ninthwave.Orchestrator.Laws.Parking.{well_parked, Parks}
use ninthwave.Orchestrator.Laws.Checks.{
  handle_ci_pending-Parks, handle_ci_passed-Parks, handle_ci_failed-Parks,
}
use ninthwave.Orchestrator.Laws.Reviews.{handle_review_pending-Parks, handle_merging-Parks}
use ninthwave.Orchestrator.Laws.Workers.{handle_reviewing-Parks, handle_rebasing-Parks}
use ninthwave.Orchestrator.Laws.Implementing.{handle_launching-Parks, handle_implementing-Parks}
use ninthwave.Orchestrator.Laws.PostMerge.{
  handle_merged-Parks, handle_forward_fix_pending-Parks, handle_fix_forward_failed-Parks,
  handle_fixing_forward-Parks,
}

-- The two situations: the no-new-info signal of an implementing item, and the end of the CI retries
-- of an item whose worker lives.
abbrev pub calm : Config → ItemSnapshot → Item → Bool
calm config snap item =
    not (is item.state implementing && snap.no_new_info_signal)
    && not (
        is item.state ci_failed
        && (ltb config.max_ci_retries item.ci_fail_count && is_true snap.worker_alive))

module _ (config : Config) (clock : Clock) (snap : ItemSnapshot) where
  dispatch-Parks :
      (s : State) (item : Item)
      → item.state ≡ s
      → well_parked item ≡ true
      → calm config snap item ≡ true
      → Post Parks (dispatch s config clock snap item)
  unfolding dispatch
  dispatch-Parks queued item e h c = h
  dispatch-Parks ready item e h c = h
  dispatch-Parks launching item e h c = handle_launching-Parks config clock snap item e h
  dispatch-Parks implementing item e h c =
      handle_implementing-Parks config clock snap item e h (ground arith)
  dispatch-Parks ci_pending item e h c = handle_ci_pending-Parks config clock snap item e h
  dispatch-Parks ci_passed item e h c = handle_ci_passed-Parks config clock snap item e h
  dispatch-Parks ci_failed item e h c =
      handle_ci_failed-Parks config clock snap item e h (ground arith)
  dispatch-Parks rebasing item e h c = handle_rebasing-Parks config clock snap item e h
  dispatch-Parks review_pending item e h c = handle_review_pending-Parks config clock snap item e h
  dispatch-Parks reviewing item e h c = handle_reviewing-Parks config clock snap item e h
  dispatch-Parks merging item e h c = handle_merging-Parks config clock snap item e h
  dispatch-Parks merged item e h c = handle_merged-Parks config clock snap item e h
  dispatch-Parks forward_fix_pending item e h c =
      handle_forward_fix_pending-Parks config clock snap item e h
  dispatch-Parks fix_forward_failed item e h c =
      handle_fix_forward_failed-Parks config clock snap item e h
  dispatch-Parks fixing_forward item e h c = handle_fixing_forward-Parks config clock snap item e h
  dispatch-Parks done item e h c = h
  dispatch-Parks blocked item e h c = h
  dispatch-Parks stuck item e h c = h

  -- The handler of the item's state makes no illegal transition, and leaves the session parked only in
  -- `review-pending`, if that is so before and the item is calm: it is not implementing with a
  -- no-new-info signal, nor in `ci-failed` with its CI retries used up and its worker alive.
  pub handle-Parks :
      (item : Item)
      → well_parked item ≡ true
      → calm config snap item ≡ true
      → Post Parks (handle config clock snap item)
  unfolding handle
  handle-Parks item h c = dispatch-Parks item.state item refl h c
