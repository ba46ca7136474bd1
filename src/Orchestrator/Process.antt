-- ===== src/Orchestrator/Process.antt =====
-- core/orchestrator.ts: `transitionItem` and `launchReadyItems`.
use ninthwave.Prelude.{
  ℕ, zero, suc, not, ◌&&◌, List, [], ◌∷◌, ◌++◌, Option, none, some, get_or, or_else, if◌then◌else◌,
}
use ninthwave.Orchestrator.Types.{
  State, Config, queued, ready, launching, implementing, ci_pending, ci_passed, ci_failed, rebasing,
  review_pending, reviewing, merging, merged, forward_fix_pending, fix_forward_failed,
  fixing_forward, done, blocked, stuck, is,
}
use ninthwave.Orchestrator.Actions.{Action, launch}
use ninthwave.Orchestrator.Item.{Item, ItemSnapshot}
use ninthwave.Orchestrator.Rebase.{update_rebase_tracking}
use ninthwave.Orchestrator.Feedback.{ingest_pending_feedback_batch, resolve_pending_feedback_batch}
use ninthwave.Orchestrator.Pipeline.{handle_ci_pending, handle_ci_passed, handle_ci_failed}
use ninthwave.Orchestrator.Reviews.{handle_review_pending, handle_merging}
use ninthwave.Orchestrator.Reviewing.{handle_reviewing, handle_rebasing}
use ninthwave.Orchestrator.Implementing.{handle_launching, handle_implementing}
use ninthwave.Orchestrator.PostMerge.{
  intercept_external_merge, handle_merged, handle_forward_fix_pending, handle_fix_forward_failed,
  handle_fixing_forward,
}
use ninthwave.Orchestrator.Store.{
  Store, update_item, available_inflight_slots, pause_dependents, resume_dependents,
}
use ninthwave.Orchestrator.Transition.{Clock, Result, ok, ◌>>=◌, Outcome, transition}

-- The `switch` on the state.
unfoldable pub dispatch : State → Config → Clock → ItemSnapshot → Item → Outcome
dispatch queued config clock snap item = ok (item, [])
dispatch ready config clock snap item = ok (item, [])
dispatch launching config clock snap item = handle_launching config clock snap item
dispatch implementing config clock snap item = handle_implementing config clock snap item
dispatch ci_pending config clock snap item = handle_ci_pending config clock snap item
dispatch ci_passed config clock snap item = handle_ci_passed config clock snap item
dispatch ci_failed config clock snap item = handle_ci_failed config clock snap item
dispatch rebasing config clock snap item = handle_rebasing clock snap item
dispatch reviewing config clock snap item = handle_reviewing config clock snap item
dispatch review_pending config clock snap item = handle_review_pending config clock snap item
dispatch merging config clock snap item = handle_merging config clock snap item
dispatch merged config clock snap item = handle_merged config clock snap item
dispatch forward_fix_pending config clock snap item = handle_forward_fix_pending clock snap item
dispatch fix_forward_failed config clock snap item =
    handle_fix_forward_failed config clock snap item
dispatch fixing_forward config clock snap item = handle_fixing_forward config clock snap item
dispatch done config clock snap item = ok (item, [])
dispatch blocked config clock snap item = ok (item, [])
dispatch stuck config clock snap item = ok (item, [])

unfoldable pub handle : Config → Clock → ItemSnapshot → Item → Outcome
handle config clock snap item = dispatch item.state config clock snap item

-- What a snapshot tells of the merge commit.
abbrev pub note_merge_commit : ItemSnapshot → Item → Item
note_merge_commit snap item = record item {
  merge_commit_sha = or_else snap.merge_commit_sha item.merge_commit_sha;
  default_branch = or_else snap.default_branch item.default_branch;
}

-- The housekeeping before the handlers.
abbrev pub prepare : Clock → ItemSnapshot → Item → Item
prepare clock snap item =
    ingest_pending_feedback_batch snap (update_rebase_tracking clock snap item)

-- Dependents are told when an item gets stuck, and when its checks run again after a failure.
unfoldable pub tell_dependents :
    Config → Clock → State → Item → Store → Result (Store × List Action)
tell_dependents config clock before item store =
    if config.enable_stacking && (is item.state stuck && not (is before stuck))
    then pause_dependents clock item.id store
    else if config.enable_stacking && (is before ci_failed && is item.state ci_pending)
    then ok (store, resume_dependents item store)
    else ok (store, [])

-- `transitionItem` behind the interception of an external merge.
unfoldable pub run_handler :
    Config → Clock → ItemSnapshot → Item → Store → Result (Store × List Action)
run_handler config clock snap item store = do
  handled ← handle config clock snap item
  told ← tell_dependents config clock item.state handled.0 (update_item handled.0 store)
  fed ← resolve_pending_feedback_batch clock snap handled.0
  ok (update_item fed.0 told.0, (handled.1 ++ told.1) ++ get_or fed.1 [])

-- `if (mergeActions) return mergeActions;`, and otherwise the housekeeping and the handler.
unfoldable pub after_interception :
    Config
    → Clock
    → ItemSnapshot
    → Store
    → Item × Option (List Action)
    → Result (Store × List Action)
after_interception config clock snap store (item, some actions) =
    ok (update_item item store, actions)
after_interception config clock snap store (item, none) =
    run_handler config clock snap (prepare clock snap item) store

unfoldable pub transition_item :
    Config → Clock → ItemSnapshot → Item → Store → Result (Store × List Action)
unfolding after_interception
transition_item config clock snap item store = do
  r ← intercept_external_merge clock snap (note_merge_commit snap item)
  after_interception config clock snap store r

-- The loop of `launchReadyItems`, with the slots that are left.
unfoldable pub launch_ready : Clock → ℕ → Store → Result (Store × List Action)
launch_ready clock slots [] = ok ([], [])
launch_ready clock zero (item ∷ rest) = ok (item ∷ rest, [])
launch_ready clock (suc slots) (item ∷ rest) =
    let here = (do
      launched ← transition clock launching none item
      r ← launch_ready clock slots rest
      ok (launched ∷ r.0, launch item.id item.base_branch ∷ r.1)) in
    let skip = (do r ← launch_ready clock (suc slots) rest; ok (item ∷ r.0, r.1)) in
    if is item.state ready then here else skip

unfoldable pub launch_ready_items : Config → Clock → Store → Result (Store × List Action)
launch_ready_items config clock store =
    if not config.accepting_work
    then ok (store, [])
    else launch_ready clock (available_inflight_slots config store) store
