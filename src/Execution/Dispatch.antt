-- ===== src/Execution/Dispatch.antt =====
-- core/orchestrator.ts: `executeAction`. The context's counter of tools moves on with each launch of a
-- worker (`get_next_tool`); the result here is the items, the calls and the success.
use ninthwave.Prelude.{Bool, true, false, String, List, [], none, some}
use ninthwave.Orchestrator.Types.{Config}
use ninthwave.Orchestrator.Actions
use ninthwave.Orchestrator.Actions.{Action, Message, item_id}
use ninthwave.Orchestrator.Item.{Item}
use ninthwave.Orchestrator.Transition.{Clock}
use ninthwave.Orchestrator.Store.{Store, get_item, update_item}
use ninthwave.Execution.Deps.{Run, ran, ◌>>=◌, Deps, Context, Call, finish}
use ninthwave.Execution.Launch.{execute_launch}
use ninthwave.Execution.MergeSuccess.{MergeRun, execute_merge, without_others}
use ninthwave.Execution.Rebasing.{execute_rebase, execute_daemon_rebase}
use ninthwave.Execution.Sessions.{
  execute_clean, execute_workspace_close, execute_retry, execute_clean_rebaser,
  execute_clean_review, execute_clean_forward_fixer, execute_launch_review,
  execute_launch_forward_fixer,
}
use ninthwave.Execution.Notices.{
  execute_notify_ci_failure, execute_notify_review, execute_send_message, execute_set_commit_status,
  execute_post_review,
}

-- What `executeAction` leaves.
pub record ActionRun : Type 0 where
  pub store : Store
  pub calls : List Call
  pub success : Bool

-- The equality of two message texts, and the comments on stacks, which are I/O only and succeed as given.
module _ (same : Message → Message → Bool) (sync : String → Bool) where
  -- The executor of an action, for its item. A signal file is removed as far as that is possible.
  unfoldable pub run_action : Clock → Config → Store → Context → Deps → Action → Item → Run MergeRun
  unfolding execute_launch execute_merge execute_rebase execute_daemon_rebase execute_clean
      execute_workspace_close execute_retry execute_clean_rebaser execute_clean_review
      execute_clean_forward_fixer execute_launch_review execute_launch_forward_fixer
      execute_notify_ci_failure execute_notify_review execute_send_message execute_set_commit_status
      execute_post_review
  run_action clock config store ctx deps (Actions.merge id pr admin) item =
      execute_merge clock config store ctx deps pr admin item
  run_action clock config store ctx deps (Actions.launch id base) item =
      without_others store (execute_launch clock config store ctx deps base item)
  run_action clock config store ctx deps (Actions.notify_ci_failure id pr m) item =
      without_others store (execute_notify_ci_failure clock ctx deps m item)
  run_action clock config store ctx deps (Actions.notify_review id m) item =
      without_others store (execute_notify_review ctx deps m item)
  run_action clock config store ctx deps (Actions.send_message id m) item =
      without_others store (execute_send_message same ctx deps m item)
  run_action clock config store ctx deps (Actions.rebase id m) item =
      without_others store (execute_rebase ctx deps m item)
  run_action clock config store ctx deps (Actions.daemon_rebase id m escalate) item =
      without_others store (execute_daemon_rebase clock config ctx deps m escalate item)
  run_action clock config store ctx deps (Actions.clean id) item =
      without_others store (execute_clean deps item)
  run_action clock config store ctx deps (Actions.workspace_close id) item =
      without_others store (execute_workspace_close deps item)
  run_action clock config store ctx deps (Actions.retry id) item =
      without_others store (execute_retry ctx deps item)
  run_action clock config store ctx deps (Actions.sync_stack_comments id) item =
      without_others store (finish item [] (sync id))
  run_action clock config store ctx deps (Actions.clean_rebaser id) item =
      without_others store (execute_clean_rebaser deps item)
  run_action clock config store ctx deps (Actions.clean_review id) item =
      without_others store (execute_clean_review deps item)
  run_action clock config store ctx deps (Actions.launch_forward_fixer id) item =
      without_others store (execute_launch_forward_fixer ctx deps item)
  run_action clock config store ctx deps (Actions.clean_forward_fixer id) item =
      without_others store (execute_clean_forward_fixer deps item)
  run_action clock config store ctx deps (Actions.launch_review id pr) item =
      without_others store (execute_launch_review ctx deps pr item)
  run_action clock config store ctx deps (Actions.set_commit_status id pr s d) item =
      without_others store (execute_set_commit_status deps pr s d item)
  run_action clock config store ctx deps (Actions.post_review id pr v) item =
      without_others store (execute_post_review deps pr v item)
  run_action clock config store ctx deps (Actions.clear_feedback_done_signal id) item =
      without_others store (finish item [] true)
  run_action clock config store ctx deps (Actions.clear_pushback_signal id) item =
      without_others store (finish item [] true)
  run_action clock config store ctx deps (Actions.clear_no_new_info_signal id) item =
      without_others store (finish item [] true)

  -- An action for an item that is not there does nothing.
  unfoldable pub execute_action : Clock → Config → Store → Context → Deps → Action → Run ActionRun
  unfolding run_action
  execute_action clock config store ctx deps action = elim (get_item (item_id action) store) [
    | none ↦ ran (record { store = store; calls = []; success = false })
    | some item ↦ do
      r ← run_action clock config store ctx deps action item
      ran (record {
        store = update_item r.executed.item r.others;
        calls = r.executed.calls;
        success = r.executed.success;
      })
  ]
