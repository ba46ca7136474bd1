-- ===== src/Execution/Launch.antt =====
-- core/orchestrator-actions.ts: `executeLaunch`. The cleaning of stale branches and the reset of the
-- heartbeat, whose failures are ignored, are left out.
use ninthwave.Prelude.{
  ◌+◌, Bool, true, false, not, ◌&&◌, ◌||◌, String, List, [], ◌∷◌, ◌++◌, Option, none, some,
  if◌then◌else◌, ltb,
}
use ninthwave.Orchestrator.Types.{Config, ready, stuck, blocked, ci_pending}
use ninthwave.Orchestrator.Actions.{FailureReason, pickup_blocked, launch_no_result, launch_threw}
use ninthwave.Orchestrator.Item.{Item}
use ninthwave.Orchestrator.Transition.{Clock}
use ninthwave.Orchestrator.Store.{Store, get_item}
use ninthwave.Execution.Deps.{
  Attempt, Run, ran, try_catch, returned, threw, await, ◌>>=◌, Exception, illegal, thrown, Deps,
  Context, Call, launch_call, Validation, launchable, skip_with_pr, is_blocked, Launched,
  get_next_tool, Executed, finish, change, end_in, ci_fix_request, launch_feedback,
}
use ninthwave.Execution.Inbox.{deliver_to_implementer_inbox, dep_id, is_gone}

abbrev pub reason_of : Exception → FailureReason
reason_of (thrown text) = launch_threw (some text)
reason_of (illegal s t) = launch_threw none

-- `stuck`, with its reason.
abbrev pub give_up_launch : Clock → FailureReason → List Call → Item → Run Executed
give_up_launch clock reason calls item = do
  item' ← change clock stuck item
  finish (record item' { failure_reason = some reason }) calls false

-- The `catch` clause.
unfoldable pub caught : Clock → Config → List Call → Item → Exception → Run Executed
caught clock config calls item e =
    if ltb item.retry_count config.max_retries
    then end_in clock ready calls false (record item { retry_count = item.retry_count + 1 })
    else give_up_launch clock (reason_of e) calls item

-- The launch returned no result. An exception of the transition is caught.
unfoldable pub launched_nothing : Clock → Config → List Call → Item → Run Executed
unfolding caught
launched_nothing clock config calls item =
    if ltb item.retry_count config.max_retries
    then try_catch (end_in clock ready calls false again) (caught clock config calls again) ran
    else try_catch (give_up_launch clock (launch_no_result item.id) calls item)
        (caught clock config calls item) ran
  where
    again : Item
    again = record item { retry_count = item.retry_count + 1 }

abbrev pub feedback_delivered : Bool → Item → Item
feedback_delivered false item = item
feedback_delivered true item = record item {
  needs_feedback_response = false;
  pending_feedback_message = none;
  pending_feedback_live_delivery_armed = false;
}

unfoldable pub tell_ci_fix : Context → Deps → Bool → Item → Run (List Call × Bool)
unfolding deliver_to_implementer_inbox
tell_ci_fix ctx deps false item = ran ([], false)
tell_ci_fix ctx deps true item = deliver_to_implementer_inbox ctx deps item ci_fix_request

unfoldable pub give_feedback : Context → Deps → Item → Run (List Call × Bool)
unfolding deliver_to_implementer_inbox
give_feedback ctx deps item = elim item.pending_feedback_message [
  | none ↦ ran ([], false)
  | some m ↦
      if item.needs_feedback_response
      then deliver_to_implementer_inbox ctx deps item (launch_feedback m)
      else ran ([], false)
]

-- A worker was launched: it gets the message about CI, and then the feedback.
unfoldable pub worker_launched :
    Clock → Config → Context → Deps → Bool → List Call → Item → Run Executed
unfolding caught tell_ci_fix give_feedback
worker_launched clock config ctx deps has_ci_fix calls item =
    try_catch (tell_ci_fix ctx deps has_ci_fix item) (caught clock config calls item) (λ first.
      try_catch (give_feedback ctx deps item) (caught clock config calls item) (λ second.
        finish (feedback_delivered item.needs_feedback_response item) (calls ++ first.0 ++ second.0)
          true))

-- What the launch returned: a pull request that exists already, or a worker.
unfoldable pub settle_launch :
    Clock → Config → Context → Deps → Bool → String → List Call → Item → Launched → Run Executed
unfolding caught worker_launched
settle_launch clock config ctx deps has_ci_fix tool calls item l = elim l.existing_pr_number [
  | some pr ↦
      let known = record item { pr_number = some pr } in
      try_catch (end_in clock ci_pending calls true known) (caught clock config calls known) ran
  | none ↦ worker_launched clock config ctx deps has_ci_fix calls (record item {
    workspace_ref = some l.workspace_ref;
    worktree_path = some l.worktree_path;
    ai_tool = some tool;
  })
]

-- A base branch whose dependency is gone is cleared.
abbrev pub live_base : Store → Option String → Option String
live_base store none = none
live_base store (some branch) =
    if is_gone (get_item (dep_id branch) store) then none else some branch

abbrev pub item_base : Store → Option String → Item → Option String
item_base store none item = item.base_branch
item_base store (some branch) item =
    if is_gone (get_item (dep_id branch) store) then none else item.base_branch

-- What `launchSingleItem` answers, or throws.
unfoldable pub after_launch :
    Clock
    → Config
    → Context
    → Deps
    → Bool
    → String
    → List Call
    → Item
    → Attempt (Option Launched)
    → Run Executed
unfolding launched_nothing settle_launch caught
after_launch clock config ctx deps has_ci_fix tool calls item (threw text) =
    caught clock config calls item (thrown text)
after_launch clock config ctx deps has_ci_fix tool calls item (returned none) =
    launched_nothing clock config calls item
after_launch clock config ctx deps has_ci_fix tool calls item (returned (some l)) =
    settle_launch clock config ctx deps has_ci_fix tool calls item l

-- The flag for CI is cleared before the launch. A worker is forced where the flag was set, or where
-- feedback waits for an answer.
unfoldable pub launch_worker :
    Clock → Config → Store → Context → Deps → Option String → Item → Run Executed
unfolding dep_id get_next_tool after_launch
launch_worker clock config store ctx deps base item =
    let tool = (get_next_tool ctx).0 in
    let base' = live_base store base in
    let force = item.needs_ci_fix || item.needs_feedback_response in
    after_launch clock config ctx deps item.needs_ci_fix tool
      (launch_call item.id tool base' force ∷ [])
      (record item { base_branch = item_base store base item; needs_ci_fix = false })
      (deps.workers.launch_single_item item.work_item tool base' force)

-- By the validation. The shortcut for a pull request that exists is taken only with no reason for a new
-- worker.
unfoldable pub launch_valid :
    Clock → Config → Store → Context → Deps → Option String → Item → Validation → Run Executed
unfolding launch_worker
launch_valid clock config store ctx deps base item (is_blocked reason) = do
  item' ← change clock blocked item
  finish (record item' { failure_reason = some (pickup_blocked reason) }) [] false
launch_valid clock config store ctx deps base item (skip_with_pr pr) =
    if not item.needs_ci_fix && not item.needs_feedback_response
    then end_in clock ci_pending [] true (record item { pr_number = some pr })
    else launch_worker clock config store ctx deps base item
launch_valid clock config store ctx deps base item launchable =
    launch_worker clock config store ctx deps base item

unfoldable pub execute_launch :
    Clock → Config → Store → Context → Deps → Option String → Item → Run Executed
unfolding launch_valid
execute_launch clock config store ctx deps base item =
    await (deps.workers.validate_pickup_candidate item.work_item)
    >>= launch_valid clock config store ctx deps base item
