-- ===== src/Execution/Rebasing.antt =====
-- core/orchestrator-actions.ts: `executeDaemonRebase`, `executeRebase` and `executeLaunchRebaser`.
use ninthwave.Prelude.{
  ◌+◌, Bool, true, false, not, ◌&&◌, String, List, [], ◌∷◌, ◌++◌, none, some, is_some, get_or,
  if◌then◌else◌, leb,
}
use ninthwave.Orchestrator.Types.{Config, ci_pending, stuck, rebasing}
use ninthwave.Orchestrator.Actions.{Message, rebase_loop}
use ninthwave.Orchestrator.Item.{Item}
use ninthwave.Orchestrator.Transition.{Clock}
use ninthwave.Execution.Deps.{
  Run, ran, raised, returned, threw, ◌>>=◌, Deps, Context, Call, launch_rebaser_call, Executed,
  finish, change, end_in, forwarded,
}
use ninthwave.Execution.Inbox.{
  deliver_to_implementer_inbox, resolve_implementer_inbox_target, try_daemon_rebase,
}

-- `executeRebase`.
unfoldable pub execute_rebase : Context → Deps → Message → Item → Run Executed
unfolding deliver_to_implementer_inbox
execute_rebase ctx deps message item = do
  d ← deliver_to_implementer_inbox ctx deps item (forwarded message)
  finish item d.0 d.1

abbrev pub tool_of : Context → Item → String
tool_of ctx item = get_or item.ai_tool ctx.ai_tool

-- No rebaser was launched.
unfoldable pub without_rebaser : Context → Deps → Message → Bool → List Call → Item → Run Executed
unfolding deliver_to_implementer_inbox resolve_implementer_inbox_target
without_rebaser ctx deps message escalate calls item =
    if escalate && is_some (resolve_implementer_inbox_target ctx deps item)
    then (do
      d ← deliver_to_implementer_inbox ctx deps item (forwarded message)
      finish item (calls ++ d.0) true)
    else finish item calls false

-- The attempt to launch a rebaser; the calls with which it ends count it. Whatever the launch or the
-- transition throws is caught, after the assignments before it.
unfoldable pub launch_rebaser_for :
    Clock → Context → Deps → Message → Bool → List Call → Item → Run Executed
unfolding without_rebaser
launch_rebaser_for clock ctx deps message escalate calls item = elim deps.workers.launch_rebaser [
  | none ↦ without_rebaser ctx deps message escalate calls item
  | some launch ↦ elim item.pr_number [
    | none ↦ without_rebaser ctx deps message escalate calls item
    | some pr ↦
        let calls' = calls ++ launch_rebaser_call item.id pr ∷ [] in
        elim (launch item.id pr (tool_of ctx item)) [
          | threw e ↦ without_rebaser ctx deps message escalate calls' item
          | returned none ↦ without_rebaser ctx deps message escalate calls' item
          | returned (some ref) ↦
              let item' = record item {
                rebaser_workspace_ref = some ref;
                rebase_attempt_count = item.rebase_attempt_count + 1;
              } in
              elim (end_in clock rebasing calls' true item') [
                | ran r ↦ ran r
                | raised e ↦ without_rebaser ctx deps message escalate calls' item'
              ]
        ]
  ]
]

-- The circuit breaker, and the rebaser while attempts are left.
unfoldable pub rebase_by_worker :
    Clock → Config → Context → Deps → Message → Bool → List Call → Item → Run Executed
unfolding launch_rebaser_for
rebase_by_worker clock config ctx deps message escalate calls item =
    if leb config.max_rebase_attempts item.rebase_attempt_count
    then (do
      item' ← change clock stuck item
      finish (record item' { failure_reason = some (rebase_loop config.max_rebase_attempts) }) calls
          false)
    else launch_rebaser_for clock ctx deps message escalate calls item

-- A transition that throws is caught with what the rebase itself throws.
unfoldable pub execute_daemon_rebase :
    Clock → Config → Context → Deps → Message → Bool → Item → Run Executed
unfolding try_daemon_rebase resolve_implementer_inbox_target deliver_to_implementer_inbox
    rebase_by_worker
execute_daemon_rebase clock config ctx deps message escalate item =
    let tried = try_daemon_rebase ctx deps item in
    if tried.1
    then elim (end_in clock ci_pending tried.0 true item) [
      | ran r ↦ ran r
      | raised e ↦ fall_back tried.0
    ]
    else fall_back tried.0
  where
    fall_back : List Call → Run Executed
    fall_back calls =
        if not escalate
          && is_some (resolve_implementer_inbox_target ctx deps item)
          && is_some item.workspace_ref
        then (do
          d ← deliver_to_implementer_inbox ctx deps item (forwarded message)
          finish item (calls ++ d.0) true)
        else rebase_by_worker clock config ctx deps message escalate calls item

-- `executeLaunchRebaser`: a launch with no result succeeds too.
unfoldable pub execute_launch_rebaser : Context → Deps → Item → Run Executed
execute_launch_rebaser ctx deps item = elim deps.workers.launch_rebaser [
  | none ↦ finish item [] false
  | some launch ↦ elim item.pr_number [
    | none ↦ finish item [] false
    | some pr ↦ elim (launch item.id pr (tool_of ctx item)) [
      | threw e ↦ finish item (launch_rebaser_call item.id pr ∷ []) false
      | returned none ↦ finish item (launch_rebaser_call item.id pr ∷ []) true
      | returned (some ref) ↦
          finish (record item { rebaser_workspace_ref = some ref })
            (launch_rebaser_call item.id pr ∷ []) true
    ]
  ]
]
