-- ===== src/Execution/MergeFailure.antt =====
-- core/orchestrator-actions.ts: what `executeMerge` does where GitHub refuses the merge.
use ninthwave.Prelude.{
  ℕ, ◌+◌, Bool, true, false, not, String, List, Option, none, some, if◌then◌else◌, leb,
}
use ninthwave.Orchestrator.Types.{Config, ci_passed, stuck}
use ninthwave.Orchestrator.Actions.{merge_retries_exceeded}
use ninthwave.Orchestrator.Item.{Item}
use ninthwave.Orchestrator.Transition.{Clock}
use ninthwave.Orchestrator.Store.{Store}
use ninthwave.Execution.Deps.{
  Attempt, Run, ran, await, ◌>>=◌, Deps, Context, Call, Executed, finish, change, end_in,
  conflicts_with, duplicate_commits, blocked_by_protection,
}
use ninthwave.Execution.Inbox.{was_recently_unstacked}
use ninthwave.Execution.MergeBase.{request_rebase}

-- `ask?.(prNumber) ?? answer`.
abbrev pub ask_or : Bool → Option (ℕ → Attempt Bool) → ℕ → Run Bool
ask_or answer none pr = ran answer
ask_or answer (some ask) pr = await (ask pr)

-- A failure that is counted.
unfoldable pub count_failure : Clock → Config → ℕ → List Call → Item → Run Executed
count_failure clock config pr calls item =
    let counted = record item { merge_fail_count = item.merge_fail_count + 1 } in
    if leb config.max_merge_retries counted.merge_fail_count
    then (do
      item' ← change clock stuck counted
      finish
          (record item' {
            failure_reason = some (merge_retries_exceeded config.max_merge_retries pr);
          })
          calls false)
    else end_in clock ci_passed calls false counted

-- A branch that is blocked by its protection is rebased; other failures count.
unfoldable pub blocked_or_counted :
    Clock → Config → Context → Deps → ℕ → String → List Call → Item → Run Executed
unfolding request_rebase count_failure
blocked_or_counted clock config ctx deps pr default_branch calls item = do
  is_blocked ← ask_or false deps.gh.is_pr_blocked pr
  if is_blocked
      then request_rebase clock ctx deps (blocked_by_protection default_branch) calls item
      else count_failure clock config pr calls item

-- Conflicts and duplicate commits lead to a rebase.
unfoldable pub merge_refused :
    Clock → Config → Store → Context → Deps → ℕ → String → List Call → Item → Bool → Run Executed
unfolding request_rebase blocked_or_counted was_recently_unstacked
merge_refused clock config store ctx deps pr default_branch calls item mergeable =
    if not mergeable
    then request_rebase clock ctx deps (conflicts_with default_branch) calls
        (record item { rebase_requested = false })
    else if was_recently_unstacked store item
    then request_rebase clock ctx deps (duplicate_commits default_branch) calls item
    else blocked_or_counted clock config ctx deps pr default_branch calls item

unfoldable pub merge_failed :
    Clock → Config → Store → Context → Deps → ℕ → String → List Call → Item → Run Executed
unfolding merge_refused
merge_failed clock config store ctx deps pr default_branch calls item =
    ask_or true deps.gh.check_pr_mergeable pr
    >>= merge_refused clock config store ctx deps pr default_branch calls item
