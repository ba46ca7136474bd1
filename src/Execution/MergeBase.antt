-- ===== src/Execution/MergeBase.antt =====
-- core/orchestrator-actions.ts: what `executeMerge` does about the base branch of the pull request, with
-- `handleDepMergedRetarget`.
use text.Mathlib.Text.{starts_with}
use ninthwave.Prelude.{
  ℕ, true, false, ◌&&◌, String, List, [], ◌∷◌, ◌++◌, Option, none, some, if◌then◌else◌, str_eq,
}
use ninthwave.Orchestrator.Types.{ci_pending, ci_passed, merged}
use ninthwave.Orchestrator.Item.{Item, is_merged}
use ninthwave.Orchestrator.Transition.{Clock}
use ninthwave.Execution.Deps.{
  Attempt, Run, ran, try_catch, await, ◌>>=◌, Deps, Context, Call, retarget_call, close_call,
  Executed, finish, change, end_in, Notice, dep_branch_merged, BaseAndState,
}
use ninthwave.Execution.Inbox.{deliver_to_implementer_inbox, try_daemon_rebase}

-- The message that asks the worker for a rebase; CI starts again.
abbrev pub ask_worker : Clock → Context → Deps → Notice → Item → List Call → Run Executed
ask_worker clock ctx deps notice item made = do
  d ← deliver_to_implementer_inbox ctx deps item notice
  end_in clock ci_pending (made ++ d.0) false item

-- A rebase by the daemon, or that message. The transition after the rebase stands in its `try`.
unfoldable pub request_rebase : Clock → Context → Deps → Notice → List Call → Item → Run Executed
unfolding try_daemon_rebase deliver_to_implementer_inbox
request_rebase clock ctx deps notice calls item =
    let tried = try_daemon_rebase ctx deps item in
    if tried.1
    then try_catch (end_in clock ci_pending (calls ++ tried.0) false item)
        (λ e. ask_worker clock ctx deps notice item (calls ++ tried.0)) ran
    else ask_worker clock ctx deps notice item (calls ++ tried.0)

-- `expectedBase === defaultBranch ? undefined : expectedBase`.
abbrev pub own_base : String → String → Option String
own_base default_branch expected = if str_eq expected default_branch then none else some expected

pub data BaseCheck : Type 0 where
  goes_on : Item → BaseCheck
  stops : Executed → BaseCheck

abbrev pub stop : Run Executed → Run BaseCheck
stop r = do e ← r; ran (stops e)

-- The pull request could not be retargeted.
unfoldable pub not_retargeted :
    Clock → Context → Deps → String → String → String → List Call → Item → Run Executed
unfolding request_rebase
not_retargeted clock ctx deps default_branch expected actual calls item =
    if starts_with expected "ninthwave/" && str_eq actual default_branch
    then request_rebase clock ctx deps (dep_branch_merged expected) calls
        (record item { base_branch = none })
    else end_in clock ci_passed calls false item

-- The base is not the one that is expected.
unfoldable pub retarget :
    Clock → Context → Deps → ℕ → String → String → String → Item → Run Executed
unfolding not_retargeted
retarget clock ctx deps pr default_branch expected actual item = elim deps.gh.retarget_pr_base [
  | none ↦ not_retargeted clock ctx deps default_branch expected actual [] item
  | some set_base ↦ do
    done ← await (set_base pr expected)
    let calls = retarget_call pr expected ∷ []
    if done
        then end_in clock ci_pending calls false
            (record item { base_branch = own_base default_branch expected })
        else not_retargeted clock ctx deps default_branch expected actual calls item
]

-- The item holds in `merging` where the base is not known.
unfoldable pub compare_base :
    Clock → Context → Deps → ℕ → String → String → Item → Option String → Run BaseCheck
unfolding retarget
compare_base clock ctx deps pr default_branch expected item none = stop (finish item [] false)
compare_base clock ctx deps pr default_branch expected item (some actual) =
    if str_eq actual expected
    then ran (goes_on (record item { base_branch = own_base default_branch expected }))
    else stop (retarget clock ctx deps pr default_branch expected actual item)

-- The workspace of a merged item is closed, and its reference is kept where that fails.
unfoldable pub close_merged : Deps → Item → Run (Item × List Call)
close_merged deps item = elim item.workspace_ref [
  | none ↦ ran (item, [])
  | some ref ↦ do
    closed ← await (deps.mux.close_workspace ref item.id)
    ran (
      (if closed then record item { workspace_ref = none } else item),
      close_call ref item.id ∷ [],
    )
]

unfoldable pub already_merged : Clock → Deps → Item → Run Executed
unfolding close_merged
already_merged clock deps item = do
  item' ← change clock merged item
  r ← close_merged deps item'
  finish r.0 r.1 true

unfoldable pub judge_base :
    Clock → Context → Deps → ℕ → String → String → Item → Option BaseAndState → Run BaseCheck
unfolding already_merged compare_base
judge_base clock ctx deps pr default_branch expected item none = stop (finish item [] false)
judge_base clock ctx deps pr default_branch expected item (some info) =
    if is_merged info.pr_state
    then stop (already_merged clock deps item)
    else compare_base clock ctx deps pr default_branch expected item info.base_branch

-- By the way in which the base is to be had.
unfoldable pub check_base_by :
    Clock
    → Context
    → Deps
    → ℕ
    → String
    → String
    → Item
    → Option (ℕ → Attempt (Option BaseAndState))
    → Option (ℕ → Attempt (Option String))
    → Run BaseCheck
unfolding judge_base compare_base
check_base_by clock ctx deps pr default_branch expected item (some ask) other = do
  info ← await (ask pr)
  judge_base clock ctx deps pr default_branch expected item info
check_base_by clock ctx deps pr default_branch expected item none (some ask) = do
  actual ← await (ask pr)
  compare_base clock ctx deps pr default_branch expected item actual
check_base_by clock ctx deps pr default_branch expected item none none = ran (goes_on item)

unfoldable pub check_base : Clock → Context → Deps → ℕ → String → String → Item → Run BaseCheck
unfolding check_base_by
check_base clock ctx deps pr default_branch expected item =
    check_base_by clock ctx deps pr default_branch expected item deps.gh.get_pr_base_and_state
      deps.gh.get_pr_base_branch
