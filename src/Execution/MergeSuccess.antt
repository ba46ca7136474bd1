-- ===== src/Execution/MergeSuccess.antt =====
-- core/orchestrator-actions.ts: `executeMerge` from the merge on. The comments on the stacks that are
-- left, the pull of the default branch and what they answer are left out.
use ninthwave.Prelude.{
  ℕ, Bool, true, false, not, ◌&&◌, String, List, [], ◌∷◌, ◌++◌, Option, none, some, is_some, get_or,
  or_else, any, if◌then◌else◌, str_eq,
}
use ninthwave.Orchestrator.Types.{Config, ci_passed, merging, merged, is, is_active}
use ninthwave.Orchestrator.Item.{Item}
use ninthwave.Orchestrator.Transition.{Clock}
use ninthwave.Orchestrator.Store.{Store, branch_of}
use ninthwave.Execution.Deps.{
  Run, ran, raised, returned, threw, await, recover, ◌>>=◌, Deps, Context, Call, merge_call,
  rebase_onto_call, force_push_call, comment_call, complete_work_item_call, Executed, finish,
  change, end_in, auto_merged, Notice, restack_required, restack_conflict, dependency_merged,
  sibling_conflicts,
}
use ninthwave.Execution.Inbox.{
  worktree_of, deliver_to_implementer_inbox, resolve_default_branch, resolve_expected_pr_base,
  try_daemon_rebase,
}
use ninthwave.Execution.MergeBase.{BaseCheck, goes_on, stops, check_base, close_merged}
use ninthwave.Execution.MergeFailure.{ask_or, merge_failed}

-- The items that depend on the merged one and have a worker.
abbrev pub is_dependent : Item → Item → Bool
is_dependent item other =
    not (str_eq other.id item.id)
    && any (str_eq item.id) other.work_item.dependencies
    && is_active other.state

-- Those of them that are stacked.
abbrev pub is_restacked : Item → Item → Bool
is_restacked item other = is_dependent item other && is_some other.base_branch

-- The new value of the item, and the calls.
abbrev pub tell : Context → Deps → Notice → List Call → Item → Run (Item × List Call)
tell ctx deps notice calls other = do
  d ← deliver_to_implementer_inbox ctx deps other notice
  ran (other, calls ++ d.0)

-- `git rebase --onto`, and the push; or a message to the worker. The message about a conflict stands in
-- the `try` too.
unfoldable pub restack : Context → Deps → Item → String → String → Item → Run (Item × List Call)
unfolding deliver_to_implementer_inbox
restack ctx deps item default_branch old_base other = elim deps.git.rebase_onto [
  | none ↦ required []
  | some onto ↦ elim deps.git.force_push [
    | none ↦ required []
    | some push ↦ elim (onto path default_branch old_base (branch_of other.id)) [
      | threw e ↦ required (onto_call ∷ [])
      | returned false ↦
          elim (tell ctx deps (restack_conflict item.id default_branch) (onto_call ∷ []) other) [
            | ran r ↦ ran r
            | raised e ↦ required (onto_call ∷ [])
          ]
      | returned true ↦ elim (push path) [
        | threw e ↦ required (onto_call ∷ force_push_call path ∷ [])
        | returned pushed ↦
            ran (record other { base_branch = none }, onto_call ∷ force_push_call path ∷ [])
      ]
    ]
  ]
]
  where
    path : String
    path = worktree_of ctx deps other

    onto_call : Call
    onto_call = rebase_onto_call path default_branch old_base (branch_of other.id)

    required : List Call → Run (Item × List Call)
    required calls = tell ctx deps (restack_required item.id default_branch) calls other

unfoldable pub restack_all :
    Context → Deps → Item → String → String → Store → Run (Store × List Call)
unfolding restack
restack_all ctx deps item default_branch old_base [] = ran ([], [])
restack_all ctx deps item default_branch old_base (other ∷ rest) = do
  first ←
      (if is_restacked item other
        then restack ctx deps item default_branch old_base other
        else ran (other, []))
  later ← restack_all ctx deps item default_branch old_base rest
  ran (first.0 ∷ later.0, first.1 ++ later.1)

-- The message to those that are not stacked.
unfoldable pub notify_dependents : Context → Deps → Item → String → Store → Run (List Call)
unfolding deliver_to_implementer_inbox
notify_dependents ctx deps item default_branch [] = ran []
notify_dependents ctx deps item default_branch (other ∷ rest) = do
  first ←
      (if is_dependent item other && not (is_some other.base_branch)
        then deliver_to_implementer_inbox ctx deps other (dependency_merged item.id default_branch)
        else ran ([], false))
  later ← notify_dependents ctx deps item default_branch rest
  ran (first.0 ++ later)

-- The rebase of another pull request, or a message where it has conflicts.
unfoldable pub rebase_sibling : Context → Deps → Item → String → ℕ → Item → Run (List Call)
unfolding try_daemon_rebase deliver_to_implementer_inbox
rebase_sibling ctx deps item default_branch pr other =
    let tried = try_daemon_rebase ctx deps other in
    if tried.1 then ran tried.0 else (do
      mergeable ← ask_or true deps.gh.check_pr_mergeable pr
      if mergeable then ran tried.0 else (do
        d ←
            deliver_to_implementer_inbox ctx deps other
              (sibling_conflicts pr item.id default_branch)
        ran (tried.0 ++ d.0)))

unfoldable pub rebase_siblings : Context → Deps → Item → String → Store → Run (List Call)
unfolding rebase_sibling
rebase_siblings ctx deps item default_branch [] = ran []
rebase_siblings ctx deps item default_branch (other ∷ rest) = do
  first ← elim other.pr_number [
    | none ↦ ran []
    | some pr ↦
        if not (str_eq other.id item.id) && is_active other.state && not (is_restacked item other)
        then rebase_sibling ctx deps item default_branch pr other
        else ran []
  ]
  later ← rebase_siblings ctx deps item default_branch rest
  ran (first ++ later)

-- What `executeMerge` leaves; the other items are those of `orch.getAllItems()`.
pub record MergeRun : Type 0 where
  pub executed : Executed
  pub others : Store

abbrev pub without_others : Store → Run Executed → Run MergeRun
without_others store r = do e ← r; ran (record { executed = e; others = store })

-- `mergeCommitSha`, where it is to be had.
abbrev pub merge_sha : Config → Deps → ℕ → Option String
merge_sha config deps pr = elim deps.gh.get_merge_commit_sha [
  | none ↦ none
  | some ask ↦ if config.fix_forward then recover none (ask pr) else none
]

abbrev pub post_note : Deps → ℕ → Item → Run Bool
post_note deps pr item = elim deps.gh.upsert_orchestrator_comment [
  | some upsert ↦ await (upsert pr (auto_merged pr item.id))
  | none ↦ await (deps.gh.pr_comment pr (auto_merged pr item.id))
]

abbrev pub completion : Deps → Item → List Call
completion deps item =
    if is_some deps.cleanup.complete_merged_work_item
    then complete_work_item_call item.id ∷ []
    else []

unfoldable pub merge_succeeded :
    Clock → Config → Store → Context → Deps → ℕ → String → String → List Call → Item → Run MergeRun
unfolding close_merged restack_all notify_dependents rebase_siblings
merge_succeeded clock config store ctx deps pr default_branch old_base calls item = do
  entered ← change clock merged (record item { merge_fail_count = 0 })
  closed ← close_merged deps entered
  let kept = record closed.0 {
    merge_commit_sha = or_else (merge_sha config deps pr) closed.0.merge_commit_sha;
  }
  noted ← post_note deps pr kept
  others ← restack_all ctx deps kept default_branch old_base store
  told ← notify_dependents ctx deps kept default_branch store
  rebased ← rebase_siblings ctx deps kept default_branch store
  ran (record {
    executed = record {
      item = kept;
      calls =
          calls
          ++ closed.1
          ++ comment_call pr (auto_merged pr item.id) ∷ completion deps item
          ++ others.1
          ++ told
          ++ rebased;
      success = true;
    };
    others = others.0;
  })

-- The commit of the item's branch, or its name.
abbrev pub old_base_of : Deps → Item → String
old_base_of deps item = elim deps.git.resolve_ref [
  | none ↦ branch_of item.id
  | some resolve ↦ get_or (recover none (resolve (branch_of item.id))) (branch_of item.id)
]

-- The merge, once the base is checked: only onto the default branch.
unfoldable pub attempt_merge :
    Clock → Config → Store → Context → Deps → ℕ → Bool → String → String → Item → Run MergeRun
unfolding merge_succeeded merge_failed
attempt_merge clock config store ctx deps pr admin default_branch expected item =
    if str_eq expected default_branch
    then (do
      done ← await (deps.gh.pr_merge pr admin)
      let calls = merge_call pr admin ∷ []
      if done
          then merge_succeeded clock config store ctx deps pr default_branch (old_base_of deps item)
              calls item
          else without_others store
              (merge_failed clock config store ctx deps pr default_branch calls item))
    else if is item.state merging
    then without_others store (end_in clock ci_passed [] false item)
    else without_others store (finish item [] false)

-- After the check of the base.
unfoldable pub merge_checked :
    Clock → Config → Store → Context → Deps → ℕ → Bool → String → String → BaseCheck → Run MergeRun
unfolding attempt_merge
merge_checked clock config store ctx deps pr admin default_branch expected (stops e) =
    without_others store (ran e)
merge_checked clock config store ctx deps pr admin default_branch expected (goes_on item) =
    attempt_merge clock config store ctx deps pr admin default_branch expected item

-- The merge of a pull request whose number is known, for its expected base.
unfoldable pub merge_onto :
    Clock → Config → Store → Context → Deps → ℕ → Bool → String → String → Item → Run MergeRun
unfolding check_base merge_checked
merge_onto clock config store ctx deps pr admin default_branch expected item = do
  checked ← check_base clock ctx deps pr default_branch expected item
  merge_checked clock config store ctx deps pr admin default_branch expected checked

unfoldable pub execute_merge :
    Clock → Config → Store → Context → Deps → Option ℕ → Bool → Item → Run MergeRun
unfolding resolve_default_branch resolve_expected_pr_base merge_onto
execute_merge clock config store ctx deps action_pr admin item =
    elim (or_else action_pr item.pr_number) [
      | none ↦ without_others store (finish item [] false)
      | some pr ↦
          let known = resolve_default_branch deps item in
          merge_onto clock config store ctx deps pr admin known.1
            (resolve_expected_pr_base store known.0 known.1) known.0
    ]
