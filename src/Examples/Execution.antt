-- ===== src/Examples/Execution.antt =====
-- Concrete inputs for core/orchestrator-actions.ts.
use Prim.{tt}
use ninthwave.Prelude.{◌+◌, ◌<◌, true, false, [], ◌∷◌, none, some, ◌≡◌, refl, ◌⊎◌, any}
use ninthwave.Orchestrator.Types.{default_config, launching, merging, merged, ci_failed}
use ninthwave.Orchestrator.Actions.{rebase_for_conflicts}
use ninthwave.Orchestrator.Item.{Item, WorkItem, medium, open_pr}
use ninthwave.Orchestrator.Setup.{new_item}
use ninthwave.Orchestrator.Transition.{Clock, transition, moved}
use ninthwave.Orchestrator.Store.{Store, get_item}
use ninthwave.Execution.Deps.{Run, ran, raised, returned, Deps, Context, Executed, skip_with_pr}
use ninthwave.Execution.Inbox.{
  resolve_default_branch, resolve_expected_pr_base, try_daemon_rebase, was_recently_unstacked,
}
use ninthwave.Execution.MergeBase.{
  check_base, check_base_by, judge_base, compare_base, close_merged,
}
use ninthwave.Execution.MergeFailure.{
  merge_failed, merge_refused, blocked_or_counted, count_failure,
}
use ninthwave.Execution.MergeSuccess.{
  MergeRun, execute_merge, merge_onto, merge_checked, attempt_merge, merge_succeeded, restack_all,
  notify_dependents, rebase_siblings,
}
use ninthwave.Execution.Launch.{execute_launch}
use ninthwave.Execution.Rebasing.{execute_daemon_rebase, rebase_by_worker, launch_rebaser_for}
use ninthwave.Execution.Laws.Gate.{execute_merge-gated}
use ninthwave.Execution.Laws.BaseChecks.{base_confirmed}
use ninthwave.Execution.Laws.Refusals.{IsRefusal, merge_failed-settles}
use ninthwave.Execution.Laws.Launches.{IsLaunchEnd, execute_launch-IsLaunchEnd}
use ninthwave.Execution.Laws.Rebases.{launches_rebaser, attempts_of, execute_daemon_rebase-bounded}

-- GitHub has the pull request open on `main`, refuses no merge, and no worker can be launched.
abbrev deps : Deps
deps = record {
  git = record {
    fetch_and_merge = λ b. returned tt;
    resolve_ref = none;
    rebase_onto = none;
    force_push = none;
    daemon_rebase = none;
    auto_save_worktree = none;
  };
  gh = record {
    pr_merge = λ pr admin. returned true;
    pr_comment = λ pr note. returned true;
    upsert_orchestrator_comment = none;
    add_comment_reaction = none;
    set_commit_status = none;
    get_pr_base_branch = none;
    get_pr_base_and_state =
        some
          (λ pr. returned (some (record { base_branch = some "main"; pr_state = some open_pr })));
    retarget_pr_base = none;
    check_pr_mergeable = none;
    is_pr_blocked = none;
    get_merge_commit_sha = none;
    get_default_branch = none;
  };
  mux = record { close_workspace = λ ref id. returned true; read_screen = none };
  workers = record {
    validate_pickup_candidate = λ w. returned (skip_with_pr 7);
    launch_single_item = λ w tool base force. returned none;
    launch_review = none;
    launch_rebaser = some (λ id pr tool. returned (some "ws:2"));
    launch_forward_fixer = none;
  };
  cleanup = record {
    clean_single_worktree = λ id. returned true;
    clean_review = none;
    clean_rebaser = none;
    clean_forward_fixer = none;
    complete_merged_work_item = none;
  };
  io = record {
    write_inbox = λ root id notice. returned tt;
    exists_sync = λ path. false;
    join = λ a b. a;
  };
}

abbrev ctx : Context
ctx = record { worktree_dir = "w"; ai_tool = "claude"; ai_tools = none; next_tool_index = none }

abbrev clock : Clock
clock = record { now = 100; wall = 101 }

abbrev task : WorkItem
task = record {
  id = "H-1";
  priority = medium;
  title = "t";
  dependencies = "H-0" ∷ [];
  requires_manual_review = false;
}

abbrev base_item : Item
base_item = record (new_item 0 task) { pr_number = some 7; default_branch = some "main" }

abbrev mergeable : Item
mergeable = record base_item { state = merging }

abbrev or_else_run {ℓ} : {A : Type ℓ} → A → Run A → A
or_else_run d (ran a) = a
or_else_run d (raised e) = d

abbrev nothing_run : MergeRun
nothing_run = record {
  executed = record { item = base_item; calls = []; success = false };
  others = [];
}

merge_run : MergeRun
unfolding execute_merge
merge_run =
    or_else_run nothing_run
      (execute_merge clock default_config [] ctx deps (some 7) false mergeable)

execute_merge-gated_example :
    (resolve_expected_pr_base [] mergeable "main" ≡ "main") × (base_confirmed deps 7 "main" ≡ true)
unfolding merge_run execute_merge merge_onto merge_checked attempt_merge merge_succeeded restack_all
    notify_dependents rebase_siblings check_base check_base_by judge_base compare_base close_merged
    resolve_default_branch resolve_expected_pr_base transition moved
execute_merge-gated_example =
    execute_merge-gated clock default_config [] ctx deps 7 false mergeable merge_run refl refl

abbrev nothing_done : Executed
nothing_done = record { item = base_item; calls = []; success = false }

refused_run : Executed
unfolding merge_failed
refused_run =
    or_else_run nothing_done (merge_failed clock default_config [] ctx deps 7 "main" [] mergeable)

merge_failed-settles_example :
    IsRefusal default_config ctx deps "main" [] mergeable true
      (was_recently_unstacked [] mergeable)
      false
      refused_run
unfolding refused_run merge_failed merge_refused blocked_or_counted count_failure
    was_recently_unstacked get_item transition
merge_failed-settles_example =
    merge_failed-settles clock default_config [] ctx deps 7 "main" [] mergeable refused_run refl
      refl

-- The dependency is merged.
abbrev with_dependency : Store
with_dependency = record (new_item 0 (record task { id = "H-0" })) { state = merged } ∷ []

uncounted_run : Executed
unfolding merge_failed
uncounted_run =
    or_else_run nothing_done
      (merge_failed clock default_config with_dependency ctx deps 7 "main" [] mergeable)

-- An item whose CI failed is launched.
abbrev failing : Item
failing = record base_item { state = launching; needs_ci_fix = true }

execute_launch-IsLaunchEnd_example :
    (r : Executed) × (execute_launch clock default_config [] ctx deps none failing ≡ ran r)
    × IsLaunchEnd 1 failing r
execute_launch-IsLaunchEnd_example =
    execute_launch-IsLaunchEnd clock default_config [] ctx deps none failing (skip_with_pr 7) refl
      refl

-- An item that has conflicts, and no worker.
abbrev conflicting : Item
conflicting = record base_item { state = ci_failed }

rebase_run : Executed
unfolding execute_daemon_rebase
rebase_run =
    or_else_run nothing_done
      (execute_daemon_rebase clock default_config ctx deps rebase_for_conflicts true conflicting)

execute_daemon_rebase-bounded_example :
    ((any launches_rebaser rebase_run.calls ≡ false) × (rebase_run.item.rebase_attempt_count ≡ 0))
    ⊎ ((0 < default_config.max_rebase_attempts)
        × (rebase_run.item.rebase_attempt_count ≡ 0 + attempts_of ctx deps conflicting))
unfolding rebase_run execute_daemon_rebase rebase_by_worker launch_rebaser_for try_daemon_rebase
    transition
execute_daemon_rebase-bounded_example =
    execute_daemon_rebase-bounded clock default_config ctx deps rebase_for_conflicts true
      conflicting rebase_run refl
