-- ===== src/Orchestrator/PostMerge.antt =====
-- core/orchestrator.ts: merges made outside the orchestrator, and the verification of a merge commit
-- on the default branch.
use ninthwave.Prelude.{
  ℕ, ◌+◌, Bool, true, false, not, ◌&&◌, ◌||◌, String, List, [], ◌∷◌, ◌++◌, Option, none, some,
  get_or, or_else, is_some, if◌then◌else◌, leb, ◌==◌, any,
}
use ninthwave.Orchestrator.Types.{
  State, Config, implementing, ci_pending, ci_passed, ci_failed, review_pending, reviewing, merging,
  merged, forward_fix_pending, fix_forward_failed, fixing_forward, done, stuck, merge_ci_grace,
  merge_ci_no_push_grace,
}
use ninthwave.Orchestrator.Actions.{
  main_ci_failed, max_fix_forward_exceeded, forward_fixer_died, Action, clean, clean_review,
  clean_forward_fixer, launch_forward_fixer, workspace_close,
}
use ninthwave.Orchestrator.Item.{
  Item, ItemSnapshot, undefined, pass, fail, pending, is_open, is_merged,
}
use ninthwave.Orchestrator.Guards.{is_merge_ci_grace_period_expired}
use ninthwave.Orchestrator.Workers.{is_dead, check_worker_liveness}
use ninthwave.Orchestrator.Feedback.{Handoff}
use ninthwave.Orchestrator.Pipeline.{is_status, handle_ci_pending}
use ninthwave.Orchestrator.Transition.{Clock, Result, ok, ◌>>=◌, Outcome, transition}

-- `EXTERNAL_MERGE_STATES`.
abbrev pub is_external_merge_state : State → Bool
is_external_merge_state implementing = true
is_external_merge_state ci_pending = true
is_external_merge_state ci_passed = true
is_external_merge_state ci_failed = true
is_external_merge_state review_pending = true
is_external_merge_state reviewing = true
is_external_merge_state merging = true
is_external_merge_state _ = false

-- One action if the worker is there.
abbrev pub if_running : Option String → Action → List Action
if_running none action = []
if_running (some ref) action = action ∷ []

unfoldable pub intercept_external_merge : Clock → ItemSnapshot → Item → Handoff
intercept_external_merge clock snap item =
    if not (is_external_merge_state item.state && is_merged snap.pr_state)
    then ok (item, none)
    else do
      item' ←
          transition clock merged snap.event_time
            (record item { pr_number = or_else item.pr_number snap.pr_number })
      ok (
        item',
        some (
            clean item.id
            ∷ (if_running item.review_workspace_ref (clean_review item.id)
                ++ if_running item.fix_forward_workspace_ref (clean_forward_fixer item.id))),
      )

-- The merge commit's checks failed.
unfoldable pub fail_main_ci : Clock → Item → Result Item
fail_main_ci clock item = do
  item' ←
      transition clock fix_forward_failed none
        (record item { fix_forward_fail_count = item.fix_forward_fail_count + 1 })
  ok (record item' { failure_reason = some (main_ci_failed item.merge_commit_sha) })

-- The case `merged` of `transitionItem`.
unfoldable pub handle_merged : Config → Clock → ItemSnapshot → Item → Outcome
handle_merged config clock snap item = do
  item' ←
      if not config.fix_forward || is_status pass snap.merge_commit_ci_status
      then transition clock done none item
      else if is_status fail snap.merge_commit_ci_status
      then fail_main_ci clock item
      else if is_some item.merge_commit_sha
      then transition clock forward_fix_pending none item
      else ok item
  ok (item', if_running item.workspace_ref (workspace_close item.id))

unfoldable pub handle_forward_fix_pending : Clock → ItemSnapshot → Item → Outcome
handle_forward_fix_pending clock snap item = do
  item' ←
      if is_status pass snap.merge_commit_ci_status
      then transition clock done none item
      else if is_status fail snap.merge_commit_ci_status
      then fail_main_ci clock item
      else if is_status pending snap.merge_commit_ci_status
          && is_merge_ci_grace_period_expired item.last_transition clock.now (
              if get_or snap.has_push_workflows true
              then merge_ci_grace
              else merge_ci_no_push_grace)
      then transition clock done none item
      else ok item
  ok (item', [])

abbrev pub keep_prior : ℕ → ℕ → List ℕ → List ℕ
keep_prior old new priors =
    if old == new then priors else if any (λ n. n == old) priors then priors else priors ++ old ∷ []

-- `adoptTrackedPrNumber`: the earlier active number is kept, once.
unfoldable pub adopt_tracked_pr_number : ℕ → Item → Item
adopt_tracked_pr_number pr item = record item {
  pr_number = some pr;
  prior_pr_numbers = priors item.pr_number;
}
  where
    priors : Option ℕ → List ℕ
    priors none = item.prior_pr_numbers
    priors (some old) = keep_prior old pr item.prior_pr_numbers

unfoldable pub handle_fix_forward_failed : Config → Clock → ItemSnapshot → Item → Outcome
handle_fix_forward_failed config clock snap item =
    if leb config.max_fix_forward_retries item.fix_forward_fail_count
    then (do
      item' ← transition clock stuck none item
      ok (
        record item' {
          failure_reason =
              some (max_fix_forward_exceeded config.max_fix_forward_retries item.merge_commit_sha);
        },
        [],
      ))
    else if is_status pass snap.merge_commit_ci_status
    then (do item' ← transition clock done none item; ok (item', []))
    else if is_some item.merge_commit_sha
    then (do
      item' ← transition clock fixing_forward none item
      ok (item', launch_forward_fixer item.id ∷ []))
    else ok (item, [])

-- The resets for an item that starts again on its repair pull request.
unfoldable pub restart_on_repair : ℕ → Item → Item
unfolding adopt_tracked_pr_number
restart_on_repair pr item = record (adopt_tracked_pr_number pr item) {
  merge_commit_sha = none;
  review_completed = false;
  review_round = none;
  last_comment_check = none;
  ci_fail_count = 0;
  merge_fail_count = 0;
  ci_failure_notified = false;
  ci_failure_notified_at = undefined;
  rebase_requested = false;
  not_alive_count = 0;
}

-- The forward-fixer has opened or merged a pull request.
unfoldable pub adopt_repair : Config → Clock → ItemSnapshot → ℕ → Item → Outcome
adopt_repair config clock snap pr item =
    if is_merged snap.pr_state
    then (do
      item' ← transition clock merged snap.event_time (restart_on_repair pr item)
      ok (item', if_running item.fix_forward_workspace_ref (clean_forward_fixer item.id)))
    else do
      item' ← transition clock ci_pending snap.event_time (restart_on_repair pr item)
      handle_ci_pending config (record clock { now = clock.wall }) snap item'

-- `handleFixingForward` where there is no repair pull request.
unfoldable pub watch_forward_fixer : Clock → ItemSnapshot → Item → Outcome
watch_forward_fixer clock snap item =
    if is_status pass snap.merge_commit_ci_status
    then (do
      item' ← transition clock done none item
      ok (item', if_running item.fix_forward_workspace_ref (clean_forward_fixer item.id)))
    else if not (is_some item.fix_forward_workspace_ref)
    then ok (item, [])
    else (let (item', liveness) = check_worker_liveness snap item in
        if not (is_dead liveness) then ok (item', []) else do
          failed ← transition clock stuck none item'
          ok (
            record failed { failure_reason = some (forward_fixer_died item.merge_commit_sha) },
            clean_forward_fixer item.id ∷ [],
          ))

unfoldable pub fix_forward_by : Config → Clock → ItemSnapshot → Item → Option ℕ → Outcome
fix_forward_by config clock snap item none = watch_forward_fixer clock snap item
fix_forward_by config clock snap item (some pr) =
    if is_open snap.pr_state || is_merged snap.pr_state
    then adopt_repair config clock snap pr item
    else watch_forward_fixer clock snap item

unfoldable pub handle_fixing_forward : Config → Clock → ItemSnapshot → Item → Outcome
unfolding fix_forward_by
handle_fixing_forward config clock snap item = fix_forward_by config clock snap item snap.pr_number
