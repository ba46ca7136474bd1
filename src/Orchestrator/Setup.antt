-- ===== src/Orchestrator/Setup.antt =====
-- core/orchestrator.ts: the class `Orchestrator`, the settings that change at runtime, and the
-- operations on its map of items. A limit is a whole number. `new Date()` is the argument `wall`.
use ninthwave.Prelude.{
  ℕ, max, Bool, true, false, not, ◌&&◌, ◌||◌, String, [], ◌∷◌, map, Option, none, some, get_or,
  if◌then◌else◌, str_eq, ◌==◌,
}
use ninthwave.Orchestrator.Types.{
  State, Config, MergeStrategy, auto, manual, bypass, queued, ready, launching, implementing,
  merged, done, blocked, stuck, review_pending, reviewing, is,
}
use ninthwave.Orchestrator.Actions.{at}
use ninthwave.Orchestrator.Item.{Item, WorkItem, undefined}
use ninthwave.Orchestrator.Merge.{is_bypass}
use ninthwave.Orchestrator.Store.{Store, get_item, update_item}

pub record Orchestrator : Type 0 where
  pub config : Config
  pub items : Store
  pub force_review_pending_reevaluation : Bool

unfoldable pub set_max_inflight : ℕ → Orchestrator → Orchestrator
set_max_inflight limit o = record o { config = record o.config { max_inflight = max 1 limit } }

unfoldable pub set_accepting_work : Bool → Orchestrator → Orchestrator
set_accepting_work accepting o = record o {
  config = record o.config { accepting_work = accepting };
}

unfoldable pub toggle_accepting_work : Orchestrator → Orchestrator × Bool
toggle_accepting_work o =
    let next = not o.config.accepting_work in
    (record o { config = record o.config { accepting_work = next } }, next)

abbrev pub same_strategy : MergeStrategy → MergeStrategy → Bool
same_strategy auto auto = true
same_strategy manual manual = true
same_strategy bypass bypass = true
same_strategy _ _ = false

-- The result `none` is the error that is thrown.
unfoldable pub set_merge_strategy : MergeStrategy → Orchestrator → Option Orchestrator
set_merge_strategy strategy o =
    if is_bypass strategy && not o.config.bypass_enabled
    then none
    else if same_strategy strategy o.config.merge_strategy
    then some o
    else some (record o {
      config = record o.config { merge_strategy = strategy };
      force_review_pending_reevaluation = true;
    })

-- The states that the backfill of `setSkipReview` leaves alone.
abbrev pub needs_no_backfill : State → Bool
needs_no_backfill s =
    is s merged
    || (is s done
        || (is s stuck
            || (is s blocked
                || (is s queued || (is s ready || (is s launching || is s implementing))))))

abbrev pub drain_review_gate : Item → Item
drain_review_gate item =
    if is item.state reviewing || is item.state review_pending
    then record item { review_completed = true }
    else item

abbrev pub backfill_review_gate : Item → Item
backfill_review_gate item =
    if item.review_completed
      && (get_or item.review_round 0 == 0 && not (needs_no_backfill item.state))
    then record item { review_completed = false }
    else item

unfoldable pub set_skip_review : Bool → Orchestrator → Orchestrator
set_skip_review skip o = record o {
  config = record o.config { skip_review = skip };
  items = map (if skip then drain_review_gate else backfill_review_gate) o.items;
}

-- An item as `addItem` makes it.
abbrev pub new_item : ℕ → WorkItem → Item
new_item wall work_item = record {
  id = work_item.id;
  work_item = work_item;
  state = queued;
  pr_number = none;
  prior_pr_numbers = [];
  workspace_ref = none;
  pending_retry_workspace_ref = none;
  last_reviewed_commit_sha = none;
  last_approved_commit_sha = none;
  last_transition = at wall;
  ci_fail_count = 0;
  ci_fail_count_total = 0;
  retry_count = 0;
  last_commit_time = undefined;
  rebase_requested = false;
  event_time = none;
  detected_time = none;
  detection_latency_ms = 0;
  base_branch = none;
  review_workspace_ref = none;
  rebaser_workspace_ref = none;
  review_completed = false;
  failure_reason = none;
  started_at = none;
  ended_at = none;
  not_alive_count = 0;
  last_alive_at = none;
  review_round = none;
  merge_fail_count = 0;
  ci_failure_notified = false;
  ci_failure_notified_at = undefined;
  ci_notify_wall_at = none;
  last_comment_check = none;
  rebase_attempt_count = 0;
  last_rebase_nudge_at = none;
  rebase_nudge_count = 0;
  needs_ci_fix = false;
  needs_feedback_response = false;
  pending_feedback_message = none;
  pending_feedback_live_delivery_armed = false;
  pending_feedback_batch = none;
  pending_comment_reactions = [];
  merge_commit_sha = none;
  default_branch = none;
  fix_forward_fail_count = 0;
  fix_forward_workspace_ref = none;
  session_parked = false;
  timeout_deadline = none;
  timeout_extension_count = 0;
  ci_pending_since = none;
  pushback_rounds = [];
  worktree_path = none;
  ai_tool = none;
  last_screen_output = none;
  review_verdict_path = none;
}

-- `Map.set`: a known id keeps its place.
unfoldable pub put_item : Item → Store → Store
put_item new [] = new ∷ []
put_item new (item ∷ rest) =
    let later = put_item new rest in if str_eq item.id new.id then new ∷ rest else item ∷ later

unfoldable pub add_item : ℕ → WorkItem → Orchestrator → Orchestrator
unfolding put_item
add_item wall work_item o = record o { items = put_item (new_item wall work_item) o.items }

unfoldable pub replace_work_item : String → WorkItem → Orchestrator → Orchestrator × Bool
replace_work_item id work_item o = elim (get_item id o.items) [
  | none ↦ (o, false)
  | some item ↦
      (record o { items = update_item (record item { work_item = work_item }) o.items }, true)
]

unfoldable pub hydrate_state : ℕ → String → State → Orchestrator → Orchestrator
hydrate_state wall id state o = elim (get_item id o.items) [
  | none ↦ o
  | some item ↦ record o {
    items = update_item (record item { state = state; last_transition = at wall }) o.items;
  }
]
