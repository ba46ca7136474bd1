-- ===== src/Examples.antt =====
-- Concrete inputs for core/orchestrator.ts and core/broker-state.ts.
mod Execution
mod Planning
mod Requests
use ninthwave.Prelude.{
  Bool, true, List, String, ℕ, ◌≤◌, max, ◌+◌, true, false, [], ◌∷◌, ◌≡◌, refl, ◌⊎◌, none, some,
  every, length, is_some, In,
}
use ninthwave.Orchestrator.Types.{
  default_config, ready, implementing, ci_failed, ci_passed, review_pending, merging, stuck,
  human_feedback_debounce,
}
use ninthwave.Orchestrator.Actions.{Comment, Batch, at, launch_timeout}
use ninthwave.Orchestrator.Item.{Item, ItemSnapshot, WorkItem, high, no_snapshot, open_pr, pass}
use ninthwave.Orchestrator.Setup.{new_item}
use ninthwave.Orchestrator.Transition.{Clock, illegal_transition, transition, moved, ◌>>=◌}
use ninthwave.Orchestrator.Workers.{check_worker_liveness, dead, extend_timeout, stuck_or_retry}
use ninthwave.Orchestrator.Feedback.{
  human_feedback_comments, is_human, ingest_pending_feedback_batch, resolve_pending_feedback_batch,
  continue_pending_feedback_handoff, latest_created_at, batch_comments, same_key,
}
use ninthwave.Orchestrator.Merge.{evaluate_merge, try_handle_no_new_info, merge_or_hold}
use ninthwave.Orchestrator.Implementing.{handle_implementing}
use ninthwave.Orchestrator.Store.{
  get_item, active_item_count, available_inflight_slots, find_stackable, can_stack_launch,
}
use ninthwave.Orchestrator.Process.{handle, transition_item, launch_ready_items}
use ninthwave.Orchestrator.Laws.Post.{Post}
use ninthwave.Orchestrator.Laws.Parking.{Parks}
use ninthwave.Orchestrator.Laws.Legality.{handle-Parks}
use ninthwave.Orchestrator.Laws.Polls.{AllParked, transition_item-AllParked, stuck_feedback_throws}
use ninthwave.Orchestrator.Laws.MergeGate.{may_merge_now, evaluate_merge-merges}
use ninthwave.Orchestrator.Laws.Slots.{admits, launch_ready_items-bounded, can_stack_launch-admits}
use ninthwave.Orchestrator.Laws.Liveness.{
  checked, check_worker_liveness-debounces, extend_timeout-bounded, stuck_or_retry-bounded,
}
use ninthwave.Orchestrator.Laws.Batches.{has, in_order, ingest-has, ingest-in_order}
use ninthwave.Orchestrator.Laws.Implementing.{handle_implementing_no_new_info_throws}
use ninthwave.Orchestrator.Item.{critical}
use ninthwave.Orchestrator.Actions.{Action, merge}
use ninthwave.Orchestrator.Poll.{
  prioritize_merge_actions, keep_first, sort_candidates, insert_candidate, comes_first, deps_num,
  has_unmerged_deps, candidates, for_each, move_to,
}
use ninthwave.Orchestrator.Store.{update_item, Store}
use ninthwave.Orchestrator.Laws.MergeQueue.{
  merges_only, has_merge_of, is_best, others_of, prioritize_merge_actions-best,
}
use ninthwave.Broker.Crew.{CrewState, get_daemon, is_work_item_available}
use ninthwave.Broker.Daemons.{new_daemon, connect_daemon}
use ninthwave.Broker.Items.{SyncItem, sync_crew_items, claim_next_work_item, claim_from, first_of}
use ninthwave.Broker.Laws.Claims.{IsClaim, claim_next_work_item-best}
use ninthwave.Broker.Laws.Runs.{new_crew, start, next, connects, syncs, claims, IsSound}
use ninthwave.Broker.Laws.Reach.{Reachable-IsSound}

abbrev work : WorkItem
work = record {
  id = "H-1";
  priority = high;
  title = "Add a test";
  dependencies = "H-0" ∷ [];
  requires_manual_review = false;
}

abbrev queued_item : Item
queued_item = new_item 0 work

abbrev clock : Clock
clock = record { now = 100; wall = 101 }

-- A parked item that waits for its review.
abbrev parked_item : Item
parked_item = record queued_item { state = review_pending; session_parked = true }

abbrev reviewed_item : Item
reviewed_item = record queued_item {
  state = ci_passed;
  review_completed = true;
  pr_number = some 7;
}

abbrev passing : ItemSnapshot
passing = record no_snapshot {
  id = "H-1";
  ci_status = some pass;
  pr_state = some open_pr;
  pr_number = some 7;
}

abbrev comment : Comment
comment = record {
  id = some 1;
  body = "please rename it";
  author = "ann";
  created_at = 50;
  comment_type = none;
}

abbrev commented : ItemSnapshot
commented = record no_snapshot { id = "H-1"; new_comments = comment ∷ []; worker_alive = some true }

abbrev dead_worker : ItemSnapshot
dead_worker = record no_snapshot { id = "H-1"; worker_alive = some false }

transition_item-AllParked_example :
    Post
      (λ r. AllParked r.0)
      (transition_item default_config clock passing parked_item (parked_item ∷ []))
transition_item-AllParked_example =
    transition_item-AllParked default_config clock passing parked_item (parked_item ∷ []) refl
      (refl, tt) refl

-- The gate merges the reviewed item.
evaluate_merge-merges_example :
    (may_merge_now default_config passing reviewed_item ≡ true)
    × Post (λ r. r.0.state ≡ merging) (evaluate_merge default_config clock passing reviewed_item)
unfolding evaluate_merge try_handle_no_new_info continue_pending_feedback_handoff
    resolve_pending_feedback_batch merge_or_hold transition moved
evaluate_merge-merges_example =
    evaluate_merge-merges default_config clock passing reviewed_item refl

launch_ready_items-bounded_example :
    Post
      (λ r.
        (active_item_count r.0
          ≤ max default_config.max_inflight (active_item_count (parked_item ∷ [])))
        × (length r.1 ≤ available_inflight_slots default_config (parked_item ∷ [])))
      (launch_ready_items default_config clock (parked_item ∷ []))
launch_ready_items-bounded_example =
    launch_ready_items-bounded default_config clock (parked_item ∷ [])

-- The dependency of the queued item.
abbrev base_item : Item
base_item = record (new_item 0 (record work { id = "H-0"; dependencies = [] })) {
  state = ci_passed;
}

can_stack_launch-admits_example :
    (default_config.enable_stacking ≡ true)
    × (every (λ id. admits default_config "H-0" (get_item id (base_item ∷ []))) ("H-0" ∷ []) ≡ true)
unfolding can_stack_launch find_stackable get_item
can_stack_launch-admits_example =
    can_stack_launch-admits default_config (base_item ∷ []) queued_item "H-0" refl

ingest-has_example :
    has comment
      (batch_comments (ingest_pending_feedback_batch commented queued_item).pending_feedback_batch)
    ≡ true
unfolding human_feedback_comments is_human same_key
ingest-has_example = ingest-has commented queued_item comment refl

ingest-in_order_example :
    (b : Batch) × ((ingest_pending_feedback_batch commented queued_item).pending_feedback_batch
      ≡ some b)
    × (in_order b.comments ≡ true)
    × (latest_created_at (human_feedback_comments (comment ∷ [])) + human_feedback_debounce
        ≤ b.deadline)
    × (0 ≤ b.deadline)
unfolding human_feedback_comments is_human
ingest-in_order_example = ingest-in_order commented queued_item refl

-- The fifth poll that misses the worker.
check_worker_liveness-debounces_example :
    (check_worker_liveness dead_worker (checked 4 dead_worker queued_item)).1 ≡ dead
check_worker_liveness-debounces_example =
    check_worker_liveness-debounces 4 dead_worker queued_item refl refl

abbrev overdue_item : Item
overdue_item = record queued_item { state = implementing; timeout_deadline = some (at 90) }

abbrev extended_item : Item
extended_item = record overdue_item {
  timeout_deadline = some (at 300100);
  timeout_extension_count = 1;
}

extend_timeout-bounded_example :
    ((true ≡ true)
      × (extended_item.timeout_extension_count ≡ 0 + 1)
      × (1 ≤ default_config.max_timeout_extensions)
      × (t : ℕ) × (extended_item.timeout_deadline ≡ some (at t))
      × (100 + 300000 ≤ t))
    ⊎ ((true ≡ false)
        × (extended_item ≡ overdue_item)
        × ((is_some overdue_item.timeout_deadline ≡ false) ⊎ (3 ≤ 0)))
unfolding extend_timeout
extend_timeout-bounded_example =
    extend_timeout-bounded default_config 100 overdue_item extended_item true refl

stuck_or_retry-bounded_example :
    Post
      (λ r.
        ((r.0.state ≡ ready) × (r.0.retry_count ≡ 0 + 1) × (r.0.retry_count ≤ 1))
        ⊎ ((r.0.state ≡ stuck) × (r.0.failure_reason ≡ some launch_timeout) × (1 ≤ 0)))
      (stuck_or_retry default_config clock launch_timeout overdue_item)
stuck_or_retry-bounded_example =
    stuck_or_retry-bounded default_config clock launch_timeout overdue_item refl refl

-- The head has been reviewed, and the worker says that it has nothing new.
abbrev woken_item : Item
woken_item = record queued_item { state = implementing; last_reviewed_commit_sha = some "abc" }

abbrev woken : ItemSnapshot
woken = record passing { head_sha = some "abc"; no_new_info_signal = true }

handle_implementing_no_new_info_throws_example :
    handle_implementing default_config clock woken woken_item
    ≡ illegal_transition implementing review_pending
handle_implementing_no_new_info_throws_example =
    handle_implementing_no_new_info_throws default_config clock woken woken_item refl refl refl refl
      refl

-- The CI retries are used up, the worker lives, and a comment waits for it.
abbrev due_batch : Batch
due_batch = record { comments = comment ∷ []; deadline = 60 }

abbrev exhausted_item : Item
exhausted_item = record queued_item {
  state = ci_failed;
  ci_fail_count = 6;
  pending_feedback_batch = some due_batch;
}

stuck_feedback_throws_example :
    (handle default_config clock commented exhausted_item >>= λ r.
    resolve_pending_feedback_batch clock commented r.0)
    ≡ illegal_transition stuck ready
stuck_feedback_throws_example =
    stuck_feedback_throws default_config clock commented exhausted_item due_batch refl refl refl
      refl refl refl

-- Two items whose merges a poll returns.
abbrev merging_pair : Store
merging_pair =
    record queued_item { state = merging }
    ∷ record (new_item 0 (record work { id = "H-2"; priority = critical; dependencies = [] })) {
      state = merging;
    }
    ∷ []

abbrev merge_pair : List Action
merge_pair = merge "H-1" (some 7) false ∷ merge "H-2" (some 8) false ∷ []

abbrev by_text : String → String → Bool
by_text a b = true

abbrev deferred_pair : Store
deferred_pair =
    moved 101 ci_passed none (record queued_item { state = merging })
    ∷ record (new_item 0 (record work { id = "H-2"; priority = critical; dependencies = [] })) {
      state = merging;
    }
    ∷ []

prioritize_merge_actions-best_example :
    (first : Item) × In first (candidates merging_pair merge_pair)
    × (has_merge_of first.id (merge "H-2" (some 8) false ∷ []) ≡ true)
    × (merges_only first.id (merge "H-2" (some 8) false ∷ []) ≡ true)
    × (is_best merging_pair first (candidates merging_pair merge_pair) ≡ true)
    × (others_of (merge "H-2" (some 8) false ∷ []) ≡ others_of merge_pair)
unfolding prioritize_merge_actions keep_first sort_candidates insert_candidate comes_first deps_num
    has_unmerged_deps candidates get_item update_item for_each move_to transition moved
prioritize_merge_actions-best_example =
    prioritize_merge_actions-best by_text clock merge_pair (merge "H-2" (some 8) false ∷ [])
      merging_pair deferred_pair refl refl

-- A crew of one daemon, with one item.
abbrev crew : CrewState
crew = record {
  code = "c";
  repo_ref = none;
  items =
      record {
        path = "H-1";
        priority = 1;
        dependencies = [];
        author = "ann";
        synced_at = 0;
        creator_daemon_id = "d";
        claimed_by = none;
        completed_by = none;
      }
      ∷ [];
  daemons = new_daemon "d" "host" "ann" 0 ∷ [];
}

claim_next_work_item-best_example : IsClaim crew (claim_next_work_item 0 crew "d").0 "d" "H-1"
unfolding claim_next_work_item claim_from get_daemon is_work_item_available first_of
claim_next_work_item-best_example = claim_next_work_item-best 0 crew "d" "H-1" refl

abbrev sent_items : List SyncItem
sent_items = record { id = "H-1"; priority = 1; dependencies = []; author = "ann" } ∷ []

abbrev joined : CrewState
joined = (connect_daemon 0 (new_crew "c" none) "d" "host" "ann" 0).0

abbrev synced : CrewState
synced = (sync_crew_items 1 joined "d" sent_items 1).0

Reachable-IsSound_example : IsSound (claim_next_work_item 2 synced "d").0.items
Reachable-IsSound_example = Reachable-IsSound "c" (claim_next_work_item 2 synced "d").0 (
    next
      (next (next (start none) (connects 0 (new_crew "c" none) "d" "host" "ann" 0))
        (syncs 1 joined "d" sent_items 1))
      (claims 2 synced "d"))
