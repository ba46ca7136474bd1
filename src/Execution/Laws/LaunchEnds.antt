-- ===== src/Execution/Laws/LaunchEnds.antt =====
-- core/orchestrator-actions.ts: the end of a launch, step by step.
use ninthwave.Prelude.{
  ℕ, ◌+◌, ◌≤◌, ◌<◌, Bool, true, false, not, ◌&&◌, ◌||◌, String, List, [], ◌∷◌, ◌++◌, ◌≡◌, refl, inl,
  inr, arith, Option, none, some, is_some, if◌then◌else◌, ltb, leb, ◌==◌, Bool-cases,
}
use ninthwave.Orchestrator.Types.{Config, launching, ci_pending, ready, stuck, blocked, is}
use ninthwave.Orchestrator.Actions.{FailureReason}
use ninthwave.Orchestrator.Item.{Item}
use ninthwave.Orchestrator.Transition.{Clock, state-moved}
use ninthwave.Orchestrator.Store.{Store}
use ninthwave.Execution.Deps.{
  Run, ran, raised, try_catch, thrown, Exception, returned, threw, Attempt, Deps, Context, Call,
  Executed, end_in, finish, Launched, launch_call, get_next_tool, Validation, launchable,
  skip_with_pr, is_blocked,
}
use ninthwave.Execution.Launch.{
  give_up_launch, feedback_delivered, tell_ci_fix, give_feedback, live_base, item_base, caught,
  launched_nothing, worker_launched, settle_launch, after_launch, launch_worker, launch_valid,
  execute_launch,
}
use ninthwave.Execution.Laws.Moves.{kept-moved, change-allowed}

-- The run of an item with `n` retries of `max`, launched from `launching`.
abbrev pub is_launch_end : ℕ → ℕ → Run Executed → Bool
is_launch_end max n (raised e) = false
is_launch_end max n (ran r) =
    if r.success
    then is r.item.state ci_pending || is r.item.state launching && is_some r.item.workspace_ref
    else is r.item.state blocked
      || is r.item.state ready && (r.item.retry_count == n + 1 && ltb n max)
      || is r.item.state stuck && leb max n

pub not_true : false ≡ true → ⊥
not_true h = ground arith

module _ (clock : Clock) (item : Item) (h : item.state ≡ launching) where
  pended-is_launch_end :
      (max n : ℕ) (calls : List Call)
      → is_launch_end max n (end_in clock ci_pending calls true item) ≡ true
  pended-is_launch_end max n calls =
      rw (change-allowed clock launching ci_pending item h refl refl)
        (grind (arith, state-moved clock.wall ci_pending none item))

  retried-is_launch_end :
      (max n : ℕ) (calls : List Call)
      → item.retry_count ≡ n + 1
      → n < max
      → is_launch_end max n (end_in clock ready calls false item) ≡ true
  retried-is_launch_end max n calls e l =
      rw (change-allowed clock launching ready item h refl refl) (
        grind
          (arith, state-moved clock.wall ready none item, kept-moved clock.wall ready none item))

  given_up-is_launch_end :
      (max n : ℕ) (reason : FailureReason) (calls : List Call)
      → max ≤ n
      → is_launch_end max n (give_up_launch clock reason calls item) ≡ true
  given_up-is_launch_end max n reason calls l =
      rw (change-allowed clock launching stuck item h refl refl)
        (grind (arith, state-moved clock.wall stuck none item))

try-holds :
    {A : Type 0} (P : Run Executed → Bool) (q : Run A) (catch : Exception → Run Executed)
    (more : A → Run Executed)
    → ((e : Exception) → P (catch e) ≡ true)
    → ((a : A) → P (more a) ≡ true)
    → P (try_catch q catch more) ≡ true
try-holds P (ran a) catch more c m = m a
try-holds P (raised e) catch more c m = c e

module _ (clock : Clock) (config : Config) (calls : List Call) where
  caught-is_launch_end :
      (item : Item) (e : Exception)
      → item.state ≡ launching
      → is_launch_end config.max_retries item.retry_count (caught clock config calls item e) ≡ true
  unfolding caught
  caught-is_launch_end item e h = grind (arith, retried-is_launch_end, given_up-is_launch_end)

  launched_nothing-is_launch_end :
      (item : Item)
      → item.state ≡ launching
      → is_launch_end config.max_retries item.retry_count (launched_nothing clock config calls item)
        ≡ true
  unfolding launched_nothing
  launched_nothing-is_launch_end item h =
      elim (Bool-cases (ltb item.retry_count config.max_retries)) [
        | inl more ↦
            rw (more, change-allowed clock launching ready again h refl refl)
              (grind (
                arith,
                state-moved clock.wall ready none again,
                kept-moved clock.wall ready none again,
              ))
        | inr no_more ↦
            rw (no_more, change-allowed clock launching stuck item h refl refl)
              (grind (arith, state-moved clock.wall stuck none item))
      ]
    where
      again : Item
      again = record item { retry_count = item.retry_count + 1 }

  worker_launched-is_launch_end :
      (ctx : Context) (deps : Deps) (fix : Bool) (item : Item)
      → item.state ≡ launching
      → is_some item.workspace_ref ≡ true
      → is_launch_end config.max_retries item.retry_count
          (worker_launched clock config ctx deps fix calls item)
        ≡ true
  unfolding worker_launched
  worker_launched-is_launch_end ctx deps fix item h w =
      try-holds P (tell_ci_fix ctx deps fix item) (caught clock config calls item)
        (λ first.
          try_catch (give_feedback ctx deps item) (caught clock config calls item) (end_of first))
        fails
        (λ first.
          try-holds P (give_feedback ctx deps item) (caught clock config calls item) (end_of first)
            fails (launched first))
    where
      P : Run Executed → Bool
      P = is_launch_end config.max_retries item.retry_count

      fails : (e : Exception) → P (caught clock config calls item e) ≡ true
      fails e = caught-is_launch_end item e h

      end_of : List Call × Bool → List Call × Bool → Run Executed
      end_of first second =
          finish (feedback_delivered item.needs_feedback_response item)
            (calls ++ first.0 ++ second.0) true

      launched : (first second : List Call × Bool) → P (end_of first second) ≡ true
      launched first second = grind arith

  settle_launch-is_launch_end :
      (ctx : Context) (deps : Deps) (fix : Bool) (tool : String) (item : Item) (l : Launched)
      → item.state ≡ launching
      → is_launch_end config.max_retries item.retry_count
          (settle_launch clock config ctx deps fix tool calls item l)
        ≡ true
  unfolding settle_launch
  settle_launch-is_launch_end ctx deps fix tool item l h = from l.existing_pr_number
    where
      started : Item
      started = record item {
        workspace_ref = some l.workspace_ref;
        worktree_path = some l.worktree_path;
        ai_tool = some tool;
      }

      settled : Option ℕ → Run Executed
      settled (some pr) =
          let known = record item { pr_number = some pr } in
          try_catch (end_in clock ci_pending calls true known) (caught clock config calls known) ran
      settled none = worker_launched clock config ctx deps fix calls started

      from : (o : Option ℕ) → is_launch_end config.max_retries item.retry_count (settled o) ≡ true
      from none = worker_launched-is_launch_end ctx deps fix started h refl
      from (some pr) =
          let known = record item { pr_number = some pr } in
          rw (change-allowed clock launching ci_pending known h refl refl)
            (grind (arith, state-moved clock.wall ci_pending none known))

  after_launch-is_launch_end :
      (ctx : Context) (deps : Deps) (fix : Bool) (tool : String) (item : Item)
      (answer : Attempt (Option Launched))
      → item.state ≡ launching
      → is_launch_end config.max_retries item.retry_count
          (after_launch clock config ctx deps fix tool calls item answer)
        ≡ true
  unfolding after_launch
  after_launch-is_launch_end ctx deps fix tool item (threw text) h =
      caught-is_launch_end item (thrown text) h
  after_launch-is_launch_end ctx deps fix tool item (returned none) h =
      launched_nothing-is_launch_end item h
  after_launch-is_launch_end ctx deps fix tool item (returned (some l)) h =
      settle_launch-is_launch_end ctx deps fix tool item l h

module _ (clock : Clock) (config : Config) (store : Store) (ctx : Context) (deps : Deps)
    (base : Option String) (item : Item) (h : item.state ≡ launching) where
  launch_worker-is_launch_end :
      is_launch_end config.max_retries item.retry_count
        (launch_worker clock config store ctx deps base item)
      ≡ true
  unfolding launch_worker
  launch_worker-is_launch_end =
      let tool = (get_next_tool ctx).0 in
      let force = item.needs_ci_fix || item.needs_feedback_response in
      after_launch-is_launch_end clock config
        (launch_call item.id tool (live_base store base) force ∷ []) ctx deps item.needs_ci_fix tool
        (record item { base_branch = item_base store base item; needs_ci_fix = false })
        (deps.workers.launch_single_item item.work_item tool (live_base store base) force) h

  launch_valid-is_launch_end :
      (v : Validation)
      → is_launch_end config.max_retries item.retry_count
          (launch_valid clock config store ctx deps base item v)
        ≡ true
  unfolding launch_valid
  launch_valid-is_launch_end (is_blocked reason) =
      rw (change-allowed clock launching blocked item h refl refl)
        (grind (arith, state-moved clock.wall blocked none item))
  launch_valid-is_launch_end (skip_with_pr pr) =
      elim (Bool-cases (not item.needs_ci_fix && not item.needs_feedback_response)) [
        | inl skips ↦ rw skips (
            pended-is_launch_end clock (record item { pr_number = some pr }) h config.max_retries
              item.retry_count [])
        | inr stays ↦ rw stays launch_worker-is_launch_end
      ]
  launch_valid-is_launch_end launchable = launch_worker-is_launch_end

  pub launch-is_launch_end :
      (v : Validation)
      → deps.workers.validate_pickup_candidate item.work_item ≡ returned v
      → is_launch_end config.max_retries item.retry_count
          (execute_launch clock config store ctx deps base item)
        ≡ true
  unfolding execute_launch
  launch-is_launch_end v e = rw e (launch_valid-is_launch_end v)
