-- ===== src/Execution/Laws/Launches.antt =====
-- core/orchestrator-actions.ts: how `executeLaunch` ends.
use ninthwave.Prelude.{
  ℕ, ◌+◌, ◌≤◌, ◌<◌, Bool, true, false, ◌&&◌, String, ◌≡◌, refl, subst, ◌⊎◌, inl, inr, arith, Option,
  is_some, leb, Bool-cases,
}
use ninthwave.Orchestrator.Types.{Config, launching, ci_pending, ready, stuck, blocked, is}
use ninthwave.Orchestrator.Item.{Item}
use ninthwave.Orchestrator.Transition.{Clock}
use ninthwave.Orchestrator.Store.{Store}
use ninthwave.Orchestrator.Laws.Post.{is_sound}
use ninthwave.Execution.Deps.{Run, ran, raised, returned, Deps, Context, Executed, Validation}
use ninthwave.Execution.Launch.{execute_launch}
use ninthwave.Execution.Laws.LaunchEnds.{is_launch_end, not_true, launch-is_launch_end}

-- How a launch ends.
abbrev pub IsLaunchEnd : ℕ → Item → Executed → Type 0
IsLaunchEnd max item r =
    ((r.success ≡ true) × (r.item.state ≡ ci_pending))
    ⊎ ((r.success ≡ true) × (r.item.state ≡ launching) × (is_some r.item.workspace_ref ≡ true))
    ⊎ ((r.success ≡ false) × (r.item.state ≡ blocked))
    ⊎ ((r.success ≡ false)
        × (r.item.state ≡ ready)
        × (r.item.retry_count ≡ item.retry_count + 1)
        × (item.retry_count < max))
    ⊎ ((r.success ≡ false) × (r.item.state ≡ stuck) × (max ≤ item.retry_count))

IsLaunchEnd-means :
    (max : ℕ) (item : Item) (r : Executed)
    → is_launch_end max item.retry_count (ran r) ≡ true
    → IsLaunchEnd max item r
IsLaunchEnd-means max item r h = elim (Bool-cases r.success) [
  | inl succeeded ↦ elim (Bool-cases (is r.item.state ci_pending)) [
    | inl pended ↦ inl (succeeded, is_sound r.item.state ci_pending pended)
    | inr other ↦
        inr (inl (succeeded, is_sound r.item.state launching (ground arith), ground arith))
  ]
  | inr failed ↦ elim (Bool-cases (is r.item.state blocked)) [
    | inl refused ↦ inr (inr (inl (failed, is_sound r.item.state blocked refused)))
    | inr other ↦ elim (Bool-cases (is r.item.state stuck && leb max item.retry_count)) [
      | inl given_up ↦
          inr (inr (inr (inr (failed, is_sound r.item.state stuck (ground arith), ground arith))))
      | inr more ↦ inr (
          inr (
            inr (
              inl
                (failed, is_sound r.item.state ready (ground arith), ground arith, ground arith))))
    ]
  ]
]

module _ (clock : Clock) (config : Config) (store : Store) (ctx : Context) (deps : Deps)
    (base : Option String) (item : Item) where
  -- A launch from `launching` throws nothing, if the validation of the work item does not. It succeeds with
  -- a worker, or with a pull request in `ci-pending`; or it fails with a blocked item, with one of the
  -- retries used and the item ready again, or, with no retry left, with the item stuck.
  pub execute_launch-IsLaunchEnd :
      (v : Validation)
      → item.state ≡ launching
      → deps.workers.validate_pickup_candidate item.work_item ≡ returned v
      → (r : Executed) × (execute_launch clock config store ctx deps base item ≡ ran r)
        × IsLaunchEnd config.max_retries item r
  execute_launch-IsLaunchEnd v h a =
      from (execute_launch clock config store ctx deps base item) refl
    where
      P : Run Executed → Bool
      P = is_launch_end config.max_retries item.retry_count

      ended : P (execute_launch clock config store ctx deps base item) ≡ true
      ended = launch-is_launch_end clock config store ctx deps base item h v a

      from :
          (q : Run Executed)
          → execute_launch clock config store ctx deps base item ≡ q
          → (r : Executed) × (q ≡ ran r) × IsLaunchEnd config.max_retries item r
      from (ran r) e =
          (r, refl, IsLaunchEnd-means config.max_retries item r (subst (λ x. P x ≡ true) e ended))
      from (raised x) e = absurd (not_true (subst (λ y. P y ≡ true) e ended))
