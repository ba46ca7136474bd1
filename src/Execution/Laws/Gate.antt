-- ===== src/Execution/Laws/Gate.antt =====
-- core/orchestrator-actions.ts: when `executeMerge` merges.
use ninthwave.Prelude.{
  ℕ, Bool, true, false, not, ◌&&◌, ◌||◌, String, [], ◌≡◌, refl, subst, inl, inr, arith, some, any,
  str_eq, str_eq_iff, Bool-cases,
}
use ninthwave.Orchestrator.Types.{Config, ci_passed}
use ninthwave.Orchestrator.Item.{Item}
use ninthwave.Orchestrator.Transition.{Clock}
use ninthwave.Orchestrator.Store.{Store}
use ninthwave.Execution.Deps.{Run, ran, raised, ◌>>=◌, Deps, Context}
use ninthwave.Execution.Inbox.{resolve_default_branch, resolve_expected_pr_base}
use ninthwave.Execution.MergeBase.{BaseCheck, goes_on, stops, check_base}
use ninthwave.Execution.MergeSuccess.{
  MergeRun, attempt_merge, merge_checked, merge_onto, execute_merge,
}
use ninthwave.Execution.Laws.BaseChecks.{
  is_checked, check_base-is_checked, end_in-no_merge, is_merge, base_confirmed,
}

-- A merge is only onto the default branch, of a pull request whose base is confirmed.
abbrev is_gated : Bool → String → String → Run MergeRun → Bool
is_gated confirmed expected branch (raised e) = true
is_gated confirmed expected branch (ran r) =
    not (any is_merge r.executed.calls) || confirmed && str_eq expected branch

gated-means :
    (confirmed : Bool) (expected branch : String) (r : MergeRun)
    → is_gated confirmed expected branch (ran r) ≡ true
    → any is_merge r.executed.calls ≡ true
    → (str_eq expected branch ≡ true) × (confirmed ≡ true)
gated-means confirmed expected branch r g m = ground arith

onto_default-is_gated :
    (expected branch : String) (r : Run MergeRun)
    → str_eq expected branch ≡ true
    → is_gated true expected branch r ≡ true
onto_default-is_gated expected branch (raised e) h = refl
onto_default-is_gated expected branch (ran r) h = ground arith

module _ (clock : Clock) (config : Config) (store : Store) (ctx : Context) (deps : Deps) (pr : ℕ)
    (admin : Bool) (branch expected : String) where
  attempt_merge-is_gated :
      (item : Item)
      → is_gated true expected branch
          (attempt_merge clock config store ctx deps pr admin branch expected item)
        ≡ true
  unfolding attempt_merge
  attempt_merge-is_gated item = elim (Bool-cases (str_eq expected branch)) [
    | inl same ↦
        onto_default-is_gated expected branch
          (attempt_merge clock config store ctx deps pr admin branch expected item) same
    | inr other ↦ rw other (grind (arith, end_in-no_merge clock ci_passed [] false item))
  ]

  merge_checked-is_gated :
      (confirmed : Bool) (checked : Run BaseCheck)
      → is_checked confirmed checked ≡ true
      → is_gated confirmed expected branch
          (checked >>= merge_checked clock config store ctx deps pr admin branch expected)
        ≡ true
  unfolding merge_checked
  merge_checked-is_gated confirmed (raised e) h = refl
  merge_checked-is_gated confirmed (ran (stops e)) h = ground arith
  merge_checked-is_gated true (ran (goes_on item)) h = attempt_merge-is_gated item
  merge_checked-is_gated false (ran (goes_on item)) h = absurd (ground arith)

  merge_onto-is_gated :
      (item : Item)
      → is_gated
          (base_confirmed deps pr expected)
          expected
          branch
          (merge_onto clock config store ctx deps pr admin branch expected item)
        ≡ true
  unfolding merge_onto
  merge_onto-is_gated item =
      merge_checked-is_gated (base_confirmed deps pr expected)
        (check_base clock ctx deps pr branch expected item)
        (check_base-is_checked clock ctx deps pr branch expected item)

-- A merge is made only where the base that is expected of the pull request is the default branch, that
-- is, where no dependency on which it is stacked is left, and only where GitHub, if it is asked, names
-- that branch as the base of a pull request that is not merged yet.
pub execute_merge-gated :
    (clock : Clock) (config : Config) (store : Store) (ctx : Context) (deps : Deps) (pr : ℕ)
    (admin : Bool) (item : Item) (r : MergeRun)
    → execute_merge clock config store ctx deps (some pr) admin item ≡ ran r
    → any is_merge r.executed.calls ≡ true
    → (resolve_expected_pr_base store
          (resolve_default_branch deps item).0
          (resolve_default_branch deps item).1
        ≡ (resolve_default_branch deps item).1)
      × (base_confirmed deps pr (resolve_default_branch deps item).1 ≡ true)
unfolding execute_merge
execute_merge-gated clock config store ctx deps pr admin item r e m =
    (same, subst (λ b. base_confirmed deps pr b ≡ true) same meant.1)
  where
    branch : String
    branch = (resolve_default_branch deps item).1

    expected : String
    expected = resolve_expected_pr_base store (resolve_default_branch deps item).0 branch

    meant : (str_eq expected branch ≡ true) × (base_confirmed deps pr expected ≡ true)
    meant =
        gated-means (base_confirmed deps pr expected) expected branch r
          (subst (λ q. is_gated (base_confirmed deps pr expected) expected branch q ≡ true) e
            (merge_onto-is_gated clock config store ctx deps pr admin branch expected
              (resolve_default_branch deps item).0))
          m

    same : expected ≡ branch
    same = (str_eq_iff expected branch).0 meant.0
