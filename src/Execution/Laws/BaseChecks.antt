-- ===== src/Execution/Laws/BaseChecks.antt =====
-- core/orchestrator-actions.ts: the check of the base branch before a merge.
use ninthwave.Prelude.{
  ℕ, Bool, true, false, not, ◌&&◌, ◌||◌, String, List, [], ◌∷◌, ◌++◌, ◌≡◌, refl, arith, Option,
  none, some, any, str_eq,
}
use ninthwave.Orchestrator.Item.{Item, is_merged}
use ninthwave.Orchestrator.Transition.{Clock}
use ninthwave.Execution.Deps.{
  Run, ran, raised, returned, threw, await, ◌>>=◌, Attempt, Deps, Context, Call, merge_call,
  Executed, Notice, end_in, BaseAndState,
}
use ninthwave.Execution.Inbox.{deliver_to_implementer_inbox, try_daemon_rebase}
use ninthwave.Execution.MergeBase.{
  BaseCheck, goes_on, stops, request_rebase, not_retargeted, retarget, compare_base, close_merged,
  already_merged, judge_base, check_base_by, check_base,
}

abbrev pub is_merge : Call → Bool
is_merge (merge_call pr admin) = true
is_merge _ = false

any-append : (xs ys : List Call) → any is_merge (xs ++ ys) ≡ (any is_merge xs || any is_merge ys)
any-append [] ys = refl
any-append (x ∷ xs) ys = grind (arith, any-append xs ys)

abbrev no_merge : Run Executed → Bool
no_merge (raised e) = true
no_merge (ran r) = not (any is_merge r.calls)

pub end_in-no_merge :
    (clock : Clock) (s : _) (calls : List Call) (b : Bool) (item : Item)
    → any is_merge calls ≡ false
    → no_merge (end_in clock s calls b item) ≡ true
end_in-no_merge clock s calls b item h = ground arith

request_rebase-no_merge :
    (clock : Clock) (ctx : Context) (deps : Deps) (notice : Notice) (calls : List Call)
    (item : Item)
    → any is_merge calls ≡ false
    → no_merge (request_rebase clock ctx deps notice calls item) ≡ true
unfolding request_rebase try_daemon_rebase deliver_to_implementer_inbox
request_rebase-no_merge clock ctx deps notice calls item h =
    grind (arith, any-append, end_in-no_merge)

retarget-no_merge :
    (clock : Clock) (ctx : Context) (deps : Deps) (pr : ℕ) (branch expected actual : String)
    (item : Item)
    → no_merge (retarget clock ctx deps pr branch expected actual item) ≡ true
unfolding retarget not_retargeted
retarget-no_merge clock ctx deps pr branch expected actual item =
    grind (arith, request_rebase-no_merge, end_in-no_merge)

already_merged-no_merge :
    (clock : Clock) (deps : Deps) (item : Item) → no_merge (already_merged clock deps item) ≡ true
unfolding already_merged close_merged
already_merged-no_merge clock deps item = grind arith

-- GitHub names the base of the pull request, where it is asked.
abbrev pub is_base : Option String → String → Bool
is_base none branch = false
is_base (some actual) branch = str_eq actual branch

abbrev pub is_open_on : Attempt (Option BaseAndState) → String → Bool
is_open_on (threw e) branch = false
is_open_on (returned none) branch = false
is_open_on (returned (some info)) branch =
    not (is_merged info.pr_state) && is_base info.base_branch branch

abbrev pub is_on : Attempt (Option String) → String → Bool
is_on (threw e) branch = false
is_on (returned base) branch = is_base base branch

abbrev pub confirmed_by :
    Option (ℕ → Attempt (Option BaseAndState))
    → Option (ℕ → Attempt (Option String))
    → ℕ
    → String
    → Bool
confirmed_by (some ask) other pr branch = is_open_on (ask pr) branch
confirmed_by none (some ask) pr branch = is_on (ask pr) branch
confirmed_by none none pr branch = true

abbrev pub base_confirmed : Deps → ℕ → String → Bool
base_confirmed deps pr branch =
    confirmed_by deps.gh.get_pr_base_and_state deps.gh.get_pr_base_branch pr branch

-- A check that lets the merge go on confirmed the base; one that stops made no merge.
abbrev pub is_checked : Bool → Run BaseCheck → Bool
is_checked confirmed (raised e) = true
is_checked confirmed (ran (goes_on item)) = confirmed
is_checked confirmed (ran (stops e)) = not (any is_merge e.calls)

compare_base-is_checked :
    (clock : Clock) (ctx : Context) (deps : Deps) (pr : ℕ) (branch expected : String) (item : Item)
    (base : Option String)
    → is_checked (is_base base expected) (compare_base clock ctx deps pr branch expected item base)
      ≡ true
unfolding compare_base
compare_base-is_checked clock ctx deps pr branch expected item none = refl
compare_base-is_checked clock ctx deps pr branch expected item (some actual) =
    grind (arith, retarget-no_merge clock ctx deps pr branch expected actual item)

judge_base-is_checked :
    (clock : Clock) (ctx : Context) (deps : Deps) (pr : ℕ) (branch expected : String) (item : Item)
    (info : Option BaseAndState)
    → is_checked
        (is_open_on (returned info) expected)
        (judge_base clock ctx deps pr branch expected item info)
      ≡ true
unfolding judge_base
judge_base-is_checked clock ctx deps pr branch expected item none = refl
judge_base-is_checked clock ctx deps pr branch expected item (some info) = grind (
  arith,
  already_merged-no_merge clock deps item,
  compare_base-is_checked clock ctx deps pr branch expected item info.base_branch,
)

module _ (clock : Clock) (ctx : Context) (deps : Deps) (pr : ℕ) (branch expected : String)
    (item : Item) where
  asked-is_checked :
      (answer : Attempt (Option BaseAndState))
      → is_checked
          (is_open_on answer expected)
          (await answer >>= judge_base clock ctx deps pr branch expected item)
        ≡ true
  asked-is_checked (threw e) = refl
  asked-is_checked (returned info) =
      judge_base-is_checked clock ctx deps pr branch expected item info

  compared-is_checked :
      (answer : Attempt (Option String))
      → is_checked
          (is_on answer expected)
          (await answer >>= compare_base clock ctx deps pr branch expected item)
        ≡ true
  compared-is_checked (threw e) = refl
  compared-is_checked (returned base) =
      compare_base-is_checked clock ctx deps pr branch expected item base

  check_base_by-is_checked :
      (states : Option (ℕ → Attempt (Option BaseAndState)))
      (bases : Option (ℕ → Attempt (Option String)))
      → is_checked
          (confirmed_by states bases pr expected)
          (check_base_by clock ctx deps pr branch expected item states bases)
        ≡ true
  unfolding check_base_by
  check_base_by-is_checked (some ask) bases = asked-is_checked (ask pr)
  check_base_by-is_checked none (some ask) = compared-is_checked (ask pr)
  check_base_by-is_checked none none = refl

  pub check_base-is_checked :
      is_checked
        (base_confirmed deps pr expected)
        (check_base clock ctx deps pr branch expected item)
      ≡ true
  unfolding check_base
  check_base-is_checked =
      check_base_by-is_checked deps.gh.get_pr_base_and_state deps.gh.get_pr_base_branch
