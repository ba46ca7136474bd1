-- ===== src/Execution/Laws/Refusals.antt =====
-- core/orchestrator-actions.ts: the outcomes of a merge that GitHub refuses.
use mathlib.Core.List.{append_assoc}
use Prim.{tt, Unit}
use ninthwave.Prelude.{
  ℕ, ◌+◌, ◌≤◌, ◌<◌, Bool, true, false, not, ◌||◌, String, List, [], ◌∷◌, ◌++◌, ◌≡◌, refl, sym, ap,
  subst, ◌∙◌, ◌⊎◌, inl, inr, arith, Option, none, some, if◌then◌else◌, leb, Bool-cases,
}
use ninthwave.Orchestrator.Types.{Config, merging, ci_pending, ci_passed, stuck}
use ninthwave.Orchestrator.Item.{Item}
use ninthwave.Orchestrator.Transition.{Clock, state-moved}
use ninthwave.Orchestrator.Store.{Store}
use ninthwave.Execution.Deps.{
  Run, ran, raised, ◌>>=◌, returned, threw, Attempt, await, recover, Deps, Context, Call,
  write_inbox_call, Executed, Nothing, try_catch, Notice, conflicts_with, duplicate_commits,
  blocked_by_protection, end_in,
}
use ninthwave.Execution.Inbox.{
  deliver_to_implementer_inbox, resolve_implementer_inbox_target, try_daemon_rebase,
  was_recently_unstacked,
}
use ninthwave.Execution.MergeBase.{ask_worker, request_rebase}
use ninthwave.Execution.MergeFailure.{
  ask_or, count_failure, blocked_or_counted, merge_refused, merge_failed,
}
use ninthwave.Execution.Laws.Moves.{kept-moved, change-allowed}

-- What the worker's inbox gets, where there is one.
abbrev pub inbox_calls : Context → Deps → Item → Notice → List Call
inbox_calls ctx deps item notice = elim (resolve_implementer_inbox_target ctx deps item) [
  | none ↦ []
  | some root ↦ write_inbox_call root item.id notice ∷ []
]

-- The daemon tries a rebase; where it does not succeed the worker is asked for one.
abbrev pub rebase_calls : Context → Deps → Item → Notice → List Call
rebase_calls ctx deps item notice =
    let tried = try_daemon_rebase ctx deps item in
    if tried.1 then tried.0 else tried.0 ++ inbox_calls ctx deps item notice

-- The item is in `ci-pending` with its count, and these calls were made for a rebase.
abbrev pub IsRebased : Context → Deps → Notice → List Call → Item → Executed → Type 0
IsRebased ctx deps notice calls item r =
    (r.item.state ≡ ci_pending)
    × (r.item.merge_fail_count ≡ item.merge_fail_count)
    × (r.calls ≡ calls ++ rebase_calls ctx deps item notice)

-- Only calls may throw, so nothing is said of an exception.
abbrev Ran {ℓ} : {A : Type ℓ} → (A → Type 0) → Run A → Type 0
Ran P (raised e) = Unit {0}
Ran P (ran r) = P r

deliver-calls :
    (ctx : Context) (deps : Deps) (item : Item) (notice : Notice)
    → Ran
        (λ d. d.0 ≡ inbox_calls ctx deps item notice)
        (deliver_to_implementer_inbox ctx deps item notice)
unfolding deliver_to_implementer_inbox
deliver-calls ctx deps item notice = from (resolve_implementer_inbox_target ctx deps item)
  where
    written : String → Attempt Nothing → Run (List Call × Bool)
    written root a = do u ← await a; ran (write_inbox_call root item.id notice ∷ [], true)

    to : Option String → Run (List Call × Bool)
    to none = ran ([], false)
    to (some root) = written root (deps.io.write_inbox root item.id notice)

    given : Option String → List Call
    given none = []
    given (some root) = write_inbox_call root item.id notice ∷ []

    from : (o : Option String) → Ran (λ d. d.0 ≡ given o) (to o)
    from none = refl
    from (some root) = sent (deps.io.write_inbox root item.id notice)
      where
        sent :
            (a : Attempt Nothing)
            → Ran (λ d. d.0 ≡ write_inbox_call root item.id notice ∷ []) (written root a)
        sent (threw e) = tt
        sent (returned u) = refl

module _ (clock : Clock) (ctx : Context) (deps : Deps) (notice : Notice) (calls : List Call)
    (item : Item) (h : item.state ≡ merging) where
  pended-IsRebased :
      (made : List Call)
      → made ≡ calls ++ rebase_calls ctx deps item notice
      → Ran (IsRebased ctx deps notice calls item) (end_in clock ci_pending made false item)
  pended-IsRebased made e = rw (change-allowed clock merging ci_pending item h refl refl) (
    state-moved clock.wall ci_pending none item,
    (kept-moved clock.wall ci_pending none item).1,
    e,
  )

  ask_worker-IsRebased :
      (made : List Call)
      → made ++ inbox_calls ctx deps item notice ≡ calls ++ rebase_calls ctx deps item notice
      → Ran (IsRebased ctx deps notice calls item) (ask_worker clock ctx deps notice item made)
  ask_worker-IsRebased made e =
      from (deliver_to_implementer_inbox ctx deps item notice) (deliver-calls ctx deps item notice)
    where
      from :
          (q : Run (List Call × Bool))
          → Ran (λ d. d.0 ≡ inbox_calls ctx deps item notice) q
          → Ran
              (IsRebased ctx deps notice calls item)
              (q >>= λ d. end_in clock ci_pending (made ++ d.0) false item)
      from (raised x) k = tt
      from (ran d) k = pended-IsRebased (made ++ d.0) (ap (λ l. made ++ l) k ∙ e)

  request_rebase-IsRebased :
      Ran (IsRebased ctx deps notice calls item) (request_rebase clock ctx deps notice calls item)
  unfolding request_rebase
  request_rebase-IsRebased = from (try_daemon_rebase ctx deps item) refl
    where
      tried_calls : List Call × Bool → List Call
      tried_calls tried = if tried.1 then tried.0 else tried.0 ++ inbox_calls ctx deps item notice

      after : List Call × Bool → Run Executed
      after tried =
          if tried.1
          then try_catch (end_in clock ci_pending (calls ++ tried.0) false item)
              (λ e. ask_worker clock ctx deps notice item (calls ++ tried.0)) ran
          else ask_worker clock ctx deps notice item (calls ++ tried.0)

      from :
          (tried : List Call × Bool)
          → try_daemon_rebase ctx deps item ≡ tried
          → Ran (IsRebased ctx deps notice calls item) (after tried)
      from (made, true) e = rw (change-allowed clock merging ci_pending item h refl refl) (
        state-moved clock.wall ci_pending none item,
        (kept-moved clock.wall ci_pending none item).1,
        ap (λ t. calls ++ tried_calls t) (sym e),
      )
      from (made, false) e = ask_worker-IsRebased (calls ++ made) (
          append_assoc calls made (inbox_calls ctx deps item notice)
          ∙ ap (λ t. calls ++ tried_calls t) (sym e))

-- A failure that is counted: below the bound for another try, and from it on the item is stuck.
abbrev pub IsCounted : Config → List Call → Item → Executed → Type 0
IsCounted config calls item r =
    (r.calls ≡ calls)
    × (r.item.merge_fail_count ≡ item.merge_fail_count + 1)
    × (((r.item.state ≡ ci_passed) × (item.merge_fail_count + 1 < config.max_merge_retries))
        ⊎ ((r.item.state ≡ stuck) × (config.max_merge_retries ≤ item.merge_fail_count + 1)))

count_failure-IsCounted :
    (clock : Clock) (config : Config) (pr : ℕ) (calls : List Call) (item : Item)
    → item.state ≡ merging
    → Ran (IsCounted config calls item) (count_failure clock config pr calls item)
unfolding count_failure
count_failure-IsCounted clock config pr calls item h =
    elim (Bool-cases (leb config.max_merge_retries (item.merge_fail_count + 1))) [
      | inl over ↦
          rw (over, change-allowed clock merging stuck counted h refl refl)
            (
              refl,
              (kept-moved clock.wall stuck none counted).1,
              inr (state-moved clock.wall stuck none counted, ground arith),
            )
      | inr under ↦
          rw (under, change-allowed clock merging ci_passed counted h refl refl)
            (
              refl,
              (kept-moved clock.wall ci_passed none counted).1,
              inl (state-moved clock.wall ci_passed none counted, ground arith),
            )
    ]
  where
    counted : Item
    counted = record item { merge_fail_count = item.merge_fail_count + 1 }

-- What GitHub answers, or the answer that stands for one that cannot be asked.
abbrev pub answer_of : Bool → Option (ℕ → Attempt Bool) → ℕ → Bool
answer_of answer none pr = answer
answer_of answer (some ask) pr = recover answer (ask pr)

-- The message of the first reason that there is for a rebase.
abbrev pub rebase_notice : Bool → Bool → String → Notice
rebase_notice mergeable unstacked branch =
    if not mergeable
    then conflicts_with branch
    else if unstacked
    then duplicate_commits branch
    else blocked_by_protection branch

module _ (config : Config) (ctx : Context) (deps : Deps) (branch : String) (calls : List Call)
    (item : Item) where
  -- By whether the branch merges, a dependency is done, and the branch is blocked.
  abbrev pub IsRefusal : Bool → Bool → Bool → Executed → Type 0
  IsRefusal mergeable unstacked blocked r =
      (((not mergeable || unstacked || blocked) ≡ true)
        × IsRebased ctx deps (rebase_notice mergeable unstacked branch) calls item r)
      ⊎ (((not mergeable || unstacked || blocked) ≡ false) × IsCounted config calls item r)

Ran-map :
    (P Q : Executed → Type 0) (q : Run Executed) → ((r : Executed) → P r → Q r) → Ran P q → Ran Q q
Ran-map P Q (raised e) f p = tt
Ran-map P Q (ran r) f p = f r p

-- The question whose answer the outcome depends on.
ask-Ran :
    (P : Bool → Executed → Type 0) (answer : Bool) (o : Option (ℕ → Attempt Bool)) (pr : ℕ)
    (f : Bool → Run Executed)
    → ((b : Bool) → Ran (P b) (f b))
    → Ran (P (answer_of answer o pr)) (ask_or answer o pr >>= f)
ask-Ran P answer none pr f h = h answer
ask-Ran P answer (some ask) pr f h = from (ask pr)
  where
    from : (a : Attempt Bool) → Ran (P (recover answer a)) (await a >>= f)
    from (returned b) = h b
    from (threw text) = tt

module _ (clock : Clock) (config : Config) (store : Store) (ctx : Context) (deps : Deps) (pr : ℕ)
    (branch : String) (calls : List Call) (item : Item) (h : item.state ≡ merging) where
  blocked_or_counted-IsRefusal :
      Ran
        (IsRefusal config ctx deps branch calls item true false
          (answer_of false deps.gh.is_pr_blocked pr))
        (blocked_or_counted clock config ctx deps pr branch calls item)
  unfolding blocked_or_counted
  blocked_or_counted-IsRefusal =
      ask-Ran (IsRefusal config ctx deps branch calls item true false) false deps.gh.is_pr_blocked
        pr after settles
    where
      after : Bool → Run Executed
      after is_blocked =
          if is_blocked
          then request_rebase clock ctx deps (blocked_by_protection branch) calls item
          else count_failure clock config pr calls item

      settles :
          (b : Bool) → Ran (IsRefusal config ctx deps branch calls item true false b) (after b)
      settles true =
          Ran-map _ _ (after true) (λ r k. inl (refl, k))
            (request_rebase-IsRebased clock ctx deps (blocked_by_protection branch) calls item h)
      settles false =
          Ran-map _ _ (after false) (λ r k. inr (refl, k))
            (count_failure-IsCounted clock config pr calls item h)

  merge_refused-IsRefusal :
      (mergeable : Bool)
      → Ran
          (IsRefusal config ctx deps branch calls item mergeable
            (was_recently_unstacked store item)
            (answer_of false deps.gh.is_pr_blocked pr))
          (merge_refused clock config store ctx deps pr branch calls item mergeable)
  unfolding merge_refused
  merge_refused-IsRefusal false =
      Ran-map (IsRebased ctx deps (conflicts_with branch) calls item) _
        (request_rebase clock ctx deps (conflicts_with branch) calls
          (record item { rebase_requested = false }))
        (λ r k. inl (refl, k))
        (request_rebase-IsRebased clock ctx deps (conflicts_with branch) calls
          (record item { rebase_requested = false }) h)
  merge_refused-IsRefusal true = settles (was_recently_unstacked store item)
    where
      settles :
          (u : Bool)
          → Ran
              (IsRefusal config ctx deps branch calls item true u
                (answer_of false deps.gh.is_pr_blocked pr))
              (if u
                then request_rebase clock ctx deps (duplicate_commits branch) calls item
                else blocked_or_counted clock config ctx deps pr branch calls item)
      settles true =
          Ran-map _ _ (request_rebase clock ctx deps (duplicate_commits branch) calls item)
            (λ r k. inl (refl, k))
            (request_rebase-IsRebased clock ctx deps (duplicate_commits branch) calls item h)
      settles false = blocked_or_counted-IsRefusal

module _ (clock : Clock) (config : Config) (store : Store) (ctx : Context) (deps : Deps) (pr : ℕ)
    (branch : String) (calls : List Call) (item : Item) (r : Executed) where
  -- Where GitHub refuses a merge because of conflicts, or a dependency is merged or done, or the branch is
  -- blocked, the item is back in `ci-pending` with no failure counted, and the calls are exactly the
  -- daemon's rebase, if there is one, and, if that did not succeed, the message for the first of these
  -- reasons to the worker's inbox, if there is one. In all other cases the failure is counted with no call:
  -- below the bound of merge retries the item is in `ci-passed`, and from the bound on it is stuck.
  pub merge_failed-settles :
      item.state ≡ merging
      → merge_failed clock config store ctx deps pr branch calls item ≡ ran r
      → IsRefusal config ctx deps branch calls item
          (answer_of true deps.gh.check_pr_mergeable pr)
          (was_recently_unstacked store item)
          (answer_of false deps.gh.is_pr_blocked pr)
          r
  unfolding merge_failed
  merge_failed-settles h e =
      subst
        (Ran (
          IsRefusal config ctx deps branch calls item (answer_of true deps.gh.check_pr_mergeable pr)
            (was_recently_unstacked store item) (answer_of false deps.gh.is_pr_blocked pr)))
        e
        (ask-Ran
          (λ m.
            IsRefusal config ctx deps branch calls item m (was_recently_unstacked store item)
              (answer_of false deps.gh.is_pr_blocked pr))
          true deps.gh.check_pr_mergeable pr
          (merge_refused clock config store ctx deps pr branch calls item)
          (merge_refused-IsRefusal clock config store ctx deps pr branch calls item h))
