-- ===== src/Execution/Laws/Rebases.antt =====
-- core/orchestrator-actions.ts: the circuit breaker of `executeDaemonRebase`.
use ninthwave.Prelude.{
  ℕ, ◌+◌, ◌<◌, Bool, true, false, not, ◌&&◌, ◌||◌, List, [], ◌∷◌, ◌++◌, ◌≡◌, refl, subst, ◌⊎◌, inl,
  some, inr, arith, none, any, ltb, ◌==◌, Bool-cases,
}
use ninthwave.Orchestrator.Types.{Config, State, stuck}
use ninthwave.Orchestrator.Actions.{Message}
use ninthwave.Orchestrator.Item.{Item}
use ninthwave.Orchestrator.Transition.{Clock, transition}
use ninthwave.Execution.Deps.{
  returned, threw, Run, ran, raised, Deps, Context, Call, launch_rebaser_call, Executed, end_in,
}
use ninthwave.Execution.Inbox.{deliver_to_implementer_inbox, try_daemon_rebase}
use ninthwave.Execution.Rebasing.{
  tool_of, without_rebaser, launch_rebaser_for, rebase_by_worker, execute_daemon_rebase,
}
use ninthwave.Execution.Laws.Moves.{kept-moved}

abbrev pub launches_rebaser : Call → Bool
launches_rebaser (launch_rebaser_call id pr) = true
launches_rebaser _ = false

any-append :
    (xs ys : List Call)
    → any launches_rebaser (xs ++ ys) ≡ (any launches_rebaser xs || any launches_rebaser ys)
any-append [] ys = refl
any-append (x ∷ xs) ys = grind (arith, any-append xs ys)

-- Whether a launch of a rebaser for this item answers with a workspace: one attempt then counts.
abbrev pub attempts_of : Context → Deps → Item → ℕ
attempts_of ctx deps item = elim deps.workers.launch_rebaser [
  | none ↦ 0
  | some launch ↦ elim item.pr_number [
    | none ↦ 0
    | some pr ↦ elim (launch item.id pr (tool_of ctx item)) [
      | threw e ↦ 0
      | returned none ↦ 0
      | returned (some ref) ↦ 1
    ]
  ]
]

-- From `start` attempts: with no launch there are as many, and a launch is within the bound and adds what
-- it gains.
abbrev fits : ℕ → ℕ → ℕ → ℕ → Bool → Bool
fits max start gained count launched =
    not launched && count == start || ltb start max && count == start + gained

abbrev is_within : ℕ → ℕ → ℕ → Run Executed → Bool
is_within max start gained (raised e) = true
is_within max start gained (ran r) =
    fits max start gained r.item.rebase_attempt_count (any launches_rebaser r.calls)

end_in-is_within :
    (clock : Clock) (s : State) (max start gained : ℕ) (calls : List Call) (b : Bool) (item : Item)
    → fits max start gained item.rebase_attempt_count (any launches_rebaser calls) ≡ true
    → is_within max start gained (end_in clock s calls b item) ≡ true
unfolding transition
end_in-is_within clock s max start gained calls b item h =
    ground (arith, kept-moved clock.wall s none item)

without_rebaser-is_within :
    (ctx : Context) (deps : Deps) (message : Message) (escalate : Bool) (max start gained : ℕ)
    (calls : List Call) (item : Item)
    → fits max start gained item.rebase_attempt_count (any launches_rebaser calls) ≡ true
    → is_within max start gained (without_rebaser ctx deps message escalate calls item) ≡ true
unfolding without_rebaser deliver_to_implementer_inbox
without_rebaser-is_within ctx deps message escalate max start gained calls item h =
    grind (arith, any-append)

launch_rebaser_for-is_within :
    (clock : Clock) (ctx : Context) (deps : Deps) (message : Message) (escalate : Bool) (max : ℕ)
    (calls : List Call) (item : Item)
    → item.rebase_attempt_count < max
    → any launches_rebaser calls ≡ false
    → is_within max item.rebase_attempt_count
        (attempts_of ctx deps item)
        (launch_rebaser_for clock ctx deps message escalate calls item)
      ≡ true
unfolding launch_rebaser_for
launch_rebaser_for-is_within clock ctx deps message escalate max calls item h k =
    grind (arith, any-append, without_rebaser-is_within, end_in-is_within)

rebase_by_worker-is_within :
    (clock : Clock) (config : Config) (ctx : Context) (deps : Deps) (message : Message)
    (escalate : Bool) (calls : List Call) (item : Item)
    → any launches_rebaser calls ≡ false
    → is_within config.max_rebase_attempts item.rebase_attempt_count
        (attempts_of ctx deps item)
        (rebase_by_worker clock config ctx deps message escalate calls item)
      ≡ true
unfolding rebase_by_worker transition
rebase_by_worker-is_within clock config ctx deps message escalate calls item k =
    grind (arith, launch_rebaser_for-is_within, kept-moved clock.wall stuck none item)

execute_daemon_rebase-is_within :
    (clock : Clock) (config : Config) (ctx : Context) (deps : Deps) (message : Message)
    (escalate : Bool) (item : Item)
    → is_within config.max_rebase_attempts item.rebase_attempt_count
        (attempts_of ctx deps item)
        (execute_daemon_rebase clock config ctx deps message escalate item)
      ≡ true
unfolding execute_daemon_rebase try_daemon_rebase deliver_to_implementer_inbox
execute_daemon_rebase-is_within clock config ctx deps message escalate item =
    grind (arith, rebase_by_worker-is_within, end_in-is_within)

fits_means :
    (max start gained count : ℕ) (launched : Bool)
    → fits max start gained count launched ≡ true
    → ((launched ≡ false) × (count ≡ start)) ⊎ ((start < max) × (count ≡ start + gained))
fits_means max start gained count true h = inr (ground arith, ground arith)
fits_means max start gained count false h = elim (Bool-cases (count == start)) [
  | inl same ↦ inl (refl, ground arith)
  | inr other ↦ inr (ground arith, ground arith)
]

-- A daemon rebase that throws nothing either launches no rebaser and keeps the attempts of the item as they
-- are; or there was an attempt left below the bound, and one is added where the launch answers with a
-- workspace, and none where it does not.
pub execute_daemon_rebase-bounded :
    (clock : Clock) (config : Config) (ctx : Context) (deps : Deps) (message : Message)
    (escalate : Bool) (item : Item) (r : Executed)
    → execute_daemon_rebase clock config ctx deps message escalate item ≡ ran r
    → ((any launches_rebaser r.calls ≡ false)
        × (r.item.rebase_attempt_count ≡ item.rebase_attempt_count))
      ⊎ ((item.rebase_attempt_count < config.max_rebase_attempts)
          × (r.item.rebase_attempt_count ≡ item.rebase_attempt_count + attempts_of ctx deps item))
execute_daemon_rebase-bounded clock config ctx deps message escalate item r e =
    let max = config.max_rebase_attempts in
    let start = item.rebase_attempt_count in
    let gained = attempts_of ctx deps item in
    fits_means max start gained r.item.rebase_attempt_count (any launches_rebaser r.calls) (
      subst (λ q. is_within max start gained q ≡ true) e
        (execute_daemon_rebase-is_within clock config ctx deps message escalate item))
