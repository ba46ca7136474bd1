-- ===== src/Orchestrator/Laws/Liveness.antt =====
-- core/orchestrator.ts: the debounce of worker liveness, and the budgets that end retries and
-- extensions.
use ninthwave.Prelude.{
  ℕ, zero, suc, ◌+◌, ◌≤◌, Bool, true, false, ◌≡◌, ◌⊎◌, arith, some, is_some, if◌then◌else◌, leb,
  ltb, none, inl, inr, refl, List,
}
use ninthwave.Orchestrator.Types.{Config, ready, stuck, allows}
use ninthwave.Orchestrator.Actions.{at, FailureReason, Action}
use ninthwave.Orchestrator.Item.{Item, ItemSnapshot}
use ninthwave.Orchestrator.Workers.{
  dead, debouncing, check_worker_liveness, extend_timeout, stuck_or_retry, prepare_retry,
}
use ninthwave.Orchestrator.Transition.{Clock, transition, moved, state-moved}
use ninthwave.Orchestrator.Laws.Post.{Post, Post-bind, if-Post, transition-Post}

-- The item after so many calls with this snapshot.
abbrev pub checked : ℕ → ItemSnapshot → Item → Item
checked zero snap item = item
checked (suc n) snap item = (check_worker_liveness snap (checked n snap item)).0

checked-count :
    (n : ℕ) (snap : ItemSnapshot) (item : Item)
    → snap.worker_alive ≡ some false
    → (checked n snap item).not_alive_count ≡ item.not_alive_count + n
unfolding check_worker_liveness
checked-count zero snap item h = omega arith
checked-count (suc n) snap item h = grind (arith, checked-count n snap item h)

-- From a count of 0, the calls of `checkWorkerLiveness` that miss the worker, with no other call between,
-- answer that it is dead from the fifth on, and that they wait before.
pub check_worker_liveness-debounces :
    (n : ℕ) (snap : ItemSnapshot) (item : Item)
    → snap.worker_alive ≡ some false
    → item.not_alive_count ≡ 0
    → (check_worker_liveness snap (checked n snap item)).1
      ≡ (if leb 5 (n + 1) then dead else debouncing)
unfolding check_worker_liveness
check_worker_liveness-debounces n snap item h z = grind (arith, checked-count n snap item h)

-- An extension that `extendTimeout` grants is counted, is within the budget, and moves the deadline to at
-- least a grace period from now; one that it refuses changes nothing, and the budget is used up or there is
-- no deadline.
pub extend_timeout-bounded :
    (config : Config) (now : ℕ) (item item' : Item) (granted : Bool)
    → extend_timeout config now item ≡ some (item', granted)
    → ((granted ≡ true)
        × (item'.timeout_extension_count ≡ item.timeout_extension_count + 1)
        × (item'.timeout_extension_count ≤ config.max_timeout_extensions)
        × (t : ℕ) × (item'.timeout_deadline ≡ some (at t))
        × (now + config.grace_period_ms ≤ t))
      ⊎ ((granted ≡ false)
          × (item' ≡ item)
          × ((is_some item.timeout_deadline ≡ false)
              ⊎ (config.max_timeout_extensions ≤ item.timeout_extension_count)))
unfolding extend_timeout
extend_timeout-bounded config now item item' granted h = ground arith

-- From every state from which the table allows both `ready` and `stuck`, `stuckOrRetry` throws nothing:
-- while the budget lasts it counts one retry and the item goes back to `ready`, and afterwards the item is
-- stuck with the reason.
pub stuck_or_retry-bounded :
    (config : Config) (clock : Clock) (reason : FailureReason) (item : Item)
    → allows item.state ready ≡ true
    → allows item.state stuck ≡ true
    → Post
        (λ r.
          ((r.0.state ≡ ready)
            × (r.0.retry_count ≡ item.retry_count + 1)
            × (r.0.retry_count ≤ config.max_retries))
          ⊎ ((r.0.state ≡ stuck)
              × (r.0.failure_reason ≡ some reason)
              × (config.max_retries ≤ item.retry_count)))
        (stuck_or_retry config clock reason item)
unfolding stuck_or_retry moved
stuck_or_retry-bounded config clock reason item back end =
    if-Post Q (ltb item.retry_count config.max_retries) _ _
      (λ left.
        Post-bind (λ i. (i.state ≡ ready) × (i.retry_count ≡ item.retry_count + 1)) Q
          (transition clock ready none (prepare_retry item)) _
          (transition-Post (λ i. (i.state ≡ ready) × (i.retry_count ≡ item.retry_count + 1)) clock
            ready none (prepare_retry item) (ground arith) (λ same. (same, refl))
            (state-moved clock.wall ready none (prepare_retry item), kept))
          λ i p. inl (p.0, p.1, ground arith))
      λ spent.
        Post-bind (λ i. i.state ≡ stuck) Q (transition clock stuck none item) _
          (transition-Post (λ i. i.state ≡ stuck) clock stuck none item (ground arith)
            (λ same. same) (state-moved clock.wall stuck none item))
          λ i p. inr (p, refl, ground arith)
  where
    Q : Item × List Action → Type 0
    Q r =
        ((r.0.state ≡ ready)
          × (r.0.retry_count ≡ item.retry_count + 1)
          × (r.0.retry_count ≤ config.max_retries))
        ⊎ ((r.0.state ≡ stuck)
            × (r.0.failure_reason ≡ some reason)
            × (config.max_retries ≤ item.retry_count))

    kept : (moved clock.wall ready none (prepare_retry item)).retry_count ≡ item.retry_count + 1
    kept = refl
