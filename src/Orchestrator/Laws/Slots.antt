-- ===== src/Orchestrator/Laws/Slots.antt =====
-- core/orchestrator.ts: what `launchReadyItems` and `canStackLaunch` promise.
use ninthwave.Prelude.{
  ℕ, zero, suc, ◌+◌, ◌≤◌, max, Bool, true, not, ◌&&◌, ◌||◌, String, List, [], ◌∷◌, ◌≡◌, arith, some,
  none, Option, Option-cases, inl, inr, str_eq_refl, length, if◌then◌else◌, every, str_eq, ltb,
}
use ninthwave.Orchestrator.Types.{
  Config, ready, launching, is, is_active, is_stackable, merged, done,
}
use ninthwave.Orchestrator.Actions.{Action}
use ninthwave.Orchestrator.Item.{Item}
use ninthwave.Orchestrator.Store.{
  Store, active_item_count, available_inflight_slots, get_item, find_stackable, can_stack_launch,
}
use ninthwave.Orchestrator.Process.{launch_ready, launch_ready_items}
use ninthwave.Orchestrator.Transition.{Clock, transition, state-moved}
use ninthwave.Orchestrator.Laws.Post.{Post, Post-bind, if-Post, transition-Post}

-- At most so many items of the first list are active, and so many actions are returned.
abbrev Within : ℕ → ℕ → Store × List Action → Type 0
Within active actions r = (active_item_count r.0 ≤ active) × (length r.1 ≤ actions)

count_cons :
    (item : Item) (rest : Store)
    → active_item_count (item ∷ rest)
      ≡ (if is_active item.state then 1 + active_item_count rest else active_item_count rest)
unfolding active_item_count
count_cons item rest = ground arith

launched-active :
    (clock : Clock) (item : Item)
    → is item.state ready ≡ true
    → Post (λ i. i.state ≡ launching) (transition clock launching none item)
launched-active clock item r =
    transition-Post (λ i. i.state ≡ launching) clock launching none item (ground arith) (λ s. s)
      (state-moved clock.wall launching none item)

launch_ready-Within :
    (clock : Clock) (slots : ℕ) (store : Store)
    → Post (Within (slots + active_item_count store) slots) (launch_ready clock slots store)
unfolding launch_ready
launch_ready-Within clock slots [] = (ground arith, ground arith)
launch_ready-Within clock zero (item ∷ rest) = (ground arith, ground arith)
launch_ready-Within clock (suc slots) (item ∷ rest) =
    let Q = Within (suc slots + active_item_count (item ∷ rest)) (suc slots) in
    let less = launch_ready-Within clock slots rest in
    let same = launch_ready-Within clock (suc slots) rest in
    if-Post Q (is item.state ready) _ _
      (λ r.
        Post-bind (λ i. i.state ≡ launching) Q (transition clock launching none item) _
          (launched-active clock item r)
          λ i s.
            Post-bind (Within (slots + active_item_count rest) slots) Q
              (launch_ready clock slots rest) _ less
              λ t w. (grind (arith, count_cons i t.0, count_cons item rest), ground arith))
      (λ r.
        Post-bind (Within (suc slots + active_item_count rest) (suc slots)) Q
          (launch_ready clock (suc slots) rest) _ same
          λ t w. (grind (arith, count_cons item t.0, count_cons item rest), w.1))

-- `launchReadyItems` throws nothing; it leaves at most `maxInflight` items active, or as many as were
-- active before where there were more, and launches no more items than there were free slots.
pub launch_ready_items-bounded :
    (config : Config) (clock : Clock) (store : Store)
    → Post
        (λ r.
          (active_item_count r.0 ≤ max config.max_inflight (active_item_count store))
          × (length r.1 ≤ available_inflight_slots config store))
        (launch_ready_items config clock store)
unfolding launch_ready_items available_inflight_slots
launch_ready_items-bounded config clock store =
    if-Post _ (not config.accepting_work) _ _ (λ _. (omega arith, omega arith))
      λ _. grind (arith, launch_ready-Within clock (available_inflight_slots config store) store)

-- A dependency that lets an item be stacked on `base`: unknown, finished, or itself the base, in a
-- stackable state and with no failed repair.
abbrev pub admits : Config → String → Option Item → Bool
admits config base none = true
admits config base (some dep) =
    (is dep.state done || (not config.fix_forward && is dep.state merged))
    || (is_stackable dep.state && (not (ltb 0 dep.fix_forward_fail_count) && str_eq dep.id base))

-- The base that an earlier dependency has set is the one that is returned.
abbrev Agrees : String → Option String → Type 0
Agrees base none = Unit
Agrees base (some found) = found ≡ base

find_stackable-admits :
    (config : Config) (store : Store) (base : String) (ids : List String) (found : Option String)
    → find_stackable config store ids found ≡ some base
    → (every (λ id. admits config base (get_item id store)) ids ≡ true) × Agrees base found
unfolding find_stackable
find_stackable-admits config store base [] none h = ground arith
find_stackable-admits config store base [] (some x) h = ground arith
find_stackable-admits config store base (id ∷ ids) found h =
    let kept = find_stackable-admits config store base ids found in
    elim (Option-cases (get_item id store)) [
      | inl missing ↦ grind (arith, kept)
      | inr (dep, known) ↦
          grind
            (arith, kept, find_stackable-admits config store base ids (some dep.id), str_eq_refl)
    ]

-- `canStackLaunch` answers with a base only where stacking is enabled, and then each dependency is unknown,
-- or done, or merged where `fixForward` is off, or is that base, in one of the states `ci-passed`,
-- `reviewing`, `review-pending` and `merging`, and with no failed repair.
pub can_stack_launch-admits :
    (config : Config) (store : Store) (item : Item) (base : String)
    → can_stack_launch config store item ≡ some base
    → (config.enable_stacking ≡ true)
      × (every (λ id. admits config base (get_item id store)) item.work_item.dependencies ≡ true)
unfolding can_stack_launch
can_stack_launch-admits config store item base h =
    grind (arith, find_stackable-admits config store base item.work_item.dependencies none)
