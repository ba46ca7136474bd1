-- ===== src/Orchestrator/Poll.antt =====
-- core/orchestrator.ts: `processTransitions` and `prioritizeMergeActions`. `localeCompare` is the
-- argument `precedes`, which tells whether its result is at most 0.
use ninthwave.Prelude.{
  ℕ, Bool, true, false, not, ◌||◌, String, List, [], ◌∷◌, ◌++◌, map, Option, none, some, any, keep,
  length, if◌then◌else◌, str_eq, ltb, leb, ◌==◌,
}
use ninthwave.Orchestrator.Types.{
  State, Config, queued, ready, ci_passed, merged, done, review_pending, is,
}
use ninthwave.Orchestrator.Actions.{Action, merge, item_id}
use ninthwave.Orchestrator.Item.{
  Item, ItemSnapshot, no_snapshot, Priority, critical, high, medium, low, pass,
}
use ninthwave.Orchestrator.Merge.{evaluate_merge}
use ninthwave.Orchestrator.Pipeline.{is_status}
use ninthwave.Orchestrator.Store.{
  Store, get_item, update_item, get_items_by_state, find_snapshot, branch_of, can_stack_launch,
}
use ninthwave.Orchestrator.Setup.{Orchestrator}
use ninthwave.Orchestrator.Process.{transition_item, launch_ready_items}
use ninthwave.Orchestrator.Transition.{Clock, Result, ok, illegal_transition, ◌>>=◌, transition}

abbrev pub is_merge : Action → Bool
is_merge (merge id pr admin) = true
is_merge _ = false

-- `PRIORITY_NUM`.
abbrev pub priority_num : Priority → ℕ
priority_num critical = 0
priority_num high = 1
priority_num medium = 2
priority_num low = 3

abbrev pub is_unmerged : Option Item → Bool
is_unmerged none = false
is_unmerged (some dep) = not (is dep.state done || is dep.state merged)

unfoldable pub has_unmerged_deps : Store → Item → Bool
has_unmerged_deps store item =
    any (λ id. is_unmerged (get_item id store)) item.work_item.dependencies

-- `aHasUnmergedDeps`.
unfoldable pub deps_num : Store → Item → ℕ
unfolding has_unmerged_deps
deps_num store item = if has_unmerged_deps store item then 1 else 0

-- The loop over items, by their ids: each step reads the item from the store that it is given.
unfoldable pub for_each :
    (Item → Store → Result (Store × List Action))
    → List String
    → Store
    → Result (Store × List Action)
for_each step [] store = ok (store, [])
for_each step (id ∷ ids) store = elim (get_item id store) [
  | none ↦ for_each step ids store
  | some item ↦ do r ← step item store; later ← for_each step ids r.0; ok (later.0, r.1 ++ later.1)
]

abbrev pub ids_of : List Item → List String
ids_of items = map (λ item. item.id) items

-- One transition inside a loop.
unfoldable pub move_to : Clock → State → Item → Store → Result (Store × List Action)
move_to clock state item store = do
  item' ← transition clock state none item
  ok (update_item item' store, [])

unfoldable pub reevaluate :
    Config → Clock → ItemSnapshot → Item → Store → Result (Store × List Action)
reevaluate config clock snap item store =
    if is_status pass snap.ci_status
    then (do r ← evaluate_merge config clock snap item; ok (update_item r.0 store, r.1))
    else ok (store, [])

-- An item with no snapshot has one with no field set.
abbrev pub snapshot_of : List ItemSnapshot → Item → ItemSnapshot
snapshot_of snaps item = elim (find_snapshot item.id snaps) [
  | none ↦ no_snapshot
  | some snap ↦ snap
]

unfoldable pub promote_if_ready : Clock → List String → Item → Store → Result (Store × List Action)
promote_if_ready clock ready_ids item store =
    if any (str_eq item.id) ready_ids then move_to clock ready item store else ok (store, [])

unfoldable pub promote_if_stackable : Config → Clock → Item → Store → Result (Store × List Action)
promote_if_stackable config clock item store = elim (can_stack_launch config store item) [
  | none ↦ ok (store, [])
  | some base ↦ move_to clock ready (record item { base_branch = some (branch_of base) }) store
]

module _ (precedes : String → String → Bool) where
  -- The comparison of two candidates is at most 0.
  unfoldable pub comes_first : Store → Item → Item → Bool
  comes_first store a b =
      if not (deps_num store a == deps_num store b)
      then ltb (deps_num store a) (deps_num store b)
      else if not (priority_num a.work_item.priority == priority_num b.work_item.priority)
      then ltb (priority_num a.work_item.priority) (priority_num b.work_item.priority)
      else precedes a.id b.id

  -- The stable sort.
  unfoldable pub insert_candidate : Store → Item → List Item → List Item
  insert_candidate store c [] = c ∷ []
  insert_candidate store c (d ∷ ds) =
      let later = insert_candidate store c ds in
      if comes_first store c d then c ∷ d ∷ ds else d ∷ later

  unfoldable pub sort_candidates : Store → List Item → List Item
  sort_candidates store [] = []
  sort_candidates store (c ∷ cs) = insert_candidate store c (sort_candidates store cs)

-- The items of the merge actions, less those that are not tracked.
unfoldable pub candidates : Store → List Action → List Item
candidates store [] = []
candidates store (a ∷ rest) =
    let later = candidates store rest in
    if is_merge a
    then elim (get_item (item_id a) store) [ none ↦ later | some item ↦ item ∷ later ]
    else later

-- The deferred candidates go back, and of the merges those of the first one stay. With no candidate,
-- `sorted[0]!.action` throws a `TypeError`: the result is `none`.
unfoldable pub keep_first :
    Clock → List Action → Store → List Item → Option (Result (Store × List Action))
keep_first clock actions store [] = none
keep_first clock actions store (first ∷ others) = some (do
  r ← for_each (move_to clock ci_passed) (ids_of others) store
  ok (r.0, keep (λ a. not (is_merge a) || str_eq (item_id a) first.id) actions))

unfoldable pub prioritize_merge_actions :
    (String → String → Bool) → Clock → List Action → Store → Option (Result (Store × List Action))
unfolding keep_first
prioritize_merge_actions precedes clock actions store =
    if leb (length (keep is_merge actions)) 1
    then some (ok (store, actions))
    else keep_first clock actions store (sort_candidates precedes store (candidates store actions))

-- The part of `processTransitions` before the merges are ordered. The flag is cleared by the caller.
unfoldable pub poll_items :
    Config → Clock → List ItemSnapshot → List String → Bool → Store → Result (Store × List Action)
poll_items config clock snaps ready_ids force store = do
  a ←
      for_each (λ item. transition_item config clock (snapshot_of snaps item) item) (ids_of store)
        store
  b ←
      if force
      then for_each (λ item. reevaluate config clock (snapshot_of snaps item) item)
          (ids_of (get_items_by_state review_pending a.0)) a.0
      else ok (a.0, [])
  c ← for_each (promote_if_ready clock ready_ids) (ids_of (get_items_by_state queued b.0)) b.0
  d ←
      if config.enable_stacking
      then for_each (promote_if_stackable config clock) (ids_of (get_items_by_state queued c.0)) c.0
      else ok (c.0, [])
  e ← launch_ready_items config clock d.0
  ok (e.0, (a.1 ++ b.1) ++ e.1)

-- What the machine is after the poll, with the actions.
abbrev pub with_items :
    Orchestrator → Result (Store × List Action) → Result (Orchestrator × List Action)
with_items o m = do
  r ← m
  ok (record o { items = r.0; force_review_pending_reevaluation = false }, r.1)

abbrev pub then_prioritize :
    (String → String → Bool)
    → Clock
    → Result (Store × List Action)
    → Option (Result (Store × List Action))
then_prioritize precedes clock (illegal_transition s t) = some (illegal_transition s t)
then_prioritize precedes clock (ok r) = prioritize_merge_actions precedes clock r.1 r.0

unfoldable pub process_transitions :
    (String → String → Bool)
    → Clock
    → List ItemSnapshot
    → List String
    → Orchestrator
    → Option (Result (Orchestrator × List Action))
process_transitions precedes clock snaps ready_ids o =
    elim (then_prioritize precedes clock
      (poll_items o.config clock snaps ready_ids o.force_review_pending_reevaluation o.items)) [
        | none ↦ none
        | some r ↦ some (with_items o r)
      ]
