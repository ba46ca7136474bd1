-- ===== src/Orchestrator/Store.antt =====
-- core/orchestrator.ts: the map of items, kept as a list in insertion order with one entry for each
-- id, the dependents of an item, and stacked launches.
use Prim.Native.String.{◌++◌ as append}
use ninthwave.Prelude.{
  ℕ, ◌-◌, Bool, false, not, ◌&&◌, ◌||◌, String, List, [], ◌∷◌, Option, none, some, is_some, any,
  keep, length, if◌then◌else◌, str_eq, ltb,
}
use ninthwave.Orchestrator.Types.{
  State, Config, queued, ready, launching, merged, done, is_active, is_stackable, is,
}
use ninthwave.Orchestrator.Actions.{Action, rebase, dependency_stuck, dependency_resumed}
use ninthwave.Orchestrator.Item.{Item, ItemSnapshot}
use ninthwave.Orchestrator.Transition.{Clock, Result, ok, ◌>>=◌, transition}

abbrev pub Store : Type 0
Store = List Item

-- `items.get(id)`.
unfoldable pub get_item : String → Store → Option Item
get_item id [] = none
get_item id (item ∷ rest) = if str_eq item.id id then some item else get_item id rest

-- The store in which the item of this id has its new value.
unfoldable pub update_item : Item → Store → Store
update_item new [] = []
update_item new (item ∷ rest) = (if str_eq item.id new.id then new else item) ∷ update_item new rest

-- `removeItem`.
unfoldable pub remove_item : String → Store → Store × Bool
remove_item id store = (keep (λ item. not (str_eq item.id id)) store, is_some (get_item id store))

unfoldable pub get_items_by_state : State → Store → List Item
get_items_by_state state store = keep (λ item. is item.state state) store

unfoldable pub active_item_count : Store → ℕ
active_item_count store = length (keep (λ item. is_active item.state) store)

-- `Math.max(0, maxInflight - activeItemCount)`.
unfoldable pub available_inflight_slots : Config → Store → ℕ
unfolding active_item_count
available_inflight_slots config store = config.max_inflight - active_item_count store

-- `snapshotMap.get(id)`: of two entries with one id the later counts.
unfoldable pub find_snapshot : String → List ItemSnapshot → Option ItemSnapshot
find_snapshot id [] = none
find_snapshot id (snap ∷ rest) = elim (find_snapshot id rest) [
  | some later ↦ some later
  | none ↦ if str_eq snap.id id then some snap else none
]

abbrev pub branch_of : String → String
branch_of id = append "ninthwave/" id

abbrev pub is_stacked_on : String → Item → Bool
is_stacked_on id item = elim item.base_branch [
  | none ↦ false
  | some branch ↦ str_eq branch (branch_of id)
]

-- The loop over the dependents of an item that got stuck.
unfoldable pub pause_dependents : Clock → String → Store → Result (Store × List Action)
pause_dependents clock id [] = ok ([], [])
pause_dependents clock id (other ∷ rest) = do
  r ← pause_dependents clock id rest
  if not (is_stacked_on id other)
      then ok (other ∷ r.0, r.1)
      else if is other.state ready || is other.state launching
      then (do
        back ← transition clock queued none other
        ok (record back { base_branch = none } ∷ r.0, r.1))
      else if is_some other.workspace_ref
      then ok (other ∷ r.0, rebase other.id (dependency_stuck id) ∷ r.1)
      else ok (other ∷ r.0, r.1)

abbrev pub is_finished : Option Item → Bool
is_finished none = false
is_finished (some dep) = is dep.state done || is dep.state merged

unfoldable pub resume_dependents : Item → Store → List Action
resume_dependents item store =
    if any (λ id. is_finished (get_item id store)) item.work_item.dependencies
    then []
    else resume store
  where
    resume : Store → List Action
    resume [] = []
    resume (other ∷ rest) =
        if is_stacked_on item.id other && is_some other.workspace_ref
        then rebase other.id (dependency_resumed item.id) ∷ resume rest
        else resume rest

-- The loop of `canStackLaunch`; the last argument is `stackableDep`. The result `none` is
-- `{ canStack: false }`.
unfoldable pub find_stackable : Config → Store → List String → Option String → Option String
find_stackable config store [] found = found
find_stackable config store (id ∷ ids) found = elim (get_item id store) [
  | none ↦ find_stackable config store ids found
  | some dep ↦
      if is dep.state done || (not config.fix_forward && is dep.state merged)
      then find_stackable config store ids found
      else if ltb 0 dep.fix_forward_fail_count || not (is_stackable dep.state)
      then none
      else elim found [ some other ↦ none | none ↦ find_stackable config store ids (some dep.id) ]
]

unfoldable pub can_stack_launch : Config → Store → Item → Option String
unfolding find_stackable
can_stack_launch config store item =
    if not config.enable_stacking
    then none
    else find_stackable config store item.work_item.dependencies none
