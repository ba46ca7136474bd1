-- ===== src/Broker/Items.antt =====
-- core/broker-state.ts: `syncCrewItems`, `claimNextWorkItem` and `completeWorkItem`.
use ninthwave.Prelude.{
  ℕ, Bool, true, false, not, ◌&&◌, String, List, [], ◌∷◌, ◌++◌, map, Option, none, some, is_some,
  any, keep, if◌then◌else◌, str_eq, ltb, leb, ◌==◌,
}
use ninthwave.Broker.Crew.{
  WorkEntry, DaemonState, CrewState, CrewEvent, Affinity, author_affinity, pool_affinity, claim,
  sync, complete, reconcile_complete, create_event, get_entry, get_daemon, change_entry,
  change_daemon, is_id, is_work_item_available,
}

pub record SyncItem : Type 0 where
  pub id : String
  pub priority : ℕ
  pub dependencies : List String
  pub author : String

abbrev pub update_entry : SyncItem → WorkEntry → WorkEntry
update_entry item e = record e {
  priority = item.priority;
  dependencies = item.dependencies;
  author = item.author;
}

abbrev pub new_entry : String → ℕ → SyncItem → WorkEntry
new_entry daemon_id now item = record {
  path = item.id;
  priority = item.priority;
  dependencies = item.dependencies;
  author = item.author;
  synced_at = now;
  creator_daemon_id = daemon_id;
  claimed_by = none;
  completed_by = none;
}

-- The loop over the items that the daemon sends.
unfoldable pub sync_items :
    ℕ → CrewState → String → ℕ → List SyncItem → List WorkEntry → List WorkEntry × List CrewEvent
sync_items wall crew daemon_id now [] entries = (entries, [])
sync_items wall crew daemon_id now (item ∷ rest) entries = elim (get_entry item.id entries) [
  | some existing ↦
      sync_items wall crew daemon_id now rest (change_entry (update_entry item) item.id entries)
  | none ↦
      let later =
        sync_items wall crew daemon_id now rest (entries ++ new_entry daemon_id now item ∷ []) in
      (later.0, create_event wall crew daemon_id sync item.id (some author_affinity) ∷ later.1)
]

-- An entry that its creator no longer sends is complete.
abbrev pub is_gone : String → List SyncItem → WorkEntry → Bool
is_gone daemon_id items e =
    str_eq e.creator_daemon_id daemon_id
    && (not (any (λ item. str_eq item.id e.path) items) && not (is_some e.completed_by))

abbrev pub finish : String → WorkEntry → WorkEntry
finish daemon_id e = record e { completed_by = some daemon_id; claimed_by = none }

abbrev pub reconcile : String → List SyncItem → WorkEntry → WorkEntry
reconcile daemon_id items e = if is_gone daemon_id items e then finish daemon_id e else e

unfoldable pub sync_crew_items :
    ℕ → CrewState → String → List SyncItem → ℕ → CrewState × List String × List CrewEvent
sync_crew_items wall crew daemon_id items now =
    let synced = sync_items wall crew daemon_id now items crew.items in
    let entries = map (reconcile daemon_id items) synced.0 in
    (
      record crew { items = entries },
      map (λ e. e.path) entries,
      synced.1
          ++ map (λ e. create_event wall crew daemon_id reconcile_complete e.path none)
              (keep (is_gone daemon_id items) synced.0),
    )

-- `operatorId !== "" && workItem.author === operatorId`.
abbrev pub is_own : String → WorkEntry → Bool
is_own operator_id e = not (str_eq operator_id "") && str_eq e.author operator_id

-- The comparison of `a` with `b` is at most 0.
unfoldable pub comes_first : String → WorkEntry → WorkEntry → Bool
comes_first operator_id a b =
    if is_own operator_id a && not (is_own operator_id b)
    then true
    else if not (is_own operator_id a) && is_own operator_id b
    then false
    else if not (a.priority == b.priority)
    then ltb a.priority b.priority
    else leb a.synced_at b.synced_at

-- The first entry of the sorted list; the sort is stable.
unfoldable pub first_of : String → WorkEntry → List WorkEntry → WorkEntry
first_of operator_id best [] = best
first_of operator_id best (e ∷ rest) =
    first_of operator_id (if comes_first operator_id best e then best else e) rest

abbrev pub affinity_of : String → WorkEntry → Affinity
affinity_of operator_id e = if is_own operator_id e then author_affinity else pool_affinity

-- `Set.add`.
abbrev pub add_claim : String → DaemonState → DaemonState
add_claim path d =
    if any (str_eq path) d.claimed_items
    then d
    else record d { claimed_items = d.claimed_items ++ path ∷ [] }

-- The claim of the entry that was chosen.
abbrev pub take :
    ℕ → CrewState → DaemonState → String → WorkEntry → CrewState × Option String × List CrewEvent
take wall crew daemon daemon_id e = (
  record crew {
    items = change_entry (λ e. record e { claimed_by = some daemon_id }) e.path crew.items;
    daemons = change_daemon (add_claim e.path) daemon_id crew.daemons;
  },
  some e.path,
  create_event wall crew daemon_id claim e.path (some (affinity_of daemon.operator_id e)) ∷ [],
)

unfoldable pub claim_from :
    ℕ
    → CrewState
    → DaemonState
    → String
    → List WorkEntry
    → CrewState × Option String × List CrewEvent
claim_from wall crew daemon daemon_id [] = (crew, none, [])
claim_from wall crew daemon daemon_id (e ∷ rest) =
    take wall crew daemon daemon_id (first_of daemon.operator_id e rest)

unfoldable pub claim_next_work_item :
    ℕ → CrewState → String → CrewState × Option String × List CrewEvent
unfolding claim_from
claim_next_work_item wall crew daemon_id = elim (get_daemon daemon_id crew.daemons) [
  | none ↦ (crew, none, [])
  | some daemon ↦
      claim_from wall crew daemon daemon_id (keep (is_work_item_available crew.items) crew.items)
]

abbrev pub drop_claim : String → DaemonState → DaemonState
drop_claim path d = record d { claimed_items = keep (λ p. not (str_eq p path)) d.claimed_items }

-- The crew, `ok` and the events.
unfoldable pub complete_work_item :
    ℕ → CrewState → String → String → CrewState × Bool × List CrewEvent
complete_work_item wall crew daemon_id path = elim (get_entry path crew.items) [
  | none ↦ (crew, false, [])
  | some e ↦ if not (is_id e.claimed_by daemon_id) then (crew, false, []) else (
    record crew {
      items = change_entry (finish daemon_id) path crew.items;
      daemons = change_daemon (drop_claim path) daemon_id crew.daemons;
    },
    true,
    create_event wall crew daemon_id complete path none ∷ [],
  )
]
