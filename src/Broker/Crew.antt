-- ===== src/Broker/Crew.antt =====
-- core/broker-store.ts: `CrewState` and its parts; core/broker-state.ts: `isWorkItemAvailable`,
-- `resolveItemState` and `buildCrewStatusUpdate`. Of a socket only whether it is there is kept.
-- `wall` is the reading of `new Date()` that stamps the events of an operation, in milliseconds, and not
-- its text. Numbers are natural.
use ninthwave.Prelude.{
  ℕ, Bool, true, false, not, ◌&&◌, String, List, [], ◌∷◌, map, Option, none, some, is_some, every,
  keep, length, if◌then◌else◌, str_eq,
}

pub record WorkEntry : Type 0 where
  pub path : String
  pub priority : ℕ
  pub dependencies : List String
  pub author : String
  pub synced_at : ℕ
  pub creator_daemon_id : String
  pub claimed_by : Option String
  pub completed_by : Option String

pub record DaemonState : Type 0 where
  pub id : String
  pub name : String
  pub operator_id : String
  pub connected : Bool
  pub last_heartbeat : ℕ
  pub disconnected_at : Option ℕ
  pub claimed_items : List String
  pub released : Bool

pub record CrewState : Type 0 where
  pub code : String
  pub repo_ref : Option String
  pub items : List WorkEntry
  pub daemons : List DaemonState

pub data Affinity : Type 0 where
  author_affinity pool_affinity : Affinity

pub data EventKind : Type 0 where
  claim sync complete disconnect reconnect abandon reconcile_complete report : EventKind

pub record CrewEvent : Type 0 where
  pub ts : ℕ
  pub crew_id : String
  pub daemon_id : String
  pub event : EventKind
  pub work_item_path : String
  pub affinity : Option Affinity

abbrev pub create_event : ℕ → CrewState → String → EventKind → String → Option Affinity → CrewEvent
create_event wall crew daemon_id kind path affinity = record {
  ts = wall;
  crew_id = crew.code;
  daemon_id = daemon_id;
  event = kind;
  work_item_path = path;
  affinity = affinity;
}

-- `crew.items.get` and `crew.daemons.get`.
unfoldable pub get_entry : String → List WorkEntry → Option WorkEntry
get_entry path [] = none
get_entry path (e ∷ rest) = if str_eq e.path path then some e else get_entry path rest

unfoldable pub get_daemon : String → List DaemonState → Option DaemonState
get_daemon id [] = none
get_daemon id (d ∷ rest) = if str_eq d.id id then some d else get_daemon id rest

-- The items in which the one of this path is changed, and the daemons in which the one of this id is.
unfoldable pub change_entry : (WorkEntry → WorkEntry) → String → List WorkEntry → List WorkEntry
change_entry f path [] = []
change_entry f path (e ∷ rest) = (if str_eq e.path path then f e else e) ∷ change_entry f path rest

unfoldable pub change_daemon :
    (DaemonState → DaemonState) → String → List DaemonState → List DaemonState
change_daemon f id [] = []
change_daemon f id (d ∷ rest) = (if str_eq d.id id then f d else d) ∷ change_daemon f id rest

-- `x === id` for a nullable id.
abbrev pub is_id : Option String → String → Bool
is_id none id = false
is_id (some x) id = str_eq x id

abbrev pub is_done_dep : Option WorkEntry → Bool
is_done_dep none = true
is_done_dep (some dep) = is_some dep.completed_by

unfoldable pub is_work_item_available : List WorkEntry → WorkEntry → Bool
is_work_item_available items e =
    not (is_some e.claimed_by)
    && (not (is_some e.completed_by)
        && every (λ dep. is_done_dep (get_entry dep items)) e.dependencies)

pub data ItemStatus : Type 0 where
  done in_progress queued blocked : ItemStatus

unfoldable pub resolve_item_state : WorkEntry → List WorkEntry → ItemStatus
resolve_item_state e items =
    if is_some e.completed_by
    then done
    else if is_some e.claimed_by
    then in_progress
    else if is_work_item_available items e
    then queued
    else blocked

-- The counts of `buildCrewStatusUpdate`.
pub record CrewCounts : Type 0 where
  pub daemon_count : ℕ
  pub available_count : ℕ
  pub claimed_count : ℕ
  pub completed_count : ℕ
  pub states : List (String × ItemStatus)

unfoldable pub build_crew_status_update : CrewState → CrewCounts
build_crew_status_update crew = record {
  daemon_count = length (keep (λ d. d.connected) crew.daemons);
  available_count = length (keep (is_work_item_available crew.items) crew.items);
  claimed_count = length (keep (λ e. is_some e.claimed_by) crew.items);
  completed_count = length (keep (λ e. is_some e.completed_by) crew.items);
  states = map (λ e. (e.path, resolve_item_state e crew.items)) crew.items;
}
