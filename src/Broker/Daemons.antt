-- ===== src/Broker/Daemons.antt =====
-- core/broker-state.ts: `connectDaemon`, `disconnectDaemon`, `recordHeartbeat`,
-- `releaseDaemonWorkItems` and `checkCrewHeartbeats`. Of `changed` the callers only make a save.
use ninthwave.Prelude.{
  ℕ, ◌+◌, Bool, true, false, not, ◌&&◌, ◌||◌, String, List, [], ◌∷◌, ◌++◌, Option, none, some,
  is_some, keep, if◌then◌else◌, ltb,
}
use ninthwave.Broker.Crew.{
  WorkEntry, DaemonState, CrewState, CrewEvent, reconnect, disconnect, abandon, create_event,
  get_entry, get_daemon, change_entry, change_daemon, is_id,
}

-- `ReconnectStateMessage`.
pub record ReconnectState : Type 0 where
  pub resumed : List String
  pub released : List String
  pub reclaimed : List String

abbrev pub owner : Option WorkEntry → Option String
owner none = none
owner (some e) = e.claimed_by

-- The items that a daemon held are sorted by who holds them now; one that is unknown counts as
-- released.
unfoldable pub reconnect_state : List WorkEntry → String → List String → ReconnectState
reconnect_state items daemon_id claimed = record {
  resumed = keep (λ path. is_id (owner (get_entry path items)) daemon_id) claimed;
  released = keep (λ path. not (is_some (owner (get_entry path items)))) claimed;
  reclaimed =
      keep
        (λ path.
          is_some (owner (get_entry path items))
          && not (is_id (owner (get_entry path items)) daemon_id))
        claimed;
}

abbrev pub new_daemon : String → String → String → ℕ → DaemonState
new_daemon id name operator_id now = record {
  id = id;
  name = name;
  operator_id = operator_id;
  connected = true;
  last_heartbeat = now;
  disconnected_at = none;
  claimed_items = [];
  released = false;
}

abbrev pub revive : String → String → ℕ → DaemonState → DaemonState
revive name operator_id now d = record d {
  connected = true;
  last_heartbeat = now;
  disconnected_at = none;
  released = false;
  name = name;
  operator_id = operator_id;
}

-- The crew, the reconnect state and the events; `changed` is always true.
unfoldable pub connect_daemon :
    ℕ
    → CrewState
    → String
    → String
    → String
    → ℕ
    → CrewState × Option ReconnectState × List CrewEvent
connect_daemon wall crew id name operator_id now = elim (get_daemon id crew.daemons) [
  | none ↦
      (record crew { daemons = crew.daemons ++ new_daemon id name operator_id now ∷ [] }, none, [])
  | some existing ↦
      if is_some existing.disconnected_at || existing.released
      then (let st = reconnect_state crew.items id existing.claimed_items in
          (
            record crew {
              daemons =
                  change_daemon
                    (λ d. record (revive name operator_id now d) { claimed_items = st.resumed }) id
                    crew.daemons;
            },
            some st,
            create_event wall crew id reconnect "" none ∷ [],
          ))
      else (
        record crew { daemons = change_daemon (revive name operator_id now) id crew.daemons },
        none,
        [],
      )
]

abbrev pub cut_off : ℕ → DaemonState → DaemonState
cut_off now d = record d { connected = false; disconnected_at = some now }

-- The crew, the events and `changed`.
unfoldable pub disconnect_daemon : ℕ → CrewState → String → ℕ → CrewState × List CrewEvent × Bool
disconnect_daemon wall crew id now = elim (get_daemon id crew.daemons) [
  | none ↦ (crew, [], false)
  | some d ↦ if not d.connected then (crew, [], false) else (
    record crew { daemons = change_daemon (cut_off now) id crew.daemons },
    create_event wall crew id disconnect "" none ∷ [],
    true,
  )
]

unfoldable pub record_heartbeat : CrewState → String → ℕ → CrewState × Bool
record_heartbeat crew id now = elim (get_daemon id crew.daemons) [
  | none ↦ (crew, false)
  | some d ↦ (
    record crew {
      daemons = change_daemon (λ d. record d { last_heartbeat = now }) id crew.daemons;
    },
    true,
  )
]

-- The item of one path, if the daemon holds it, is given up.
abbrev pub give_up : String → WorkEntry → WorkEntry
give_up id e = if is_id e.claimed_by id then record e { claimed_by = none } else e

unfoldable pub release_daemon_work_items :
    ℕ → CrewState → String → List String → List WorkEntry → List WorkEntry × List CrewEvent
release_daemon_work_items wall crew id [] items = (items, [])
release_daemon_work_items wall crew id (path ∷ rest) items =
    let later =
      release_daemon_work_items wall crew id rest (change_entry (give_up id) path items) in
    if is_id (owner (get_entry path items)) id
    then (later.0, create_event wall crew id abandon path none ∷ later.1)
    else later

-- A daemon whose heartbeat is overdue is cut off.
abbrev pub is_overdue : ℕ → ℕ → DaemonState → Bool
is_overdue heartbeat_timeout now d = d.connected && ltb (d.last_heartbeat + heartbeat_timeout) now

abbrev pub is_past_grace : ℕ → ℕ → DaemonState → Bool
is_past_grace grace now d =
    (not d.connected && not d.released)
    && elim d.disconnected_at [ none ↦ false | some t ↦ ltb (t + grace) now ]

-- One round of the loop: the daemon, the items, the events.
unfoldable pub check_daemon :
    ℕ
    → CrewState
    → ℕ
    → ℕ
    → ℕ
    → DaemonState
    → List WorkEntry
    → DaemonState × List WorkEntry × List CrewEvent
check_daemon wall crew heartbeat_timeout grace now d items =
    let late = is_overdue heartbeat_timeout now d in
    let d' = if late then cut_off now d else d in
    let first = if late then create_event wall crew d.id disconnect "" none ∷ [] else [] in
    if is_past_grace grace now d'
    then (let r = release_daemon_work_items wall crew d.id d'.claimed_items items in
        (record d' { released = true }, r.0, first ++ r.1))
    else (d', items, first)

unfoldable pub check_daemons :
    ℕ
    → CrewState
    → ℕ
    → ℕ
    → ℕ
    → List DaemonState
    → List WorkEntry
    → List DaemonState × List WorkEntry × List CrewEvent
check_daemons wall crew heartbeat_timeout grace now [] items = ([], items, [])
check_daemons wall crew heartbeat_timeout grace now (d ∷ rest) items =
    let r = check_daemon wall crew heartbeat_timeout grace now d items in
    let later = check_daemons wall crew heartbeat_timeout grace now rest r.1 in
    (r.0 ∷ later.0, later.1, r.2 ++ later.2)

unfoldable pub check_crew_heartbeats : ℕ → CrewState → ℕ → ℕ → ℕ → CrewState × List CrewEvent
check_crew_heartbeats wall crew heartbeat_timeout grace now =
    let r = check_daemons wall crew heartbeat_timeout grace now crew.daemons crew.items in
    (record crew { daemons = r.0; items = r.1 }, r.2)
