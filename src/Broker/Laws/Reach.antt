-- ===== src/Broker/Laws/Reach.antt =====
-- core/broker-state.ts: what every run of the broker keeps.
use ninthwave.Prelude.{ℕ, String, List, [], ◌≡◌, refl, arith, Option, none, some, keep}
use ninthwave.Broker.Crew.{DaemonState, CrewState, CrewEvent, get_daemon, is_work_item_available}
use ninthwave.Broker.Daemons.{
  connect_daemon, disconnect_daemon, record_heartbeat, check_crew_heartbeats,
}
use ninthwave.Broker.Items.{
  SyncItem, sync_crew_items, sync_items, claim_next_work_item, claim_from, complete_work_item,
  finish,
}
use ninthwave.Broker.Laws.Keys.{
  change_entry-paths, reconcile-paths, check_daemons-paths, sync_items-distinct,
}
use ninthwave.Broker.Laws.Runs.{
  Step, connects, disconnects, syncs, claims, completes, beats, checks, Reachable, start, next,
  IsSound, change_entry-settled, sync_items-settled, reconcile-settled, check_daemons-settled,
  claim_from-IsSound,
}

-- The daemons' own operations leave the entries alone.
connect_daemon-items :
    (wall : ℕ) (crew : CrewState) (id name operator_id : String) (now : ℕ)
    → (connect_daemon wall crew id name operator_id now).0.items ≡ crew.items
unfolding connect_daemon
connect_daemon-items wall crew id name operator_id now = ground arith

disconnect_daemon-items :
    (wall : ℕ) (crew : CrewState) (id : String) (now : ℕ)
    → (disconnect_daemon wall crew id now).0.items ≡ crew.items
unfolding disconnect_daemon
disconnect_daemon-items wall crew id now = ground arith

record_heartbeat-items :
    (crew : CrewState) (id : String) (now : ℕ) → (record_heartbeat crew id now).0.items ≡ crew.items
unfolding record_heartbeat
record_heartbeat-items crew id now = ground arith

sync_crew_items-IsSound :
    (wall : ℕ) (crew : CrewState) (id : String) (items : List SyncItem) (now : ℕ)
    → IsSound crew.items
    → IsSound (sync_crew_items wall crew id items now).0.items
unfolding sync_crew_items
sync_crew_items-IsSound wall crew id items now s = (
  reconcile-settled id items (sync_items wall crew id now items crew.items).0
      (sync_items-settled wall crew id now items crew.items s.0),
  rw (reconcile-paths id items (sync_items wall crew id now items crew.items).0)
      (sync_items-distinct wall crew id now items crew.items s.1),
)

claim_next_work_item-IsSound :
    (wall : ℕ) (crew : CrewState) (id : String)
    → IsSound crew.items
    → IsSound (claim_next_work_item wall crew id).0.items
unfolding claim_next_work_item
claim_next_work_item-IsSound wall crew id s = asked (get_daemon id crew.daemons)
  where
    result : Option DaemonState → CrewState × Option String × List CrewEvent
    result none = (crew, none, [])
    result (some daemon) =
        claim_from wall crew daemon id (keep (is_work_item_available crew.items) crew.items)

    asked : (o : Option DaemonState) → IsSound (result o).0.items
    asked none = s
    asked (some daemon) =
        claim_from-IsSound wall crew daemon id (keep (is_work_item_available crew.items) crew.items)
          refl s

complete_work_item-IsSound :
    (wall : ℕ) (crew : CrewState) (id path : String)
    → IsSound crew.items
    → IsSound (complete_work_item wall crew id path).0.items
unfolding complete_work_item
complete_work_item-IsSound wall crew id path s =
    let settled = change_entry-settled (finish id) path crew.items (λ e k. refl) s.0 in
    let same = change_entry-paths (finish id) path crew.items (λ e. refl) in
    grind (arith, settled, same)

check_crew_heartbeats-IsSound :
    (wall : ℕ) (crew : CrewState) (h g now : ℕ)
    → IsSound crew.items
    → IsSound (check_crew_heartbeats wall crew h g now).0.items
unfolding check_crew_heartbeats
check_crew_heartbeats-IsSound wall crew h g now s = (
  check_daemons-settled wall crew h g now crew.daemons crew.items s.0,
  rw (check_daemons-paths wall crew h g now crew.daemons crew.items) s.1,
)

pub Step-IsSound : {a b : CrewState} → Step a b → IsSound a.items → IsSound b.items
Step-IsSound (connects wall crew id name operator_id now) s =
    rw (connect_daemon-items wall crew id name operator_id now) s
Step-IsSound (disconnects wall crew id now) s = rw (disconnect_daemon-items wall crew id now) s
Step-IsSound (syncs wall crew id items now) s = sync_crew_items-IsSound wall crew id items now s
Step-IsSound (claims wall crew id) s = claim_next_work_item-IsSound wall crew id s
Step-IsSound (completes wall crew id path) s = complete_work_item-IsSound wall crew id path s
Step-IsSound (beats crew id now) s = rw (record_heartbeat-items crew id now) s
Step-IsSound (checks wall crew h g now) s = check_crew_heartbeats-IsSound wall crew h g now s

-- In every crew that any sequence of connects, disconnects, syncs, claims, completions, heartbeats and
-- checks of heartbeats makes of a new one, no item is claimed and completed at once, and no two
-- entries have one path.
pub Reachable-IsSound :
    (code : String) (crew : CrewState) → Reachable code crew → IsSound crew.items
Reachable-IsSound code crew (start repo_ref) = (refl, refl)
Reachable-IsSound code crew (next r step) = Step-IsSound step (Reachable-IsSound code _ r)
