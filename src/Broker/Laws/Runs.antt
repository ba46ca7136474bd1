-- ===== src/Broker/Laws/Runs.antt =====
-- core/broker-state.ts: the operations as steps of a crew, and what holds after any number of them.
use ninthwave.Prelude.{
  In, ℕ, Bool, true, false, not, ◌&&◌, String, List, [], ◌∷◌, ◌++◌, map, ◌≡◌, refl, arith, sym, ap,
  subst, str_eq_refl, str_eq_iff, inl, inr, Option, some, is_some, every, if◌then◌else◌, str_eq,
  any, keep,
}
use ninthwave.Broker.Crew.{WorkEntry, DaemonState, CrewState, change_entry, is_work_item_available}
use ninthwave.Broker.Daemons.{
  connect_daemon, disconnect_daemon, record_heartbeat, check_crew_heartbeats, check_daemons,
  check_daemon, release_daemon_work_items, give_up, is_overdue, cut_off,
}
use ninthwave.Broker.Items.{
  SyncItem, sync_crew_items, sync_items, claim_next_work_item, claim_from, complete_work_item,
  reconcile, update_entry, new_entry, first_of,
}
use ninthwave.Broker.Laws.Claims.{first_of-In, keep-In, first_of-any, every-keep}
use ninthwave.Broker.Laws.Keys.{paths, distinct, change_entry-paths}

-- One call of an operation.
pub data Step : CrewState → CrewState → Type 0 where
  connects :
      (wall : ℕ) (crew : CrewState) (id name operator_id : String) (now : ℕ)
      → Step crew (connect_daemon wall crew id name operator_id now).0
  disconnects :
      (wall : ℕ) (crew : CrewState) (id : String) (now : ℕ)
      → Step crew (disconnect_daemon wall crew id now).0
  syncs :
      (wall : ℕ) (crew : CrewState) (id : String) (items : List SyncItem) (now : ℕ)
      → Step crew (sync_crew_items wall crew id items now).0
  claims :
      (wall : ℕ) (crew : CrewState) (id : String) → Step crew (claim_next_work_item wall crew id).0
  completes :
      (wall : ℕ) (crew : CrewState) (id path : String)
      → Step crew (complete_work_item wall crew id path).0
  beats : (crew : CrewState) (id : String) (now : ℕ) → Step crew (record_heartbeat crew id now).0
  checks :
      (wall : ℕ) (crew : CrewState) (heartbeat_timeout grace now : ℕ)
      → Step crew (check_crew_heartbeats wall crew heartbeat_timeout grace now).0

-- `createCrewState`.
abbrev pub new_crew : String → Option String → CrewState
new_crew code repo_ref = record { code = code; repo_ref = repo_ref; items = []; daemons = [] }

-- What a crew can become.
pub data Reachable (code : String) : CrewState → Type 0 where
  start : (repo_ref : Option String) → Reachable code (new_crew code repo_ref)
  next : {a b : CrewState} → Reachable code a → Step a b → Reachable code b

-- An item is not claimed and completed at once.
abbrev pub settled : WorkEntry → Bool
settled e = not (is_some e.claimed_by && is_some e.completed_by)

abbrev pub all_settled : List WorkEntry → Bool
all_settled es = every settled es

pub change_entry-settled :
    (f : WorkEntry → WorkEntry) (path : String) (es : List WorkEntry)
    → ((e : WorkEntry) → settled e ≡ true → settled (f e) ≡ true)
    → all_settled es ≡ true
    → all_settled (change_entry f path es) ≡ true
unfolding change_entry
change_entry-settled f path [] k h = refl
change_entry-settled f path (e ∷ es) k h = grind (arith, k e, change_entry-settled f path es k)

append-settled :
    (e : WorkEntry) (es : List WorkEntry)
    → settled e ≡ true
    → all_settled es ≡ true
    → all_settled (es ++ e ∷ []) ≡ true
append-settled e [] k h = grind arith
append-settled e (x ∷ es) k h = grind (arith, append-settled e es)

pub sync_items-settled :
    (wall : ℕ) (crew : CrewState) (id : String) (now : ℕ) (items : List SyncItem)
    (es : List WorkEntry)
    → all_settled es ≡ true
    → all_settled (sync_items wall crew id now items es).0 ≡ true
unfolding sync_items
sync_items-settled wall crew id now [] es h = h
sync_items-settled wall crew id now (item ∷ rest) es h = grind (
  arith,
  sync_items-settled wall crew id now rest (change_entry (update_entry item) item.id es)
      (change_entry-settled (update_entry item) item.id es (λ e k. k) h),
  sync_items-settled wall crew id now rest (es ++ new_entry id now item ∷ [])
      (append-settled (new_entry id now item) es refl h),
)

pub reconcile-settled :
    (id : String) (items : List SyncItem) (es : List WorkEntry)
    → all_settled es ≡ true
    → all_settled (map (reconcile id items) es) ≡ true
reconcile-settled id items [] h = refl
reconcile-settled id items (e ∷ es) h = grind (arith, reconcile-settled id items es)

release-settled :
    (wall : ℕ) (crew : CrewState) (id : String) (paths : List String) (es : List WorkEntry)
    → all_settled es ≡ true
    → all_settled (release_daemon_work_items wall crew id paths es).0 ≡ true
unfolding release_daemon_work_items
release-settled wall crew id [] es h = h
release-settled wall crew id (path ∷ rest) es h = grind (
  arith,
  release-settled wall crew id rest (change_entry (give_up id) path es)
      (change_entry-settled (give_up id) path es (λ e k. ground arith) h),
)

check_daemon-settled :
    (wall : ℕ) (crew : CrewState) (h g now : ℕ) (d : DaemonState) (es : List WorkEntry)
    → all_settled es ≡ true
    → all_settled (check_daemon wall crew h g now d es).1 ≡ true
unfolding check_daemon
check_daemon-settled wall crew h g now d es k = grind (
  arith,
  release-settled wall crew d.id (if is_overdue h now d then cut_off now d else d).claimed_items es
      k,
)

pub check_daemons-settled :
    (wall : ℕ) (crew : CrewState) (h g now : ℕ) (ds : List DaemonState) (es : List WorkEntry)
    → all_settled es ≡ true
    → all_settled (check_daemons wall crew h g now ds es).1 ≡ true
unfolding check_daemons
check_daemons-settled wall crew h g now [] es k = k
check_daemons-settled wall crew h g now (d ∷ ds) es k =
    check_daemons-settled wall crew h g now ds (check_daemon wall crew h g now d es).1
      (check_daemon-settled wall crew h g now d es k)

-- The entries have one path each, and none is claimed and completed at once.
abbrev pub IsSound : List WorkEntry → Type 0
IsSound es = (all_settled es ≡ true) × (distinct (paths es) ≡ true)

In-any :
    (e : WorkEntry) (es : List WorkEntry) → In e es → any (λ q. str_eq q e.path) (paths es) ≡ true
In-any e [] h = absurd h
In-any e (x ∷ es) (inl same) = rw same (grind (arith, str_eq_refl x.path))
In-any e (x ∷ es) (inr later) = grind (arith, In-any e es later)

change_entry-fresh :
    (f : WorkEntry → WorkEntry) (path : String) (es : List WorkEntry)
    → any (λ q. str_eq q path) (paths es) ≡ false
    → change_entry f path es ≡ es
unfolding change_entry
change_entry-fresh f path [] h = refl
change_entry-fresh f path (e ∷ es) h = grind (arith, change_entry-fresh f path es)

abbrev claimed_by_id : String → WorkEntry → WorkEntry
claimed_by_id id e = record e { claimed_by = some id }

change_entry-claimed :
    (id : String) (e : WorkEntry) (es : List WorkEntry)
    → In e es
    → is_some e.completed_by ≡ false
    → IsSound es
    → all_settled (change_entry (claimed_by_id id) e.path es) ≡ true
unfolding change_entry
change_entry-claimed id e [] h todo s = absurd h
change_entry-claimed id e (x ∷ es) (inl same) todo s =
    let path : e.path ≡ x.path = ap (λ y. y.path) same in
    let fresh : any (λ q. str_eq q x.path) (paths es) ≡ false = ground arith in
    grind (
      arith,
      path,
      subst (λ p. str_eq p e.path ≡ true) path (str_eq_refl e.path),
      subst (λ y. is_some y.completed_by ≡ false) same todo,
      change_entry-fresh (claimed_by_id id) e.path es
          (subst (λ p. any (λ q. str_eq q p) (paths es) ≡ false) (sym path) fresh),
    )
change_entry-claimed id e (x ∷ es) (inr later) todo s = grind (
  arith,
  In-any e es later,
  str_eq_iff x.path e.path,
  change_entry-claimed id e es later todo (ground arith, ground arith),
)

take-IsSound :
    (id : String) (e : WorkEntry) (es : List WorkEntry)
    → In e es
    → is_work_item_available es e ≡ true
    → IsSound es
    → IsSound (change_entry (claimed_by_id id) e.path es)
unfolding is_work_item_available
take-IsSound id e es member free s = (
  change_entry-claimed id e es member (ground arith) s,
  rw (change_entry-paths (claimed_by_id id) e.path es (λ x. refl)) s.1,
)

pub claim_from-IsSound :
    (wall : ℕ) (crew : CrewState) (daemon : DaemonState) (id : String) (l : List WorkEntry)
    → keep (is_work_item_available crew.items) crew.items ≡ l
    → IsSound crew.items
    → IsSound (claim_from wall crew daemon id l).0.items
unfolding claim_from
claim_from-IsSound wall crew daemon id [] same s = s
claim_from-IsSound wall crew daemon id (e ∷ rest) same s =
    let best = first_of daemon.operator_id e rest in
    take-IsSound id best crew.items
      (keep-In (is_work_item_available crew.items) best crew.items
        (subst (In best) (sym same) (first_of-In daemon.operator_id e rest)))
      (first_of-any daemon.operator_id (is_work_item_available crew.items) e rest (
        subst (λ l. every (is_work_item_available crew.items) l ≡ true) same
          (every-keep (is_work_item_available crew.items) crew.items)))
      s
