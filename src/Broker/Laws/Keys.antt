-- ===== src/Broker/Laws/Keys.antt =====
-- core/broker-state.ts: the entries of a crew keep one path each.
use ninthwave.Prelude.{
  ℕ, Bool, true, false, not, ◌&&◌, ◌||◌, String, List, [], ◌∷◌, ◌++◌, map, ◌≡◌, refl, ◌∙◌, arith,
  none, any, if◌then◌else◌, str_eq, str_eq_refl, str_eq_iff,
}
use ninthwave.Broker.Crew.{WorkEntry, DaemonState, CrewState, get_entry, change_entry}
use ninthwave.Broker.Daemons.{
  release_daemon_work_items, give_up, check_daemons, check_daemon, is_overdue, cut_off,
}
use ninthwave.Broker.Items.{SyncItem, sync_items, reconcile, update_entry, new_entry}

abbrev pub paths : List WorkEntry → List String
paths es = map (λ e. e.path) es

abbrev pub distinct : List String → Bool
distinct [] = true
distinct (p ∷ ps) = not (any (λ q. str_eq q p) ps) && distinct ps

pub change_entry-paths :
    (f : WorkEntry → WorkEntry) (path : String) (es : List WorkEntry)
    → ((e : WorkEntry) → (f e).path ≡ e.path)
    → paths (change_entry f path es) ≡ paths es
unfolding change_entry
change_entry-paths f path [] k = refl
change_entry-paths f path (e ∷ es) k = grind (arith, k e, change_entry-paths f path es k)

pub reconcile-paths :
    (id : String) (items : List SyncItem) (es : List WorkEntry)
    → paths (map (reconcile id items) es) ≡ paths es
reconcile-paths id items [] = refl
reconcile-paths id items (e ∷ es) = grind (arith, reconcile-paths id items es)

release-paths :
    (wall : ℕ) (crew : CrewState) (id : String) (held : List String) (es : List WorkEntry)
    → paths (release_daemon_work_items wall crew id held es).0 ≡ paths es
unfolding release_daemon_work_items
release-paths wall crew id [] es = refl
release-paths wall crew id (path ∷ rest) es = grind (
  arith,
  release-paths wall crew id rest (change_entry (give_up id) path es),
  change_entry-paths (give_up id) path es (λ e. ground arith),
)

check_daemon-paths :
    (wall : ℕ) (crew : CrewState) (h g now : ℕ) (d : DaemonState) (es : List WorkEntry)
    → paths (check_daemon wall crew h g now d es).1 ≡ paths es
unfolding check_daemon
check_daemon-paths wall crew h g now d es = grind (
  arith,
  release-paths wall crew d.id (if is_overdue h now d then cut_off now d else d).claimed_items es,
)

pub check_daemons-paths :
    (wall : ℕ) (crew : CrewState) (h g now : ℕ) (ds : List DaemonState) (es : List WorkEntry)
    → paths (check_daemons wall crew h g now ds es).1 ≡ paths es
unfolding check_daemons
check_daemons-paths wall crew h g now [] es = refl
check_daemons-paths wall crew h g now (d ∷ ds) es =
    check_daemons-paths wall crew h g now ds (check_daemon wall crew h g now d es).1
    ∙ check_daemon-paths wall crew h g now d es

-- A path that is not found is new.
get_entry-fresh :
    (path : String) (es : List WorkEntry)
    → get_entry path es ≡ none
    → any (λ q. str_eq q path) (paths es) ≡ false
unfolding get_entry
get_entry-fresh path [] h = refl
get_entry-fresh path (e ∷ es) h = grind (arith, get_entry-fresh path es)

str_eq_sym : (a b : String) → str_eq a b ≡ true → str_eq b a ≡ true
str_eq_sym a b h = rw ((str_eq_iff a b).0 h) (str_eq_refl b)

append-any :
    (p : String) (e : WorkEntry) (es : List WorkEntry)
    → any (λ q. str_eq q p) (paths (es ++ e ∷ []))
      ≡ (any (λ q. str_eq q p) (paths es) || str_eq e.path p)
append-any p e [] = ground arith
append-any p e (x ∷ es) = grind (arith, append-any p e es)

append-distinct :
    (e : WorkEntry) (es : List WorkEntry)
    → any (λ q. str_eq q e.path) (paths es) ≡ false
    → distinct (paths es) ≡ true
    → distinct (paths (es ++ e ∷ [])) ≡ true
append-distinct e [] h k = refl
append-distinct e (x ∷ es) h k =
    grind (arith, append-any x.path e es, append-distinct e es, str_eq_sym e.path x.path)

pub sync_items-distinct :
    (wall : ℕ) (crew : CrewState) (id : String) (now : ℕ) (items : List SyncItem)
    (es : List WorkEntry)
    → distinct (paths es) ≡ true
    → distinct (paths (sync_items wall crew id now items es).0) ≡ true
unfolding sync_items
sync_items-distinct wall crew id now [] es h = h
sync_items-distinct wall crew id now (item ∷ rest) es h = grind (
  arith,
  sync_items-distinct wall crew id now rest (change_entry (update_entry item) item.id es),
  change_entry-paths (update_entry item) item.id es (λ e. refl),
  sync_items-distinct wall crew id now rest (es ++ new_entry id now item ∷ []),
  append-distinct (new_entry id now item) es,
  get_entry-fresh item.id es,
)
