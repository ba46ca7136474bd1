-- ===== src/Broker/Laws/Claims.antt =====
-- core/broker-state.ts: which item `claimNextWorkItem` hands out.
use ninthwave.Prelude.{
  ℕ, In, subst, inl, inr, Bool-cases, Bool, true, false, not, ◌||◌, String, List, [], ◌∷◌, ◌≡◌,
  refl, sym, arith, Option, none, some, every, keep, if◌then◌else◌, str_eq, str_eq_refl,
}
use ninthwave.Broker.Crew.{
  WorkEntry, DaemonState, CrewState, CrewEvent, is_id, change_entry, get_daemon,
  is_work_item_available,
}
use ninthwave.Broker.Items.{take, comes_first, first_of, claim_from, claim_next_work_item}

comes_first_refl : (op : String) (a : WorkEntry) → comes_first op a a ≡ true
unfolding comes_first
comes_first_refl op a = ground arith

comes_first_total :
    (op : String) (a b : WorkEntry) → comes_first op a b ≡ false → comes_first op b a ≡ true
unfolding comes_first
comes_first_total op a b h = ground arith

comes_first_trans :
    (op : String) (a b c : WorkEntry)
    → comes_first op a b ≡ true
    → comes_first op b c ≡ true
    → comes_first op a c ≡ true
unfolding comes_first
comes_first_trans op a b c h k = ground arith

-- An entry that goes before every entry of the list.
abbrev pub leads : String → WorkEntry → List WorkEntry → Bool
leads op e es = every (comes_first op e) es

first_of-leads :
    (op : String) (best : WorkEntry) (es : List WorkEntry)
    → leads op (first_of op best es) (best ∷ es) ≡ true
unfolding first_of
first_of-leads op best [] = grind (arith, comes_first_refl op best)
first_of-leads op best (e ∷ rest) = grind (
  arith,
  first_of-leads op (if comes_first op best e then best else e) rest,
  comes_first_total op best e,
  comes_first_refl op,
  comes_first_trans op,
)

pub first_of-any :
    (op : String) (p : WorkEntry → Bool) (best : WorkEntry) (es : List WorkEntry)
    → every p (best ∷ es) ≡ true
    → p (first_of op best es) ≡ true
unfolding first_of
first_of-any op p best [] h = grind arith
first_of-any op p best (e ∷ rest) h =
    grind (arith, first_of-any op p (if comes_first op best e then best else e) rest)

pub every-keep : {A : Type 0} (p : A → Bool) (xs : List A) → every p (keep p xs) ≡ true
every-keep p [] = refl
every-keep p (x ∷ xs) = grind (arith, every-keep p xs)

either-In :
    (b : Bool) (r x y : WorkEntry) (rest : List WorkEntry)
    → In r ((if b then x else y) ∷ rest)
    → In r (x ∷ y ∷ rest)
either-In true r x y rest (inl h) = inl h
either-In true r x y rest (inr h) = inr (inr h)
either-In false r x y rest h = inr h

pub first_of-In :
    (op : String) (best : WorkEntry) (es : List WorkEntry) → In (first_of op best es) (best ∷ es)
unfolding first_of
first_of-In op best [] = inl refl
first_of-In op best (e ∷ rest) =
    either-In (comes_first op best e) _ best e rest
      (first_of-In op (if comes_first op best e then best else e) rest)

pub keep-In :
    (p : WorkEntry → Bool) (e : WorkEntry) (xs : List WorkEntry) → In e (keep p xs) → In e xs
keep-In p e [] h = h
keep-In p e (x ∷ xs) h = elim (Bool-cases (p x)) [
  | inl here ↦ elim (subst (λ b. In e (if b then x ∷ keep p xs else keep p xs)) here h) [
    | inl same ↦ inl same
    | inr later ↦ inr (keep-In p e xs later)
  ]
  | inr gone ↦
      inr (keep-In p e xs (subst (λ b. In e (if b then x ∷ keep p xs else keep p xs)) gone h))
]

-- After the change every entry of this path is claimed by the daemon.
abbrev pub claimed_for : String → String → List WorkEntry → Bool
claimed_for id path es = every (λ e. not (str_eq e.path path) || is_id e.claimed_by id) es

change_entry-claimed_for :
    (id path : String) (es : List WorkEntry)
    → claimed_for id path (change_entry (λ e. record e { claimed_by = some id }) path es) ≡ true
unfolding change_entry
change_entry-claimed_for id path [] = refl
change_entry-claimed_for id path (e ∷ es) =
    grind (arith, str_eq_refl, change_entry-claimed_for id path es)

-- The entry that a claim of `path` hands to the daemon.
abbrev pub IsClaim : CrewState → CrewState → String → String → Type 0
IsClaim crew after id path =
    (daemon : DaemonState) × (e : WorkEntry) × (get_daemon id crew.daemons ≡ some daemon)
    × (e.path ≡ path)
    × In e crew.items
    × (is_work_item_available crew.items e ≡ true)
    × (leads daemon.operator_id e (keep (is_work_item_available crew.items) crew.items) ≡ true)
    × (claimed_for id path after.items ≡ true)

-- A claim that hands out an item is made for a known daemon; the item was available, which means that
-- it was neither claimed nor completed and its known dependencies were completed; no available item
-- goes before it, by authorship, priority and time; and it belongs to the daemon afterwards.
pub claim_next_work_item-best :
    (wall : ℕ) (crew : CrewState) (id path : String)
    → (claim_next_work_item wall crew id).1 ≡ some path
    → IsClaim crew (claim_next_work_item wall crew id).0 id path
unfolding claim_next_work_item claim_from
claim_next_work_item-best wall crew id path h = asked (get_daemon id crew.daemons) refl h
  where
    available : List WorkEntry
    available = keep (is_work_item_available crew.items) crew.items

    Result : Option DaemonState → CrewState × Option String × List CrewEvent
    Result none = (crew, none, [])
    Result (some daemon) = claim_from wall crew daemon id available

    chosen :
        (daemon : DaemonState) (l : List WorkEntry)
        → get_daemon id crew.daemons ≡ some daemon
        → available ≡ l
        → (claim_from wall crew daemon id l).1 ≡ some path
        → IsClaim crew (claim_from wall crew daemon id l).0 id path
    chosen daemon [] known same k = absurd (ground arith)
    chosen daemon (e ∷ rest) known same k =
        let best = first_of daemon.operator_id e rest in
        (
          daemon,
          best,
          known,
          ground arith,
          keep-In (is_work_item_available crew.items) best crew.items
              (subst (In best) (sym same) (first_of-In daemon.operator_id e rest)),
          first_of-any daemon.operator_id (is_work_item_available crew.items) e rest (
              subst (λ l. every (is_work_item_available crew.items) l ≡ true) same
                (every-keep (is_work_item_available crew.items) crew.items)),
          subst (λ l. leads daemon.operator_id best l ≡ true) (sym same)
              (first_of-leads daemon.operator_id e rest),
          subst (λ p. claimed_for id p (take wall crew daemon id best).0.items ≡ true)
              (ground arith) (change_entry-claimed_for id best.path crew.items),
        )

    asked :
        (o : Option DaemonState)
        → get_daemon id crew.daemons ≡ o
        → (Result o).1 ≡ some path
        → IsClaim crew (Result o).0 id path
    asked none known k = absurd (ground arith)
    asked (some daemon) known k = chosen daemon available known refl k
