-- ===== src/Planning/Laws/Unknown.antt =====
-- core/commands/batch-order.ts: an id that is selected and is of no item.
use ninthwave.Prelude.{
  ℕ, zero, suc, ◌+◌, Bool, true, false, not, String, List, [], ◌∷◌, ◌++◌, ◌≡◌, refl, sym, subst,
  arith, inl, inr, Bool-cases, Option, some, is_some, every, keep, str_eq, str_eq_iff,
}
use ninthwave.Orchestrator.Item.{WorkItem}
use ninthwave.Planning.Batches.{
  has_id, find_item, Assignments, has_batch, assign, assign_all, next_batch, batch_loop,
  BatchOutcome, circular, assigned_all, compute_batches, internal_deps, valid_ids,
}
use ninthwave.Planning.Laws.Rounds.{compute_batches-total}
use ninthwave.Planning.Laws.Order.{ordered, is_earlier}
use ninthwave.Planning.Laws.Outcome.{compute_batches-IsOutcome}

module _ (q : String → Bool) where
  every_at : (x : String) (xs : List String) → has_id x xs ≡ true → every q xs ≡ true → q x ≡ true
  every_at x [] h k = absurd (ground arith)
  every_at x (y ∷ xs) h k = elim (Bool-cases (str_eq x y)) [
    | inl same ↦ subst (λ z. q z ≡ true) (sym ((str_eq_iff x y).0 same)) (ground arith)
    | inr other ↦ every_at x xs (ground arith) (ground arith)
  ]

  -- Every id with a batch passes the test.
  abbrev known : Assignments → Bool
  known a = every (λ p. q p.0) a

  known_at : (d : String) (a : Assignments) → has_batch d a ≡ true → known a ≡ true → q d ≡ true
  known_at d [] h k = absurd (ground arith)
  known_at d (p ∷ a) h k = elim (Bool-cases (str_eq p.0 d)) [
    | inl same ↦ subst (λ z. q z ≡ true) ((str_eq_iff p.0 d).0 same) (ground arith)
    | inr other ↦ known_at d a (ground arith) (ground arith)
  ]

  known-snoc :
      (a : Assignments) (p : String × ℕ)
      → known a ≡ true
      → q p.0 ≡ true
      → known (a ++ p ∷ []) ≡ true
  known-snoc [] p h k = ground arith
  known-snoc (r ∷ a) p h k = grind (arith, known-snoc a p)

  assign_all-known :
      (n : ℕ) (ids : List String) (a : Assignments)
      → every q ids ≡ true
      → known a ≡ true
      → known (assign_all n ids a) ≡ true
  unfolding assign_all
  assign_all-known n [] a h k = k
  assign_all-known n (id ∷ ids) a h k =
      assign_all-known n ids (assign n id a) (ground arith) (grind (arith, known-snoc a (id, n)))

  every-keep :
      (p : String → Bool) (xs : List String) → every q xs ≡ true → every q (keep p xs) ≡ true
  every-keep p [] h = refl
  every-keep p (x ∷ xs) h = grind (arith, every-keep p xs)

  abbrev outcome_known : BatchOutcome → Bool
  outcome_known (assigned_all a n) = known a
  outcome_known (circular a n ids) = known a

  batch_loop-known :
      (deps : String → List String) (fuel n : ℕ) (a : Assignments) (ids : List String)
      (r : BatchOutcome)
      → known a ≡ true
      → every q ids ≡ true
      → batch_loop deps fuel n a ids ≡ some r
      → outcome_known r ≡ true
  unfolding batch_loop next_batch
  batch_loop-known deps fuel n a [] r o c h =
      let same : assigned_all a n ≡ r = cc in subst (λ r. outcome_known r ≡ true) same o
  batch_loop-known deps zero n a (id ∷ ids) r o c h = absurd (ground arith)
  batch_loop-known deps (suc fuel) n a (id ∷ ids) r o c h =
      from (next_batch deps a (id ∷ ids))
        (every-keep (λ x. every (λ d. has_batch d a) (deps x)) (id ∷ ids) c)
        (batch_loop-known deps fuel) h
    where
      Round : List String → Option BatchOutcome
      Round [] = some (circular a n (id ∷ ids))
      Round (b ∷ bs) =
          batch_loop deps fuel (n + 1) (assign_all (n + 1) (b ∷ bs) a)
            (keep (λ x. not (has_batch x (assign_all (n + 1) (b ∷ bs) a))) (id ∷ ids))

      from :
          (l : List String)
          → every q l ≡ true
          → ((m : ℕ) (c : Assignments) (rest : List String) (r : BatchOutcome)
              → known c ≡ true
              → every q rest ≡ true
              → batch_loop deps fuel m c rest ≡ some r
              → outcome_known r ≡ true)
          → Round l ≡ some r
          → outcome_known r ≡ true
      from [] e ih k =
          let same : circular a n (id ∷ ids) ≡ r = cc in subst (λ r. outcome_known r ≡ true) same o
      from (b ∷ bs) e ih k =
          ih (n + 1) (assign_all (n + 1) (b ∷ bs) a)
            (keep (λ x. not (has_batch x (assign_all (n + 1) (b ∷ bs) a))) (id ∷ ids)) r
            (assign_all-known (n + 1) (b ∷ bs) a e o)
            (every-keep (λ x. not (has_batch x (assign_all (n + 1) (b ∷ bs) a))) (id ∷ ids) c) k

valid_ids-found :
    (items : List WorkItem) (selected : List String)
    → every (λ id. is_some (find_item id items)) (valid_ids items selected) ≡ true
unfolding valid_ids
valid_ids-found items [] = refl
valid_ids-found items (id ∷ selected) = grind (arith, valid_ids-found items selected)

is_earlier-has_batch :
    (d : String) (k : ℕ) (a : Assignments) → is_earlier d k a ≡ true → has_batch d a ≡ true
is_earlier-has_batch d k [] h = h
is_earlier-has_batch d k (p ∷ a) h = grind (arith, is_earlier-has_batch d k a)

-- The dependencies of an id with a batch have batches.
ordered_at :
    (deps : String → List String) (whole : Assignments) (n : ℕ) (a : Assignments) (id d : String)
    → ordered deps whole n a ≡ true
    → has_batch id a ≡ true
    → has_id d (deps id) ≡ true
    → has_batch d whole ≡ true
ordered_at deps whole n [] id d o h k = absurd (ground arith)
ordered_at deps whole n (p ∷ a) id d o h k = elim (Bool-cases (str_eq p.0 id)) [
  | inl same ↦ is_earlier-has_batch d p.1 whole (
      every_at (λ x. is_earlier x p.1 whole) d (deps p.0)
        (subst (λ y. has_id d (deps y) ≡ true) (sym ((str_eq_iff p.0 id).0 same)) k) (ground arith))
  | inr other ↦ ordered_at deps whole n a id d (ground arith) (ground arith) k
]

-- Where a valid item depends on an id that is selected but of no item, `computeBatches` ends with the
-- error of a circular dependency.
pub compute_batches-unknown :
    (items : List WorkItem) (selected : List String) (id d : String)
    → has_id id (valid_ids items selected) ≡ true
    → has_id d (internal_deps items selected id) ≡ true
    → is_some (find_item d items) ≡ false
    → (a : Assignments) × (n : ℕ) × (ids : List String) × (compute_batches items selected
        ≡ some (circular a n ids))
unfolding compute_batches
compute_batches-unknown items selected id d v m u =
    let t = compute_batches-total items selected in from t.0 t.1
  where
    found : String → Bool
    found x = is_some (find_item x items)

    from :
        (r : BatchOutcome)
        → compute_batches items selected ≡ some r
        → (a : Assignments) × (n : ℕ) × (ids : List String) × (compute_batches items selected
            ≡ some (circular a n ids))
    from (circular a n ids) e = (a, n, ids, e)
    from (assigned_all a n) e =
        let o = compute_batches-IsOutcome items selected (assigned_all a n) e in
        let k =
          batch_loop-known found (internal_deps items selected) _ 0 [] (valid_ids items selected)
            (assigned_all a n) refl (valid_ids-found items selected) e in
        let h = every_at (λ x. has_batch x a) id (valid_ids items selected) v o.0 in
        let b = ordered_at (internal_deps items selected) a n a id d o.1 h m in
        let f : found d ≡ true = known_at found d a b k in absurd (ground arith)
