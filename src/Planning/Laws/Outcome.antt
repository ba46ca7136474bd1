-- ===== src/Planning/Laws/Outcome.antt =====
-- core/commands/batch-order.ts: what the outcome of `computeBatches` says.
use ninthwave.Prelude.{
  ℕ, zero, suc, ◌+◌, Bool, true, false, not, ◌||◌, String, List, [], ◌∷◌, ◌≡◌, refl, subst, arith,
  inl, inr, Bool-cases, Option, some, any, every, keep, is_empty, length, if◌then◌else◌, str_eq,
  str_eq_refl, str_eq_iff,
}
use ninthwave.Orchestrator.Item.{WorkItem}
use ninthwave.Planning.Batches.{
  has_id, Assignments, has_batch, assign_all, next_batch, batch_loop, BatchOutcome, circular,
  assigned_all, compute_batches, internal_deps, valid_ids,
}
use ninthwave.Planning.Laws.Rounds.{assign_all-keeps}
use ninthwave.Planning.Laws.Order.{
  all_ready, ordered, ordered-up_to, assign_all-ordered, next_batch-all_ready, ordered-weaken,
}

-- Each of the ids has a batch or remains.
abbrev covered : List String → Assignments → List String → Bool
covered valid a rest = every (λ id. has_batch id a || has_id id rest) valid

covered-nil :
    (valid : List String) (a : Assignments)
    → covered valid a [] ≡ true
    → every (λ id. has_batch id a) valid ≡ true
covered-nil [] a h = refl
covered-nil (id ∷ valid) a h = grind (arith, covered-nil valid a)

has_id-keep :
    (id : String) (a : Assignments) (ids : List String)
    → has_id id ids ≡ true
    → (has_batch id a || has_id id (keep (λ x. not (has_batch x a)) ids)) ≡ true
has_id-keep id a [] h = ground arith
has_id-keep id a (x ∷ ids) h = elim (Bool-cases (str_eq id x)) [
  | inl same ↦
      let e = (str_eq_iff id x).0 same in
      grind (arith, subst (λ y. has_batch id a ≡ has_batch y a) e refl)
  | inr other ↦ grind (arith, has_id-keep id a ids)
]

covered-step :
    (valid : List String) (n : ℕ) (bs : List String) (a : Assignments) (rest : List String)
    → covered valid a rest ≡ true
    → covered valid (assign_all n bs a) (keep (λ x. not (has_batch x (assign_all n bs a))) rest)
      ≡ true
covered-step [] n bs a rest h = refl
covered-step (id ∷ valid) n bs a rest h = grind (
  arith,
  assign_all-keeps n bs id a,
  has_id-keep id (assign_all n bs a) rest,
  covered-step valid n bs a rest,
)

module _ (deps : String → List String) where
  -- Each of the ids has a dependency with no batch.
  abbrev pub all_blocked : Assignments → List String → Bool
  all_blocked a ids = every (λ id. any (λ d. not (has_batch d a)) (deps id)) ids

  any-not :
      (a : Assignments) (ds : List String)
      → every (λ d. has_batch d a) ds ≡ false
      → any (λ d. not (has_batch d a)) ds ≡ true
  any-not a [] h = ground arith
  any-not a (d ∷ ds) h = grind (arith, any-not a ds)

  next_batch-all_blocked :
      (a : Assignments) (ids : List String) → next_batch deps a ids ≡ [] → all_blocked a ids ≡ true
  unfolding next_batch
  next_batch-all_blocked a [] h = refl
  next_batch-all_blocked a (id ∷ ids) h = elim (Bool-cases (every (λ d. has_batch d a) (deps id))) [
    | inl ready ↦ absurd (
        ground (
          arith,
          subst (λ b. (if b then id ∷ next_batch deps a ids else next_batch deps a ids) ≡ []) ready
              h,
        ))
    | inr waits ↦
        let later = next_batch-all_blocked a ids (
          subst (λ b. (if b then id ∷ next_batch deps a ids else next_batch deps a ids) ≡ []) waits
            h) in
        let here = any-not a (deps id) waits in rw here later
  ]

  -- What an outcome tells of the ids.
  abbrev pub IsOutcome : List String → BatchOutcome → Type 0
  IsOutcome valid (assigned_all a n) =
      (every (λ id. has_batch id a) valid ≡ true) × (ordered deps a n a ≡ true)
  IsOutcome valid (circular a n ids) =
      (is_empty ids ≡ false) × (all_blocked a ids ≡ true) × (ordered deps a n a ≡ true)

  batch_loop-IsOutcome :
      (fuel n : ℕ) (a : Assignments) (valid ids : List String) (r : BatchOutcome)
      → ordered deps a n a ≡ true
      → covered valid a ids ≡ true
      → batch_loop deps fuel n a ids ≡ some r
      → IsOutcome valid r
  unfolding batch_loop
  batch_loop-IsOutcome fuel n a valid [] r o c h =
      let same : assigned_all a n ≡ r = cc in
      subst (IsOutcome valid) same (covered-nil valid a c, o)
  batch_loop-IsOutcome zero n a valid (id ∷ ids) r o c h = absurd (ground arith)
  batch_loop-IsOutcome (suc fuel) n a valid (id ∷ ids) r o c h =
      from (next_batch deps a (id ∷ ids)) refl (batch_loop-IsOutcome fuel) h
    where
      Round : List String → Option BatchOutcome
      Round [] = some (circular a n (id ∷ ids))
      Round (b ∷ bs) =
          batch_loop deps fuel (n + 1) (assign_all (n + 1) (b ∷ bs) a)
            (keep (λ x. not (has_batch x (assign_all (n + 1) (b ∷ bs) a))) (id ∷ ids))

      from :
          (l : List String)
          → next_batch deps a (id ∷ ids) ≡ l
          → ((m : ℕ) (c : Assignments) (valid rest : List String) (r : BatchOutcome)
              → ordered deps c m c ≡ true
              → covered valid c rest ≡ true
              → batch_loop deps fuel m c rest ≡ some r
              → IsOutcome valid r)
          → Round l ≡ some r
          → IsOutcome valid r
      from [] e ih k =
          let same : circular a n (id ∷ ids) ≡ r = cc in
          subst (IsOutcome valid) same (refl, next_batch-all_blocked a (id ∷ ids) e, o)
      from (b ∷ bs) e ih k =
          ih (n + 1) (assign_all (n + 1) (b ∷ bs) a) valid
            (keep (λ x. not (has_batch x (assign_all (n + 1) (b ∷ bs) a))) (id ∷ ids)) r
            (assign_all-ordered deps (n + 1) (b ∷ bs) a (omega arith)
              (ordered-weaken deps a n (n + 1) a (omega arith) o)
              (subst (λ l. all_ready deps (n + 1) a l ≡ true) e
                (next_batch-all_ready deps n a (id ∷ ids) (ordered-up_to deps a n a o))))
            (covered-step valid (n + 1) (b ∷ bs) a (id ∷ ids) c) k

covered_start :
    (valid ids : List String)
    → every (λ id. has_id id ids) valid ≡ true
    → covered valid [] ids ≡ true
covered_start [] ids h = refl
covered_start (id ∷ valid) ids h = grind (arith, covered_start valid ids)

every_id-has_id :
    (ids more : List String)
    → ((id : String) → has_id id ids ≡ true → has_id id more ≡ true)
    → every (λ id. has_id id more) ids ≡ true
every_id-has_id [] more f = refl
every_id-has_id (id ∷ ids) more f = grind (
  arith,
  f id (grind (arith, str_eq_refl id)),
  every_id-has_id ids more (λ x h. f x (grind (arith, h))),
)

-- If `computeBatches` ends with batches, every valid id has one, each batch is from 1 to the count, and
-- every dependency within the selection has an earlier batch than the item. If it ends with the error,
-- some ids remain, each of them has a dependency with no batch, and the batches so far are in order.
pub compute_batches-IsOutcome :
    (items : List WorkItem) (selected : List String) (r : BatchOutcome)
    → compute_batches items selected ≡ some r
    → IsOutcome (internal_deps items selected) (valid_ids items selected) r
unfolding compute_batches
compute_batches-IsOutcome items selected r h =
    let valid = valid_ids items selected in
    batch_loop-IsOutcome (internal_deps items selected) (length valid) 0 [] valid valid r refl
      (covered_start valid valid (every_id-has_id valid valid (λ id k. k))) h
