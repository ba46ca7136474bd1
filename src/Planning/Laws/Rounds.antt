-- ===== src/Planning/Laws/Rounds.antt =====
-- core/commands/batch-order.ts: the rounds of `computeBatches` come to an end.
use ninthwave.Prelude.{
  ℕ, zero, suc, ◌+◌, ◌≤◌, ◌<◌, Bool, true, not, ◌||◌, String, List, [], ◌∷◌, ◌++◌, ◌≡◌, refl, subst,
  inl, inr, Bool-cases, str_eq_iff, arith, Option, some, any, every, keep, length, length-keep-le,
  if◌then◌else◌, str_eq, str_eq_refl,
}
use ninthwave.Orchestrator.Item.{WorkItem}
use ninthwave.Planning.Batches.{
  Assignments, has_batch, assign, assign_all, next_batch, batch_loop, BatchOutcome, circular,
  assigned_all, compute_batches, internal_deps, valid_ids,
}

pub has_batch-append :
    (id : String) (xs ys : Assignments)
    → has_batch id (xs ++ ys) ≡ (has_batch id xs || has_batch id ys)
has_batch-append id [] ys = refl
has_batch-append id (x ∷ xs) ys = grind (arith, has_batch-append id xs ys)

assign_self : (n : ℕ) (id : String) (a : Assignments) → has_batch id (assign n id a) ≡ true
assign_self n id a = grind (arith, has_batch-append id a ((id, n) ∷ []), str_eq_refl id)

pub assign-has_batch :
    (n : ℕ) (id d : String) (a : Assignments)
    → (has_batch d a || str_eq id d) ≡ true
    → has_batch d (assign n id a) ≡ true
assign-has_batch n id d a h = elim (Bool-cases (str_eq id d)) [
  | inl same ↦
      subst (λ x. has_batch x (assign n id a) ≡ true) ((str_eq_iff id d).0 same)
        (assign_self n id a)
  | inr other ↦ grind (arith, has_batch-append d a ((id, n) ∷ []))
]

pub assign_all-keeps :
    (n : ℕ) (ids : List String) (d : String) (a : Assignments)
    → has_batch d a ≡ true
    → has_batch d (assign_all n ids a) ≡ true
unfolding assign_all
assign_all-keeps n [] d a h = h
assign_all-keeps n (id ∷ ids) d a h =
    assign_all-keeps n ids d (assign n id a) (assign-has_batch n id d a (ground arith))

pub assign_all-has_batch :
    (n : ℕ) (ids : List String) (a : Assignments)
    → every (λ id. has_batch id (assign_all n ids a)) ids ≡ true
unfolding assign_all
assign_all-has_batch n [] a = refl
assign_all-has_batch n (id ∷ ids) a = grind (
  arith,
  assign_all-keeps n ids id (assign n id a)
      (assign-has_batch n id id a (grind (arith, str_eq_refl id))),
  assign_all-has_batch n ids (assign n id a),
)

-- What is kept satisfies what each entry that is kept does.
every-any :
    (p q : String → Bool) (x : String) (xs ys : List String)
    → keep p ys ≡ x ∷ xs
    → every q (x ∷ xs) ≡ true
    → any q ys ≡ true
every-any p q x xs [] e h = absurd (ground arith)
every-any p q x xs (y ∷ ys) e h = elim (Bool-cases (p y)) [
  | inl here ↦
      let e' : y ∷ keep p ys ≡ x ∷ xs =
        subst (λ b. (if b then y ∷ keep p ys else keep p ys) ≡ x ∷ xs) here e in
      let same : x ≡ y = cc in
      let test : q y ≡ true = subst (λ z. q z ≡ true) same (ground arith) in rw test refl
  | inr gone ↦
      let rest =
        every-any p q x xs ys
          (subst (λ b. (if b then y ∷ keep p ys else keep p ys) ≡ x ∷ xs) gone e) h in
      grind (arith, rest)
]

length-drop :
    (p : String → Bool) (xs : List String)
    → any p xs ≡ true
    → length (keep (λ x. not (p x)) xs) < length xs
length-drop p [] h = ground arith
length-drop p (x ∷ xs) h = grind (arith, length-drop p xs, length-keep-le (λ x. not (p x)) xs)

module _ (deps : String → List String) where
  -- With as much fuel as there are ids the loop ends.
  batch_loop-total :
      (fuel n : ℕ) (a : Assignments) (ids : List String)
      → length ids ≤ fuel
      → (r : BatchOutcome) × (batch_loop deps fuel n a ids ≡ some r)
  unfolding batch_loop next_batch
  batch_loop-total fuel n a [] h = (assigned_all a n, refl)
  batch_loop-total zero n a (id ∷ ids) h = absurd (omega arith)
  batch_loop-total (suc fuel) n a (id ∷ ids) h =
      from (next_batch deps a (id ∷ ids)) refl (batch_loop-total fuel)
    where
      Round : List String → Option BatchOutcome
      Round [] = some (circular a n (id ∷ ids))
      Round (b ∷ bs) =
          batch_loop deps fuel (n + 1) (assign_all (n + 1) (b ∷ bs) a)
            (keep (λ x. not (has_batch x (assign_all (n + 1) (b ∷ bs) a))) (id ∷ ids))

      from :
          (l : List String)
          → next_batch deps a (id ∷ ids) ≡ l
          → ((m : ℕ) (c : Assignments) (rest : List String)
              → length rest ≤ fuel
              → (r : BatchOutcome) × (batch_loop deps fuel m c rest ≡ some r))
          → (r : BatchOutcome) × (Round l ≡ some r)
      from [] e ih = (circular a n (id ∷ ids), refl)
      from (b ∷ bs) e ih =
          let c = assign_all (n + 1) (b ∷ bs) a in
          let shorter =
            length-drop (λ x. has_batch x c) (id ∷ ids)
              (every-any (λ x. every (λ d. has_batch d a) (deps x)) (λ x. has_batch x c) b bs
                (id ∷ ids) e (assign_all-has_batch (n + 1) (b ∷ bs) a)) in
          ih (n + 1) c (keep (λ x. not (has_batch x c)) (id ∷ ids)) (omega (arith, shorter))

-- `computeBatches` ends for all items and all ids that are selected: each round assigns a batch to an
-- item, or the rounds end with the error.
pub compute_batches-total :
    (items : List WorkItem) (selected : List String)
    → (r : BatchOutcome) × (compute_batches items selected ≡ some r)
unfolding compute_batches
compute_batches-total items selected =
    batch_loop-total (internal_deps items selected) (length (valid_ids items selected)) 0 []
      (valid_ids items selected) (omega arith)
