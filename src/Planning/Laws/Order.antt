-- ===== src/Planning/Laws/Order.antt =====
-- core/commands/batch-order.ts: the batches that `computeBatches` assigns respect the dependencies.
use ninthwave.Prelude.{
  ℕ, ◌+◌, ◌≤◌, ◌<◌, Bool, true, ◌&&◌, String, List, [], ◌∷◌, ◌++◌, ◌≡◌, refl, arith, inl, inr,
  Bool-cases, any, every, str_eq, ltb, leb,
}
use ninthwave.Planning.Batches.{Assignments, has_batch, assign, assign_all, next_batch}

-- The dependency has a batch before `k`.
abbrev pub is_earlier : String → ℕ → Assignments → Bool
is_earlier d k a = any (λ q. str_eq q.0 d && ltb q.1 k) a

abbrev pub all_earlier : List String → ℕ → Assignments → Bool
all_earlier ds k a = every (λ d. is_earlier d k a) ds

is_earlier-append :
    (d : String) (k : ℕ) (xs ys : Assignments)
    → is_earlier d k xs ≡ true
    → is_earlier d k (xs ++ ys) ≡ true
is_earlier-append d k [] ys h = ground arith
is_earlier-append d k (x ∷ xs) ys h = grind (arith, is_earlier-append d k xs ys)

all_earlier-append :
    (ds : List String) (k : ℕ) (xs ys : Assignments)
    → all_earlier ds k xs ≡ true
    → all_earlier ds k (xs ++ ys) ≡ true
all_earlier-append [] k xs ys h = refl
all_earlier-append (d ∷ ds) k xs ys h =
    grind (arith, is_earlier-append d k xs ys, all_earlier-append ds k xs ys)

-- A batch up to `n` is one before `n + 1`.
abbrev up_to : ℕ → Assignments → Bool
up_to n a = every (λ p. leb p.1 n) a

has_batch-is_earlier :
    (d : String) (n : ℕ) (a : Assignments)
    → up_to n a ≡ true
    → has_batch d a ≡ true
    → is_earlier d (n + 1) a ≡ true
has_batch-is_earlier d n [] h k = k
has_batch-is_earlier d n (p ∷ a) h k = grind (arith, has_batch-is_earlier d n a)

all_has-all_earlier :
    (ds : List String) (n : ℕ) (a : Assignments)
    → up_to n a ≡ true
    → every (λ d. has_batch d a) ds ≡ true
    → all_earlier ds (n + 1) a ≡ true
all_has-all_earlier [] n a h k = refl
all_has-all_earlier (d ∷ ds) n a h k =
    grind (arith, has_batch-is_earlier d n a h, all_has-all_earlier ds n a h)

module _ (deps : String → List String) where
  -- Each batch is from 1 to `n`, and those of the dependencies are before it in `whole`.
  abbrev pub ordered : Assignments → ℕ → Assignments → Bool
  ordered whole n a = every (λ p. leb 1 p.1 && (leb p.1 n && all_earlier (deps p.0) p.1 whole)) a

  -- The dependencies of each of these ids have batches before `n`.
  abbrev pub all_ready : ℕ → Assignments → List String → Bool
  all_ready n a ids = every (λ id. all_earlier (deps id) n a) ids

  ordered-grows :
      (xs ys : Assignments) (n m : ℕ) (a : Assignments)
      → n ≤ m
      → ordered xs n a ≡ true
      → ordered (xs ++ ys) m a ≡ true
  ordered-grows xs ys n m [] l h = refl
  ordered-grows xs ys n m (p ∷ a) l h =
      grind (arith, all_earlier-append (deps p.0) p.1 xs ys, ordered-grows xs ys n m a l)

  pub ordered-weaken :
      (xs : Assignments) (n m : ℕ) (a : Assignments)
      → n ≤ m
      → ordered xs n a ≡ true
      → ordered xs m a ≡ true
  ordered-weaken xs n m [] l h = refl
  ordered-weaken xs n m (p ∷ a) l h = grind (arith, ordered-weaken xs n m a l)

  pub ordered-up_to :
      (xs : Assignments) (n : ℕ) (a : Assignments) → ordered xs n a ≡ true → up_to n a ≡ true
  ordered-up_to xs n [] h = refl
  ordered-up_to xs n (p ∷ a) h = grind (arith, ordered-up_to xs n a)

  ordered-snoc :
      (whole : Assignments) (n : ℕ) (a : Assignments) (p : String × ℕ)
      → ordered whole n a ≡ true
      → ordered whole n (p ∷ []) ≡ true
      → ordered whole n (a ++ p ∷ []) ≡ true
  ordered-snoc whole n [] p h k = k
  ordered-snoc whole n (q ∷ a) p h k = grind (arith, ordered-snoc whole n a p)

  all_ready-grows :
      (n : ℕ) (xs ys : Assignments) (ids : List String)
      → all_ready n xs ids ≡ true
      → all_ready n (xs ++ ys) ids ≡ true
  all_ready-grows n xs ys [] h = refl
  all_ready-grows n xs ys (id ∷ ids) h =
      grind (arith, all_earlier-append (deps id) n xs ys, all_ready-grows n xs ys ids)

  -- What a round keeps: the order, and what the ids that follow wait for.
  assign-ordered :
      (n : ℕ) (id : String) (a : Assignments) (ids : List String)
      → 0 < n
      → ordered a n a ≡ true
      → all_ready n a (id ∷ ids) ≡ true
      → (ordered (assign n id a) n (assign n id a) ≡ true)
        × (all_ready n (assign n id a) ids ≡ true)
  assign-ordered n id a ids l h k = elim (Bool-cases (has_batch id a)) [
    | inl old ↦ rw old (h, ground arith)
    | inr new ↦ rw new (
      ordered-snoc (a ++ (id, n) ∷ []) n a (id, n)
          (ordered-grows a ((id, n) ∷ []) n n a (omega arith) h)
          (grind (arith, all_earlier-append (deps id) n a ((id, n) ∷ []))),
      all_ready-grows n a ((id, n) ∷ []) ids (ground arith),
    )
  ]

  pub assign_all-ordered :
      (n : ℕ) (ids : List String) (a : Assignments)
      → 0 < n
      → ordered a n a ≡ true
      → all_ready n a ids ≡ true
      → ordered (assign_all n ids a) n (assign_all n ids a) ≡ true
  unfolding assign_all
  assign_all-ordered n [] a l h k = h
  assign_all-ordered n (id ∷ ids) a l h k =
      let step = assign-ordered n id a ids l h k in
      assign_all-ordered n ids (assign n id a) l step.0 step.1

  pub next_batch-all_ready :
      (n : ℕ) (a : Assignments) (ids : List String)
      → up_to n a ≡ true
      → all_ready (n + 1) a (next_batch deps a ids) ≡ true
  unfolding next_batch
  next_batch-all_ready n a [] h = refl
  next_batch-all_ready n a (id ∷ ids) h =
      grind (arith, all_has-all_earlier (deps id) n a h, next_batch-all_ready n a ids h)
