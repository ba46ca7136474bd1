-- ===== src/Requests/Laws/Categories.antt =====
-- core/request-queue.ts: the counts of the categories.
use ninthwave.Prelude.{
  ℕ, suc, ◌+◌, Bool, true, false, String, List, [], ◌∷◌, ◌++◌, ◌≡◌, refl, sym, ap, subst, ◌∙◌,
  arith, inl, inr, Option, none, some, count, count-append, length, if◌then◌else◌, ◌==◌, ltb,
  str_eq, str_eq_iff, Bool-cases,
}
use ninthwave.Requests.Bucket.{Bucket, acquire_token}
use ninthwave.Requests.Semaphore.{WaitEntry, Semaphore, release}
use ninthwave.Requests.Queue.{
  RequestQueue, InFlightEntry, CategoryAccumulator, take_rate, take_slot, start_request, find_entry,
  delete_key, record_completion, check_drain, finish_request, drain,
}
use ninthwave.Requests.Laws.Flow.{
  Runs, begins, budget, rates, slots, starts, ends, drains, IsSlotted, Runs-IsSlotted,
}

-- The count of a category, which is 0 where it has no accumulator.
abbrev pub count_in : String → List (String × CategoryAccumulator) → ℕ
count_in c [] = 0
count_in c (p ∷ rest) = if str_eq p.0 c then p.1.count else count_in c rest

abbrev pub in_flight_of : String → List (ℕ × InFlightEntry) → ℕ
in_flight_of c es = count (λ p. str_eq p.1.category c) es

abbrev pub is_one : Bool → ℕ
is_one true = 1
is_one false = 0

same_text : (a b c : String) → str_eq a b ≡ true → str_eq a c ≡ str_eq b c
same_text a b c h = ap (λ x. str_eq x c) ((str_eq_iff a b).0 h)

other_text : (a b c : String) → str_eq a b ≡ false → str_eq a c ≡ true → str_eq b c ≡ false
other_text a b c h k = elim (Bool-cases (str_eq b c)) [
  | inl same ↦
      let e = (str_eq_iff a c).0 k ∙ sym ((str_eq_iff b c).0 same) in
      absurd (ground (arith, (str_eq_iff a b).1 e))
  | inr other ↦ other
]

count_in-record_completion :
    (c d : String) (l : ℕ) (f : Bool) (cs : List (String × CategoryAccumulator))
    → count_in d (record_completion c l f cs) ≡ count_in d cs + is_one (str_eq c d)
unfolding record_completion
count_in-record_completion c d l f [] = ground arith
count_in-record_completion c d l f (p ∷ rest) =
    grind (arith, same_text p.0 c d, other_text p.0 c d, count_in-record_completion c d l f rest)

first_of :
    (b : Bool) (x e : InFlightEntry) (o : Option InFlightEntry)
    → b ≡ true
    → (if b then some x else o) ≡ some e
    → x ≡ e
first_of true x e o b h = cc
first_of false x e o b h = absurd (ground arith)

in_flight_of-delete_key :
    (key : ℕ) (c : String) (es : List (ℕ × InFlightEntry)) (e : InFlightEntry)
    → find_entry key es ≡ some e
    → in_flight_of c (delete_key key es) + is_one (str_eq e.category c) ≡ in_flight_of c es
unfolding find_entry delete_key
in_flight_of-delete_key key c [] e h = ground arith
in_flight_of-delete_key key c (p ∷ rest) e h = elim (Bool-cases (p.0 == key)) [
  | inl here ↦
      let same : p.1 ≡ e = first_of (p.0 == key) p.1 e (find_entry key rest) here h in
      rw here (ground (arith, ap (λ i. str_eq i.category c) same))
  | inr later ↦ grind (arith, in_flight_of-delete_key key c rest e)
]

-- Each category's requests that started are in flight or counted under it.
abbrev IsCategorised : RequestQueue → List String → Type 0
IsCategorised q started =
    (q.total_requests ≡ length started)
    × ((c : String)
        → in_flight_of c q.in_flight + count_in c q.categories ≡ count (λ s. str_eq s c) started)

take_rate-IsCategorised :
    (c : String) (rs : List ℕ) (q q' : RequestQueue) (started : List String)
    → IsCategorised q started
    → take_rate c rs q ≡ some q'
    → IsCategorised q' started
unfolding take_rate
take_rate-IsCategorised c rs q q' started h e = from (acquire_token c rs q.token_bucket) e
  where
    moved : Option Bucket → Option RequestQueue
    moved none = none
    moved (some b) = some (record q { token_bucket = b })

    from : (o : Option Bucket) → moved o ≡ some q' → IsCategorised q' started
    from none k = absurd (ground arith)
    from (some b) k =
        let same : record q { token_bucket = b } ≡ q' = cc in
        subst (λ x. IsCategorised x started) same h

start_request-IsCategorised :
    (key : ℕ) (entry : InFlightEntry) (q : RequestQueue) (started : List String)
    → IsCategorised q started
    → IsCategorised (start_request key entry q) (entry.category ∷ started)
unfolding start_request
start_request-IsCategorised key entry q started h = (omega (arith, h.0), each)
  where
    each :
        (c : String)
        → in_flight_of c (q.in_flight ++ (key, entry) ∷ []) + count_in c q.categories
          ≡ count (λ s. str_eq s c) (entry.category ∷ started)
    each c = ground (
      arith,
      h.1 c,
      count-append {0} (λ p. str_eq p.1.category c) q.in_flight ((key, entry) ∷ []),
    )

finish_request-IsCategorised :
    (key latency_ms : ℕ) (entry : InFlightEntry) (failed : Bool) (q q' : RequestQueue)
    (started : List String) (woken : Option WaitEntry)
    → IsCategorised q started
    → find_entry key q.in_flight ≡ some entry
    → finish_request key entry.category latency_ms failed q ≡ some (q', woken)
    → IsCategorised q' started
unfolding finish_request
finish_request-IsCategorised key latency_ms entry failed q q' started woken h k e =
    from (release q.semaphore) e
  where
    finished : Semaphore → RequestQueue
    finished after = check_drain (record q {
      semaphore = after;
      categories = record_completion entry.category latency_ms failed q.categories;
      in_flight = delete_key key q.in_flight;
    })

    each :
        (c : String)
        → in_flight_of c (delete_key key q.in_flight)
            + count_in c (record_completion entry.category latency_ms failed q.categories)
          ≡ count (λ s. str_eq s c) started
    each c = omega (
      arith,
      h.1 c,
      in_flight_of-delete_key key c q.in_flight entry k,
      count_in-record_completion entry.category c latency_ms failed q.categories,
    )

    ended : Option (Semaphore × Option WaitEntry) → Option (RequestQueue × Option WaitEntry)
    ended none = none
    ended (some r) = some (finished r.0, r.1)

    from :
        (o : Option (Semaphore × Option WaitEntry))
        → ended o ≡ some (q', woken)
        → IsCategorised q' started
    from none f = absurd (ground arith)
    from (some (after, w)) f =
        let same : finished after ≡ q' = cc in subst (λ x. IsCategorised x started) same (h.0, each)

drain-IsCategorised :
    (q : RequestQueue) (started : List String)
    → IsCategorised q started
    → IsCategorised (drain q).0 started
unfolding drain
drain-IsCategorised q started h = from (ltb 0 (length q.in_flight))
  where
    drained : Bool → RequestQueue × Bool
    drained b = if b then (record q { draining = true }, false) else (q, true)

    from : (b : Bool) → IsCategorised (drained b).0 started
    from true = h
    from false = h

Runs-IsCategorised :
    (bucket : Bucket) (limit : ℕ) (q : RequestQueue) (n : ℕ) (started : List String)
    → Runs bucket limit q n started
    → IsCategorised q started
unfolding take_slot
Runs-IsCategorised bucket limit _ _ _ begins = (refl, λ c. refl)
Runs-IsCategorised bucket limit _ n s (budget remaining reset_at now {q = q} r) =
    Runs-IsCategorised bucket limit q n s r
Runs-IsCategorised bucket limit q' n s (rates category readings {q = q} r e) =
    take_rate-IsCategorised category readings q q' s (Runs-IsCategorised bucket limit q n s r) e
Runs-IsCategorised bucket limit _ _ s (slots w {q = q} {n = n} r) =
    Runs-IsCategorised bucket limit q n s r
Runs-IsCategorised bucket limit _ n _ (starts key entry {q = q} {started = s} r) =
    start_request-IsCategorised key entry q s (Runs-IsCategorised bucket limit q (suc n) s r)
Runs-IsCategorised bucket limit q' _ s
      (ends key latency_ms entry failed {q = q} {n = n} woken r k e) =
    finish_request-IsCategorised key latency_ms entry failed q q' s woken
      (Runs-IsCategorised bucket limit q n s r) k e
Runs-IsCategorised bucket limit _ n s (drains {q = q} r) =
    drain-IsCategorised q s (Runs-IsCategorised bucket limit q n s r)

-- The account of a queue's slots and drain, and of the requests that started.
abbrev pub IsAccounted : ℕ → RequestQueue → ℕ → List String → Type 0
IsAccounted limit q n started =
    IsSlotted limit q n
    × (q.total_requests ≡ length started)
    × ((c : String)
        → in_flight_of c q.in_flight + count_in c q.categories ≡ count (λ s. str_eq s c) started)

-- Whatever happens to a queue: each slot in use belongs to a request in flight or to one that has not
-- started yet, and there are at most as many as the limit; a drain waits only while a request is in flight;
-- the total is that of the requests that started; and for every category, of these as many as have that
-- category are in flight under it or counted by its accumulator.
pub Runs-IsAccounted :
    (bucket : Bucket) (limit : ℕ) (q : RequestQueue) (n : ℕ) (started : List String)
    → Runs bucket limit q n started
    → IsAccounted limit q n started
Runs-IsAccounted bucket limit q n started r =
    let c = Runs-IsCategorised bucket limit q n started r in
    (Runs-IsSlotted bucket limit q n started r, c.0, c.1)
