-- ===== src/Requests/Laws/Wakes.antt =====
-- core/request-queue.ts: the waiter that `release` wakes.
use mathlib.Core.List.{append-nil, append_assoc}
use ninthwave.Prelude.{
  ℕ, suc, ◌+◌, Bool, true, List, [], ◌∷◌, ◌++◌, ◌≡◌, refl, sym, ap, subst, ◌∙◌, inl, inr, arith,
  Option, none, some, every, length, length-append, ltb, leb, Bool-cases,
}
use ninthwave.Requests.Semaphore.{
  WaitEntry, order_of, Semaphore, best_index, splice, release_from, release,
}

-- Each of the waiters is of lower priority than `w`, or of no higher one.
abbrev pub all_after : WaitEntry → List WaitEntry → Bool
all_after w ws = every (λ v. ltb (order_of w) (order_of v)) ws

abbrev pub none_before : WaitEntry → List WaitEntry → Bool
none_before w ws = every (λ v. leb (order_of w) (order_of v)) ws

-- The queue `q` gives up its first waiter of the highest priority, and the order of the rest stays.
abbrev pub IsPick : List WaitEntry → WaitEntry → List WaitEntry → Type 0
IsPick q w rest =
    (ahead : List WaitEntry) × (behind : List WaitEntry) × (q ≡ ahead ++ w ∷ behind)
    × (rest ≡ ahead ++ behind)
    × (all_after w ahead ≡ true)
    × (none_before w behind ≡ true)

every-append :
    (p : WaitEntry → Bool) (xs ys : List WaitEntry)
    → every p xs ≡ true
    → every p ys ≡ true
    → every p (xs ++ ys) ≡ true
every-append p [] ys h k = k
every-append p (x ∷ xs) ys h k = grind (arith, every-append p xs ys)

splice-append :
    (ahead : List WaitEntry) (w : WaitEntry) (behind : List WaitEntry)
    → splice (length ahead) (ahead ++ w ∷ behind) ≡ (some w, ahead ++ behind)
unfolding splice
splice-append [] w behind = refl
splice-append (v ∷ ahead) w behind = rw (splice-append ahead w behind) refl

all_after-lower :
    (v w : WaitEntry) (ws : List WaitEntry)
    → ltb (order_of v) (order_of w) ≡ true
    → none_before w ws ≡ true
    → all_after v ws ≡ true
all_after-lower v w [] h k = refl
all_after-lower v w (x ∷ ws) h k = grind (arith, all_after-lower v w ws)

all_after-weaken :
    (w : WaitEntry) (ws : List WaitEntry) → all_after w ws ≡ true → none_before w ws ≡ true
all_after-weaken w [] h = refl
all_after-weaken w (x ∷ ws) h = grind (arith, all_after-weaken w ws)

-- The index at which the loop ends, from a prefix of which `b`, at index `at_b`, is the best.
best_index-IsPick :
    (ahead : List WaitEntry) (b : WaitEntry) (mid rest q : List WaitEntry) (i at_b : ℕ)
    → q ≡ ahead ++ b ∷ (mid ++ rest)
    → at_b ≡ length ahead
    → i ≡ length ahead + suc (length mid)
    → all_after b ahead ≡ true
    → none_before b mid ≡ true
    → (w : WaitEntry) × (kept : List WaitEntry) × (splice (best_index i at_b (order_of b) rest) q
        ≡ (some w, kept))
      × IsPick q w kept
unfolding best_index
best_index-IsPick ahead b mid [] q i at_b e m n h k =
    let e' : q ≡ ahead ++ b ∷ mid = e ∙ ap (λ l. ahead ++ b ∷ l) (append-nil mid) in
    (b, ahead ++ mid, rw (m, e') (splice-append ahead b mid), (ahead, mid, e', refl, h, k))
best_index-IsPick ahead b mid (v ∷ rest) q i at_b e m n h k =
    elim (Bool-cases (ltb (order_of v) (order_of b))) [
      | inl better ↦ rw better (
          best_index-IsPick (ahead ++ b ∷ mid) v [] rest q (i + 1) i
            (e ∙ sym (append_assoc ahead (b ∷ mid) (v ∷ rest)))
            (n ∙ sym (length-append ahead (b ∷ mid)))
            (ap (λ l. l + 1) (n ∙ sym (length-append ahead (b ∷ mid))))
            (every-append (λ x. ltb (order_of v) (order_of x)) ahead (b ∷ mid)
              (all_after-lower v b ahead better (all_after-weaken b ahead h))
              (rw better (all_after-lower v b mid better k)))
            refl)
      | inr worse ↦ rw worse (
          best_index-IsPick ahead b (mid ++ v ∷ []) rest q (i + 1) at_b
            (e ∙ ap (λ l. ahead ++ b ∷ l) (sym (append_assoc mid (v ∷ []) rest))) m
            (omega (arith, n, length-append {0} mid (v ∷ []))) h
            (every-append (λ x. leb (order_of b) (order_of x)) mid (v ∷ []) k
              (ground (arith, worse))))
    ]

-- What a release does to the semaphore.
abbrev pub IsRelease : Semaphore → Option (Semaphore × Option WaitEntry) → Type 0
IsRelease s none = (s.running ≡ 0) × (s.wait_queue ≡ [])
IsRelease s (some (after, none)) =
    (s.wait_queue ≡ [])
    × (after.wait_queue ≡ [])
    × (after.running + 1 ≡ s.running)
    × (after.max_concurrency ≡ s.max_concurrency)
IsRelease s (some (after, some w)) =
    IsPick s.wait_queue w after.wait_queue
    × (after.running ≡ s.running)
    × (after.max_concurrency ≡ s.max_concurrency)

-- A release with waiters wakes the first of those of the highest priority, keeps the others in their
-- order and passes the slot on, so `running` stays; with none waiting it frees the slot; and only with
-- no waiter and no slot in use there is nothing to release.
pub release-IsRelease : (s : Semaphore) → IsRelease s (release s)
unfolding release
release-IsRelease s = from s.wait_queue refl
  where
    from : (l : List WaitEntry) → s.wait_queue ≡ l → IsRelease s (release_from l s)
    from [] e = ground arith
    from (w ∷ rest) e =
        let best = best_index-IsPick [] w [] rest (w ∷ rest) 1 0 refl refl refl refl refl in
        subst
          (λ (r : Option WaitEntry × List WaitEntry).
            IsRelease s (some (record s { wait_queue = r.1 }, r.0)))
          (sym best.2) (subst (λ q. IsPick q best.0 best.1) (sym e) best.3, refl, refl)
