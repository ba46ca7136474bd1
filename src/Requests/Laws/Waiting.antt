-- ===== src/Requests/Laws/Waiting.antt =====
-- core/request-queue.ts: how long a waiter waits.
use mathlib.Core.List.{append_assoc}
use ninthwave.Prelude.{
  Bool-cases, ℕ, suc, ◌+◌, ◌≤◌, ◌<◌, Bool, true, List, [], ◌∷◌, ◌++◌, ◌≡◌, refl, sym, ap, subst,
  ◌∙◌, ◌⊎◌, inl, inr, arith, Option, none, some, every, count, count-append, In, Splits,
  split-Splits, ltb, leb,
}
use ninthwave.Requests.Semaphore.{WaitEntry, order_of, Semaphore, acquire, release}
use ninthwave.Requests.Laws.Wakes.{IsPick, IsRelease, release-IsRelease, all_after, none_before}

-- What can happen to a semaphore.
pub data Event : Type 0 where
  arrives : WaitEntry → Event
  releases : Event

-- The waiters that a sequence of events wakes, in order. It ends at a release with nothing to release.
unfoldable pub woken_by : List Event → Semaphore → List WaitEntry
woken_by [] s = []
woken_by (arrives w ∷ es) s = woken_by es (acquire w s).0
woken_by (releases ∷ es) s = elim (release s) [
  | none ↦ []
  | some (after, none) ↦ woken_by es after
  | some (after, some w) ↦ w ∷ woken_by es after
]

abbrev pub release_count : List Event → ℕ
release_count [] = 0
release_count (arrives w ∷ es) = release_count es
release_count (releases ∷ es) = suc (release_count es)

abbrev pub arrivals : List Event → List WaitEntry
arrivals [] = []
arrivals (arrives w ∷ es) = w ∷ arrivals es
arrivals (releases ∷ es) = arrivals es

-- How many waiters are served before `w`, which stands between those ahead of it and those behind it.
abbrev pub turns : WaitEntry → List WaitEntry → List WaitEntry → ℕ
turns w ahead behind =
    count (λ v. leb (order_of v) (order_of w)) ahead
    + count (λ v. ltb (order_of v) (order_of w)) behind

-- After a release `w` is woken, or waits for one turn less.
abbrev Nearer : WaitEntry → ℕ → WaitEntry → List WaitEntry → Type 0
Nearer w n woken queue =
    (w ≡ woken)
    ⊎ ((ahead : List WaitEntry) × (behind : List WaitEntry) × (queue ≡ ahead ++ w ∷ behind)
        × (turns w ahead behind + 1 ≤ n))

every-split :
    (p : WaitEntry → Bool) (xs ys : List WaitEntry) (w : WaitEntry)
    → every p (xs ++ w ∷ ys) ≡ true
    → p w ≡ true
every-split p [] ys w h = ground arith
every-split p (x ∷ xs) ys w h = grind (arith, every-split p xs ys w)

pick-Nearer :
    (w v : WaitEntry) (ahead behind kept : List WaitEntry)
    → IsPick (ahead ++ w ∷ behind) v kept
    → Nearer w (turns w ahead behind) v kept
pick-Nearer w v ahead behind kept (d, c, e, k, h, l) = from (split-Splits ahead behind d c w v e)
  where
    upto : WaitEntry → Bool
    upto x = leb (order_of x) (order_of w)

    under : WaitEntry → Bool
    under x = ltb (order_of x) (order_of w)

    passed :
        (m : List WaitEntry)
        → ahead ≡ d ++ v ∷ m
        → c ≡ m ++ w ∷ behind
        → turns w (d ++ m) behind + 1 ≤ turns w ahead behind
    passed m p q =
        let test : upto v ≡ true =
          every-split (λ x. leb (order_of v) (order_of x)) m behind w
            (subst (λ l. none_before v l ≡ true) q l) in
        grind (arith, ap (count upto) p, count-append upto d (v ∷ m), count-append upto d m, test)

    passed_behind :
        (m : List WaitEntry)
        → d ≡ ahead ++ w ∷ m
        → behind ≡ m ++ v ∷ c
        → turns w ahead (m ++ c) + 1 ≤ turns w ahead behind
    passed_behind m p q =
        let test : under v ≡ true =
          every-split (λ x. ltb (order_of v) (order_of x)) ahead m w
            (subst (λ l. all_after v l ≡ true) p h) in
        grind
          (arith, ap (count under) q, count-append under m (v ∷ c), count-append under m c, test)

    from : Splits ahead behind d c w v → Nearer w (turns w ahead behind) v kept
    from (inl (p, q, r)) = inl p
    from (inr (inl (m, p, q))) =
        inr (
          d ++ m,
          behind,
          k ∙ ap (λ l. d ++ l) q ∙ sym (append_assoc d m (w ∷ behind)),
          passed m p q,
        )
    from (inr (inr (m, p, q))) =
        inr (
          ahead,
          m ++ c,
          k ∙ ap (λ l. l ++ c) p ∙ append_assoc ahead (w ∷ m) c,
          passed_behind m p q,
        )

-- An arrival that is not of higher priority takes no turn before `w`.
acquire-turns :
    (s : Semaphore) (v w : WaitEntry) (ahead behind : List WaitEntry)
    → s.wait_queue ≡ ahead ++ w ∷ behind
    → leb (order_of w) (order_of v) ≡ true
    → (later : List WaitEntry) × ((acquire v s).0.wait_queue ≡ ahead ++ w ∷ later)
      × (turns w ahead later ≡ turns w ahead behind)
unfolding acquire
acquire-turns s v w ahead behind e h = elim (Bool-cases (ltb s.running s.max_concurrency)) [
  | inl free ↦ (behind, rw free e, refl)
  | inr full ↦ (
    behind ++ v ∷ [],
    rw full (ap (λ l. l ++ v ∷ []) e ∙ append_assoc ahead (w ∷ behind) (v ∷ [])),
    grind (arith, count-append (λ x. ltb (order_of x) (order_of w)) behind (v ∷ [])),
  )
]

not_empty : (w : WaitEntry) (ahead behind : List WaitEntry) → [] ≡ ahead ++ w ∷ behind → ⊥
not_empty w [] behind h = cc
not_empty w (x ∷ ahead) behind h = cc

-- A waiter is woken once there are more releases than waiters that are served before it, provided that
-- those that arrive meanwhile are not of higher priority. (No request is of higher priority than a
-- critical one.)
pub woken_by-In :
    (es : List Event) (s : Semaphore) (w : WaitEntry) (ahead behind : List WaitEntry)
    → s.wait_queue ≡ ahead ++ w ∷ behind
    → none_before w (arrivals es) ≡ true
    → turns w ahead behind < release_count es
    → In w (woken_by es s)
unfolding woken_by
woken_by-In [] s w ahead behind e h n = absurd (omega arith)
woken_by-In (arrives v ∷ es) s w ahead behind e h n =
    let (later, e', same) = acquire-turns s v w ahead behind e (ground arith) in
    woken_by-In es (acquire v s).0 w ahead later e' (ground arith) (omega arith)
woken_by-In (releases ∷ es) s w ahead behind e h n =
    from (woken_by-In es) (release s) (release-IsRelease s)
  where
    Later : Option (Semaphore × Option WaitEntry) → List WaitEntry
    Later none = []
    Later (some (after, none)) = woken_by es after
    Later (some (after, some v)) = v ∷ woken_by es after

    from :
        ((t : Semaphore) (u : WaitEntry) (a b : List WaitEntry)
          → t.wait_queue ≡ a ++ u ∷ b
          → none_before u (arrivals es) ≡ true
          → turns u a b < release_count es
          → In u (woken_by es t))
        → (r : Option (Semaphore × Option WaitEntry)) → IsRelease s r
        → In w (Later r)
    from ih none k = absurd (not_empty w ahead behind (sym k.1 ∙ e))
    from ih (some (after, none)) k = absurd (not_empty w ahead behind (sym k.0 ∙ e))
    from ih (some (after, some v)) k = next (
        pick-Nearer w v ahead behind after.wait_queue
          (subst (λ q. IsPick q v after.wait_queue) e k.0))
      where
        next : Nearer w (turns w ahead behind) v after.wait_queue → In w (v ∷ woken_by es after)
        next (inl same) = inl same
        next (inr (a, b, q, m)) = inr (ih after w a b q h (omega arith))
