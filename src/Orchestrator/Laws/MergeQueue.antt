-- ===== src/Orchestrator/Laws/MergeQueue.antt =====
-- core/orchestrator.ts: which merge `prioritizeMergeActions` keeps.
use ninthwave.Prelude.{
  Bool-cases, Bool, true, false, not, ◌&&◌, ◌||◌, String, List, [], ◌∷◌, ◌≡◌, refl, subst, sym, ◌∙◌,
  inl, inr, arith, In, any, ap, Option, none, str_eq_iff, some, keep, length, every, if◌then◌else◌,
  str_eq, ltb, leb, ◌==◌,
}
use ninthwave.Orchestrator.Actions.{Action, item_id}
use ninthwave.Orchestrator.Item.{Item}
use ninthwave.Orchestrator.Store.{Store, get_item}
use ninthwave.Orchestrator.Poll.{
  is_merge, priority_num, deps_num, comes_first, insert_candidate, sort_candidates, candidates,
  keep_first, prioritize_merge_actions, for_each, move_to, ids_of,
}
use ninthwave.Orchestrator.Types.{ci_passed}
use ninthwave.Orchestrator.Transition.{Clock, Result, ok, illegal_transition, ◌>>=◌}

-- `c` goes before `d` whatever their ids are: its dependencies are merged and those of `d` are not, or
-- they agree in that and its priority is higher.
abbrev pub outranks : Store → Item → Item → Bool
outranks store c d =
    ltb (deps_num store c) (deps_num store d)
    || (deps_num store c == deps_num store d
        && ltb (priority_num c.work_item.priority) (priority_num d.work_item.priority))

-- No item of the list outranks this one.
abbrev pub is_best : Store → Item → List Item → Bool
is_best store first cs = every (λ c. not (outranks store c first)) cs

-- Every merge of the list is of this item.
abbrev pub merges_only : String → List Action → Bool
merges_only id actions = every (λ a. not (is_merge a) || str_eq (item_id a) id) actions

abbrev pub others_of : List Action → List Action
others_of actions = keep (λ a. not (is_merge a)) actions

module _ (precedes : String → String → Bool) (store : Store) where
  comes_first-outranks :
      (c d : Item) → comes_first precedes store c d ≡ true → outranks store d c ≡ false
  unfolding comes_first
  comes_first-outranks c d h = ground arith

  not_first-outranks :
      (c d : Item) → comes_first precedes store c d ≡ false → outranks store c d ≡ false
  unfolding comes_first
  not_first-outranks c d h = ground arith

is_best-weaken :
    (store : Store) (c d : Item) (ds : List Item)
    → outranks store d c ≡ false
    → is_best store d ds ≡ true
    → is_best store c ds ≡ true
is_best-weaken store c d [] h k = refl
is_best-weaken store c d (e ∷ es) h k = grind (arith, better, is_best-weaken store c d es h)
  where
    better : outranks store e d ≡ false → outranks store e c ≡ false
    better n = ground arith

-- No item of the list is outranked by one behind it.
abbrev ranked : Store → List Item → Bool
ranked store [] = true
ranked store (c ∷ cs) = is_best store c cs && ranked store cs

ranked-best :
    (store : Store) (c : Item) (cs : List Item)
    → ranked store (c ∷ cs) ≡ true
    → is_best store c (c ∷ cs) ≡ true
ranked-best store c cs h = ground arith

module _ (precedes : String → String → Bool) (store : Store) where
  insert_candidate-is_best :
      (first c : Item) (ds : List Item)
      → is_best store first (insert_candidate precedes store c ds)
        ≡ (not (outranks store c first) && is_best store first ds)
  unfolding insert_candidate
  insert_candidate-is_best first c [] = refl
  insert_candidate-is_best first c (d ∷ ds) = grind (arith, insert_candidate-is_best first c ds)

  sort_candidates-is_best :
      (first : Item) (cs : List Item)
      → is_best store first (sort_candidates precedes store cs) ≡ is_best store first cs
  unfolding sort_candidates
  sort_candidates-is_best first [] = refl
  sort_candidates-is_best first (c ∷ cs) = grind (
    arith,
    insert_candidate-is_best first c (sort_candidates precedes store cs),
    sort_candidates-is_best first cs,
  )

  insert_candidate-ranked :
      (c : Item) (ds : List Item)
      → ranked store ds ≡ true
      → ranked store (insert_candidate precedes store c ds) ≡ true
  unfolding insert_candidate
  insert_candidate-ranked c [] h = refl
  insert_candidate-ranked c (d ∷ ds) h = elim (Bool-cases (comes_first precedes store c d)) [
    | inl first ↦
        rw first
          (grind (arith, comes_first-outranks precedes store c d, is_best-weaken store c d ds))
    | inr later ↦ rw later (
        grind (
          arith,
          not_first-outranks precedes store c d,
          insert_candidate-is_best d c ds,
          insert_candidate-ranked c ds,
        ))
  ]

  sort_candidates-ranked :
      (cs : List Item) → ranked store (sort_candidates precedes store cs) ≡ true
  unfolding sort_candidates
  sort_candidates-ranked [] = refl
  sort_candidates-ranked (c ∷ cs) =
      insert_candidate-ranked c (sort_candidates precedes store cs) (sort_candidates-ranked cs)

  sort_candidates-best :
      (cs others : List Item) (first : Item)
      → sort_candidates precedes store cs ≡ first ∷ others
      → is_best store first cs ≡ true
  sort_candidates-best cs others first h =
      sym (sort_candidates-is_best first cs)
      ∙ rw h (
          ranked-best store first others
            (subst (λ l. ranked store l ≡ true) h (sort_candidates-ranked cs)))

-- A merge of the list is of this item.
abbrev pub has_merge_of : String → List Action → Bool
has_merge_of id actions = any (λ a. is_merge a && str_eq (item_id a) id) actions

insert_candidate-In :
    (precedes : String → String → Bool) (store : Store) (first c : Item) (ds : List Item)
    → In first (insert_candidate precedes store c ds)
    → In first (c ∷ ds)
unfolding insert_candidate
insert_candidate-In precedes store first c [] h = h
insert_candidate-In precedes store first c (d ∷ ds) h =
    from (comes_first precedes store c d) h (insert_candidate-In precedes store first c ds)
  where
    from :
        (b : Bool)
        → In first (if b then c ∷ d ∷ ds else d ∷ insert_candidate precedes store c ds)
        → (In first (insert_candidate precedes store c ds) → In first (c ∷ ds))
        → In first (c ∷ d ∷ ds)
    from true k ih = k
    from false (inl e) ih = inr (inl e)
    from false (inr k) ih = elim (ih k) [ inl e ↦ inl e | inr m ↦ inr (inr m) ]

sort_candidates-In :
    (precedes : String → String → Bool) (store : Store) (first : Item) (cs : List Item)
    → In first (sort_candidates precedes store cs)
    → In first cs
unfolding sort_candidates
sort_candidates-In precedes store first [] h = h
sort_candidates-In precedes store first (c ∷ cs) h =
    elim (insert_candidate-In precedes store first c (sort_candidates precedes store cs) h) [
      | inl e ↦ inl e
      | inr k ↦ inr (sort_candidates-In precedes store first cs k)
    ]

get_item-id :
    (id : String) (store : Store) (x : Item) → get_item id store ≡ some x → str_eq x.id id ≡ true
unfolding get_item
get_item-id id [] x h = ground arith
get_item-id id (item ∷ rest) x h = elim (Bool-cases (str_eq item.id id)) [
  | inl same ↦ grind arith
  | inr other ↦ grind (arith, get_item-id id rest x)
]

-- A candidate comes from a merge of it.
candidates-has_merge_of :
    (store : Store) (first : Item) (actions : List Action)
    → In first (candidates store actions)
    → has_merge_of first.id actions ≡ true
unfolding candidates
candidates-has_merge_of store first [] h = absurd h
candidates-has_merge_of store first (a ∷ rest) h =
    from (is_merge a) refl (get_item (item_id a) store) refl h
      (candidates-has_merge_of store first rest)
  where
    tracked : Option Item → List Item
    tracked none = candidates store rest
    tracked (some item) = item ∷ candidates store rest

    found : Bool → Option Item → List Item
    found b o = if b then tracked o else candidates store rest

    from :
        (b : Bool)
        → is_merge a ≡ b
        → (o : Option Item) → get_item (item_id a) store ≡ o
        → In first (found b o)
        → (In first (candidates store rest) → has_merge_of first.id rest ≡ true)
        → has_merge_of first.id (a ∷ rest) ≡ true
    from true m (some item) g (inl e) ih =
        let named : item_id a ≡ item.id =
          sym ((str_eq_iff item.id (item_id a)).0 (get_item-id (item_id a) store item g)) in
        let here : str_eq (item_id a) first.id ≡ true =
          (str_eq_iff (item_id a) first.id).1 (named ∙ ap (λ i. i.id) (sym e)) in
        ground (arith, m, here)
    from true m (some item) g (inr k) ih = ground (arith, ih k)
    from true m none g k ih = ground (arith, ih k)
    from false m o g k ih = ground (arith, ih k)

-- The actions that stay when the merges of this item do.
abbrev kept_with : String → List Action → List Action
kept_with id actions = keep (λ a. not (is_merge a) || str_eq (item_id a) id) actions

kept_with-merges_only :
    (id : String) (actions : List Action) → merges_only id (kept_with id actions) ≡ true
kept_with-merges_only id [] = refl
kept_with-merges_only id (a ∷ rest) = grind (arith, kept_with-merges_only id rest)

kept_with-others_of :
    (id : String) (actions : List Action) → others_of (kept_with id actions) ≡ others_of actions
kept_with-others_of id [] = refl
kept_with-others_of id (a ∷ rest) = grind (arith, kept_with-others_of id rest)

else_of {ℓ} :
    {A : Type ℓ} {z : A} (b : Bool) (x y : A) → b ≡ false → (if b then x else y) ≡ z → y ≡ z
else_of true x y f h = absurd (ground arith)
else_of false x y f h = h

after_revert :
    (m : Result (Store × List Action)) (actions kept : List Action) (s : Store)
    → some (◌>>=◌ {B = Store × List Action} m λ r. ok (r.0, actions)) ≡ some (ok (s, kept))
    → kept ≡ actions
after_revert (ok r) actions kept s h = ground arith
after_revert (illegal_transition a b) actions kept s h = ground arith

kept_with-has_merge_of :
    (id : String) (actions : List Action)
    → has_merge_of id actions ≡ true
    → has_merge_of id (kept_with id actions) ≡ true
kept_with-has_merge_of id [] h = h
kept_with-has_merge_of id (a ∷ rest) h = grind (arith, kept_with-has_merge_of id rest)

-- Where a poll returns several merges and the others can be put off, those that are left are all of one of
-- the candidates, the tracked items of these merges, and a merge of it is left; none of the candidates
-- outranks it, which means one whose dependencies are merged where its own are not, or one of higher
-- priority in the same case; and every other action stays, in order.
pub prioritize_merge_actions-best :
    (precedes : String → String → Bool) (clock : Clock) (actions kept : List Action)
    (store s : Store)
    → leb (length (keep is_merge actions)) 1 ≡ false
    → prioritize_merge_actions precedes clock actions store ≡ some (ok (s, kept))
    → (first : Item) × In first (candidates store actions)
      × (has_merge_of first.id kept ≡ true)
      × (merges_only first.id kept ≡ true)
      × (is_best store first (candidates store actions) ≡ true)
      × (others_of kept ≡ others_of actions)
unfolding prioritize_merge_actions keep_first
prioritize_merge_actions-best precedes clock actions kept store s several h =
    from sorted refl (else_of (leb (length (keep is_merge actions)) 1) _ _ several h)
  where
    sorted : List Item
    sorted = sort_candidates precedes store (candidates store actions)

    from :
        (l : List Item)
        → sorted ≡ l
        → keep_first clock actions store l ≡ some (ok (s, kept))
        → (first : Item) × In first (candidates store actions)
          × (has_merge_of first.id kept ≡ true)
          × (merges_only first.id kept ≡ true)
          × (is_best store first (candidates store actions) ≡ true)
          × (others_of kept ≡ others_of actions)
    from [] e k = absurd (ground arith)
    from (first ∷ others) e k =
        let same =
          after_revert (for_each (move_to clock ci_passed) (ids_of others) store)
            (kept_with first.id actions) kept s k in
        let chosen =
          sort_candidates-In precedes store first (candidates store actions)
            (subst (λ l. In first l) (sym e) (inl refl)) in
        (
          first,
          chosen,
          rw same (
              kept_with-has_merge_of first.id actions
                (candidates-has_merge_of store first actions chosen)),
          rw same (kept_with-merges_only first.id actions),
          sort_candidates-best precedes store (candidates store actions) others first e,
          rw same (kept_with-others_of first.id actions),
        )
