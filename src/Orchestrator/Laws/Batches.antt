-- ===== src/Orchestrator/Laws/Batches.antt =====
-- core/orchestrator.ts: what the feedback batch holds, and in which order.
use ninthwave.Prelude.{
  ℕ, ◌+◌, ◌≤◌, Bool, true, false, ◌&&◌, ◌||◌, List, [], ◌∷◌, ◌≡◌, refl, sym, inl, inr, Bool-cases,
  arith, some, Option, any, every, leb, ◌==◌, is_empty, str_eq, str_eq_iff, str_eq_refl, String,
}
use ninthwave.Orchestrator.Types.{human_feedback_debounce}
use ninthwave.Orchestrator.Actions.{Comment, CommentType, Batch}
use ninthwave.Orchestrator.Item.{Item, ItemSnapshot}
use ninthwave.Orchestrator.Feedback.{
  same_key, put_by_key, put_all, insert_by_time, sort_by_time, human_feedback_comments,
  ingest_pending_feedback_batch, ingest_human, ingest_comments, gathered, latest_created_at,
  batch_comments, batch_deadline, same_type, same_number,
}

-- A comment with this one's key is in the list.
abbrev pub has : Comment → List Comment → Bool
has c ds = any (λ d. same_key d c) ds

same_type_join :
    (d c e : Option CommentType)
    → same_type d c ≡ true
    → same_type d e ≡ true
    → same_type c e ≡ true
same_type_join d c e h k = ground arith

same_number_join :
    (d c e : Option ℕ) → same_number d c ≡ true → same_number d e ≡ true → same_number c e ≡ true
same_number_join d c e h k = ground arith

str_eq_join : (d c e : String) → str_eq d c ≡ true → str_eq d e ≡ true → str_eq c e ≡ true
str_eq_join d c e h k = rw (sym ((str_eq_iff d c).0 h), (str_eq_iff d e).0 k) (str_eq_refl e)

and-join :
    {p' q' r' : Bool} (p q r : Bool)
    → (p ≡ true → q ≡ true → r ≡ true)
    → (p' ≡ true → q' ≡ true → r' ≡ true)
    → (p && p') ≡ true
    → (q && q') ≡ true
    → (r && r') ≡ true
and-join p q r f g h k = ground arith

-- Two comments with the key of a third have the same key.
same_key_join : (d c e : Comment) → same_key d c ≡ true → same_key d e ≡ true → same_key c e ≡ true
unfolding same_key
same_key_join d c e h k =
    and-join (same_type d.comment_type c.comment_type) (same_type d.comment_type e.comment_type) _
      (same_type_join d.comment_type c.comment_type e.comment_type)
      (and-join (same_number d.id c.id) (same_number d.id e.id) _ (same_number_join d.id c.id e.id)
        (and-join (d.created_at == c.created_at) (d.created_at == e.created_at) _ (ground arith) (
          and-join (str_eq d.author c.author) (str_eq d.author e.author) _
            (str_eq_join d.author c.author e.author) (str_eq_join d.body c.body e.body))))
      h k

put_by_key-has_like :
    (c e : Comment) (ds : List Comment) → same_key c e ≡ true → has e (put_by_key c ds) ≡ true
unfolding put_by_key
put_by_key-has_like c e [] h = grind arith
put_by_key-has_like c e (d ∷ ds) h = grind (arith, put_by_key-has_like c e ds h)

put_by_key-keeps :
    (c e : Comment) (ds : List Comment) → has e ds ≡ true → has e (put_by_key c ds) ≡ true
unfolding put_by_key
put_by_key-keeps c e [] h = ground arith
put_by_key-keeps c e (d ∷ ds) h = grind (arith, same_key_join d c e, put_by_key-keeps c e ds)

put_all-keeps :
    (e : Comment) (cs ds : List Comment) → has e ds ≡ true → has e (put_all cs ds) ≡ true
unfolding put_all
put_all-keeps e [] ds h = h
put_all-keeps e (c ∷ cs) ds h = put_all-keeps e cs (put_by_key c ds) (put_by_key-keeps c e ds h)

insert_by_time-any :
    (p : Comment → Bool) (c : Comment) (ds : List Comment)
    → any p (insert_by_time c ds) ≡ (p c || any p ds)
unfolding insert_by_time
insert_by_time-any p c [] = refl
insert_by_time-any p c (d ∷ ds) = grind (arith, insert_by_time-any p c ds)

sort_by_time-any : (p : Comment → Bool) (cs : List Comment) → any p (sort_by_time cs) ≡ any p cs
unfolding sort_by_time
sort_by_time-any p [] = refl
sort_by_time-any p (c ∷ cs) =
    grind (arith, insert_by_time-any p c (sort_by_time cs), sort_by_time-any p cs)

-- No comment of the list is older than `t`.
abbrev since : ℕ → List Comment → Bool
since t cs = every (λ c. leb t c.created_at) cs

-- Each comment is at most as late as those behind it.
abbrev pub in_order : List Comment → Bool
in_order [] = true
in_order (c ∷ cs) = since c.created_at cs && in_order cs

insert_by_time-since :
    (t : ℕ) (c : Comment) (ds : List Comment)
    → leb t c.created_at ≡ true
    → since t ds ≡ true
    → since t (insert_by_time c ds) ≡ true
unfolding insert_by_time
insert_by_time-since t c [] h k = grind arith
insert_by_time-since t c (d ∷ ds) h k = grind (arith, insert_by_time-since t c ds h)

since-weaken :
    (t u : ℕ) (ds : List Comment) → leb t u ≡ true → since u ds ≡ true → since t ds ≡ true
since-weaken t u [] h k = refl
since-weaken t u (d ∷ ds) h k = grind (arith, since-weaken t u ds h)

insert_by_time-in_order :
    (c : Comment) (ds : List Comment) → in_order ds ≡ true → in_order (insert_by_time c ds) ≡ true
unfolding insert_by_time
insert_by_time-in_order c [] h = refl
insert_by_time-in_order c (d ∷ ds) h = grind (
  arith,
  insert_by_time-in_order c ds,
  insert_by_time-since d.created_at c ds,
  since-weaken c.created_at d.created_at ds,
)

sort_by_time-in_order : (cs : List Comment) → in_order (sort_by_time cs) ≡ true
unfolding sort_by_time
sort_by_time-in_order [] = refl
sort_by_time-in_order (c ∷ cs) =
    insert_by_time-in_order c (sort_by_time cs) (sort_by_time-in_order cs)

put_all-has : (e : Comment) (cs ds : List Comment) → has e cs ≡ true → has e (put_all cs ds) ≡ true
unfolding put_all
put_all-has e [] ds h = ground arith
put_all-has e (c ∷ cs) ds h = elim (Bool-cases (same_key c e)) [
  | inl here ↦ put_all-keeps e cs (put_by_key c ds) (put_by_key-has_like c e ds here)
  | inr other ↦ put_all-has e cs (put_by_key c ds) (ground arith)
]

gathered-has :
    (e : Comment) (humans : List Comment) (before : Option Batch)
    → (has e humans || has e (batch_comments before)) ≡ true
    → has e (gathered humans before) ≡ true
gathered-has e humans before h = grind (
  arith,
  sort_by_time-any (λ d. same_key d e) (put_all humans (put_all (batch_comments before) [])),
  put_all-has e humans (put_all (batch_comments before) []),
  put_all-keeps e humans (put_all (batch_comments before) []),
  put_all-has e (batch_comments before) [],
)

-- `ingestPendingFeedbackBatch` loses no human comment: each one of the snapshot, and each one of the batch
-- that the item had before the call, is in the batch that the item has after the call.
pub ingest-has :
    (snap : ItemSnapshot) (item : Item) (e : Comment)
    → (has e (human_feedback_comments snap.new_comments)
        || has e (batch_comments item.pending_feedback_batch))
      ≡ true
    → has e (batch_comments (ingest_pending_feedback_batch snap item).pending_feedback_batch) ≡ true
unfolding ingest_pending_feedback_batch human_feedback_comments
ingest-has snap item e h = from snap.new_comments h
  where
    added :
        (humans : List Comment) (i : Item)
        → (has e humans || has e (batch_comments i.pending_feedback_batch)) ≡ true
        → has e (batch_comments (ingest_human humans i).pending_feedback_batch) ≡ true
    added [] i k = k
    added (c ∷ cs) i k = gathered-has e (c ∷ cs) i.pending_feedback_batch k

    from :
        (cs : List Comment)
        → (has e (human_feedback_comments cs) || has e (batch_comments item.pending_feedback_batch))
          ≡ true
        → has e (batch_comments (ingest_comments cs item).pending_feedback_batch) ≡ true
    from [] k = k
    from (c ∷ cs) k = added (human_feedback_comments (c ∷ cs)) _ k

-- With human comments in the snapshot, `ingestPendingFeedbackBatch` returns the item with a batch in order of
-- time, whose deadline is no earlier than it was before the call, nor than the debounce after the latest of
-- those comments.
pub ingest-in_order :
    (snap : ItemSnapshot) (item : Item)
    → is_empty (human_feedback_comments snap.new_comments) ≡ false
    → (b : Batch) × ((ingest_pending_feedback_batch snap item).pending_feedback_batch ≡ some b)
      × (in_order b.comments ≡ true)
      × (latest_created_at (human_feedback_comments snap.new_comments) + human_feedback_debounce
          ≤ b.deadline)
      × (batch_deadline item.pending_feedback_batch 0 ≤ b.deadline)
unfolding ingest_pending_feedback_batch human_feedback_comments
ingest-in_order snap item h = from snap.new_comments h
  where
    Ordered : List Comment → Option Batch → Type 0
    Ordered humans found =
        (b : Batch) × (found ≡ some b)
        × (in_order b.comments ≡ true)
        × (latest_created_at humans + human_feedback_debounce ≤ b.deadline)
        × (batch_deadline item.pending_feedback_batch 0 ≤ b.deadline)

    added :
        (humans : List Comment) (i : Item)
        → i.pending_feedback_batch ≡ item.pending_feedback_batch
        → is_empty humans ≡ false
        → Ordered humans (ingest_human humans i).pending_feedback_batch
    added [] i e k = absurd (ground arith)
    added (c ∷ cs) i e k = (_, refl, sort_by_time-in_order _, ground arith, ground arith)

    from :
        (cs : List Comment)
        → is_empty (human_feedback_comments cs) ≡ false
        → Ordered (human_feedback_comments cs) (ingest_comments cs item).pending_feedback_batch
    from [] k = absurd (ground arith)
    from (c ∷ cs) k = added (human_feedback_comments (c ∷ cs)) _ refl k
