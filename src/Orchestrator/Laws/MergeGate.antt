-- ===== src/Orchestrator/Laws/MergeGate.antt =====
-- core/orchestrator.ts: `evaluateMerge`, and the merges that it lets through.
use ninthwave.Prelude.{
  Bool, true, false, not, ◌&&◌, ◌||◌, ◌≡◌, refl, sym, subst, arith, some, none, Option, any, ltb,
  if◌then◌else◌, is_empty,
}
use ninthwave.Orchestrator.Types.{Config, merging}
use ninthwave.Orchestrator.Actions.{Batch, Message}
use ninthwave.Orchestrator.Item.{Item, ItemSnapshot}
use ninthwave.Orchestrator.Workers.{
  Liveness, dead, alive, debouncing, unknown, respawn_for_feedback,
}
use ninthwave.Orchestrator.Feedback.{
  Handoff, acted, hand_over, DeliveryMode, deliver, relaunch, wait, feedback_batch_delivery_mode,
  handoff_by_liveness, liveness_of_workspace, to_review_pending, continue_with, keep_head,
  resolve_batch, resolve_pending_feedback_batch, continue_pending_feedback_handoff, reopen_review,
  take_batch,
}
use ninthwave.Orchestrator.Merge.{
  or_next, holds_for_human, launch_review_round, park_session, merge_or_hold, evaluate_merge,
  skip_review_gate, try_handle_no_new_info,
}
use ninthwave.Orchestrator.Transition.{
  Clock, Result, ok, illegal_transition, transition, state-moved, Outcome, ◌>>=◌,
}
use ninthwave.Orchestrator.Poll.{is_merge}
use ninthwave.Orchestrator.Laws.Post.{Post}

-- Where a merge is among the actions, the predicate holds of the item.
abbrev Merged : (Item → Type 0) → Outcome → Type 0
Merged Q (ok (i, actions)) = any is_merge actions ≡ true → Q i
Merged Q (illegal_transition s t) = Unit

-- A handoff that merges nothing, and leaves the item alone when it returns `null`.
abbrev Silent : Item → Handoff → Type 0
Silent item (ok (i, none)) = i ≡ item
Silent item (ok (i, some actions)) = any is_merge actions ≡ false
Silent item (illegal_transition s t) = Unit

Merged-weaken :
    (P Q : Item → Type 0) (o : Outcome) → ((i : Item) → P i → Q i) → Merged P o → Merged Q o
Merged-weaken P Q (ok (i, actions)) f h = λ m. f i (h m)
Merged-weaken P Q (illegal_transition s t) f h = tt

-- Among the actions returned there is a merge.
abbrev pub merges : Outcome → Bool
merges (ok (item, actions)) = any is_merge actions
merges (illegal_transition s t) = false

Merged-elim :
    (P : Type 0) (o : Outcome)
    → Merged (λ i. (i.state ≡ merging) × P) o
    → merges o ≡ true
    → P × Post (λ r. r.0.state ≡ merging) o
Merged-elim P (ok (i, actions)) h m = ((h m).1, (h m).0)
Merged-elim P (illegal_transition s t) h m = ground arith

if-Merged :
    (Q : Item → Type 0) (b : Bool) (x y : Outcome)
    → (b ≡ true → Merged Q x)
    → Merged Q y
    → Merged Q (if b then x else y)
if-Merged Q true x y p q = p refl
if-Merged Q false x y p q = q

or_next-Merged :
    (Q : Item → Type 0) (item : Item) (h : Handoff) (rest : Item → Outcome)
    → Silent item h
    → Merged Q (rest item)
    → Merged Q (or_next h rest)
or_next-Merged Q item (ok (i, none)) rest e p = subst (λ j. Merged Q (rest j)) (sym e) p
or_next-Merged Q item (ok (i, some actions)) rest quiet p = λ m. grind arith
or_next-Merged Q item (illegal_transition s t) rest quiet p = tt

acted-Silent :
    (before item : Item) (clock : Clock) (m : Message)
    → Silent before (acted (respawn_for_feedback clock m item))
unfolding respawn_for_feedback transition
acted-Silent before item clock m = ground arith

bind-Silent :
    (before : Item) (m : Result Item) (f : Item → Handoff)
    → ((i : Item) → Silent before (f i))
    → Silent before (m >>= f)
bind-Silent before (ok i) f h = h i
bind-Silent before (illegal_transition s t) f h = tt

if-Silent :
    (before : Item) (b : Bool) (x y : Handoff)
    → Silent before x
    → Silent before y
    → Silent before (if b then x else y)
if-Silent before true x y p q = p
if-Silent before false x y p q = q

hand_over-Silent :
    (clock : Clock) (snap : ItemSnapshot) (batch : Batch) (before item : Item) (mode : DeliveryMode)
    → Silent before (hand_over clock snap batch (item, mode))
unfolding hand_over
hand_over-Silent clock snap batch before item wait = refl
hand_over-Silent clock snap batch before item relaunch =
    acted-Silent before (take_batch snap batch.comments item) clock _
hand_over-Silent clock snap batch before item deliver =
    bind-Silent before (reopen_review clock snap (take_batch snap batch.comments item)) _
      (λ i. refl)

resolve-Silent :
    (clock : Clock) (snap : ItemSnapshot) (item : Item)
    → Silent item (resolve_pending_feedback_batch clock snap item)
unfolding resolve_pending_feedback_batch
resolve-Silent clock snap item = due item.pending_feedback_batch
  where
    mode : Item × DeliveryMode
    mode = feedback_batch_delivery_mode snap item

    due : (b : Option Batch) → Silent item (resolve_batch clock snap item b)
    due none = refl
    due (some batch) = if-Silent item (is_empty batch.comments) _ _ refl (
        if-Silent item (ltb clock.now batch.deadline) _ _ refl
          (hand_over-Silent clock snap batch item mode.0 mode.1))

by_liveness-Silent :
    (before : Item) (clock : Clock) (m : Message) (item : Item) (l : Liveness)
    → Silent before (handoff_by_liveness clock m (item, l))
by_liveness-Silent before clock m item dead = acted-Silent before item clock m
by_liveness-Silent before clock m item alive = refl
by_liveness-Silent before clock m item debouncing = refl
by_liveness-Silent before clock m item unknown = refl

continue_with-Silent :
    (before : Item) (clock : Clock) (snap : ItemSnapshot) (item : Item) (m : Message)
    → Silent before (continue_with clock snap item m)
unfolding continue_with
continue_with-Silent before clock snap item m =
    bind-Silent before (to_review_pending clock snap (keep_head snap item)) _ λ i.
      if-Silent before i.session_parked _ _ (acted-Silent before i clock m) (
        by_liveness-Silent before clock m (liveness_of_workspace snap i).0
          (liveness_of_workspace snap i).1)

continue-Silent :
    (clock : Clock) (snap : ItemSnapshot) (item : Item)
    → Silent item (continue_pending_feedback_handoff clock snap item)
unfolding continue_pending_feedback_handoff
continue-Silent clock snap item =
    if-Silent item (not item.needs_feedback_response) _ _ refl (sent item.pending_feedback_message)
  where
    sent :
        (o : Option Message)
        → Silent item (elim o [ none ↦ ok (item, none) | some m ↦ continue_with clock snap item m ])
    sent none = refl
    sent (some m) = continue_with-Silent item clock snap item m

no_new_info-Silent :
    (clock : Clock) (snap : ItemSnapshot) (item : Item)
    → Silent item (try_handle_no_new_info clock snap item)
unfolding try_handle_no_new_info transition
no_new_info-Silent clock snap item = ground arith

-- What the gate asks of the item that it merges.
abbrev pub may_merge_now : Config → ItemSnapshot → Item → Bool
may_merge_now config snap item =
    (item.review_completed || config.skip_review) && not (holds_for_human config snap item)

module _ (config : Config) (clock : Clock) (snap : ItemSnapshot) where
  merge_or_hold-Merged :
      (item : Item)
      → Merged
          (λ i. (i.state ≡ merging) × (holds_for_human config snap item ≡ false))
          (merge_or_hold config clock snap item)
  unfolding merge_or_hold park_session transition
  merge_or_hold-Merged item = grind (arith, state-moved)

  launch_review_round-Merged :
      (Q : Item → Type 0) (item : Item) → Merged Q (launch_review_round config clock snap item)
  unfolding launch_review_round transition
  launch_review_round-Merged Q item = grind arith

  evaluate_merge-Merged :
      (item : Item)
      → Merged
          (λ i. (i.state ≡ merging) × (may_merge_now config snap item ≡ true))
          (evaluate_merge config clock snap item)
  unfolding evaluate_merge
  evaluate_merge-Merged item =
      or_next-Merged Q item (try_handle_no_new_info clock snap item) _
        (no_new_info-Silent clock snap item)
        (or_next-Merged Q item (continue_pending_feedback_handoff clock snap item) _
          (continue-Silent clock snap item)
          (or_next-Merged Q item (resolve_pending_feedback_batch clock snap item) _
            (resolve-Silent clock snap item)
            (if-Merged Q (skip_review_gate config item).review_completed _ _
              (λ passed.
                Merged-weaken
                  (λ i. (i.state ≡ merging) × (holds_for_human config snap item ≡ false)) Q _
                  (λ i h. (h.0, ground arith))
                  (merge_or_hold-Merged (skip_review_gate config item)))
              (launch_review_round-Merged Q (skip_review_gate config item)))))
    where
      Q : Item → Type 0
      Q i = (i.state ≡ merging) × (may_merge_now config snap item ≡ true)

  -- `evaluateMerge` returns a merge only for an item whose review is completed or where reviews are
  -- skipped, with no manual review required, no changes requested and a strategy other than
  -- `manual`; it throws nothing then, and the item is in `merging`.
  pub evaluate_merge-merges :
      (item : Item)
      → merges (evaluate_merge config clock snap item) ≡ true
      → (may_merge_now config snap item ≡ true)
        × Post (λ r. r.0.state ≡ merging) (evaluate_merge config clock snap item)
  evaluate_merge-merges item =
      Merged-elim (may_merge_now config snap item ≡ true) (evaluate_merge config clock snap item)
        (evaluate_merge-Merged item)
