-- ===== src/Orchestrator/Merge.antt =====
-- core/orchestrator.ts: `tryHandleNoNewInfo` and `evaluateMerge`. Its `eventTime` argument is
-- `snap?.eventTime` in every call.
use ninthwave.Prelude.{
  ℕ, ◌+◌, Bool, true, false, not, ◌&&◌, ◌||◌, String, List, [], ◌∷◌, Option, none, some, get_or,
  or_else, is_some, if◌then◌else◌, ltb, str_eq,
}
use ninthwave.Orchestrator.Types.{
  Config, MergeStrategy, manual, bypass, stuck, review_pending, reviewing, merging, is,
}
use ninthwave.Orchestrator.Actions.{
  max_review_rounds_exceeded, pending, review_in_progress, re_review_in_progress, Action, merge,
  workspace_close, launch_review, set_commit_status, clear_no_new_info_signal,
}
use ninthwave.Orchestrator.Item.{Item, ItemSnapshot, ReviewDecision, changes_requested}
use ninthwave.Orchestrator.Feedback.{
  Handoff, resolve_pending_feedback_batch, continue_pending_feedback_handoff,
}
use ninthwave.Orchestrator.Transition.{Clock, ok, illegal_transition, ◌>>=◌, Outcome, transition}

-- `if (actions) return actions;`, and otherwise the rest of the handler.
abbrev pub or_next : Handoff → (Item → Outcome) → Outcome
or_next (illegal_transition s t) rest = illegal_transition s t
or_next (ok (item, some actions)) rest = ok (item, actions)
or_next (ok (item, none)) rest = rest item

-- `sha && sha === other`.
abbrev pub same_sha : Option String → Option String → Bool
same_sha (some a) (some b) = str_eq b a
same_sha _ _ = false

-- The gate of the one-shot signals: the head is the commit that was last reviewed.
abbrev pub is_unchanged : Item → ItemSnapshot → Bool
is_unchanged item snap = same_sha item.last_reviewed_commit_sha snap.head_sha

abbrev pub asks_changes : Option ReviewDecision → Bool
asks_changes (some changes_requested) = true
asks_changes _ = false

abbrev pub is_manual : MergeStrategy → Bool
is_manual manual = true
is_manual _ = false

abbrev pub is_bypass : MergeStrategy → Bool
is_bypass bypass = true
is_bypass _ = false

-- The discarded feedback, and the review that is restored for an approved head.
abbrev pub settle : ItemSnapshot → Item → Item
settle snap item = record item {
  pending_feedback_batch = none;
  pending_feedback_message = none;
  needs_feedback_response = false;
  pr_number = or_else snap.pr_number item.pr_number;
  review_completed =
      if same_sha item.last_approved_commit_sha snap.head_sha then true else item.review_completed;
}

unfoldable pub try_handle_no_new_info : Clock → ItemSnapshot → Item → Handoff
try_handle_no_new_info clock snap item =
    if not (snap.no_new_info_signal && is_unchanged item snap)
    then ok (item, none)
    else if is_some item.workspace_ref && not item.session_parked
    then (do
      item' ←
          transition clock review_pending snap.event_time
            (record (settle snap item) { session_parked = true })
      ok (item', some (clear_no_new_info_signal item.id ∷ workspace_close item.id ∷ [])))
    else do
      item' ← transition clock review_pending snap.event_time (settle snap item)
      ok (item', some (clear_no_new_info_signal item.id ∷ []))

-- The round that the next review would be.
abbrev pub next_round : Item → ℕ
next_round item = get_or item.review_round 0 + 1

-- The review gate: the part of `evaluateMerge` for an item whose review is not completed.
unfoldable pub launch_review_round : Config → Clock → ItemSnapshot → Item → Outcome
launch_review_round config clock snap item =
    if is item.state reviewing
    then ok (item, [])
    else if is_unchanged item snap
    then ok (item, [])
    else if ltb config.max_review_rounds (next_round item)
    then (do
      item' ← transition clock stuck snap.event_time item
      ok (
        record item' {
          failure_reason = some (max_review_rounds_exceeded config.max_review_rounds);
        },
        [],
      ))
    else do
      item' ←
          transition clock reviewing snap.event_time
            (record item { review_round = some (next_round item) })
      ok (
        item',
        launch_review item.id item.pr_number
            ∷ set_commit_status item.id item.pr_number pending (
                if ltb 1 (next_round item)
                then re_review_in_progress (next_round item)
                else review_in_progress)
            ∷ [],
      )

-- What keeps a reviewed item from being merged without a human.
abbrev pub holds_for_human : Config → ItemSnapshot → Item → Bool
holds_for_human config snap item =
    item.work_item.requires_manual_review
    || (asks_changes snap.review_decision || is_manual config.merge_strategy)

unfoldable pub park_session : ItemSnapshot → Item → Item × List Action
park_session snap item =
    if item.review_completed && (not (asks_changes snap.review_decision) && not item.session_parked)
    then (record item { session_parked = true }, workspace_close item.id ∷ [])
    else (item, [])

-- The part of `evaluateMerge` behind the review gate.
unfoldable pub merge_or_hold : Config → Clock → ItemSnapshot → Item → Outcome
merge_or_hold config clock snap item =
    if holds_for_human config snap item
    then (do
      item' ← transition clock review_pending snap.event_time item
      ok (park_session snap item'))
    else do
      item' ← transition clock merging snap.event_time item
      ok (item', merge item.id item.pr_number (is_bypass config.merge_strategy) ∷ [])

-- `skipReview` passes the gate.
abbrev pub skip_review_gate : Config → Item → Item
skip_review_gate config item = record item {
  review_completed = if config.skip_review then true else item.review_completed;
}

unfoldable pub evaluate_merge : Config → Clock → ItemSnapshot → Item → Outcome
evaluate_merge config clock snap item = or_next (try_handle_no_new_info clock snap item) λ item.
    or_next (continue_pending_feedback_handoff clock snap item) λ item.
      or_next (resolve_pending_feedback_batch clock snap item) λ item.
        let gated = skip_review_gate config item in
        if gated.review_completed
        then merge_or_hold config clock snap gated
        else launch_review_round config clock snap gated
