-- ===== src/Orchestrator/Feedback.antt =====
-- core/orchestrator.ts: trusted human comments on a pull request, gathered in a batch and handed to
-- the worker.
use Prim.Native.String.{String}
use text.Mathlib.Text.{starts_with, find?, ◌==◌ as str_eq}
use ninthwave.Prelude.{
  ℕ, ◌+◌, max, Bool, true, false, not, ◌&&◌, ◌||◌, List, [], ◌∷◌, Option, none, some, or_else,
  is_some, if◌then◌else◌, ltb, leb, ◌==◌, any, keep, is_empty,
}
use ninthwave.Orchestrator.Types.{ci_passed, review_pending, merging, is, human_feedback_debounce}
use ninthwave.Orchestrator.Actions.{
  Comment, CommentType, review, Batch, Message, feedback_batch, Action, send_message,
}
use ninthwave.Orchestrator.Item.{Item, ItemSnapshot}
use ninthwave.Orchestrator.Workers.{
  Liveness, alive, dead, debouncing, unknown, check_worker_liveness, respawn_for_feedback,
}
use ninthwave.Orchestrator.Transition.{Clock, Result, ok, ◌>>=◌, Outcome, transition}

-- `AGENT_PR_COMMENT_RE`, which is anchored at the start and has five alternatives.
abbrev pub agent_prefixes : List String
agent_prefixes =
    "**[Orchestrator]" ∷ "**[Implementer]" ∷ "**[Reviewer]" ∷ "**[Forward-Fixer]" ∷ "**[Rebaser]"
    ∷ []

-- `hasNinthwaveHtmlCommentMarker`.
abbrev pub has_html_marker : String → Bool
has_html_marker body = is_some (find? body "<!-- ninthwave-")

unfoldable pub is_human : Comment → Bool
is_human comment =
    not (any (starts_with comment.body) agent_prefixes) && not (has_html_marker comment.body)

unfoldable pub human_feedback_comments : List Comment → List Comment
human_feedback_comments comments = keep is_human comments

abbrev pub same_number : Option ℕ → Option ℕ → Bool
same_number none none = true
same_number (some a) (some b) = a == b
same_number _ _ = false

-- `commentType ?? "issue"`.
abbrev pub same_type : Option CommentType → Option CommentType → Bool
same_type (some review) (some review) = true
same_type (some review) _ = false
same_type _ (some review) = false
same_type _ _ = true

-- Equality of `pendingFeedbackCommentKey`.
unfoldable pub same_key : Comment → Comment → Bool
same_key a b =
    same_type a.comment_type b.comment_type
    && (same_number a.id b.id
        && (a.created_at == b.created_at && (str_eq a.author b.author && str_eq a.body b.body)))

-- `byKey.set(key, comment)`: a known key keeps its place and takes the new value.
unfoldable pub put_by_key : Comment → List Comment → List Comment
put_by_key c [] = c ∷ []
put_by_key c (d ∷ ds) = let rest = put_by_key c ds in if same_key d c then c ∷ ds else d ∷ rest

unfoldable pub put_all : List Comment → List Comment → List Comment
put_all [] known = known
put_all (c ∷ cs) known = put_all cs (put_by_key c known)

-- The stable sort by `createdAt`.
unfoldable pub insert_by_time : Comment → List Comment → List Comment
insert_by_time c [] = c ∷ []
insert_by_time c (d ∷ ds) =
    let rest = insert_by_time c ds in if leb c.created_at d.created_at then c ∷ d ∷ ds else d ∷ rest

unfoldable pub sort_by_time : List Comment → List Comment
sort_by_time [] = []
sort_by_time (c ∷ cs) = insert_by_time c (sort_by_time cs)

-- The greatest `createdAt`, of a list that is not empty.
unfoldable pub latest_created_at : List Comment → ℕ
latest_created_at [] = 0
latest_created_at (c ∷ cs) = max c.created_at (latest_created_at cs)

abbrev pub batch_comments : Option Batch → List Comment
batch_comments none = []
batch_comments (some b) = b.comments

abbrev pub batch_deadline : Option Batch → ℕ → ℕ
batch_deadline none deadline = deadline
batch_deadline (some b) deadline = max b.deadline deadline

-- The comments of the batch that human comments are added to.
abbrev pub gathered : List Comment → Option Batch → List Comment
gathered humans before = sort_by_time (put_all humans (put_all (batch_comments before) []))

abbrev pub ingest_human : List Comment → Item → Item
ingest_human [] item = item
ingest_human (h ∷ hs) item = record item {
  pending_feedback_batch = some (record {
    comments = gathered (h ∷ hs) item.pending_feedback_batch;
    deadline =
        batch_deadline item.pending_feedback_batch
          (latest_created_at (h ∷ hs) + human_feedback_debounce);
  });
}

abbrev pub ingest_comments : List Comment → Item → Item
ingest_comments [] item = item
ingest_comments (c ∷ cs) item =
    ingest_human (human_feedback_comments (c ∷ cs))
      (record item { last_comment_check = some (latest_created_at (c ∷ cs)) })

unfoldable pub ingest_pending_feedback_batch : ItemSnapshot → Item → Item
ingest_pending_feedback_batch snap item = ingest_comments snap.new_comments item

pub data DeliveryMode : Type 0 where
  deliver relaunch wait : DeliveryMode

abbrev pub delivery_of : Liveness → DeliveryMode
delivery_of alive = deliver
delivery_of dead = relaunch
delivery_of debouncing = wait
delivery_of unknown = wait

unfoldable pub feedback_batch_delivery_mode : ItemSnapshot → Item → Item × DeliveryMode
feedback_batch_delivery_mode snap item =
    if item.session_parked
    then (item, relaunch)
    else if not (is item.state review_pending)
    then (item, deliver)
    else if not (is_some item.workspace_ref)
    then (item, relaunch)
    else (let (item', liveness) = check_worker_liveness snap item in (item', delivery_of liveness))

-- The reactions that wait for the delivery.
abbrev pub reactions : List Comment → List (ℕ × CommentType)
reactions [] = []
reactions (c ∷ cs) = add c.id c.comment_type (reactions cs)
  where
    add : Option ℕ → Option CommentType → List (ℕ × CommentType) → List (ℕ × CommentType)
    add (some i) (some t) rest = (i, t) ∷ rest
    add _ _ rest = rest

-- `null`, or the actions. The source's `hold` is true whenever it does not return `null`.
abbrev pub Handoff : Type 0
Handoff = Result (Item × Option (List Action))

abbrev pub is_alive : Liveness → Bool
is_alive alive = true
is_alive _ = false

abbrev pub arm_if : Bool → Item → Item
arm_if b item = if b then record item { pending_feedback_live_delivery_armed = true } else item

-- A verified live worker arms the one-shot delivery.
unfoldable pub arm_live_delivery : ItemSnapshot → Item → Item
arm_live_delivery snap item =
    if is_some item.workspace_ref
    then (let (item', liveness) = check_worker_liveness snap item in
        arm_if (is_alive liveness) item')
    else item

-- The item once the batch is taken off it.
abbrev pub take_batch : ItemSnapshot → List Comment → Item → Item
take_batch snap comments item = record item {
  pending_comment_reactions = reactions comments;
  pending_feedback_batch = none;
  last_reviewed_commit_sha = or_else snap.head_sha item.last_reviewed_commit_sha;
  pending_feedback_live_delivery_armed = false;
  needs_feedback_response = true;
  pending_feedback_message = some (feedback_batch item.pr_number comments);
}

-- A settled review is opened again.
unfoldable pub reopen_review : Clock → ItemSnapshot → Item → Result Item
reopen_review clock snap item =
    if not item.review_completed
    then ok item
    else if is item.state ci_passed || is item.state merging
    then transition clock review_pending snap.event_time (record item { review_completed = false })
    else ok (record item { review_completed = false })

abbrev pub acted : Outcome → Handoff
acted o = do r ← o; ok (r.0, some r.1)

unfoldable pub hand_over : Clock → ItemSnapshot → Batch → Item × DeliveryMode → Handoff
hand_over clock snap batch (item, wait) = ok (item, some [])
hand_over clock snap batch (item, relaunch) = acted (
    respawn_for_feedback clock (feedback_batch item.pr_number batch.comments)
      (take_batch snap batch.comments item))
hand_over clock snap batch (item, deliver) = do
  item' ← reopen_review clock snap (take_batch snap batch.comments item)
  ok (
    arm_live_delivery snap item',
    some (send_message item.id (feedback_batch item.pr_number batch.comments) ∷ []),
  )

-- A batch with comments is held until its deadline.
unfoldable pub resolve_batch : Clock → ItemSnapshot → Item → Option Batch → Handoff
resolve_batch clock snap item none = ok (item, none)
resolve_batch clock snap item (some batch) =
    if is_empty batch.comments
    then ok (item, none)
    else if ltb clock.now batch.deadline
    then ok (item, some [])
    else hand_over clock snap batch (feedback_batch_delivery_mode snap item)

unfoldable pub resolve_pending_feedback_batch : Clock → ItemSnapshot → Item → Handoff
unfolding resolve_batch
resolve_pending_feedback_batch clock snap item =
    resolve_batch clock snap item item.pending_feedback_batch

-- The last part of `continuePendingFeedbackHandoff`, by what is known of the worker.
abbrev pub handoff_by_liveness : Clock → Message → Item × Liveness → Handoff
handoff_by_liveness clock message (item, dead) = acted (respawn_for_feedback clock message item)
handoff_by_liveness clock message (item, alive) = ok (
  record item { pending_feedback_live_delivery_armed = true },
  some (send_message item.id message ∷ []),
)
handoff_by_liveness clock message (item, debouncing) = ok (item, some [])
handoff_by_liveness clock message (item, unknown) = ok (item, some [])

-- An item with no workspace has a dead worker.
abbrev pub liveness_of_workspace : ItemSnapshot → Item → Item × Liveness
liveness_of_workspace snap item =
    if is_some item.workspace_ref then check_worker_liveness snap item else (item, dead)

abbrev pub to_review_pending : Clock → ItemSnapshot → Item → Result Item
to_review_pending clock snap item =
    if is item.state ci_passed || is item.state merging
    then transition clock review_pending snap.event_time (record item { review_completed = false })
    else ok item

-- The head that the feedback belongs to counts as reviewed.
abbrev pub keep_head : ItemSnapshot → Item → Item
keep_head snap item = record item {
  last_reviewed_commit_sha = or_else snap.head_sha item.last_reviewed_commit_sha;
}

-- `continuePendingFeedbackHandoff` for the message that is kept.
unfoldable pub continue_with : Clock → ItemSnapshot → Item → Message → Handoff
continue_with clock snap item message = do
  item' ← to_review_pending clock snap (keep_head snap item)
  if item'.session_parked
      then acted (respawn_for_feedback clock message item')
      else handoff_by_liveness clock message (liveness_of_workspace snap item')

unfoldable pub continue_pending_feedback_handoff : Clock → ItemSnapshot → Item → Handoff
continue_pending_feedback_handoff clock snap item =
    if not item.needs_feedback_response
    then ok (item, none)
    else elim item.pending_feedback_message [
      | none ↦ ok (item, none)
      | some message ↦ continue_with clock snap item message
    ]
