-- ===== src/Orchestrator/Laws/Polls.antt =====
-- core/orchestrator.ts: `transitionItem`: the handler, what its dependents are told, and the feedback batch.
use ninthwave.Prelude.{
  true, false, not, ◌&&◌, ◌||◌, String, List, [], ◌∷◌, ◌≡◌, ◌∙◌, arith, some, none, Option, ltb,
  is_some, All, str_eq, is_empty,
}
use ninthwave.Orchestrator.Types.{State, Config, queued, ready, launching, ci_failed, stuck, is}
use ninthwave.Orchestrator.Actions.{Action, Batch}
use ninthwave.Orchestrator.Item.{Item, ItemSnapshot}
use ninthwave.Orchestrator.Rebase.{is_true, update_rebase_tracking}
use ninthwave.Orchestrator.Workers.{respawn_for_feedback}
use ninthwave.Orchestrator.Feedback.{
  ingest_pending_feedback_batch, resolve_pending_feedback_batch, hand_over,
  feedback_batch_delivery_mode,
}
use ninthwave.Orchestrator.Pipeline.{handle_ci_failed, break_circuit}
use ninthwave.Orchestrator.PostMerge.{intercept_external_merge}
use ninthwave.Orchestrator.Store.{Store, update_item, pause_dependents, is_stacked_on}
use ninthwave.Orchestrator.Process.{
  dispatch, handle, note_merge_commit, prepare, tell_dependents, run_handler, after_interception,
  transition_item,
}
use ninthwave.Orchestrator.Transition.{
  Clock, illegal_transition, transition, state-moved, session_parked-moved,
  pending_feedback_batch-moved, ◌>>=◌,
}
use ninthwave.Orchestrator.Laws.Post.{Post, Handed, Post-bind, if-Post, if-holds, transition-Post}
use ninthwave.Orchestrator.Laws.Parking.{well_parked, Parks, SameParking, SameParking-well_parked}
use ninthwave.Orchestrator.Laws.Handoffs.{resolve_pending_feedback_batch-Parks}
use ninthwave.Orchestrator.Laws.PostMerge.{intercept_external_merge-Parks}
use ninthwave.Orchestrator.Laws.Legality.{calm, handle-Parks}

-- Every item of a store is parked well.
abbrev pub AllParked : Store → Type 0
AllParked = All (λ i. well_parked i ≡ true)

update_item-AllParked :
    (new : Item) (store : Store)
    → well_parked new ≡ true
    → AllParked store
    → AllParked (update_item new store)
unfolding update_item
update_item-AllParked new [] h k = tt
update_item-AllParked new (item ∷ rest) h k = (
  if-holds (λ i. well_parked i ≡ true) (str_eq item.id new.id) new item h k.0,
  update_item-AllParked new rest h k.1,
)

-- The dependents of a stuck item are rolled back legally.
pause_dependents-AllParked :
    (clock : Clock) (id : String) (store : Store)
    → AllParked store
    → Post (λ r. AllParked r.0) (pause_dependents clock id store)
unfolding pause_dependents
pause_dependents-AllParked clock id [] k = tt
pause_dependents-AllParked clock id (other ∷ rest) k =
    Post-bind (λ r. AllParked r.0) (λ r. AllParked r.0) (pause_dependents clock id rest) _
      (pause_dependents-AllParked clock id rest k.1)
      λ r p.
        if-Post (λ r. AllParked r.0) (not (is_stacked_on id other)) _ _ (λ _. (k.0, p))
          λ _.
            if-Post (λ r. AllParked r.0) (is other.state ready || is other.state launching) _ _
              (λ early.
                Post-bind (λ i. well_parked i ≡ true) (λ r. AllParked r.0)
                  (transition clock queued none other) _
                  (transition-Post (λ i. well_parked i ≡ true) clock queued none other
                    (ground arith) (λ _. k.0)
                    (rw (session_parked-moved clock.wall queued none other)))
                  (λ i w. (w, p)))
              λ _.
                if-Post (λ r. AllParked r.0) (is_some other.workspace_ref) _ _ (λ _. (k.0, p))
                  (λ _. (k.0, p))

tell_dependents-AllParked :
    (config : Config) (clock : Clock) (s : State) (item : Item) (store : Store)
    → AllParked store
    → Post (λ r. AllParked r.0) (tell_dependents config clock s item store)
unfolding tell_dependents
tell_dependents-AllParked config clock s item store k =
    if-Post (λ r. AllParked r.0) (config.enable_stacking && _) _ _
      (λ _. pause_dependents-AllParked clock item.id store k)
      λ _. if-Post (λ r. AllParked r.0) (config.enable_stacking && _) _ _ (λ _. k) (λ _. k)

update_rebase_tracking_keeps :
    (clock : Clock) (snap : ItemSnapshot) (item : Item)
    → SameParking (update_rebase_tracking clock snap item) item
unfolding update_rebase_tracking
update_rebase_tracking_keeps clock snap item = ground arith

ingest_keeps :
    (snap : ItemSnapshot) (item : Item) → SameParking (ingest_pending_feedback_batch snap item) item
unfolding ingest_pending_feedback_batch
ingest_keeps snap item = ground arith

abbrev SameRetries : Item → Item → Type 0
SameRetries i item = i.ci_fail_count ≡ item.ci_fail_count

update_rebase_tracking_retries :
    (clock : Clock) (snap : ItemSnapshot) (item : Item)
    → SameRetries (update_rebase_tracking clock snap item) item
unfolding update_rebase_tracking
update_rebase_tracking_retries clock snap item = ground arith

ingest_retries :
    (snap : ItemSnapshot) (item : Item) → SameRetries (ingest_pending_feedback_batch snap item) item
unfolding ingest_pending_feedback_batch
ingest_retries snap item = ground arith

module _ (config : Config) (clock : Clock) (snap : ItemSnapshot) where
  prepare_keeps : (item : Item) → SameParking (prepare clock snap item) item
  prepare_keeps item =
      let tracked = update_rebase_tracking clock snap item in
      let a = ingest_keeps snap tracked in
      let b = update_rebase_tracking_keeps clock snap item in (a.0 ∙ b.0, a.1 ∙ b.1)

  prepare-calm :
      (item : Item)
      → calm config snap item ≡ true
      → calm config snap (prepare clock snap item) ≡ true
  prepare-calm item c =
      rw
        (
          (prepare_keeps item).0,
          ingest_retries snap (update_rebase_tracking clock snap item)
              ∙ update_rebase_tracking_retries clock snap item,
        )
        c

  run_handler-AllParked :
      (item : Item) (store : Store)
      → well_parked item ≡ true
      → AllParked store
      → calm config snap item ≡ true
      → Post (λ r. AllParked r.0) (run_handler config clock snap item store)
  unfolding run_handler
  run_handler-AllParked item store h k c =
      Post-bind Parks (λ r. AllParked r.0) (handle config clock snap item) _
        (handle-Parks config clock snap item h c)
        λ r p.
          Post-bind (λ t. AllParked t.0) (λ r. AllParked r.0)
            (tell_dependents config clock item.state r.0 (update_item r.0 store)) _
            (tell_dependents-AllParked config clock item.state r.0 (update_item r.0 store)
              (update_item-AllParked r.0 store p k))
            λ t q.
              Post-bind (Handed Parks r.0) (λ r. AllParked r.0)
                (resolve_pending_feedback_batch clock snap r.0) _
                (resolve_pending_feedback_batch-Parks clock snap r.0 p)
                λ f w. update_item-AllParked f.0 t.0 (handed r.0 f p w) q
    where
      handed :
          (i : Item) (f : Item × Option (List Action))
          → Parks (i, [])
          → Handed Parks i f
          → well_parked f.0 ≡ true
      handed i (j, none) p w = rw w p
      handed i (j, some actions) p w = w

  -- If sessions are parked only in `review-pending`, and the item is calm (not implementing with a
  -- no-new-info signal, nor in `ci-failed` with its CI retries used up and its worker alive), then
  -- `transitionItem` makes no illegal transition, of the item or of a dependent, and afterwards
  -- sessions are parked only in `review-pending`.
  pub transition_item-AllParked :
      (item : Item) (store : Store)
      → well_parked item ≡ true
      → AllParked store
      → calm config snap item ≡ true
      → Post (λ r. AllParked r.0) (transition_item config clock snap item store)
  unfolding transition_item
  transition_item-AllParked item store h k c =
      Post-bind (Handed Parks noted) (λ r. AllParked r.0)
        (intercept_external_merge clock snap noted) _
        (intercept_external_merge-Parks clock snap noted h) after
    where
      noted : Item
      noted = note_merge_commit snap item

      after :
          (r : Item × Option (List Action))
          → Handed Parks noted r
          → Post (λ r. AllParked r.0) (after_interception config clock snap store r)
      after (i, some actions) p = update_item-AllParked i store p k
      after (i, none) p =
          run_handler-AllParked (prepare clock snap i) store
            (SameParking-well_parked (prepare clock snap i) i (prepare_keeps i) (rw p h)) k
            (prepare-calm i (rw p c))

  -- For an item in `ci-failed` with its CI retries used up, whose worker is alive and which has a
  -- feedback batch with comments that is due, the handler followed by the resolution of the batch
  -- throws: it goes from `stuck` to `ready`, which the table does not allow.
  pub stuck_feedback_throws :
      (item : Item) (batch : Batch)
      → item.state ≡ ci_failed
      → ltb config.max_ci_retries item.ci_fail_count ≡ true
      → is_true snap.worker_alive ≡ true
      → item.pending_feedback_batch ≡ some batch
      → is_empty batch.comments ≡ false
      → ltb clock.now batch.deadline ≡ false
      → (handle config clock snap item >>= λ r. resolve_pending_feedback_batch clock snap r.0)
        ≡ illegal_transition stuck ready
  unfolding handle dispatch handle_ci_failed break_circuit transition resolve_pending_feedback_batch
      hand_over feedback_batch_delivery_mode respawn_for_feedback
  stuck_feedback_throws item batch s over up b full due = ground (
    arith,
    pending_feedback_batch-moved clock.wall stuck none item,
    state-moved clock.wall stuck none item,
  )
