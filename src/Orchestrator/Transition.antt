-- ===== src/Orchestrator/Transition.antt =====
-- core/orchestrator.ts: `transition`, with its table of side effects, and the outcome of a handler.
-- An exception is a value of `Result`. A `Clock` holds the argument `now` of a poll and what
-- `new Date()` returns while that poll is processed.
use ninthwave.Prelude.{
  ℕ, ◌-◌, Bool, true, false, not, ◌&&◌, ◌||◌, List, ◌++◌, Option, none, some, get_or, if◌then◌else◌,
  ◌≡◌, refl,
}
use ninthwave.Orchestrator.Types.{
  State, implementing, launching, ci_pending, ci_passed, ci_failed, stuck, fix_forward_failed, is,
  allows, is_terminal,
}
use ninthwave.Orchestrator.Actions.{Stamp, at, malformed, Action}
use ninthwave.Orchestrator.Item.{Item, undefined}

pub record Clock : Type 0 where
  pub now : ℕ
  pub wall : ℕ

pub data Result {ℓ} (A : Type ℓ) : Type ℓ where
  ok : A → Result A
  illegal_transition : State → State → Result A

infixl 5 ◌>>=◌
abbrev pub ◌>>=◌ {ℓ κ} : {A : Type ℓ} {B : Type κ} → Result A → (A → Result B) → Result B
ok a >>= f = f a
illegal_transition s t >>= f = illegal_transition s t

abbrev pub Outcome : Type 0
Outcome = Result (Item × List Action)

-- `actions.push(...rest)` before `return actions`.
abbrev pub prepend : List Action → Outcome → Outcome
prepend actions (ok (item, rest)) = ok (item, actions ++ rest)
prepend actions (illegal_transition s t) = illegal_transition s t

-- `Math.max(0, detected - event)`, or 0 where the event's time cannot be read.
abbrev pub latency : ℕ → Stamp → ℕ
latency detected (at event) = detected - event
latency detected (malformed s) = 0

-- `TRANSITION_SIDE_EFFECTS`.
transition_side_effects : State → Stamp → Item → Item
transition_side_effects ci_failed ts item = record item { review_completed = false }
transition_side_effects ci_pending ts item = record item {
  ci_failure_notified = false;
  ci_failure_notified_at = undefined;
  ci_notify_wall_at = none;
}
transition_side_effects ci_passed ts item = record item {
  ci_failure_notified = false;
  ci_failure_notified_at = undefined;
  ci_notify_wall_at = none;
}
transition_side_effects implementing ts item = record item {
  started_at = some (get_or item.started_at ts);
}
transition_side_effects _ ts item = item

-- `FAILURE_REASON_STATES`.
abbrev pub keeps_failure_reason : State → Bool
keeps_failure_reason ci_failed = true
keeps_failure_reason stuck = true
keeps_failure_reason fix_forward_failed = true
keeps_failure_reason _ = false

-- The assignments that every change of state makes, before the side effects of the new state.
enter : ℕ → State → Option Stamp → Item → Item
enter wall state event_time item = record item {
  state = state;
  last_transition = at wall;
  detected_time = some (at wall);
  event_time = some (get_or event_time (at wall));
  detection_latency_ms = latency wall (get_or event_time (at wall));
  rebase_requested = false;
  session_parked = false;
  timeout_deadline = none;
  timeout_extension_count = 0;
  ci_pending_since =
      if is state ci_pending && (is item.state implementing || is item.state launching)
      then some (at wall)
      else if not (is state ci_pending)
      then none
      else item.ci_pending_since;
}

-- The clears that follow them.
leave_marks : ℕ → State → Item → Item
leave_marks wall state item = record item {
  failure_reason = if keeps_failure_reason state then item.failure_reason else none;
  ended_at = if is_terminal state then some (at wall) else item.ended_at;
}

-- The item after a legal change of state.
unfoldable pub moved : ℕ → State → Option Stamp → Item → Item
unfolding enter transition_side_effects leave_marks
moved wall state event_time item =
    leave_marks wall state
      (transition_side_effects state (at wall) (enter wall state event_time item))

unfoldable pub transition : Clock → State → Option Stamp → Item → Result Item
transition clock state event_time item =
    if is item.state state
    then ok item
    else if allows item.state state
    then ok (moved clock.wall state event_time item)
    else illegal_transition item.state state

-- What every change of state does, whatever the new state is.
pub state-moved :
    (wall : ℕ) (s : State) (e : Option Stamp) (item : Item) → (moved wall s e item).state ≡ s
unfolding moved
state-moved wall ci_failed e item = refl
state-moved wall _ e item = refl

pub session_parked-moved :
    (wall : ℕ) (s : State) (e : Option Stamp) (item : Item)
    → (moved wall s e item).session_parked ≡ false
unfolding moved
session_parked-moved wall ci_failed e item = refl
session_parked-moved wall _ e item = refl

pub pending_feedback_batch-moved :
    (wall : ℕ) (s : State) (e : Option Stamp) (item : Item)
    → (moved wall s e item).pending_feedback_batch ≡ item.pending_feedback_batch
unfolding moved
pending_feedback_batch-moved wall ci_failed e item = refl
pending_feedback_batch-moved wall _ e item = refl
