-- ===== src/Orchestrator/Laws/Parking.antt =====
-- core/orchestrator.ts: the sessions that are parked while an item waits for a review.
use ninthwave.Prelude.{
  ◌<◌, Bool, true, false, not, ◌||◌, List, ◌≡◌, refl, arith, some, none, Option, ltb,
}
use ninthwave.Orchestrator.Types.{State, Config, review_pending, stuck, ready, is}
use ninthwave.Orchestrator.Actions.{Stamp, Action, Message, FailureReason}
use ninthwave.Orchestrator.Item.{Item, ItemSnapshot}
use ninthwave.Orchestrator.Transition.{
  Clock, Result, Outcome, transition, moved, state-moved, session_parked-moved, ◌>>=◌,
}
use ninthwave.Orchestrator.Workers.{
  check_worker_liveness, should_defer_timeout, stuck_or_retry, respawn_for_feedback,
  respawn_ci_fix_worker, recover_headless_worker,
}
use ninthwave.Orchestrator.Feedback.{arm_live_delivery}
use ninthwave.Orchestrator.Laws.Post.{Post, Post-bind, if-Post, transition-Post, may_move}

abbrev pub well_parked : Item → Bool
well_parked item = not item.session_parked || is item.state review_pending

-- A handler returns, with an item that is well parked.
abbrev pub Parks : Item × List Action → Type 0
Parks r = well_parked r.0 ≡ true

pub ruleset moves = (arith, state-moved, session_parked-moved)

-- A legal transition ends in its state, and keeps a session well parked.
abbrev pub Enters : State → Item → Type 0
Enters s i = (i.state ≡ s) × (well_parked i ≡ true)

pub transition-Enters :
    (clock : Clock) (s : State) (e : Option Stamp) (item : Item)
    → may_move item.state s ≡ true
    → well_parked item ≡ true
    → Post (Enters s) (transition clock s e item)
transition-Enters clock s e item legal h =
    transition-Post (Enters s) clock s e item legal (λ same. (same, h))
      (state-moved clock.wall s e item, rw (session_parked-moved clock.wall s e item))

-- One transition, and then an item in the same state with the same parking.
pub Enters-then-Parks :
    (clock : Clock) (s : State) (e : Option Stamp) (item : Item) (f : Item → Outcome)
    → may_move item.state s ≡ true
    → well_parked item ≡ true
    → ((i : Item) → Enters s i → Post Parks (f i))
    → Post Parks (transition clock s e item >>= f)
Enters-then-Parks clock s e item f legal h next =
    Post-bind (Enters s) Parks (transition clock s e item) f
      (transition-Enters clock s e item legal h) next

pub respawn_for_feedback-Parks :
    (clock : Clock) (m : Message) (item : Item)
    → may_move item.state ready ≡ true
    → well_parked item ≡ true
    → Post Parks (respawn_for_feedback clock m item)
unfolding respawn_for_feedback
respawn_for_feedback-Parks clock m item legal h =
    Enters-then-Parks clock ready none _ _ legal h λ i e. e.1

pub respawn_ci_fix_worker-Parks :
    (clock : Clock) (item : Item)
    → may_move item.state ready ≡ true
    → well_parked item ≡ true
    → Post Parks (respawn_ci_fix_worker clock item)
unfolding respawn_ci_fix_worker
respawn_ci_fix_worker-Parks clock item legal h =
    Enters-then-Parks clock ready none _ _ legal h λ i e. e.1

pub recover_headless_worker-Parks :
    (clock : Clock) (item : Item)
    → may_move item.state ready ≡ true
    → well_parked item ≡ true
    → Post Parks (recover_headless_worker clock item)
unfolding recover_headless_worker
recover_headless_worker-Parks clock item legal h =
    Enters-then-Parks clock ready none _ _ legal h λ i e. e.1

pub stuck_or_retry-Parks :
    (config : Config) (clock : Clock) (reason : FailureReason) (item : Item)
    → may_move item.state ready ≡ true
    → may_move item.state stuck ≡ true
    → well_parked item ≡ true
    → Post Parks (stuck_or_retry config clock reason item)
unfolding stuck_or_retry
stuck_or_retry-Parks config clock reason item legal legal' h =
    if-Post Parks (ltb item.retry_count config.max_retries) _ _
      (λ _. Enters-then-Parks clock ready none _ _ legal h λ i e. e.1)
      (λ _. Enters-then-Parks clock stuck none _ _ legal' h λ i e. e.1)

-- Counting a liveness reading leaves the state and the parking alone.
abbrev pub SameParking : Item → Item → Type 0
SameParking i item = (i.state ≡ item.state) × (i.session_parked ≡ item.session_parked)

pub check_worker_liveness_keeps :
    (snap : ItemSnapshot) (item : Item) → SameParking (check_worker_liveness snap item).0 item
unfolding check_worker_liveness
check_worker_liveness_keeps snap item = ground arith

pub should_defer_timeout_keeps :
    (config : Config) (clock : Clock) (item : Item)
    → SameParking (should_defer_timeout config clock item).0 item
unfolding should_defer_timeout
should_defer_timeout_keeps config clock item = ground arith

pub arm_live_delivery_keeps :
    (snap : ItemSnapshot) (item : Item) → SameParking (arm_live_delivery snap item) item
unfolding arm_live_delivery
arm_live_delivery_keeps snap item = ground (arith, check_worker_liveness_keeps snap item)

pub SameParking-well_parked :
    (i item : Item) → SameParking i item → well_parked item ≡ true → well_parked i ≡ true
SameParking-well_parked i item e h = ground arith
