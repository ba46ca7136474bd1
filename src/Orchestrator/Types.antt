-- ===== src/Orchestrator/Types.antt =====
-- core/orchestrator-types.ts: the states, the transition table, the state sets and the
-- configuration. The optional callbacks `onTransition` and `onEvent` only observe.
use ninthwave.Prelude.{ℕ, ◌*◌, Bool, true, false, List, [], ◌∷◌, any, ◌==◌}

pub data State : Type 0 where
  queued ready launching implementing ci_pending ci_passed ci_failed rebasing : State
  review_pending reviewing merging merged forward_fix_pending fix_forward_failed : State
  fixing_forward done blocked stuck : State

abbrev pub index : State → ℕ
index queued = 0
index ready = 1
index launching = 2
index implementing = 3
index ci_pending = 4
index ci_passed = 5
index ci_failed = 6
index rebasing = 7
index review_pending = 8
index reviewing = 9
index merging = 10
index merged = 11
index forward_fix_pending = 12
index fix_forward_failed = 13
index fixing_forward = 14
index done = 15
index blocked = 16
index stuck = 17

-- `===` on states.
abbrev pub is : State → State → Bool
is s t = index s == index t

-- `STATE_TRANSITIONS`.
abbrev pub state_transitions : State → List State
state_transitions queued = ready ∷ []
state_transitions ready = launching ∷ queued ∷ []
state_transitions launching = implementing ∷ stuck ∷ ready ∷ queued ∷ blocked ∷ ci_pending ∷ []
state_transitions implementing = ci_pending ∷ merged ∷ stuck ∷ ready ∷ []
state_transitions ci_pending = ci_passed ∷ ci_failed ∷ merged ∷ stuck ∷ rebasing ∷ []
state_transitions ci_passed =
    reviewing ∷ review_pending ∷ merging ∷ ci_pending ∷ ci_failed ∷ stuck ∷ merged ∷ []
state_transitions ci_failed = ci_pending ∷ ci_passed ∷ stuck ∷ ready ∷ merged ∷ rebasing ∷ []
state_transitions rebasing = ci_pending ∷ stuck ∷ []
state_transitions reviewing = ci_passed ∷ ci_failed ∷ ci_pending ∷ review_pending ∷ merged ∷ []
state_transitions review_pending =
    ci_pending ∷ ci_passed ∷ ci_failed ∷ merging ∷ merged ∷ stuck ∷ reviewing ∷ rebasing ∷ ready
    ∷ []
state_transitions merging = merged ∷ ci_passed ∷ ci_pending ∷ review_pending ∷ stuck ∷ []
state_transitions merged = forward_fix_pending ∷ fix_forward_failed ∷ done ∷ []
state_transitions forward_fix_pending = done ∷ fix_forward_failed ∷ []
state_transitions fix_forward_failed = fixing_forward ∷ stuck ∷ done ∷ []
state_transitions fixing_forward = done ∷ ci_pending ∷ merged ∷ stuck ∷ []
state_transitions done = []
state_transitions blocked = []
state_transitions stuck = []

-- `allowed.includes(state)`.
abbrev pub allows : State → State → Bool
allows s t = any (is t) (state_transitions s)

-- `ACTIVE_SESSION_STATES`.
abbrev pub is_active : State → Bool
is_active launching = true
is_active implementing = true
is_active ci_pending = true
is_active ci_passed = true
is_active ci_failed = true
is_active rebasing = true
is_active reviewing = true
is_active review_pending = true
is_active merging = true
is_active _ = false

-- `TERMINAL_STATES`.
abbrev pub is_terminal : State → Bool
is_terminal done = true
is_terminal blocked = true
is_terminal stuck = true
is_terminal _ = false

-- `STACKABLE_STATES`.
abbrev pub is_stackable : State → Bool
is_stackable ci_passed = true
is_stackable reviewing = true
is_stackable review_pending = true
is_stackable merging = true
is_stackable _ = false

pub data MergeStrategy : Type 0 where
  auto manual bypass : MergeStrategy

pub record Config : Type 0 where
  pub max_inflight : ℕ
  pub accepting_work : Bool
  pub merge_strategy : MergeStrategy
  pub bypass_enabled : Bool
  pub max_ci_retries : ℕ
  pub max_retries : ℕ
  pub launch_timeout_ms : ℕ
  pub activity_timeout_ms : ℕ
  pub enable_stacking : Bool
  pub max_merge_retries : ℕ
  pub max_rebase_attempts : ℕ
  pub rebase_retry_stale_ms : ℕ
  pub max_review_rounds : ℕ
  pub fix_forward : Bool
  pub max_fix_forward_retries : ℕ
  pub ci_pending_fail_grace_ms : ℕ
  pub skip_review : Bool
  pub grace_period_ms : ℕ
  pub max_timeout_extensions : ℕ
  pub inbox_wait_expire_ms : ℕ

-- `DEFAULT_CONFIG`.
abbrev pub default_config : Config
default_config = record {
  max_inflight = 1;
  accepting_work = true;
  merge_strategy = auto;
  bypass_enabled = false;
  max_ci_retries = 5;
  max_retries = 1;
  launch_timeout_ms = 30 * 60 * 1000;
  activity_timeout_ms = 60 * 60 * 1000;
  enable_stacking = true;
  max_merge_retries = 3;
  max_rebase_attempts = 3;
  rebase_retry_stale_ms = 15 * 60 * 1000;
  max_review_rounds = 5;
  fix_forward = true;
  max_fix_forward_retries = 2;
  ci_pending_fail_grace_ms = 60000;
  skip_review = false;
  grace_period_ms = 5 * 60 * 1000;
  max_timeout_extensions = 3;
  inbox_wait_expire_ms = 90 * 60 * 1000;
}

-- `TIMEOUTS`, in milliseconds, and `NOT_ALIVE_THRESHOLD`.
abbrev pub heartbeat_timeout : ℕ
heartbeat_timeout = 5 * 60 * 1000

abbrev pub launching_timeout : ℕ
launching_timeout = 5 * 60 * 1000

abbrev pub ci_fix_ack_timeout : ℕ
ci_fix_ack_timeout = 30 * 60 * 1000

abbrev pub human_feedback_debounce : ℕ
human_feedback_debounce = 60 * 1000

abbrev pub merge_ci_grace : ℕ
merge_ci_grace = 60000

abbrev pub merge_ci_no_push_grace : ℕ
merge_ci_no_push_grace = 15000

abbrev pub not_alive_threshold : ℕ
not_alive_threshold = 5
