-- ===== src/Orchestrator/Item.antt =====
-- core/orchestrator-types.ts: `OrchestratorItem` and `ItemSnapshot`, and core/types.ts: `WorkItem`,
-- less the fields that the state machine does not use. An optional field that is only tested for
-- truth is a `Bool`, or an `Option` in which the empty text and `null` are `none`; one that is only
-- read through `?? 0` is a number.
use ninthwave.Prelude.{ℕ, Bool, true, false, String, List, [], Option, none, some}
use ninthwave.Orchestrator.Types.{State}
use ninthwave.Orchestrator.Actions.{
  Stamp, CommentType, Comment, Batch, Message, FailureReason, ReviewVerdict,
}

pub data Priority : Type 0 where
  critical high medium low : Priority

pub record WorkItem : Type 0 where
  pub id : String
  pub priority : Priority
  pub title : String
  pub dependencies : List String
  pub requires_manual_review : Bool

-- core/pushback.ts
pub record PushbackRound : Type 0 where
  pub reason : String
  pub ts : String
  pub comment_id : Option ℕ
  pub comment_type : Option CommentType

-- `undefined`, `null` or a timestamp: `!==` tells the three apart.
pub data Nullable : Type 0 where
  undefined null : Nullable
  stamp : Stamp → Nullable

pub record Item : Type 0 where
  pub id : String
  pub work_item : WorkItem
  pub state : State
  pub pr_number : Option ℕ
  pub prior_pr_numbers : List ℕ
  pub workspace_ref : Option String
  pub pending_retry_workspace_ref : Option String
  pub last_reviewed_commit_sha : Option String
  pub last_approved_commit_sha : Option String
  pub last_transition : Stamp
  pub ci_fail_count : ℕ
  pub ci_fail_count_total : ℕ
  pub retry_count : ℕ
  pub last_commit_time : Nullable
  pub rebase_requested : Bool
  pub event_time : Option Stamp
  pub detected_time : Option Stamp
  pub detection_latency_ms : ℕ
  pub base_branch : Option String
  pub review_workspace_ref : Option String
  pub rebaser_workspace_ref : Option String
  pub review_completed : Bool
  pub failure_reason : Option FailureReason
  pub started_at : Option Stamp
  pub ended_at : Option Stamp
  pub not_alive_count : ℕ
  pub last_alive_at : Option Stamp
  pub review_round : Option ℕ
  pub merge_fail_count : ℕ
  pub ci_failure_notified : Bool
  pub ci_failure_notified_at : Nullable
  pub ci_notify_wall_at : Option Stamp
  pub last_comment_check : Option ℕ
  pub rebase_attempt_count : ℕ
  pub last_rebase_nudge_at : Option Stamp
  pub rebase_nudge_count : ℕ
  pub needs_ci_fix : Bool
  pub needs_feedback_response : Bool
  pub pending_feedback_message : Option Message
  pub pending_feedback_live_delivery_armed : Bool
  pub pending_feedback_batch : Option Batch
  pub pending_comment_reactions : List (ℕ × CommentType)
  pub merge_commit_sha : Option String
  pub default_branch : Option String
  pub fix_forward_fail_count : ℕ
  pub fix_forward_workspace_ref : Option String
  pub session_parked : Bool
  pub timeout_deadline : Option Stamp
  pub timeout_extension_count : ℕ
  pub ci_pending_since : Option Stamp
  pub pushback_rounds : List PushbackRound
  pub worktree_path : Option String
  pub ai_tool : Option String
  pub last_screen_output : Option String
  pub review_verdict_path : Option String

pub data CiStatus : Type 0 where
  pass fail pending unknown : CiStatus

pub data ReviewDecision : Type 0 where
  approved changes_requested review_required : ReviewDecision

pub data PrState : Type 0 where
  open_pr closed_pr merged_pr : PrState

-- `===` on the state of a pull request.
abbrev pub is_open : Option PrState → Bool
is_open (some open_pr) = true
is_open _ = false

abbrev pub is_closed : Option PrState → Bool
is_closed (some closed_pr) = true
is_closed _ = false

abbrev pub is_merged : Option PrState → Bool
is_merged (some merged_pr) = true
is_merged _ = false

pub data HeadlessPhase : Type 0 where
  starting in_implementing in_waiting : HeadlessPhase

pub record ItemSnapshot : Type 0 where
  pub id : String
  pub pr_number : Option ℕ
  pub ci_status : Option CiStatus
  pub review_decision : Option ReviewDecision
  pub pr_state : Option PrState
  pub is_mergeable : Option Bool
  pub worker_alive : Option Bool
  pub headless_phase : Option HeadlessPhase
  pub last_commit_time : Option Stamp
  pub event_time : Option Stamp
  pub new_comments : List Comment
  pub last_heartbeat : Option Stamp
  pub merge_commit_sha : Option String
  pub default_branch : Option String
  pub merge_commit_ci_status : Option CiStatus
  pub has_push_workflows : Option Bool
  pub review_verdict : Option ReviewVerdict
  pub inbox_waiting_since : Option Stamp
  pub head_sha : Option String
  pub feedback_done_signal : Bool
  pub pushback_signal : Option PushbackRound
  pub no_new_info_signal : Bool
  pub has_reviewer_comment : Option Bool

-- Every read of a snapshot is `snap?.field`, so an item with no snapshot is handled as one whose
-- snapshot has no field set.
abbrev pub no_snapshot : ItemSnapshot
no_snapshot = record {
  id = "";
  pr_number = none;
  ci_status = none;
  review_decision = none;
  pr_state = none;
  is_mergeable = none;
  worker_alive = none;
  headless_phase = none;
  last_commit_time = none;
  event_time = none;
  new_comments = [];
  last_heartbeat = none;
  merge_commit_sha = none;
  default_branch = none;
  merge_commit_ci_status = none;
  has_push_workflows = none;
  review_verdict = none;
  inbox_waiting_since = none;
  head_sha = none;
  feedback_done_signal = false;
  pushback_signal = none;
  no_new_info_signal = false;
  has_reviewer_comment = none;
}
