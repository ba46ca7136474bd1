-- ===== src/Orchestrator/Actions.antt =====
-- core/orchestrator-types.ts: timestamps, comments, messages and the actions that the state machine
-- asks for. A message or a failure reason is one constructor for each template text of the source,
-- with the values that are put into it.
use ninthwave.Prelude.{ℕ, Bool, String, List, Option, none, some}

-- The text of a timestamp: one that `new Date` reads, as milliseconds since the epoch, or another,
-- whose `getTime()` is `NaN`.
pub data Stamp : Type 0 where
  at : ℕ → Stamp
  malformed : String → Stamp

abbrev pub ms : Stamp → Option ℕ
ms (at t) = some t
ms (malformed s) = none

pub data CommentType : Type 0 where
  issue review : CommentType

-- `createdAt` comes from GitHub in one fixed format, where texts order as the instants do.
pub record Comment : Type 0 where
  pub id : Option ℕ
  pub body : String
  pub author : String
  pub created_at : ℕ
  pub comment_type : Option CommentType

-- `PendingFeedbackBatch`.
pub record Batch : Type 0 where
  pub comments : List Comment
  pub deadline : ℕ

pub data Message : Type 0 where
  ci_failed_fix ci_still_failing_fix ci_failed_in_review_fix : Message
  rebase_for_failed_ci rebase_for_conflicts : Message
  dependency_stuck dependency_resumed : String → Message
  feedback_batch : Option ℕ → List Comment → Message
  review_feedback : ℕ → ℕ → ℕ → String → Message
  review_changes_requested github_changes_requested : Option ℕ → Message

pub data FailureReason : Type 0 where
  merge_conflicts ci_checks_failed ci_regression_in_review : FailureReason
  max_ci_retries_exceeded : ℕ → FailureReason
  worker_not_responding : ℕ → FailureReason
  crashed_in_launch launch_timeout crashed_without_pr : FailureReason
  stalled_alive stalled_no_commits stalled_no_new_commits : FailureReason
  rebaser_died merge_aborted : FailureReason
  max_review_rounds_exceeded : ℕ → FailureReason
  main_ci_failed : Option String → FailureReason
  max_fix_forward_exceeded : ℕ → Option String → FailureReason
  forward_fixer_died : Option String → FailureReason
  pickup_blocked launch_no_result : String → FailureReason
  launch_threw : Option String → FailureReason
  merge_retries_exceeded : ℕ → ℕ → FailureReason
  rebase_loop : ℕ → FailureReason

pub data Verdict : Type 0 where
  approve request_changes : Verdict

-- The fields of `ReviewVerdict` that the state machine reads.
pub record ReviewVerdict : Type 0 where
  pub verdict : Verdict
  pub summary : String
  pub blocking_count : ℕ
  pub non_blocking_count : ℕ

pub data StatusState : Type 0 where
  pending success failure : StatusState

pub data StatusDescription : Type 0 where
  reviews_disabled review_in_progress reviewer_died : StatusDescription
  re_review_in_progress : ℕ → StatusDescription
  review_passed changes_requested : ℕ → ℕ → StatusDescription

-- `Action`: its `type`, with `itemId` first and then the fields that the source sets.
pub data Action : Type 0 where
  launch : String → Option String → Action
  merge : String → Option ℕ → Bool → Action
  notify_ci_failure : String → Option ℕ → Message → Action
  notify_review send_message rebase : String → Message → Action
  daemon_rebase : String → Message → Bool → Action
  clean workspace_close retry sync_stack_comments clean_rebaser clean_review : String → Action
  launch_forward_fixer clean_forward_fixer : String → Action
  launch_review : String → Option ℕ → Action
  set_commit_status : String → Option ℕ → StatusState → StatusDescription → Action
  post_review : String → Option ℕ → ReviewVerdict → Action
  clear_feedback_done_signal clear_pushback_signal clear_no_new_info_signal : String → Action

abbrev pub item_id : Action → String
item_id (launch i b) = i
item_id (merge i p a) = i
item_id (notify_ci_failure i p m) = i
item_id (notify_review i m) = i
item_id (send_message i m) = i
item_id (rebase i m) = i
item_id (daemon_rebase i m e) = i
item_id (clean i) = i
item_id (workspace_close i) = i
item_id (retry i) = i
item_id (sync_stack_comments i) = i
item_id (clean_rebaser i) = i
item_id (clean_review i) = i
item_id (launch_forward_fixer i) = i
item_id (clean_forward_fixer i) = i
item_id (launch_review i p) = i
item_id (set_commit_status i p s d) = i
item_id (post_review i p v) = i
item_id (clear_feedback_done_signal i) = i
item_id (clear_pushback_signal i) = i
item_id (clear_no_new_info_signal i) = i
