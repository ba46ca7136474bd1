-- ===== src/Execution/Notices.antt =====
-- core/orchestrator-actions.ts: the messages to the workers, and what is put on a pull request. No message
-- of an action is empty, so the default texts do not occur.
use ninthwave.Prelude.{
  ℕ, Bool, true, false, ◌&&◌, [], ◌∷◌, ◌++◌, Option, none, some, or_else, if◌then◌else◌,
}
use ninthwave.Orchestrator.Types.{ready}
use ninthwave.Orchestrator.Actions.{
  Message, CommentType, ReviewVerdict, StatusState, StatusDescription,
}
use ninthwave.Orchestrator.Item.{Item}
use ninthwave.Orchestrator.Transition.{Clock}
use ninthwave.Execution.Deps.{
  returned, threw, Run, await, ◌>>=◌, Deps, Context, write_inbox_call, comment_call, status_call,
  reaction_call, Note, ci_failure_detected, verdict_of, forwarded, Executed, finish, end_in,
}
use ninthwave.Execution.Inbox.{deliver_to_implementer_inbox, resolve_implementer_inbox_target}
use ninthwave.Execution.Sessions.{drain_pending_reactions}

abbrev pub report : Deps → ℕ → Note → Run Bool
report deps pr note = elim deps.gh.upsert_orchestrator_comment [
  | some upsert ↦ await (upsert pr note)
  | none ↦ await (deps.gh.pr_comment pr note)
]

-- With no inbox a new worker is launched for the failure.
unfoldable pub execute_notify_ci_failure : Clock → Context → Deps → Message → Item → Run Executed
unfolding resolve_implementer_inbox_target
execute_notify_ci_failure clock ctx deps message item =
    elim (resolve_implementer_inbox_target ctx deps item) [
      | none ↦
          end_in clock ready [] false (record item { needs_ci_fix = true; workspace_ref = none })
      | some root ↦ do
        u ← await (deps.io.write_inbox root item.id (forwarded message))
        let told = write_inbox_call root item.id (forwarded message) ∷ []
        elim item.pr_number [
          | none ↦ finish item told true
          | some pr ↦ do
            b ← report deps pr (ci_failure_detected item.id)
            finish item (told ++ comment_call pr (ci_failure_detected item.id) ∷ []) true
        ]
    ]

unfoldable pub execute_notify_review : Context → Deps → Message → Item → Run Executed
unfolding deliver_to_implementer_inbox
execute_notify_review ctx deps message item = do
  d ← deliver_to_implementer_inbox ctx deps item (forwarded message)
  finish item d.0 d.1

-- `item.pendingFeedbackMessage === message`, by the equality `same` of two texts.
abbrev pub is_pending : (Message → Message → Bool) → Option Message → Message → Bool
is_pending same none message = false
is_pending same (some pending) message = same pending message

-- A live delivery of the feedback that is pending settles it.
abbrev pub settle_feedback : (Message → Message → Bool) → Message → Item → Item
settle_feedback same message item =
    if item.pending_feedback_live_delivery_armed
      && item.needs_feedback_response
      && is_pending same item.pending_feedback_message message
    then record item {
      needs_feedback_response = false;
      pending_feedback_message = none;
      pending_feedback_live_delivery_armed = false;
    }
    else item

unfoldable pub execute_send_message :
    (Message → Message → Bool) → Context → Deps → Message → Item → Run Executed
unfolding deliver_to_implementer_inbox drain_pending_reactions
execute_send_message same ctx deps message item = do
  d ← deliver_to_implementer_inbox ctx deps item (forwarded message)
  let r = drain_pending_reactions deps (settle_feedback same message item)
  if d.1 then finish r.0 (d.0 ++ r.1) true else finish item d.0 false

-- An exception of the reaction is ignored.
unfoldable pub execute_react_to_comment : Deps → Option ℕ → Option CommentType → Item → Run Executed
execute_react_to_comment deps comment_id comment_type item = elim deps.gh.add_comment_reaction [
  | none ↦ finish item [] true
  | some react ↦ elim comment_id [
    | none ↦ finish item [] false
    | some id ↦ elim comment_type [
      | none ↦ finish item [] false
      | some type ↦ finish item (reaction_call id type ∷ []) true
    ]
  ]
]

unfoldable pub execute_set_commit_status :
    Deps → Option ℕ → StatusState → StatusDescription → Item → Run Executed
execute_set_commit_status deps action_pr state description item = elim deps.gh.set_commit_status [
  | none ↦ finish item [] true
  | some set_status ↦ elim (or_else action_pr item.pr_number) [
    | none ↦ finish item [] false
    | some pr ↦ do
      done ← await (set_status pr state description)
      finish item (status_call pr state description ∷ []) done
  ]
]

unfoldable pub execute_post_review : Deps → Option ℕ → ReviewVerdict → Item → Run Executed
execute_post_review deps action_pr verdict item = elim (or_else action_pr item.pr_number) [
  | none ↦ finish item [] false
  | some pr ↦ elim (deps.gh.pr_comment pr (verdict_of verdict)) [
    | threw e ↦ finish item (comment_call pr (verdict_of verdict) ∷ []) false
    | returned b ↦ finish item (comment_call pr (verdict_of verdict) ∷ []) true
  ]
]
