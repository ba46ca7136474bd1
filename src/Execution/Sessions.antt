-- ===== src/Execution/Sessions.antt =====
-- core/orchestrator-actions.ts: the actions that close, clean or open the sessions of an item. The files of
-- heartbeats, phases, inboxes, verdicts and signals, whose removal is best-effort, are left out.
use ninthwave.Prelude.{
  ℕ, Bool, true, false, ◌&&◌, ◌||◌, String, List, [], ◌∷◌, ◌++◌, Option, none, some, is_some,
  or_else, if◌then◌else◌,
}
use ninthwave.Orchestrator.Types.{stuck, is}
use ninthwave.Orchestrator.Actions.{CommentType}
use ninthwave.Orchestrator.Item.{Item}
use ninthwave.Execution.Deps.{
  Attempt, returned, threw, Run, ran, await, recover, ◌>>=◌, Deps, Context, Call, close_call,
  clean_session_call, clean_worktree_call, save_worktree_call, reaction_call, launch_review_call,
  launch_fixer_call, Executed, finish,
}
use ninthwave.Execution.Inbox.{worktree_of, resolve_default_branch}
use ninthwave.Execution.Rebasing.{tool_of}

-- The screen of a workspace, kept where it can be read and is not empty.
unfoldable pub read_screen_of : Deps → Option String → Item → Item
read_screen_of deps none item = item
read_screen_of deps (some ref) item = elim deps.mux.read_screen [
  | none ↦ item
  | some read ↦ record item {
    last_screen_output = or_else (recover none (read ref)) item.last_screen_output;
  }
]

-- `closeWorkspace`, where there is one: `none` where none was tried.
abbrev pub close_ref : Deps → Option String → Item → Run (Option Bool)
close_ref deps none item = ran none
close_ref deps (some ref) item = do
  closed ← await (deps.mux.close_workspace ref item.id)
  ran (some closed)

abbrev pub close_calls : Option String → Item → List Call
close_calls none item = []
close_calls (some ref) item = close_call ref item.id ∷ []

abbrev pub was_closed : Option Bool → Bool
was_closed none = false
was_closed (some b) = b

-- The reference is cleared whether or not the workspace could be closed.
unfoldable pub execute_clean : Deps → Item → Run Executed
unfolding read_screen_of
execute_clean deps item = do
  let seen = (if is item.state stuck then read_screen_of deps item.workspace_ref item else item)
  closed ← close_ref deps item.workspace_ref item
  cleaned ← await (deps.cleanup.clean_single_worktree item.id)
  finish (record seen { workspace_ref = none })
      (close_calls item.workspace_ref item ++ clean_worktree_call item.id ∷ [])
      (was_closed closed || cleaned)

-- The worktree stays, and so does the reference of a workspace that could not be closed.
unfoldable pub execute_workspace_close : Deps → Item → Run Executed
unfolding read_screen_of
execute_workspace_close deps item = do
  let seen = read_screen_of deps item.workspace_ref item
  closed ← close_ref deps item.workspace_ref item
  elim closed [
    | none ↦ finish seen [] true
    | some false ↦ finish seen (close_calls item.workspace_ref item) false
    | some true ↦
        finish (record seen { workspace_ref = none }) (close_calls item.workspace_ref item) true
  ]

abbrev pub reactions : List (ℕ × CommentType) → List Call
reactions [] = []
reactions ((id, type) ∷ rest) = reaction_call id type ∷ reactions rest

-- `drainPendingReactions`: each reaction is tried once.
unfoldable pub drain_pending_reactions : Deps → Item → Item × List Call
drain_pending_reactions deps item =
    if is_some deps.gh.add_comment_reaction
    then (record item { pending_comment_reactions = [] }, reactions item.pending_comment_reactions)
    else (item, [])

abbrev pub clear_refs : Option String → Item → Item
clear_refs none item = item
clear_refs (some ref) item = record item {
  workspace_ref = none;
  pending_retry_workspace_ref = none;
}

-- The uncommitted changes of a worktree that exists.
abbrev pub save_calls : Context → Deps → Item → List Call
save_calls ctx deps item =
    if deps.io.exists_sync (worktree_of ctx deps item) && is_some deps.git.auto_save_worktree
    then save_worktree_call (worktree_of ctx deps item) ∷ []
    else []

abbrev pub drained : Deps → Item → Item × List Call
drained deps item =
    if item.needs_feedback_response then drain_pending_reactions deps item else (item, [])

unfoldable pub execute_retry : Context → Deps → Item → Run Executed
unfolding read_screen_of drain_pending_reactions
execute_retry ctx deps item = do
  let ref = or_else item.pending_retry_workspace_ref item.workspace_ref
  closed ← close_ref deps ref item
  let d = drained deps (clear_refs ref (read_screen_of deps ref item))
  finish d.0 (save_calls ctx deps item ++ close_calls ref item ++ d.1) true

-- Whether the session of a worker was cleaned without an exception; the caller clears its reference.
unfoldable pub clean_worker_workspace :
    String → Option String → Option (String → String → Attempt Bool) → List Call × Bool
clean_worker_workspace id ref none = ([], true)
clean_worker_workspace id none (some clean) = ([], true)
clean_worker_workspace id (some ref) (some clean) = elim (clean id ref) [
  | returned b ↦ (clean_session_call id ref ∷ [], true)
  | threw e ↦ (clean_session_call id ref ∷ [], false)
]

unfoldable pub execute_clean_rebaser : Deps → Item → Run Executed
unfolding clean_worker_workspace
execute_clean_rebaser deps item =
    let r = clean_worker_workspace item.id item.rebaser_workspace_ref deps.cleanup.clean_rebaser in
    finish (record item { rebaser_workspace_ref = none }) r.0 r.1

unfoldable pub execute_clean_review : Deps → Item → Run Executed
unfolding clean_worker_workspace
execute_clean_review deps item =
    let r = clean_worker_workspace item.id item.review_workspace_ref deps.cleanup.clean_review in
    finish (record item { review_workspace_ref = none; review_verdict_path = none }) r.0 r.1

unfoldable pub execute_clean_forward_fixer : Deps → Item → Run Executed
unfolding clean_worker_workspace
execute_clean_forward_fixer deps item =
    let r =
      clean_worker_workspace item.id item.fix_forward_workspace_ref
        deps.cleanup.clean_forward_fixer in
    finish (record item { fix_forward_workspace_ref = none }) r.0 r.1

-- `executeLaunchReview`: with no launcher it does nothing, and a launch with no result succeeds too.
unfoldable pub execute_launch_review : Context → Deps → Option ℕ → Item → Run Executed
execute_launch_review ctx deps action_pr item = elim deps.workers.launch_review [
  | none ↦ finish item [] true
  | some launch ↦ elim (or_else action_pr item.pr_number) [
    | none ↦ finish item [] false
    | some pr ↦ elim (launch item.id pr item.worktree_path (tool_of ctx item)) [
      | threw e ↦ finish item (launch_review_call item.id pr ∷ []) false
      | returned none ↦ finish item (launch_review_call item.id pr ∷ []) true
      | returned (some l) ↦
          finish
            (record item {
              review_workspace_ref = some l.workspace_ref;
              review_verdict_path = some l.verdict_path;
            })
            (launch_review_call item.id pr ∷ []) true
    ]
  ]
]

unfoldable pub execute_launch_forward_fixer : Context → Deps → Item → Run Executed
unfolding resolve_default_branch
execute_launch_forward_fixer ctx deps item = elim deps.workers.launch_forward_fixer [
  | none ↦ finish item [] false
  | some launch ↦ elim item.merge_commit_sha [
    | none ↦ finish item [] false
    | some sha ↦
        let known = resolve_default_branch deps item in
        let calls = launch_fixer_call item.id sha known.1 ∷ [] in
        elim (launch item.id sha (tool_of ctx item) known.1) [
          | threw e ↦ finish known.0 calls false
          | returned none ↦ finish known.0 calls true
          | returned (some ref) ↦
              finish (record known.0 { fix_forward_workspace_ref = some ref }) calls true
        ]
  ]
]
