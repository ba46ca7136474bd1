-- ===== src/Execution/Deps.antt =====
-- core/orchestrator-types.ts: `ExecutionContext` and `OrchestratorDeps`, the functions by which an action
-- reaches git, GitHub, the terminal multiplexer and the workers. They are not code of the model: what they
-- answer while one action is carried out is a function of their arguments, a call that throws `threw`,
-- and one that is not wired is `none`. Arguments that are the same in every call are left out.
use Prim.{Unit}
use ninthwave.Prelude.{
  ℕ, zero, suc, ◌+◌, ◌%◌, Bool, String, List, [], ◌∷◌, Option, none, some, get_or, length, leb,
  if◌then◌else◌,
}
use ninthwave.Orchestrator.Types.{State}
use ninthwave.Orchestrator.Actions.{
  CommentType, Message, ReviewVerdict, StatusState, StatusDescription,
}
use ninthwave.Orchestrator.Item.{Item, WorkItem, PrState}
use ninthwave.Orchestrator.Transition.{Clock, Result, ok, illegal_transition, transition}

-- What a call returns that is made for its effect.
abbrev pub Nothing : Type 0
Nothing = Unit {0}

pub data Exception : Type 0 where
  illegal : State → State → Exception
  thrown : String → Exception

-- The answer of a call.
pub data Attempt {ℓ} (A : Type ℓ) : Type ℓ where
  returned : A → Attempt A
  threw : String → Attempt A

-- What a piece of code returns, or the exception that leaves it.
pub data Run {ℓ} (A : Type ℓ) : Type ℓ where
  ran : A → Run A
  raised : Exception → Run A

infixl 5 ◌>>=◌
abbrev pub ◌>>=◌ {ℓ κ} : {A : Type ℓ} {B : Type κ} → Run A → (A → Run B) → Run B
ran a >>= f = f a
raised e >>= f = raised e

-- A call within a `try` whose `catch` gives this value.
abbrev pub recover {ℓ} : {A : Type ℓ} → A → Attempt A → A
recover a (returned b) = b
recover a (threw text) = a

-- A call outside a `try`.
abbrev pub await {ℓ} : {A : Type ℓ} → Attempt A → Run A
await (returned a) = ran a
await (threw text) = raised (thrown text)

-- A `try` with its `catch` clause, and what follows in the `try` where nothing is thrown.
abbrev pub try_catch {ℓ κ} :
    {A : Type ℓ} {B : Type κ} → Run A → (Exception → Run B) → (A → Run B) → Run B
try_catch (ran a) catch more = more a
try_catch (raised e) catch more = catch e

abbrev pub lift : Result Item → Run Item
lift (ok item) = ran item
lift (illegal_transition s t) = raised (illegal s t)

-- `orch.transition(item, state)`.
abbrev pub change : Clock → State → Item → Run Item
change clock state item = lift (transition clock state none item)

-- The messages that are written to an inbox.
pub data Notice : Type 0 where
  forwarded : Message → Notice
  ci_fix_request : Notice
  launch_feedback : Message → Notice
  dep_branch_merged conflicts_with duplicate_commits blocked_by_protection : String → Notice
  restack_required restack_conflict dependency_merged : String → String → Notice
  sibling_conflicts : ℕ → String → String → Notice

-- The lines that are put on a pull request.
pub data Note : Type 0 where
  auto_merged : ℕ → String → Note
  ci_failure_detected : String → Note
  verdict_of : ReviewVerdict → Note

-- The calls that change something outside.
pub data Call : Type 0 where
  write_inbox_call : String → String → Notice → Call
  merge_call : ℕ → Bool → Call
  retarget_call : ℕ → String → Call
  rebase_call : String → String → Call
  rebase_onto_call : String → String → String → String → Call
  force_push_call : String → Call
  close_call : String → String → Call
  comment_call : ℕ → Note → Call
  status_call : ℕ → StatusState → StatusDescription → Call
  launch_call : String → String → Option String → Bool → Call
  launch_rebaser_call : String → ℕ → Call
  launch_review_call : String → ℕ → Call
  launch_fixer_call : String → String → String → Call
  clean_session_call : String → String → Call
  clean_worktree_call : String → Call
  save_worktree_call : String → Call
  complete_work_item_call : String → Call
  reaction_call : ℕ → CommentType → Call

pub data Validation : Type 0 where
  launchable : Validation
  skip_with_pr : ℕ → Validation
  is_blocked : String → Validation

pub record Launched : Type 0 where
  pub worktree_path : String
  pub workspace_ref : String
  pub existing_pr_number : Option ℕ

pub record ReviewLaunched : Type 0 where
  pub workspace_ref : String
  pub verdict_path : String

pub record BaseAndState : Type 0 where
  pub base_branch : Option String
  pub pr_state : Option PrState

pub record Git : Type 0 where
  pub fetch_and_merge : String → Attempt Nothing
  pub resolve_ref : Option (String → Attempt (Option String))
  pub rebase_onto : Option (String → String → String → String → Attempt Bool)
  pub force_push : Option (String → Attempt Bool)
  pub daemon_rebase : Option (String → String → Attempt Bool)
  pub auto_save_worktree : Option (String → Attempt Bool)

pub record Gh : Type 0 where
  pub pr_merge : ℕ → Bool → Attempt Bool
  pub pr_comment : ℕ → Note → Attempt Bool
  pub upsert_orchestrator_comment : Option (ℕ → Note → Attempt Bool)
  pub add_comment_reaction : Option (ℕ → CommentType → Attempt Nothing)
  pub set_commit_status : Option (ℕ → StatusState → StatusDescription → Attempt Bool)
  pub get_pr_base_branch : Option (ℕ → Attempt (Option String))
  pub get_pr_base_and_state : Option (ℕ → Attempt (Option BaseAndState))
  pub retarget_pr_base : Option (ℕ → String → Attempt Bool)
  pub check_pr_mergeable : Option (ℕ → Attempt Bool)
  pub is_pr_blocked : Option (ℕ → Attempt Bool)
  pub get_merge_commit_sha : Option (ℕ → Attempt (Option String))
  pub get_default_branch : Option (Attempt (Option String))

pub record Mux : Type 0 where
  pub close_workspace : String → String → Attempt Bool
  pub read_screen : Option (String → Attempt (Option String))

pub record Workers : Type 0 where
  pub validate_pickup_candidate : WorkItem → Attempt Validation
  pub launch_single_item : WorkItem → String → Option String → Bool → Attempt (Option Launched)
  pub launch_review : Option (String → ℕ → Option String → String → Attempt (Option ReviewLaunched))
  pub launch_rebaser : Option (String → ℕ → String → Attempt (Option String))
  pub launch_forward_fixer : Option (String → String → String → String → Attempt (Option String))

pub record Cleanup : Type 0 where
  pub clean_single_worktree : String → Attempt Bool
  pub clean_review : Option (String → String → Attempt Bool)
  pub clean_rebaser : Option (String → String → Attempt Bool)
  pub clean_forward_fixer : Option (String → String → Attempt Bool)
  pub complete_merged_work_item : Option (WorkItem → Attempt Nothing)

pub record Io : Type 0 where
  pub write_inbox : String → String → Notice → Attempt Nothing
  pub exists_sync : String → Bool
  pub join : String → String → String

pub record Deps : Type 0 where
  pub git : Git
  pub gh : Gh
  pub mux : Mux
  pub workers : Workers
  pub cleanup : Cleanup
  pub io : Io

pub record Context : Type 0 where
  pub worktree_dir : String
  pub ai_tool : String
  pub ai_tools : Option (List String)
  pub next_tool_index : Option ℕ

abbrev pub tool_at : List String → ℕ → String → String
tool_at [] n d = d
tool_at (t ∷ ts) zero d = t
tool_at (t ∷ ts) (suc n) d = tool_at ts n d

-- The tool, and the context with its counter moved on.
unfoldable pub get_next_tool : Context → String × Context
get_next_tool ctx =
    let tools = get_or ctx.ai_tools (ctx.ai_tool ∷ []) in
    let index = get_or ctx.next_tool_index 0 in
    if leb (length tools) 1 then (tool_at tools 0 ctx.ai_tool, ctx) else (
      tool_at tools (index % length tools) ctx.ai_tool,
      record ctx { next_tool_index = some (index + 1) },
    )

-- What an action leaves: the item, the calls that it made, in order, and whether it succeeded.
pub record Executed : Type 0 where
  pub item : Item
  pub calls : List Call
  pub success : Bool

abbrev pub finish : Item → List Call → Bool → Run Executed
finish item calls success = ran (record { item = item; calls = calls; success = success })

-- The item changes its state, and the action ends.
abbrev pub end_in : Clock → State → List Call → Bool → Item → Run Executed
end_in clock state calls success item = do
  item' ← change clock state item
  finish item' calls success
