-- ===== src/Execution/Inbox.antt =====
-- core/orchestrator-actions.ts: where the messages for the worker of an item go, and the branches that its
-- pull request is for.
use Prim.Native.String.{◌++◌ as append, slice, len}
use text.Mathlib.Text.{starts_with}
use ninthwave.Prelude.{
  Bool, true, false, String, List, [], ◌∷◌, Option, none, some, get_or, any, if◌then◌else◌,
}
use ninthwave.Orchestrator.Types.{State, done, merged, forward_fix_pending, fix_forward_failed}
use ninthwave.Orchestrator.Item.{Item}
use ninthwave.Orchestrator.Store.{Store, get_item, branch_of}
use ninthwave.Execution.Deps.{
  Deps, Context, Notice, Call, write_inbox_call, rebase_call, Run, ran, returned, threw, await,
  recover, ◌>>=◌,
}

-- `join(ctx.worktreeDir, "ninthwave-" + item.id)`.
abbrev pub hub_worktree : Context → Deps → String → String
hub_worktree ctx deps id = deps.io.join ctx.worktree_dir (append "ninthwave-" id)

-- `item.worktreePath ?? join(...)`.
abbrev pub worktree_of : Context → Deps → Item → String
worktree_of ctx deps item = get_or item.worktree_path (hub_worktree ctx deps item.id)

-- The `projectRoot` of the resolution.
unfoldable pub resolve_implementer_inbox_target : Context → Deps → Item → Option String
resolve_implementer_inbox_target ctx deps item =
    if deps.io.exists_sync (hub_worktree ctx deps item.id)
    then some (hub_worktree ctx deps item.id)
    else elim item.worktree_path [
      | none ↦ none
      | some path ↦ if deps.io.exists_sync path then some path else none
    ]

-- The calls, and whether the message had a target.
unfoldable pub deliver_to_implementer_inbox :
    Context → Deps → Item → Notice → Run (List Call × Bool)
unfolding resolve_implementer_inbox_target
deliver_to_implementer_inbox ctx deps item notice =
    elim (resolve_implementer_inbox_target ctx deps item) [
      | none ↦ ran ([], false)
      | some root ↦ do
        u ← await (deps.io.write_inbox root item.id notice)
        ran (write_inbox_call root item.id notice ∷ [], true)
    ]

-- The branch, and the item that remembers it.
unfoldable pub resolve_default_branch : Deps → Item → Item × String
resolve_default_branch deps item = elim item.default_branch [
  | some branch ↦ (item, branch)
  | none ↦ elim deps.gh.get_default_branch [
    | none ↦ (record item { default_branch = some "main" }, "main")
    | some ask ↦ elim ask [
      | threw e ↦ (item, "main")
      | returned answer ↦
          (record item { default_branch = some (get_or answer "main") }, get_or answer "main")
    ]
  ]
]

-- `DEP_DONE_STATES`.
abbrev pub dep_done : State → Bool
dep_done done = true
dep_done merged = true
dep_done forward_fix_pending = true
dep_done fix_forward_failed = true
dep_done _ = false

-- `!dep || DEP_DONE_STATES.has(dep.state)`.
abbrev pub is_gone : Option Item → Bool
is_gone none = true
is_gone (some dep) = dep_done dep.state

-- `branch.replace(/^ninthwave\//, "")`.
unfoldable pub dep_id : String → String
dep_id branch = if starts_with branch "ninthwave/" then slice branch 10 (len branch) else branch

unfoldable pub resolve_expected_pr_base : Store → Item → String → String
unfolding dep_id
resolve_expected_pr_base store item default_branch = elim item.base_branch [
  | none ↦ default_branch
  | some branch ↦ if is_gone (get_item (dep_id branch) store) then default_branch else branch
]

abbrev pub is_dep_done : Option Item → Bool
is_dep_done none = false
is_dep_done (some dep) = dep_done dep.state

unfoldable pub was_recently_unstacked : Store → Item → Bool
was_recently_unstacked store item =
    any (λ id. is_dep_done (get_item id store)) item.work_item.dependencies

-- `if (deps.git.daemonRebase) try { ... } catch {}`: whether it rebased, and the calls.
unfoldable pub try_daemon_rebase : Context → Deps → Item → List Call × Bool
try_daemon_rebase ctx deps item = elim deps.git.daemon_rebase [
  | none ↦ ([], false)
  | some rebase ↦
      let path = worktree_of ctx deps item in
      (rebase_call path (branch_of item.id) ∷ [], recover false (rebase path (branch_of item.id)))
]
