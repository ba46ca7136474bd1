-- ===== src/Execution/Laws/Forgotten.antt =====
-- core/orchestrator-actions.ts: a CI failure whose worker could not be launched.
use ninthwave.Prelude.{ℕ, ◌+◌, false, ◌||◌, String, List, [], ◌∷◌, Option}
use ninthwave.Orchestrator.Types.{Config}
use ninthwave.Orchestrator.Item.{Item}
use ninthwave.Orchestrator.Transition.{Clock}
use ninthwave.Orchestrator.Store.{Store}
use ninthwave.Execution.Deps.{Deps, Context, Call, launch_call, get_next_tool}
use ninthwave.Execution.Launch.{live_base, item_base}

module _ (clock : Clock) (config : Config) (store : Store) (ctx : Context) (deps : Deps)
    (base : Option String) (pr : ℕ) where
  -- What is launched, and the call.
  abbrev cleared : Item → Item
  cleared item = record item { base_branch = item_base store base item; needs_ci_fix = false }

  abbrev again : Item → Item
  again item = record (cleared item) { retry_count = item.retry_count + 1 }

  abbrev calls_of : Item → List Call
  calls_of item =
      launch_call item.id (get_next_tool ctx).0 (live_base store base)
        (item.needs_ci_fix || item.needs_feedback_response)
      ∷ []
