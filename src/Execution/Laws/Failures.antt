-- ===== src/Execution/Laws/Failures.antt =====
-- core/orchestrator-actions.ts: what a merge that GitHub refuses does to its item.
use ninthwave.Prelude.{ℕ, Bool, true, false, ◌&&◌, ◌==◌}
use ninthwave.Orchestrator.Types.{State, is}
use ninthwave.Orchestrator.Item.{Item}
use ninthwave.Orchestrator.Store.{Store}
use ninthwave.Execution.Deps.{Run, ran, raised, illegal, thrown, Deps, Executed}

-- The run ends in this state with this count of failures. Only a call may throw.
abbrev pub is_end : State → ℕ → Run Executed → Bool
is_end s n (raised (illegal from to)) = false
is_end s n (raised (thrown text)) = true
is_end s n (ran r) = is r.item.state s && r.item.merge_fail_count == n
