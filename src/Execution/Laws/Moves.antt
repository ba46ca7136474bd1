-- ===== src/Execution/Laws/Moves.antt =====
-- core/orchestrator-actions.ts: the changes of state within an action.
use ninthwave.Prelude.{ℕ, true, false, ◌≡◌, refl, sym, subst, Option, none}
use ninthwave.Orchestrator.Types.{State, ci_failed, is, allows}
use ninthwave.Orchestrator.Item.{Item}
use ninthwave.Orchestrator.Transition.{Clock, transition, moved}
use ninthwave.Execution.Deps.{ran, change}

-- What a change of state keeps of an item, and what it makes of it.
pub kept-moved :
    (wall : ℕ) (s : State) (e : Option _) (item : Item)
    → ((moved wall s e item).rebase_attempt_count ≡ item.rebase_attempt_count)
      × ((moved wall s e item).merge_fail_count ≡ item.merge_fail_count)
      × ((moved wall s e item).retry_count ≡ item.retry_count)
      × ((moved wall s e item).workspace_ref ≡ item.workspace_ref)
      × ((moved wall s e item).needs_ci_fix ≡ item.needs_ci_fix)
      × ((moved wall s e item).needs_feedback_response ≡ item.needs_feedback_response)
      × ((moved wall s e item).work_item ≡ item.work_item)
unfolding moved
kept-moved wall ci_failed e item = (refl, refl, refl, refl, refl, refl, refl)
kept-moved wall _ e item = (refl, refl, refl, refl, refl, refl, refl)

pub change-allowed :
    (clock : Clock) (from s : State) (item : Item)
    → item.state ≡ from
    → is from s ≡ false
    → allows from s ≡ true
    → change clock s item ≡ ran (moved clock.wall s none item)
unfolding transition
change-allowed clock from s item h n a =
    let n' : is item.state s ≡ false = subst (λ x. is x s ≡ false) (sym h) n in
    let a' : allows item.state s ≡ true = subst (λ x. allows x s ≡ true) (sym h) a in
    rw (n', a') refl
