-- ===== src/Examples/Planning.antt =====
-- Concrete inputs for core/commands/batch-order.ts.
use ninthwave.Prelude.{ℕ, String, List, [], ◌∷◌, some, false, refl, ◌≡◌}
use ninthwave.Orchestrator.Item.{WorkItem, medium}
use ninthwave.Planning.Batches.{
  compute_batches, BatchOutcome, assigned_all, circular, Assignments, internal_deps, valid_ids,
  find_item, batch_loop, next_batch, assign_all,
}
use ninthwave.Planning.Laws.Rounds.{compute_batches-total}
use ninthwave.Planning.Laws.Outcome.{IsOutcome, compute_batches-IsOutcome}
use ninthwave.Planning.Laws.Unknown.{compute_batches-unknown}

abbrev work : String → List String → WorkItem
work id dependencies = record {
  id = id;
  priority = medium;
  title = "t";
  dependencies = dependencies;
  requires_manual_review = false;
}

abbrev diamond : List WorkItem
diamond = work "A" [] ∷ work "B" ("A" ∷ []) ∷ work "C" ("A" ∷ "B" ∷ []) ∷ []

abbrev chosen : List String
chosen = "C" ∷ "B" ∷ "A" ∷ []

abbrev layers : BatchOutcome
layers = assigned_all (("A", 1) ∷ ("B", 2) ∷ ("C", 3) ∷ []) 3

compute_batches-total_example : (r : BatchOutcome) × (compute_batches diamond chosen ≡ some r)
compute_batches-total_example = compute_batches-total diamond chosen

compute_batches-IsOutcome_example :
    IsOutcome (internal_deps diamond chosen) (valid_ids diamond chosen) layers
unfolding compute_batches batch_loop next_batch assign_all valid_ids internal_deps find_item
compute_batches-IsOutcome_example = compute_batches-IsOutcome diamond chosen layers refl

-- `B` is selected, and no item has that id.
abbrev lonely : List WorkItem
lonely = work "A" ("B" ∷ []) ∷ []

compute_batches-unknown_example :
    (a : Assignments) × (n : ℕ) × (ids : List String) × (compute_batches lonely ("A" ∷ "B" ∷ [])
      ≡ some (circular a n ids))
unfolding valid_ids internal_deps find_item
compute_batches-unknown_example =
    compute_batches-unknown lonely ("A" ∷ "B" ∷ []) "A" "B" refl refl refl
