-- ===== src/Planning/Batches.antt =====
-- core/commands/batch-order.ts: `computeBatches`. A map is a list with one entry for each key.
use ninthwave.Prelude.{
  ℕ, zero, suc, ◌+◌, Bool, not, String, List, [], ◌∷◌, ◌++◌, Option, none, some, is_some, any,
  every, keep, length, if◌then◌else◌, str_eq,
}
use ninthwave.Orchestrator.Item.{WorkItem}

-- `Set.has`.
abbrev pub has_id : String → List String → Bool
has_id id ids = any (str_eq id) ids

-- `itemMap.get`: of two items with one id the later counts.
unfoldable pub find_item : String → List WorkItem → Option WorkItem
find_item id [] = none
find_item id (item ∷ rest) = elim (find_item id rest) [
  | some later ↦ some later
  | none ↦ if str_eq item.id id then some item else none
]

abbrev pub deps_within : List String → Option WorkItem → List String
deps_within selected none = []
deps_within selected (some item) = keep (λ d. has_id d selected) item.dependencies

-- `itemInternalDeps.get(id) ?? []`.
unfoldable pub internal_deps : List WorkItem → List String → String → List String
unfolding find_item
internal_deps items selected id = deps_within selected (find_item id items)

unfoldable pub valid_ids : List WorkItem → List String → List String
unfolding find_item
valid_ids items selected = keep (λ id. is_some (find_item id items)) selected

-- The ids with their batches, in the order of assignment.
abbrev pub Assignments : Type 0
Assignments = List (String × ℕ)

abbrev pub has_batch : String → Assignments → Bool
has_batch id assigned = any (λ p. str_eq p.0 id) assigned

-- `assignments.set(id, batch)`. An id that is there already was put there in this round, with the same
-- batch: those of earlier rounds no longer remain.
abbrev pub assign : ℕ → String → Assignments → Assignments
assign batch id assigned = if has_batch id assigned then assigned else assigned ++ (id, batch) ∷ []

unfoldable pub assign_all : ℕ → List String → Assignments → Assignments
assign_all batch [] assigned = assigned
assign_all batch (id ∷ ids) assigned = assign_all batch ids (assign batch id assigned)

-- A `BatchResult`, or what the `CircularDependencyError` holds.
pub data BatchOutcome : Type 0 where
  assigned_all : Assignments → ℕ → BatchOutcome
  circular : Assignments → ℕ → List String → BatchOutcome

module _ (deps : String → List String) where
  -- The items of the next batch.
  unfoldable pub next_batch : Assignments → List String → List String
  next_batch assigned remaining = keep (λ id. every (λ d. has_batch d assigned) (deps id)) remaining

  -- The loop, on fuel; `none` means that the fuel ran out. The number is that of the last batch.
  unfoldable pub batch_loop : ℕ → ℕ → Assignments → List String → Option BatchOutcome
  unfolding next_batch assign_all
  batch_loop fuel batch assigned [] = some (assigned_all assigned batch)
  batch_loop zero batch assigned (id ∷ ids) = none
  batch_loop (suc fuel) batch assigned (id ∷ ids) = elim (next_batch assigned (id ∷ ids)) [
    | [] ↦ some (circular assigned batch (id ∷ ids))
    | b ∷ bs ↦
        let assigned' = assign_all (batch + 1) (b ∷ bs) assigned in
        batch_loop fuel (batch + 1) assigned' (keep (λ id. not (has_batch id assigned')) (id ∷ ids))
  ]

-- Each round assigns an item, so as much fuel as there are ids is enough.
unfoldable pub compute_batches : List WorkItem → List String → Option BatchOutcome
compute_batches items selected =
    batch_loop (internal_deps items selected) (length (valid_ids items selected)) 0 []
      (valid_ids items selected)
