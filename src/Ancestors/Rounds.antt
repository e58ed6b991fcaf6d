-- ===== src/Ancestors/Rounds.antt =====
-- The statements and the loop of `createNewAncestors` (app/database/ancestors.go). The loop runs on
-- fuel, and has no result where the fuel is used up.
use algorea_backend.Shared.{
  ℕ, zero, suc, Bool, true, false, ◌&&◌, ◌||◌, not, Option, none, some, List, [], ◌∷◌, ◌==◌,
  if◌then◌else◌,
}
use algorea_backend.Ancestors.Tables.{
  AncestorsComputationState, PropagateTable, is_todo_state, is_todo, is_listed, ObjectTables,
  AncestorsState,
}

-- ON DUPLICATE KEY UPDATE ancestors_computation_state = 'todo'.
unfoldable pub mark_todo : ℕ → PropagateTable → PropagateTable
mark_todo i [] = (i, AncestorsComputationState.todo) ∷ []
mark_todo i ((j, state) ∷ rows) =
    let rest = mark_todo i rows in
    if j == i then (i, AncestorsComputationState.todo) ∷ rows else (j, state) ∷ rest

-- The first statement: the descendants of the objects that were 'todo' become 'todo'.
unfoldable pub mark_descendants : List (ℕ × ℕ) → PropagateTable → PropagateTable
mark_descendants [] rows = rows
mark_descendants ((ancestor, child) ∷ pairs) rows =
    let rest = mark_descendants pairs rows in
    if is_todo rows ancestor then mark_todo child rest else rest

-- Is a parent of the object 'todo'?
unfoldable pub has_todo_parent : List (ℕ × ℕ) → PropagateTable → ℕ → Bool
has_todo_parent [] rows i = false
has_todo_parent ((parent, child) ∷ relations) rows i =
    (child == i && is_todo rows parent) || has_todo_parent relations rows i

-- `markAsProcessingQuery`: the ids selected from the second list.
unfoldable pub mark_as_processing : List (ℕ × ℕ) → PropagateTable → PropagateTable → List ℕ
mark_as_processing relations rows [] = []
mark_as_processing relations rows ((i, state) ∷ selected) =
    let rest = mark_as_processing relations rows selected in
    if is_todo_state state && not (has_todo_parent relations rows i) then i ∷ rest else rest

-- `markAsDoneQuery`.
unfoldable pub mark_as_done : List ℕ → PropagateTable → PropagateTable
mark_as_done ids [] = []
mark_as_done ids ((i, state) ∷ rows) =
    let rest = mark_as_done ids rows in
    if is_listed ids i then (i, AncestorsComputationState.done) ∷ rest else (i, state) ∷ rest

abbrev pub is_empty : List ℕ → Bool
is_empty [] = true
is_empty (i ∷ ids) = false

module _ {A : Type 0} (object : ObjectTables A) where
  unfoldable pub objects_to_process : PropagateTable → List ℕ
  objects_to_process rows = mark_as_processing object.relations rows rows

  -- One round of the loop.
  unfoldable pub recompute_ancestors : AncestorsState A → AncestorsState A
  recompute_ancestors s =
      let ids = objects_to_process s.propagate in
      record {
        ancestors = object.recompute ids s.ancestors;
        propagate = mark_as_done ids s.propagate;
      }

  -- The loop: the last round is the one that affects no row.
  unfoldable pub recompute_until_done : ℕ → AncestorsState A → Option (AncestorsState A)
  recompute_until_done zero s = none
  recompute_until_done (suc fuel) s =
      let next = recompute_ancestors s in
      let rest = recompute_until_done fuel next in
      if is_empty (objects_to_process s.propagate) then some next else rest

  -- `createNewAncestors`.
  unfoldable pub create_new_ancestors : ℕ → AncestorsState A → Option (AncestorsState A)
  create_new_ancestors fuel s = recompute_until_done fuel (record {
    ancestors = s.ancestors;
    propagate = mark_descendants (object.pairs s.ancestors) s.propagate;
  })
