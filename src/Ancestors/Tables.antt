-- ===== src/Ancestors/Tables.antt =====
-- The tables that `createNewAncestors` works on (app/database/ancestors.go).
use algorea_backend.Shared.{ℕ, Bool, true, false, ◌&&◌, ◌||◌, List, [], ◌∷◌, ◌==◌}

pub data AncestorsComputationState : Type 0 where
  todo done : AncestorsComputationState

-- groups_propagate or items_propagate, by id.
abbrev pub PropagateTable : Type 0
PropagateTable = List (ℕ × AncestorsComputationState)

abbrev pub is_todo_state : AncestorsComputationState → Bool
is_todo_state AncestorsComputationState.todo = true
is_todo_state AncestorsComputationState.done = false

-- Is the object marked 'todo'?
unfoldable pub is_todo : PropagateTable → ℕ → Bool
is_todo [] i = false
is_todo ((j, state) ∷ rows) i = (j == i && is_todo_state state) || is_todo rows i

-- The table of the objects to process: its ids.
unfoldable pub is_listed : List ℕ → ℕ → Bool
is_listed [] i = false
is_listed (j ∷ ids) i = j == i || is_listed ids i

-- Is the pair in the list?
unfoldable pub has_pair : List (ℕ × ℕ) → ℕ → ℕ → Bool
has_pair [] a c = false
has_pair ((ancestor, child) ∷ pairs) a c = (ancestor == a && child == c) || has_pair pairs a c

-- What differs between the two names of objects ("groups" and "items"), for a table of ancestors
-- `A`: the pairs of a parent and a child that count, the pairs of an ancestor and a child of the
-- table, and the statements that recompute the ancestors of the objects to process.
pub record ObjectTables (A : Type 0) : Type 0 where
  pub relations : List (ℕ × ℕ)
  pub pairs : A → List (ℕ × ℕ)
  pub recompute : List ℕ → A → A

-- The tables that the recomputation changes.
pub record AncestorsState (A : Type 0) : Type 0 where
  pub ancestors : A
  pub propagate : PropagateTable
