-- ===== src/Access/Rounds.antt =====
-- The statements and the loop of `computeAllAccess`
-- (app/database/permission_granted_store_compute_all_access.go). The loop runs on fuel, and has no
-- result where the fuel is used up.
use algorea_backend.Shared.{
  ℕ, zero, suc, Bool, true, false, ◌&&◌, ◌||◌, not, Option, none, some, is_some, List, [], ◌∷◌,
  ◌==◌, if◌then◌else◌,
}
use algorea_backend.Access.Tables.{
  ItemItem, PropagateTo, self, children, Propagate, GeneratedTable, same_pair, generated_row,
  put_generated, Items, State,
}
use algorea_backend.Access.Computation.{computed_permissions}

abbrev pub is_self_mark : PropagateTo → Bool
is_self_mark self = true
is_self_mark children = false

abbrev pub is_for : ℕ → ℕ → Propagate → Bool
is_for g i row = same_pair row.group_id row.item_id g i

-- Is the pair marked with propagate_to = 'self'?
unfoldable pub is_self : List Propagate → ℕ → ℕ → Bool
is_self [] g i = false
is_self (row ∷ rows) g i = (is_for g i row && is_self_mark row.propagate_to) || is_self rows g i

-- Is it marked with propagate_to = 'children'?
unfoldable pub is_children : List Propagate → ℕ → ℕ → Bool
is_children [] g i = false
is_children (row ∷ rows) g i =
    (is_for g i row && not (is_self_mark row.propagate_to)) || is_children rows g i

-- The rows of the other pairs.
unfoldable pub without_pair : ℕ → ℕ → List Propagate → List Propagate
without_pair g i [] = []
without_pair g i (row ∷ rows) =
    let rest = without_pair g i rows in if is_for g i row then rest else row ∷ rest

-- INSERT ... ON DUPLICATE KEY UPDATE propagate_to='self'.
unfoldable pub mark_self : ℕ → ℕ → List Propagate → List Propagate
mark_self g i rows =
    record { group_id = g; item_id = i; propagate_to = self } ∷ without_pair g i rows

-- For the children of one item.
unfoldable pub mark_children_of : List ItemItem → ℕ → ℕ → List Propagate → List Propagate
mark_children_of [] g i rows = rows
mark_children_of (r ∷ relations) g i rows =
    let rest = mark_children_of relations g i rows in
    if r.parent_item_id == i then mark_self g r.child_item_id rest else rest

-- `queryMarkChildrenOfChildrenAsSelf`: the selected rows are those of the first list.
unfoldable pub mark_children_of_children_as_self :
    Items → GeneratedTable → List Propagate → List Propagate → List Propagate
mark_children_of_children_as_self items table [] rows = rows
mark_children_of_children_as_self items table (row ∷ selected) rows =
    let rest = mark_children_of_children_as_self items table selected rows in
    if not (is_self_mark row.propagate_to) && is_some (generated_row row.group_id row.item_id table)
    then mark_children_of items.items_items row.group_id row.item_id rest
    else rest

-- `queryDeleteProcessedChildren`.
unfoldable pub delete_processed_children : List Propagate → List Propagate
delete_processed_children [] = []
delete_processed_children (row ∷ rows) =
    let rest = delete_processed_children rows in
    if is_self_mark row.propagate_to then row ∷ rest else rest

unfoldable pub is_ancestor_row : ℕ → ℕ → List (ℕ × ℕ) → Bool
is_ancestor_row a c [] = false
is_ancestor_row a c ((ancestor, child) ∷ rows) =
    (ancestor == a && child == c) || is_ancestor_row a c rows

-- Is an ancestor of the item marked 'self' for the group?
unfoldable pub has_self_ancestor : Items → List Propagate → ℕ → ℕ → Bool
has_self_ancestor items [] g i = false
has_self_ancestor items (row ∷ rows) g i =
    (row.group_id == g
      && (is_self_mark row.propagate_to && is_ancestor_row row.item_id i items.items_ancestors))
    || has_self_ancestor items rows g i

-- `queryInsertIntoPermissionsPropagateProcessing`: the pairs selected from the first list.
unfoldable pub processing : Items → List Propagate → List Propagate → List (ℕ × ℕ)
processing items rows [] = []
processing items rows (row ∷ selected) =
    let rest = processing items rows selected in
    if is_self_mark row.propagate_to && not (has_self_ancestor items rows row.group_id row.item_id)
    then (row.group_id, row.item_id) ∷ rest
    else rest

unfoldable pub is_processed : List (ℕ × ℕ) → ℕ → ℕ → Bool
is_processed [] g i = false
is_processed ((h, j) ∷ pairs) g i = same_pair h j g i || is_processed pairs g i

-- `queryUpdatePermissionsGenerated`: the statement reads the table as it was before.
unfoldable pub update_permissions_generated : Items → GeneratedTable → List (ℕ × ℕ) → GeneratedTable
update_permissions_generated items table [] = table
update_permissions_generated items table ((g, i) ∷ pairs) =
    put_generated g i (computed_permissions items (λ p. generated_row g p table) g i)
      (update_permissions_generated items table pairs)

-- `queryMarkSelfAsChildren`.
unfoldable pub mark_self_as_children : List (ℕ × ℕ) → List Propagate → List Propagate
mark_self_as_children pairs [] = []
mark_self_as_children pairs (row ∷ rows) =
    let rest = mark_self_as_children pairs rows in
    if is_processed pairs row.group_id row.item_id
    then record row { propagate_to = children } ∷ rest
    else row ∷ rest

-- The marks when the pairs to process are selected.
unfoldable pub current_marks : Items → State → List Propagate
current_marks items s = delete_processed_children (
    mark_children_of_children_as_self items s.permissions_generated s.permissions_propagate
      s.permissions_propagate)

unfoldable pub to_process : Items → State → List (ℕ × ℕ)
to_process items s = let rows = current_marks items s in processing items rows rows

-- One round of the loop.
unfoldable pub propagation_step : Items → State → State
propagation_step items s =
    let pairs = to_process items s in
    record {
      permissions_generated = update_permissions_generated items s.permissions_generated pairs;
      permissions_propagate = mark_self_as_children pairs (current_marks items s);
    }

abbrev pub is_nil {ℓ} : {A : Type ℓ} → List A → Bool
is_nil [] = true
is_nil (x ∷ xs) = false

-- `computeAllAccess`: the last round is the one that affects no row.
unfoldable pub compute_all_access : ℕ → Items → State → Option State
compute_all_access zero items s = none
compute_all_access (suc fuel) items s =
    let next = propagation_step items s in
    let rest = compute_all_access fuel items next in
    if is_nil (to_process items s) then some next else rest
