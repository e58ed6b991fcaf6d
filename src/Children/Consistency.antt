-- ===== src/Children/Consistency.antt =====
-- The update of the children keeps the items without a cycle and items_ancestors up to date
-- (app/api/items/update_item.go).
use algorea_backend.Shared.{ℕ, ◌≡◌, false, Option, some, List}
use algorea_backend.Ancestors.Tables.{PropagateTable, is_todo}
use algorea_backend.Ancestors.Invariant.{IsForest}
use algorea_backend.Children.Types.{ItemChild}
use algorea_backend.Children.Update.{
  ItemsItemsRow, construct_items_items, children_ids, delete_children, mark_deleted,
  insert_item_items, mark_inserted, edges, ItemsState, UpdateResponse,
}
use algorea_backend.Children.Cycles.{IsClosed}

-- The items have no cycle, items_ancestors is the closure of their relations, and nothing is 'todo'.
pub record IsConsistent (rank : ℕ → ℕ) (height : ℕ) (s : ItemsState) : Type 0 where
  pub forest : IsForest (edges s.items_items) rank height
  pub closed : IsClosed (edges s.items_items) s.items_ancestors.ancestors
  pub finished : (c : ℕ) → is_todo s.items_ancestors.propagate c ≡ false

-- The update ends with a response and a consistent state.
abbrev pub Ends : ℕ → Option (UpdateResponse × ItemsState) → Type 0
Ends height result =
    (response : UpdateResponse) × (s : ItemsState) × (result ≡ some (response, s))
    × (rank : ℕ → ℕ) × IsConsistent rank height s

module _ (rank : ℕ → ℕ) (height item : ℕ) (s : ItemsState) (m : IsConsistent rank height s)
    (children : List ItemChild) where
  abbrev ids : List ℕ
  ids = children_ids children

  abbrev rows_after : List ItemsItemsRow
  rows_after =
      insert_item_items (construct_items_items children item)
        (delete_children item ids s.items_items)

  abbrev marks_after : PropagateTable
  marks_after =
      mark_inserted (construct_items_items children item)
        (mark_deleted item ids s.items_items s.items_ancestors.propagate)
