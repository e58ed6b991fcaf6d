-- ===== src/Children/Update.antt =====
-- The update of the children of an item: `updateChildrenAndRunListeners`
-- (app/api/items/update_item.go), with the validators of the list of children
-- (app/api/items/create_item.go) and the rows they save (app/api/items/items.go).
use algorea_backend.Shared.{
  ℕ, Bool, true, ◌&&◌, not, Option, none, some, List, [], ◌∷◌, ◌==◌, if◌then◌else◌,
}
use algorea_backend.Access.Tables.{ContentViewPropagation, UpperViewLevelsPropagation}
use algorea_backend.Threads.Status.{Integer}
use algorea_backend.Ancestors.Tables.{PropagateTable, is_listed, has_pair, AncestorsState}
use algorea_backend.Ancestors.Rounds.{mark_todo, create_new_ancestors}
use algorea_backend.Ancestors.Items.{item_tables}
use algorea_backend.Children.Types.{
  Category, ItemChild, ChildField, Permission, ItemsRelationData, Checked, accepted, forbidden,
  panics,
}
use algorea_backend.Children.Fields.{validate_children}

-- `insertItemItemsSpec`, a row of items_items.
pub record ItemsItemsRow : Type 0 where
  pub parent_id : ℕ
  pub child_id : ℕ
  pub order : Integer
  pub category : Category
  pub score_weight : Integer
  pub content_view_propagation : ContentViewPropagation
  pub upper_view_levels_propagation : UpperViewLevelsPropagation
  pub grant_view_propagation : Bool
  pub watch_propagation : Bool
  pub edit_propagation : Bool
  pub request_help_propagation : Bool

abbrev pub row_of_child : ℕ → ItemChild → ItemsItemsRow
row_of_child item child = record {
  parent_id = item;
  child_id = child.item_id;
  order = child.order;
  category = child.category;
  score_weight = child.score_weight;
  content_view_propagation = child.content_view_propagation;
  upper_view_levels_propagation = child.upper_view_levels_propagation;
  grant_view_propagation = child.grant_view_propagation;
  watch_propagation = child.watch_propagation;
  edit_propagation = child.edit_propagation;
  request_help_propagation = child.request_help_propagation;
}

-- `constructItemsItemsForChildren`.
unfoldable pub construct_items_items : List ItemChild → ℕ → List ItemsItemsRow
construct_items_items [] item = []
construct_items_items (child ∷ children) item =
    row_of_child item child ∷ construct_items_items children item

-- `childrenIDs`.
unfoldable pub children_ids : List ItemChild → List ℕ
children_ids [] = []
children_ids (child ∷ children) = child.item_id ∷ children_ids children

abbrev pub is_row_of : ℕ → ℕ → ItemsItemsRow → Bool
is_row_of parent child row = row.parent_id == parent && row.child_id == child

-- The rows of the item that the request does not keep are deleted; the trigger
-- `before_delete_items_items` marks their children.
unfoldable pub is_deleted : ℕ → List ℕ → ItemsItemsRow → Bool
is_deleted item ids row = row.parent_id == item && not (is_listed ids row.child_id)

unfoldable pub delete_children : ℕ → List ℕ → List ItemsItemsRow → List ItemsItemsRow
delete_children item ids [] = []
delete_children item ids (row ∷ rows) =
    let rest = delete_children item ids rows in if is_deleted item ids row then rest else row ∷ rest

unfoldable pub mark_deleted : ℕ → List ℕ → List ItemsItemsRow → PropagateTable → PropagateTable
mark_deleted item ids [] marks = marks
mark_deleted item ids (row ∷ rows) marks =
    let rest = mark_deleted item ids rows marks in
    if is_deleted item ids row then mark_todo row.child_id rest else rest

-- `checkItemsRelationsCycles`: false where a child is the item or one of its ancestors.
unfoldable pub check_items_relations_cycles : List (ℕ × ℕ) → ℕ → List ℕ → Bool
check_items_relations_cycles ancestors item [] = true
check_items_relations_cycles ancestors item (i ∷ ids) =
    (not (i == item) && not (has_pair ancestors i item))
    && check_items_relations_cycles ancestors item ids

-- `insertItemItems`: InsertOrUpdateMaps.
unfoldable pub insert_or_update : ItemsItemsRow → List ItemsItemsRow → List ItemsItemsRow
insert_or_update new [] = new ∷ []
insert_or_update new (row ∷ rows) =
    let rest = insert_or_update new rows in
    if is_row_of new.parent_id new.child_id row then new ∷ rows else row ∷ rest

unfoldable pub insert_item_items : List ItemsItemsRow → List ItemsItemsRow → List ItemsItemsRow
insert_item_items [] rows = rows
insert_item_items (new ∷ spec) rows = insert_or_update new (insert_item_items spec rows)

-- The trigger `before_insert_items_items`.
unfoldable pub mark_inserted : List ItemsItemsRow → PropagateTable → PropagateTable
mark_inserted [] marks = marks
mark_inserted (new ∷ spec) marks = mark_todo new.child_id (mark_inserted spec marks)

unfoldable pub edges : List ItemsItemsRow → List (ℕ × ℕ)
edges [] = []
edges (row ∷ rows) = (row.parent_id, row.child_id) ∷ edges rows

-- The tables of items that the update changes.
pub record ItemsState : Type 0 where
  pub items_items : List ItemsItemsRow
  pub items_ancestors : AncestorsState (List (ℕ × ℕ))

pub data UpdateResponse : Type 0 where
  children_updated : UpdateResponse
  cycle_forbidden : UpdateResponse
  field_forbidden : ChildField → UpdateResponse
  panicked : UpdateResponse

abbrev pub with_items :
    List ItemsItemsRow
    → Option (AncestorsState (List (ℕ × ℕ)))
    → Option (UpdateResponse × ItemsState)
with_items rows none = none
with_items rows (some ancestors) =
    some
      (UpdateResponse.children_updated, record { items_items = rows; items_ancestors = ancestors })

-- The children are saved and the ancestors recomputed. A failure rolls the transaction back.
unfoldable pub save_children :
    ℕ → ℕ → List ℕ → ItemsState → Checked (List ItemChild) → Option (UpdateResponse × ItemsState)
save_children fuel item ids s (forbidden field) = some (UpdateResponse.field_forbidden field, s)
save_children fuel item ids s panics = some (UpdateResponse.panicked, s)
save_children fuel item ids s (accepted children) =
    let spec = construct_items_items children item in
    let rows = insert_item_items spec (delete_children item ids s.items_items) in
    with_items rows (
      create_new_ancestors (item_tables (edges rows)) fuel (record {
        ancestors = s.items_ancestors.ancestors;
        propagate =
            mark_inserted spec (mark_deleted item ids s.items_items s.items_ancestors.propagate);
      }))

-- `updateChildrenAndRunListeners` where the request sets the children. The fuel is that of
-- `createNewAncestors`.
unfoldable pub update_children :
    ℕ
    → (ℕ → ChildField → Bool)
    → List (ℕ × Permission)
    → List (ℕ × ItemsRelationData)
    → ℕ
    → List ItemChild
    → ItemsState
    → Option (UpdateResponse × ItemsState)
update_children fuel is_set permissions old item children s =
    let ids = children_ids children in
    if check_items_relations_cycles s.items_ancestors.ancestors item ids
    then save_children fuel item ids s (validate_children is_set permissions old 0 children)
    else some (UpdateResponse.cycle_forbidden, s)
