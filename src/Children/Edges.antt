-- ===== src/Children/Edges.antt =====
-- What the update of the children does to the relations of items and to the marks
-- (app/api/items/update_item.go).
use algorea_backend.Shared.{
  ℕ, ◌≡◌, inl, inr, refl, ◌∙◌, false, ◌&&◌, ◌||◌, not, List, [], ◌∷◌, ◌==◌, arith, Bool-cases,
}
use algorea_backend.Ancestors.Tables.{PropagateTable, is_todo, is_listed, has_pair}
use algorea_backend.Ancestors.Rounds.{mark_todo}
use algorea_backend.Ancestors.Marks.{is_todo-mark_todo}
use algorea_backend.Children.Types.{ItemChild}
use algorea_backend.Children.Update.{
  ItemsItemsRow, row_of_child, construct_items_items, children_ids, is_deleted, delete_children,
  mark_deleted, insert_or_update, insert_item_items, mark_inserted, edges,
}

pub edges-delete_children :
    (item : ℕ) (ids : List ℕ) (rows : List ItemsItemsRow) (p c : ℕ)
    → has_pair (edges (delete_children item ids rows)) p c
      ≡ (has_pair (edges rows) p c && not (p == item && not (is_listed ids c)))
unfolding has_pair edges delete_children is_deleted
edges-delete_children item ids [] p c = refl
edges-delete_children item ids (row ∷ rows) p c =
    ground (arith, edges-delete_children item ids rows p c)

edges-insert_or_update :
    (new : ItemsItemsRow) (rows : List ItemsItemsRow) (p c : ℕ)
    → has_pair (edges (insert_or_update new rows)) p c
      ≡ ((new.parent_id == p && new.child_id == c) || has_pair (edges rows) p c)
unfolding has_pair edges insert_or_update
edges-insert_or_update new [] p c = refl
edges-insert_or_update new (row ∷ rows) p c = ground (arith, edges-insert_or_update new rows p c)

pub edges-insert_item_items :
    (children : List ItemChild) (item : ℕ) (rows : List ItemsItemsRow) (p c : ℕ)
    → has_pair (edges (insert_item_items (construct_items_items children item) rows)) p c
      ≡ ((item == p && is_listed (children_ids children) c) || has_pair (edges rows) p c)
unfolding insert_item_items construct_items_items children_ids is_listed
edges-insert_item_items [] item rows p c = ground arith
edges-insert_item_items (child ∷ children) item rows p c = ground (
  arith,
  edges-insert_item_items children item rows p c,
  edges-insert_or_update (row_of_child item child)
      (insert_item_items (construct_items_items children item) rows) p c,
)

-- A child that is not marked has kept its parents.
pub unmarked_deleted :
    (item : ℕ) (ids : List ℕ) (rows : List ItemsItemsRow) (marks : PropagateTable) (p c : ℕ)
    → is_todo (mark_deleted item ids rows marks) c ≡ false
    → (is_todo marks c ≡ false)
      × (has_pair (edges (delete_children item ids rows)) p c ≡ has_pair (edges rows) p c)
unfolding mark_deleted delete_children edges has_pair
unmarked_deleted item ids [] marks p c e = (e, refl)
unmarked_deleted item ids (row ∷ rows) marks p c e = elim (Bool-cases (is_deleted item ids row)) [
  | inl gone ↦
      let marked = is_todo-mark_todo row.child_id (mark_deleted item ids rows marks) c in
      let h : is_todo (mark_todo row.child_id (mark_deleted item ids rows marks)) c ≡ false =
        rw gone at e in
      let (clean, same) = unmarked_deleted item ids rows marks p c (ground (arith, h, marked)) in
      (clean, rw gone (same ∙ ground (arith, h, marked)))
  | inr stays ↦
      let (clean, same) = unmarked_deleted item ids rows marks p c (rw stays at e) in
      (clean, rw (stays, same) refl)
]

pub unmarked_inserted :
    (children : List ItemChild) (item : ℕ) (marks : PropagateTable) (c : ℕ)
    → is_todo (mark_inserted (construct_items_items children item) marks) c ≡ false
    → (is_todo marks c ≡ false) × (is_listed (children_ids children) c ≡ false)
unfolding mark_inserted construct_items_items children_ids is_listed
unmarked_inserted [] item marks c e = (e, refl)
unmarked_inserted (child ∷ children) item marks c e =
    let marked =
      is_todo-mark_todo child.item_id (mark_inserted (construct_items_items children item) marks)
        c in
    let (clean, out) = unmarked_inserted children item marks c (ground (arith, e, marked)) in
    (clean, ground (arith, e, marked, out))
