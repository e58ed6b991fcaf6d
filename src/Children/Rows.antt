-- ===== src/Children/Rows.antt =====
-- The rows of items_items after the update of the children (app/api/items/update_item.go).
use algorea_backend.Shared.{
  ℕ, ◌≡◌, ◌⊎◌, inl, inr, refl, ◌∙◌, true, false, ◌&&◌, not, Option, none, some, List, [], ◌∷◌, ◌==◌,
  if◌then◌else◌, arith, Bool-cases,
}
use algorea_backend.Ancestors.Tables.{is_listed}
use algorea_backend.Children.Types.{ItemChild}
use algorea_backend.Children.Update.{
  ItemsItemsRow, row_of_child, construct_items_items, children_ids, is_row_of, is_deleted,
  delete_children, insert_or_update, insert_item_items,
}

-- The row of a parent and a child.
unfoldable pub find_row : ℕ → ℕ → List ItemsItemsRow → Option ItemsItemsRow
find_row p c [] = none
find_row p c (row ∷ rows) = if is_row_of p c row then some row else find_row p c rows

-- The row that a list of children gives the item.
unfoldable pub find_child : ℕ → ℕ → List ItemChild → Option ItemsItemsRow
find_child item c [] = none
find_child item c (child ∷ children) =
    if child.item_id == c then some (row_of_child item child) else find_child item c children

find_row-delete :
    (item : ℕ) (ids : List ℕ) (rows : List ItemsItemsRow) (p c : ℕ)
    → find_row p c (delete_children item ids rows)
      ≡ (if p == item && not (is_listed ids c) then none else find_row p c rows)
unfolding find_row delete_children is_deleted
find_row-delete item ids [] p c = ground arith
find_row-delete item ids (row ∷ rows) p c = ground (arith, find_row-delete item ids rows p c)

find_row-insert_or_update :
    (new : ItemsItemsRow) (rows : List ItemsItemsRow) (p c : ℕ)
    → find_row p c (insert_or_update new rows)
      ≡ (if is_row_of p c new then some new else find_row p c rows)
unfolding find_row insert_or_update
find_row-insert_or_update new [] p c = refl
find_row-insert_or_update new (row ∷ rows) p c =
    ground (arith, find_row-insert_or_update new rows p c)

or_else : {A : Type 0} → Option A → Option A → Option A
or_else (some x) other = some x
or_else none other = other

find_row-insert :
    (children : List ItemChild) (item : ℕ) (rows : List ItemsItemsRow) (p c : ℕ)
    → find_row p c (insert_item_items (construct_items_items children item) rows) ≡ (
        if item == p
        then or_else (find_child item c children) (find_row p c rows)
        else find_row p c rows)
unfolding insert_item_items construct_items_items find_child or_else
find_row-insert [] item rows p c = ground arith
find_row-insert (child ∷ children) item rows p c =
    find_row-insert_or_update (row_of_child item child)
      (insert_item_items (construct_items_items children item) rows) p c
    ∙ rw (find_row-insert children item rows p c) (elim (Bool-cases (item == p)) [
      | inl same ↦ elim (Bool-cases (child.item_id == c)) [
        | inl found ↦ rw (same, found) refl
        | inr other ↦ rw (same, other) refl
      ]
      | inr other ↦ rw other refl
    ])

unlisted_child :
    (children : List ItemChild) (item c : ℕ)
    → (is_listed (children_ids children) c ≡ false)
      ⊎ ((row : ItemsItemsRow) × (find_child item c children ≡ some row))
unfolding children_ids is_listed find_child
unlisted_child [] item c = inl refl
unlisted_child (child ∷ children) item c = elim (Bool-cases (child.item_id == c)) [
  | inl found ↦ inr (row_of_child item child, rw found refl)
  | inr other ↦ elim (unlisted_child children item c) [
    | inl out ↦ inl (rw (other, out) refl)
    | inr (row, e) ↦ inr (row, rw (other, e) refl)
  ]
]

listed_child :
    (children : List ItemChild) (item c : ℕ)
    → is_listed (children_ids children) c ≡ false
    → find_child item c children ≡ none
unfolding children_ids is_listed find_child
listed_child [] item c e = refl
listed_child (child ∷ children) item c e = ground (arith, listed_child children item c)

-- The rows of the parent are those of the children, and the others are what they were.
pub saved_rows :
    (children : List ItemChild) (item : ℕ) (rows : List ItemsItemsRow) (p c : ℕ)
    → find_row p c (
        insert_item_items
          (construct_items_items children item)
          (delete_children item (children_ids children) rows))
      ≡ (if p == item then find_child item c children else find_row p c rows)
unfolding or_else
saved_rows children item rows p c =
    find_row-insert children item (delete_children item (children_ids children) rows) p c
    ∙ elim (Bool-cases (p == item)) [
      | inr other ↦
          let swapped : (item == p) ≡ false = ground (arith, other) in
          rw (other, swapped)
            (find_row-delete item (children_ids children) rows p c ∙ rw other refl)
      | inl same ↦
          let swapped : (item == p) ≡ true = ground (arith, same) in
          rw (same, swapped)
            (elim (unlisted_child children item c) [
              | inr (row, e) ↦ rw e refl
              | inl out ↦
                  rw (listed_child children item c out)
                    (find_row-delete item (children_ids children) rows p c ∙ rw (same, out) refl)
            ])
    ]
