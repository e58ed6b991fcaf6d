-- ===== src/Access/Marks.antt =====
-- What the statements of `computeAllAccess` make of the marks
-- (app/database/permission_granted_store_compute_all_access.go).
use algorea_backend.Shared.{
  ℕ, ◌≡◌, inl, inr, refl, ◌∙◌, Bool, true, false, ◌&&◌, ◌||◌, not, is_some, List, [], ◌∷◌, ◌==◌,
  arith, Bool-cases,
}
use algorea_backend.Access.Tables.{
  ItemItem, Propagate, GeneratedTable, same_pair, generated_row, Items,
}
use algorea_backend.Access.Rounds.{
  is_self_mark, is_self, is_children, without_pair, mark_self, mark_children_of,
  mark_children_of_children_as_self, delete_processed_children, is_ancestor_row, has_self_ancestor,
  processing, is_processed, mark_self_as_children,
}

-- Is there a relation from the one item to the other?
unfoldable pub is_child : List ItemItem → ℕ → ℕ → Bool
is_child [] p i = false
is_child (r ∷ relations) p i =
    (r.parent_item_id == p && r.child_item_id == i) || is_child relations p i

without_pair-is_self :
    (h j g i : ℕ) (rows : List Propagate)
    → is_self (without_pair h j rows) g i ≡ (not (same_pair h j g i) && is_self rows g i)
unfolding is_self without_pair
without_pair-is_self h j g i [] = ground arith
without_pair-is_self h j g i (row ∷ rows) = ground (arith, without_pair-is_self h j g i rows)

without_pair-is_children :
    (h j g i : ℕ) (rows : List Propagate)
    → is_children (without_pair h j rows) g i ≡ (not (same_pair h j g i) && is_children rows g i)
unfolding is_children without_pair
without_pair-is_children h j g i [] = ground arith
without_pair-is_children h j g i (row ∷ rows) =
    ground (arith, without_pair-is_children h j g i rows)

pub is_self-mark_self :
    (h j g i : ℕ) (rows : List Propagate)
    → is_self (mark_self h j rows) g i ≡ (same_pair h j g i || is_self rows g i)
unfolding is_self mark_self
is_self-mark_self h j g i rows = ground (arith, without_pair-is_self h j g i rows)

pub is_children-mark_self :
    (h j g i : ℕ) (rows : List Propagate)
    → is_children (mark_self h j rows) g i ≡ (not (same_pair h j g i) && is_children rows g i)
unfolding is_children mark_self
is_children-mark_self h j g i rows = ground (arith, without_pair-is_children h j g i rows)

is_self-mark_children_of :
    (relations : List ItemItem) (h j g i : ℕ) (rows : List Propagate)
    → is_self (mark_children_of relations h j rows) g i
      ≡ ((h == g && is_child relations j i) || is_self rows g i)
unfolding mark_children_of is_child
is_self-mark_children_of [] h j g i rows = ground arith
is_self-mark_children_of (r ∷ relations) h j g i rows = ground (
  arith,
  is_self-mark_children_of relations h j g i rows,
  is_self-mark_self h r.child_item_id g i (mark_children_of relations h j rows),
)

-- The pairs that `queryMarkChildrenOfChildrenAsSelf` selects.
unfoldable pub is_selected : Items → GeneratedTable → List Propagate → ℕ → ℕ → Bool
is_selected items table [] g i = false
is_selected items table (row ∷ rows) g i =
    (not (is_self_mark row.propagate_to)
      && (is_some (generated_row row.group_id row.item_id table)
          && (row.group_id == g && is_child items.items_items row.item_id i)))
    || is_selected items table rows g i

is_self-mark_children :
    (items : Items) (table : GeneratedTable) (selected rows : List Propagate) (g i : ℕ)
    → is_self (mark_children_of_children_as_self items table selected rows) g i
      ≡ (is_selected items table selected g i || is_self rows g i)
unfolding mark_children_of_children_as_self is_selected
is_self-mark_children items table [] rows g i = refl
is_self-mark_children items table (row ∷ selected) rows g i = ground (
  arith,
  is_self-mark_children items table selected rows g i,
  is_self-mark_children_of items.items_items row.group_id row.item_id g i
      (mark_children_of_children_as_self items table selected rows),
)

is_self-delete :
    (rows : List Propagate) (g i : ℕ)
    → is_self (delete_processed_children rows) g i ≡ is_self rows g i
unfolding is_self delete_processed_children
is_self-delete [] g i = refl
is_self-delete (row ∷ rows) g i = ground (arith, is_self-delete rows g i)

pub is_children-delete :
    (rows : List Propagate) (g i : ℕ) → is_children (delete_processed_children rows) g i ≡ false
unfolding is_children delete_processed_children
is_children-delete [] g i = refl
is_children-delete (row ∷ rows) g i = ground (arith, is_children-delete rows g i)

-- A pair is marked 'self' at the start of a round where it was, or where it is a child of a pair
-- marked 'children' that has a row.
pub is_self-current :
    (items : Items) (table : GeneratedTable) (rows : List Propagate) (g i : ℕ)
    → is_self
        (delete_processed_children (mark_children_of_children_as_self items table rows rows))
        g
        i
      ≡ (is_selected items table rows g i || is_self rows g i)
is_self-current items table rows g i =
    is_self-delete (mark_children_of_children_as_self items table rows rows) g i
    ∙ is_self-mark_children items table rows rows g i

-- A selected pair has a parent marked 'children'.
pub selected_parent :
    (items : Items) (table : GeneratedTable) (rows : List Propagate) (g i : ℕ)
    → is_selected items table rows g i ≡ true
    → (p : ℕ) × (is_children rows g p ≡ true) × (is_child items.items_items p i ≡ true)
unfolding is_selected is_children
selected_parent items table [] g i sel = absurd (ground arith)
selected_parent items table (row ∷ rows) g i sel =
    elim (Bool-cases (is_selected items table rows g i)) [
      | inl later ↦
          let (p, mark, child) = selected_parent items table rows g i later in
          (p, ground arith, child)
      | inr never ↦ (row.item_id, ground arith, ground arith)
    ]

pub child_selected :
    (items : Items) (table : GeneratedTable) (rows : List Propagate) (g p i : ℕ)
    → is_children rows g p ≡ true
    → is_some (generated_row g p table) ≡ true
    → is_child items.items_items p i ≡ true
    → is_selected items table rows g i ≡ true
unfolding is_selected is_children
child_selected items table [] g p i mark row_is child = ground arith
child_selected items table (row ∷ rows) g p i mark row_is child =
    ground (arith, child_selected items table rows g p i)

-- Blocked pairs stay, and the others are processed.
pub is_processed-processing :
    (items : Items) (rows selected : List Propagate) (g i : ℕ)
    → is_processed (processing items rows selected) g i
      ≡ (is_self selected g i && not (has_self_ancestor items rows g i))
unfolding is_processed processing is_self
is_processed-processing items rows [] g i = refl
is_processed-processing items rows (row ∷ selected) g i =
    ground (arith, is_processed-processing items rows selected g i)

pub self_ancestor :
    (items : Items) (rows : List Propagate) (g i : ℕ)
    → has_self_ancestor items rows g i ≡ true
    → (a : ℕ) × (is_self rows g a ≡ true) × (is_ancestor_row a i items.items_ancestors ≡ true)
unfolding has_self_ancestor is_self
self_ancestor items [] g i has = absurd (ground arith)
self_ancestor items (row ∷ rows) g i has = elim (Bool-cases (has_self_ancestor items rows g i)) [
  | inl later ↦
      let (a, mark, above) = self_ancestor items rows g i later in (a, ground arith, above)
  | inr never ↦ (row.item_id, ground arith, ground arith)
]

pub has_self_ancestor_lem :
    (items : Items) (rows : List Propagate) (g a i : ℕ)
    → is_self rows g a ≡ true
    → is_ancestor_row a i items.items_ancestors ≡ true
    → has_self_ancestor items rows g i ≡ true
unfolding has_self_ancestor is_self
has_self_ancestor_lem items [] g a i mark above = ground arith
has_self_ancestor_lem items (row ∷ rows) g a i mark above =
    ground (arith, has_self_ancestor_lem items rows g a i)

pub is_self-mark_self_as_children :
    (pairs : List (ℕ × ℕ)) (rows : List Propagate) (g i : ℕ)
    → is_self (mark_self_as_children pairs rows) g i
      ≡ (is_self rows g i && not (is_processed pairs g i))
unfolding is_self mark_self_as_children
is_self-mark_self_as_children pairs [] g i = refl
is_self-mark_self_as_children pairs (row ∷ rows) g i =
    ground (arith, is_self-mark_self_as_children pairs rows g i)

pub is_children-mark_self_as_children :
    (pairs : List (ℕ × ℕ)) (rows : List Propagate) (g i : ℕ)
    → is_children (mark_self_as_children pairs rows) g i
      ≡ (is_children rows g i || (is_self rows g i && is_processed pairs g i))
unfolding is_self is_children mark_self_as_children
is_children-mark_self_as_children pairs [] g i = refl
is_children-mark_self_as_children pairs (row ∷ rows) g i =
    ground (arith, is_children-mark_self_as_children pairs rows g i)
