-- ===== src/Access/Computation.antt =====
-- `queryUpdatePermissionsGenerated`: the permissions of a group on an item, from those granted on
-- the item and those of the parent items.
use algorea_backend.Shared.{
  ℕ, Bool, true, false, ◌&&◌, ◌||◌, Option, List, [], ◌∷◌, ◌==◌, ltb, leb, if◌then◌else◌,
}
use algorea_backend.Access.Tables.{
  Generated, Granted, ContentViewPropagation, UpperViewLevelsPropagation, ItemItem, Items,
  same_pair,
}

-- GREATEST and LEAST.
unfoldable pub greatest : ℕ → ℕ → ℕ
greatest a b = if ltb a b then b else a

unfoldable pub least : ℕ → ℕ → ℕ
least a b = if ltb a b then a else b

-- IFNULL(MAX(column), 1) over the rows of permissions_granted of the group and the item.
unfoldable pub max_granted : (Granted → ℕ) → ℕ → ℕ → List Granted → ℕ
max_granted column g i [] = 1
max_granted column g i (row ∷ rows) =
    let rest = max_granted column g i rows in
    if same_pair row.group_id row.item_id g i then greatest (column row) rest else rest

-- MAX(is_owner).
unfoldable pub is_owner_granted : ℕ → ℕ → List Granted → Bool
is_owner_granted g i [] = false
is_owner_granted g i (row ∷ rows) =
    (same_pair row.group_id row.item_id g i && row.is_owner_value) || is_owner_granted g i rows

abbrev pub content_level : ContentViewPropagation → ℕ
content_level ContentViewPropagation.none = 1
content_level ContentViewPropagation.as_info = 2
content_level ContentViewPropagation.as_content = 3

abbrev pub is_use_content : UpperViewLevelsPropagation → Bool
is_use_content UpperViewLevelsPropagation.use_content_view_propagation = true
is_use_content _ = false

abbrev pub is_as_content_with_descendants : UpperViewLevelsPropagation → Bool
is_as_content_with_descendants UpperViewLevelsPropagation.as_content_with_descendants = true
is_as_content_with_descendants _ = false

-- The CASE of can_view; `none` is the NULL of a parent without a row.
unfoldable pub view_from_parent : ItemItem → Option Generated → ℕ
view_from_parent r Option.none = 1
view_from_parent r (Option.some parent) =
    if leb parent.can_view 2
    then 1
    else if parent.can_view == 3 || is_use_content r.upper_view_levels_propagation
    then content_level r.content_view_propagation
    else if is_as_content_with_descendants r.upper_view_levels_propagation
    then 4
    else parent.can_view

-- IF(propagation, LEAST(parent's value, limit), 1).
unfoldable pub level_from_parent : Bool → ℕ → Option ℕ → ℕ
level_from_parent propagation limit Option.none = 1
level_from_parent propagation limit (Option.some value) =
    if propagation then least value limit else 1

abbrev pub column_of : (Generated → ℕ) → Option Generated → Option ℕ
column_of column Option.none = Option.none
column_of column (Option.some p) = Option.some (column p)

-- IFNULL(MAX(...), 1) over the parents of the item.
unfoldable pub max_from_parents : (ItemItem → ℕ) → ℕ → List ItemItem → ℕ
max_from_parents level i [] = 1
max_from_parents level i (r ∷ rows) =
    let rest = max_from_parents level i rows in
    if r.child_item_id == i then greatest (level r) rest else rest

module _ (items : Items) (parents : ℕ → Option Generated) where
  abbrev pub inherited_view : ItemItem → ℕ
  inherited_view r = view_from_parent r (parents r.parent_item_id)

  abbrev pub inherited_grant_view : ItemItem → ℕ
  inherited_grant_view r =
      level_from_parent r.grant_view_propagation 5
        (column_of (λ p. p.can_grant_view) (parents r.parent_item_id))

  abbrev pub inherited_watch : ItemItem → ℕ
  inherited_watch r =
      level_from_parent r.watch_propagation 3
        (column_of (λ p. p.can_watch) (parents r.parent_item_id))

  abbrev pub inherited_edit : ItemItem → ℕ
  inherited_edit r =
      level_from_parent r.edit_propagation 3
        (column_of (λ p. p.can_edit) (parents r.parent_item_id))

  -- The row that the query selects for a pair.
  unfoldable pub computed_permissions : ℕ → ℕ → Generated
  computed_permissions g i =
      let rows = items.permissions_granted in
      let owner = is_owner_granted g i rows in
      record {
        can_view =
            if owner
            then 5
            else greatest (max_granted (λ row. row.can_view_value) g i rows)
                (max_from_parents inherited_view i items.items_items);
        can_grant_view =
            if owner
            then 6
            else greatest (max_granted (λ row. row.can_grant_view_value) g i rows)
                (max_from_parents inherited_grant_view i items.items_items);
        can_watch =
            if owner
            then 4
            else greatest (max_granted (λ row. row.can_watch_value) g i rows)
                (max_from_parents inherited_watch i items.items_items);
        can_edit =
            if owner
            then 4
            else greatest (max_granted (λ row. row.can_edit_value) g i rows)
                (max_from_parents inherited_edit i items.items_items);
        is_owner = owner;
      }
