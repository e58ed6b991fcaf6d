-- ===== src/Children/Handler.antt =====
-- The part of `updateItem` about the children: the validators of the request, then
-- `updateChildrenAndRunListeners` (app/api/items/update_item.go).
use algorea_backend.Shared.{
  ℕ, Bool, true, false, ◌&&◌, Option, none, some, List, [], ◌∷◌, if◌then◌else◌,
}
use algorea_backend.Children.Types.{ItemChild, ChildField, ItemsRelationData}
use algorea_backend.Children.Update.{ItemsState, UpdateResponse, update_children}
use algorea_backend.Children.Listing.{
  ItemType, ChildInfo, validate_list, permissions_of, are_children_allowed, is_child_type_allowed,
}

-- "dive,child_type_non_skill".
unfoldable pub are_child_types_allowed : ItemType → List (ℕ × ChildInfo) → List ItemChild → Bool
are_child_types_allowed item_type infos [] = true
are_child_types_allowed item_type infos (child ∷ children) =
    is_child_type_allowed item_type infos child && are_child_types_allowed item_type infos children

-- none is an invalid request.
abbrev pub Answer : Type 0
Answer = Option (Option UpdateResponse × ItemsState)

abbrev pub answered : Option (UpdateResponse × ItemsState) → Answer
answered none = none
answered (some (response, s)) = some (some response, s)

module _ (fuel : ℕ) (is_set : ℕ → ChildField → Bool) (visible : List (ℕ × ChildInfo))
    (old : List (ℕ × ItemsRelationData)) (item_type : ItemType) (item : ℕ)
    (children : List ItemChild) (s : ItemsState) where
  unfoldable pub update_valid_children : Option (List (ℕ × ChildInfo)) → Answer
  update_valid_children none = some (none, s)
  update_valid_children (some infos) =
      if are_children_allowed item_type infos && are_child_types_allowed item_type infos children
      then answered (update_children fuel is_set (permissions_of infos) old item children s)
      else some (none, s)

  unfoldable pub update_item_children : Answer
  update_item_children = update_valid_children (validate_list visible old children)

  abbrev response_of : Answer → Bool
  response_of none = false
  response_of (some (none, t)) = false
  response_of (some (some response, t)) = true

  abbrev inner : Answer → Option (UpdateResponse × ItemsState)
  inner none = none
  inner (some (none, t)) = none
  inner (some (some response, t)) = some (response, t)
