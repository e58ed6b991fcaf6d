-- ===== src/Children/Listing.antt =====
-- The validators of the list of children (app/api/items/create_item.go,
-- app/api/items/update_item.go).
use algorea_backend.Shared.{
  ℕ, Bool, true, false, ◌&&◌, ◌||◌, not, Option, none, some, List, [], ◌∷◌, if◌then◌else◌,
}
use algorea_backend.Ancestors.Tables.{is_listed}
use algorea_backend.Children.Types.{ItemChild, Permission, ItemsRelationData}
use algorea_backend.Children.Fields.{find_item}
use algorea_backend.Children.Update.{children_ids}

pub data ItemType : Type 0 where
  chapter task skill : ItemType

-- `permissionAndType`; a stub has no type.
pub record ChildInfo : Type 0 where
  pub permission : Permission
  pub item_type : Option ItemType

-- The permissions of a child that the user does not see.
abbrev pub stub : Permission
stub = record {
  can_view_generated_value = 1;
  can_grant_view_generated_value = 1;
  can_watch_generated_value = 1;
  can_edit_generated_value = 1;
}

unfoldable pub are_unique : List ℕ → Bool
are_unique [] = true
are_unique (i ∷ ids) = not (is_listed ids i) && are_unique ids

-- An item that is not visible has to be a child already; a new item has no map of old relations.
unfoldable pub info_of : Option ChildInfo → Option ItemsRelationData → Option ChildInfo
info_of (some info) old = some info
info_of none (some old) = some (record { permission = stub; item_type = none })
info_of none none = none

abbrev pub add_info :
    ℕ → Option ChildInfo → Option (List (ℕ × ChildInfo)) → Option (List (ℕ × ChildInfo))
add_info i (some info) (some infos) = some ((i, info) ∷ infos)
add_info i (some info) none = none
add_info i none infos = none

unfoldable pub children_infos :
    List (ℕ × ChildInfo) → List (ℕ × ItemsRelationData) → List ℕ → Option (List (ℕ × ChildInfo))
children_infos visible old [] = some []
children_infos visible old (i ∷ ids) =
    add_info i (info_of (find_item i visible) (find_item i old)) (children_infos visible old ids)

-- `constructChildrenValidator`: `childrenInfoMap` where the list is valid. The visible items are the
-- answer of `generateChildrenInfoMap`, the old relations those of `generateOldPropagationLevelsMap`.
unfoldable pub validate_list :
    List (ℕ × ChildInfo)
    → List (ℕ × ItemsRelationData)
    → List ItemChild
    → Option (List (ℕ × ChildInfo))
validate_list visible old children =
    if are_unique (children_ids children)
    then children_infos visible old (children_ids children)
    else none

unfoldable pub permissions_of : List (ℕ × ChildInfo) → List (ℕ × Permission)
permissions_of [] = []
permissions_of ((i, info) ∷ infos) = (i, info.permission) ∷ permissions_of infos

abbrev is_skill : Option ItemType → Bool
is_skill (some ItemType.skill) = true
is_skill _ = false

abbrev is_empty_map : List (ℕ × ChildInfo) → Bool
is_empty_map [] = true
is_empty_map (entry ∷ infos) = false

abbrev is_task : ItemType → Bool
is_task ItemType.task = true
is_task _ = false

-- `constructChildrenAllowedValidator`.
unfoldable pub are_children_allowed : ItemType → List (ℕ × ChildInfo) → Bool
are_children_allowed item_type infos = is_empty_map infos || not (is_task item_type)

abbrev type_of : Option ChildInfo → Option ItemType
type_of (some info) = info.item_type
type_of none = none

-- `constructUpdateItemChildTypeNonSkillValidator`.
unfoldable pub is_child_type_allowed : ItemType → List (ℕ × ChildInfo) → ItemChild → Bool
is_child_type_allowed item_type infos child =
    is_skill (some item_type) || not (is_skill (type_of (find_item child.item_id infos)))
