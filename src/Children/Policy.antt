-- ===== src/Children/Policy.antt =====
-- What the permissions of a user on a child let the relation propagate, described independently of
-- the validators (app/api/items/items.go).
use algorea_backend.Shared.{
  ℕ, Bool, true, false, ◌&&◌, ◌||◌, not, Option, none, some, List, [], ◌∷◌, leb, ◌==◌, suc,
  if◌then◌else◌,
}
use algorea_backend.Children.Types.{ItemChild, ChildField, Permission, ItemsRelationData}
use algorea_backend.Children.Validators.{
  old_value, content_view_propagation_index_by_name, upper_view_levels_propagation_index_by_name,
}
use algorea_backend.Children.Fields.{find_item}

-- The highest content_view_propagation for a value of can_grant_view: as_content from "content".
abbrev pub content_view_limit : ℕ → ℕ
content_view_limit value = if leb 3 value then 3 else if leb 2 value then 2 else 1

-- The highest upper_view_levels_propagation: as_is from "solution".
abbrev pub upper_view_levels_limit : ℕ → ℕ
upper_view_levels_limit value = if leb 5 value then 3 else if leb 4 value then 2 else 1

abbrev pub is_level_allowed : ℕ → ℕ → Option ℕ → Bool
is_level_allowed level limit (some old) = leb level old || leb level limit
is_level_allowed level limit none = leb level limit

abbrev pub is_flag_allowed : Bool → Bool → Option Bool → Bool
is_flag_allowed flag enough (some old) = not flag || (old || enough)
is_flag_allowed flag enough none = not flag || enough

module _ (permission : Permission) (old : Option ItemsRelationData) (child : ItemChild) where
  abbrev pub is_content_view_allowed : Bool
  is_content_view_allowed =
      is_level_allowed (content_view_propagation_index_by_name child.content_view_propagation)
        (content_view_limit permission.can_grant_view_generated_value)
        (old_value (λ o. o.content_view_propagation_value) old)

  abbrev pub is_upper_view_levels_allowed : Bool
  is_upper_view_levels_allowed =
      is_level_allowed
        (upper_view_levels_propagation_index_by_name child.upper_view_levels_propagation)
        (upper_view_levels_limit permission.can_grant_view_generated_value)
        (old_value (λ o. o.upper_view_levels_propagation_value) old)

  abbrev pub is_grant_view_allowed : Bool
  is_grant_view_allowed =
      is_flag_allowed child.grant_view_propagation (leb 6 permission.can_grant_view_generated_value)
        (old_value (λ o. o.grant_view_propagation) old)

  abbrev pub is_watch_allowed : Bool
  is_watch_allowed =
      is_flag_allowed child.watch_propagation (leb 4 permission.can_watch_generated_value)
        (old_value (λ o. o.watch_propagation) old)

  abbrev pub is_edit_allowed : Bool
  is_edit_allowed =
      is_flag_allowed child.edit_propagation (leb 4 permission.can_edit_generated_value)
        (old_value (λ o. o.edit_propagation) old)

  abbrev pub is_request_help_allowed : Bool
  is_request_help_allowed =
      is_flag_allowed child.request_help_propagation
        (leb 3 permission.can_grant_view_generated_value)
        (old_value (λ o. o.request_help_propagation) old)

  -- The child's relation propagates nothing but what the permissions allow, or what the old relation
  -- has already.
  unfoldable pub is_child_allowed : Bool
  is_child_allowed =
      (is_content_view_allowed && is_upper_view_levels_allowed)
      && (is_grant_view_allowed
          && (is_watch_allowed && (is_edit_allowed && is_request_help_allowed)))

  -- The same of the fields that the request sets.
  unfoldable pub is_request_allowed : (ChildField → Bool) → Bool
  is_request_allowed is_set =
      ((not (is_set ChildField.content_view_field) || is_content_view_allowed)
        && (not (is_set ChildField.upper_view_levels_field) || is_upper_view_levels_allowed))
      && ((not (is_set ChildField.grant_view_field) || is_grant_view_allowed)
          && ((not (is_set ChildField.watch_field) || is_watch_allowed)
              && ((not (is_set ChildField.edit_field) || is_edit_allowed)
                  && (not (is_set ChildField.request_help_field) || is_request_help_allowed))))

abbrev pub is_allowed_with : Option Permission → Option ItemsRelationData → ItemChild → Bool
is_allowed_with none old saved = false
is_allowed_with (some permission) old saved = is_child_allowed permission old saved

-- The saved relations are those of the children, in their order, and each is allowed.
unfoldable pub are_allowed :
    List (ℕ × Permission) → List (ℕ × ItemsRelationData) → List ItemChild → List ItemChild → Bool
are_allowed permissions old [] [] = true
are_allowed permissions old [] (saved ∷ rest) = false
are_allowed permissions old (child ∷ children) [] = false
are_allowed permissions old (child ∷ children) (saved ∷ rest) =
    (saved.item_id == child.item_id
      && is_allowed_with (find_item child.item_id permissions) (find_item child.item_id old) saved)
    && are_allowed permissions old children rest

-- The permissions of the children are in the map, and the values of the old relations are enums.
unfoldable pub is_old_level : ℕ → Bool
is_old_level level = leb 1 level && leb level 3

abbrev pub is_old_relation : Option ItemsRelationData → Bool
is_old_relation none = true
is_old_relation (some old) =
    is_old_level old.content_view_propagation_value
    && is_old_level old.upper_view_levels_propagation_value

abbrev pub is_requested_with :
    (ChildField → Bool) → Option Permission → Option ItemsRelationData → ItemChild → Bool
is_requested_with is_set none old child = false
is_requested_with is_set (some permission) old child =
    is_request_allowed permission old child is_set && is_old_relation old

-- Each child sets only what is allowed.
unfoldable pub are_requested :
    (ℕ → ChildField → Bool)
    → List (ℕ × Permission)
    → List (ℕ × ItemsRelationData)
    → ℕ
    → List ItemChild
    → Bool
are_requested is_set permissions old index [] = true
are_requested is_set permissions old index (child ∷ children) =
    is_requested_with (is_set index) (find_item child.item_id permissions)
      (find_item child.item_id old) child
    && are_requested is_set permissions old (suc index) children

-- A level of can_grant_view is 1 at least.
unfoldable pub are_levels : List (ℕ × Permission) → Bool
are_levels [] = true
are_levels ((i, permission) ∷ entries) =
    leb 1 permission.can_grant_view_generated_value && are_levels entries
