-- ===== src/Children/Validators.antt =====
-- `validateChildrenFieldsAndApplyDefaults` (app/api/items/items.go).
use algorea_backend.Shared.{
  ℕ, refl, Bool, false, ◌&&◌, ◌||◌, not, Option, none, some, ◌==◌, leb, ltb, if◌then◌else◌,
}
use algorea_backend.Access.Tables.{ContentViewPropagation, UpperViewLevelsPropagation}
use algorea_backend.Children.Enums.{EnumValue, PermissionKind, permission_index_by_kind_and_name}
use algorea_backend.Children.Types.{
  ChildField, ItemsRelationData, Checked, accepted, forbidden, panics,
}

abbrev pub and_then : {A B : Type 0} → Checked A → (A → Checked B) → Checked B
and_then (accepted x) f = f x
and_then (forbidden field) f = forbidden field
and_then panics f = panics

-- `ContentViewPropagationIndexByName` and `ContentViewPropagationNameByIndex`.
unfoldable pub content_view_propagation_index_by_name : ContentViewPropagation → ℕ
content_view_propagation_index_by_name ContentViewPropagation.none = 1
content_view_propagation_index_by_name ContentViewPropagation.as_info = 2
content_view_propagation_index_by_name ContentViewPropagation.as_content = 3

unfoldable pub content_view_propagation_name_by_index : ℕ → Checked ContentViewPropagation
content_view_propagation_name_by_index i =
    if i == 1
    then accepted ContentViewPropagation.none
    else if i == 2
    then accepted ContentViewPropagation.as_info
    else if i == 3
    then accepted ContentViewPropagation.as_content
    else panics

-- `UpperViewLevelsPropagationIndexByName` and `UpperViewLevelsPropagationNameByIndex`.
unfoldable pub upper_view_levels_propagation_index_by_name : UpperViewLevelsPropagation → ℕ
upper_view_levels_propagation_index_by_name
      UpperViewLevelsPropagation.use_content_view_propagation =
    1
upper_view_levels_propagation_index_by_name UpperViewLevelsPropagation.as_content_with_descendants =
    2
upper_view_levels_propagation_index_by_name UpperViewLevelsPropagation.as_is = 3

unfoldable pub upper_view_levels_propagation_name_by_index : ℕ → Checked UpperViewLevelsPropagation
upper_view_levels_propagation_name_by_index i =
    if i == 1
    then accepted UpperViewLevelsPropagation.use_content_view_propagation
    else if i == 2
    then accepted UpperViewLevelsPropagation.as_content_with_descendants
    else if i == 3
    then accepted UpperViewLevelsPropagation.as_is
    else panics

unfoldable pub default_content_view_propagation : ℕ → ContentViewPropagation
default_content_view_propagation value =
    if ltb (permission_index_by_kind_and_name PermissionKind.grant_view EnumValue.no_value refl)
      value
    then ContentViewPropagation.as_info
    else ContentViewPropagation.none

unfoldable pub default_upper_view_levels_propagation : ℕ → UpperViewLevelsPropagation
default_upper_view_levels_propagation value =
    if leb (permission_index_by_kind_and_name PermissionKind.grant_view EnumValue.solution refl)
      value
    then UpperViewLevelsPropagation.as_is
    else if leb
        (permission_index_by_kind_and_name PermissionKind.grant_view
          EnumValue.content_with_descendants refl)
        value
    then UpperViewLevelsPropagation.as_content_with_descendants
    else UpperViewLevelsPropagation.use_content_view_propagation

-- `validateChildBooleanPropagationAndApplyDefaultValue`.
unfoldable pub validate_child_boolean :
    ChildField → Bool → Bool → Option Bool → ℕ → ℕ → Checked Bool
validate_child_boolean field is_set value (some old) permission required =
    if is_set
    then if not value || old
      then accepted value
      else if value && ltb permission required
      then forbidden field
      else accepted value
    else accepted old
validate_child_boolean field is_set value none permission required =
    if is_set
    then if value && ltb permission required then forbidden field else accepted value
    else accepted (leb required permission)

abbrev pub old_value : {A : Type 0} → (ItemsRelationData → A) → Option ItemsRelationData → Option A
old_value column (some old) = some (column old)
old_value column none = none

-- Is the level no higher than the one of the relation?
unfoldable pub is_not_raised : ℕ → Option ℕ → Bool
is_not_raised level (some old) = leb level old
is_not_raised level none = false

-- `failed` of the content view propagation.
unfoldable pub content_view_fails : ContentViewPropagation → ℕ → Bool
content_view_fails ContentViewPropagation.none value = false
content_view_fails ContentViewPropagation.as_info value =
    value == permission_index_by_kind_and_name PermissionKind.grant_view EnumValue.no_value refl
content_view_fails ContentViewPropagation.as_content value =
    ltb value (permission_index_by_kind_and_name PermissionKind.grant_view EnumValue.content refl)

unfoldable pub default_or_old_content_view : Option ℕ → ℕ → Checked ContentViewPropagation
default_or_old_content_view (some old) value = content_view_propagation_name_by_index old
default_or_old_content_view none value = accepted (default_content_view_propagation value)

-- `validateChildContentViewPropagationAndApplyDefaultValue`.
unfoldable pub validate_child_content_view :
    Bool → ContentViewPropagation → Option ℕ → ℕ → Checked ContentViewPropagation
validate_child_content_view is_set level old value =
    if is_set
    then if is_not_raised (content_view_propagation_index_by_name level) old
      then accepted level
      else if content_view_fails level value
      then forbidden ChildField.content_view_field
      else accepted level
    else default_or_old_content_view old value

-- `failed` of the propagation of the upper levels.
unfoldable pub upper_view_levels_fails : UpperViewLevelsPropagation → ℕ → Bool
upper_view_levels_fails UpperViewLevelsPropagation.use_content_view_propagation value = false
upper_view_levels_fails UpperViewLevelsPropagation.as_content_with_descendants value = ltb value (
    permission_index_by_kind_and_name PermissionKind.grant_view EnumValue.content_with_descendants
      refl)
upper_view_levels_fails UpperViewLevelsPropagation.as_is value =
    ltb value (permission_index_by_kind_and_name PermissionKind.grant_view EnumValue.solution refl)

unfoldable pub default_or_old_upper_view_levels : Option ℕ → ℕ → Checked UpperViewLevelsPropagation
default_or_old_upper_view_levels (some old) value = upper_view_levels_propagation_name_by_index old
default_or_old_upper_view_levels none value = accepted (default_upper_view_levels_propagation value)

-- `validateChildUpperViewLevelsPropagationAndApplyDefaultValue`.
unfoldable pub validate_child_upper_view_levels :
    Bool → UpperViewLevelsPropagation → Option ℕ → ℕ → Checked UpperViewLevelsPropagation
validate_child_upper_view_levels is_set level old value =
    if is_set
    then if is_not_raised (upper_view_levels_propagation_index_by_name level) old
      then accepted level
      else if upper_view_levels_fails level value
      then forbidden ChildField.upper_view_levels_field
      else accepted level
    else default_or_old_upper_view_levels old value
