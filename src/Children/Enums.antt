-- ===== src/Children/Enums.antt =====
-- The enums of the database (app/database/db_enums.go) and the indexes that the services ask for
-- (app/database/permission_granted_store.go, app/database/item_item_store.go).
use algorea_backend.Shared.{
  ℕ, zero, suc, ◌≡◌, true, Option, none, some, is_some, List, [], ◌∷◌, ◌==◌, if◌then◌else◌,
}

-- The names of the columns. The last is not in `enumColumns`, but a service asks for it.
pub data EnumName : Type 0 where
  can_view can_grant_view can_watch can_edit can_manage content_view_propagation
        upper_view_levels_propagation can_can_grant_view :
      EnumName

abbrev name_code : EnumName → ℕ
name_code EnumName.can_view = 0
name_code EnumName.can_grant_view = 1
name_code EnumName.can_watch = 2
name_code EnumName.can_edit = 3
name_code EnumName.can_manage = 4
name_code EnumName.content_view_propagation = 5
name_code EnumName.upper_view_levels_propagation = 6
name_code EnumName.can_can_grant_view = 7

-- The values that the services ask for, and those between them.
pub data EnumValue : Type 0 where
  no_value enter info content content_with_descendants solution solution_with_grant result answer
        answer_with_grant children all all_with_grant memberships memberships_and_group as_info
        as_content use_content_view_propagation as_content_with_descendants as_is :
      EnumValue

abbrev value_code : EnumValue → ℕ
value_code EnumValue.no_value = 0
value_code EnumValue.enter = 1
value_code EnumValue.info = 2
value_code EnumValue.content = 3
value_code EnumValue.content_with_descendants = 4
value_code EnumValue.solution = 5
value_code EnumValue.solution_with_grant = 6
value_code EnumValue.result = 7
value_code EnumValue.answer = 8
value_code EnumValue.answer_with_grant = 9
value_code EnumValue.children = 10
value_code EnumValue.all = 11
value_code EnumValue.all_with_grant = 12
value_code EnumValue.memberships = 13
value_code EnumValue.memberships_and_group = 14
value_code EnumValue.as_info = 15
value_code EnumValue.as_content = 16
value_code EnumValue.use_content_view_propagation = 17
value_code EnumValue.as_content_with_descendants = 18
value_code EnumValue.as_is = 19

abbrev pub enum_columns : List EnumName
enum_columns =
    EnumName.can_view ∷ EnumName.can_grant_view ∷ EnumName.can_watch ∷ EnumName.can_edit
    ∷ EnumName.can_manage ∷ EnumName.content_view_propagation
    ∷ EnumName.upper_view_levels_propagation ∷ []

-- A Go map of `enumColumns` to their positions: a missing key reads as 0.
abbrev pub enum_number : List EnumName → EnumName → ℕ → ℕ
enum_number [] name position = 0
enum_number (column ∷ columns) name position =
    if name_code column == name_code name then position else enum_number columns name (suc position)

-- The position of a value, from 1: 0 is reserved for an empty value.
abbrev pub value_index : List EnumValue → EnumValue → ℕ → Option ℕ
value_index [] name position = none
value_index (value ∷ values) name position =
    if value_code value == value_code name
    then some position
    else value_index values name (suc position)

-- `enumValueName2Index[number]`; a number out of range does not occur.
abbrev pub enum_values : List (List EnumValue) → ℕ → List EnumValue
enum_values [] number = []
enum_values (values ∷ enums) zero = values
enum_values (values ∷ enums) (suc number) = enum_values enums number

-- `requireDBEnumIndexByName` for the loaded enums: none is a panic.
abbrev pub require_db_enum_index_by_name : List (List EnumValue) → EnumName → EnumValue → Option ℕ
require_db_enum_index_by_name enums name value =
    value_index (enum_values enums (enum_number enum_columns name 0)) value 1

-- The values that `loadAllEnums` reads from the columns.
abbrev pub loaded_enums : List (List EnumValue)
loaded_enums =
    (EnumValue.no_value ∷ EnumValue.info ∷ EnumValue.content ∷ EnumValue.content_with_descendants
      ∷ EnumValue.solution ∷ [])
    ∷ (EnumValue.no_value ∷ EnumValue.enter ∷ EnumValue.content ∷ EnumValue.content_with_descendants
        ∷ EnumValue.solution ∷ EnumValue.solution_with_grant ∷ [])
    ∷ (EnumValue.no_value ∷ EnumValue.result ∷ EnumValue.answer ∷ EnumValue.answer_with_grant ∷ [])
    ∷ (EnumValue.no_value ∷ EnumValue.children ∷ EnumValue.all ∷ EnumValue.all_with_grant ∷ [])
    ∷ (EnumValue.no_value ∷ EnumValue.memberships ∷ EnumValue.memberships_and_group ∷ [])
    ∷ (EnumValue.no_value ∷ EnumValue.as_info ∷ EnumValue.as_content ∷ [])
    ∷ (EnumValue.use_content_view_propagation ∷ EnumValue.as_content_with_descendants
        ∷ EnumValue.as_is ∷ [])
    ∷ []

-- The kinds of permissions, as they are given to `PermissionIndexByKindAndName`.
pub data PermissionKind : Type 0 where
  view grant_view watch edit can_grant_view_kind : PermissionKind

-- "permissions_granted.can_" and the kind.
abbrev pub permission_column : PermissionKind → EnumName
permission_column PermissionKind.view = EnumName.can_view
permission_column PermissionKind.grant_view = EnumName.can_grant_view
permission_column PermissionKind.watch = EnumName.can_watch
permission_column PermissionKind.edit = EnumName.can_edit
permission_column PermissionKind.can_grant_view_kind = EnumName.can_can_grant_view

abbrev pub found : (o : Option ℕ) → is_some o ≡ true → ℕ
found (some index) e = index
found none e = 0

-- `PermissionIndexByKindAndName`, where it does not panic.
abbrev pub permission_index_by_kind_and_name :
    (kind : PermissionKind) (name : EnumValue)
    → is_some (require_db_enum_index_by_name loaded_enums (permission_column kind) name) ≡ true
    → ℕ
permission_index_by_kind_and_name kind name e =
    found (require_db_enum_index_by_name loaded_enums (permission_column kind) name) e
