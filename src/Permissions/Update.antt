-- ===== src/Permissions/Update.antt =====
-- `updatePermissions` with `correctPermissionsDataMap` and `savePermissionsIntoDB`
-- (app/api/groups/update_permissions.go). The row of permissions_granted of the group, the item and
-- the source group, with the origin 'group_membership', is a `UserPermissions`.
use algorea_backend.Shared.{
  ℕ, Bool, true, false, ◌&&◌, ◌||◌, not, Option, none, some, ltb, ◌==◌, if◌then◌else◌, get_or,
  is_some,
}
use algorea_backend.Permissions.Levels.{
  CanView, CanGrantView, CanWatch, CanEdit, view_index_by_name, grant_view_index_by_name,
  watch_index_by_name, edit_index_by_name, grant_view_name_by_index,
}
use algorea_backend.Permissions.Checks.{UserPermissions, ManagerGeneratedPermissions}
use algorea_backend.Permissions.Validators.{
  SetCanRequestHelpTo, UpdatePermissionsInput, Validation, validate,
}

-- The columns of `dataMap`, those that are not given `none`.
pub record DataMap : Type 0 where
  pub is_owner : Option Bool
  pub can_view : Option CanView
  pub can_grant_view : Option CanGrantView
  pub can_watch : Option CanWatch
  pub can_edit : Option CanEdit
  pub can_make_session_official : Option Bool
  pub can_enter_from : Option ℕ
  pub can_enter_until : Option ℕ
  pub can_request_help_to : Option (Option ℕ)
  pub is_all_users_group : Option Bool

abbrev pub help_id : Option SetCanRequestHelpTo → Option (Option ℕ)
help_id none = none
help_id (some h) = h.id

abbrev pub help_flag : Option SetCanRequestHelpTo → Option Bool
help_flag none = none
help_flag (some h) = h.is_all_users_group

-- `data.ConstructMapForDB()`: the fields of a nested structure are columns like the others.
unfoldable pub construct_map_for_db : UpdatePermissionsInput → DataMap
construct_map_for_db input = record {
  is_owner = input.is_owner;
  can_view = input.can_view;
  can_grant_view = input.can_grant_view;
  can_watch = input.can_watch;
  can_edit = input.can_edit;
  can_make_session_official = input.can_make_session_official;
  can_enter_from = input.can_enter_from;
  can_enter_until = input.can_enter_until;
  can_request_help_to = help_id input.can_request_help_to;
  is_all_users_group = help_flag input.can_request_help_to;
}

unfoldable pub correct_grant_view : UserPermissions → DataMap → Option DataMap
unfolding view_index_by_name grant_view_index_by_name
correct_grant_view current d =
    if (current.can_grant_view_value == grant_view_index_by_name CanGrantView.solution_with_grant
        && not (current.can_view_value == view_index_by_name CanView.solution))
      || (ltb current.can_grant_view_value
            (grant_view_index_by_name CanGrantView.solution_with_grant)
          && ltb current.can_view_value current.can_grant_view_value)
    then elim (grant_view_name_by_index current.can_view_value) [
      | none ↦ none
      | some name ↦ some (record d { can_grant_view = some name })
    ]
    else some d

abbrev pub reset_if {ℓ} : {V : Type ℓ} → Bool → V → Option V → Option V
reset_if true v o = some v
reset_if false v o = o

unfoldable pub correct_others : UserPermissions → DataMap → DataMap
unfolding view_index_by_name watch_index_by_name edit_index_by_name
correct_others current d =
    if ltb current.can_view_value (view_index_by_name CanView.content)
    then record d {
      can_watch =
          reset_if (ltb (watch_index_by_name CanWatch.none) current.can_watch_value) CanWatch.none
            (d.can_watch);
      can_edit =
          reset_if (ltb (edit_index_by_name CanEdit.none) current.can_edit_value) CanEdit.none
            (d.can_edit);
      can_make_session_official =
          reset_if
            (current.can_make_session_official
              && ltb current.can_view_value (view_index_by_name CanView.info))
            false (d.can_make_session_official);
    }
    else d

-- `correctPermissionsDataMap`; `none` is a panic.
unfoldable pub correct_permissions_data_map : UserPermissions → DataMap → Option DataMap
correct_permissions_data_map current d = elim (correct_grant_view current d) [
  | none ↦ none
  | some d₁ ↦ some (correct_others current d₁)
]

-- The flag `is_all_users_group` of the map is replaced by the group.
unfoldable pub replace_flag : ℕ → DataMap → DataMap
replace_flag all_users_group d =
    if is_some d.is_all_users_group
    then record d { is_all_users_group = none; can_request_help_to = some (some all_users_group) }
    else d

-- The defaults of the columns, which are also those of the query of the current permissions.
abbrev pub default_permissions : UserPermissions
default_permissions = record {
  can_view_value = 1;
  can_grant_view_value = 1;
  can_watch_value = 1;
  can_edit_value = 1;
  can_enter_from = 253402300799;
  can_enter_until = 253402300799;
  can_make_session_official = false;
  is_owner = false;
  can_request_help_to = none;
}

abbrev pub index_or {ℓ} : {V : Type ℓ} → (V → ℕ) → Option V → ℕ → ℕ
index_or index none old = old
index_or index (some v) old = index v

-- `InsertOrUpdateMap(dbMap, columnsToUpdate)`, on the row with its defaults where there is none.
unfoldable pub insert_or_update_map : DataMap → UserPermissions → UserPermissions
insert_or_update_map d old = record {
  can_view_value = index_or view_index_by_name (d.can_view) (old.can_view_value);
  can_grant_view_value =
      index_or grant_view_index_by_name (d.can_grant_view) (old.can_grant_view_value);
  can_watch_value = index_or watch_index_by_name (d.can_watch) (old.can_watch_value);
  can_edit_value = index_or edit_index_by_name (d.can_edit) (old.can_edit_value);
  can_enter_from = get_or (d.can_enter_from) (old.can_enter_from);
  can_enter_until = get_or (d.can_enter_until) (old.can_enter_until);
  can_make_session_official = get_or (d.can_make_session_official) (old.can_make_session_official);
  is_owner = get_or (d.is_owner) (old.is_owner);
  can_request_help_to = get_or (d.can_request_help_to) (old.can_request_help_to);
}

-- The row, and the propagations that the transaction has scheduled.
pub record Saved : Type 0 where
  pub row : Option UserPermissions
  pub permissions_propagation : Bool
  pub results_propagation : Bool

abbrev pub gives_view : Option CanView → Bool
gives_view none = false
gives_view (some CanView.none) = false
gives_view (some _) = true

abbrev pub current_permissions : Option UserPermissions → UserPermissions
current_permissions row = get_or row default_permissions

unfoldable pub save_permissions_into_db : DataMap → Option UserPermissions → Saved
save_permissions_into_db d row = record {
  row = some (insert_or_update_map d (current_permissions row));
  permissions_propagation = true;
  results_propagation = gives_view d.can_view || get_or (d.is_owner) false;
}

-- The answers of the queries that guard the service.
pub record Access : Type 0 where
  pub is_manager_with_grant_access : Bool
  pub is_parent_visible : Bool
  pub is_item_visible : Bool
  pub is_root : Bool

unfoldable pub check_item : Access → Bool
check_item a = if a.is_parent_visible then true else if a.is_item_visible then true else a.is_root

-- `checkIfUserIsManagerAllowedToGrantPermissionsOnItem`.
unfoldable pub check_access : Access → Bool
check_access a = if a.is_manager_with_grant_access then check_item a else false

pub data Response : Type 0 where
  updated forbidden bad_request panic : Response

pub record Reply : Type 0 where
  pub response : Response
  pub saved : Saved

abbrev pub unsaved : Response → Option UserPermissions → Reply
unsaved response row = record {
  response = response;
  saved = record { row = row; permissions_propagation = false; results_propagation = false };
}

-- The statements under `if modified`.
unfoldable pub save_modified : ℕ → UserPermissions → DataMap → Option UserPermissions → Reply
save_modified all_users_group current d row = elim (correct_permissions_data_map current d) [
  | none ↦ unsaved Response.panic row
  | some d₁ ↦ record {
    response = Response.updated;
    saved = save_permissions_into_db (replace_flag all_users_group d₁) row;
  }
]

abbrev pub conclude : ℕ → Validation → DataMap → Option UserPermissions → Reply
conclude all_users_group v d row =
    if not v.valid
    then unsaved Response.bad_request row
    else if v.modified
    then save_modified all_users_group (v.current) d row
    else unsaved Response.updated row

unfoldable pub update_permissions :
    (ℕ → Bool)
    → (ℕ → Bool)
    → ManagerGeneratedPermissions
    → ℕ
    → Access
    → UpdatePermissionsInput
    → Option UserPermissions
    → Reply
update_permissions visible_for_user visible_for_group manager all_users_group access input row =
    if check_access access
    then conclude all_users_group
        (validate visible_for_user visible_for_group manager (current_permissions row) input)
        (construct_map_for_db input) row
    else unsaved Response.forbidden row
