-- ===== src/Permissions/Examples.antt =====
-- A request that takes "solution" from a group: tests of the definitions and instances of the
-- theorems.
use algorea_backend.Shared.{ℕ, ◌≡◌, ◌⊎◌, refl, Bool, true, false, none, some, ◌==◌}
use algorea_backend.Permissions.Levels.{CanView, CanWatch, grant_view_name_by_index}
use algorea_backend.Permissions.Checks.{
  UserPermissions, ManagerGeneratedPermissions, check_can_view, check_can_grant_view,
  check_can_watch, check_can_edit, check_can_make_session_official, check_can_enter_from,
  check_can_enter_until,
}
use algorea_backend.Permissions.Validators.{
  UpdatePermissionsInput, validate_is_owner, validate_can_view, validate_can_grant_view,
  validate_can_watch, validate_can_edit, validate_can_make_session_official,
  validate_can_enter_from, validate_can_enter_until, validate_can_request_help_to,
  check_help_visible, can_request_help_to_is_modified, validate,
}
use algorea_backend.Permissions.Update.{
  construct_map_for_db, correct_grant_view, correct_others, correct_permissions_data_map,
  replace_flag, insert_or_update_map, current_permissions, save_permissions_into_db, Access,
  check_item, check_access, Response, Reply, save_modified, update_permissions, unsaved,
}
use algorea_backend.Permissions.Intended.{is_in_range, is_consistent}
use algorea_backend.Permissions.Rights.{is_allowed}
use algorea_backend.Permissions.Saving.{update_permissions-intended, intended_save}
use algorea_backend.Permissions.Guarantees.{
  update_permissions-is_consistent, update_permissions-is_allowed, update_permissions-helper_group,
}

abbrev sees : ℕ → Bool
sees id = id == 7

abbrev teacher : ManagerGeneratedPermissions
teacher = record {
  can_grant_view_generated_value = 4;
  can_watch_generated_value = 2;
  can_edit_generated_value = 1;
  is_owner_generated = false;
}

abbrev granted : UserPermissions
granted = record {
  can_view_value = 5;
  can_grant_view_value = 6;
  can_watch_value = 3;
  can_edit_value = 2;
  can_enter_from = 100;
  can_enter_until = 200;
  can_make_session_official = true;
  is_owner = false;
  can_request_help_to = some 7;
}

abbrev nothing : UpdatePermissionsInput
nothing = record {
  is_owner = none;
  can_view = none;
  can_grant_view = none;
  can_watch = none;
  can_edit = none;
  can_make_session_official = none;
  can_enter_from = none;
  can_enter_until = none;
  can_request_help_to = none;
}

-- can_view becomes "info".
abbrev lowering : UpdatePermissionsInput
lowering = record nothing { can_view = some CanView.info }

-- The group keeps its helper group and does not ask for the one of all users.
abbrev refusing_all : UpdatePermissionsInput
refusing_all = record lowering {
  can_request_help_to = some (record { id = some (some 7); is_all_users_group = some false });
}

abbrev manages : Access
manages = record {
  is_manager_with_grant_access = true;
  is_parent_visible = false;
  is_item_visible = false;
  is_root = true;
}

-- What a run unfolds.
abbrev request : UpdatePermissionsInput → Reply
request input = update_permissions sees sees teacher 2 manages input (some granted)

granted_in_range : is_in_range granted ≡ true
unfolding is_in_range
granted_in_range = refl

run_update : (input : UpdatePermissionsInput) → Reply
unfolding update_permissions check_access check_item validate validate_is_owner validate_can_view
    validate_can_grant_view validate_can_watch validate_can_edit validate_can_make_session_official
    validate_can_enter_from validate_can_enter_until validate_can_request_help_to check_help_visible
    can_request_help_to_is_modified check_can_view check_can_grant_view check_can_watch
    check_can_edit check_can_make_session_official check_can_enter_from check_can_enter_until
    construct_map_for_db save_modified correct_permissions_data_map correct_grant_view
    correct_others replace_flag save_permissions_into_db insert_or_update_map
    grant_view_name_by_index
run_update input = request input

lowering_cuts :
    (request lowering).saved.row
    ≡ some (record granted {
      can_view_value = 2;
      can_grant_view_value = 2;
      can_watch_value = 1;
      can_edit_value = 1;
    })
unfolding run_update
lowering_cuts = refl

nothing_changes : request nothing ≡ unsaved Response.updated (some granted)
unfolding run_update
nothing_changes = refl

no_solution_with_grant :
    request (record nothing { can_watch = some CanWatch.answer_with_grant })
    ≡ unsaved Response.bad_request (some granted)
unfolding run_update
no_solution_with_grant = refl

refused_all_is_saved :
    (current_permissions (request refusing_all).saved.row).can_request_help_to ≡ some 2
unfolding run_update
refused_all_is_saved = refl

update_permissions-intended_example :
    update_permissions sees sees teacher 2 manages lowering (some granted)
    ≡ record { response = Response.updated; saved = intended_save 2 granted lowering }
unfolding run_update
update_permissions-intended_example =
    update_permissions-intended sees sees teacher 2 manages lowering (some granted) granted_in_range

update_permissions-is_consistent_example :
    ((request lowering).saved.row ≡ some granted)
    ⊎ ((is_consistent (current_permissions (request lowering).saved.row) ≡ true)
        × (is_in_range (current_permissions (request lowering).saved.row) ≡ true))
update_permissions-is_consistent_example =
    update_permissions-is_consistent sees sees teacher 2 manages lowering (some granted)
      granted_in_range

update_permissions-is_allowed_example :
    is_allowed teacher granted (current_permissions (request lowering).saved.row) ≡ true
update_permissions-is_allowed_example =
    update_permissions-is_allowed sees sees teacher 2 manages lowering (some granted)
      granted_in_range

update_permissions-helper_group_example :
    ((request refusing_all).saved.row ≡ some granted)
    ⊎ ((current_permissions (request refusing_all).saved.row).can_request_help_to ≡ some 2)
update_permissions-helper_group_example =
    update_permissions-helper_group sees sees teacher 2 manages refusing_all (some granted)
      (some (some 7)) false granted_in_range refl
