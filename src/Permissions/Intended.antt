-- ===== src/Permissions/Intended.antt =====
-- An independent description of the row that `updatePermissions` should leave
-- (app/api/groups/update_permissions.go): the request's values over the old ones, cut to what the
-- granted can_view allows.
use algorea_backend.Shared.{
  ℕ, Bool, ◌&&◌, ◌||◌, not, Option, some, leb, ltb, ◌==◌, if◌then◌else◌, get_or, is_some,
}
use algorea_backend.Permissions.Checks.{UserPermissions}
use algorea_backend.Permissions.Validators.{UpdatePermissionsInput, SetCanRequestHelpTo}
use algorea_backend.Permissions.Update.{help_id, help_flag}
use algorea_backend.Permissions.Passed.{asked}

-- can_grant_view is at most can_view, and "solution_with_grant" needs "solution".
unfoldable pub cut_grant_view : ℕ → ℕ → ℕ
cut_grant_view view grant =
    if grant == 6 then (if view == 5 then 6 else view) else (if ltb view grant then view else grant)

-- can_watch and can_edit are "none" under "content".
unfoldable pub cut_at_content : ℕ → ℕ → ℕ
cut_at_content view value = if ltb view 3 then 1 else value

unfoldable pub cut : UserPermissions → UserPermissions
cut p = record p {
  can_grant_view_value = cut_grant_view (p.can_view_value) (p.can_grant_view_value);
  can_watch_value = cut_at_content (p.can_view_value) (p.can_watch_value);
  can_edit_value = cut_at_content (p.can_view_value) (p.can_edit_value);
  can_make_session_official = leb 2 p.can_view_value && p.can_make_session_official;
}

-- The flag asks for the group of all users.
unfoldable pub helper_group : ℕ → Option SetCanRequestHelpTo → Option ℕ → Option ℕ
helper_group all_users_group o old =
    if is_some (help_flag o) then some all_users_group else get_or (help_id o) old

unfoldable pub intended : ℕ → UserPermissions → UpdatePermissionsInput → UserPermissions
intended all_users_group p input = record (cut (asked p input)) {
  is_owner = get_or (input.is_owner) (p.is_owner);
  can_enter_from = get_or (input.can_enter_from) (p.can_enter_from);
  can_enter_until = get_or (input.can_enter_until) (p.can_enter_until);
  can_request_help_to =
      helper_group all_users_group (input.can_request_help_to) (p.can_request_help_to);
}

-- The values that the columns can have.
unfoldable pub is_in_range : UserPermissions → Bool
is_in_range p =
    (leb 1 p.can_view_value && leb p.can_view_value 5)
    && ((leb 1 p.can_grant_view_value && leb p.can_grant_view_value 6)
        && ((leb 1 p.can_watch_value && leb p.can_watch_value 4)
            && (leb 1 p.can_edit_value && leb p.can_edit_value 4)))

-- What the comments of `updatePermissionsInput` demand of a row.
unfoldable pub is_consistent : UserPermissions → Bool
is_consistent p =
    (leb p.can_grant_view_value p.can_view_value
      || (p.can_grant_view_value == 6 && p.can_view_value == 5))
    && ((leb 3 p.can_view_value || (p.can_watch_value == 1 && p.can_edit_value == 1))
        && (leb 2 p.can_view_value || not p.can_make_session_official))
