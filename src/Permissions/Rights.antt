-- ===== src/Permissions/Rights.antt =====
-- Which permissions a manager can give (app/api/groups/update_permissions.go): what the checks of the
-- validators let through.
use algorea_backend.Shared.{
  ℕ, ◌≡◌, refl, Bool, true, false, ◌&&◌, ◌||◌, not, Option, none, some, leb, ◌==◌, arith,
}
use algorea_backend.Permissions.Levels.{grant_view_index_by_name}
use algorea_backend.Permissions.Checks.{
  UserPermissions, ManagerGeneratedPermissions, check_can_view, check_can_grant_view,
  check_can_watch, check_can_edit, check_can_make_session_official, check_can_enter_from,
  check_can_enter_until,
}
use algorea_backend.Permissions.Validators.{
  UpdatePermissionsInput, check_is_owner, can_request_help_to_is_modified,
}
use algorea_backend.Permissions.Accepted.{
  passes, with_view, with_grant_view, with_watch, with_edit, check_help,
}
use algorea_backend.Permissions.Passed.{asked, AllPassed}
use algorea_backend.Permissions.Intended.{
  cut, cut_grant_view, cut_at_content, intended, helper_group, is_in_range,
}

-- Is `new` reached from `old` by changes that the manager has the right to make? The rules are those
-- of the comments of `updatePermissionsInput`.
module _ (manager : ManagerGeneratedPermissions) (old new : UserPermissions) where
  unfoldable pub is_view_allowed : Bool
  is_view_allowed =
      leb new.can_view_value old.can_view_value
      || leb new.can_view_value manager.can_grant_view_generated_value

  unfoldable pub is_grant_view_allowed : Bool
  is_grant_view_allowed =
      leb new.can_grant_view_value old.can_grant_view_value
      || (manager.can_grant_view_generated_value == 6
          && (not (new.can_grant_view_value == 6) || manager.is_owner_generated))

  unfoldable pub is_watch_allowed : Bool
  is_watch_allowed =
      leb new.can_watch_value old.can_watch_value
      || (manager.can_watch_generated_value == 4
          && (not (new.can_watch_value == 4) || manager.is_owner_generated))

  unfoldable pub is_edit_allowed : Bool
  is_edit_allowed =
      leb new.can_edit_value old.can_edit_value
      || (manager.can_edit_generated_value == 4
          && (not (new.can_edit_value == 4) || manager.is_owner_generated))

  unfoldable pub is_official_allowed : Bool
  is_official_allowed =
      not new.can_make_session_official
      || (old.can_make_session_official || manager.is_owner_generated)

  unfoldable pub is_owner_allowed : Bool
  is_owner_allowed = not new.is_owner || (old.is_owner || manager.is_owner_generated)

  unfoldable pub is_period_allowed : Bool
  is_period_allowed =
      (leb old.can_enter_from new.can_enter_from && leb new.can_enter_until old.can_enter_until)
      || leb 2 manager.can_grant_view_generated_value

  unfoldable pub is_helper_group_allowed : Bool
  is_helper_group_allowed =
      not (can_request_help_to_is_modified new.can_request_help_to old.can_request_help_to)
      || leb 3 manager.can_grant_view_generated_value

  unfoldable pub is_allowed : Bool
  is_allowed =
      is_view_allowed
      && (is_grant_view_allowed
          && (is_watch_allowed
              && (is_edit_allowed
                  && (is_official_allowed
                      && (is_owner_allowed && (is_period_allowed && is_helper_group_allowed))))))

pub is_modified_refl : (o : Option ℕ) → can_request_help_to_is_modified o o ≡ false
unfolding can_request_help_to_is_modified
is_modified_refl none = refl
is_modified_refl (some a) = ground arith

module _ (u g : ℕ → Bool) (manager : ManagerGeneratedPermissions) (all_users_group : ℕ)
    (old : UserPermissions) (input : UpdatePermissionsInput) where
  abbrev new : UserPermissions
  new = intended all_users_group old input

  allowed_view :
      is_in_range old ≡ true
      → passes (check_can_view old manager) input.can_view ≡ true
      → is_view_allowed manager old new ≡ true
  unfolding is_view_allowed check_can_view intended cut is_in_range
  allowed_view range passed = ground arith

  allowed_grant_view :
      is_in_range old ≡ true
      → passes (check_can_grant_view (with_view input.can_view old) manager) input.can_grant_view
        ≡ true
      → is_grant_view_allowed manager old new ≡ true
  unfolding is_grant_view_allowed check_can_grant_view intended cut is_in_range cut_grant_view
  allowed_grant_view range passed = ground arith

  allowed_watch :
      is_in_range old ≡ true
      → passes
          (check_can_watch
            (with_grant_view input.can_grant_view (with_view input.can_view old))
            manager)
          input.can_watch
        ≡ true
      → is_watch_allowed manager old new ≡ true
  unfolding is_watch_allowed check_can_watch intended cut is_in_range cut_at_content
  allowed_watch range passed = ground arith

  allowed_edit :
      is_in_range old ≡ true
      → passes
          (check_can_edit
            (with_watch input.can_watch
              (with_grant_view input.can_grant_view (with_view input.can_view old)))
            manager)
          input.can_edit
        ≡ true
      → is_edit_allowed manager old new ≡ true
  unfolding is_edit_allowed check_can_edit intended cut is_in_range cut_at_content
  allowed_edit range passed = ground arith

  allowed_official :
      passes
          (check_can_make_session_official
            (with_edit input.can_edit (
              with_watch input.can_watch
                (with_grant_view input.can_grant_view (with_view input.can_view old))))
            manager)
          input.can_make_session_official
        ≡ true
      → is_official_allowed manager old new ≡ true
  unfolding is_official_allowed check_can_make_session_official intended cut
  allowed_official passed = ground arith

  allowed_owner :
      passes (check_is_owner old manager) input.is_owner ≡ true
      → is_owner_allowed manager old new ≡ true
  unfolding is_owner_allowed intended
  allowed_owner passed = ground arith

  allowed_period :
      passes (check_can_enter_from (asked old input) manager) input.can_enter_from ≡ true
      → passes (check_can_enter_until (asked old input) manager) input.can_enter_until ≡ true
      → is_period_allowed manager old new ≡ true
  unfolding is_period_allowed check_can_enter_from check_can_enter_until intended
  allowed_period from until = ground arith

  allowed_helper_group :
      passes (check_help u g manager old.can_request_help_to) input.can_request_help_to ≡ true
      → is_helper_group_allowed manager old new ≡ true
  unfolding is_helper_group_allowed intended helper_group grant_view_index_by_name
  allowed_helper_group passed = ground (arith, is_modified_refl old.can_request_help_to)

  pub intended_allowed :
      is_in_range old ≡ true → AllPassed u g manager old input → is_allowed manager old new ≡ true
  unfolding is_allowed
  intended_allowed range
        (help, (until, (from, (official, (edit, (watch, (grant, (view, (owner, start))))))))) =
      rw (
        allowed_view range view,
        allowed_grant_view range grant,
        allowed_watch range watch,
        allowed_edit range edit,
        allowed_official official,
        allowed_owner owner,
        allowed_period from until,
        allowed_helper_group help,
      )
