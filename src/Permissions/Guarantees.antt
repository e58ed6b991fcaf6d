-- ===== src/Permissions/Guarantees.antt =====
-- What `updatePermissions` guarantees (app/api/groups/update_permissions.go).
use algorea_backend.Shared.{ℕ, ◌≡◌, ◌⊎◌, Bool, true, Option, some, arith, inl, inr, Bool-cases}
use algorea_backend.Permissions.Checks.{UserPermissions, ManagerGeneratedPermissions}
use algorea_backend.Permissions.Validators.{UpdatePermissionsInput, validate}
use algorea_backend.Permissions.Update.{
  current_permissions, Access, check_access, update_permissions,
}
use algorea_backend.Permissions.Passed.{validate-Passed}
use algorea_backend.Permissions.Intended.{
  cut_grant_view, cut_at_content, cut, intended, helper_group, is_in_range, is_consistent,
}
use algorea_backend.Permissions.Corrections.{asked_range}
use algorea_backend.Permissions.Saving.{update_permissions-intended, intended_save}
use algorea_backend.Permissions.Rights.{
  is_allowed, is_view_allowed, is_grant_view_allowed, is_watch_allowed, is_edit_allowed,
  is_official_allowed, is_owner_allowed, is_period_allowed, is_helper_group_allowed,
  is_modified_refl, intended_allowed,
}

cut-is_consistent : (p : UserPermissions) → is_in_range p ≡ true → is_consistent (cut p) ≡ true
unfolding is_consistent is_in_range cut cut_grant_view cut_at_content
cut-is_consistent p range = ground arith

cut-is_in_range : (p : UserPermissions) → is_in_range p ≡ true → is_in_range (cut p) ≡ true
unfolding is_in_range cut cut_grant_view cut_at_content
cut-is_in_range p range = ground arith

is_allowed_refl :
    (manager : ManagerGeneratedPermissions) (p : UserPermissions) → is_allowed manager p p ≡ true
unfolding is_allowed is_view_allowed is_grant_view_allowed is_watch_allowed is_edit_allowed
    is_official_allowed is_owner_allowed is_period_allowed is_helper_group_allowed
is_allowed_refl manager p = ground (arith, is_modified_refl p.can_request_help_to)

-- The request leaves the row or the intended one.
module _ (u g : ℕ → Bool) (manager : ManagerGeneratedPermissions) (all_users_group : ℕ)
    (access : Access) (input : UpdatePermissionsInput) (row : Option UserPermissions) where
  abbrev old : UserPermissions
  old = current_permissions row

  saved_row_cases :
      is_in_range old ≡ true
      → (((update_permissions u g manager all_users_group access input row).saved.row ≡ row)
          ⊎ (((update_permissions u g manager all_users_group access input row).saved.row
                ≡ some (intended all_users_group old input))
              × ((validate u g manager old input).valid ≡ true)))
  unfolding intended_save
  saved_row_cases range =
      let e = update_permissions-intended u g manager all_users_group access input row range in
      elim (Bool-cases (check_access access)) [
        | inr a ↦ inl (rw (e, a))
        | inl a ↦ elim (Bool-cases (validate u g manager old input).valid) [
          | inr v ↦ inl (rw (e, a, v))
          | inl v ↦ elim (Bool-cases (validate u g manager old input).modified) [
            | inr m ↦ inl (rw (e, a, v, m))
            | inl m ↦ inr (rw (e, a, v, m), v)
          ]
        ]
      ]

  -- The row that a request leaves is the old one, or has values of the columns' enums with
  -- can_grant_view at most can_view ("solution_with_grant" with "solution" only), can_watch and
  -- can_edit "none" where can_view is under "content", and no can_make_session_official where it is
  -- "none". The old row, default values where there is none, has values of the enums.
  pub update_permissions-is_consistent :
      is_in_range (current_permissions row) ≡ true
      → (((update_permissions u g manager all_users_group access input row).saved.row ≡ row)
          ⊎ ((is_consistent (
                  current_permissions
                    (update_permissions u g manager all_users_group access input row).saved.row)
                ≡ true)
              × (is_in_range (
                    current_permissions
                      (update_permissions u g manager all_users_group access input row).saved.row)
                  ≡ true)))
  unfolding intended is_consistent is_in_range
  update_permissions-is_consistent range = elim (saved_row_cases range) [
    | inl kept ↦ inl kept
    | inr (saved, valid) ↦ inr (
      rw saved (cut-is_consistent _ (asked_range old input range)),
      rw saved (cut-is_in_range _ (asked_range old input range)),
    )
  ]

  -- A request changes the row only as the manager has the right to: can_view is raised up to the
  -- manager's can_grant_view, can_grant_view, can_watch and can_edit are raised with the manager's
  -- "with_grant" right and up to a "with_grant" value by an owner, is_owner and
  -- can_make_session_official are given by an owner, the period is extended with the right to grant
  -- "enter", and the helper group is changed with the right to grant "content". The old row, default
  -- values where there is none, has values of the enums.
  pub update_permissions-is_allowed :
      is_in_range (current_permissions row) ≡ true
      → is_allowed manager (current_permissions row) (
          current_permissions
            (update_permissions u g manager all_users_group access input row).saved.row)
        ≡ true
  update_permissions-is_allowed range = elim (saved_row_cases range) [
    | inl kept ↦ rw kept (is_allowed_refl manager old)
    | inr (saved, valid) ↦
        (let (same, passed) = validate-Passed u g manager old input valid in
          rw saved (intended_allowed u g manager all_users_group old input range passed))
  ]

  -- A request that gives is_all_users_group, be it true or false, leaves the row as it was or with
  -- the group of all users as its helper group, whatever group the request names. The old row,
  -- default values where there is none, has values of the enums.
  pub update_permissions-helper_group :
      (id : Option (Option ℕ)) (flag : Bool)
      → is_in_range (current_permissions row) ≡ true
      → input.can_request_help_to ≡ some (record { id = id; is_all_users_group = some flag })
      → (((update_permissions u g manager all_users_group access input row).saved.row ≡ row)
          ⊎ ((current_permissions
                (update_permissions u g manager all_users_group access input
                  row).saved.row).can_request_help_to
              ≡ some all_users_group))
  unfolding intended helper_group
  update_permissions-helper_group id flag range given = elim (saved_row_cases range) [
    | inl kept ↦ inl kept
    | inr (saved, valid) ↦ inr (rw (saved, given))
  ]
