-- ===== src/Permissions/Saving.antt =====
-- The row that `updatePermissions` saves (app/api/groups/update_permissions.go).
use algorea_backend.Shared.{
  ℕ, ◌≡◌, refl, Bool, true, false, ◌||◌, not, Option, some, ap, if◌then◌else◌, get_or, is_some,
  arith, inl, inr, Bool-cases,
}
use algorea_backend.Permissions.Levels.{CanGrantView, grant_view_index_by_name}
use algorea_backend.Permissions.Checks.{UserPermissions, ManagerGeneratedPermissions}
use algorea_backend.Permissions.Validators.{UpdatePermissionsInput, Validation, validate}
use algorea_backend.Permissions.Update.{
  DataMap, construct_map_for_db, correct_grant_view, correct_others, correct_permissions_data_map,
  replace_flag, insert_or_update_map, Saved, current_permissions, save_permissions_into_db, Access,
  check_access, Response, save_modified, update_permissions, gives_view, unsaved, index_or,
}
use algorea_backend.Permissions.Passed.{asked, validate-Passed}
use algorea_backend.Permissions.Intended.{cut_grant_view, cut, intended, helper_group, is_in_range}
use algorea_backend.Permissions.Corrections.{
  correct_grant_view_lem, insert-replace_flag, insert-correct_others, correct_others_frame,
  asked_range,
}

module _ (all_users_group : ℕ) (old : UserPermissions) (input : UpdatePermissionsInput) where
  corrected-intended :
      (o : Option CanGrantView)
      → is_in_range (asked old input) ≡ true
      → index_or grant_view_index_by_name o old.can_grant_view_value
        ≡ cut_grant_view (asked old input).can_view_value (asked old input).can_grant_view_value
      → insert_or_update_map
          (correct_others
            (asked old input)
            (record (construct_map_for_db input) { can_grant_view = o }))
          old
        ≡ record (intended all_users_group old input) {
          can_request_help_to =
              get_or (construct_map_for_db input).can_request_help_to (old.can_request_help_to);
        }
  unfolding is_in_range construct_map_for_db intended cut insert_or_update_map
  corrected-intended o range grant = rw (
    insert-correct_others (asked old input)
        (record (construct_map_for_db input) { can_grant_view = o }) old (ground arith)
        (ground arith) refl refl refl,
    grant,
  )

  flagged-intended :
      (o : Option CanGrantView)
      → is_in_range (asked old input) ≡ true
      → index_or grant_view_index_by_name o old.can_grant_view_value
        ≡ cut_grant_view (asked old input).can_view_value (asked old input).can_grant_view_value
      → insert_or_update_map
          (replace_flag all_users_group (
            correct_others
              (asked old input)
              (record (construct_map_for_db input) { can_grant_view = o })))
          old
        ≡ intended all_users_group old input
  unfolding helper_group construct_map_for_db intended cut
  flagged-intended o range grant =
      let d = record (construct_map_for_db input) { can_grant_view = o } in
      rw (
        insert-replace_flag all_users_group (correct_others (asked old input) d) old,
        corrected-intended o range grant,
        ap (λ changed. changed.is_all_users_group) (correct_others_frame (asked old input) d),
        ap (λ changed. changed.can_request_help_to) (correct_others_frame (asked old input) d),
      )

  replace_flag-view : (d : DataMap) → (replace_flag all_users_group d).can_view ≡ d.can_view
  unfolding replace_flag
  replace_flag-view d = elim (Bool-cases (is_some d.is_all_users_group)) [
    | inl e ↦ rw e
    | inr e ↦ rw e
  ]

  replace_flag-owner : (d : DataMap) → (replace_flag all_users_group d).is_owner ≡ d.is_owner
  unfolding replace_flag
  replace_flag-owner d = elim (Bool-cases (is_some d.is_all_users_group)) [
    | inl e ↦ rw e
    | inr e ↦ rw e
  ]

correct-grant_view :
    (p : UserPermissions) (d d₁ : DataMap)
    → correct_grant_view p d ≡ some d₁
    → correct_permissions_data_map p d ≡ some (correct_others p d₁)
unfolding correct_permissions_data_map
correct-grant_view p d d₁ e = rw (e, correct_permissions_data_map)

save_modified_lem :
    (all_users_group : ℕ) (p : UserPermissions) (d d₁ : DataMap) (row : Option UserPermissions)
    → correct_permissions_data_map p d ≡ some d₁
    → save_modified all_users_group p d row ≡ record {
      response = Response.updated;
      saved = save_permissions_into_db (replace_flag all_users_group d₁) row;
    }
unfolding save_modified
save_modified_lem all_users_group p d d₁ row e = rw (e, save_modified)

-- What the request makes of the row: `intended` and the propagations.
unfoldable pub intended_save : ℕ → UserPermissions → UpdatePermissionsInput → Saved
intended_save all_users_group old input = record {
  row = some (intended all_users_group old input);
  permissions_propagation = true;
  results_propagation = gives_view input.can_view || get_or (input.is_owner) false;
}

module _ (all_users_group : ℕ) (row : Option UserPermissions) (input : UpdatePermissionsInput) where
  abbrev old : UserPermissions
  old = current_permissions row

  save_modified-intended :
      is_in_range old ≡ true
      → save_modified all_users_group (asked old input) (construct_map_for_db input) row
        ≡ record { response = Response.updated; saved = intended_save all_users_group old input }
  unfolding save_permissions_into_db intended_save is_in_range construct_map_for_db
  save_modified-intended range =
      let settled = asked_range old input range in
      let (o, corrected, grant) =
        correct_grant_view_lem (asked old input) (construct_map_for_db input)
          (old.can_grant_view_value) (ground arith) (ground arith) refl in
      let d = record (construct_map_for_db input) { can_grant_view = o } in
      rw (
        save_modified_lem all_users_group (asked old input) (construct_map_for_db input) _ row
            (correct-grant_view (asked old input) (construct_map_for_db input) d corrected),
        flagged-intended all_users_group old input o settled grant,
        replace_flag-view all_users_group old input (correct_others (asked old input) d),
        replace_flag-owner all_users_group old input (correct_others (asked old input) d),
        ap (λ changed. changed.can_view) (correct_others_frame (asked old input) d),
        ap (λ changed. changed.is_owner) (correct_others_frame (asked old input) d),
      )

module _ (u g : ℕ → Bool) (manager : ManagerGeneratedPermissions) (all_users_group : ℕ)
    (access : Access) (input : UpdatePermissionsInput) (row : Option UserPermissions) where
  abbrev validation : Validation
  validation = validate u g manager (current_permissions row) input

  -- A request that is accepted and changes something leaves the row that is intended, an independent
  -- description of it, and schedules the propagations; every other request leaves the row and
  -- schedules nothing. It is refused as forbidden by the guards and as a bad request by a validator.
  -- The old row has values that the columns can have.
  pub update_permissions-intended :
      is_in_range (current_permissions row) ≡ true
      → update_permissions u g manager all_users_group access input row ≡ (
          if not (check_access access)
          then unsaved Response.forbidden row
          else if not validation.valid
          then unsaved Response.bad_request row
          else if validation.modified
          then record {
            response = Response.updated;
            saved = intended_save all_users_group (current_permissions row) input;
          }
          else unsaved Response.updated row)
  unfolding update_permissions
  update_permissions-intended range = elim (Bool-cases validation.valid) [
    | inl e ↦
        (let (same, others) = validate-Passed u g manager (current_permissions row) input e in
          rw (e, same, save_modified-intended all_users_group row input range)
            (elim (Bool-cases (check_access access)) [ inl a ↦ rw a | inr a ↦ rw a ]))
    | inr e ↦ rw e (elim (Bool-cases (check_access access)) [ inl a ↦ rw a | inr a ↦ rw a ])
  ]
