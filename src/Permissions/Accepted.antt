-- ===== src/Permissions/Accepted.antt =====
-- What it means that the validators of `updatePermissions` have passed
-- (app/api/groups/update_permissions.go).
use algorea_backend.Shared.{
  ℕ, ◌≡◌, refl, Bool, true, false, ◌&&◌, not, Option, none, some, leb, get_or, arith,
}
use algorea_backend.Permissions.Levels.{
  CanView, CanGrantView, CanWatch, CanEdit, view_index_by_name, grant_view_index_by_name,
  watch_index_by_name, edit_index_by_name,
}
use algorea_backend.Permissions.Checks.{
  UserPermissions, ManagerGeneratedPermissions, check_can_view, check_can_grant_view,
  check_can_watch, check_can_edit, check_can_make_session_official, check_can_enter_from,
  check_can_enter_until,
}
use algorea_backend.Permissions.Validators.{
  SetCanRequestHelpTo, Validation, id_of, flag_of, accept, can_request_help_to_is_modified,
  check_is_owner, validate_is_owner, validate_can_view, validate_can_grant_view, validate_can_watch,
  validate_can_edit, validate_can_make_session_official, validate_can_enter_from,
  validate_can_enter_until, check_help_visible, validate_can_request_help_to,
}
use algorea_backend.Permissions.Update.{index_or}

-- The permissions with the values that the first n fields of an input give.
abbrev pub with_view : Option CanView → UserPermissions → UserPermissions
with_view o p = record p { can_view_value = index_or view_index_by_name o (p.can_view_value) }

abbrev pub with_grant_view : Option CanGrantView → UserPermissions → UserPermissions
with_grant_view o p = record p {
  can_grant_view_value = index_or grant_view_index_by_name o (p.can_grant_view_value);
}

abbrev pub with_watch : Option CanWatch → UserPermissions → UserPermissions
with_watch o p = record p { can_watch_value = index_or watch_index_by_name o (p.can_watch_value) }

abbrev pub with_edit : Option CanEdit → UserPermissions → UserPermissions
with_edit o p = record p { can_edit_value = index_or edit_index_by_name o (p.can_edit_value) }

abbrev pub with_official : Option Bool → UserPermissions → UserPermissions
with_official o p = record p { can_make_session_official = get_or o (p.can_make_session_official) }

-- A field that is not given needs no check.
abbrev pub passes {ℓ} : {V : Type ℓ} → (V → Bool) → Option V → Bool
passes check none = true
passes check (some v) = check v

accept_lem :
    (b changed : Bool) (p : UserPermissions) (v : Validation)
    → (accept b changed p v).valid ≡ true
    → (b ≡ true) × (v.valid ≡ true) × ((accept b changed p v).current ≡ p)
accept_lem true changed p v valid = (refl, valid, refl)
accept_lem false changed p v valid = ground arith

-- A validator that passes leaves the permissions with its field's value.
module _ (u g : ℕ → Bool) where
  pub validate_can_view_lem :
      (manager : ManagerGeneratedPermissions) (o : Option CanView) (v : Validation)
      → (validate_can_view u g manager o v).valid ≡ true
      → (passes (check_can_view v.current manager) o ≡ true)
        × (v.valid ≡ true)
        × ((validate_can_view u g manager o v).current ≡ with_view o v.current)
  unfolding validate_can_view
  validate_can_view_lem manager none v valid = (refl, valid, refl)
  validate_can_view_lem manager (some new) v valid = accept_lem _ _ _ v valid

  pub validate_can_grant_view_lem :
      (manager : ManagerGeneratedPermissions) (o : Option CanGrantView) (v : Validation)
      → (validate_can_grant_view u g manager o v).valid ≡ true
      → (passes (check_can_grant_view v.current manager) o ≡ true)
        × (v.valid ≡ true)
        × ((validate_can_grant_view u g manager o v).current ≡ with_grant_view o v.current)
  unfolding validate_can_grant_view
  validate_can_grant_view_lem manager none v valid = (refl, valid, refl)
  validate_can_grant_view_lem manager (some new) v valid = accept_lem _ _ _ v valid

  pub validate_can_watch_lem :
      (manager : ManagerGeneratedPermissions) (o : Option CanWatch) (v : Validation)
      → (validate_can_watch u g manager o v).valid ≡ true
      → (passes (check_can_watch v.current manager) o ≡ true)
        × (v.valid ≡ true)
        × ((validate_can_watch u g manager o v).current ≡ with_watch o v.current)
  unfolding validate_can_watch
  validate_can_watch_lem manager none v valid = (refl, valid, refl)
  validate_can_watch_lem manager (some new) v valid = accept_lem _ _ _ v valid

  pub validate_can_edit_lem :
      (manager : ManagerGeneratedPermissions) (o : Option CanEdit) (v : Validation)
      → (validate_can_edit u g manager o v).valid ≡ true
      → (passes (check_can_edit v.current manager) o ≡ true)
        × (v.valid ≡ true)
        × ((validate_can_edit u g manager o v).current ≡ with_edit o v.current)
  unfolding validate_can_edit
  validate_can_edit_lem manager none v valid = (refl, valid, refl)
  validate_can_edit_lem manager (some new) v valid = accept_lem _ _ _ v valid

  pub validate_can_make_session_official_lem :
      (manager : ManagerGeneratedPermissions) (o : Option Bool) (v : Validation)
      → (validate_can_make_session_official u g manager o v).valid ≡ true
      → (passes (check_can_make_session_official v.current manager) o ≡ true)
        × (v.valid ≡ true)
        × ((validate_can_make_session_official u g manager o v).current ≡ with_official o v.current)
  unfolding validate_can_make_session_official
  validate_can_make_session_official_lem manager none v valid = (refl, valid, refl)
  validate_can_make_session_official_lem manager (some new) v valid = accept_lem _ _ _ v valid

  pub validate_can_enter_from_lem :
      (manager : ManagerGeneratedPermissions) (o : Option ℕ) (v : Validation)
      → (validate_can_enter_from u g manager o v).valid ≡ true
      → (passes (check_can_enter_from v.current manager) o ≡ true)
        × (v.valid ≡ true)
        × ((validate_can_enter_from u g manager o v).current ≡ v.current)
  unfolding validate_can_enter_from
  validate_can_enter_from_lem manager none v valid = (refl, valid, refl)
  validate_can_enter_from_lem manager (some new) v valid = accept_lem _ _ _ v valid

  pub validate_can_enter_until_lem :
      (manager : ManagerGeneratedPermissions) (o : Option ℕ) (v : Validation)
      → (validate_can_enter_until u g manager o v).valid ≡ true
      → (passes (check_can_enter_until v.current manager) o ≡ true)
        × (v.valid ≡ true)
        × ((validate_can_enter_until u g manager o v).current ≡ v.current)
  unfolding validate_can_enter_until
  validate_can_enter_until_lem manager none v valid = (refl, valid, refl)
  validate_can_enter_until_lem manager (some new) v valid = accept_lem _ _ _ v valid

  pub validate_is_owner_lem :
      (manager : ManagerGeneratedPermissions) (o : Option Bool) (v : Validation)
      → (validate_is_owner u g manager o v).valid ≡ true
      → (passes (check_is_owner v.current manager) o ≡ true)
        × (v.valid ≡ true)
        × ((validate_is_owner u g manager o v).current ≡ v.current)
  unfolding validate_is_owner
  validate_is_owner_lem manager none v valid = (refl, valid, refl)
  validate_is_owner_lem manager (some new) v valid = accept_lem _ _ _ v valid

-- The conditions under which a field can_request_help_to passes: not both the id and the flag, the
-- right to grant "content", and a group that both sides see.
abbrev pub check_help :
    (ℕ → Bool) → (ℕ → Bool) → ManagerGeneratedPermissions → Option ℕ → SetCanRequestHelpTo → Bool
check_help u g manager old h =
    not (flag_of h && can_request_help_to_is_modified (id_of h) none)
    && (leb (grant_view_index_by_name CanGrantView.content) manager.can_grant_view_generated_value
        && check_help_visible u g manager (id_of h) old)

pub validate_can_request_help_to_lem :
    (u g : ℕ → Bool) (manager : ManagerGeneratedPermissions) (o : Option SetCanRequestHelpTo)
    (v : Validation)
    → (validate_can_request_help_to u g manager o v).valid ≡ true
    → (passes (check_help u g manager v.current.can_request_help_to) o ≡ true)
      × (v.valid ≡ true)
      × ((validate_can_request_help_to u g manager o v).current ≡ v.current)
unfolding validate_can_request_help_to
validate_can_request_help_to_lem u g manager none v valid = (refl, valid, refl)
validate_can_request_help_to_lem u g manager (some h) v valid = ground arith
