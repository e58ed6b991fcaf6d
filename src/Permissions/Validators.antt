-- ===== src/Permissions/Validators.antt =====
-- The input of `updatePermissions` and its validators, in the order of the input's fields
-- (app/api/groups/update_permissions.go). A field that the request does not give is `none`; the
-- decoding of the JSON and the `oneof` tags come before. A validator that fails does not stop those
-- of the fields after it, and the first tag that fails stops the tags of its field.
use algorea_backend.Shared.{
  ℕ, Bool, true, false, ◌&&◌, ◌||◌, not, Option, none, some, leb, ◌==◌, if◌then◌else◌,
}
use algorea_backend.Permissions.Levels.{
  CanView, CanGrantView, CanWatch, CanEdit, view_index_by_name, grant_view_index_by_name,
  watch_index_by_name, edit_index_by_name,
}
use algorea_backend.Permissions.Checks.{
  UserPermissions, ManagerGeneratedPermissions, check_can_view, check_can_grant_view,
  check_can_watch, check_can_edit, check_can_make_session_official, check_can_enter_from,
  check_can_enter_until,
}

-- `setCanRequestHelpTo`: an `id` is absent, null or a group; the flag is absent or given.
pub record SetCanRequestHelpTo : Type 0 where
  pub id : Option (Option ℕ)
  pub is_all_users_group : Option Bool

pub record UpdatePermissionsInput : Type 0 where
  pub is_owner : Option Bool
  pub can_view : Option CanView
  pub can_grant_view : Option CanGrantView
  pub can_watch : Option CanWatch
  pub can_edit : Option CanEdit
  pub can_make_session_official : Option Bool
  pub can_enter_from : Option ℕ
  pub can_enter_until : Option ℕ
  pub can_request_help_to : Option SetCanRequestHelpTo

-- What the validators share: the permissions they update, `modified`, and whether all have passed.
pub record Validation : Type 0 where
  pub current : UserPermissions
  pub modified : Bool
  pub valid : Bool

-- `value.ID`, nil where the request gives none.
abbrev pub id_of : SetCanRequestHelpTo → Option ℕ
id_of h = elim h.id [ none ↦ none | some id ↦ id ]

abbrev pub flag_of : SetCanRequestHelpTo → Bool
flag_of h = elim h.is_all_users_group [ none ↦ false | some b ↦ b ]

abbrev bool_eq : Bool → Bool → Bool
bool_eq true b = b
bool_eq false b = not b

-- `canRequestHelpToIsModified`.
unfoldable pub can_request_help_to_is_modified : Option ℕ → Option ℕ → Bool
can_request_help_to_is_modified none none = false
can_request_help_to_is_modified none (some old) = true
can_request_help_to_is_modified (some new) none = true
can_request_help_to_is_modified (some new) (some old) = not (new == old)

-- Is this the group that the permissions have now?
abbrev pub is_the_same : ℕ → Option ℕ → Bool
is_the_same new none = false
is_the_same new (some old) = new == old

-- A validator's update, if its check passes.
abbrev pub accept : Bool → Bool → UserPermissions → Validation → Validation
accept false changed current v = record v { valid = false }
accept true changed current v = record v { current = current; modified = v.modified || changed }

-- The condition in `registerIsOwnerValidator`.
abbrev pub check_is_owner : UserPermissions → ManagerGeneratedPermissions → Bool → Bool
check_is_owner current manager new =
    not (new && (not (bool_eq new current.is_owner) && not manager.is_owner_generated))

-- `IsVisibleFor` the user and `IsVisibleForGroup` the receiving group are answers of the database.
module _ (visible_for_user visible_for_group : ℕ → Bool)
    (manager : ManagerGeneratedPermissions) where
  unfoldable pub validate_is_owner : Option Bool → Validation → Validation
  validate_is_owner none v = v
  validate_is_owner (some new) v =
      accept (not (new && (not (bool_eq new v.current.is_owner) && not manager.is_owner_generated)))
        (not (bool_eq v.current.is_owner new)) v.current v

  unfoldable pub validate_can_view : Option CanView → Validation → Validation
  validate_can_view none v = v
  validate_can_view (some new) v =
      accept (check_can_view v.current manager new)
        (not (v.current.can_view_value == view_index_by_name new))
        (record (v.current) { can_view_value = view_index_by_name new }) v

  unfoldable pub validate_can_grant_view : Option CanGrantView → Validation → Validation
  validate_can_grant_view none v = v
  validate_can_grant_view (some new) v =
      accept (check_can_grant_view v.current manager new)
        (not (v.current.can_grant_view_value == grant_view_index_by_name new))
        (record (v.current) { can_grant_view_value = grant_view_index_by_name new }) v

  unfoldable pub validate_can_watch : Option CanWatch → Validation → Validation
  validate_can_watch none v = v
  validate_can_watch (some new) v =
      accept (check_can_watch v.current manager new)
        (not (v.current.can_watch_value == watch_index_by_name new))
        (record (v.current) { can_watch_value = watch_index_by_name new }) v

  unfoldable pub validate_can_edit : Option CanEdit → Validation → Validation
  validate_can_edit none v = v
  validate_can_edit (some new) v =
      accept (check_can_edit v.current manager new)
        (not (v.current.can_edit_value == edit_index_by_name new))
        (record (v.current) { can_edit_value = edit_index_by_name new }) v

  unfoldable pub validate_can_make_session_official : Option Bool → Validation → Validation
  validate_can_make_session_official none v = v
  validate_can_make_session_official (some new) v =
      accept (check_can_make_session_official v.current manager new)
        (not (bool_eq v.current.can_make_session_official new))
        (record (v.current) { can_make_session_official = new }) v

  unfoldable pub validate_can_enter_from : Option ℕ → Validation → Validation
  validate_can_enter_from none v = v
  validate_can_enter_from (some new) v =
      accept (check_can_enter_from v.current manager new) (not (new == v.current.can_enter_from))
        v.current v

  unfoldable pub validate_can_enter_until : Option ℕ → Validation → Validation
  validate_can_enter_until none v = v
  validate_can_enter_until (some new) v =
      accept (check_can_enter_until v.current manager new) (not (new == v.current.can_enter_until))
        v.current v

  -- The tag `can_request_help_to_visible`.
  unfoldable pub check_help_visible : Option ℕ → Option ℕ → Bool
  check_help_visible none old = true
  check_help_visible (some new) old =
      if is_the_same new old then true else visible_for_user new && visible_for_group new

  -- The four tags of the field: the first sets `modified`, the others check.
  unfoldable pub validate_can_request_help_to : Option SetCanRequestHelpTo → Validation → Validation
  validate_can_request_help_to none v = v
  validate_can_request_help_to (some h) v = record v {
    modified =
        v.modified
        || (flag_of h || can_request_help_to_is_modified (id_of h) v.current.can_request_help_to);
    valid =
        v.valid
        && (not (flag_of h && can_request_help_to_is_modified (id_of h) none)
            && (leb (grant_view_index_by_name CanGrantView.content)
                  manager.can_grant_view_generated_value
                && check_help_visible (id_of h) v.current.can_request_help_to));
  }

  -- `registerPermissionsValidators` and the run of the validators.
  unfoldable pub validate : UserPermissions → UpdatePermissionsInput → Validation
  validate current input = validate_can_request_help_to input.can_request_help_to (
      validate_can_enter_until input.can_enter_until (
        validate_can_enter_from input.can_enter_from (
          validate_can_make_session_official input.can_make_session_official (
            validate_can_edit input.can_edit (
              validate_can_watch input.can_watch (
                validate_can_grant_view input.can_grant_view (
                  validate_can_view input.can_view (
                    validate_is_owner input.is_owner
                      (record { current = current; modified = false; valid = true })))))))))
