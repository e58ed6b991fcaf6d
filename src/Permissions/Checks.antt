-- ===== src/Permissions/Checks.antt =====
-- `userPermissions`, `managerGeneratedPermissions` and the functions `checkIfPossibleToModify...`
-- (app/api/groups/update_permissions.go).
use algorea_backend.Shared.{ℕ, Bool, true, false, ◌&&◌, not, Option, ltb, leb, ◌==◌, if◌then◌else◌}
use algorea_backend.Permissions.Levels.{
  CanView, CanGrantView, CanWatch, CanEdit, view_index_by_name, grant_view_index_by_name,
  watch_index_by_name, edit_index_by_name, required_grant_view, required_user_view,
}

-- Times are numbers of seconds.
pub record UserPermissions : Type 0 where
  pub can_view_value : ℕ
  pub can_grant_view_value : ℕ
  pub can_watch_value : ℕ
  pub can_edit_value : ℕ
  pub can_enter_from : ℕ
  pub can_enter_until : ℕ
  pub can_make_session_official : Bool
  pub is_owner : Bool
  pub can_request_help_to : Option ℕ

pub record ManagerGeneratedPermissions : Type 0 where
  pub can_grant_view_generated_value : ℕ
  pub can_watch_generated_value : ℕ
  pub can_edit_generated_value : ℕ
  pub is_owner_generated : Bool

abbrev pub is_solution_with_grant : CanGrantView → Bool
is_solution_with_grant CanGrantView.solution_with_grant = true
is_solution_with_grant _ = false

abbrev pub is_answer_with_grant : CanWatch → Bool
is_answer_with_grant CanWatch.answer_with_grant = true
is_answer_with_grant _ = false

abbrev pub is_all_with_grant : CanEdit → Bool
is_all_with_grant CanEdit.all_with_grant = true
is_all_with_grant _ = false

module _ (current : UserPermissions) (manager : ManagerGeneratedPermissions) where
  unfoldable pub check_can_view : CanView → Bool
  unfolding view_index_by_name grant_view_index_by_name required_grant_view
  check_can_view to_set =
      if leb (view_index_by_name to_set) current.can_view_value
      then true
      else leb (grant_view_index_by_name (required_grant_view to_set))
          manager.can_grant_view_generated_value

  unfoldable pub check_can_grant_view : CanGrantView → Bool
  unfolding view_index_by_name grant_view_index_by_name required_user_view
  check_can_grant_view to_set =
      if leb (grant_view_index_by_name to_set) current.can_grant_view_value
      then true
      else if ltb current.can_view_value (view_index_by_name (required_user_view to_set))
      then false
      else if is_solution_with_grant to_set && not manager.is_owner_generated
      then false
      else manager.can_grant_view_generated_value
        == grant_view_index_by_name CanGrantView.solution_with_grant

  unfoldable pub check_can_watch : CanWatch → Bool
  unfolding view_index_by_name watch_index_by_name
  check_can_watch to_set =
      if leb (watch_index_by_name to_set) current.can_watch_value
      then true
      else if ltb current.can_view_value (view_index_by_name CanView.content)
      then false
      else if is_answer_with_grant to_set && not manager.is_owner_generated
      then false
      else manager.can_watch_generated_value == watch_index_by_name CanWatch.answer_with_grant

  unfoldable pub check_can_edit : CanEdit → Bool
  unfolding view_index_by_name edit_index_by_name
  check_can_edit to_set =
      if leb (edit_index_by_name to_set) current.can_edit_value
      then true
      else if ltb current.can_view_value (view_index_by_name CanView.content)
      then false
      else if is_all_with_grant to_set && not manager.is_owner_generated
      then false
      else manager.can_edit_generated_value == edit_index_by_name CanEdit.all_with_grant

  unfoldable pub check_can_make_session_official : Bool → Bool
  unfolding view_index_by_name
  check_can_make_session_official false = true
  check_can_make_session_official true =
      if current.can_make_session_official
      then true
      else if ltb current.can_view_value (view_index_by_name CanView.info)
      then false
      else manager.is_owner_generated

  -- `!currentPermissions.CanEnterFrom.After(to_set)`, or the manager may grant "enter".
  unfoldable pub check_can_enter_from : ℕ → Bool
  unfolding grant_view_index_by_name
  check_can_enter_from to_set =
      if not (ltb to_set current.can_enter_from)
      then true
      else leb (grant_view_index_by_name CanGrantView.enter) manager.can_grant_view_generated_value

  unfoldable pub check_can_enter_until : ℕ → Bool
  unfolding grant_view_index_by_name
  check_can_enter_until to_set =
      if not (ltb current.can_enter_until to_set)
      then true
      else leb (grant_view_index_by_name CanGrantView.enter) manager.can_grant_view_generated_value
