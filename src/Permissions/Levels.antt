-- ===== src/Permissions/Levels.antt =====
-- The enum columns of permissions_granted and their indexes
-- (app/database/permission_granted_store.go). The values are those of the schema, numbered from 1 in
-- its order, as app/database/db_enums.go loads them.
use Prim.Native.Nat.{ℕ}
use mathlib.Core.Option.{Option}
use algorea_backend.Shared.{◌==◌, if◌then◌else◌}

pub data CanView : Type 0 where
  none info content content_with_descendants solution : CanView

pub data CanGrantView : Type 0 where
  none enter content content_with_descendants solution solution_with_grant : CanGrantView

pub data CanWatch : Type 0 where
  none result answer answer_with_grant : CanWatch

pub data CanEdit : Type 0 where
  none children all all_with_grant : CanEdit

-- `ViewIndexByName`.
unfoldable pub view_index_by_name : CanView → ℕ
view_index_by_name CanView.none = 1
view_index_by_name CanView.info = 2
view_index_by_name CanView.content = 3
view_index_by_name CanView.content_with_descendants = 4
view_index_by_name CanView.solution = 5

-- `GrantViewIndexByName`.
unfoldable pub grant_view_index_by_name : CanGrantView → ℕ
grant_view_index_by_name CanGrantView.none = 1
grant_view_index_by_name CanGrantView.enter = 2
grant_view_index_by_name CanGrantView.content = 3
grant_view_index_by_name CanGrantView.content_with_descendants = 4
grant_view_index_by_name CanGrantView.solution = 5
grant_view_index_by_name CanGrantView.solution_with_grant = 6

-- `WatchIndexByName`.
unfoldable pub watch_index_by_name : CanWatch → ℕ
watch_index_by_name CanWatch.none = 1
watch_index_by_name CanWatch.result = 2
watch_index_by_name CanWatch.answer = 3
watch_index_by_name CanWatch.answer_with_grant = 4

-- `EditIndexByName`.
unfoldable pub edit_index_by_name : CanEdit → ℕ
edit_index_by_name CanEdit.none = 1
edit_index_by_name CanEdit.children = 2
edit_index_by_name CanEdit.all = 3
edit_index_by_name CanEdit.all_with_grant = 4

-- `GrantViewNameByIndex`; `none` is the panic at an index that the enum does not have.
unfoldable pub grant_view_name_by_index : ℕ → Option CanGrantView
grant_view_name_by_index i =
    if i == 1
    then Option.some CanGrantView.none
    else if i == 2
    then Option.some CanGrantView.enter
    else if i == 3
    then Option.some CanGrantView.content
    else if i == 4
    then Option.some CanGrantView.content_with_descendants
    else if i == 5
    then Option.some CanGrantView.solution
    else if i == 6
    then Option.some CanGrantView.solution_with_grant
    else Option.none

-- The value of can_grant_view that has the name of a value of can_view, "enter" for "info".
unfoldable pub required_grant_view : CanView → CanGrantView
required_grant_view CanView.none = CanGrantView.none
required_grant_view CanView.info = CanGrantView.enter
required_grant_view CanView.content = CanGrantView.content
required_grant_view CanView.content_with_descendants = CanGrantView.content_with_descendants
required_grant_view CanView.solution = CanGrantView.solution

-- The value of can_view that has the name of a value of can_grant_view, "info" for "enter" and
-- "solution" for "solution_with_grant".
unfoldable pub required_user_view : CanGrantView → CanView
required_user_view CanGrantView.none = CanView.none
required_user_view CanGrantView.enter = CanView.info
required_user_view CanGrantView.content = CanView.content
required_user_view CanGrantView.content_with_descendants = CanView.content_with_descendants
required_user_view CanGrantView.solution = CanView.solution
required_user_view CanGrantView.solution_with_grant = CanView.solution
