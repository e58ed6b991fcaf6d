-- ===== src/Threads/Update.antt =====
-- `updateThread` with `constructThreadInfoQuery`, `checkUpdateThreadPermissions` and
-- `computeNewThreadData` (app/api/threads/update_thread.go, app/api/threads/threads.go).
use algorea_backend.Shared.{
  ℕ, Bool, false, ◌&&◌, not, Option, none, some, is_some, get_or, leb, if◌then◌else◌,
}
use algorea_backend.Threads.Status.{
  ThreadStatus, Integer, pos, negsuc, ThreadInfo, user_can_write_in_thread,
  user_can_change_thread_status, new_message_count_with_increment,
}
use algorea_backend.Threads.Input.{UpdateThreadRequest, pointer, is_valid}

-- A row of the table threads, for one item and one participant.
pub record Thread : Type 0 where
  pub status : ThreadStatus
  pub helper_group_id : ℕ
  pub message_count : Integer

-- What the queries on groups, permissions and results answer for the user.
pub record UserRights : Type 0 where
  pub can_view_content : Bool
  pub can_watch_for_participant : Bool
  pub can_watch_answer : Bool
  pub can_watch_result : Bool
  pub is_descendant_of : ℕ → Bool
  pub has_validated_result : Bool

-- `constructThreadInfoQuery`: a NULL of the outer join is read as the zero value.
unfoldable pub thread_info : UserRights → Option Thread → ThreadInfo
thread_info rights none = record {
  thread_status = ThreadStatus.not_started;
  thread_helper_group_id = 0;
  thread_message_count = pos 0;
  user_can_watch_for_participant = rights.can_watch_for_participant;
  user_can_watch_answer = rights.can_watch_answer;
  user_can_watch_result = rights.can_watch_result;
  user_is_descendant_of_helper_group = false;
  user_has_validated_result_on_item = false;
}
thread_info rights (some t) = record {
  thread_status = t.status;
  thread_helper_group_id = t.helper_group_id;
  thread_message_count = t.message_count;
  user_can_watch_for_participant = rights.can_watch_for_participant;
  user_can_watch_answer = rights.can_watch_answer;
  user_can_watch_result = rights.can_watch_result;
  user_is_descendant_of_helper_group = rights.is_descendant_of t.helper_group_id;
  user_has_validated_result_on_item = rights.has_validated_result;
}

pub data Response : Type 0 where
  updated bad_request forbidden server_error : Response

-- `checkUpdateThreadPermissions`: `none` is no error.
unfoldable pub check_update_thread_permissions :
    Bool → UpdateThreadRequest → ThreadInfo → Option Response
check_update_thread_permissions own input info = elim input.status [
  | none ↦
      if not (is_some (pointer input.helper_group_id))
        && (not (is_some (pointer input.message_count))
            && not (is_some (pointer input.message_count_increment)))
      then some Response.bad_request
      else if not (user_can_write_in_thread own info)
      then some Response.forbidden
      else none
  | some new ↦
      if not (user_can_change_thread_status own info.thread_status new info)
      then some Response.forbidden
      else none
]

-- The columns of `threadData`: a column that is not set is `none`, NULL is `some none`.
pub record ThreadData : Type 0 where
  pub status : Option ThreadStatus
  pub helper_group_id : Option ℕ
  pub message_count : Option (Option Integer)

abbrev pub count_data : Integer → Option (Option Integer) → Option Integer → Option (Option Integer)
count_data old count none = count
count_data old count (some increment) = some (some (new_message_count_with_increment old increment))

abbrev pub is_empty_data : ThreadData → Bool
is_empty_data d =
    not (is_some d.status) && (not (is_some d.helper_group_id) && not (is_some d.message_count))

-- `computeNewThreadData`. The pointer to a helper group is not nil where the map has one, since the
-- validator refuses null.
unfoldable pub compute_new_thread_data : Integer → ℕ → UpdateThreadRequest → ThreadData
compute_new_thread_data old_message_count old_helper_group_id input =
    let d : ThreadData = record {
      status = input.status;
      helper_group_id = pointer input.helper_group_id;
      message_count =
          count_data old_message_count input.message_count (pointer input.message_count_increment);
    } in
    if is_empty_data d
    then d
    else record d { helper_group_id = some (get_or (d.helper_group_id) old_helper_group_id) }

-- A value of the column message_count, an INT.
abbrev pub fits_column : Integer → Bool
fits_column (pos n) = leb n 2147483647
fits_column (negsuc n) = leb n 2147483647

abbrev pub old_status : Option Thread → ThreadStatus
old_status none = ThreadStatus.waiting_for_participant
old_status (some t) = t.status

abbrev pub old_count : Option Thread → Integer
old_count none = pos 0
old_count (some t) = t.message_count

abbrev pub new_count : Option Thread → Option (Option Integer) → Option Integer
new_count row none = some (old_count row)
new_count row (some count) = count

-- `InsertOrUpdateMap(threadData, nil)`: an unset column keeps its value, or has its default in a new
-- row. It fails on a helper group that is no group and on a count that the column cannot hold.
module _ (is_group : ℕ → Bool) where
  abbrev pub store_thread : ThreadStatus → ℕ → Option Integer → Option Thread
  store_thread status helper none = none
  store_thread status helper (some count) =
      if is_group helper && fits_column count
      then some (record { status = status; helper_group_id = helper; message_count = count })
      else none

  unfoldable pub insert_or_update_thread : ThreadData → Option Thread → Option Thread
  insert_or_update_thread d row = elim d.helper_group_id [
    | none ↦ none
    | some helper ↦
        store_thread (get_or (d.status) (old_status row)) helper (new_count row d.message_count)
  ]

pub record Reply : Type 0 where
  pub response : Response
  pub row : Option Thread

module _ (visible_to_user visible_to_participant can_request_help_to is_group : ℕ → Bool)
    (own : Bool) where
  abbrev pub save_thread : Option Thread → Option Thread → Reply
  save_thread row none = record { response = Response.server_error; row = row }
  save_thread row (some t) = record { response = Response.updated; row = some t }

  -- The transaction of `updateThread`.
  unfoldable pub update_in_transaction : ThreadInfo → UpdateThreadRequest → Option Thread → Reply
  update_in_transaction info input row =
      if not (
        is_valid visible_to_user visible_to_participant can_request_help_to own info.thread_status
          input)
      then record { response = Response.bad_request; row = row }
      else elim (check_update_thread_permissions own input info) [
        | some response ↦ record { response = response; row = row }
        | none ↦ save_thread row (
            insert_or_update_thread is_group
              (compute_new_thread_data info.thread_message_count info.thread_helper_group_id input)
              row)
      ]

  -- `updateThread`.
  unfoldable pub update_thread : UserRights → UpdateThreadRequest → Option Thread → Reply
  update_thread rights input row =
      if not rights.can_view_content
      then record { response = Response.forbidden; row = row }
      else update_in_transaction (thread_info rights row) input row
