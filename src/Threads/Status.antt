-- ===== src/Threads/Status.antt =====
-- The status of a thread (app/database/thread.go), and who may write in it or change its status
-- (app/api/threads/threads.go, app/api/threads/update_thread.go).
use algorea_backend.Shared.{
  ℕ, Bool, true, false, ◌&&◌, ◌||◌, suc, ◌+◌, ◌-◌, leb, ltb, if◌then◌else◌,
}

-- "not_started" is the status of a thread that does not exist.
pub data ThreadStatus : Type 0 where
  not_started waiting_for_participant waiting_for_trainer closed : ThreadStatus

-- `IsThreadOpenStatus`.
unfoldable pub is_thread_open_status : ThreadStatus → Bool
is_thread_open_status ThreadStatus.waiting_for_trainer = true
is_thread_open_status ThreadStatus.waiting_for_participant = true
is_thread_open_status _ = false

-- Go's comparison of two statuses.
unfoldable pub status_eq : ThreadStatus → ThreadStatus → Bool
status_eq ThreadStatus.not_started ThreadStatus.not_started = true
status_eq ThreadStatus.waiting_for_participant ThreadStatus.waiting_for_participant = true
status_eq ThreadStatus.waiting_for_trainer ThreadStatus.waiting_for_trainer = true
status_eq ThreadStatus.closed ThreadStatus.closed = true
status_eq _ _ = false

-- Go's int: `pos n` is n and `negsuc n` is -n - 1, between -2^63 and 2^63 - 1.
pub data Integer : Type 0 where
  pos : ℕ → Integer
  negsuc : ℕ → Integer

-- `threadInfo`, the answer of `constructThreadInfoQuery`.
pub record ThreadInfo : Type 0 where
  pub thread_status : ThreadStatus
  pub thread_helper_group_id : ℕ
  pub thread_message_count : Integer
  pub user_can_watch_for_participant : Bool
  pub user_can_watch_answer : Bool
  pub user_can_watch_result : Bool
  pub user_is_descendant_of_helper_group : Bool
  pub user_has_validated_result_on_item : Bool

-- `userCanWatchForThread`.
unfoldable pub user_can_watch_for_thread : ThreadInfo → Bool
user_can_watch_for_thread info = info.user_can_watch_answer && info.user_can_watch_for_participant

-- `userCanWriteInThread`; `own` says that the user is the participant.
unfoldable pub user_can_write_in_thread : Bool → ThreadInfo → Bool
user_can_write_in_thread own info =
    is_thread_open_status info.thread_status
    && ((own || (info.user_can_watch_answer && info.user_can_watch_for_participant))
        || (info.user_is_descendant_of_helper_group
            && (info.user_can_watch_answer
                || (info.user_can_watch_result && info.user_has_validated_result_on_item))))

-- `userCanChangeThreadStatus`.
unfoldable pub user_can_change_thread_status :
    Bool → ThreadStatus → ThreadStatus → ThreadInfo → Bool
user_can_change_thread_status own old new info =
    if status_eq old new
    then true
    else if own
    then true
    else if is_thread_open_status new
    then (if user_can_watch_for_thread info
        then true
        else if is_thread_open_status old
        then user_can_write_in_thread own info
        else false)
    else false

-- `newMessageCountWithIncrement`: a sum over 2^63 - 1 wraps to a negative number and one under -2^63
-- to a positive one.
unfoldable pub new_message_count_with_increment : Integer → Integer → Integer
new_message_count_with_increment (pos a) (pos b) =
    if leb 9223372036854775808 (a + b) then pos 0 else pos (a + b)
new_message_count_with_increment (pos a) (negsuc k) =
    if leb (suc k) a then pos (a - suc k) else pos 0
new_message_count_with_increment (negsuc k) (pos b) =
    if leb (suc k) b then pos (b - suc k) else pos 0
new_message_count_with_increment (negsuc k) (negsuc j) =
    if ltb 9223372036854775808 (suc (suc (k + j)))
    then pos (18446744073709551616 - suc (suc (k + j)))
    else pos 0
