-- ===== src/Threads/Transitions.antt =====
-- Who changes a thread, and how its status and its message count change
-- (app/api/threads/update_thread.go).
use algorea_backend.Shared.{
  ℕ, ◌≡◌, inl, inr, refl, sym, ap, ◌∙◌, Bool, true, false, ◌&&◌, ◌||◌, Option, none, some, get_or,
  arith,
}
use algorea_backend.Threads.Status.{
  ThreadStatus, is_thread_open_status, status_eq, ThreadInfo, user_can_watch_for_thread,
  user_can_write_in_thread, user_can_change_thread_status,
}
use algorea_backend.Threads.Input.{UpdateThreadRequest}
use algorea_backend.Threads.Update.{
  Thread, UserRights, thread_info, check_update_thread_permissions, update_thread, old_status,
}
use algorea_backend.Threads.Saving.{update_thread-Settles}
use algorea_backend.Threads.Guarantees.{stored_lem}

-- Does the request give the status that the thread has?
abbrev pub repeats : ThreadStatus → Option ThreadStatus → Bool
repeats old none = false
repeats old (some new) = status_eq old new

abbrev pub is_open_row : Option Thread → Bool
is_open_row none = false
is_open_row (some t) = is_thread_open_status t.status

status_eq_lem : (s t : ThreadStatus) → status_eq s t ≡ true → s ≡ t
unfolding status_eq
status_eq_lem s t e = ground arith

pub open_row_lem :
    (rights : UserRights) (row : Option Thread)
    → is_open_row row ≡ is_thread_open_status (thread_info rights row).thread_status
unfolding thread_info is_thread_open_status
open_row_lem rights none = refl
open_row_lem rights (some t) = refl

open_status_lem :
    (rights : UserRights) (row : Option Thread)
    → is_open_row row ≡ true
    → old_status row ≡ (thread_info rights row).thread_status
unfolding thread_info
open_status_lem rights none was_open = ground arith
open_status_lem rights (some t) was_open = refl

pub can_change_lem :
    (own : Bool) (old new : ThreadStatus) (info : ThreadInfo)
    → user_can_change_thread_status own old new info ≡ true
    → ((status_eq old new || (own || is_thread_open_status new)) ≡ true)
      × ((status_eq old new
            || (own
                || (user_can_watch_for_thread info
                    || (is_thread_open_status old && user_can_write_in_thread own info))))
          ≡ true)
unfolding user_can_change_thread_status
can_change_lem own old new info can = ground arith

pub same_open :
    (old new : ThreadStatus)
    → status_eq old new ≡ true
    → is_thread_open_status old ≡ is_thread_open_status new
same_open old new e = ap is_thread_open_status (status_eq_lem old new e)

kept_open :
    (info : ThreadInfo) (o : Option ThreadStatus) (input : UpdateThreadRequest)
    → input.status ≡ o
    → is_thread_open_status info.thread_status ≡ true
    → check_update_thread_permissions false input info ≡ none
    → is_thread_open_status (get_or o (info.thread_status)) ≡ true
unfolding check_update_thread_permissions
kept_open info none input e was_open permitted = was_open
kept_open info (some new) input e was_open permitted =
    ground
      (arith, can_change_lem false info.thread_status new info, same_open info.thread_status new)

outsider_lem :
    (info : ThreadInfo) (o : Option ThreadStatus) (input : UpdateThreadRequest)
    → input.status ≡ o
    → user_can_watch_for_thread info ≡ false
    → user_can_write_in_thread false info ≡ false
    → check_update_thread_permissions false input info ≡ none
    → repeats info.thread_status o ≡ true
unfolding check_update_thread_permissions
outsider_lem info none input e watch write permitted = ground arith
outsider_lem info (some new) input e watch write permitted =
    ground (arith, can_change_lem false info.thread_status new info)

module _ (visible_to_user visible_to_participant can_request_help_to is_group : ℕ → Bool)
    (rights : UserRights) (input : UpdateThreadRequest) (row : Option Thread) where
  -- A user who is not the participant never closes a thread: an open thread stays open.
  pub update_thread-closing :
      is_open_row row ≡ true
      → is_open_row
          (update_thread visible_to_user visible_to_participant can_request_help_to is_group false
            rights input row).row
        ≡ true
  update_thread-closing was_open =
      elim (update_thread-Settles visible_to_user visible_to_participant can_request_help_to
        is_group false rights input row) [
          | inl kept ↦ rw kept was_open
          | inr (t, e, (v, c, s)) ↦
              let (status_is, helper_is, count_is, group, fits) = stored_lem _ _ _ _ _ t s in
              rw (e, status_is, open_status_lem rights row was_open)
                (kept_open (thread_info rights row) input.status input refl
                  (sym (open_row_lem rights row) ∙ was_open) c)
        ]

  -- A user who is not the participant, may not watch the participant's answers and may not write in
  -- the thread leaves it as it is, unless the request repeats the status that the thread has.
  pub update_thread-outsider :
      user_can_watch_for_thread (thread_info rights row) ≡ false
      → user_can_write_in_thread false (thread_info rights row) ≡ false
      → repeats (thread_info rights row).thread_status input.status ≡ false
      → (update_thread visible_to_user visible_to_participant can_request_help_to is_group false
          rights input row).row
        ≡ row
  update_thread-outsider watch write changes =
      elim (update_thread-Settles visible_to_user visible_to_participant can_request_help_to
        is_group false rights input row) [
          | inl kept ↦ kept
          | inr (t, e, (v, c, s)) ↦ absurd (
              ground (
                arith,
                outsider_lem (thread_info rights row) input.status input refl watch write c,
              ))
        ]
