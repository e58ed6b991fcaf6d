-- ===== src/Threads/Counts.antt =====
-- The message count of a thread, and requests that repeat its status or close a thread that does not
-- exist (app/api/threads/update_thread.go).
use algorea_backend.Shared.{
  ℕ, ◌≡◌, ◌⊎◌, ◌<◌, ◌+◌, ◌-◌, suc, inl, inr, sym, ap, ◌∙◌, Bool, true, false, none, some, leb,
  arith,
}
use algorea_backend.Threads.Status.{
  ThreadStatus, is_thread_open_status, status_eq, Integer, pos, negsuc,
  user_can_change_thread_status, new_message_count_with_increment,
}
use algorea_backend.Threads.Input.{
  UpdateThreadRequest, pointer, is_one_of, is_valid, is_status_valid, is_helper_group_valid,
  is_message_count_valid, helper_group_id_set_if_non_open_to_open_status,
  exclude_increment_if_message_count_set,
}
use algorea_backend.Threads.Update.{
  Thread, UserRights, thread_info, Response, check_update_thread_permissions,
  compute_new_thread_data, insert_or_update_thread, update_in_transaction, update_thread, new_count,
  count_data,
}
use algorea_backend.Threads.Saving.{update_thread-Settles}
use algorea_backend.Threads.Guarantees.{stored_lem}

-- The sum with an integer, 0 where it is negative.
unfoldable pub plus : ℕ → Integer → ℕ
plus a (pos b) = a + b
plus a (negsuc k) = a - suc k

increment_lem :
    (a : ℕ) (increment : Integer)
    → plus a increment < 9223372036854775808
    → new_message_count_with_increment (pos a) increment ≡ pos (plus a increment)
unfolding new_message_count_with_increment plus
increment_lem a increment bound = ground arith

pos_lem : (m n : Integer) → some m ≡ some n → m ≡ n
pos_lem m n e = cc

module _ (visible_to_user visible_to_participant can_request_help_to is_group : ℕ → Bool)
    (own : Bool) (rights : UserRights) where
  -- A request with an increment that is carried out leaves the sum of the old count and the increment,
  -- 0 where that is negative. The old count is not negative and the sum fits an int64.
  pub update_thread-increment :
      (input : UpdateThreadRequest) (t : Thread) (a : ℕ) (increment : Integer)
      → t.message_count ≡ pos a
      → input.message_count_increment ≡ some (some increment)
      → plus a increment < 9223372036854775808
      → ((update_thread visible_to_user visible_to_participant can_request_help_to is_group own
            rights input
            (some t)).row
          ≡ some t)
        ⊎ ((new : Thread) × ((update_thread visible_to_user visible_to_participant
                can_request_help_to is_group own rights input
                (some t)).row
              ≡ some new)
            × (new.message_count ≡ pos (plus a increment)))
  unfolding thread_info
  update_thread-increment input t a increment old given bound =
      elim (update_thread-Settles visible_to_user visible_to_participant can_request_help_to
        is_group own rights input (some t)) [
          | inl kept ↦ inl kept
          | inr (new, e, (v, c, s)) ↦
              let (status_is, helper_is, count_is, group, fits) = stored_lem _ _ _ _ _ new s in
              inr (
                new,
                ap (λ r. r.row) e,
                sym (
                      pos_lem _ _ (
                        sym (
                          ap
                            (λ o.
                              new_count (some t)
                                (count_data t.message_count input.message_count (pointer o)))
                            given)
                        ∙ count_is))
                    ∙ (ap (λ m. new_message_count_with_increment m increment) old
                        ∙ increment_lem a increment bound),
              )
        ]

  -- A user who sees the item's content and repeats the status of a thread sets its message count to
  -- any number that the column can hold, whatever the user's other rights are. The thread's helper
  -- group is a group.
  pub update_thread-repeated_status :
      (t : Thread) (n : ℕ)
      → rights.can_view_content ≡ true
      → is_one_of t.status ≡ true
      → is_group t.helper_group_id ≡ true
      → leb n 2147483647 ≡ true
      → update_thread visible_to_user visible_to_participant can_request_help_to is_group own rights
          (record {
            status = some t.status;
            helper_group_id = none;
            message_count = some (some (pos n));
            message_count_increment = none;
          })
          (some t)
        ≡ record { response = Response.updated; row = some (record t { message_count = pos n }) }
  unfolding update_thread update_in_transaction thread_info is_valid is_status_valid
      helper_group_id_set_if_non_open_to_open_status is_helper_group_valid is_message_count_valid
      exclude_increment_if_message_count_set check_update_thread_permissions
      user_can_change_thread_status status_eq compute_new_thread_data insert_or_update_thread
  update_thread-repeated_status t n can_view one_of group fits = ground arith

  -- A participant who closes a thread that does not exist passes every check, and the statement
  -- then fails: the helper group is 0, which is no group.
  pub update_thread-closing_nothing :
      rights.can_view_content ≡ true
      → own ≡ true
      → is_group 0 ≡ false
      → update_thread visible_to_user visible_to_participant can_request_help_to is_group own rights
          (record {
            status = some ThreadStatus.closed;
            helper_group_id = none;
            message_count = none;
            message_count_increment = none;
          })
          none
        ≡ record { response = Response.server_error; row = none }
  unfolding is_thread_open_status update_thread update_in_transaction thread_info is_valid
      is_status_valid helper_group_id_set_if_non_open_to_open_status is_helper_group_valid
      is_message_count_valid exclude_increment_if_message_count_set check_update_thread_permissions
      user_can_change_thread_status status_eq compute_new_thread_data insert_or_update_thread
  update_thread-closing_nothing can_view participant no_group = ground arith
