-- ===== src/Threads/Examples.antt =====
-- An open thread, its participant and a stranger: tests of the definitions and instances of the
-- theorems.
use algorea_backend.Shared.{
  ℕ, ◌≡◌, ◌⊎◌, refl, Bool, true, false, ◌&&◌, ◌||◌, Option, none, some, ltb, arith,
}
use algorea_backend.Threads.Status.{
  ThreadStatus, is_thread_open_status, status_eq, pos, negsuc, user_can_watch_for_thread,
  user_can_write_in_thread, user_can_change_thread_status, new_message_count_with_increment,
}
use algorea_backend.Threads.Input.{
  UpdateThreadRequest, is_valid, is_status_valid, is_helper_group_valid, is_message_count_valid,
  helper_group_id_set_if_non_open_to_open_status, helper_group_id_not_set_when_set_or_keep_closed,
  exclude_increment_if_message_count_set, can_request_help_to_when_own_thread,
}
use algorea_backend.Threads.Update.{
  Thread, UserRights, thread_info, Response, check_update_thread_permissions,
  compute_new_thread_data, insert_or_update_thread, Reply, update_in_transaction, update_thread,
}
use algorea_backend.Threads.Guarantees.{is_sound, update_thread-is_sound}
use algorea_backend.Threads.Transitions.{is_open_row, update_thread-closing, update_thread-outsider}
use algorea_backend.Threads.Opening.{update_thread-opening}
use algorea_backend.Threads.Counts.{
  plus, update_thread-increment, update_thread-repeated_status, update_thread-closing_nothing,
}

abbrev is_group : ℕ → Bool
is_group id = ltb 0 id

abbrev stranger : UserRights
stranger = record {
  can_view_content = true;
  can_watch_for_participant = false;
  can_watch_answer = false;
  can_watch_result = false;
  is_descendant_of = λ id. false;
  has_validated_result = false;
}

abbrev waiting : Thread
waiting = record {
  status = ThreadStatus.waiting_for_trainer;
  helper_group_id = 7;
  message_count = pos 2;
}

abbrev nothing : UpdateThreadRequest
nothing = record {
  status = none;
  helper_group_id = none;
  message_count = none;
  message_count_increment = none;
}

abbrev closing : UpdateThreadRequest
closing = record nothing { status = some ThreadStatus.closed }

abbrev removing_three : UpdateThreadRequest
removing_three = record nothing { message_count_increment = some (some (negsuc 2)) }

abbrev opening : UpdateThreadRequest
opening = record nothing {
  status = some ThreadStatus.waiting_for_trainer;
  helper_group_id = some (some 7);
}

abbrev run : Bool → UpdateThreadRequest → Option Thread → Reply
run own input row = update_thread is_group is_group is_group is_group own stranger input row

valid_waiting : is_sound is_group (some waiting) ≡ true
unfolding is_sound
valid_waiting = refl

-- What a run unfolds.
run_all : Bool → UpdateThreadRequest → Option Thread → Reply
unfolding update_thread update_in_transaction thread_info is_valid is_status_valid
    helper_group_id_set_if_non_open_to_open_status helper_group_id_not_set_when_set_or_keep_closed
    is_helper_group_valid is_message_count_valid exclude_increment_if_message_count_set
    can_request_help_to_when_own_thread check_update_thread_permissions
    user_can_change_thread_status user_can_write_in_thread user_can_watch_for_thread status_eq
    is_thread_open_status compute_new_thread_data insert_or_update_thread
    new_message_count_with_increment is_sound
run_all own input row = run own input row

participant_closes :
    (run true closing (some waiting)).row ≡ some (record waiting { status = ThreadStatus.closed })
unfolding run_all
participant_closes = refl

stranger_does_not :
    run false closing (some waiting) ≡ record { response = Response.forbidden; row = some waiting }
unfolding run_all
stranger_does_not = refl

count_stops_at_zero :
    (run true removing_three (some waiting)).row ≡ some (record waiting { message_count = pos 0 })
unfolding run_all
count_stops_at_zero = refl

update_thread-is_sound_example :
    is_sound is_group (run true removing_three (some waiting)).row ≡ true
update_thread-is_sound_example =
    update_thread-is_sound is_group is_group is_group is_group true stranger removing_three
      (some waiting) valid_waiting

update_thread-closing_example : is_open_row (run false closing (some waiting)).row ≡ true
unfolding run_all
update_thread-closing_example =
    update_thread-closing is_group is_group is_group is_group stranger closing (some waiting) refl

update_thread-outsider_example : (run false closing (some waiting)).row ≡ some waiting
unfolding run_all
update_thread-outsider_example =
    update_thread-outsider is_group is_group is_group is_group stranger closing (some waiting) refl
      refl refl

update_thread-opening_example :
    (is_open_row (run true opening none).row ≡ false)
    ⊎ ((t : Thread) × ((run true opening none).row ≡ some t)
        × (opening.helper_group_id ≡ some (some t.helper_group_id))
        × ((is_group t.helper_group_id && is_group t.helper_group_id) ≡ true)
        × (can_request_help_to_when_own_thread is_group is_group is_group true t.helper_group_id
            ≡ true)
        × ((true || user_can_watch_for_thread (thread_info stranger none)) ≡ true))
update_thread-opening_example =
    update_thread-opening is_group is_group is_group is_group true stranger opening none refl

update_thread-increment_example :
    ((run true removing_three (some waiting)).row ≡ some waiting)
    ⊎ ((new : Thread) × ((run true removing_three (some waiting)).row ≡ some new)
        × (new.message_count ≡ pos (plus 2 (negsuc 2))))
unfolding plus
update_thread-increment_example =
    update_thread-increment is_group is_group is_group is_group true stranger removing_three waiting
      2 (negsuc 2) refl refl (omega arith)

update_thread-repeated_status_example :
    (run false
      (record nothing {
        status = some ThreadStatus.waiting_for_trainer;
        message_count = some (some (pos 9));
      })
      (some waiting))
    ≡ record { response = Response.updated; row = some (record waiting { message_count = pos 9 }) }
update_thread-repeated_status_example =
    update_thread-repeated_status is_group is_group is_group is_group false stranger waiting 9 refl
      refl refl refl

update_thread-closing_nothing_example :
    run true closing none ≡ record { response = Response.server_error; row = none }
update_thread-closing_nothing_example =
    update_thread-closing_nothing is_group is_group is_group is_group true stranger refl refl refl
