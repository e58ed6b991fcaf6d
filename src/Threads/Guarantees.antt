-- ===== src/Threads/Guarantees.antt =====
-- What `updateThread` guarantees (app/api/threads/update_thread.go).
use algorea_backend.Shared.{
  ℕ, ◌≡◌, inl, inr, Bool, true, ◌&&◌, Option, none, some, get_or, arith, Option-cases,
}
use algorea_backend.Threads.Status.{ThreadStatus, Integer, new_message_count_with_increment}
use algorea_backend.Threads.Input.{
  UpdateThreadRequest, pointer, is_one_of, is_natural, is_valid, is_status_valid,
  is_helper_group_valid, is_message_count_valid,
}
use algorea_backend.Threads.Update.{
  Thread, UserRights, thread_info, compute_new_thread_data, insert_or_update_thread, update_thread,
  old_status, old_count, new_count, count_data, fits_column,
}
use algorea_backend.Threads.Saving.{update_thread-Settles}

-- What the stored row has for its columns.
pub stored_lem :
    (is_group : ℕ → Bool) (count : Integer) (helper : ℕ) (input : UpdateThreadRequest)
    (row : Option Thread) (t : Thread)
    → insert_or_update_thread is_group (compute_new_thread_data count helper input) row ≡ some t
    → (t.status ≡ get_or (input.status) (old_status row))
      × (t.helper_group_id ≡ get_or (pointer input.helper_group_id) helper)
      × (new_count row
            (count_data count input.message_count (pointer input.message_count_increment))
          ≡ some t.message_count)
      × (is_group t.helper_group_id ≡ true)
      × (fits_column t.message_count ≡ true)
unfolding insert_or_update_thread compute_new_thread_data
stored_lem is_group count helper input row t stored = ground arith

-- A sum that is no natural number is replaced by 0.
is_natural-new_message_count :
    (old increment : Integer) → is_natural (new_message_count_with_increment old increment) ≡ true
unfolding new_message_count_with_increment
is_natural-new_message_count old increment = ground arith

-- A thread as the table holds it: it has started, its helper group is a group, and its count is a
-- natural number that the column can hold.
unfoldable pub is_sound : (ℕ → Bool) → Option Thread → Bool
is_sound is_group none = true
is_sound is_group (some t) =
    is_one_of t.status
    && (is_group t.helper_group_id && (is_natural t.message_count && fits_column t.message_count))

natural_lem :
    (old : Integer) (row : Option Thread) (input : UpdateThreadRequest) (new : Integer)
    → is_natural (old_count row) ≡ true
    → is_message_count_valid input ≡ true
    → new_count row (count_data old input.message_count (pointer input.message_count_increment))
      ≡ some new
    → is_natural new ≡ true
unfolding is_message_count_valid
natural_lem old row input new natural valid count =
    elim (Option-cases (pointer input.message_count_increment)) [
      | inl e ↦ ground arith
      | inr (increment, e) ↦ ground (arith, is_natural-new_message_count old increment)
    ]

status_valid_lem :
    (old : ThreadStatus) (row : Option Thread) (input : UpdateThreadRequest)
    → is_status_valid old input ≡ true
    → is_one_of (old_status row) ≡ true
    → is_one_of (get_or (input.status) (old_status row)) ≡ true
unfolding is_status_valid
status_valid_lem old row input valid old_valid = ground arith

module _ (visible_to_user visible_to_participant can_request_help_to is_group : ℕ → Bool)
    (own : Bool) (rights : UserRights) (input : UpdateThreadRequest) (row : Option Thread) where
  sound_parts :
      is_sound is_group row ≡ true
      → (is_one_of (old_status row) ≡ true) × (is_natural (old_count row) ≡ true)
  unfolding is_sound
  sound_parts sound = ground arith

  sound_row :
      (t : Thread)
      → is_one_of t.status ≡ true
      → is_group t.helper_group_id ≡ true
      → is_natural t.message_count ≡ true
      → fits_column t.message_count ≡ true
      → is_sound is_group (some t) ≡ true
  unfolding is_sound
  sound_row t a b c d = ground arith

  pub valid_parts :
      is_valid visible_to_user visible_to_participant can_request_help_to own
          (thread_info rights row).thread_status
          input
        ≡ true
      → (is_status_valid (thread_info rights row).thread_status input ≡ true)
        × (is_helper_group_valid visible_to_user visible_to_participant can_request_help_to own
              (thread_info rights row).thread_status
              input
            ≡ true)
        × (is_message_count_valid input ≡ true)
  unfolding is_valid
  valid_parts valid = ground arith

  -- Every request leaves a thread that has started, whose helper group is a group, and whose message
  -- count is not negative and within the column, if the thread was so before; a thread that does not
  -- exist counts as such.
  pub update_thread-is_sound :
      is_sound is_group row ≡ true
      → is_sound is_group
          (update_thread visible_to_user visible_to_participant can_request_help_to is_group own
            rights input row).row
        ≡ true
  update_thread-is_sound sound =
      elim (update_thread-Settles visible_to_user visible_to_participant can_request_help_to
        is_group own rights input row) [
          | inl kept ↦ rw kept sound
          | inr (t, e, (v, c, s)) ↦
              let (started, natural) = sound_parts sound in
              let (status, helper, count) = valid_parts v in
              let (status_is, helper_is, count_is, group, fits) = stored_lem _ _ _ _ _ t s in
              rw e (
                sound_row t (rw status_is (status_valid_lem _ row input status started)) group
                  (natural_lem _ row input t.message_count natural count count_is) fits)
        ]
