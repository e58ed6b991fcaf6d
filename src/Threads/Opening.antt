-- ===== src/Threads/Opening.antt =====
-- How a thread is opened (app/api/threads/update_thread.go).
use algorea_backend.Shared.{
  ℕ, ◌≡◌, ◌⊎◌, inl, inr, refl, sym, ap, ◌∙◌, Bool, true, false, ◌&&◌, ◌||◌, Option, none, some,
  get_or, arith, Bool-cases,
}
use algorea_backend.Threads.Status.{
  ThreadStatus, is_thread_open_status, ThreadInfo, user_can_watch_for_thread,
  user_can_write_in_thread,
}
use algorea_backend.Threads.Input.{
  UpdateThreadRequest, pointer, opens, is_status_valid, is_helper_group_valid,
  helper_group_id_set_if_non_open_to_open_status, can_request_help_to_when_own_thread,
}
use algorea_backend.Threads.Update.{
  Thread, UserRights, thread_info, check_update_thread_permissions, update_thread, old_status,
}
use algorea_backend.Threads.Saving.{update_thread-Settles}
use algorea_backend.Threads.Guarantees.{stored_lem, valid_parts}
use algorea_backend.Threads.Transitions.{is_open_row, open_row_lem, can_change_lem, same_open}

-- A request that opens a thread gives its new status.
status_given :
    (own : Bool) (info : ThreadInfo) (o : Option ThreadStatus) (input : UpdateThreadRequest)
    → input.status ≡ o
    → is_thread_open_status info.thread_status ≡ false
    → check_update_thread_permissions own input info ≡ none
    → (new : ThreadStatus) × (o ≡ some new)
unfolding check_update_thread_permissions user_can_write_in_thread
status_given own info none input e was_closed permitted = absurd (ground arith)
status_given own info (some new) input e was_closed permitted = (new, refl)

may_open :
    (own : Bool) (info : ThreadInfo) (new : ThreadStatus) (input : UpdateThreadRequest)
    → input.status ≡ some new
    → is_thread_open_status info.thread_status ≡ false
    → is_thread_open_status new ≡ true
    → check_update_thread_permissions own input info ≡ none
    → (own || user_can_watch_for_thread info) ≡ true
unfolding check_update_thread_permissions
may_open own info new input e was_closed opens permitted =
    ground (arith, can_change_lem own info.thread_status new info, same_open info.thread_status new)

helper_given :
    (old new : ThreadStatus) (input : UpdateThreadRequest) (o : Option (Option ℕ))
    → input.status ≡ some new
    → input.helper_group_id ≡ o
    → is_thread_open_status old ≡ false
    → is_thread_open_status new ≡ true
    → is_status_valid old input ≡ true
    → (h : ℕ) × (o ≡ some (some h))
unfolding is_status_valid helper_group_id_set_if_non_open_to_open_status
helper_given old new input none e given was_closed opens valid = absurd (ground arith)
helper_given old new input (some none) e given was_closed opens valid = absurd (ground arith)
helper_given old new input (some (some h)) e given was_closed opens valid = (h, refl)

module _ (visible_to_user visible_to_participant can_request_help_to is_group : ℕ → Bool)
    (own : Bool) (rights : UserRights) (input : UpdateThreadRequest) (row : Option Thread) where
  helper_checked :
      (old : ThreadStatus) (h : ℕ)
      → input.helper_group_id ≡ some (some h)
      → is_helper_group_valid visible_to_user visible_to_participant can_request_help_to own old
          input
        ≡ true
      → ((visible_to_user h && visible_to_participant h) ≡ true)
        × (can_request_help_to_when_own_thread visible_to_user visible_to_participant
              can_request_help_to own h
            ≡ true)
  unfolding is_helper_group_valid
  helper_checked old h given valid = ground arith

  -- A thread is opened, or reopened, only with a helper group that the request names, that is visible
  -- to the user and to the participant, and to which the participant may request help if the request
  -- is the participant's own. Another user has to be allowed to watch the participant's answers.
  pub update_thread-opening :
      is_open_row row ≡ false
      → (is_open_row
            (update_thread visible_to_user visible_to_participant can_request_help_to is_group own
              rights input row).row
          ≡ false)
        ⊎ ((t : Thread) × ((update_thread visible_to_user visible_to_participant can_request_help_to
                is_group own rights input row).row
              ≡ some t)
            × (input.helper_group_id ≡ some (some t.helper_group_id))
            × ((visible_to_user t.helper_group_id && visible_to_participant t.helper_group_id)
                ≡ true)
            × (can_request_help_to_when_own_thread visible_to_user visible_to_participant
                  can_request_help_to own t.helper_group_id
                ≡ true)
            × ((own || user_can_watch_for_thread (thread_info rights row)) ≡ true))
  update_thread-opening was_closed =
      elim (update_thread-Settles visible_to_user visible_to_participant can_request_help_to
        is_group own rights input row) [
          | inl kept ↦ inl (rw kept was_closed)
          | inr (t, e, (v, c, s)) ↦ elim (Bool-cases (is_thread_open_status t.status)) [
            | inr closed ↦ inl (rw e closed)
            | inl opened ↦
                let (status_is, helper_is, count_is, group, fits) = stored_lem _ _ _ _ _ t s in
                let (status_valid, helper_valid, count_valid) =
                  valid_parts _ _ _ is_group own rights input row v in
                let closed_before = sym (open_row_lem rights row) ∙ was_closed in
                let (new, gives) =
                  status_given own (thread_info rights row) input.status input refl closed_before
                    c in
                let opens_now =
                  sym (ap (λ o. is_thread_open_status (get_or o (old_status row))) gives)
                  ∙ (sym (ap is_thread_open_status status_is) ∙ opened) in
                let (h, helps) =
                  helper_given _ new input input.helper_group_id gives refl closed_before opens_now
                    status_valid in
                let (seen, may_request) = helper_checked _ h helps helper_valid in
                let same : t.helper_group_id ≡ h =
                  helper_is
                  ∙ ap (λ o. get_or (pointer o) (thread_info rights row).thread_helper_group_id)
                      helps in
                inr (
                  t,
                  ap (λ r. r.row) e,
                  rw same helps,
                  rw same seen,
                  rw same may_request,
                  may_open own (thread_info rights row) new input gives closed_before opens_now c,
                )
          ]
        ]
