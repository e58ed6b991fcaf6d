-- ===== src/Threads/Saving.antt =====
-- What a request that `updateThread` carries out has passed (app/api/threads/update_thread.go).
use algorea_backend.Shared.{
  ℕ, ◌≡◌, ◌⊎◌, inl, inr, refl, Bool, true, false, not, Option, none, some, if◌then◌else◌,
  Bool-cases, Option-cases,
}
use algorea_backend.Threads.Status.{ThreadInfo}
use algorea_backend.Threads.Input.{UpdateThreadRequest, is_valid}
use algorea_backend.Threads.Update.{
  Thread, UserRights, thread_info, Response, check_update_thread_permissions, ThreadData,
  compute_new_thread_data, insert_or_update_thread, Reply, update_in_transaction, update_thread,
}

module _ (visible_to_user visible_to_participant can_request_help_to is_group : ℕ → Bool)
    (own : Bool) (rights : UserRights) (input : UpdateThreadRequest) (row : Option Thread) where
  abbrev info : ThreadInfo
  info = thread_info rights row

  abbrev data_to_save : ThreadData
  data_to_save = compute_new_thread_data info.thread_message_count info.thread_helper_group_id input

  -- The request has passed the checks, and the row is t.
  abbrev pub Saves : Thread → Type 0
  Saves t =
      (is_valid visible_to_user visible_to_participant can_request_help_to own info.thread_status
          input
        ≡ true)
      × (check_update_thread_permissions own input info ≡ none)
      × (insert_or_update_thread is_group data_to_save row ≡ some t)

  -- A request leaves the row, or saves one.
  abbrev pub Settles : Reply → Type 0
  Settles r =
      (r.row ≡ row)
      ⊎ ((t : Thread) × (r ≡ record { response = Response.updated; row = some t }) × Saves t)

  update_in_transaction-Settles : Settles (
      update_in_transaction visible_to_user visible_to_participant can_request_help_to is_group own
        info input row)
  unfolding update_in_transaction
  update_in_transaction-Settles =
      elim (Bool-cases (
        is_valid visible_to_user visible_to_participant can_request_help_to own info.thread_status
          input)) [
            | inr v ↦ inl (rw (v, update_in_transaction))
            | inl v ↦ elim (Option-cases (check_update_thread_permissions own input info)) [
              | inr (response, c) ↦ inl (rw (v, c, update_in_transaction))
              | inl c ↦ elim (Option-cases (insert_or_update_thread is_group data_to_save row)) [
                | inl s ↦ inl (rw (v, c, s, update_in_transaction))
                | inr (t, s) ↦ inr (t, rw (v, c, s, update_in_transaction), (v, c, s))
              ]
            ]
          ]

  guarded-Settles :
      (b : Bool)
      → Settles (
          if not b
          then record { response = Response.forbidden; row = row }
          else update_in_transaction visible_to_user visible_to_participant can_request_help_to
              is_group own info input row)
  guarded-Settles true = update_in_transaction-Settles
  guarded-Settles false = inl refl

  pub update_thread-Settles : Settles (
      update_thread visible_to_user visible_to_participant can_request_help_to is_group own rights
        input row)
  unfolding update_thread
  update_thread-Settles = guarded-Settles rights.can_view_content
