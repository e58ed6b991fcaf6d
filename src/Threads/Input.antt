-- ===== src/Threads/Input.antt =====
-- The input of `updateThread` and its validators (app/api/threads/update_thread.go). A field of the
-- input is `none` if the request does not give it, and `some none` where the request gives null. Only the
-- errors on fields that are given count (`processValidatorErrors` of app/formdata/form_data.go).
use algorea_backend.Shared.{
  ℕ, Bool, true, false, ◌&&◌, ◌||◌, not, Option, none, some, is_some, if◌then◌else◌,
}
use algorea_backend.Threads.Status.{ThreadStatus, is_thread_open_status, Integer, pos, negsuc}

pub record UpdateThreadRequest : Type 0 where
  pub status : Option ThreadStatus
  pub helper_group_id : Option (Option ℕ)
  pub message_count : Option (Option Integer)
  pub message_count_increment : Option (Option Integer)

-- The pointer that a field is decoded to.
abbrev pub pointer {ℓ} : {V : Type ℓ} → Option (Option V) → Option V
pointer none = none
pointer (some p) = p

-- Go's zero value "" is `none`.
abbrev pub opens : Option ThreadStatus → Bool
opens none = false
opens (some s) = is_thread_open_status s

-- `oneof=waiting_for_participant waiting_for_trainer closed`.
abbrev pub is_one_of : ThreadStatus → Bool
is_one_of ThreadStatus.not_started = false
is_one_of _ = true

abbrev pub is_natural : Integer → Bool
is_natural (pos n) = true
is_natural (negsuc n) = false

-- `constructHelperGroupIDSetIfNonOpenToOpenStatus`.
unfoldable pub helper_group_id_set_if_non_open_to_open_status :
    ThreadStatus → ThreadStatus → Option ℕ → Bool
helper_group_id_set_if_non_open_to_open_status old new helper =
    if not (is_thread_open_status old) && (is_thread_open_status new && not (is_some helper))
    then false
    else true

-- `constructHelperGroupIDNotSetWhenSetOrKeepClosed`.
unfoldable pub helper_group_id_not_set_when_set_or_keep_closed :
    ThreadStatus → Option ThreadStatus → Option ℕ → Bool
helper_group_id_not_set_when_set_or_keep_closed old new none = true
helper_group_id_not_set_when_set_or_keep_closed old new (some helper) =
    if (not (is_thread_open_status old) && not (is_some new)) || (not (opens new) && is_some new)
    then false
    else true

-- `excludeIncrementIfMessageCountSetValidator`.
unfoldable pub exclude_increment_if_message_count_set : Option Integer → Option Integer → Bool
exclude_increment_if_message_count_set count increment = not (is_some count && is_some increment)

-- The tags of `status`.
unfoldable pub is_status_valid : ThreadStatus → UpdateThreadRequest → Bool
is_status_valid old input = elim input.status [
  | none ↦ true
  | some new ↦
      helper_group_id_set_if_non_open_to_open_status old new (pointer input.helper_group_id)
      && is_one_of new
]

-- The tags of `message_count`.
unfoldable pub is_message_count_valid : UpdateThreadRequest → Bool
is_message_count_valid input = elim (pointer input.message_count) [
  | none ↦ true
  | some count ↦
      is_natural count
      && exclude_increment_if_message_count_set (some count) (pointer input.message_count_increment)
]

-- The groups that the user and the participant see, and to which the user can request help on the
-- item, are answers of the database.
module _ (visible_to_user visible_to_participant can_request_help_to : ℕ → Bool) (own : Bool) where
  -- `constructValidateCanRequestHelpToWhenOwnThread`.
  unfoldable pub can_request_help_to_when_own_thread : ℕ → Bool
  can_request_help_to_when_own_thread helper = if not own then true else can_request_help_to helper

  -- The tags of `helper_group_id`. The validator refuses null, which has no value to check.
  unfoldable pub is_helper_group_valid : ThreadStatus → UpdateThreadRequest → Bool
  is_helper_group_valid old input = elim input.helper_group_id [
    | none ↦ true
    | some none ↦ false
    | some (some helper) ↦
        helper_group_id_not_set_when_set_or_keep_closed old input.status (some helper)
        && (visible_to_user helper
            && (visible_to_participant helper && can_request_help_to_when_own_thread helper))
  ]

  -- `formData.ParseMapData` finds no error.
  unfoldable pub is_valid : ThreadStatus → UpdateThreadRequest → Bool
  is_valid old input =
      is_status_valid old input && (is_helper_group_valid old input && is_message_count_valid input)
