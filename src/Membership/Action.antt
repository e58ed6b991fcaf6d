-- ===== src/Membership/Action.antt =====
-- `GroupMembershipAction` and its classifications
-- (app/database/group_group_store_transitions.go).
use algorea_backend.Shared.{Bool, true, false, ℕ, ◌==◌, Option, none, some}

-- The constants of the Go string type, and `other` for every string that is none of them, such as
-- "is_member,invitation_created", which `Transition` can read from the database.
pub data GroupMembershipAction : Type 0 where
  invitation_created join_request_created invitation_accepted : GroupMembershipAction
  join_request_accepted leave_request_accepted invitation_refused : GroupMembershipAction
  invitation_withdrawn joined_by_badge joined_by_code : GroupMembershipAction
  join_request_refused join_request_withdrawn removed left is_member : GroupMembershipAction
  leave_request_created leave_request_expired leave_request_refused : GroupMembershipAction
  leave_request_withdrawn removed_due_to_approval_change no_relation other : GroupMembershipAction

abbrev number : GroupMembershipAction → ℕ
number invitation_created = 0
number join_request_created = 1
number invitation_accepted = 2
number join_request_accepted = 3
number leave_request_accepted = 4
number invitation_refused = 5
number invitation_withdrawn = 6
number joined_by_badge = 7
number joined_by_code = 8
number join_request_refused = 9
number join_request_withdrawn = 10
number removed = 11
number left = 12
number is_member = 13
number leave_request_created = 14
number leave_request_expired = 15
number leave_request_refused = 16
number leave_request_withdrawn = 17
number removed_due_to_approval_change = 18
number no_relation = 19
number other = 20

-- `a == b` on the actions.
abbrev pub action_eq : GroupMembershipAction → GroupMembershipAction → Bool
action_eq a b = number a == number b

abbrev pub is_active : GroupMembershipAction → Bool
is_active joined_by_badge = true
is_active invitation_accepted = true
is_active join_request_accepted = true
is_active joined_by_code = true
is_active is_member = true
is_active leave_request_created = true
is_active leave_request_withdrawn = true
is_active leave_request_refused = true
is_active _ = false

abbrev pub is_pending : GroupMembershipAction → Bool
is_pending invitation_created = true
is_pending join_request_created = true
is_pending leave_request_created = true
is_pending leave_request_expired = true
is_pending _ = false

abbrev pub has_approvals : GroupMembershipAction → Bool
has_approvals join_request_created = true
has_approvals _ = false

-- The enum of `group_pending_requests.type`.
pub data PendingKind : Type 0 where
  invitation join_request leave_request : PendingKind

-- `PendingType`; `none` is the panic.
abbrev pub pending_type : GroupMembershipAction → Option PendingKind
pending_type invitation_created = some invitation
pending_type join_request_created = some join_request
pending_type leave_request_created = some leave_request
pending_type _ = none
