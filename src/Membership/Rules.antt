-- ===== src/Membership/Rules.antt =====
-- `GroupGroupTransitionAction` and the table `groupGroupTransitionRules`
-- (app/database/group_group_store_transitions.go).
use algorea_backend.Shared.{Option, none, some}
use algorea_backend.Membership.Action.{
  GroupMembershipAction, invitation_created, join_request_created, invitation_accepted,
  join_request_accepted, leave_request_accepted, invitation_refused, invitation_withdrawn,
  joined_by_badge, joined_by_code, join_request_refused, join_request_withdrawn, removed, left,
  is_member, leave_request_created, leave_request_expired, leave_request_refused,
  leave_request_withdrawn, removed_due_to_approval_change, no_relation,
}

pub data GroupGroupTransitionAction : Type 0 where
  admin_creates_invitation user_creates_join_request : GroupGroupTransitionAction
  user_creates_accepted_join_request user_accepts_invitation : GroupGroupTransitionAction
  admin_accepts_join_request admin_accepts_leave_request : GroupGroupTransitionAction
  admin_refuses_leave_request user_refuses_invitation : GroupGroupTransitionAction
  admin_refuses_join_request admin_removes_user admin_withdraws_invitation :
      GroupGroupTransitionAction
  user_leaves_group user_creates_leave_request user_cancels_join_request :
      GroupGroupTransitionAction
  user_cancels_leave_request admin_removes_direct_relation : GroupGroupTransitionAction
  user_joins_group_by_badge user_joins_group_by_code : GroupGroupTransitionAction
  admin_strengthens_approval_with_empty : GroupGroupTransitionAction
  admin_strengthens_approval_with_reinvite : GroupGroupTransitionAction

-- `groupGroupTransitionRules[action].Transitions[from]`.
unfoldable pub transitions :
    GroupGroupTransitionAction → GroupMembershipAction → Option GroupMembershipAction
transitions admin_creates_invitation no_relation = some invitation_created
transitions admin_creates_invitation invitation_created = some invitation_created
transitions admin_creates_invitation join_request_created = some join_request_accepted
transitions admin_creates_invitation leave_request_expired = some invitation_created
transitions user_creates_join_request no_relation = some join_request_created
transitions user_creates_join_request join_request_created = some join_request_created
transitions user_creates_join_request leave_request_expired = some join_request_created
transitions user_creates_accepted_join_request no_relation = some join_request_accepted
transitions user_creates_accepted_join_request join_request_created = some join_request_accepted
transitions user_creates_accepted_join_request invitation_created = some join_request_accepted
transitions user_creates_accepted_join_request leave_request_expired = some join_request_accepted
transitions user_joins_group_by_badge no_relation = some joined_by_badge
transitions user_joins_group_by_badge join_request_created = some joined_by_badge
transitions user_joins_group_by_badge invitation_created = some joined_by_badge
transitions user_joins_group_by_badge leave_request_expired = some joined_by_badge
transitions user_joins_group_by_code no_relation = some joined_by_code
transitions user_joins_group_by_code join_request_created = some joined_by_code
transitions user_joins_group_by_code invitation_created = some joined_by_code
transitions user_joins_group_by_code leave_request_expired = some joined_by_code
transitions user_accepts_invitation invitation_created = some invitation_accepted
transitions admin_accepts_join_request join_request_created = some join_request_accepted
transitions admin_accepts_leave_request leave_request_created = some leave_request_accepted
transitions user_refuses_invitation invitation_created = some invitation_refused
transitions admin_refuses_join_request join_request_created = some join_request_refused
transitions admin_refuses_leave_request leave_request_created = some leave_request_refused
transitions admin_removes_user is_member = some removed
transitions admin_removes_user leave_request_created = some removed
transitions admin_withdraws_invitation invitation_created = some invitation_withdrawn
transitions user_leaves_group is_member = some left
transitions user_leaves_group leave_request_created = some left
transitions user_creates_leave_request is_member = some leave_request_created
transitions user_creates_leave_request leave_request_created = some leave_request_created
transitions user_cancels_join_request join_request_created = some join_request_withdrawn
transitions user_cancels_leave_request leave_request_created = some leave_request_withdrawn
transitions admin_removes_direct_relation is_member = some no_relation
transitions admin_removes_direct_relation no_relation = some no_relation
transitions admin_removes_direct_relation leave_request_created = some no_relation
transitions admin_strengthens_approval_with_empty is_member = some removed_due_to_approval_change
transitions admin_strengthens_approval_with_empty no_relation = some no_relation
transitions admin_strengthens_approval_with_empty join_request_created = some no_relation
transitions admin_strengthens_approval_with_empty leave_request_created =
    some removed_due_to_approval_change
transitions admin_strengthens_approval_with_empty leave_request_expired =
    some removed_due_to_approval_change
transitions admin_strengthens_approval_with_empty invitation_created = some no_relation
transitions admin_strengthens_approval_with_reinvite is_member = some invitation_created
transitions admin_strengthens_approval_with_reinvite no_relation = some no_relation
transitions admin_strengthens_approval_with_reinvite join_request_created = some no_relation
transitions admin_strengthens_approval_with_reinvite leave_request_created =
    some removed_due_to_approval_change
transitions admin_strengthens_approval_with_reinvite leave_request_expired =
    some removed_due_to_approval_change
transitions admin_strengthens_approval_with_reinvite invitation_created = some invitation_created
transitions _ _ = none

-- `groupGroupTransitionRules[action].IfNotEnoughApprovalsDowngradeTo`, "" where it is not given.
unfoldable pub downgrade_to : GroupGroupTransitionAction → GroupMembershipAction
downgrade_to admin_creates_invitation = invitation_created
downgrade_to _ = no_relation

-- `GroupGroupTransitionResult`.
pub data GroupGroupTransitionResult : Type 0 where
  cycle invalid approvals_missing full success unchanged : GroupGroupTransitionResult
