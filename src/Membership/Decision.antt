-- ===== src/Membership/Decision.antt =====
-- What the loop of `buildTransitionsPlan` decides about one child, apart from the maps that it
-- fills: a description of the plan for the proofs.
use algorea_backend.Shared.{
  ℕ, Bool, true, false, ◌&&◌, ◌||◌, not, Option, none, some, Map, lookup, get_or, ◌==◌,
  if◌then◌else◌,
}
use algorea_backend.Membership.Action.{
  GroupMembershipAction, no_relation, action_eq, is_active, is_pending, has_approvals,
}
use algorea_backend.Membership.Rules.{
  GroupGroupTransitionAction, transitions, downgrade_to, GroupGroupTransitionResult, invalid,
  approvals_missing, success, unchanged,
}
use algorea_backend.Membership.Approvals.{
  GroupApprovals, no_approvals, StateInfo, no_state, RequiredApprovalsAndLimits, approvals_ok,
}

-- The child stays as it is, with this result; or the transition goes to this action.
pub data Decision : Type 0 where
  refused : GroupGroupTransitionResult → Decision
  moves : GroupMembershipAction → Decision

module _ (limits : RequiredApprovalsAndLimits) (given : GroupApprovals)
    (action : GroupGroupTransitionAction) (old : StateInfo) where
  unfoldable pub decide_target : GroupMembershipAction → Decision
  decide_target to =
      if is_active to && not (is_active old.action) || has_approvals to
      then (if (approvals_ok old limits given).0
          then moves to
          else if not (action_eq (downgrade_to action) no_relation)
          then moves (downgrade_to action)
          else refused approvals_missing)
      else moves to

  unfoldable pub decide_transition : Option GroupMembershipAction → Decision
  decide_transition none = refused invalid
  decide_transition (some to) = decide_target to

  unfoldable pub decide : Decision
  decide = decide_transition (transitions action old.action)

unfoldable pub decide_child :
    RequiredApprovalsAndLimits
    → Map GroupApprovals
    → GroupGroupTransitionAction
    → ℕ
    → Map StateInfo
    → ℕ
    → Decision
decide_child limits approvals action parent old_actions id =
    if id == parent
    then refused invalid
    else decide limits (get_or (lookup id approvals) no_approvals) action
        (get_or (lookup id old_actions) no_state)

abbrev pub when {ℓ} : {A : Type ℓ} → Bool → A → Option A
when true a = some a
when false a = none

-- The entries that a decision makes in the plan's maps.
abbrev pub result_of : GroupMembershipAction → Decision → GroupGroupTransitionResult
result_of old (refused r) = r
result_of old (moves to) = if action_eq to old then unchanged else success

abbrev pub changed_of : GroupMembershipAction → Decision → Option GroupMembershipAction
changed_of old (refused r) = none
changed_of old (moves to) = when (not (action_eq to old) && not (action_eq to no_relation)) to

abbrev pub insert_pending_of : GroupMembershipAction → Decision → Option GroupMembershipAction
insert_pending_of old (refused r) = none
insert_pending_of old (moves to) = when (not (action_eq to old) && is_pending to) to

abbrev pub delete_pending_of : GroupMembershipAction → Decision → Option Bool
delete_pending_of old (refused r) = none
delete_pending_of old (moves to) = when (not (action_eq to old) && is_pending old) true

abbrev pub insert_relation_of : GroupMembershipAction → Decision → Option Bool
insert_relation_of old (refused r) = none
insert_relation_of old (moves to) =
    when (not (action_eq to old) && (not (is_active old) && is_active to)) true

abbrev pub delete_relation_of : GroupMembershipAction → Decision → Option Bool
delete_relation_of old (refused r) = none
delete_relation_of old (moves to) =
    when (not (action_eq to old) && (is_active old && not (is_active to))) true

abbrev pub check_cycle_of : GroupMembershipAction → Decision → Option Bool
check_cycle_of old (refused r) = none
check_cycle_of old (moves to) =
    when (not (action_eq to old) && (not (is_active old) && (is_active to || is_pending to))) true
