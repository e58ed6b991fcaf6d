-- ===== src/Membership/Approvals.antt =====
-- `GroupApprovals`, `stateInfo`, `requiredApprovalsAndLimits` and `approvalsOK`
-- (app/database/group_group_store_transitions.go).
use algorea_backend.Shared.{
  ℕ, Bool, true, false, ◌&&◌, ◌||◌, not, Option, none, List, [], ◌∷◌, ◌++◌, Text, codes, text_eq,
  split, if◌then◌else◌, is_some,
}
use algorea_backend.Membership.Action.{GroupMembershipAction, no_relation, has_approvals}

pub record GroupApprovals : Type 0 where
  pub personal_info_view_approval : Bool
  pub lock_membership_approval : Bool
  pub watch_approval : Bool

-- `GroupApprovals{}`.
abbrev pub no_approvals : GroupApprovals
no_approvals = record {
  personal_info_view_approval = false;
  lock_membership_approval = false;
  watch_approval = false;
}

abbrev pub is_empty : GroupApprovals → Bool
is_empty a = not (a.personal_info_view_approval || (a.lock_membership_approval || a.watch_approval))

-- The `switch` of `FromString`, for one part of the list.
unfoldable pub approve : GroupApprovals → Text → GroupApprovals
approve a part =
    if text_eq part (codes "personal_info_view")
    then record a { personal_info_view_approval = true }
    else if text_eq part (codes "lock_membership")
    then record a { lock_membership_approval = true }
    else if text_eq part (codes "watch")
    then record a { watch_approval = true }
    else a

unfoldable pub approve_all : GroupApprovals → List Text → GroupApprovals
approve_all a [] = a
approve_all a (part ∷ parts) = approve_all (approve a part) parts

-- `FromString`; 44 is the comma.
unfoldable pub from_string : GroupApprovals → Text → GroupApprovals
from_string a s = approve_all a (split b',' s)

-- `ToArray`.
unfoldable pub to_array : GroupApprovals → List Text
to_array a =
    (if a.personal_info_view_approval then codes "personal_info_view" ∷ [] else [])
    ++ ((if a.lock_membership_approval then codes "lock_membership" ∷ [] else [])
        ++ (if a.watch_approval then codes "watch" ∷ [] else []))

-- `stateInfo`, a row that `Transition` reads. `ApprovalsOK`, which the code never uses, is left out.
pub record StateInfo : Type 0 where
  pub action : GroupMembershipAction
  pub personal_info_view_approved_at : Option ℕ
  pub lock_membership_approved_at : Option ℕ
  pub watch_approved_at : Option ℕ

-- `stateInfo{}`.
abbrev pub no_state : StateInfo
no_state = record {
  action = no_relation;
  personal_info_view_approved_at = none;
  lock_membership_approved_at = none;
  watch_approved_at = none;
}

pub record RequiredApprovalsAndLimits : Type 0 where
  pub require_personal_info_access_approval : Bool
  pub require_lock_membership_approval : Bool
  pub require_watch_approval : Bool
  pub enforce_max_participants : Bool
  pub max_participants : ℕ
  pub is_team : Bool

-- The approvals that `approvalsOK` checks: those of the join request, if there is one.
unfoldable pub approvals_to_check : StateInfo → GroupApprovals → GroupApprovals
approvals_to_check old given =
    if has_approvals old.action
    then record {
      personal_info_view_approval = is_some old.personal_info_view_approved_at;
      lock_membership_approval = is_some old.lock_membership_approved_at;
      watch_approval = is_some old.watch_approved_at;
    }
    else given

-- The required approvals that are not given.
unfoldable pub missing_approvals : RequiredApprovalsAndLimits → GroupApprovals → GroupApprovals
missing_approvals required checked = record {
  personal_info_view_approval =
      required.require_personal_info_access_approval && not checked.personal_info_view_approval;
  lock_membership_approval =
      required.require_lock_membership_approval && not checked.lock_membership_approval;
  watch_approval = required.require_watch_approval && not checked.watch_approval;
}

-- `approvalsOK`: whether none is missing, and those that are.
unfoldable pub approvals_ok :
    StateInfo → RequiredApprovalsAndLimits → GroupApprovals → Bool × GroupApprovals
approvals_ok old required given =
    let missing = missing_approvals required (approvals_to_check old given) in
    (is_empty missing, missing)
