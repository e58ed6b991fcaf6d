-- ===== src/Membership/Tables.antt =====
-- The tables that `Transition` reads and writes, and its SQL statements on them
-- (app/database/group_group_store_transitions.go). Times are numbers; `now` is the time of the
-- statement. A primary key (parent, child) or (group, member) names one row.
use algorea_backend.Shared.{
  ℕ, Bool, true, false, ◌&&◌, Option, none, some, List, [], ◌∷◌, Map, ltb, ◌==◌, if◌then◌else◌,
}
use algorea_backend.Membership.Action.{
  GroupMembershipAction, invitation_created, join_request_created, is_member, leave_request_created,
  leave_request_expired, no_relation, other, PendingKind, invitation, join_request, leave_request,
}
use algorea_backend.Membership.Approvals.{StateInfo, RequiredApprovalsAndLimits}

-- '9999-12-31 23:59:59'.
abbrev pub never : ℕ
never = 253402300799

-- A row of groups_groups.
pub record Relation : Type 0 where
  pub parent_group_id : ℕ
  pub child_group_id : ℕ
  pub expires_at : ℕ
  pub personal_info_view_approved_at : Option ℕ
  pub lock_membership_approved_at : Option ℕ
  pub watch_approved_at : Option ℕ

-- A row of group_pending_requests.
pub record PendingRequest : Type 0 where
  pub group_id : ℕ
  pub member_id : ℕ
  pub kind : PendingKind
  pub personal_info_view_approved : Bool
  pub lock_membership_approved : Bool
  pub watch_approved : Bool
  pub at : ℕ

-- A row of group_membership_changes. `action` is what the code writes to the column.
pub record MembershipChange : Type 0 where
  pub group_id : ℕ
  pub member_id : ℕ
  pub action : GroupMembershipAction
  pub at : ℕ
  pub initiator_id : ℕ

-- The columns of permissions_granted by which `deleteRelations` selects.
pub record Grant : Type 0 where
  pub group_id : ℕ
  pub item_id : ℕ
  pub source_group_id : ℕ
  pub by_group_membership : Bool

pub data PersonalInfoApproval : Type 0 where
  none_required view_required edit_required : PersonalInfoApproval

pub data GroupType : Type 0 where
  user team class_or_other : GroupType

-- The columns of `groups` that the code reads.
pub record Group : Type 0 where
  pub group_type : GroupType
  pub require_personal_info_access_approval : PersonalInfoApproval
  pub require_lock_membership_approval_until : Option ℕ
  pub require_watch_approval : Bool
  pub enforce_max_participants : Bool
  pub max_participants : Option ℕ

pub record Db : Type 0 where
  pub groups : Map Group
  pub groups_groups : List Relation
  pub group_pending_requests : List PendingRequest
  pub group_membership_changes : List MembershipChange
  pub permissions_granted : List Grant
  pub groups_ancestors : List (ℕ × ℕ)  -- (ancestor, child)

-- The row of groups_groups with a given key.
unfoldable pub find_relation : ℕ → ℕ → List Relation → Option Relation
find_relation p c [] = none
find_relation p c (r ∷ rs) =
    if r.parent_group_id == p && r.child_group_id == c then some r else find_relation p c rs

unfoldable pub find_pending : ℕ → ℕ → List PendingRequest → Option PendingRequest
find_pending g m [] = none
find_pending g m (r ∷ rs) =
    if r.group_id == g && r.member_id == m then some r else find_pending g m rs

-- `groups_groups_active`: is the relation there and not expired?
abbrev pub is_current : ℕ → Option Relation → Bool
is_current now none = false
is_current now (some r) = ltb now r.expires_at

-- `GROUP_CONCAT(action)` over the two halves of the union, the membership first.
abbrev pub concat_actions : Bool → Option PendingKind → GroupMembershipAction
concat_actions false none = no_relation
concat_actions true none = is_member
concat_actions false (some invitation) = invitation_created
concat_actions false (some join_request) = join_request_created
concat_actions false (some leave_request) = leave_request_expired
concat_actions true (some invitation) = other
concat_actions true (some join_request) = other
concat_actions true (some leave_request) = leave_request_created

abbrev pub kind_of : Option PendingRequest → Option PendingKind
kind_of none = none
kind_of (some r) = some r.kind

-- `IF(approved, at, NULL)`.
abbrev pub if_approved : Bool → ℕ → Option ℕ
if_approved true t = some t
if_approved false t = none

-- The row of the union for one child; `none` if neither half has one.
unfoldable pub state_row : Bool → Option PendingRequest → Option StateInfo
state_row false none = none
state_row true none = some (record {
  action = is_member;
  personal_info_view_approved_at = none;
  lock_membership_approved_at = none;
  watch_approved_at = none;
})
state_row active (some r) = some (record {
  action = concat_actions active (some r.kind);
  personal_info_view_approved_at = if_approved r.personal_info_view_approved r.at;
  lock_membership_approved_at = if_approved r.lock_membership_approved r.at;
  watch_approved_at = if_approved r.watch_approved r.at;
})

unfoldable pub read_state : Db → ℕ → ℕ → ℕ → Option StateInfo
read_state db now parent child =
    state_row (is_current now (find_relation parent child db.groups_groups))
      (find_pending parent child db.group_pending_requests)

-- The membership of a child in a group, as `Transition` reads it from the tables.
unfoldable pub membership : Db → ℕ → ℕ → ℕ → GroupMembershipAction
membership db now parent child =
    concat_actions (is_current now (find_relation parent child db.groups_groups))
      (kind_of (find_pending parent child db.group_pending_requests))

abbrev is_required : PersonalInfoApproval → Bool
is_required none_required = false
is_required _ = true

abbrev until : Option ℕ → ℕ
until none = 0
until (some t) = t

abbrev is_team_type : GroupType → Bool
is_team_type team = true
is_team_type _ = false

-- The first `SELECT` of `Transition`.
unfoldable pub read_limits : ℕ → Group → RequiredApprovalsAndLimits
read_limits now g = record {
  require_personal_info_access_approval = is_required g.require_personal_info_access_approval;
  require_lock_membership_approval = ltb now (until g.require_lock_membership_approval_until);
  require_watch_approval = g.require_watch_approval;
  enforce_max_participants = g.enforce_max_participants;
  max_participants = until g.max_participants;
  is_team = is_team_type g.group_type;
}
