-- ===== src/Membership/Statements.antt =====
-- The statements by which `Transition` carries out a plan: `deletePending`, `deleteRelations`,
-- `insertGroupPendingRequests`, `insertRelations`, `resolveApprovalTimesForGroupsGroups` and
-- `insertGroupMembershipChanges` (app/database/group_group_store_transitions.go). The order of rows
-- is that of insertion.
use algorea_backend.Shared.{
  ℕ, Bool, true, false, ◌&&◌, Option, none, some, List, [], ◌∷◌, Map, lookup, contains, get_or,
  is_some, ◌==◌, if◌then◌else◌,
}
use algorea_backend.Membership.Action.{
  GroupMembershipAction, leave_request_created, leave_request_expired, has_approvals, PendingKind,
  pending_type,
}
use algorea_backend.Membership.Approvals.{GroupApprovals, no_approvals, StateInfo, no_state}
use algorea_backend.Membership.Tables.{
  Relation, PendingRequest, MembershipChange, Grant, find_pending, never, if_approved,
}

-- `DELETE ... WHERE group_id = ? AND member_id IN (?)`, the statement of `deletePending`.
unfoldable pub delete_pending : ℕ → List ℕ → List PendingRequest → List PendingRequest
delete_pending g ms [] = []
delete_pending g ms (r ∷ rs) =
    if r.group_id == g && contains ms r.member_id
    then delete_pending g ms rs
    else r ∷ delete_pending g ms rs

-- The first statement of `deleteRelations`.
unfoldable pub delete_relations : ℕ → List ℕ → List Relation → List Relation
delete_relations p cs [] = []
delete_relations p cs (r ∷ rs) =
    if r.parent_group_id == p && contains cs r.child_group_id
    then delete_relations p cs rs
    else r ∷ delete_relations p cs rs

-- The second: the permissions that came with the membership, and the number of rows affected.
unfoldable pub is_granted_through : ℕ → List ℕ → Grant → Bool
is_granted_through p cs g =
    g.by_group_membership && (g.source_group_id == p && contains cs g.group_id)

unfoldable pub delete_grants : ℕ → List ℕ → List Grant → List Grant
delete_grants p cs [] = []
delete_grants p cs (g ∷ gs) =
    if is_granted_through p cs g then delete_grants p cs gs else g ∷ delete_grants p cs gs

unfoldable pub has_grants : ℕ → List ℕ → List Grant → Bool
has_grants p cs [] = false
has_grants p cs (g ∷ gs) = if is_granted_through p cs g then true else has_grants p cs gs

-- `resolveApprovalTimesForGroupsGroups`, in the row that `insertRelations` writes.
unfoldable pub relation_row : ℕ → ℕ → Map GroupApprovals → Map StateInfo → ℕ → Relation
relation_row now p approvals old_actions id =
    let old = get_or (lookup id old_actions) no_state in
    let given = get_or (lookup id approvals) no_approvals in
    if has_approvals old.action
    then record {
      parent_group_id = p;
      child_group_id = id;
      expires_at = never;
      personal_info_view_approved_at = old.personal_info_view_approved_at;
      lock_membership_approved_at = old.lock_membership_approved_at;
      watch_approved_at = old.watch_approved_at;
    }
    else record {
      parent_group_id = p;
      child_group_id = id;
      expires_at = never;
      personal_info_view_approved_at = if_approved given.personal_info_view_approval now;
      lock_membership_approved_at = if_approved given.lock_membership_approval now;
      watch_approved_at = if_approved given.watch_approval now;
    }

-- `INSERT ... ON DUPLICATE KEY UPDATE expires_at = '9999-12-31 23:59:59'`.
unfoldable pub upsert_relation : Relation → List Relation → List Relation
upsert_relation n [] = n ∷ []
upsert_relation n (r ∷ rs) =
    if r.parent_group_id == n.parent_group_id && r.child_group_id == n.child_group_id
    then record r { expires_at = never } ∷ rs
    else r ∷ upsert_relation n rs

unfoldable pub insert_relations : (ℕ → Relation) → List ℕ → List Relation → List Relation
insert_relations row [] rs = rs
insert_relations row (id ∷ ids) rs = insert_relations row ids (upsert_relation (row id) rs)

-- The row that `insertGroupPendingRequests` writes.
unfoldable pub pending_row : ℕ → ℕ → Map GroupApprovals → ℕ → PendingKind → PendingRequest
pending_row now g approvals id kind =
    let given = get_or (lookup id approvals) no_approvals in
    record {
      group_id = g;
      member_id = id;
      kind = kind;
      personal_info_view_approved = given.personal_info_view_approval;
      lock_membership_approved = given.lock_membership_approval;
      watch_approved = given.watch_approval;
      at = now;
    }

-- A row whose key is taken is an error, and so is an action that `PendingType` panics at.
unfoldable pub add_pending :
    (PendingKind → PendingRequest)
    → Option PendingKind
    → List PendingRequest
    → Option (List PendingRequest)
add_pending row none rs = none
add_pending row (some kind) rs =
    let r = row kind in
    if is_some (find_pending r.group_id r.member_id rs) then none else some (r ∷ rs)

unfoldable pub insert_pending :
    (ℕ → PendingKind → PendingRequest)
    → Map GroupMembershipAction
    → List PendingRequest
    → Option (List PendingRequest)
insert_pending row [] rs = some rs
insert_pending row ((id, to) ∷ m) rs = elim (add_pending (row id) (pending_type to) rs) [
  | none ↦ none
  | some rs' ↦ insert_pending row m rs'
]

-- The part of the action behind its last comma: of "is_member,leave_request_created" it is
-- "leave_request_created", which the code spells `LeaveRequestExpired` elsewhere.
unfoldable pub logged_action : GroupMembershipAction → GroupMembershipAction
logged_action leave_request_created = leave_request_expired
logged_action a = a

-- The rows that `insertGroupMembershipChanges` writes.
unfoldable pub change_rows : ℕ → ℕ → ℕ → Map GroupMembershipAction → List MembershipChange
change_rows now g initiator [] = []
change_rows now g initiator ((id, to) ∷ m) =
    record {
      group_id = g;
      member_id = id;
      action = logged_action to;
      at = now;
      initiator_id = initiator;
    }
    ∷ change_rows now g initiator m
