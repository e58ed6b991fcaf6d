-- ===== src/Membership/Transition.antt =====
-- `GroupGroupStore.Transition` with `performCyclesChecking` and `enforceMaxSize`
-- (app/database/group_group_store_transitions.go). The result is `none` where the Go code returns
-- an error: the parent group is missing, or a statement violates a primary key.
use algorea_backend.Shared.{
  ℕ, suc, ◌+◌, Bool, true, false, ◌&&◌, ◌||◌, not, Option, none, some, List, [], ◌∷◌, ◌++◌, Map,
  lookup, insert_if, contains, keys, ltb, ◌==◌, if◌then◌else◌,
}
use algorea_backend.Membership.Action.{GroupMembershipAction, is_active, PendingKind, invitation}
use algorea_backend.Membership.Rules.{
  GroupGroupTransitionAction, user_joins_group_by_badge, user_joins_group_by_code,
  user_creates_join_request, user_creates_accepted_join_request, admin_creates_invitation,
  admin_accepts_join_request, GroupGroupTransitionResult, cycle, full,
}
use algorea_backend.Membership.Action.{invitation_created}
use algorea_backend.Membership.Approvals.{GroupApprovals, StateInfo, RequiredApprovalsAndLimits}
use algorea_backend.Membership.Tables.{
  Db, Group, GroupType, user, team, Relation, PendingRequest, read_state, read_limits,
}
use algorea_backend.Membership.Plan.{
  Plan, empty_plan, build_transitions_plan, delete_ids_from_transition_plan,
}
use algorea_backend.Membership.Statements.{
  delete_pending, delete_relations, delete_grants, has_grants, relation_row, insert_relations,
  pending_row, insert_pending, change_rows,
}

-- The second `SELECT`, into `oldActionsMap`.
unfoldable pub read_states : Db → ℕ → ℕ → List ℕ → Map StateInfo
read_states db now parent [] = []
read_states db now parent (id ∷ ids) =
    insert_if id (read_state db now parent id) (read_states db now parent ids)

-- The ancestors of the parent group among the given ids.
unfoldable pub cycle_ids : ℕ → List ℕ → List (ℕ × ℕ) → List ℕ
cycle_ids parent ids [] = []
cycle_ids parent ids ((ancestor, child) ∷ rows) =
    let rest = cycle_ids parent ids rows in
    if child == parent && contains ids ancestor then ancestor ∷ rest else rest

unfoldable pub perform_cycles_checking : Db → ℕ → Plan → Plan
perform_cycles_checking db parent p =
    delete_ids_from_transition_plan
      (cycle_ids parent (keys p.ids_to_check_cycle) db.groups_ancestors) cycle p

-- The actions at which `enforceMaxSize` looks.
unfoldable pub may_fill_group : GroupGroupTransitionAction → Bool
may_fill_group user_joins_group_by_badge = true
may_fill_group user_joins_group_by_code = true
may_fill_group user_creates_join_request = true
may_fill_group user_creates_accepted_join_request = true
may_fill_group admin_creates_invitation = true
may_fill_group admin_accepts_join_request = true
may_fill_group _ = false

abbrev pub is_join_request_creation : GroupGroupTransitionAction → Bool
is_join_request_creation user_creates_join_request = true
is_join_request_creation _ = false

abbrev pub is_participant_type : GroupType → Bool
is_participant_type user = true
is_participant_type team = true
is_participant_type _ = false

abbrev pub is_participant : Option Group → Bool
is_participant none = false
is_participant (some g) = is_participant_type g.group_type

abbrev pub is_invitation : PendingKind → Bool
is_invitation invitation = true
is_invitation _ = false

-- `NOT IN (?)`: an empty list is bound as NULL, and then no row fits.
abbrev pub not_in : List ℕ → ℕ → Bool
not_in [] a = false
not_in (x ∷ xs) a = not (contains (x ∷ xs) a)

abbrev pub one_if : Bool → ℕ → ℕ
one_if true n = suc n
one_if false n = n

-- `activeRelationsCount`.
unfoldable pub count_relations : ℕ → Map Group → ℕ → List ℕ → List Relation → ℕ
count_relations now groups parent changed [] = 0
count_relations now groups parent changed (r ∷ rs) =
    one_if
      (r.parent_group_id == parent
        && (ltb now r.expires_at
            && (is_participant (lookup r.child_group_id groups)
                && not_in changed r.child_group_id)))
      (count_relations now groups parent changed rs)

-- `invitationsCount`.
unfoldable pub count_invitations : ℕ → List ℕ → List PendingRequest → ℕ
count_invitations parent changed [] = 0
count_invitations parent changed (r ∷ rs) =
    one_if (r.group_id == parent && (is_invitation r.kind && not_in changed r.member_id))
      (count_invitations parent changed rs)

abbrev pub is_invitation_created : GroupMembershipAction → Bool
is_invitation_created invitation_created = true
is_invitation_created _ = false

-- The loop over `idsChanged`.
unfoldable pub count_new : Map GroupMembershipAction → ℕ
count_new [] = 0
count_new ((id, to) ∷ m) = one_if (is_active to || is_invitation_created to) (count_new m)

unfoldable pub members_count : Db → ℕ → ℕ → Map GroupMembershipAction → ℕ
members_count db now parent changed =
    count_relations now db.groups parent (keys changed) db.groups_groups
    + count_invitations parent (keys changed) db.group_pending_requests
    + count_new changed

-- The tests of `enforceMaxSize`: the action may fill the group, and the plan would overfill it.
unfoldable pub exceeds_max_size :
    Db → ℕ → GroupGroupTransitionAction → ℕ → RequiredApprovalsAndLimits → Plan → Bool
exceeds_max_size db now action parent limits p =
    if not limits.enforce_max_participants || not (may_fill_group action)
    then false
    else (let count = members_count db now parent p.ids_changed in
        ltb limits.max_participants count
        || (count == limits.max_participants && is_join_request_creation action))

unfoldable pub enforce_max_size :
    Db → ℕ → GroupGroupTransitionAction → ℕ → RequiredApprovalsAndLimits → Plan → Plan
enforce_max_size db now action parent limits p =
    if exceeds_max_size db now action parent limits p
    then delete_ids_from_transition_plan (keys p.ids_changed) full p
    else p

-- What `Transition` returns and leaves behind; the flags are the propagations it schedules.
pub record Outcome : Type 0 where
  pub db : Db
  pub results : Map GroupGroupTransitionResult
  pub approvals_to_request : Map GroupApprovals
  pub should_create_new_ancestors : Bool
  pub should_propagate_permissions : Bool
  pub should_propagate_results : Bool

abbrev pub is_empty_map {ℓ} : {V : Type ℓ} → Map V → Bool
is_empty_map [] = true
is_empty_map (x ∷ m) = false

-- The statements, once the plan is final, with the rows that `deletePending` and
-- `insertGroupPendingRequests` leave.
unfoldable pub carry_out :
    Db
    → ℕ
    → ℕ
    → Map GroupApprovals
    → ℕ
    → RequiredApprovalsAndLimits
    → Map StateInfo
    → Plan
    → List PendingRequest
    → Outcome
carry_out db now parent approvals performed_by limits old_actions p pending =
    let unlinked = keys p.ids_to_delete_relation in
    record {
      db = record db {
        group_pending_requests = pending;
        groups_groups =
            insert_relations (relation_row now parent approvals old_actions)
              (keys p.ids_to_insert_relation) (delete_relations parent unlinked db.groups_groups);
        permissions_granted = delete_grants parent unlinked db.permissions_granted;
        group_membership_changes =
            db.group_membership_changes ++ change_rows now parent performed_by p.ids_changed;
      };
      results = p.results;
      approvals_to_request = p.approvals_to_request;
      should_create_new_ancestors =
          not limits.is_team
          && (not (is_empty_map p.ids_to_delete_relation)
              || not (is_empty_map p.ids_to_insert_relation));
      should_propagate_permissions = has_grants parent unlinked db.permissions_granted;
      should_propagate_results = not limits.is_team && not (is_empty_map p.ids_to_insert_relation);
    }

unfoldable pub execute_plan :
    Db
    → ℕ
    → ℕ
    → Map GroupApprovals
    → ℕ
    → RequiredApprovalsAndLimits
    → Map StateInfo
    → Plan
    → Option Outcome
execute_plan db now parent approvals performed_by limits old_actions p =
    elim (insert_pending (pending_row now parent approvals) p.ids_to_insert_pending
      (delete_pending parent (keys p.ids_to_delete_pending) db.group_pending_requests)) [
        | none ↦ none
        | some pending ↦
            some (carry_out db now parent approvals performed_by limits old_actions p pending)
      ]

-- The plan that `Transition` carries out.
unfoldable pub make_plan :
    Db
    → ℕ
    → GroupGroupTransitionAction
    → ℕ
    → List ℕ
    → Map GroupApprovals
    → RequiredApprovalsAndLimits
    → Map StateInfo
    → Plan
make_plan db now action parent ids approvals limits old_actions =
    enforce_max_size db now action parent limits (
      perform_cycles_checking db parent
        (build_transitions_plan limits approvals action parent old_actions empty_plan ids))

unfoldable pub transition :
    Db → ℕ → GroupGroupTransitionAction → ℕ → List ℕ → Map GroupApprovals → ℕ → Option Outcome
transition db now action parent ids approvals performed_by = elim (lookup parent db.groups) [
  | none ↦ none
  | some g ↦
      let limits = read_limits now g in
      let old_actions = read_states db now parent ids in
      execute_plan db now parent approvals performed_by limits old_actions
        (make_plan db now action parent ids approvals limits old_actions)
]
