-- ===== src/Membership/Examples.antt =====
-- Memberships of a group that requires an approval and admits two participants: tests of the
-- definitions and instances of the theorems.
use algorea_backend.Shared.{
  ℕ, ◌≡◌, ◌≢◌, ◌⊎◌, inr, refl, true, false, Option, none, some, [], ◌∷◌, lookup, insert, delete,
  insert_if, keys, contains, arith, ◌||◌, codes, split,
}
use algorea_backend.Membership.Action.{join_request}
use algorea_backend.Membership.Rules.{
  admin_accepts_join_request, user_joins_group_by_code, GroupGroupTransitionResult, success, cycle,
  invalid, transitions, downgrade_to,
}
use algorea_backend.Membership.Approvals.{
  GroupApprovals, no_approvals, approvals_to_check, missing_approvals, approvals_ok, from_string,
  to_array,
}
use algorea_backend.Membership.Tables.{
  Db, Group, Relation, user, class_or_other, view_required, never, find_relation, find_pending,
  is_current, state_row, read_state, membership, read_limits,
}
use algorea_backend.Membership.Statements.{
  delete_pending, delete_relations, is_granted_through, delete_grants, has_grants, relation_row,
  upsert_relation, insert_relations, pending_row, add_pending, insert_pending, logged_action,
  change_rows,
}
use algorea_backend.Membership.Plan.{
  build_one_transition, plan_transition, plan_child, build_transitions_plan, delete_id_from_plan,
  delete_ids_from_transition_plan,
}
use algorea_backend.Membership.Transition.{
  Outcome, transition, read_states, cycle_ids, perform_cycles_checking, may_fill_group,
  count_relations, count_invitations, count_new, members_count, exceeds_max_size, enforce_max_size,
  carry_out, execute_plan, make_plan,
}
use algorea_backend.Membership.Striking.{is_ancestor}
use algorea_backend.Membership.Settle.{Effect}
use algorea_backend.Membership.Refinement.{transition-Effect}
use algorea_backend.Membership.Safety.{transition_frame, transition-IsAcyclic}
use algorea_backend.Membership.ApprovalLists.{join, names, from_string-to_array, from_string-names}
use algorea_backend.Membership.Consent.{transition-revives_old_approvals}

abbrev person : Group
person = record {
  group_type = user;
  require_personal_info_access_approval = view_required;
  require_lock_membership_approval_until = none;
  require_watch_approval = false;
  enforce_max_participants = false;
  max_participants = none;
}

abbrev club : Group
club = record person {
  group_type = class_or_other;
  enforce_max_participants = true;
  max_participants = some 2;
}

-- Group 10 has an expired member 21, a request of 20, and the ancestor 11.
abbrev tables : Db
tables = record {
  groups = (10, club) ∷ (20, person) ∷ (21, person) ∷ [];
  groups_groups =
      record {
        parent_group_id = 10;
        child_group_id = 21;
        expires_at = 50;
        personal_info_view_approved_at = none;
        lock_membership_approved_at = none;
        watch_approved_at = none;
      }
      ∷ [];
  group_pending_requests =
      record {
        group_id = 10;
        member_id = 20;
        kind = join_request;
        personal_info_view_approved = true;
        lock_membership_approved = false;
        watch_approved = false;
        at = 90;
      }
      ∷ [];
  group_membership_changes = [];
  permissions_granted = [];
  groups_ancestors = (11, 10) ∷ [];
}

abbrev approval : GroupApprovals
approval = record no_approvals { personal_info_view_approval = true }

abbrev outcome_or : Db → Option Outcome → Outcome
outcome_or db none = record {
  db = db;
  results = [];
  approvals_to_request = [];
  should_create_new_ancestors = false;
  should_propagate_permissions = false;
  should_propagate_results = false;
}
outcome_or db (some out) = out

-- An administrator accepts the request of 20.
abbrev accepted : Outcome
accepted =
    outcome_or tables (transition tables 100 admin_accepts_join_request 10 (20 ∷ 22 ∷ []) [] 1)

-- The user 21, whose membership is expired, joins by the code with an approval.
abbrev rejoined : Outcome
rejoined = outcome_or tables (
    transition tables 100 user_joins_group_by_code 10 (21 ∷ 11 ∷ [])
      ((21, approval) ∷ (11, approval) ∷ []) 21)

-- All that a run of `transition` computes with.
run_all : Unit {0}
unfolding transition execute_plan carry_out insert_pending make_plan enforce_max_size
    exceeds_max_size read_limits may_fill_group members_count count_relations count_invitations
    count_new perform_cycles_checking delete_ids_from_transition_plan cycle_ids contains keys
    build_transitions_plan approvals_ok approvals_to_check missing_approvals build_one_transition
    delete_id_from_plan plan_child plan_transition downgrade_to transitions add_pending change_rows
    delete_grants delete_pending delete_relations has_grants insert_relations is_granted_through
    logged_action pending_row relation_row upsert_relation find_pending find_relation read_state
    state_row read_states delete insert insert_if lookup membership is_ancestor
run_all = tt

accepted_results : accepted.results ≡ (20, success) ∷ (22, invalid) ∷ []
unfolding run_all
accepted_results = refl

rejoined_results : rejoined.results ≡ (21, success) ∷ (11, cycle) ∷ []
unfolding run_all
rejoined_results = refl

accepted_returns :
    transition tables 100 admin_accepts_join_request 10 (20 ∷ 22 ∷ []) [] 1 ≡ some accepted
unfolding run_all
accepted_returns = refl

rejoined_returns :
    transition tables 100 user_joins_group_by_code 10
      (21 ∷ 11 ∷ [])
      ((21, approval) ∷ (11, approval) ∷ [])
      21
    ≡ some rejoined
unfolding run_all
rejoined_returns = refl

transition-Effect_example :
    (r : GroupGroupTransitionResult) × (lookup 20 accepted.results ≡ some r)
    × Effect admin_accepts_join_request
        (membership tables 100 10 20)
        (membership accepted.db 100 10 20)
        r
unfolding run_all
transition-Effect_example =
    transition-Effect tables 100 admin_accepts_join_request 10 (20 ∷ 22 ∷ []) [] 1 accepted
      accepted_returns 20 refl (omega arith)

transition_frame_example :
    (find_relation 10 21 accepted.db.groups_groups ≡ find_relation 10 21 tables.groups_groups)
    × (find_pending 10 21 accepted.db.group_pending_requests
        ≡ find_pending 10 21 tables.group_pending_requests)
unfolding run_all
transition_frame_example =
    transition_frame tables 100 admin_accepts_join_request 10 (20 ∷ 22 ∷ []) [] 1 accepted
      accepted_returns 10 21 (inr refl)

transition-IsAcyclic_example :
    (is_current 100 (find_relation 10 20 tables.groups_groups) ≡ true)
    ⊎ ((◌≡◌ {A = ℕ} 10 10)
        × (contains (20 ∷ 22 ∷ []) 20 ≡ true)
        × (◌≢◌ {A = ℕ} 20 10)
        × (is_ancestor tables.groups_ancestors 20 10 ≡ false))
unfolding run_all
transition-IsAcyclic_example =
    transition-IsAcyclic tables 100 admin_accepts_join_request 10 (20 ∷ 22 ∷ []) [] 1 accepted
      accepted_returns 10 20 refl

-- The row of the accepted member.
abbrev accepted_row : Relation
accepted_row = record {
  parent_group_id = 10;
  child_group_id = 20;
  expires_at = never;
  personal_info_view_approved_at = some 90;
  lock_membership_approved_at = none;
  watch_approved_at = none;
}

abbrev expired_row : Relation
expired_row = record {
  parent_group_id = 10;
  child_group_id = 21;
  expires_at = 50;
  personal_info_view_approved_at = none;
  lock_membership_approved_at = none;
  watch_approved_at = none;
}

transition-revives_old_approvals_example :
    find_relation 10 21 rejoined.db.groups_groups ≡ some (record expired_row { expires_at = never })
unfolding run_all
transition-revives_old_approvals_example =
    transition-revives_old_approvals tables 100 user_joins_group_by_code 10 (21 ∷ 11 ∷ [])
      ((21, approval) ∷ (11, approval) ∷ []) 21 rejoined rejoined_returns club refl 21 expired_row
      refl refl refl refl

from_string-to_array_example : from_string no_approvals (join (to_array approval)) ≡ approval
from_string-to_array_example = from_string-to_array approval

-- An unknown name is ignored.
from_string-names_example : from_string no_approvals (codes "watch,other") ≡ record {
  personal_info_view_approval =
      false || names (codes "personal_info_view") (split b',' (codes "watch,other"));
  lock_membership_approval =
      false || names (codes "lock_membership") (split b',' (codes "watch,other"));
  watch_approval = false || names (codes "watch") (split b',' (codes "watch,other"));
}
from_string-names_example = from_string-names no_approvals (codes "watch,other")
