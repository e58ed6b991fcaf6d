-- ===== src/Membership/Plan.antt =====
-- `buildTransitionsPlan`, `buildOneTransition` and `deleteIDsFromTransitionPlan`
-- (app/database/group_group_store_transitions.go). The maps that the Go functions pass around are
-- the fields of one record.
use algorea_backend.Shared.{
  ℕ, Bool, true, false, ◌&&◌, ◌||◌, not, none, some, List, [], ◌∷◌, Map, lookup, insert, delete,
  get_or, ◌==◌, if◌then◌else◌,
}
use algorea_backend.Membership.Action.{
  GroupMembershipAction, no_relation, action_eq, is_active, is_pending, has_approvals,
}
use algorea_backend.Membership.Rules.{
  GroupGroupTransitionAction, transitions, downgrade_to, GroupGroupTransitionResult, invalid,
  approvals_missing, success, unchanged,
}
use algorea_backend.Membership.Approvals.{
  GroupApprovals, no_approvals, is_empty, StateInfo, no_state, RequiredApprovalsAndLimits,
  approvals_ok,
}

pub record Plan : Type 0 where
  pub results : Map GroupGroupTransitionResult
  pub approvals_to_request : Map GroupApprovals
  pub ids_to_insert_pending : Map GroupMembershipAction
  pub ids_to_insert_relation : Map Bool
  pub ids_to_check_cycle : Map Bool
  pub ids_to_delete_pending : Map Bool
  pub ids_to_delete_relation : Map Bool
  pub ids_changed : Map GroupMembershipAction

abbrev pub empty_plan : Plan
empty_plan = record {
  results = [];
  approvals_to_request = [];
  ids_to_insert_pending = [];
  ids_to_insert_relation = [];
  ids_to_check_cycle = [];
  ids_to_delete_pending = [];
  ids_to_delete_relation = [];
  ids_changed = [];
}

-- `m[id] = v` under a condition.
abbrev pub insert_when {ℓ} : {V : Type ℓ} → Bool → ℕ → V → Map V → Map V
insert_when true id v m = insert id v m
insert_when false id v m = m

abbrev pub set_result : ℕ → GroupGroupTransitionResult → Plan → Plan
set_result id r p = record p { results = insert id r p.results }

-- `buildOneTransition`.
unfoldable pub build_one_transition :
    ℕ → GroupMembershipAction → GroupMembershipAction → Plan → Plan
build_one_transition id old to p =
    if not (action_eq to old)
    then record p {
      ids_changed = insert_when (not (action_eq to no_relation)) id to p.ids_changed;
      results = insert id success p.results;
      ids_to_delete_relation =
          insert_when (is_active old && not (is_active to)) id true p.ids_to_delete_relation;
      ids_to_insert_relation =
          insert_when (not (is_active old) && is_active to) id true p.ids_to_insert_relation;
      ids_to_check_cycle =
          insert_when (not (is_active old) && (is_active to || is_pending to)) id true
            p.ids_to_check_cycle;
      ids_to_delete_pending = insert_when (is_pending old) id true p.ids_to_delete_pending;
      ids_to_insert_pending = insert_when (is_pending to) id to p.ids_to_insert_pending;
    }
    else set_result id unchanged p

module _ (limits : RequiredApprovalsAndLimits) (approvals : Map GroupApprovals)
    (action : GroupGroupTransitionAction) where
  -- The branch of the loop that finds a transition to `to`.
  unfoldable pub plan_transition : ℕ → StateInfo → GroupMembershipAction → Plan → Plan
  plan_transition id old to p =
      if is_active to && not (is_active old.action) || has_approvals to
      then (let (ok, needed) =
            approvals_ok old limits (get_or (lookup id approvals) no_approvals) in
          if ok
          then build_one_transition id old.action to p
          else if not (action_eq (downgrade_to action) no_relation)
          then build_one_transition id old.action (downgrade_to action) p
          else record p {
            results = insert id approvals_missing p.results;
            approvals_to_request =
                insert_when (not (is_empty needed)) id needed p.approvals_to_request;
          })
      else build_one_transition id old.action to p

  module _ (parent_group_id : ℕ) (old_actions : Map StateInfo) where
    -- The body of the loop of `buildTransitionsPlan`.
    unfoldable pub plan_child : Plan → ℕ → Plan
    plan_child p id =
        let p' = set_result id invalid p in
        let old = get_or (lookup id old_actions) no_state in
        if id == parent_group_id then p' else elim (transitions action old.action) [
          | none ↦ p'
          | some to ↦ plan_transition id old to p'
        ]

    -- `buildTransitionsPlan`.
    unfoldable pub build_transitions_plan : Plan → List ℕ → Plan
    build_transitions_plan p [] = p
    build_transitions_plan p (id ∷ ids) = build_transitions_plan (plan_child p id) ids

-- One round of `deleteIDsFromTransitionPlan`.
unfoldable pub delete_id_from_plan : GroupGroupTransitionResult → Plan → ℕ → Plan
delete_id_from_plan status p id = record p {
  results = insert id status p.results;
  ids_to_insert_relation = delete id p.ids_to_insert_relation;
  ids_to_insert_pending = delete id p.ids_to_insert_pending;
  ids_to_delete_pending = delete id p.ids_to_delete_pending;
  ids_to_delete_relation = delete id p.ids_to_delete_relation;
  ids_changed = delete id p.ids_changed;
}

unfoldable pub delete_ids_from_transition_plan : List ℕ → GroupGroupTransitionResult → Plan → Plan
delete_ids_from_transition_plan [] status p = p
delete_ids_from_transition_plan (id ∷ ids) status p =
    delete_ids_from_transition_plan ids status (delete_id_from_plan status p id)
