-- ===== src/Membership/PlanKeys.antt =====
-- A plan never has two entries for one pending request: the rows that it inserts have different
-- keys.
use algorea_backend.Shared.{
  ℕ, Bool, true, false, ◌&&◌, ◌||◌, not, List, [], ◌∷◌, Map, lookup, keys, insert-Distinct,
  delete-Distinct, Distinct, get_or, ◌==◌, if◌then◌else◌, Option-cases, Bool-cases, inl, inr,
}
use algorea_backend.Membership.Action.{
  GroupMembershipAction, no_relation, action_eq, is_active, is_pending, has_approvals,
}
use algorea_backend.Membership.Rules.{
  GroupGroupTransitionAction, transitions, downgrade_to, GroupGroupTransitionResult, invalid,
  unchanged, cycle, full,
}
use algorea_backend.Membership.Approvals.{
  GroupApprovals, no_approvals, StateInfo, no_state, RequiredApprovalsAndLimits, approvals_ok,
}
use algorea_backend.Membership.Tables.{Db}
use algorea_backend.Membership.Plan.{
  Plan, empty_plan, insert_when, set_result, build_one_transition, plan_transition, plan_child,
  build_transitions_plan, delete_id_from_plan, delete_ids_from_transition_plan,
}
use algorea_backend.Membership.Transition.{
  cycle_ids, perform_cycles_checking, exceeds_max_size, enforce_max_size, make_plan,
}

abbrev HasKeys : Plan → Type 0
HasKeys p = Distinct p.ids_to_insert_pending

HasKeys-if : (b : Bool) (p q : Plan) → HasKeys p → HasKeys q → HasKeys (if b then p else q)
HasKeys-if true p q h k = h
HasKeys-if false p q h k = k

insert_when-Distinct {ℓ} :
    {V : Type ℓ} (b : Bool) (k : ℕ) (v : V) (m : Map V)
    → Distinct m
    → Distinct (insert_when b k v m)
insert_when-Distinct true k v m d = insert-Distinct k v m d
insert_when-Distinct false k v m d = d

build_one_transition-HasKeys :
    (id : ℕ) (old to : GroupMembershipAction) (p : Plan)
    → HasKeys p
    → HasKeys (build_one_transition id old to p)
unfolding build_one_transition
build_one_transition-HasKeys id old to p h =
    HasKeys-if (not (action_eq to old)) _ (set_result id unchanged p)
      (insert_when-Distinct (is_pending to) id to p.ids_to_insert_pending h) h

module _ (limits : RequiredApprovalsAndLimits) (approvals : Map GroupApprovals)
    (action : GroupGroupTransitionAction) where
  plan_transition-HasKeys :
      (id : ℕ) (old : StateInfo) (to : GroupMembershipAction) (p : Plan)
      → HasKeys p
      → HasKeys (plan_transition limits approvals action id old to p)
  unfolding plan_transition
  plan_transition-HasKeys id old to p h =
      let given = get_or (lookup id approvals) no_approvals in
      let (ok, needed) = approvals_ok old limits given in
      let down = downgrade_to action in
      let direct = build_one_transition id old.action to p in
      let lower = build_one_transition id old.action down p in
      let moved = build_one_transition-HasKeys id old.action to p h in
      HasKeys-if (is_active to && not (is_active old.action) || has_approvals to)
        (if ok then direct else if not (action_eq down no_relation) then lower else _) direct
        (HasKeys-if ok direct (if not (action_eq down no_relation) then lower else _) moved (
          HasKeys-if (not (action_eq down no_relation)) lower _
            (build_one_transition-HasKeys id old.action down p h) h))
        moved

  module _ (parent : ℕ) (old_actions : Map StateInfo) where
    plan_child-HasKeys :
        (p : Plan) (id : ℕ)
        → HasKeys p
        → HasKeys (plan_child limits approvals action parent old_actions p id)
    unfolding plan_child
    plan_child-HasKeys p id h =
        let old = get_or (lookup id old_actions) no_state in
        elim (Bool-cases (id == parent)) [
          | inl e ↦ rw e h
          | inr e ↦ elim (Option-cases (transitions action old.action)) [
            | inl n ↦ rw (e, n, plan_child) h
            | inr (to, n) ↦
                rw (e, n, plan_child)
                  (plan_transition-HasKeys id old to (set_result id invalid p) h)
          ]
        ]

    build_transitions_plan-HasKeys :
        (p : Plan) (ids : List ℕ)
        → HasKeys p
        → HasKeys (build_transitions_plan limits approvals action parent old_actions p ids)
    unfolding build_transitions_plan
    build_transitions_plan-HasKeys p [] h = h
    build_transitions_plan-HasKeys p (id ∷ ids) h =
        build_transitions_plan-HasKeys (plan_child limits approvals action parent old_actions p id)
          ids (plan_child-HasKeys p id h)

delete_ids-HasKeys :
    (ids : List ℕ) (status : GroupGroupTransitionResult) (p : Plan)
    → HasKeys p
    → HasKeys (delete_ids_from_transition_plan ids status p)
unfolding delete_ids_from_transition_plan delete_id_from_plan
delete_ids-HasKeys [] status p h = h
delete_ids-HasKeys (id ∷ ids) status p h =
    delete_ids-HasKeys ids status (delete_id_from_plan status p id)
      (delete-Distinct id p.ids_to_insert_pending h)

pub make_plan-HasKeys :
    (db : Db) (now : ℕ) (action : GroupGroupTransitionAction) (parent : ℕ) (ids : List ℕ)
    (approvals : Map GroupApprovals) (limits : RequiredApprovalsAndLimits)
    (old_actions : Map StateInfo)
    → Distinct
        (make_plan db now action parent ids approvals limits old_actions).ids_to_insert_pending
unfolding make_plan enforce_max_size perform_cycles_checking
make_plan-HasKeys db now action parent ids approvals limits old_actions =
    let p = build_transitions_plan limits approvals action parent old_actions empty_plan ids in
    let p' = perform_cycles_checking db parent p in
    let h =
      delete_ids-HasKeys (cycle_ids parent (keys p.ids_to_check_cycle) db.groups_ancestors) cycle p
        (build_transitions_plan-HasKeys limits approvals action parent old_actions empty_plan ids
          tt) in
    HasKeys-if (exceeds_max_size db now action parent limits p')
      (delete_ids_from_transition_plan (keys p'.ids_changed) full p') p'
      (delete_ids-HasKeys (keys p'.ids_changed) full p' h) h
