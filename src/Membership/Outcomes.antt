-- ===== src/Membership/Outcomes.antt =====
-- What a call of `Transition` leaves in the tables and returns, for any child of any group.
use algorea_backend.Shared.{
  ℕ, ◌≡◌, inl, inr, refl, sym, subst, ◌∙◌, true, false, none, some, is_some, get_or, List, Map,
  lookup, keys, contains-keys, contains, Bool-cases, ◌==◌, ==_refl, if◌then◌else◌, arith,
}
use algorea_backend.Membership.Action.{GroupMembershipAction, pending_type, PendingKind}
use algorea_backend.Membership.Rules.{GroupGroupTransitionAction}
use algorea_backend.Membership.Approvals.{GroupApprovals, StateInfo, no_state}
use algorea_backend.Membership.Tables.{
  Db, Group, Relation, PendingRequest, find_relation, find_pending, is_current, membership, never,
  read_limits,
}
use algorea_backend.Membership.Statements.{
  delete_pending, delete_relations, relation_row, pending_row,
}
use algorea_backend.Membership.StatementLaws.{
  find_pending-delete_pending, find_relation-delete_relations, upserted,
  find_relation-insert_relations, pending_after, insert_pending_total,
}
use algorea_backend.Membership.Transition.{
  Outcome, transition, execute_plan, carry_out, make_plan, read_states,
}
use algorea_backend.Membership.Plan.{Plan}
use algorea_backend.Membership.Decision.{Decision}
use algorea_backend.Membership.Striking.{Describes, IsSilent}
use algorea_backend.Membership.Final.{final_decision, make_plan-Describes, make_plan-IsSilent}
use algorea_backend.Membership.PlanKeys.{make_plan-HasKeys}
use algorea_backend.Membership.Reading.{action-read_states}
use algorea_backend.Membership.Settle.{Keeps}
use algorea_backend.Membership.Rows.{
  final-Keeps, decide_child-Keeps, Keeps-IsSoundDecision, slot_free,
}

relation_row_lem :
    (now p : ℕ) (approvals : Map GroupApprovals) (old_actions : Map StateInfo) (id : ℕ)
    → let r = relation_row now p approvals old_actions id in
      (r.parent_group_id ≡ p) × (r.child_group_id ≡ id) × (r.expires_at ≡ never)
unfolding relation_row
relation_row_lem now p approvals old_actions id = ground arith

module _ (db : Db) (now : ℕ) (action : GroupGroupTransitionAction) (parent : ℕ) (ids : List ℕ)
    (approvals : Map GroupApprovals) (performed_by : ℕ) (g : Group)
    (found : lookup parent db.groups ≡ some g) where
  unfoldable pub the_states : Map StateInfo
  the_states = read_states db now parent ids

  unfoldable pub the_plan : Plan
  the_plan = make_plan db now action parent ids approvals (read_limits now g) the_states

  unfoldable pub the_decision : ℕ → Decision
  the_decision = final_decision db now action parent ids approvals (read_limits now g) the_states

  -- The final plan about a child of the list, from the membership in the tables.
  pub plan-Describes :
      (j : ℕ)
      → contains ids j ≡ true
      → Describes the_plan j (membership db now parent j) (the_decision j)
  unfolding the_states the_plan the_decision
  plan-Describes j h =
      subst (λ o. Describes the_plan j o (the_decision j))
        (action-read_states db now parent ids j h)
        (make_plan-Describes db now action parent ids approvals (read_limits now g) the_states j h)

  pub decision-Keeps :
      (j : ℕ) → contains ids j ≡ true → Keeps action (membership db now parent j) (the_decision j)
  unfolding the_states the_plan the_decision
  decision-Keeps j h =
      subst (λ o. Keeps action o (the_decision j)) (action-read_states db now parent ids j h)
        (final-Keeps action (get_or (lookup j the_states) no_state).action _ _ _
          (decide_child-Keeps (read_limits now g) approvals action parent the_states j))

  pub plan-IsSilent : (j : ℕ) → contains ids j ≡ false → IsSilent the_plan j
  unfolding the_states the_plan
  plan-IsSilent j h =
      make_plan-IsSilent db now action parent ids approvals (read_limits now g) the_states j h

  -- Keys of the plan's rows are free.
  plan_slots :
      (id : ℕ) (to : GroupMembershipAction)
      → lookup id the_plan.ids_to_insert_pending ≡ some to
      → (is_some (pending_type to) ≡ true)
        × (find_pending parent id (
              delete_pending parent (keys the_plan.ids_to_delete_pending) db.group_pending_requests)
            ≡ none)
  unfolding membership
  plan_slots id to h = elim (Bool-cases (contains ids id)) [
    | inr e ↦ cc (h, (plan-IsSilent id e).insert_pending)
    | inl e ↦
        let described = plan-Describes id e in
        let (typed, free) =
          slot_free (is_current now (find_relation parent id db.groups_groups))
            (find_pending parent id db.group_pending_requests) (the_decision id) to
            (Keeps-IsSoundDecision action (membership db now parent id) (the_decision id)
              (decision-Keeps id e))
            (sym described.insert_pending ∙ h) in
        (
          typed,
          rw (find_pending-delete_pending, ==_refl, contains-keys, described.delete_pending) free,
        )
  ]

  unfoldable pub the_relation_row : ℕ → Relation
  the_relation_row = relation_row now parent approvals the_states

  unfoldable pub the_pending_row : ℕ → PendingKind → PendingRequest
  the_pending_row = pending_row now parent approvals

  pub the_relation_row_expires : (id : ℕ) → (the_relation_row id).expires_at ≡ never
  unfolding the_relation_row
  the_relation_row_expires id = (relation_row_lem now parent approvals the_states id).2

  pub the_pending_row_kind : (id : ℕ) (k : PendingKind) → (the_pending_row id k).kind ≡ k
  unfolding the_pending_row pending_row
  the_pending_row_kind id k = refl

  -- What the rows are after the call, and what it returns.
  pub record OutcomeOf (out : Outcome) : Type 0 where
    pub results : out.results ≡ the_plan.results
    pub pending :
        (q c : ℕ)
        → find_pending q c out.db.group_pending_requests ≡ (
            if parent == q
            then pending_after (the_pending_row c) (lookup c the_plan.ids_to_insert_pending) (
                if is_some (lookup c the_plan.ids_to_delete_pending)
                then none
                else find_pending q c db.group_pending_requests)
            else find_pending q c db.group_pending_requests)
    pub relation :
        (q c : ℕ)
        → find_relation q c out.db.groups_groups ≡ (
            if parent == q
            then (if is_some (lookup c the_plan.ids_to_insert_relation)
                then upserted (the_relation_row c) (
                    if is_some (lookup c the_plan.ids_to_delete_relation)
                    then none
                    else find_relation q c db.groups_groups)
                else if is_some (lookup c the_plan.ids_to_delete_relation)
                then none
                else find_relation q c db.groups_groups)
            else find_relation q c db.groups_groups)

  -- The call succeeds: no statement violates a primary key.
  pub transition_total :
      (out : Outcome) × (transition db now action parent ids approvals performed_by ≡ some out)
      × OutcomeOf out
  unfolding transition execute_plan pending_row carry_out the_states the_plan the_relation_row
      the_pending_row
  transition_total =
      let cleared =
        delete_pending parent (keys the_plan.ids_to_delete_pending) db.group_pending_requests in
      let unlinked =
        delete_relations parent (keys the_plan.ids_to_delete_relation) db.groups_groups in
      let (pending, done, rows) =
        insert_pending_total the_pending_row parent (λ id k. refl) (λ id k. refl)
          the_plan.ids_to_insert_pending cleared
          (make_plan-HasKeys db now action parent ids approvals (read_limits now g) the_states)
          plan_slots in
      (
        carry_out db now parent approvals performed_by (read_limits now g) the_states the_plan
            pending,
        rw (found, transition, execute_plan, done),
        record {
          results = refl;
          pending = λ q c. ground (
            arith,
            rows q c,
            find_pending-delete_pending parent (keys the_plan.ids_to_delete_pending) q c
                db.group_pending_requests,
            contains-keys c the_plan.ids_to_delete_pending,
          );
          relation = λ q c. ground (
            arith,
            find_relation-insert_relations the_relation_row parent
                (λ id. (relation_row_lem now parent approvals the_states id).0)
                (λ id. (relation_row_lem now parent approvals the_states id).1)
                (λ id. (relation_row_lem now parent approvals the_states id).2)
                (keys the_plan.ids_to_insert_relation) q c unlinked,
            find_relation-delete_relations parent (keys the_plan.ids_to_delete_relation) q c
                db.groups_groups,
            contains-keys c the_plan.ids_to_delete_relation,
            contains-keys c the_plan.ids_to_insert_relation,
          );
        },
      )
