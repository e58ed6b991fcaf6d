-- ===== src/Membership/Refinement.antt =====
-- `Transition` on the tables refines the abstract state machine of Membership/Settle.antt.
use algorea_backend.Shared.{
  ℕ, ◌≡◌, ◌<◌, inl, inr, sym, subst, ap, ap₂, ◌∙◌, true, false, some, List, Map, lookup, contains,
  Bool-cases, Option-cases, ==_refl, if◌then◌else◌, arith,
}
use algorea_backend.Membership.Action.{GroupMembershipAction, action_eq}
use algorea_backend.Membership.Rules.{
  GroupGroupTransitionAction, GroupGroupTransitionResult, cycle, invalid, approvals_missing, full,
  success, unchanged,
}
use algorea_backend.Membership.Approvals.{GroupApprovals}
use algorea_backend.Membership.Tables.{
  Db, Group, find_relation, find_pending, is_current, concat_actions, kind_of, membership, never,
}
use algorea_backend.Membership.Transition.{Outcome, transition}
use algorea_backend.Membership.Decision.{
  Decision, refused, moves, result_of, insert_pending_of, delete_pending_of, insert_relation_of,
  delete_relation_of,
}
use algorea_backend.Membership.Settle.{
  settle, Leads, Effect, Leads-is_sound, active_after, kind_after, tables-settle, Keeps,
}
use algorea_backend.Membership.Rows.{
  slot_free, kind-pending_after, current-upserted, Keeps-IsSoundDecision,
}
use algorea_backend.Membership.Outcomes.{
  OutcomeOf, plan-Describes, decision-Keeps, transition_total, the_decision, the_relation_row,
  the_relation_row_expires, the_pending_row, the_pending_row_kind,
}

action_eq-eq : (a b : GroupMembershipAction) → action_eq a b ≡ true → a ≡ b
action_eq-eq a b h = ground arith

action_eq_refl : (a : GroupMembershipAction) → action_eq a a ≡ true
action_eq_refl a = ==_refl _

refused-Effect :
    (act : GroupGroupTransitionAction) (before after : GroupMembershipAction)
    (r : GroupGroupTransitionResult)
    → Keeps act before (refused r)
    → after ≡ before
    → Effect act before after r
refused-Effect act before after cycle k e = e
refused-Effect act before after invalid k e = e
refused-Effect act before after approvals_missing k e = e
refused-Effect act before after full k e = e
refused-Effect act before after success k e = elim k [ ]
refused-Effect act before after unchanged k e = elim k [ ]

-- A move whose rows settle as `tables-settle` says has the effect of its result.
moved-Effect :
    (act : GroupGroupTransitionAction) (before after to : GroupMembershipAction)
    → Leads act before to
    → after ≡ (if action_eq to before then before else settle to)
    → Effect act before after (result_of before (moves to))
moved-Effect act before after to leads e = elim (Bool-cases (action_eq to before)) [
  | inl same ↦ rw same (rw same at e, subst (Leads act before) (action_eq-eq to before same) leads)
  | inr differs ↦ rw differs (
    to,
    leads,
    (λ p. cc (subst (λ x. action_eq to x ≡ false) (sym p) differs, action_eq_refl to)),
    rw differs at e,
  )
]

same_outcome : (a b : Outcome) → some a ≡ some b → a ≡ b
same_outcome a b h = cc

module _ (db : Db) (now : ℕ) (action : GroupGroupTransitionAction) (parent : ℕ) (ids : List ℕ)
    (approvals : Map GroupApprovals) (performed_by : ℕ) (out : Outcome)
    (returned : transition db now action parent ids approvals performed_by ≡ some out) where
  -- A call that returns leaves the rows of its plan.
  pub outcome_for :
      (g : Group) (found : lookup parent db.groups ≡ some g)
      → OutcomeOf db now action parent ids approvals performed_by g found out
  outcome_for g found =
      let (out', done, rows) =
        transition_total db now action parent ids approvals performed_by g found in
      subst (OutcomeOf db now action parent ids approvals performed_by g found)
        (same_outcome out' out (sym done ∙ returned)) rows

  -- A call that returns has found its group.
  pub returned_lem :
      (g : Group) × (found : lookup parent db.groups ≡ some g) × OutcomeOf db now action parent ids
        approvals performed_by g found out
  unfolding transition
  returned_lem = elim (Option-cases (lookup parent db.groups)) [
    | inl e ↦ cc (rw (e, transition) at returned)
    | inr (g, e) ↦ (g, e, outcome_for g e)
  ]

  -- The decision about a child of the list, its result, and what becomes of its rows.
  pub child_lem :
      (j : ℕ)
      → contains ids j ≡ true
      → now < never
      → (d : Decision) × Keeps action (membership db now parent j) d
        × (lookup j out.results ≡ some (result_of (membership db now parent j) d))
        × (membership out.db now parent j
            ≡ concat_actions
                (active_after
                  (insert_relation_of (membership db now parent j) d)
                  (delete_relation_of (membership db now parent j) d)
                  (is_current now (find_relation parent j db.groups_groups)))
                (kind_after
                  (insert_pending_of (membership db now parent j) d)
                  (delete_pending_of (membership db now parent j) d)
                  (kind_of (find_pending parent j db.group_pending_requests))))
  unfolding membership
  child_lem j h later =
      let (g, found, rows) = returned_lem in
      let d = the_decision db now action parent ids approvals performed_by g found j in
      let old = membership db now parent j in
      let described = plan-Describes db now action parent ids approvals performed_by g found j h in
      let keeps = decision-Keeps db now action parent ids approvals performed_by g found j h in
      let r = find_relation parent j db.groups_groups in
      let p = find_pending parent j db.group_pending_requests in
      let current : is_current now (find_relation parent j out.db.groups_groups)
          ≡ active_after (insert_relation_of old d) (delete_relation_of old d) (is_current now r) =
        rw
          (
            rows.relation parent j,
            ==_refl parent,
            described.insert_relation,
            described.delete_relation,
          )
          (current-upserted now
            (the_relation_row db now action parent ids approvals performed_by g found j)
            (insert_relation_of old d) (delete_relation_of old d) r later
            (the_relation_row_expires db now action parent ids approvals performed_by g found j)) in
      let kind : kind_of (find_pending parent j out.db.group_pending_requests)
          ≡ kind_after (insert_pending_of old d) (delete_pending_of old d) (kind_of p) =
        rw
          (
            rows.pending parent j,
            ==_refl parent,
            described.insert_pending,
            described.delete_pending,
          )
          (kind-pending_after
            (the_pending_row db now action parent ids approvals performed_by g found j)
            (the_pending_row_kind db now action parent ids approvals performed_by g found j)
            (insert_pending_of old d) (delete_pending_of old d) p
            (λ to e.
              (slot_free (is_current now r) p d to (Keeps-IsSoundDecision action old d keeps)
                e).0)) in
      (d, keeps, ap (lookup j) rows.results ∙ described.result, ap₂ concat_actions current kind)

-- After a call of `Transition` that returns, at a time before '9999-12-31 23:59:59', each child
-- group of the list has a result, and its membership in the tables is what the result says: after
-- `success` it is what the target of a transition allowed by the rules (directly, or by the
-- downgrade for missing approvals) settles to; after `unchanged` it is what it was, and the rules
-- lead to it; after any other result it is what it was.
pub transition-Effect :
    (db : Db) (now : ℕ) (action : GroupGroupTransitionAction) (parent : ℕ) (ids : List ℕ)
    (approvals : Map GroupApprovals) (performed_by : ℕ) (out : Outcome)
    → transition db now action parent ids approvals performed_by ≡ some out
    → (j : ℕ) → contains ids j ≡ true
    → now < never
    → (r : GroupGroupTransitionResult) × (lookup j out.results ≡ some r)
      × Effect action (membership db now parent j) (membership out.db now parent j) r
unfolding membership
transition-Effect db now action parent ids approvals performed_by out returned j h later =
    let (d, keeps, result, after) =
      child_lem db now action parent ids approvals performed_by out returned j h later in
    (result_of (membership db now parent j) d, result, effect d keeps after)
  where
    effect :
        (d : Decision)
        → Keeps action (membership db now parent j) d
        → membership out.db now parent j
          ≡ concat_actions
              (active_after
                (insert_relation_of (membership db now parent j) d)
                (delete_relation_of (membership db now parent j) d)
                (is_current now (find_relation parent j db.groups_groups)))
              (kind_after
                (insert_pending_of (membership db now parent j) d)
                (delete_pending_of (membership db now parent j) d)
                (kind_of (find_pending parent j db.group_pending_requests)))
        → Effect action
            (membership db now parent j)
            (membership out.db now parent j)
            (result_of (membership db now parent j) d)
    effect (refused r) k e = refused-Effect action _ _ r k e
    effect (moves to) k e =
        moved-Effect action (membership db now parent j) (membership out.db now parent j) to k (
          e
          ∙ tables-settle (is_current now (find_relation parent j db.groups_groups))
              (kind_of (find_pending parent j db.group_pending_requests)) to
              (Leads-is_sound action (membership db now parent j) to k))
