-- ===== src/Membership/Origin.antt =====
-- Where the moves of the final plan come from: `buildTransitionsPlan` decided on them, and
-- `performCyclesChecking` let them pass.
use algorea_backend.Shared.{
  ℕ, ◌≡◌, ◌⊎◌, inl, inr, refl, subst, ap, ◌∙◌, Bool, true, false, ◌&&◌, ◌||◌, not, some, is_some,
  get_or, List, Map, lookup, contains, Bool-cases, Option-cases, ◌==◌, if◌then◌else◌, arith,
}
use algorea_backend.Membership.Action.{
  GroupMembershipAction, no_relation, is_active, has_approvals, action_eq,
}
use algorea_backend.Membership.Rules.{
  GroupGroupTransitionAction, GroupGroupTransitionResult, transitions, downgrade_to,
  approvals_missing,
}
use algorea_backend.Membership.Approvals.{
  GroupApprovals, no_approvals, StateInfo, no_state, RequiredApprovalsAndLimits, approvals_ok,
  approvals_to_check, missing_approvals,
}
use algorea_backend.Membership.Tables.{Db, Group, membership, read_limits}
use algorea_backend.Membership.Statements.{relation_row}
use algorea_backend.Membership.Decision.{
  Decision, refused, moves, decide_child, decide, decide_transition, decide_target, changed_of,
  check_cycle_of,
}
use algorea_backend.Membership.Striking.{check_cycle, check_full, is_ancestor}
use algorea_backend.Membership.Reading.{action-read_states}
use algorea_backend.Membership.Outcomes.{the_states, the_decision}

passed_full :
    (is_full : Bool) (old : GroupMembershipAction) (d : Decision) (to : GroupMembershipAction)
    → check_full is_full old d ≡ moves to
    → d ≡ moves to
unfolding check_full
passed_full is_full old d to h = elim (Bool-cases (is_some (changed_of old d) && is_full)) [
  | inl e ↦ cc (rw (e, check_full) at h)
  | inr e ↦ rw (e, check_full) at h
]

passed_cycle :
    (is_cycle : Bool) (old : GroupMembershipAction) (d : Decision) (to : GroupMembershipAction)
    → check_cycle is_cycle old d ≡ moves to
    → (d ≡ moves to) × ((is_some (check_cycle_of old d) && is_cycle) ≡ false)
unfolding check_cycle
passed_cycle is_cycle old d to h = elim (Bool-cases (is_some (check_cycle_of old d) && is_cycle)) [
  | inl e ↦ cc (rw (e, check_cycle) at h)
  | inr e ↦ (rw (e, check_cycle) at h, e)
]

not_parent :
    (limits : RequiredApprovalsAndLimits) (approvals : Map GroupApprovals)
    (act : GroupGroupTransitionAction) (parent : ℕ) (states : Map StateInfo) (id : ℕ)
    (to : GroupMembershipAction)
    → decide_child limits approvals act parent states id ≡ moves to
    → ((id == parent) ≡ false)
      × (decide limits
            (get_or (lookup id approvals) no_approvals)
            act
            (get_or (lookup id states) no_state)
          ≡ moves to)
unfolding decide_child
not_parent limits approvals act parent states id to h = elim (Bool-cases (id == parent)) [
  | inl e ↦ cc (rw (e, decide_child) at h)
  | inr e ↦ (e, rw (e, decide_child) at h)
]

-- A move that was checked for approvals has them, or is the downgrade.
checked_or_down :
    (checked ok downgrades : Bool) (t down to : GroupMembershipAction)
    (missing : GroupGroupTransitionResult)
    → (if checked
        then (if ok then moves t else if downgrades then moves down else refused missing)
        else moves t)
      ≡ moves to
    → ((t ≡ to) × ((not checked || ok) ≡ true)) ⊎ (down ≡ to)
checked_or_down false ok downgrades t down to missing h = inl (cc, refl)
checked_or_down true true downgrades t down to missing h = inl (cc, refl)
checked_or_down true false true t down to missing h = inr (cc)
checked_or_down true false false t down to missing h = cc

inactive_downgrade : (act : GroupGroupTransitionAction) → is_active (downgrade_to act) ≡ false
unfolding downgrade_to
inactive_downgrade act = ground arith

needs_ok :
    (a b c ok : Bool) → a ≡ true → b ≡ false → (not (a && not b || c) || ok) ≡ true → ok ≡ true
needs_ok a b c ok p q h = ground arith

-- Whoever becomes a member has given the approvals that the group requires.
pub joins_with_approvals :
    (limits : RequiredApprovalsAndLimits) (given : GroupApprovals)
    (act : GroupGroupTransitionAction) (old : StateInfo) (to : GroupMembershipAction)
    → decide limits given act old ≡ moves to
    → is_active to ≡ true
    → is_active old.action ≡ false
    → (approvals_ok old limits given).0 ≡ true
unfolding decide decide_transition decide_target
joins_with_approvals limits given act old to h active inactive =
    elim (Option-cases (transitions act old.action)) [
      | inl e ↦ cc (rw (e, decide, decide_transition) at h)
      | inr (t, e) ↦
          elim (checked_or_down (is_active t && not (is_active old.action) || has_approvals t)
            (approvals_ok old limits given).0 (not (action_eq (downgrade_to act) no_relation)) t
            (downgrade_to act) to approvals_missing (rw (e, decide, decide_transition) at h)) [
              | inl (same, ok) ↦
                  needs_ok (is_active t) (is_active old.action) (has_approvals t) _
                    (ap is_active same ∙ active) inactive ok
              | inr down ↦ cc (inactive_downgrade act, ap is_active down, active)
            ]
    ]

module _ (db : Db) (now : ℕ) (action : GroupGroupTransitionAction) (parent : ℕ) (ids : List ℕ)
    (approvals : Map GroupApprovals) (performed_by : ℕ) (g : Group)
    (found : lookup parent db.groups ≡ some g) where
  abbrev pub given_for : ℕ → GroupApprovals
  given_for j = get_or (lookup j approvals) no_approvals

  abbrev pub state_of : ℕ → StateInfo
  state_of j =
      get_or (lookup j (the_states db now action parent ids approvals performed_by g found))
        no_state

  pub decision_origin :
      (j : ℕ) (to : GroupMembershipAction)
      → contains ids j ≡ true
      → the_decision db now action parent ids approvals performed_by g found j ≡ moves to
      → ((j == parent) ≡ false)
        × (decide (read_limits now g) (given_for j) action (state_of j) ≡ moves to)
        × ((is_some (check_cycle_of (membership db now parent j) (moves to))
              && is_ancestor db.groups_ancestors j parent)
            ≡ false)
  unfolding the_decision the_states
  decision_origin j to h moved =
      let old = (state_of j).action in
      let (moved', unchecked) = passed_cycle _ old _ to (passed_full _ old _ to moved) in
      let (other, decided) =
        not_parent (read_limits now g) approvals action parent
          (the_states db now action parent ids approvals performed_by g found) j to moved' in
      (
        other,
        decided,
        subst
            (λ o.
              (is_some (check_cycle_of o (moves to)) && is_ancestor db.groups_ancestors j parent)
              ≡ false)
            (action-read_states db now parent ids j h)
            (subst
              (λ d.
                (is_some (check_cycle_of old d) && is_ancestor db.groups_ancestors j parent)
                ≡ false)
              moved' unchecked),
      )

-- The approvals that the code checks are those that it writes into the new row.
pub approvals_written :
    (now p : ℕ) (approvals : Map GroupApprovals) (states : Map StateInfo) (id : ℕ)
    → let r = relation_row now p approvals states id in
      let checked =
        approvals_to_check
          (get_or (lookup id states) no_state)
          (get_or (lookup id approvals) no_approvals) in
      (is_some r.personal_info_view_approved_at ≡ checked.personal_info_view_approval)
      × (is_some r.lock_membership_approved_at ≡ checked.lock_membership_approval)
      × (is_some r.watch_approved_at ≡ checked.watch_approval)
unfolding relation_row approvals_to_check
approvals_written now p approvals states id = ground arith

-- Nothing required is missing.
pub none_missing :
    (limits : RequiredApprovalsAndLimits) (given : GroupApprovals) (old : StateInfo)
    → (approvals_ok old limits given).0 ≡ true
    → let checked = approvals_to_check old given in
      (limits.require_personal_info_access_approval ≡ true
        → checked.personal_info_view_approval ≡ true)
      × (limits.require_lock_membership_approval ≡ true → checked.lock_membership_approval ≡ true)
      × (limits.require_watch_approval ≡ true → checked.watch_approval ≡ true)
unfolding approvals_ok missing_approvals
none_missing limits given old h = (λ r. ground arith, λ r. ground arith, λ r. ground arith)
