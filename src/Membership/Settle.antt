-- ===== src/Membership/Settle.antt =====
-- The abstract state machine of memberships: what a transition of the rules means for the
-- membership of a child, whatever the tables do.
use algorea_backend.Shared.{
  ◌≡◌, ◌≢◌, ◌⊎◌, inl, inr, refl, subst, ap, Option-cases, ◌∙◌, Bool, true, false, ◌&&◌, ◌||◌, not,
  Option, none, some, is_some, if◌then◌else◌, arith,
}
use algorea_backend.Membership.Action.{
  GroupMembershipAction, invitation_created, join_request_created, invitation_accepted,
  join_request_accepted, joined_by_badge, joined_by_code, is_member, leave_request_created,
  leave_request_expired, leave_request_refused, leave_request_withdrawn, no_relation, other,
  PendingKind, invitation, join_request, leave_request, action_eq, is_active, pending_type,
  has_approvals,
}
use algorea_backend.Membership.Rules.{
  GroupGroupTransitionAction, transitions, downgrade_to, GroupGroupTransitionResult, invalid,
  approvals_missing, success, unchanged,
}
use algorea_backend.Membership.Approvals.{
  GroupApprovals, StateInfo, RequiredApprovalsAndLimits, approvals_ok,
}
use algorea_backend.Membership.Tables.{concat_actions}
use algorea_backend.Membership.Decision.{
  Decision, refused, moves, decide_target, decide_transition, decide, insert_pending_of,
  delete_pending_of, insert_relation_of, delete_relation_of,
}

-- The membership in which an action leaves the child.
abbrev pub settle : GroupMembershipAction → GroupMembershipAction
settle invitation_created = invitation_created
settle join_request_created = join_request_created
settle leave_request_created = leave_request_created
settle leave_request_expired = leave_request_expired
settle invitation_accepted = is_member
settle join_request_accepted = is_member
settle joined_by_badge = is_member
settle joined_by_code = is_member
settle is_member = is_member
settle leave_request_refused = is_member
settle leave_request_withdrawn = is_member
settle other = other
settle _ = no_relation

-- The rules let an action lead from one membership to `to`, directly or by the downgrade.
abbrev pub Leads :
    GroupGroupTransitionAction → GroupMembershipAction → GroupMembershipAction → Type 0
Leads act before to =
    (transitions act before ≡ some to)
    ⊎ ((is_some (transitions act before) ≡ true) × (downgrade_to act ≡ to) × (to ≢ no_relation))

-- What a result promises of the membership before and after.
abbrev pub Effect :
    GroupGroupTransitionAction
    → GroupMembershipAction
    → GroupMembershipAction
    → GroupGroupTransitionResult
    → Type 0
Effect act before after success =
    (to : GroupMembershipAction) × Leads act before to × (to ≢ before) × (after ≡ settle to)
Effect act before after unchanged = (after ≡ before) × Leads act before before
Effect act before after _ = after ≡ before

abbrev pub is_sound : GroupMembershipAction → Option GroupMembershipAction → Bool
is_sound before none = true
is_sound other (some to) = false
is_sound before (some leave_request_expired) = false
is_sound before (some other) = false
is_sound before (some to) = true

rules_sound :
    (act : GroupGroupTransitionAction) (before : GroupMembershipAction)
    → is_sound before (transitions act before) ≡ true
unfolding transitions
rules_sound act before = ground arith

branch_taken :
    (checked ok downgrades : Bool) (to down t : GroupMembershipAction)
    (missing : GroupGroupTransitionResult)
    → (if checked
        then (if ok then moves to else if downgrades then moves down else refused missing)
        else moves to)
      ≡ moves t
    → (to ≡ t) ⊎ ((downgrades ≡ true) × (down ≡ t))
branch_taken false ok downgrades to down t missing h = inl (cc)
branch_taken true true downgrades to down t missing h = inl (cc)
branch_taken true false true to down t missing h = inr (refl, cc)
branch_taken true false false to down t missing h = cc

kept :
    (down t : GroupMembershipAction)
    → not (action_eq down no_relation) ≡ true
    → down ≡ t
    → t ≢ no_relation
kept down t h e n = ground arith

pub decide-Leads :
    (limits : RequiredApprovalsAndLimits) (given : GroupApprovals)
    (act : GroupGroupTransitionAction) (old : StateInfo) (to : GroupMembershipAction)
    → decide limits given act old ≡ moves to
    → Leads act old.action to
unfolding decide decide_transition decide_target
decide-Leads limits given act old t h = elim (Option-cases (transitions act old.action)) [
  | inl e ↦ ground arith
  | inr (to, e) ↦
      elim (branch_taken (is_active to && not (is_active old.action) || has_approvals to)
        (approvals_ok old limits given).0 (not (action_eq (downgrade_to act) no_relation)) to
        (downgrade_to act) t approvals_missing (rw (e, decide, decide_transition) at h)) [
          | inl same ↦ inl (e ∙ ap some same)
          | inr (down, same) ↦ inr (rw e, same, kept _ t down same)
        ]
]

branch_refused :
    (checked ok downgrades : Bool) (to down : GroupMembershipAction)
    (missing r : GroupGroupTransitionResult)
    → (if checked
        then (if ok then moves to else if downgrades then moves down else refused missing)
        else moves to)
      ≡ refused r
    → missing ≡ r
branch_refused false ok downgrades to down missing r h = cc
branch_refused true true downgrades to down missing r h = cc
branch_refused true false true to down missing r h = cc
branch_refused true false false to down missing r h = cc

-- A decision keeps to the rules: a move is led to by them, and a refusal is no success.
abbrev pub Keeps : GroupGroupTransitionAction → GroupMembershipAction → Decision → Type 0
Keeps act old (refused success) = ⊥
Keeps act old (refused unchanged) = ⊥
Keeps act old (refused r) = Unit {0}
Keeps act old (moves to) = Leads act old to

decide-refusal :
    (limits : RequiredApprovalsAndLimits) (given : GroupApprovals)
    (act : GroupGroupTransitionAction) (old : StateInfo) (r : GroupGroupTransitionResult)
    → decide limits given act old ≡ refused r
    → (invalid ≡ r) ⊎ (approvals_missing ≡ r)
unfolding decide decide_transition decide_target
decide-refusal limits given act old r h = elim (Option-cases (transitions act old.action)) [
  | inl e ↦ inl (cc (rw (e, decide, decide_transition) at h))
  | inr (to, e) ↦ inr (
      branch_refused (is_active to && not (is_active old.action) || has_approvals to)
        (approvals_ok old limits given).0 (not (action_eq (downgrade_to act) no_relation)) to
        (downgrade_to act) approvals_missing r (rw (e, decide, decide_transition) at h))
]

pub decide-Keeps :
    (limits : RequiredApprovalsAndLimits) (given : GroupApprovals)
    (act : GroupGroupTransitionAction) (old : StateInfo) (d : Decision)
    → decide limits given act old ≡ d
    → Keeps act old.action d
decide-Keeps limits given act old (moves to) h = decide-Leads limits given act old to h
decide-Keeps limits given act old (refused r) h = elim (decide-refusal limits given act old r h) [
  | inl e ↦ subst (λ q. Keeps act old.action (refused q)) e tt
  | inr e ↦ subst (λ q. Keeps act old.action (refused q)) e tt
]

-- A rule's target, and the membership it starts from, are sound.
pub Leads-is_sound :
    (act : GroupGroupTransitionAction) (before to : GroupMembershipAction)
    → Leads act before to
    → is_sound before (some to) ≡ true
unfolding transitions downgrade_to
Leads-is_sound act before to h = ground arith

-- Whether the relation is current after the statements, and the kind of the pending row.
abbrev pub active_after : Option Bool → Option Bool → Bool → Bool
active_after (some b) deleted active = true
active_after none (some b) active = false
active_after none none active = active

abbrev pub kind_after :
    Option GroupMembershipAction → Option Bool → Option PendingKind → Option PendingKind
kind_after (some to) deleted kind = pending_type to
kind_after none (some b) kind = none
kind_after none none kind = kind

-- The statements for a sound move put the tables in the state that `settle` names.
pub tables-settle :
    (active : Bool) (kind : Option PendingKind) (to : GroupMembershipAction)
    → is_sound (concat_actions active kind) (some to) ≡ true
    → let old = concat_actions active kind in
      concat_actions
        (active_after
          (insert_relation_of old (moves to))
          (delete_relation_of old (moves to))
          active)
        (kind_after (insert_pending_of old (moves to)) (delete_pending_of old (moves to)) kind)
      ≡ (if action_eq to old then old else settle to)
tables-settle true none to h = ground arith
tables-settle false none to h = ground arith
tables-settle true (some invitation) to h = ground arith
tables-settle true (some join_request) to h = ground arith
tables-settle true (some leave_request) to h = ground arith
tables-settle false (some invitation) to h = ground arith
tables-settle false (some join_request) to h = ground arith
tables-settle false (some leave_request) to h = ground arith
