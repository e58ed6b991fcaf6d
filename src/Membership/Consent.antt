-- ===== src/Membership/Consent.antt =====
-- The approvals on the memberships that `Transition` creates, and those on the memberships that it
-- revives.
use algorea_backend.Shared.{
  ℕ, ◌≡◌, refl, sym, ◌∙◌, ap, Bool, true, false, ◌&&◌, not, none, some, is_some, List, Map, lookup,
  contains, if◌then◌else◌, arith,
}
use algorea_backend.Membership.Action.{GroupMembershipAction, is_active, action_eq}
use algorea_backend.Membership.Rules.{GroupGroupTransitionAction}
use algorea_backend.Membership.Approvals.{GroupApprovals}
use algorea_backend.Membership.Tables.{
  Db, Group, Relation, find_relation, is_current, membership, never,
}
use algorea_backend.Membership.StatementLaws.{upserted}
use algorea_backend.Membership.Transition.{Outcome, transition}
use algorea_backend.Membership.Decision.{
  Decision, refused, moves, insert_relation_of, delete_relation_of, when,
}
use algorea_backend.Membership.Outcomes.{the_decision, the_relation_row}
use algorea_backend.Membership.Safety.{relation_after}

-- A row that is not current is revived by an upsert, or stays as it is.
revived :
    (now : ℕ) (inserted deleted : Bool) (n r : Relation)
    → (inserted && deleted) ≡ false
    → is_current now (some r) ≡ false
    → let kept = if deleted then none else some r in
      is_current now (if inserted then upserted n kept else kept) ≡ true
      → (if inserted then upserted n kept else kept) ≡ some (record r { expires_at = never })
revived now true true n r e h k = cc
revived now true false n r e h k = refl
revived now false true n r e h k = cc
revived now false false n r e h k = cc

never_both :
    (old : GroupMembershipAction) (d : Decision)
    → (is_some (insert_relation_of old d) && is_some (delete_relation_of old d)) ≡ false
never_both old (refused s) = refl
never_both old (moves to) = tests (action_eq to old) (is_active old) (is_active to)
  where
    tests :
        (same was will : Bool)
        → (is_some (when (not same && (not was && will)) true)
            && is_some (when (not same && (was && not will)) true))
          ≡ false
    tests same was will = ground arith

module _ (db : Db) (now : ℕ) (action : GroupGroupTransitionAction) (parent : ℕ) (ids : List ℕ)
    (approvals : Map GroupApprovals) (performed_by : ℕ) (out : Outcome)
    (returned : transition db now action parent ids approvals performed_by ≡ some out) (g : Group)
    (found : lookup parent db.groups ≡ some g) where
  -- Where groups_groups has an expired row for the parent group and a child of the list, and a call
  -- of `Transition` makes the child a member again, the row keeps the approval times it had: those
  -- that come with the call, or with the join request, are not written.
  pub transition-revives_old_approvals :
      (j : ℕ) (r : Relation)
      → contains ids j ≡ true
      → find_relation parent j db.groups_groups ≡ some r
      → is_current now (some r) ≡ false
      → is_current now (find_relation parent j out.db.groups_groups) ≡ true
      → find_relation parent j out.db.groups_groups ≡ some (record r { expires_at = never })
  transition-revives_old_approvals j r h before expired after =
      let old = membership db now parent j in
      let d = the_decision db now action parent ids approvals performed_by g found j in
      let n = the_relation_row db now action parent ids approvals performed_by g found j in
      let row : find_relation parent j out.db.groups_groups ≡ (
          if is_some (insert_relation_of old d)
          then upserted n (if is_some (delete_relation_of old d) then none else some r)
          else if is_some (delete_relation_of old d)
          then none
          else some r) =
        rw (← before) (
          relation_after db now action parent ids approvals performed_by out returned g found j
            h) in
      row
      ∙ revived now (is_some (insert_relation_of old d)) (is_some (delete_relation_of old d)) n r
          (never_both old d) expired (sym (ap (is_current now) row) ∙ after)
