-- ===== src/Membership/Safety.antt =====
-- What a call of `Transition` never does to the tables.
use algorea_backend.Shared.{
  ℕ, ◌≡◌, ◌≢◌, ◌⊎◌, inl, inr, refl, sym, subst, ◌∙◌, Bool, true, false, ◌&&◌, ◌||◌, not, Option,
  none, some, is_some, List, Map, lookup, contains, Bool-cases, ◌==◌, ==_refl, ==_iff,
  if◌then◌else◌, arith,
}
use algorea_backend.Membership.Action.{GroupMembershipAction, is_active, is_pending, action_eq}
use algorea_backend.Membership.Rules.{GroupGroupTransitionAction}
use algorea_backend.Membership.Approvals.{GroupApprovals}
use algorea_backend.Membership.Tables.{
  Db, Group, Relation, find_relation, find_pending, is_current, membership,
}
use algorea_backend.Membership.StatementLaws.{upserted}
use algorea_backend.Membership.Transition.{Outcome, transition}
use algorea_backend.Membership.Decision.{
  Decision, refused, moves, insert_relation_of, delete_relation_of, check_cycle_of, when,
}
use algorea_backend.Membership.Striking.{is_ancestor}
use algorea_backend.Membership.Outcomes.{
  plan-Describes, plan-IsSilent, the_decision, the_relation_row,
}
use algorea_backend.Membership.Refinement.{returned_lem, outcome_for}
use algorea_backend.Membership.Origin.{decision_origin}

pub new_relation :
    (old to : GroupMembershipAction)
    → is_some (insert_relation_of old (moves to)) ≡ true
    → (is_active to ≡ true)
      × (is_active old ≡ false)
      × (is_some (check_cycle_of old (moves to)) ≡ true)
new_relation old to h = tests (action_eq to old) (is_active old) (is_active to) (is_pending to) h
  where
    tests :
        (same was will waits : Bool)
        → is_some (when (not same && (not was && will)) true) ≡ true
        → (will ≡ true)
          × (was ≡ false)
          × (is_some (when (not same && (not was && (will || waits))) true) ≡ true)
    tests same was will waits h = ground arith

-- Without an insert the row is the old one or gone.
kept_current :
    (now : ℕ) (deleted : Option Bool) (r : Option Relation)
    → is_current now (if is_some deleted then none else r) ≡ true
    → is_current now r ≡ true
kept_current now none r h = h
kept_current now (some b) r h = cc

module _ (db : Db) (now : ℕ) (action : GroupGroupTransitionAction) (parent : ℕ) (ids : List ℕ)
    (approvals : Map GroupApprovals) (performed_by : ℕ) (out : Outcome)
    (returned : transition db now action parent ids approvals performed_by ≡ some out) where
  -- A call of `Transition` leaves the relations and the pending requests of every other group, and
  -- of every child group that is not in the list, as they were.
  pub transition_frame :
      (q c : ℕ)
      → (q ≢ parent) ⊎ (contains ids c ≡ false)
      → (find_relation q c out.db.groups_groups ≡ find_relation q c db.groups_groups)
        × (find_pending q c out.db.group_pending_requests
            ≡ find_pending q c db.group_pending_requests)
  transition_frame q c h =
      let (g, found, rows) =
        returned_lem db now action parent ids approvals performed_by out returned in
      elim (Bool-cases (parent == q)) [
        | inr other ↦ (rows.relation q c ∙ rw other, rows.pending q c ∙ rw other)
        | inl same ↦ elim h [
          | inl ne ↦ absurd (ne (sym ((==_iff parent q).0 same)))
          | inr out_of_list ↦
              let silent =
                plan-IsSilent db now action parent ids approvals performed_by g found c
                  out_of_list in
              (
                rows.relation q c ∙ rw (same, silent.insert_relation, silent.delete_relation),
                rows.pending q c ∙ rw (same, silent.insert_pending, silent.delete_pending),
              )
        ]
      ]

  -- The row of a child in the list, as a decision's entries make it.
  pub relation_after :
      (g : Group) (found : lookup parent db.groups ≡ some g) (c : ℕ)
      → contains ids c ≡ true
      → let d = the_decision db now action parent ids approvals performed_by g found c in
        let old = membership db now parent c in
        let kept =
          if is_some (delete_relation_of old d)
          then none
          else find_relation parent c db.groups_groups in
        find_relation parent c out.db.groups_groups ≡ (
          if is_some (insert_relation_of old d)
          then upserted
              (the_relation_row db now action parent ids approvals performed_by g found c)
              kept
          else kept)
  relation_after g found c h =
      let rows = outcome_for db now action parent ids approvals performed_by out returned g found in
      let described = plan-Describes db now action parent ids approvals performed_by g found c h in
      rows.relation parent c
      ∙ rw (==_refl parent, described.insert_relation, described.delete_relation)

  -- A relation of a child in the list is there after the call because it was before, or because
  -- of a move that inserts it.
  inserted_or_kept :
      (c : ℕ)
      → contains ids c ≡ true
      → is_current now (find_relation parent c out.db.groups_groups) ≡ true
      → let (g, found, rows) =
          returned_lem db now action parent ids approvals performed_by out returned in
        (is_current now (find_relation parent c db.groups_groups) ≡ true)
        ⊎ ((to : GroupMembershipAction) × (the_decision db now action parent ids approvals
                performed_by g found c
              ≡ moves to)
            × (is_some (insert_relation_of (membership db now parent c) (moves to)) ≡ true))
  inserted_or_kept c inside h =
      let (g, found, rows) =
        returned_lem db now action parent ids approvals performed_by out returned in
      by_decision (the_decision db now action parent ids approvals performed_by g found c)
        (the_relation_row db now action parent ids approvals performed_by g found c)
        (rw (relation_after g found c inside) at h)
    where
      by_decision :
          (d : Decision) (n : Relation)
          → let old = membership db now parent c in
            let r = find_relation parent c db.groups_groups in
            let kept = if is_some (delete_relation_of old d) then none else r in
            is_current now (if is_some (insert_relation_of old d) then upserted n kept else kept)
              ≡ true
            → (is_current now r ≡ true)
              ⊎ ((to : GroupMembershipAction) × (d ≡ moves to)
                  × (is_some (insert_relation_of old (moves to)) ≡ true))
      by_decision (refused r) n h = inl h
      by_decision (moves to) n h =
          let old = membership db now parent c in
          elim (Bool-cases (is_some (insert_relation_of old (moves to)))) [
            | inl e ↦ inr (to, refl, e)
            | inr e ↦ inl (
                kept_current now (delete_relation_of old (moves to))
                  (find_relation parent c db.groups_groups) (rw e at h))
          ]

  -- A relation that a call of `Transition` makes current belongs to the parent group and a child
  -- of the list, and closes no cycle: the child is not the parent, and groups_ancestors does not
  -- have it as an ancestor of the parent.
  pub transition-IsAcyclic :
      (q c : ℕ)
      → is_current now (find_relation q c out.db.groups_groups) ≡ true
      → (is_current now (find_relation q c db.groups_groups) ≡ true)
        ⊎ ((q ≡ parent)
            × (contains ids c ≡ true)
            × (c ≢ parent)
            × (is_ancestor db.groups_ancestors c parent ≡ false))
  transition-IsAcyclic q c h = elim (Bool-cases (parent == q)) [
    | inr other ↦ inl (rw (transition_frame q c (inl (ne_parent q other))).0 at h)
    | inl same ↦ elim (Bool-cases (contains ids c)) [
      | inr outside ↦ inl (rw (transition_frame q c (inr outside)).0 at h)
      | inl inside ↦
          elim (inserted_or_kept c inside (
            subst (λ p. is_current now (find_relation p c out.db.groups_groups) ≡ true)
              (sym ((==_iff parent q).0 same)) h)) [
                | inl before ↦ inl (
                    subst (λ p. is_current now (find_relation p c db.groups_groups) ≡ true)
                      ((==_iff parent q).0 same) before)
                | inr (to, moved, inserts) ↦
                    let (g, found, rows) =
                      returned_lem db now action parent ids approvals performed_by out returned in
                    let (other, decided, unchecked) =
                      decision_origin db now action parent ids approvals performed_by g found c to
                        inside moved in
                    inr (
                      sym ((==_iff parent q).0 same),
                      inside,
                      ne_key c other,
                      no_cycle _ _ (new_relation (membership db now parent c) to inserts).2
                          unchecked,
                    )
              ]
    ]
  ]
    where
      ne_parent : (q : ℕ) → (parent == q) ≡ false → q ≢ parent
      ne_parent q e p = ground arith

      ne_key : (c : ℕ) → (c == parent) ≡ false → c ≢ parent
      ne_key c e p = ground arith

      no_cycle :
          (checked is_cycle : Bool)
          → checked ≡ true
          → (checked && is_cycle) ≡ false
          → is_cycle ≡ false
      no_cycle checked is_cycle e h = ground arith
