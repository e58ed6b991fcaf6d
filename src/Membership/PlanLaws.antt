-- ===== src/Membership/PlanLaws.antt =====
-- The maps of a finished plan, looked up at any child.
use algorea_backend.Shared.{
  ℕ, ◌≡◌, refl, ◌∙◌, ap, Bool, true, false, ◌&&◌, ◌||◌, not, List, [], ◌∷◌, Map, lookup, insert,
  lookup-insert, contains, get_or, ◌==◌, if◌then◌else◌, arith, Option-cases, inl, inr,
}
use algorea_backend.Membership.Action.{
  GroupMembershipAction, no_relation, action_eq, is_active, is_pending, has_approvals,
}
use algorea_backend.Membership.Rules.{
  GroupGroupTransitionAction, transitions, downgrade_to, GroupGroupTransitionResult, invalid,
  approvals_missing, success, unchanged,
}
use algorea_backend.Membership.Approvals.{
  GroupApprovals, no_approvals, is_empty, StateInfo, no_state, RequiredApprovalsAndLimits,
  approvals_ok,
}
use algorea_backend.Membership.Plan.{
  Plan, insert_when, set_result, build_one_transition, plan_transition, plan_child,
  build_transitions_plan,
}
use algorea_backend.Membership.Decision.{
  Decision, refused, moves, decide_target, decide_transition, decide, decide_child,
}
use algorea_backend.Membership.Entries.{
  Entries, entries, overwrite, lookup-insert_when, entries-set_result, overwrite_refused,
  overwrite_twice,
}

entries-build_one_transition :
    (id : ℕ) (old to : GroupMembershipAction) (p : Plan) (j : ℕ)
    → entries (build_one_transition id old to p) j
      ≡ (if id == j then overwrite old (moves to) (entries p j) else entries p j)
unfolding build_one_transition entries overwrite
entries-build_one_transition id old to p j = ground (
  arith,
  lookup-insert id j unchanged p.results,
  lookup-insert id j success p.results,
  lookup-insert_when (not (action_eq to no_relation)) id to p.ids_changed j,
  lookup-insert_when (is_active old && not (is_active to)) id true p.ids_to_delete_relation j,
  lookup-insert_when (not (is_active old) && is_active to) id true p.ids_to_insert_relation j,
  lookup-insert_when (not (is_active old) && (is_active to || is_pending to)) id true
      p.ids_to_check_cycle j,
  lookup-insert_when (is_pending old) id true p.ids_to_delete_pending j,
  lookup-insert_when (is_pending to) id to p.ids_to_insert_pending j,
)

-- The branches of `plan_transition` beside those of `decide_target`.
branches :
    (checked ok downgrades hit : Bool) (old : GroupMembershipAction) (e : Entries) (j : ℕ)
    (p q r : Plan) (to down : GroupMembershipAction) (missing : GroupGroupTransitionResult)
    → entries p j ≡ (if hit then overwrite old (moves to) e else e)
    → entries q j ≡ (if hit then overwrite old (moves down) e else e)
    → entries r j ≡ (if hit then overwrite old (refused missing) e else e)
    → entries (if checked then (if ok then p else if downgrades then q else r) else p) j ≡ (
        if hit
        then overwrite old
            (if checked
              then (if ok then moves to else if downgrades then moves down else refused missing)
              else moves to)
            e
        else e)
branches false ok downgrades hit old e j p q r to down missing hp hq hr = hp
branches true true downgrades hit old e j p q r to down missing hp hq hr = hp
branches true false true hit old e j p q r to down missing hp hq hr = hq
branches true false false hit old e j p q r to down missing hp hq hr = hr

-- A test for a key lets the key stand for what is tested.
at_key {ℓ} :
    {A : Type ℓ} (f : ℕ → A → A) (id j : ℕ) (a : A)
    → (if id == j then f id a else a) ≡ (if id == j then f j a else a)
at_key f id j a = ground arith

-- One more child in the list.
covers :
    (hit rest : Bool) (old : GroupMembershipAction) (d : Decision) (e f g : Entries)
    → g ≡ (if rest then overwrite old d f else f)
    → f ≡ (if hit then overwrite old d e else e)
    → g ≡ (if hit || rest then overwrite old d e else e)
covers true true old d e f g p q = p ∙ ap (overwrite old d) q ∙ overwrite_twice old d e
covers true false old d e f g p q = p ∙ q
covers false true old d e f g p q = p ∙ ap (overwrite old d) q
covers false false old d e f g p q = p ∙ q

module _ (limits : RequiredApprovalsAndLimits) (approvals : Map GroupApprovals)
    (action : GroupGroupTransitionAction) where
  entries-plan_transition :
      (id : ℕ) (old : StateInfo) (to : GroupMembershipAction) (p : Plan) (j : ℕ)
      → entries (plan_transition limits approvals action id old to p) j ≡ (
          if id == j
          then overwrite old.action
              (decide_target limits (get_or (lookup id approvals) no_approvals) action old to)
              (entries p j)
          else entries p j)
  unfolding decide_target plan_transition
  entries-plan_transition id old to p j =
      let given = get_or (lookup id approvals) no_approvals in
      let (ok, needed) = approvals_ok old limits given in
      branches (is_active to && not (is_active old.action) || has_approvals to) ok
        (not (action_eq (downgrade_to action) no_relation)) (id == j) old.action (entries p j) j _ _
        _ to (downgrade_to action) approvals_missing
        (entries-build_one_transition id old.action to p j)
        (entries-build_one_transition id old.action (downgrade_to action) p j)
        (entries-insert_request (not (is_empty needed)) needed)
    where
      entries-insert_request :
          (b : Bool) (needed : GroupApprovals)
          → entries
              (record p {
                results = insert id approvals_missing p.results;
                approvals_to_request = insert_when b id needed p.approvals_to_request;
              })
              j
            ≡ (if id == j
                then overwrite old.action (refused approvals_missing) (entries p j)
                else entries p j)
      entries-insert_request b needed =
          entries-set_result id approvals_missing old.action p
            (insert_when b id needed p.approvals_to_request) j

  module _ (parent : ℕ) (old_actions : Map StateInfo) where
    abbrev old_of : ℕ → GroupMembershipAction
    old_of id = (get_or (lookup id old_actions) no_state).action

    entries-plan_child :
        (p : Plan) (id j : ℕ)
        → entries (plan_child limits approvals action parent old_actions p id) j ≡ (
            if id == j
            then overwrite
                (old_of id)
                (decide_child limits approvals action parent old_actions id)
                (entries p j)
            else entries p j)
    unfolding plan_child decide_child decide decide_transition
    entries-plan_child p id j =
        let old = get_or (lookup id old_actions) no_state in
        let p' = set_result id invalid p in
        elim (Option-cases (transitions action old.action)) [
          | inl e ↦
              ground (arith, entries-set_result id invalid old.action p p.approvals_to_request j)
          | inr (to, e) ↦ ground (
            arith,
            entries-set_result id invalid old.action p p.approvals_to_request j,
            entries-plan_transition id old to p' j,
            overwrite_refused old.action invalid
                (decide_target limits (get_or (lookup id approvals) no_approvals) action old to)
                (entries p j),
          )
        ]

    -- The finished plan, at a child of the list and at any other.
    pub entries-build_transitions_plan :
        (p : Plan) (ids : List ℕ) (j : ℕ)
        → entries (build_transitions_plan limits approvals action parent old_actions p ids) j ≡ (
            if contains ids j
            then overwrite
                (old_of j)
                (decide_child limits approvals action parent old_actions j)
                (entries p j)
            else entries p j)
    unfolding build_transitions_plan contains
    entries-build_transitions_plan p [] j = refl
    entries-build_transitions_plan p (id ∷ ids) j =
        covers (id == j) (contains ids j) (old_of j)
          (decide_child limits approvals action parent old_actions j) (entries p j)
          (entries (plan_child limits approvals action parent old_actions p id) j) _
          (entries-build_transitions_plan
            (plan_child limits approvals action parent old_actions p id) ids j)
          (entries-plan_child p id j
            ∙ at_key
                (λ k.
                  overwrite (old_of k) (decide_child limits approvals action parent old_actions k))
                id j (entries p j))
