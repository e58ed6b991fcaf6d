-- ===== src/Membership/Final.antt =====
-- The final plan of `Transition`, after `performCyclesChecking` and `enforceMaxSize`, looked up at
-- any child.
use algorea_backend.Shared.{
  ℕ, ◌≡◌, ap, true, false, ◌&&◌, none, List, Map, lookup, keys, contains-keys, contains, is_some,
  get_or, if◌then◌else◌, arith,
}
use algorea_backend.Membership.Action.{GroupMembershipAction}
use algorea_backend.Membership.Rules.{GroupGroupTransitionAction, cycle}
use algorea_backend.Membership.Approvals.{
  GroupApprovals, StateInfo, no_state, RequiredApprovalsAndLimits,
}
use algorea_backend.Membership.Tables.{Db}
use algorea_backend.Membership.Plan.{Plan, empty_plan, build_transitions_plan}
use algorea_backend.Membership.Transition.{
  cycle_ids, perform_cycles_checking, exceeds_max_size, enforce_max_size, make_plan,
}
use algorea_backend.Membership.Decision.{Decision, decide_child, check_cycle_of}
use algorea_backend.Membership.Entries.{Entries, entries, no_entries, overwrite}
use algorea_backend.Membership.PlanLaws.{entries-build_transitions_plan}
use algorea_backend.Membership.Striking.{
  is_ancestor, contains-cycle_ids, check_cycle, check_full, Describes, IsSilent,
  Describes-of_entries, IsSilent-of_entries, delete_ids-Describes, delete_ids-IsSilent,
  full-Describes, full-IsSilent,
}

module _ (db : Db) (now : ℕ) (action : GroupGroupTransitionAction) (parent : ℕ) (ids : List ℕ)
    (approvals : Map GroupApprovals) (limits : RequiredApprovalsAndLimits)
    (old_actions : Map StateInfo) where
  abbrev first_plan : Plan
  first_plan = build_transitions_plan limits approvals action parent old_actions empty_plan ids

  abbrev old_of : ℕ → GroupMembershipAction
  old_of j = (get_or (lookup j old_actions) no_state).action

  abbrev cycle_decision : ℕ → Decision
  cycle_decision j =
      check_cycle (is_ancestor db.groups_ancestors j parent) (old_of j)
        (decide_child limits approvals action parent old_actions j)

  -- The decision that the final plan carries out.
  abbrev pub final_decision : ℕ → Decision
  final_decision j =
      check_full
        (exceeds_max_size db now action parent limits
          (perform_cycles_checking db parent first_plan))
        (old_of j) (cycle_decision j)

  first_plan-entries :
      (j : ℕ)
      → entries first_plan j ≡ (
          if contains ids j
          then overwrite
              (old_of j)
              (decide_child limits approvals action parent old_actions j)
              no_entries
          else no_entries)
  unfolding entries lookup
  first_plan-entries j =
      entries-build_transitions_plan limits approvals action parent old_actions empty_plan ids j

  first_plan-check_cycle :
      (j : ℕ)
      → contains ids j ≡ true
      → lookup j first_plan.ids_to_check_cycle
        ≡ check_cycle_of (old_of j) (decide_child limits approvals action parent old_actions j)
  unfolding entries overwrite
  first_plan-check_cycle j h =
      ground (arith, ap (λ (e : Entries). e.check_cycle) (rw h at (first_plan-entries j)))

  cycle_plan-Describes :
      (j : ℕ)
      → contains ids j ≡ true
      → Describes (perform_cycles_checking db parent first_plan) j (old_of j) (cycle_decision j)
  unfolding perform_cycles_checking check_cycle
  cycle_plan-Describes j h =
      let d = decide_child limits approvals action parent old_actions j in
      let checked = first_plan.ids_to_check_cycle in
      let found : contains (cycle_ids parent (keys checked) db.groups_ancestors) j
          ≡ (is_some (check_cycle_of (old_of j) d) && is_ancestor db.groups_ancestors j parent) =
        rw (contains-cycle_ids, contains-keys, first_plan-check_cycle j h) in
      delete_ids-Describes (cycle_ids parent (keys checked) db.groups_ancestors) cycle first_plan j
        (old_of j) d _ found
        (Describes-of_entries first_plan j (old_of j) d (rw h at (first_plan-entries j)))

  cycle_plan-IsSilent :
      (j : ℕ) → contains ids j ≡ false → IsSilent (perform_cycles_checking db parent first_plan) j
  unfolding perform_cycles_checking entries
  cycle_plan-IsSilent j h =
      let checked = first_plan.ids_to_check_cycle in
      let silent : entries first_plan j ≡ no_entries = rw h at (first_plan-entries j) in
      delete_ids-IsSilent (cycle_ids parent (keys checked) db.groups_ancestors) cycle first_plan j
        (rw (contains-cycle_ids, contains-keys, unchecked_of_silent first_plan silent))
        (IsSilent-of_entries first_plan j silent)
    where
      unchecked_of_silent :
          (p : Plan) → entries p j ≡ no_entries → lookup j p.ids_to_check_cycle ≡ none
      unchecked_of_silent p e = ap (λ (e : Entries). e.check_cycle) e

  pub make_plan-Describes :
      (j : ℕ)
      → contains ids j ≡ true
      → Describes
          (make_plan db now action parent ids approvals limits old_actions)
          j
          (old_of j)
          (final_decision j)
  unfolding make_plan enforce_max_size check_full
  make_plan-Describes j h =
      full-Describes
        (exceeds_max_size db now action parent limits
          (perform_cycles_checking db parent first_plan))
        (perform_cycles_checking db parent first_plan) j (old_of j) (cycle_decision j)
        (cycle_plan-Describes j h)

  pub make_plan-IsSilent :
      (j : ℕ)
      → contains ids j ≡ false
      → IsSilent (make_plan db now action parent ids approvals limits old_actions) j
  unfolding make_plan enforce_max_size
  make_plan-IsSilent j h =
      full-IsSilent
        (exceeds_max_size db now action parent limits
          (perform_cycles_checking db parent first_plan))
        (perform_cycles_checking db parent first_plan) j (cycle_plan-IsSilent j h)
