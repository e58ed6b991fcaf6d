-- ===== src/Membership/Entries.antt =====
-- The entries of a plan about one child (app/database/group_group_store_transitions.go).
use algorea_backend.Shared.{
  ℕ, ◌≡◌, refl, Bool, true, false, Option, none, some, Map, lookup, insert, lookup-insert, overlay,
  ◌==◌, if◌then◌else◌, arith,
}
use algorea_backend.Membership.Action.{GroupMembershipAction}
use algorea_backend.Membership.Rules.{GroupGroupTransitionResult}
use algorea_backend.Membership.Approvals.{GroupApprovals}
use algorea_backend.Membership.Plan.{Plan, insert_when}
use algorea_backend.Membership.Decision.{
  Decision, refused, result_of, changed_of, insert_pending_of, delete_pending_of,
  insert_relation_of, delete_relation_of, check_cycle_of, when,
}

-- The entries of a plan about one child.
pub record Entries : Type 0 where
  pub result : Option GroupGroupTransitionResult
  pub changed : Option GroupMembershipAction
  pub insert_pending : Option GroupMembershipAction
  pub delete_pending : Option Bool
  pub insert_relation : Option Bool
  pub delete_relation : Option Bool
  pub check_cycle : Option Bool

unfoldable pub entries : Plan → ℕ → Entries
entries p j = record {
  result = lookup j p.results;
  changed = lookup j p.ids_changed;
  insert_pending = lookup j p.ids_to_insert_pending;
  delete_pending = lookup j p.ids_to_delete_pending;
  insert_relation = lookup j p.ids_to_insert_relation;
  delete_relation = lookup j p.ids_to_delete_relation;
  check_cycle = lookup j p.ids_to_check_cycle;
}

abbrev pub no_entries : Entries
no_entries = record {
  result = none;
  changed = none;
  insert_pending = none;
  delete_pending = none;
  insert_relation = none;
  delete_relation = none;
  check_cycle = none;
}

-- The entries that a decision makes over earlier ones.
unfoldable pub overwrite : GroupMembershipAction → Decision → Entries → Entries
overwrite old d e = record {
  result = some (result_of old d);
  changed = overlay (changed_of old d) e.changed;
  insert_pending = overlay (insert_pending_of old d) e.insert_pending;
  delete_pending = overlay (delete_pending_of old d) e.delete_pending;
  insert_relation = overlay (insert_relation_of old d) e.insert_relation;
  delete_relation = overlay (delete_relation_of old d) e.delete_relation;
  check_cycle = overlay (check_cycle_of old d) e.check_cycle;
}

pub lookup-insert_when {ℓ} :
    {V : Type ℓ} (b : Bool) (k : ℕ) (v : V) (m : Map V) (j : ℕ)
    → lookup j (insert_when b k v m)
      ≡ (if k == j then overlay (when b v) (lookup j m) else lookup j m)
lookup-insert_when true k v m j = lookup-insert k j v m
lookup-insert_when false k v m j = ground arith

-- A plan whose result for one child is set anew, its requested approvals aside.
pub entries-set_result :
    (id : ℕ) (r : GroupGroupTransitionResult) (old : GroupMembershipAction) (p : Plan)
    (requested : Map GroupApprovals) (j : ℕ)
    → entries (record p { results = insert id r p.results; approvals_to_request = requested }) j
      ≡ (if id == j then overwrite old (refused r) (entries p j) else entries p j)
unfolding entries overwrite
entries-set_result id r old p requested j = ground (arith, lookup-insert id j r p.results)

-- A second decision about a child overrides the first refusal, or repeats itself.
pub overwrite_refused :
    (old : GroupMembershipAction) (r : GroupGroupTransitionResult) (d : Decision) (e : Entries)
    → overwrite old d (overwrite old (refused r) e) ≡ overwrite old d e
unfolding overwrite
overwrite_refused old r d e = refl

pub overlay_twice {ℓ} : {V : Type ℓ} (o p : Option V) → overlay o (overlay o p) ≡ overlay o p
overlay_twice none p = refl
overlay_twice (some v) p = refl

pub overwrite_twice :
    (old : GroupMembershipAction) (d : Decision) (e : Entries)
    → overwrite old d (overwrite old d e) ≡ overwrite old d e
unfolding overwrite
overwrite_twice old d e = simp overlay_twice
