-- ===== src/Membership/Striking.antt =====
-- What `performCyclesChecking` and `enforceMaxSize` strike out of a plan, looked up at any child
-- (app/database/group_group_store_transitions.go).
use algorea_backend.Shared.{
  ℕ, ◌≡◌, refl, sym, ◌∙◌, ap, Bool, true, false, ◌&&◌, ◌||◌, none, some, List, [], ◌∷◌, lookup,
  keys, contains-keys, lookup-insert, lookup-delete, contains, is_some, ◌==◌, if◌then◌else◌, arith,
}
use algorea_backend.Membership.Action.{GroupMembershipAction}
use algorea_backend.Membership.Rules.{GroupGroupTransitionResult, cycle, full}
use algorea_backend.Membership.Plan.{Plan, delete_id_from_plan, delete_ids_from_transition_plan}
use algorea_backend.Membership.Transition.{cycle_ids}
use algorea_backend.Membership.Decision.{
  Decision, refused, result_of, changed_of, insert_pending_of, delete_pending_of,
  insert_relation_of, delete_relation_of, check_cycle_of,
}
use algorea_backend.Membership.Entries.{Entries, entries, no_entries, overwrite}

-- What `deleteIDsFromTransitionPlan` makes of the entries of a child in its list.
unfoldable pub strike : GroupGroupTransitionResult → Entries → Entries
strike status e = record {
  result = some status;
  changed = none;
  insert_pending = none;
  delete_pending = none;
  insert_relation = none;
  delete_relation = none;
  check_cycle = e.check_cycle;
}

entries-delete_id_from_plan :
    (status : GroupGroupTransitionResult) (p : Plan) (id j : ℕ)
    → entries (delete_id_from_plan status p id) j
      ≡ (if id == j then strike status (entries p j) else entries p j)
unfolding entries delete_id_from_plan strike
entries-delete_id_from_plan status p id j = ground (
  arith,
  lookup-insert id j status p.results,
  lookup-delete id j p.ids_to_insert_relation,
  lookup-delete id j p.ids_to_insert_pending,
  lookup-delete id j p.ids_to_delete_pending,
  lookup-delete id j p.ids_to_delete_relation,
  lookup-delete id j p.ids_changed,
)

strike_twice :
    (status : GroupGroupTransitionResult) (e : Entries)
    → strike status (strike status e) ≡ strike status e
unfolding strike
strike_twice status e = refl

struck :
    (hit rest : Bool) (status : GroupGroupTransitionResult) (e f g : Entries)
    → g ≡ (if rest then strike status f else f)
    → f ≡ (if hit then strike status e else e)
    → g ≡ (if hit || rest then strike status e else e)
struck true true status e f g p q = p ∙ ap (strike status) q ∙ strike_twice status e
struck true false status e f g p q = p ∙ q
struck false true status e f g p q = p ∙ ap (strike status) q
struck false false status e f g p q = p ∙ q

pub entries-delete_ids_from_transition_plan :
    (ids : List ℕ) (status : GroupGroupTransitionResult) (p : Plan) (j : ℕ)
    → entries (delete_ids_from_transition_plan ids status p) j
      ≡ (if contains ids j then strike status (entries p j) else entries p j)
unfolding delete_ids_from_transition_plan contains
entries-delete_ids_from_transition_plan [] status p j = refl
entries-delete_ids_from_transition_plan (id ∷ ids) status p j =
    struck (id == j) (contains ids j) status (entries p j)
      (entries (delete_id_from_plan status p id) j) _
      (entries-delete_ids_from_transition_plan ids status (delete_id_from_plan status p id) j)
      (entries-delete_id_from_plan status p id j)

-- Does groups_ancestors have this row?
unfoldable pub is_ancestor : List (ℕ × ℕ) → ℕ → ℕ → Bool
is_ancestor [] a c = false
is_ancestor ((ancestor, child) ∷ rows) a c = (child == c && ancestor == a) || is_ancestor rows a c

pub contains-cycle_ids :
    (parent : ℕ) (ids : List ℕ) (rows : List (ℕ × ℕ)) (j : ℕ)
    → contains (cycle_ids parent ids rows) j ≡ (contains ids j && is_ancestor rows j parent)
unfolding cycle_ids is_ancestor contains
contains-cycle_ids parent ids [] j = ground arith
contains-cycle_ids parent ids ((ancestor, child) ∷ rows) j =
    ground (arith, contains-cycle_ids parent ids rows j)

-- The decision about a child after the two checks.
unfoldable pub check_cycle : Bool → GroupMembershipAction → Decision → Decision
check_cycle is_cycle old d = if is_some (check_cycle_of old d) && is_cycle then refused cycle else d

unfoldable pub check_full : Bool → GroupMembershipAction → Decision → Decision
check_full is_full old d = if is_some (changed_of old d) && is_full then refused full else d

-- The entries of a plan about a child are those of a decision; `check_cycle`, which no statement
-- reads, aside.
pub record Describes (p : Plan) (j : ℕ) (old : GroupMembershipAction) (d : Decision) : Type 0 where
  pub result : lookup j p.results ≡ some (result_of old d)
  pub changed : lookup j p.ids_changed ≡ changed_of old d
  pub insert_pending : lookup j p.ids_to_insert_pending ≡ insert_pending_of old d
  pub delete_pending : lookup j p.ids_to_delete_pending ≡ delete_pending_of old d
  pub insert_relation : lookup j p.ids_to_insert_relation ≡ insert_relation_of old d
  pub delete_relation : lookup j p.ids_to_delete_relation ≡ delete_relation_of old d

-- A plan says nothing about a child.
pub record IsSilent (p : Plan) (j : ℕ) : Type 0 where
  pub result : lookup j p.results ≡ none
  pub changed : lookup j p.ids_changed ≡ none
  pub insert_pending : lookup j p.ids_to_insert_pending ≡ none
  pub delete_pending : lookup j p.ids_to_delete_pending ≡ none
  pub insert_relation : lookup j p.ids_to_insert_relation ≡ none
  pub delete_relation : lookup j p.ids_to_delete_relation ≡ none

pub Describes-of_entries :
    (p : Plan) (j : ℕ) (old : GroupMembershipAction) (d : Decision)
    → entries p j ≡ overwrite old d no_entries
    → Describes p j old d
unfolding entries overwrite
Describes-of_entries p j old d h = record {
  result = ap (λ (e : Entries). e.result) h;
  changed = ground (arith, ap (λ (e : Entries). e.changed) h);
  insert_pending = ground (arith, ap (λ (e : Entries). e.insert_pending) h);
  delete_pending = ground (arith, ap (λ (e : Entries). e.delete_pending) h);
  insert_relation = ground (arith, ap (λ (e : Entries). e.insert_relation) h);
  delete_relation = ground (arith, ap (λ (e : Entries). e.delete_relation) h);
}

pub IsSilent-of_entries : (p : Plan) (j : ℕ) → entries p j ≡ no_entries → IsSilent p j
unfolding entries
IsSilent-of_entries p j h = record {
  result = ap (λ (e : Entries). e.result) h;
  changed = ap (λ (e : Entries). e.changed) h;
  insert_pending = ap (λ (e : Entries). e.insert_pending) h;
  delete_pending = ap (λ (e : Entries). e.delete_pending) h;
  insert_relation = ap (λ (e : Entries). e.insert_relation) h;
  delete_relation = ap (λ (e : Entries). e.delete_relation) h;
}

pub delete_ids-Describes :
    (ids : List ℕ) (status : GroupGroupTransitionResult) (p : Plan) (j : ℕ)
    (old : GroupMembershipAction) (d : Decision) (struck_out : Bool)
    → contains ids j ≡ struck_out
    → Describes p j old d
    → Describes
        (delete_ids_from_transition_plan ids status p)
        j
        old
        (if struck_out then refused status else d)
unfolding entries strike
delete_ids-Describes ids status p j old d struck_out e h =
    ground (arith, entries-delete_ids_from_transition_plan ids status p j)

pub delete_ids-IsSilent :
    (ids : List ℕ) (status : GroupGroupTransitionResult) (p : Plan) (j : ℕ)
    → contains ids j ≡ false
    → IsSilent p j
    → IsSilent (delete_ids_from_transition_plan ids status p) j
unfolding entries strike
delete_ids-IsSilent ids status p j e h =
    ground (arith, entries-delete_ids_from_transition_plan ids status p j)

delete_ids-check_cycle :
    (ids : List ℕ) (status : GroupGroupTransitionResult) (p : Plan) (j : ℕ)
    → lookup j (delete_ids_from_transition_plan ids status p).ids_to_check_cycle
      ≡ lookup j p.ids_to_check_cycle
unfolding entries strike
delete_ids-check_cycle ids status p j =
    ground (arith, entries-delete_ids_from_transition_plan ids status p j)

and_true : (b : Bool) → (b && true) ≡ b
and_true true = refl
and_true false = refl

and_false : (b : Bool) → (b && false) ≡ false
and_false true = refl
and_false false = refl

pub full-Describes :
    (is_full : Bool) (p : Plan) (j : ℕ) (old : GroupMembershipAction) (d : Decision)
    → Describes p j old d
    → Describes
        (if is_full then delete_ids_from_transition_plan (keys p.ids_changed) full p else p)
        j
        old
        (check_full is_full old d)
unfolding check_full
full-Describes true p j old d h =
    delete_ids-Describes (keys p.ids_changed) full p j old d _
      (contains-keys j p.ids_changed ∙ ap is_some h.changed ∙ sym (and_true _)) h
full-Describes false p j old d h = rw and_false h

pub full-IsSilent :
    (is_full : Bool) (p : Plan) (j : ℕ)
    → IsSilent p j
    → IsSilent
        (if is_full then delete_ids_from_transition_plan (keys p.ids_changed) full p else p)
        j
full-IsSilent true p j h =
    delete_ids-IsSilent (keys p.ids_changed) full p j
      (contains-keys j p.ids_changed ∙ ap is_some h.changed) h
full-IsSilent false p j h = h
