-- ===== src/Membership/Reading.antt =====
-- The states that `Transition` reads, looked up at any child.
use algorea_backend.Shared.{
  ℕ, ◌≡◌, refl, Bool, true, false, Option, none, some, List, [], ◌∷◌, lookup, lookup-insert_if,
  contains, get_or, if◌then◌else◌, arith,
}
use algorea_backend.Membership.Approvals.{no_state}
use algorea_backend.Membership.Tables.{
  Db, PendingRequest, find_relation, find_pending, is_current, concat_actions, kind_of, state_row,
  read_state, membership,
}
use algorea_backend.Membership.Transition.{read_states}

pub lookup-read_states :
    (db : Db) (now parent : ℕ) (ids : List ℕ) (j : ℕ)
    → lookup j (read_states db now parent ids)
      ≡ (if contains ids j then read_state db now parent j else none)
unfolding read_states contains lookup
lookup-read_states db now parent [] j = refl
lookup-read_states db now parent (id ∷ ids) j = ground (
  arith,
  lookup-read_states db now parent ids j,
  lookup-insert_if id j (read_state db now parent id) (read_states db now parent ids),
)

action-state_row :
    (active : Bool) (pending : Option PendingRequest)
    → (get_or (state_row active pending) no_state).action ≡ concat_actions active (kind_of pending)
unfolding state_row
action-state_row false none = refl
action-state_row true none = refl
action-state_row false (some r) = refl
action-state_row true (some r) = refl

-- The action that the plan starts from is the membership of the child.
pub action-read_states :
    (db : Db) (now parent : ℕ) (ids : List ℕ) (j : ℕ)
    → contains ids j ≡ true
    → (get_or (lookup j (read_states db now parent ids)) no_state).action
      ≡ membership db now parent j
unfolding membership read_state
action-read_states db now parent ids j h =
    rw (lookup-read_states, h)
      (action-state_row (is_current now (find_relation parent j db.groups_groups))
        (find_pending parent j db.group_pending_requests))
