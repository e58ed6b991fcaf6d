-- ===== src/Membership/Rows.antt =====
-- One child's rows before and after the statements of a decision.
use algorea_backend.Shared.{
  ℕ, ◌≡◌, ◌<◌, inl, inr, refl, Bool, true, false, ◌&&◌, ◌||◌, not, Option, none, some, is_some,
  get_or, Map, lookup, Bool-cases, Option-cases, ◌==◌, if◌then◌else◌, arith,
}
use algorea_backend.Membership.Action.{
  GroupMembershipAction, pending_type, PendingKind, invitation, join_request, leave_request,
}
use algorea_backend.Membership.Rules.{GroupGroupTransitionAction, full, cycle}
use algorea_backend.Membership.Approvals.{
  GroupApprovals, StateInfo, no_state, RequiredApprovalsAndLimits,
}
use algorea_backend.Membership.Tables.{
  Relation, PendingRequest, is_current, concat_actions, kind_of, never,
}
use algorea_backend.Membership.StatementLaws.{upserted, pending_after}
use algorea_backend.Membership.Decision.{
  Decision, refused, moves, decide_child, insert_pending_of, delete_pending_of, changed_of,
  check_cycle_of,
}
use algorea_backend.Membership.Striking.{check_cycle, check_full}
use algorea_backend.Membership.Settle.{
  is_sound, Leads-is_sound, active_after, kind_after, Keeps, decide-Keeps,
}

Keeps-if :
    (act : GroupGroupTransitionAction) (old : GroupMembershipAction) (b : Bool) (d e : Decision)
    → Keeps act old d
    → Keeps act old e
    → Keeps act old (if b then d else e)
Keeps-if act old true d e h k = h
Keeps-if act old false d e h k = k

pub final-Keeps :
    (act : GroupGroupTransitionAction) (old : GroupMembershipAction) (is_full is_cycle : Bool)
    (d : Decision)
    → Keeps act old d
    → Keeps act old (check_full is_full old (check_cycle is_cycle old d))
unfolding check_full check_cycle
final-Keeps act old is_full is_cycle d k =
    let d' = if is_some (check_cycle_of old d) && is_cycle then refused cycle else d in
    Keeps-if act old (is_some (changed_of old d') && is_full) (refused full) d' tt
      (Keeps-if act old (is_some (check_cycle_of old d) && is_cycle) (refused cycle) d tt k)

pub decide_child-Keeps :
    (limits : RequiredApprovalsAndLimits) (approvals : Map GroupApprovals)
    (act : GroupGroupTransitionAction) (parent : ℕ) (old_actions : Map StateInfo) (id : ℕ)
    → Keeps act
        (get_or (lookup id old_actions) no_state).action
        (decide_child limits approvals act parent old_actions id)
unfolding decide_child
decide_child-Keeps limits approvals act parent old_actions id = elim (Bool-cases (id == parent)) [
  | inl e ↦ rw e tt
  | inr e ↦ rw e (decide-Keeps limits _ act _ _ refl)
]

-- In a sound move the entry for a pending row has a kind, and its key is free by then.
abbrev pub IsSoundDecision : GroupMembershipAction → Decision → Type 0
IsSoundDecision old (refused r) = Unit {0}
IsSoundDecision old (moves to) = is_sound old (some to) ≡ true

pub Keeps-IsSoundDecision :
    (act : GroupGroupTransitionAction) (old : GroupMembershipAction) (d : Decision)
    → Keeps act old d
    → IsSoundDecision old d
Keeps-IsSoundDecision act old (refused r) k = tt
Keeps-IsSoundDecision act old (moves to) k = Leads-is_sound act old to k

slot_kind :
    (active : Bool) (kind : Option PendingKind) (t to : GroupMembershipAction)
    → let old = concat_actions active kind in
      is_sound old (some t) ≡ true
      → insert_pending_of old (moves t) ≡ some to
      → (is_some (pending_type to) ≡ true)
        × ((is_some (delete_pending_of old (moves t)) || not (is_some kind)) ≡ true)
slot_kind true none t to k h = ground arith
slot_kind false none t to k h = ground arith
slot_kind true (some invitation) t to k h = ground arith
slot_kind true (some join_request) t to k h = ground arith
slot_kind true (some leave_request) t to k h = ground arith
slot_kind false (some invitation) t to k h = ground arith
slot_kind false (some join_request) t to k h = ground arith
slot_kind false (some leave_request) t to k h = ground arith

emptied :
    (b : Bool) (pending : Option PendingRequest)
    → (b || not (is_some (kind_of pending))) ≡ true
    → (if b then none else pending) ≡ none
emptied true pending h = refl
emptied false none h = refl
emptied false (some r) h = cc

pub slot_free :
    (active : Bool) (pending : Option PendingRequest) (d : Decision) (to : GroupMembershipAction)
    → let old = concat_actions active (kind_of pending) in
      IsSoundDecision old d
      → insert_pending_of old d ≡ some to
      → (is_some (pending_type to) ≡ true)
        × ((if is_some (delete_pending_of old d) then none else pending) ≡ none)
slot_free active pending (refused r) to k h = cc
slot_free active pending (moves t) to k h =
    let (typed, freed) = slot_kind active (kind_of pending) t to k h in
    (typed, emptied _ pending freed)

-- The tables' rows after the statements, in the terms of `tables-settle`.
pub kind-pending_after :
    (row : PendingKind → PendingRequest) (row_kind : (k : PendingKind) → (row k).kind ≡ k)
    (entry : Option GroupMembershipAction) (deleted : Option Bool) (pending : Option PendingRequest)
    → ((to : GroupMembershipAction) → entry ≡ some to → is_some (pending_type to) ≡ true)
    → kind_of (pending_after row entry (if is_some deleted then none else pending))
      ≡ kind_after entry deleted (kind_of pending)
kind-pending_after row row_kind none none pending typed = refl
kind-pending_after row row_kind none (some b) pending typed = refl
kind-pending_after row row_kind (some to) deleted pending typed =
    elim (Option-cases (pending_type to)) [
      | inl e ↦ cc (typed to refl)
      | inr (k, e) ↦ ground (arith, row_kind k)
    ]

pub current-upserted :
    (now : ℕ) (n : Relation) (inserted deleted : Option Bool) (r : Option Relation)
    → now < never
    → n.expires_at ≡ never
    → is_current now (
        if is_some inserted
        then upserted n (if is_some deleted then none else r)
        else if is_some deleted
        then none
        else r)
      ≡ active_after inserted deleted (is_current now r)
current-upserted now n inserted deleted r h e = ground arith
