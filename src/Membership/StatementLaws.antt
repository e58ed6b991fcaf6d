-- ===== src/Membership/StatementLaws.antt =====
-- What each statement of Membership/Statements.antt does to the row with a given key.
use algorea_backend.Shared.{
  ℕ, ◌≡◌, refl, true, ◌&&◌, Option, none, some, List, [], ◌∷◌, Map, lookup, contains, Distinct,
  is_some, ◌==◌, if◌then◌else◌, arith, Option-cases, inl, inr,
}
use algorea_backend.Membership.Action.{GroupMembershipAction, PendingKind, pending_type}
use algorea_backend.Membership.Tables.{Relation, PendingRequest, find_relation, find_pending, never}
use algorea_backend.Membership.Statements.{
  delete_pending, delete_relations, upsert_relation, insert_relations, add_pending, insert_pending,
}

pub find_pending-delete_pending :
    (g : ℕ) (ms : List ℕ) (p m : ℕ) (rs : List PendingRequest)
    → find_pending p m (delete_pending g ms rs)
      ≡ (if g == p && contains ms m then none else find_pending p m rs)
unfolding find_pending delete_pending
find_pending-delete_pending g ms p m [] = ground arith
find_pending-delete_pending g ms p m (r ∷ rs) =
    ground (arith, find_pending-delete_pending g ms p m rs)

pub find_relation-delete_relations :
    (p : ℕ) (cs : List ℕ) (q c : ℕ) (rs : List Relation)
    → find_relation q c (delete_relations p cs rs)
      ≡ (if p == q && contains cs c then none else find_relation q c rs)
unfolding find_relation delete_relations
find_relation-delete_relations p cs q c [] = ground arith
find_relation-delete_relations p cs q c (r ∷ rs) =
    ground (arith, find_relation-delete_relations p cs q c rs)

-- The row after an upsert of `n`, given the row before.
abbrev pub upserted : Relation → Option Relation → Option Relation
upserted n none = some n
upserted n (some r) = some (record r { expires_at = never })

pub find_relation-upsert_relation :
    (n : Relation) (p c : ℕ) (rs : List Relation)
    → find_relation p c (upsert_relation n rs) ≡ (
        if n.parent_group_id == p && n.child_group_id == c
        then upserted n (find_relation p c rs)
        else find_relation p c rs)
unfolding find_relation upsert_relation
find_relation-upsert_relation n p c [] = ground arith
find_relation-upsert_relation n p c (r ∷ rs) =
    ground (arith, find_relation-upsert_relation n p c rs)

module _ (row : ℕ → Relation) (p : ℕ) (row_parent : (id : ℕ) → (row id).parent_group_id ≡ p)
    (row_child : (id : ℕ) → (row id).child_group_id ≡ id)
    (row_expires : (id : ℕ) → (row id).expires_at ≡ never) where
  pub find_relation-insert_relations :
      (ids : List ℕ) (q c : ℕ) (rs : List Relation)
      → find_relation q c (insert_relations row ids rs) ≡ (
          if p == q && contains ids c
          then upserted (row c) (find_relation q c rs)
          else find_relation q c rs)
  unfolding insert_relations contains
  find_relation-insert_relations [] q c rs = ground arith
  find_relation-insert_relations (id ∷ ids) q c rs = ground (
    arith,
    find_relation-insert_relations ids q c (upsert_relation (row id) rs),
    find_relation-upsert_relation (row id) q c rs,
    row_parent id,
    row_child id,
    row_expires id,
  )

-- What a plan's entry makes of the pending row of its member.
abbrev pub pending_after :
    (PendingKind → PendingRequest)
    → Option GroupMembershipAction
    → Option PendingRequest
    → Option PendingRequest
pending_after row none old = old
pending_after row (some to) old = elim (pending_type to) [ none ↦ old | some k ↦ some (row k) ]

module _ (row : ℕ → PendingKind → PendingRequest) (g : ℕ)
    (row_group : (id : ℕ) (k : PendingKind) → (row id k).group_id ≡ g)
    (row_member : (id : ℕ) (k : PendingKind) → (row id k).member_id ≡ id) where
  add_pending_lem :
      (id : ℕ) (to : GroupMembershipAction) (k : PendingKind) (rs : List PendingRequest)
      → pending_type to ≡ some k
      → find_pending g id rs ≡ none
      → add_pending (row id) (pending_type to) rs ≡ some (row id k ∷ rs)
  unfolding add_pending
  add_pending_lem id to k rs e free = rw e (ground (arith, row_group id k, row_member id k))

  find_pending-row :
      (id : ℕ) (k : PendingKind) (rs : List PendingRequest) (q c : ℕ)
      → find_pending q c (row id k ∷ rs)
        ≡ (if g == q && id == c then some (row id k) else find_pending q c rs)
  unfolding find_pending
  find_pending-row id k rs q c = ground (arith, row_group id k, row_member id k)

  -- The inserts of distinct members whose keys are free succeed, and touch their rows alone.
  pub insert_pending_total :
      (m : Map GroupMembershipAction) (rs : List PendingRequest)
      → Distinct m
      → ((id : ℕ) (to : GroupMembershipAction)
          → lookup id m ≡ some to
          → (is_some (pending_type to) ≡ true) × (find_pending g id rs ≡ none))
      → (rs' : List PendingRequest) × (insert_pending row m rs ≡ some rs')
        × ((q c : ℕ)
            → find_pending q c rs' ≡ (
                if g == q
                then pending_after (row c) (lookup c m) (find_pending q c rs)
                else find_pending q c rs))
  unfolding insert_pending lookup
  insert_pending_total [] rs d free = (rs, refl, λ q c. ground arith)
  insert_pending_total ((id, to) ∷ m) rs d free =
      let (pending, vacant) = free id to (ground arith) in
      elim (Option-cases (pending_type to)) [
        | inl e ↦ absurd (ground arith)
        | inr (k, e) ↦
            let (rs', done, found) = insert_pending_total m (row id k ∷ rs) d.1 (λ j to' h.
              let (p', v') = free j to' (ground arith) in
              (p', ground (arith, find_pending-row id k rs g j))) in
            (
              rs',
              rw (add_pending_lem id to k rs e vacant, insert_pending) done,
              λ q c. ground (arith, found q c, find_pending-row id k rs q c),
            )
      ]
