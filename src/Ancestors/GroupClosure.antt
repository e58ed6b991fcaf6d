-- ===== src/Ancestors/GroupClosure.antt =====
-- Who is under whom, and until when, by the recursion on the parents and by the rows
-- (app/database/ancestors.go).
use algorea_backend.Shared.{
  ℕ, zero, suc, ◌≡◌, ◌≤◌, ◌<◌, inl, inr, subst, true, false, List, [], ◌∷◌, ◌==◌, ltb,
  if◌then◌else◌, arith, Bool-cases,
}
use algorea_backend.Ancestors.Tables.{PropagateTable, is_todo, has_pair, AncestorsState}
use algorea_backend.Ancestors.Rounds.{has_todo_parent}
use algorea_backend.Ancestors.Invariant.{IsForest}
use algorea_backend.Ancestors.Loop.{closure}
use algorea_backend.Ancestors.Groups.{
  GroupAncestor, GroupRelation, earliest, latest, relation_pairs, ancestor_pairs,
}
use algorea_backend.Ancestors.GroupLaws.{expiry, has_membership, through, via_parents, group_local}
use algorea_backend.Ancestors.GroupInsertions.{membership_relation, own_expiry}

-- After the time `t` the first group is still above the second: by the row of a group for itself,
-- which `own` gives the time of, and by relations that are not memberships of teams.
pub data IsAboveAfter (t : ℕ) (relations : List GroupRelation) (own : ℕ → ℕ) (a : ℕ)
    : ℕ → Type 0 where
  itself : ltb t (own a) ≡ true → IsAboveAfter t relations own a a
  under :
      {p c : ℕ}
      → IsAboveAfter t relations own a p
      → has_membership t relations p c ≡ true
      → IsAboveAfter t relations own a c

later_membership :
    (now t : ℕ) (relations : List GroupRelation) (p c : ℕ)
    → now ≤ t
    → has_membership t relations p c ≡ true
    → has_membership now relations p c ≡ true
unfolding has_membership
later_membership now t [] p c later e = absurd (ground arith)
later_membership now t (r ∷ relations) p c later e =
    ground (arith, later_membership now t relations p c later)

via_parent :
    (now t : ℕ) (relations : List GroupRelation) (v : ℕ → ℕ → ℕ) (c a : ℕ)
    → now ≤ t
    → ltb t (via_parents now relations v c a) ≡ true
    → (p : ℕ) × (has_membership t relations p c ≡ true) × (ltb t (v p a) ≡ true)
unfolding via_parents has_membership through latest earliest
via_parent now t [] v c a later e = absurd (ground arith)
via_parent now t (r ∷ relations) v c a later e =
    elim (Bool-cases (ltb t (via_parents now relations v c a))) [
      | inl rest ↦
          let (p, edge, high) = via_parent now t relations v c a later rest in
          (p, ground arith, high)
      | inr low ↦ (r.parent_group_id, ground arith, ground arith)
    ]

pub via_parent_lem :
    (now t : ℕ) (relations : List GroupRelation) (v : ℕ → ℕ → ℕ) (p c a : ℕ)
    → now ≤ t
    → has_membership t relations p c ≡ true
    → ltb t (v p a) ≡ true
    → ltb t (via_parents now relations v c a) ≡ true
unfolding via_parents has_membership through latest earliest
via_parent_lem now t [] v p c a later edge high = absurd (ground arith)
via_parent_lem now t (r ∷ relations) v p c a later edge high =
    elim (Bool-cases (has_membership t relations p c)) [
      | inl rest ↦ ground (arith, via_parent_lem now t relations v p c a later rest high)
      | inr over ↦ ground arith
    ]

-- The pairs of the rows that are not expired.
unfoldable pub active_pairs : ℕ → List GroupAncestor → List (ℕ × ℕ)
active_pairs now [] = []
active_pairs now (row ∷ rows) =
    let rest = active_pairs now rows in
    if ltb now row.expires_at then (row.ancestor_group_id, row.child_group_id) ∷ rest else rest

pub has_pair-active_pairs :
    (now : ℕ) (rows : List GroupAncestor) (a c : ℕ)
    → has_pair (active_pairs now rows) a c ≡ ltb now (expiry now rows c a)
unfolding active_pairs has_pair expiry latest
has_pair-active_pairs now [] a c = ground arith
has_pair-active_pairs now (row ∷ rows) a c = ground (arith, has_pair-active_pairs now rows a c)

pub active_todo_parent :
    (now : ℕ) (rows : List GroupAncestor) (marks : PropagateTable) (c : ℕ)
    → has_todo_parent (active_pairs now rows) marks c ≡ true
    → has_todo_parent (ancestor_pairs rows) marks c ≡ true
unfolding active_pairs ancestor_pairs has_todo_parent
active_todo_parent now [] marks c e = e
active_todo_parent now (row ∷ rows) marks c e = ground (arith, active_todo_parent now rows marks c)

-- A group that is not 'todo' has the rows that its parents give it, and a parent has a row for
-- itself.
pub record GroupsMarked (now : ℕ) (relations : List GroupRelation)
    (s : AncestorsState (List GroupAncestor)) : Type 0 where
  pub up_to_date :
      (c : ℕ)
      → is_todo s.propagate c ≡ false
      → (a : ℕ)
      → expiry now s.ancestors c a
        ≡ group_local now relations (own_expiry now s.ancestors) (expiry now s.ancestors) c a
  pub has_self :
      (p c : ℕ)
      → has_membership now relations p c ≡ true
      → ltb now (expiry now s.ancestors p p) ≡ true

module _ (now : ℕ) (relations : List GroupRelation) (rank : ℕ → ℕ) (height : ℕ)
    (forest : IsForest (relation_pairs relations) rank height) where
  membership_rank : (p c : ℕ) → has_membership now relations p c ≡ true → rank p < rank c
  membership_rank p c e = forest.above p c (membership_relation now relations p c e)

  pub membership_other : (p c : ℕ) → has_membership now relations p c ≡ true → (p == c) ≡ false
  membership_other p c e = ground (arith, membership_rank p c e)

  module _ (t : ℕ) (later : now ≤ t) (own : ℕ → ℕ) where
    pub closure-IsAboveAfter :
        (n c a : ℕ)
        → ltb t (closure (group_local now relations) 0 own n c a) ≡ true
        → IsAboveAfter t relations own a c
    unfolding closure group_local
    closure-IsAboveAfter zero c a e = absurd (ground arith)
    closure-IsAboveAfter (suc n) c a e = elim (Bool-cases (a == c)) [
      | inl same ↦
          let path : a ≡ c = ground (arith, same) in
          subst (λ x. IsAboveAfter t relations own a x) path
            (itself (ground (arith, e, same, path)))
      | inr other ↦
          let (p, edge, high) =
            via_parent now t relations (closure (group_local now relations) 0 own n) c a later
              (ground arith) in
          under (closure-IsAboveAfter n p a high) edge
    ]

    above_rank : (a c : ℕ) → IsAboveAfter t relations own a c → rank a ≤ rank c
    above_rank a c (itself e) = omega arith
    above_rank a c (under {p} above edge) = omega (
      arith,
      above_rank a p above,
      membership_rank p c (later_membership now t relations p c later edge),
    )

    pub IsAboveAfter-closure :
        (n c a : ℕ)
        → rank c < n
        → IsAboveAfter t relations own a c
        → ltb t (closure (group_local now relations) 0 own n c a) ≡ true
    unfolding closure group_local
    IsAboveAfter-closure zero c a low above = absurd (omega arith)
    IsAboveAfter-closure (suc n) c a low (itself e) = ground arith
    IsAboveAfter-closure (suc n) c a low (under {p} above edge) =
        let lower = membership_rank p c (later_membership now t relations p c later edge) in
        let other : (a == c) ≡ false = ground (arith, lower, above_rank a p above) in
        rw other (
          via_parent_lem now t relations (closure (group_local now relations) 0 own n) p c a later
            edge (IsAboveAfter-closure n p a (omega (arith, lower)) above))
