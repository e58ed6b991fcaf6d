-- ===== src/Ancestors/GroupAncestry.antt =====
-- `createNewAncestors` makes groups_ancestors hold who is under whom, and until when
-- (app/database/ancestors.go).
use algorea_backend.Shared.{
  ℕ, suc, ◌≡◌, ◌≤◌, ◌↔◌, inl, inr, sym, ap, ◌∙◌, Bool, true, false, ◌||◌, some, List, ◌==◌, ltb,
  arith, Bool-cases,
}
use algorea_backend.Ancestors.Tables.{is_todo, has_pair, AncestorsState}
use algorea_backend.Ancestors.Rounds.{mark_descendants, has_todo_parent, create_new_ancestors}
use algorea_backend.Ancestors.Marks.{is_todo-mark_descendants, todo_parent, has_todo_parent_lem}
use algorea_backend.Ancestors.Invariant.{IsForest, IsInProgress}
use algorea_backend.Ancestors.Loop.{recompute_until_done-closure}
use algorea_backend.Ancestors.Groups.{
  GroupAncestor, GroupRelation, relation_pairs, ancestor_pairs, group_tables,
}
use algorea_backend.Ancestors.GroupLaws.{expiry, has_membership, group_local}
use algorea_backend.Ancestors.GroupInsertions.{own_expiry, groups-IsRecomputation}
use algorea_backend.Ancestors.GroupClosure.{
  IsAboveAfter, via_parent_lem, active_pairs, has_pair-active_pairs, active_todo_parent,
  GroupsMarked, membership_other, closure-IsAboveAfter, IsAboveAfter-closure,
}

module _ (now : ℕ) (relations : List GroupRelation) (rank : ℕ → ℕ) (height : ℕ)
    (forest : IsForest (relation_pairs relations) rank height) where
  -- The groups that can be out of date.
  dirty : AncestorsState (List GroupAncestor) → ℕ → Bool
  dirty s c = has_todo_parent (active_pairs now s.ancestors) s.propagate c || is_todo s.propagate c

  -- An active ancestor of a parent is one of a group that is not 'todo'.
  inherited_row :
      (s : AncestorsState (List GroupAncestor)) (p c a : ℕ)
      → GroupsMarked now relations s
      → has_membership now relations p c ≡ true
      → is_todo s.propagate c ≡ false
      → (a == c) ≡ false
      → ltb now (expiry now s.ancestors p a) ≡ true
      → has_pair (active_pairs now s.ancestors) a c ≡ true
  unfolding group_local
  inherited_row s p c a m edge fresh other active =
      has_pair-active_pairs now s.ancestors a c
      ∙ rw (m.up_to_date c fresh a, other)
          (via_parent_lem now now relations (expiry now s.ancestors) p c a (omega arith) edge
            active)

  dirty-closed :
      (s : AncestorsState (List GroupAncestor)) (p c : ℕ)
      → GroupsMarked now relations s
      → dirty s p ≡ true
      → has_membership now relations p c ≡ true
      → dirty s c ≡ true
  unfolding dirty
  dirty-closed s p c m stale edge = elim (Bool-cases (is_todo s.propagate c)) [
    | inl mark ↦ ground arith
    | inr fresh ↦ elim (Bool-cases (is_todo s.propagate p)) [
      | inl mark ↦
          let other = membership_other now relations rank height forest p c edge in
          let row = inherited_row s p c p m edge fresh other (m.has_self p c edge) in
          ground
            (arith, has_todo_parent_lem (active_pairs now s.ancestors) s.propagate p c row mark)
      | inr quiet ↦
          let (a, mark, above) =
            todo_parent (active_pairs now s.ancestors) s.propagate p (ground arith) in
          let other : (a == c) ≡ false = ground (arith, mark, fresh) in
          let row =
            inherited_row s p c a m edge fresh other
              (sym (has_pair-active_pairs now s.ancestors a p) ∙ above) in
          ground
            (arith, has_todo_parent_lem (active_pairs now s.ancestors) s.propagate a c row mark)
    ]
  ]

  abbrev marked : AncestorsState (List GroupAncestor) → AncestorsState (List GroupAncestor)
  marked s = record {
    ancestors = s.ancestors;
    propagate = mark_descendants (ancestor_pairs s.ancestors) s.propagate;
  }

  start-IsInProgress :
      (s : AncestorsState (List GroupAncestor))
      → GroupsMarked now relations s
      → IsInProgress
          (group_tables now relations)
          (expiry now)
          (own_expiry now)
          (group_local now relations)
          (has_membership now relations)
          (groups-IsRecomputation now relations)
          (dirty s)
          (marked s)
  unfolding dirty
  start-IsInProgress s m = record {
    settled = λ c clean a. m.up_to_date c (ground (arith, clean)) a;
    closed = λ p c stale edge. dirty-closed s p c m stale edge;
    marked = λ c stale.
        is_todo-mark_descendants (ancestor_pairs s.ancestors) s.propagate c
        ∙ ground (arith, active_todo_parent now s.ancestors s.propagate c);
  }

  -- The recomputation of groups_ancestors ends: where groups_groups has no cycle, memberships of
  -- teams left aside, the groups whose rows are out of date are marked 'todo' and every parent has a
  -- row for itself, as many rounds as the height of the groups, and one more, are enough. It leaves
  -- no group 'todo'. An ancestor has a row that expires after the time `t` (now or later) if and
  -- only if it is still above the group after `t`, by a chain of relations that all last longer.
  pub create_new_ancestors-IsAboveAfter :
      (s : AncestorsState (List GroupAncestor))
      → GroupsMarked now relations s
      → (done : AncestorsState (List GroupAncestor)) × (create_new_ancestors
            (group_tables now relations)
            (suc height)
            s
          ≡ some done)
        × ((c : ℕ)
            → (is_todo done.propagate c ≡ false)
              × ((t : ℕ)
                  → now ≤ t
                  → (a : ℕ)
                  → (ltb t (expiry now done.ancestors c a) ≡ true)
                    ↔ IsAboveAfter t relations (own_expiry now s.ancestors) a c))
  unfolding create_new_ancestors
  create_new_ancestors-IsAboveAfter s m =
      let (done, runs, result) =
        recompute_until_done-closure (group_tables now relations) (expiry now) (own_expiry now)
          (group_local now relations) (has_membership now relations)
          (groups-IsRecomputation now relations) rank height forest 0 (dirty s) (marked s)
          (start-IsInProgress s m) in
      (
        done,
        runs,
        λ c.
            let (finished, values) = result c in
            (
              finished,
              λ t later a. (
                λ row.
                    closure-IsAboveAfter now relations rank height forest t later
                      (own_expiry now s.ancestors) height c a (ap (ltb t) (sym (values a)) ∙ row),
                λ above.
                    ap (ltb t) (values a)
                    ∙ IsAboveAfter-closure now relations rank height forest t later
                        (own_expiry now s.ancestors) height c a (forest.bounded c) above,
              ),
            ),
      )
