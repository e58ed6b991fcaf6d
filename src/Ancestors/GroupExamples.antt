-- ===== src/Ancestors/GroupExamples.antt =====
-- A chain of three groups, where the last relation is new: tests of the definitions and an instance
-- of the theorem.
use algorea_backend.Shared.{
  ℕ, ◌≡◌, ◌≤◌, ◌↔◌, refl, true, false, Option, some, List, [], ◌∷◌, ◌==◌, ltb, if◌then◌else◌, arith,
}
use algorea_backend.Ancestors.Tables.{
  AncestorsComputationState, is_todo, is_listed, has_pair, AncestorsState,
}
use algorea_backend.Ancestors.Rounds.{
  mark_todo, mark_descendants, has_todo_parent, mark_as_processing, mark_as_done,
  objects_to_process, recompute_ancestors, recompute_until_done, create_new_ancestors,
}
use algorea_backend.Ancestors.Invariant.{IsForest}
use algorea_backend.Ancestors.Groups.{
  GroupAncestor, GroupRelation, delete_group_ancestors, earliest, latest, is_joined,
  max_of_relation, max_expires_at, is_ancestor_of, rows_to_insert, insert_group_ancestors,
  recompute_groups, relation_pairs, ancestor_pairs, group_tables,
}
use algorea_backend.Ancestors.GroupLaws.{expiry, has_membership, through, via_parents, group_local}
use algorea_backend.Ancestors.GroupInsertions.{own_expiry}
use algorea_backend.Ancestors.GroupClosure.{IsAboveAfter, GroupsMarked}
use algorea_backend.Ancestors.GroupAncestry.{create_new_ancestors-IsAboveAfter}

abbrev rank : ℕ → ℕ
rank i = if i == 3 then 2 else if i == 2 then 1 else 0

abbrev group_relation : ℕ → ℕ → ℕ → GroupRelation
group_relation parent child expires = record {
  parent_group_id = parent;
  child_group_id = child;
  expires_at = expires;
  is_team_membership = false;
}

abbrev ancestor_row : ℕ → ℕ → ℕ → GroupAncestor
ancestor_row ancestor child expires = record {
  ancestor_group_id = ancestor;
  child_group_id = child;
  expires_at = expires;
}

-- The group 2 is under 1 until 500; that 3 is under 2 until 300 is new.
abbrev groups : List GroupRelation
groups = group_relation 1 2 500 ∷ group_relation 2 3 300 ∷ []

abbrev groups_before : AncestorsState (List GroupAncestor)
groups_before = record {
  ancestors =
      ancestor_row 1 1 999
      ∷ ancestor_row 2 2 999
      ∷ ancestor_row 3 3 999
      ∷ ancestor_row 1 2 500
      ∷ [];
  propagate = (3, AncestorsComputationState.todo) ∷ [];
}

groups-IsForest : IsForest (relation_pairs groups) rank 3
unfolding relation_pairs has_pair
groups-IsForest = record { above = λ p c e. ground arith; bounded = λ c. ground arith }

before-GroupsMarked : GroupsMarked 100 groups groups_before
unfolding is_todo expiry group_local via_parents through latest earliest has_membership
before-GroupsMarked = record {
  up_to_date = λ c fresh a. ground arith;
  has_self = λ p c e. ground arith;
}

run_groups : ℕ → Option (AncestorsState (List GroupAncestor))
unfolding create_new_ancestors recompute_until_done recompute_ancestors objects_to_process
    mark_as_processing mark_as_done mark_descendants mark_todo has_todo_parent is_todo is_listed
    recompute_groups delete_group_ancestors insert_group_ancestors rows_to_insert is_ancestor_of
    max_expires_at max_of_relation is_joined latest earliest relation_pairs ancestor_pairs
run_groups fuel = create_new_ancestors (group_tables 100 groups) fuel groups_before

groups_after :
    run_groups 4
    ≡ some (record {
      ancestors =
          ancestor_row 1 1 999
          ∷ ancestor_row 2 2 999
          ∷ ancestor_row 3 3 999
          ∷ ancestor_row 1 2 500
          ∷ ancestor_row 2 3 300
          ∷ ancestor_row 1 3 300
          ∷ [];
      propagate = (3, AncestorsComputationState.done) ∷ [];
    })
unfolding run_groups
groups_after = refl

create_new_ancestors-IsAboveAfter_example :
    (done : AncestorsState (List GroupAncestor)) × (create_new_ancestors
        (group_tables 100 groups)
        4
        groups_before
      ≡ some done)
    × ((c : ℕ)
        → (is_todo done.propagate c ≡ false)
          × ((t : ℕ)
              → 100 ≤ t
              → (a : ℕ)
              → (ltb t (expiry 100 done.ancestors c a) ≡ true)
                ↔ IsAboveAfter t groups (own_expiry 100 groups_before.ancestors) a c))
create_new_ancestors-IsAboveAfter_example =
    create_new_ancestors-IsAboveAfter 100 groups rank 3 groups-IsForest groups_before
      before-GroupsMarked
