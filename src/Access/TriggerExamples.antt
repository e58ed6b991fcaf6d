-- ===== src/Access/TriggerExamples.antt =====
-- The chapter and its child when rows are inserted and deleted: tests of the definitions and
-- instances of the theorems.
use algorea_backend.Shared.{ℕ, ◌≡◌, refl, false, Option, some, [], ◌∷◌, arith}
use algorea_backend.Access.Tables.{
  Generated, ContentViewPropagation, UpperViewLevelsPropagation, ItemItem, generated_row,
  put_generated, State,
}
use algorea_backend.Access.Computation.{
  greatest, least, max_granted, is_owner_granted, view_from_parent, level_from_parent,
  max_from_parents, computed_permissions,
}
use algorea_backend.Access.Rounds.{
  is_self, is_children, without_pair, mark_self, mark_children_of,
  mark_children_of_children_as_self, delete_processed_children, is_ancestor_row, has_self_ancestor,
  processing, is_processed, update_permissions_generated, mark_self_as_children, current_marks,
  to_process, propagation_step, compute_all_access,
}
use algorea_backend.Access.Marks.{is_child}
use algorea_backend.Access.Invariant.{IsRanked, IsMarked}
use algorea_backend.Access.Triggers.{
  with_granted, with_relation, mark_granted, mark_inserted_relation, inserted_grant-IsMarked,
  deleted_grant-IsMarked, mark_inserted_relation-IsMarked,
}
use algorea_backend.Access.Removal.{
  delete_relation, mark_parent_as_children, remove_relation, mark_removed,
  compute_all_access-removed,
}
use algorea_backend.Access.Examples.{granted, chapter, start, rank, start-IsMarked}

abbrev row_of : ℕ → ℕ → Generated
row_of view grant = record {
  can_view = view;
  can_grant_view = grant;
  can_watch = 1;
  can_edit = 1;
  is_owner = false;
}

-- The permissions are propagated to the child.
abbrev settled : State
settled = record {
  permissions_generated = (7, 1, row_of 5 6) ∷ (7, 2, row_of 4 5) ∷ [];
  permissions_propagate = [];
}

removed-IsRanked : IsRanked (remove_relation 1 2 chapter) rank 2
unfolding remove_relation delete_relation is_ancestor_row is_child
removed-IsRanked = record {
  above = λ a i e. ground arith;
  covered = λ p i e. ground arith;
  bounded = λ i. ground arith;
}

removed_orphan : (p : ℕ) → is_child (delete_relation 1 2 chapter.items_items) p 2 ≡ false
unfolding delete_relation is_child
removed_orphan p = refl

run_removal : ℕ → Option State
unfolding compute_all_access propagation_step to_process current_marks mark_self_as_children
    update_permissions_generated is_processed processing has_self_ancestor is_ancestor_row
    delete_processed_children mark_children_of_children_as_self mark_children_of mark_self
    without_pair generated_row put_generated computed_permissions max_granted is_owner_granted
    max_from_parents view_from_parent level_from_parent greatest least remove_relation
    delete_relation mark_removed mark_parent_as_children is_self is_children
run_removal fuel = compute_all_access fuel (remove_relation 1 2 chapter) (mark_removed 1 settled)

-- The child keeps "content_with_descendants" though it has no parent any more.
removed_child_is_visible :
    run_removal 3
    ≡ some (record {
      permissions_generated = settled.permissions_generated;
      permissions_propagate = [];
    })
unfolding run_removal
removed_child_is_visible = refl

compute_all_access-removed_example :
    (done : State) × (compute_all_access 3 (remove_relation 1 2 chapter) (mark_removed 1 settled)
      ≡ some done)
    × ((g : ℕ)
        → is_self settled.permissions_propagate g 2 ≡ false
        → generated_row g 2 done.permissions_generated
          ≡ generated_row g 2 settled.permissions_generated)
compute_all_access-removed_example =
    compute_all_access-removed chapter settled 1 2 rank 2 removed-IsRanked removed_orphan

-- A second row for the group on the chapter.
inserted_grant-IsMarked_example :
    IsMarked (with_granted (granted ∷ granted ∷ []) chapter) (mark_granted granted start)
inserted_grant-IsMarked_example =
    inserted_grant-IsMarked granted (granted ∷ []) chapter start start-IsMarked

deleted_grant-IsMarked_example : IsMarked (with_granted [] chapter) (mark_granted granted start)
deleted_grant-IsMarked_example = deleted_grant-IsMarked granted [] chapter start start-IsMarked

abbrev second : ItemItem
second = record {
  parent_item_id = 1;
  child_item_id = 3;
  content_view_propagation = ContentViewPropagation.as_content;
  upper_view_levels_propagation = UpperViewLevelsPropagation.as_is;
  grant_view_propagation = false;
  watch_propagation = false;
  edit_propagation = false;
}

mark_inserted_relation-IsMarked_example :
    IsMarked (with_relation second chapter) (mark_inserted_relation second start)
mark_inserted_relation-IsMarked_example =
    mark_inserted_relation-IsMarked second chapter start start-IsMarked
