-- ===== src/Access/Removal.antt =====
-- The removal of a relation of items: the trigger `before_delete_items_items`
-- (db/migrations/2409192304_rename_table_results_propagate_items_into_results_recompute_for_items_in_triggers.sql)
-- and the propagation that follows
-- (app/database/permission_granted_store_compute_all_access.go).
use algorea_backend.Shared.{
  ℕ, zero, suc, ◌+◌, ◌≡◌, ◌≤◌, inl, inr, refl, ◌∙◌, false, ◌&&◌, ◌||◌, not, some, List, [], ◌∷◌,
  ◌==◌, if◌then◌else◌, arith, Bool-cases,
}
use algorea_backend.Access.Tables.{
  ItemItem, children, Propagate, GeneratedTable, generated_row, Items, State,
}
use algorea_backend.Access.Rounds.{
  is_self, is_children, current_marks, to_process, propagation_step, is_processed, is_nil,
  compute_all_access,
}
use algorea_backend.Access.Marks.{is_child, is_selected, selected_parent}
use algorea_backend.Access.Invariant.{
  IsRanked, IsBelow, current-is_self, to_process-is_processed, next_row, next-is_self,
}
use algorea_backend.Access.Steps.{next-IsBelow}
use algorea_backend.Access.Loop.{high_stop}

-- DELETE FROM items_items of one relation.
unfoldable pub delete_relation : ℕ → ℕ → List ItemItem → List ItemItem
delete_relation parent child [] = []
delete_relation parent child (r ∷ relations) =
    let rest = delete_relation parent child relations in
    if r.parent_item_id == parent && r.child_item_id == child then rest else r ∷ rest

-- INSERT IGNORE of the parent with 'children', for each row of permissions_generated of the parent.
unfoldable pub mark_parent_as_children : ℕ → GeneratedTable → List Propagate → List Propagate
mark_parent_as_children parent [] marks = marks
mark_parent_as_children parent ((g, i, p) ∷ rows) marks =
    let rest = mark_parent_as_children parent rows marks in
    if i == parent && not (is_self rest g parent || is_children rest g parent)
    then record { group_id = g; item_id = parent; propagate_to = children } ∷ rest
    else rest

unfoldable pub remove_relation : ℕ → ℕ → Items → Items
remove_relation parent child items = record {
  permissions_granted = items.permissions_granted;
  items_items = delete_relation parent child items.items_items;
  items_ancestors = items.items_ancestors;
}

unfoldable pub mark_removed : ℕ → State → State
mark_removed parent s = record {
  permissions_generated = s.permissions_generated;
  permissions_propagate =
      mark_parent_as_children parent s.permissions_generated s.permissions_propagate;
}

pub removed-is_self :
    (parent : ℕ) (rows : GeneratedTable) (marks : List Propagate) (g i : ℕ)
    → is_self (mark_parent_as_children parent rows marks) g i ≡ is_self marks g i
unfolding mark_parent_as_children is_self
removed-is_self parent [] marks g i = refl
removed-is_self parent ((h, j, p) ∷ rows) marks g i =
    ground (arith, removed-is_self parent rows marks g i)

module _ (items : Items) (c : ℕ) (orphan : (p : ℕ) → is_child items.items_items p c ≡ false) where
  not_selected :
      (table : GeneratedTable) (marks : List Propagate) (g : ℕ)
      → is_selected items table marks g c ≡ false
  not_selected table marks g = elim (Bool-cases (is_selected items table marks g c)) [
    | inr out ↦ out
    | inl e ↦
        let (p, mark, child) = selected_parent items table marks g c e in
        absurd (ground (arith, child, orphan p))
  ]

  clean_current :
      (s : State) (g : ℕ)
      → is_self s.permissions_propagate g c ≡ false
      → is_self (current_marks items s) g c ≡ false
  clean_current s g clean =
      current-is_self items s g c
      ∙ rw (not_selected s.permissions_generated s.permissions_propagate g, clean) refl

  clean_processed :
      (s : State) (g : ℕ)
      → is_self s.permissions_propagate g c ≡ false
      → is_processed (to_process items s) g c ≡ false
  clean_processed s g clean =
      to_process-is_processed items s g c ∙ rw (clean_current s g clean) refl

  step_keeps :
      (s : State) (g : ℕ)
      → is_self s.permissions_propagate g c ≡ false
      → generated_row g c (propagation_step items s).permissions_generated
        ≡ generated_row g c s.permissions_generated
  step_keeps s g clean = next_row items s g c ∙ rw (clean_processed s g clean) refl

  step_clean :
      (s : State) (g : ℕ)
      → is_self s.permissions_propagate g c ≡ false
      → is_self (propagation_step items s).permissions_propagate g c ≡ false
  step_clean s g clean = next-is_self items s g c ∙ rw (clean_current s g clean) refl

  module _ (rank : ℕ → ℕ) (height : ℕ) (ranked : IsRanked items rank height) where
    abbrev KeepsRow : ℕ → State → Type 0
    KeepsRow fuel s =
        (done : State) × (compute_all_access fuel items s ≡ some done)
        × ((g : ℕ)
            → is_self s.permissions_propagate g c ≡ false
            → generated_row g c done.permissions_generated
              ≡ generated_row g c s.permissions_generated)

    loop_keeps :
        (n k : ℕ) (s : State)
        → height ≤ k + n
        → IsBelow rank k s.permissions_propagate
        → KeepsRow (suc n) s
    unfolding compute_all_access
    loop_keeps zero k s bound below =
        let stop = high_stop items rank height ranked s k below (omega arith) in
        (propagation_step items s, rw (stop, compute_all_access) refl, step_keeps s)
    loop_keeps (suc n) k s bound below = elim (Bool-cases (is_nil (to_process items s))) [
      | inl stop ↦ (propagation_step items s, rw (stop, compute_all_access) refl, step_keeps s)
      | inr go ↦
          let (done, runs, same) =
            loop_keeps n (suc k) (propagation_step items s) (omega arith)
              (next-IsBelow items rank height ranked s k below) in
          (
            done,
            rw (go, compute_all_access) runs,
            λ g clean. same g (step_clean s g clean) ∙ step_keeps s g clean,
          )
    ]

-- The propagation after the removal of the last parent of an item leaves the permissions of the
-- item as they were, those that came from the parent included: the trigger marks the parent
-- 'children', and the item is no longer one of its children. The items that are left have no cycle,
-- and the group has no other mark on the item.
pub compute_all_access-removed :
    (items : Items) (s : State) (parent child : ℕ) (rank : ℕ → ℕ) (height : ℕ)
    → IsRanked (remove_relation parent child items) rank height
    → ((p : ℕ) → is_child (delete_relation parent child items.items_items) p child ≡ false)
    → (done : State) × (compute_all_access
          (suc height)
          (remove_relation parent child items)
          (mark_removed parent s)
        ≡ some done)
      × ((g : ℕ)
          → is_self s.permissions_propagate g child ≡ false
          → generated_row g child done.permissions_generated
            ≡ generated_row g child s.permissions_generated)
unfolding remove_relation mark_removed
compute_all_access-removed items s parent child rank height ranked orphan =
    let (done, runs, same) =
      loop_keeps (remove_relation parent child items) child orphan rank height ranked height 0
        (mark_removed parent s) (omega arith)
        (record { self_rank = λ g i mark. omega arith; children_rank = λ g i mark. omega arith }) in
    (
      done,
      runs,
      λ g clean.
          same g (
            removed-is_self parent s.permissions_generated s.permissions_propagate g child ∙ clean),
    )
