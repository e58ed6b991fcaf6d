-- ===== src/Ancestors/Examples.antt =====
-- A chain of three items, where the last relation is new: tests of the definitions and instances of
-- the theorems.
use algorea_backend.Shared.{
  ℕ, ◌≡◌, ◌↔◌, inl, inr, refl, true, false, Option, some, List, [], ◌∷◌, ◌==◌, if◌then◌else◌, arith,
  Bool-cases,
}
use algorea_backend.Access.Tables.{
  Granted, ContentViewPropagation, UpperViewLevelsPropagation, ItemItem, self, same_pair,
  generated_row, State,
}
use algorea_backend.Access.Computation.{
  greatest, max_granted, is_owner_granted, view_from_parent, level_from_parent, max_from_parents,
  computed_permissions,
}
use algorea_backend.Access.Rounds.{is_self, is_children, compute_all_access}
use algorea_backend.Access.Invariant.{access_of, IsMarked}
use algorea_backend.Access.Loop.{access}
use algorea_backend.Ancestors.Tables.{
  AncestorsComputationState, is_todo, is_listed, has_pair, AncestorsState,
}
use algorea_backend.Ancestors.Rounds.{
  mark_todo, mark_descendants, has_todo_parent, mark_as_processing, mark_as_done,
  objects_to_process, recompute_ancestors, recompute_until_done, create_new_ancestors,
}
use algorea_backend.Ancestors.Invariant.{IsForest}
use algorea_backend.Ancestors.Items.{
  delete_ancestors, insert_ignore, insert_ancestors_of, insert_inherited, insert_parents,
  recompute_items, item_tables,
}
use algorea_backend.Ancestors.ItemLaws.{is_inherited}
use algorea_backend.Ancestors.ItemClosure.{IsAbove, ItemsMarked, create_new_ancestors-IsAbove}
use algorea_backend.Ancestors.Composition.{
  parent_pairs, with_ancestors, create_new_ancestors-compute_all_access,
}

abbrev rank : ℕ → ℕ
rank i = if i == 3 then 2 else if i == 2 then 1 else 0

abbrev chain : List (ℕ × ℕ)
chain = (1, 2) ∷ (2, 3) ∷ []

-- The relation of the items 2 and 3 is new.
abbrev items_before : AncestorsState (List (ℕ × ℕ))
items_before = record {
  ancestors = (1, 2) ∷ [];
  propagate = (3, AncestorsComputationState.todo) ∷ [];
}

chain-IsForest : IsForest chain rank 3
unfolding has_pair
chain-IsForest = record { above = λ p c e. ground arith; bounded = λ c. ground arith }

before-ItemsMarked : ItemsMarked chain items_before
unfolding is_todo has_pair is_inherited
before-ItemsMarked c fresh a = ground arith

run_items : ℕ → Option (AncestorsState (List (ℕ × ℕ)))
unfolding create_new_ancestors recompute_until_done recompute_ancestors objects_to_process
    mark_as_processing mark_as_done mark_descendants mark_todo has_todo_parent is_todo is_listed
    has_pair recompute_items delete_ancestors insert_ignore insert_ancestors_of insert_inherited
    insert_parents
run_items fuel = create_new_ancestors (item_tables chain) fuel items_before

items_after :
    run_items 4
    ≡ some (record {
      ancestors = (2, 3) ∷ (1, 3) ∷ (1, 2) ∷ [];
      propagate = (3, AncestorsComputationState.done) ∷ [];
    })
unfolding run_items
items_after = refl

create_new_ancestors-IsAbove_example :
    (done : AncestorsState (List (ℕ × ℕ))) × (create_new_ancestors
        (item_tables chain)
        4
        items_before
      ≡ some done)
    × ((c : ℕ)
        → (is_todo done.propagate c ≡ false)
          × ((a : ℕ) → (has_pair done.ancestors a c ≡ true) ↔ IsAbove chain a c))
create_new_ancestors-IsAbove_example =
    create_new_ancestors-IsAbove chain rank 3 chain-IsForest items_before before-ItemsMarked

-- The group 7 has "solution" on the item 1.
abbrev granted : Granted
granted = record {
  group_id = 7;
  item_id = 1;
  can_view_value = 5;
  can_grant_view_value = 1;
  can_watch_value = 1;
  can_edit_value = 1;
  is_owner_value = false;
}

abbrev relation : ℕ → ℕ → ItemItem
relation parent child = record {
  parent_item_id = parent;
  child_item_id = child;
  content_view_propagation = ContentViewPropagation.as_info;
  upper_view_levels_propagation = UpperViewLevelsPropagation.as_is;
  grant_view_propagation = false;
  watch_propagation = false;
  edit_propagation = false;
}

abbrev relations : List ItemItem
relations = relation 1 2 ∷ relation 2 3 ∷ []

abbrev unpropagated : State
unpropagated = record {
  permissions_generated = [];
  permissions_propagate = record { group_id = 7; item_id = 1; propagate_to = self } ∷ [];
}

unpropagated-IsMarked :
    (rows : List (ℕ × ℕ)) → IsMarked (with_ancestors (granted ∷ []) relations rows) unpropagated
unfolding is_self is_children generated_row computed_permissions max_granted is_owner_granted
    max_from_parents view_from_parent level_from_parent greatest
unpropagated-IsMarked rows = record {
  stale = λ g i. elim (Bool-cases (same_pair 7 1 g i)) [
    | inl e ↦ inr (inl (rw e refl))
    | inr e ↦ inl (elim (Bool-cases (2 == i)) [
      | inl f ↦ elim (Bool-cases (3 == i)) [ inl h ↦ rw (e, f, h) refl | inr h ↦ rw (e, f, h) refl ]
      | inr f ↦ elim (Bool-cases (3 == i)) [ inl h ↦ rw (e, f, h) refl | inr h ↦ rw (e, f, h) refl ]
    ])
  ];
  has_row = λ g i e. absurd (ground arith);
}

create_new_ancestors-compute_all_access_example :
    (ancestors : AncestorsState (List (ℕ × ℕ))) × (create_new_ancestors
        (item_tables (parent_pairs relations))
        4
        items_before
      ≡ some ancestors)
    × (done : State) × (compute_all_access 4
          (with_ancestors (granted ∷ []) relations ancestors.ancestors)
          unpropagated
        ≡ some done)
    × ((g i : ℕ)
        → access_of done.permissions_generated g i
          ≡ access (with_ancestors (granted ∷ []) relations ancestors.ancestors) 3 g i)
create_new_ancestors-compute_all_access_example =
    create_new_ancestors-compute_all_access (granted ∷ []) relations rank 3 chain-IsForest
      items_before unpropagated before-ItemsMarked unpropagated-IsMarked
