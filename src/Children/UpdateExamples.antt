-- ===== src/Children/UpdateExamples.antt =====
-- An item with one child that gets a second one: tests of the update and instances of the theorems
-- about it.
use algorea_backend.Shared.{none, ℕ, some, List, [], ◌∷◌, ◌==◌, if◌then◌else◌}
use algorea_backend.Ancestors.Tables.{AncestorsComputationState}
use algorea_backend.Children.Update.{row_of_child, ItemsState}
use algorea_backend.Children.Listing.{ItemType, ChildInfo, stub}
use algorea_backend.Children.Examples.{permission, first_saved, second_saved}

-- The item 1 has the child 2.
abbrev before : ItemsState
before = record {
  items_items = row_of_child 1 first_saved ∷ [];
  items_ancestors = record { ancestors = (1, 2) ∷ []; propagate = [] };
}

abbrev rank : ℕ → ℕ
rank i = if i == 2 then 1 else 0

abbrev after : ItemsState
after = record {
  items_items = row_of_child 1 first_saved ∷ row_of_child 1 second_saved ∷ [];
  items_ancestors = record {
    ancestors = (1, 2) ∷ (1, 3) ∷ [];
    propagate = (3, AncestorsComputationState.done) ∷ (2, AncestorsComputationState.done) ∷ [];
  };
}

-- The user does not see the first child.
abbrev visible : List (ℕ × ChildInfo)
visible = (3, record { permission = permission 5; item_type = some ItemType.task }) ∷ []

abbrev infos : List (ℕ × ChildInfo)
infos = (2, record { permission = stub; item_type = none }) ∷ visible
