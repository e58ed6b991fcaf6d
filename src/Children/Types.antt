-- ===== src/Children/Types.antt =====
-- The children of a request and the relations of an item (app/api/items/items.go).
use algorea_backend.Shared.{ℕ, Bool}
use algorea_backend.Access.Tables.{ContentViewPropagation, UpperViewLevelsPropagation}
use algorea_backend.Threads.Status.{Integer}

pub data Category : Type 0 where
  undefined discovery application validation challenge : Category

-- `itemChild`. A field that is not set is the zero value; its name is in `IsSet`'s answers.
pub record ItemChild : Type 0 where
  pub item_id : ℕ
  pub order : Integer
  pub category : Category
  pub score_weight : Integer
  pub content_view_propagation : ContentViewPropagation
  pub upper_view_levels_propagation : UpperViewLevelsPropagation
  pub grant_view_propagation : Bool
  pub watch_propagation : Bool
  pub edit_propagation : Bool
  pub request_help_propagation : Bool

-- The fields that a request can leave out.
pub data ChildField : Type 0 where
  category_field score_weight_field content_view_field upper_view_levels_field grant_view_field
        watch_field edit_field request_help_field :
      ChildField

-- `Permission`, the permissions of the user on the child.
pub record Permission : Type 0 where
  pub can_view_generated_value : ℕ
  pub can_grant_view_generated_value : ℕ
  pub can_watch_generated_value : ℕ
  pub can_edit_generated_value : ℕ

-- `itemsRelationData`, the relation that the child has already. The enums are their indexes.
pub record ItemsRelationData : Type 0 where
  pub category : Category
  pub score_weight : Integer
  pub content_view_propagation_value : ℕ
  pub upper_view_levels_propagation_value : ℕ
  pub grant_view_propagation : Bool
  pub watch_propagation : Bool
  pub edit_propagation : Bool
  pub request_help_propagation : Bool

-- The outcome of a validation: a value, "forbidden" with the field, or a panic.
pub data Checked (A : Type 0) : Type 0 where
  accepted : A → Checked A
  forbidden : ChildField → Checked A
  panics : Checked A
