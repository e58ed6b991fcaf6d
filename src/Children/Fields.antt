-- ===== src/Children/Fields.antt =====
-- `validateChildrenFieldsAndApplyDefaults` on one child and on all (app/api/items/items.go).
use algorea_backend.Shared.{
  ℕ, suc, refl, Bool, Option, none, some, List, [], ◌∷◌, ◌==◌, if◌then◌else◌,
}
use algorea_backend.Access.Tables.{ContentViewPropagation, UpperViewLevelsPropagation}
use algorea_backend.Threads.Status.{Integer}
use algorea_backend.Children.Enums.{EnumValue, PermissionKind, permission_index_by_kind_and_name}
use algorea_backend.Children.Types.{
  Category, ItemChild, ChildField, Permission, ItemsRelationData, Checked, accepted, panics,
}
use algorea_backend.Children.Validators.{
  and_then, validate_child_boolean, old_value, validate_child_content_view,
  validate_child_upper_view_levels,
}

unfoldable pub apply_category : Bool → Category → Option ItemsRelationData → Category
apply_category is_set category (some old) = if is_set then category else old.category
apply_category is_set category none = if is_set then category else Category.undefined

unfoldable pub apply_score_weight : Bool → Integer → Option ItemsRelationData → Integer
apply_score_weight is_set weight (some old) = if is_set then weight else old.score_weight
apply_score_weight is_set weight none = if is_set then weight else Integer.pos 1

module _ (is_set : ChildField → Bool) (permission : Permission) (old : Option ItemsRelationData)
    (child : ItemChild) where
  unfoldable pub content_view : Checked ContentViewPropagation
  content_view =
      validate_child_content_view (is_set ChildField.content_view_field)
        child.content_view_propagation (old_value (λ o. o.content_view_propagation_value) old)
        permission.can_grant_view_generated_value

  unfoldable pub upper_view_levels : Checked UpperViewLevelsPropagation
  upper_view_levels =
      validate_child_upper_view_levels (is_set ChildField.upper_view_levels_field)
        child.upper_view_levels_propagation
        (old_value (λ o. o.upper_view_levels_propagation_value) old)
        permission.can_grant_view_generated_value

  unfoldable pub grant_view : Checked Bool
  grant_view =
      validate_child_boolean ChildField.grant_view_field (is_set ChildField.grant_view_field)
        child.grant_view_propagation (old_value (λ o. o.grant_view_propagation) old)
        permission.can_grant_view_generated_value
        (permission_index_by_kind_and_name PermissionKind.grant_view EnumValue.solution_with_grant
          refl)

  unfoldable pub watch : Checked Bool
  watch =
      validate_child_boolean ChildField.watch_field (is_set ChildField.watch_field)
        child.watch_propagation (old_value (λ o. o.watch_propagation) old)
        permission.can_watch_generated_value
        (permission_index_by_kind_and_name PermissionKind.watch EnumValue.answer_with_grant refl)

  unfoldable pub edit : Checked Bool
  edit =
      validate_child_boolean ChildField.edit_field (is_set ChildField.edit_field)
        child.edit_propagation (old_value (λ o. o.edit_propagation) old)
        permission.can_edit_generated_value
        (permission_index_by_kind_and_name PermissionKind.edit EnumValue.all_with_grant refl)

  -- The kind is "can_grant_view", not "grant_view".
  unfoldable pub request_help : Checked Bool
  request_help =
      validate_child_boolean ChildField.request_help_field (is_set ChildField.request_help_field)
        child.request_help_propagation (old_value (λ o. o.request_help_propagation) old)
        permission.can_grant_view_generated_value
        (permission_index_by_kind_and_name PermissionKind.can_grant_view_kind EnumValue.content
          refl)

  unfoldable pub validate_child : Checked ItemChild
  validate_child = and_then content_view λ content. and_then upper_view_levels λ upper.
      and_then grant_view λ grant. and_then watch λ watches. and_then edit λ edits.
        and_then request_help λ help. accepted (record {
          item_id = child.item_id;
          order = child.order;
          category = apply_category (is_set ChildField.category_field) child.category old;
          score_weight =
              apply_score_weight (is_set ChildField.score_weight_field) child.score_weight old;
          content_view_propagation = content;
          upper_view_levels_propagation = upper;
          grant_view_propagation = grant;
          watch_propagation = watches;
          edit_propagation = edits;
          request_help_propagation = help;
        })

-- `childrenInfoMap` and `oldRelationsMap`, by item.
unfoldable pub find_item : {A : Type 0} → ℕ → List (ℕ × A) → Option A
find_item i [] = none
find_item i ((j, x) ∷ entries) = if j == i then some x else find_item i entries

-- A child without permissions in the map is a nil pointer.
unfoldable pub validate_with :
    (ChildField → Bool)
    → Option Permission
    → Option ItemsRelationData
    → ItemChild
    → Checked ItemChild
validate_with is_set none old child = panics
validate_with is_set (some permission) old child = validate_child is_set permission old child

-- `validateChildrenFieldsAndApplyDefaults`, from the given index.
unfoldable pub validate_children :
    (ℕ → ChildField → Bool)
    → List (ℕ × Permission)
    → List (ℕ × ItemsRelationData)
    → ℕ
    → List ItemChild
    → Checked (List ItemChild)
validate_children is_set permissions old index [] = accepted []
validate_children is_set permissions old index (child ∷ children) =
    let rest = validate_children is_set permissions old (suc index) children in
    and_then
      (validate_with (is_set index) (find_item child.item_id permissions)
        (find_item child.item_id old) child)
      λ first. and_then rest λ others. accepted (first ∷ others)
