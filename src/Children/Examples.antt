-- ===== src/Children/Examples.antt =====
-- A request with two children: tests of the validators and instances of the theorems about them.
use algorea_backend.Shared.{ℕ, zero, ◌≡◌, refl, Bool, true, false, List, [], ◌∷◌}
use algorea_backend.Access.Tables.{ContentViewPropagation, UpperViewLevelsPropagation}
use algorea_backend.Threads.Status.{Integer}
use algorea_backend.Children.Types.{
  Checked, Category, ItemChild, ChildField, Permission, ItemsRelationData, accepted,
}
use algorea_backend.Children.Validators.{
  content_view_propagation_index_by_name, content_view_propagation_name_by_index,
  upper_view_levels_propagation_index_by_name, upper_view_levels_propagation_name_by_index,
  default_content_view_propagation, default_upper_view_levels_propagation, validate_child_boolean,
  is_not_raised, content_view_fails, default_or_old_content_view, validate_child_content_view,
  upper_view_levels_fails, default_or_old_upper_view_levels, validate_child_upper_view_levels,
}
use algorea_backend.Children.Fields.{
  apply_category, apply_score_weight, content_view, upper_view_levels, grant_view, watch, edit,
  request_help, validate_child, find_item, validate_with, validate_children,
}
use algorea_backend.Children.Policy.{
  is_request_allowed, are_allowed, is_old_level, are_requested, are_levels,
}
use algorea_backend.Children.Safety.{validate_children-is_allowed}
use algorea_backend.Children.Acceptance.{validate_children-accepts}

abbrev pub unset : ℕ → ItemChild
unset i = record {
  item_id = i;
  order = Integer.pos 1;
  category = Category.undefined;
  score_weight = Integer.pos 0;
  content_view_propagation = ContentViewPropagation.none;
  upper_view_levels_propagation = UpperViewLevelsPropagation.use_content_view_propagation;
  grant_view_propagation = false;
  watch_propagation = false;
  edit_propagation = false;
  request_help_propagation = false;
}

-- The request sets only watch_propagation, for the first child, and to true.
abbrev pub request : List ItemChild
request = record (unset 2) { watch_propagation = true } ∷ unset 3 ∷ []

abbrev pub is_set : ℕ → ChildField → Bool
is_set zero ChildField.watch_field = true
is_set _ _ = false

-- The user may grant "solution" on the new child, and nothing on the other.
abbrev pub permission : ℕ → Permission
permission grant = record {
  can_view_generated_value = 3;
  can_grant_view_generated_value = grant;
  can_watch_generated_value = 1;
  can_edit_generated_value = 1;
}

abbrev pub permissions : List (ℕ × Permission)
permissions = (2, permission 1) ∷ (3, permission 5) ∷ []

-- The relation with the first child lets "watch" through already.
abbrev pub old : List (ℕ × ItemsRelationData)
old =
    (
      2,
      record {
        category = Category.discovery;
        score_weight = Integer.pos 2;
        content_view_propagation_value = 3;
        upper_view_levels_propagation_value = 1;
        grant_view_propagation = true;
        watch_propagation = true;
        edit_propagation = false;
        request_help_propagation = false;
      },
    )
    ∷ []

abbrev pub first_saved : ItemChild
first_saved = record (unset 2) {
  category = Category.discovery;
  score_weight = Integer.pos 2;
  content_view_propagation = ContentViewPropagation.as_content;
  grant_view_propagation = true;
  watch_propagation = true;
}

abbrev pub second_saved : ItemChild
second_saved = record (unset 3) {
  score_weight = Integer.pos 1;
  content_view_propagation = ContentViewPropagation.as_info;
  upper_view_levels_propagation = UpperViewLevelsPropagation.as_is;
  request_help_propagation = true;
}

-- What a run of the validators unfolds.
unfoldable pub run_validation : List (ℕ × Permission) → Checked (List ItemChild)
unfolding validate_children validate_with find_item validate_child content_view upper_view_levels
    grant_view watch edit request_help apply_category apply_score_weight validate_child_content_view
    validate_child_upper_view_levels validate_child_boolean is_not_raised content_view_fails
    upper_view_levels_fails default_or_old_content_view default_or_old_upper_view_levels
    default_content_view_propagation default_upper_view_levels_propagation
    content_view_propagation_index_by_name content_view_propagation_name_by_index
    upper_view_levels_propagation_index_by_name upper_view_levels_propagation_name_by_index
run_validation known = validate_children is_set known old 0 request

pub request_passes :
    validate_children is_set permissions old 0 request ≡ accepted (first_saved ∷ second_saved ∷ [])
unfolding run_validation
request_passes = refl

pub levels : are_levels permissions ≡ true
unfolding are_levels
levels = refl

validate_children-is_allowed_example :
    are_allowed permissions old request (first_saved ∷ second_saved ∷ []) ≡ true
validate_children-is_allowed_example =
    validate_children-is_allowed is_set permissions old request (first_saved ∷ second_saved ∷ [])
      levels request_passes

requested : are_requested is_set permissions old 0 request ≡ true
unfolding are_requested is_request_allowed is_old_level find_item
    content_view_propagation_index_by_name upper_view_levels_propagation_index_by_name
requested = refl

validate_children-accepts_example :
    (saved : List ItemChild) × (validate_children is_set permissions old 0 request ≡ accepted saved)
    × (are_allowed permissions old request saved ≡ true)
validate_children-accepts_example =
    validate_children-accepts is_set permissions old request levels requested
