-- ===== src/Children/Requested.antt =====
-- The validators of the children accept a request that sets what is allowed
-- (app/api/items/items.go).
use algorea_backend.Shared.{
  ℕ, ◌≡◌, inl, inr, refl, ap, ◌∙◌, Bool, true, false, ◌&&◌, ◌||◌, not, Option, none, some, ◌==◌,
  leb, ltb, if◌then◌else◌, arith, Bool-cases,
}
use algorea_backend.Access.Tables.{ContentViewPropagation, UpperViewLevelsPropagation}
use algorea_backend.Children.Types.{ChildField, Checked, accepted, forbidden}
use algorea_backend.Children.Validators.{
  and_then, content_view_propagation_index_by_name, content_view_propagation_name_by_index,
  upper_view_levels_propagation_index_by_name, upper_view_levels_propagation_name_by_index,
  default_content_view_propagation, default_upper_view_levels_propagation, validate_child_boolean,
  is_not_raised, content_view_fails, default_or_old_content_view, validate_child_content_view,
  upper_view_levels_fails, default_or_old_upper_view_levels, validate_child_upper_view_levels,
}
use algorea_backend.Children.Policy.{
  content_view_limit, upper_view_levels_limit, is_level_allowed, is_flag_allowed, is_old_level,
}
use algorea_backend.Children.Allowed.{content_view-limit, upper_view_levels-limit}

abbrev pub IsAccepted : {A : Type 0} → Checked A → Type 0
IsAccepted {A} m = (x : A) × (m ≡ accepted x)

pub and_then-IsAccepted :
    {A B : Type 0} (m : Checked A) (f : A → Checked B)
    → IsAccepted m
    → ((x : A) → IsAccepted (f x))
    → IsAccepted (and_then m f)
and_then-IsAccepted m f (x, e) next = let (y, h) = next x in (y, ap (λ n. and_then n f) e ∙ h)

if_fails-IsAccepted :
    {A : Type 0} (kept fails : Bool) (x : A) (field : ChildField)
    → (kept ≡ false → fails ≡ false)
    → IsAccepted (if kept then accepted x else if fails then forbidden field else accepted x)
if_fails-IsAccepted true fails x field pass = (x, refl)
if_fails-IsAccepted false true x field pass = absurd (ground (arith, pass refl))
if_fails-IsAccepted false false x field pass = (x, refl)

level_passes :
    (level limit : ℕ) (old : Option ℕ)
    → is_level_allowed level limit old ≡ true
    → is_not_raised level old ≡ false
    → leb level limit ≡ true
unfolding is_not_raised
level_passes level limit none allowed raised = allowed
level_passes level limit (some old) allowed raised = ground arith

old_content_view-IsAccepted :
    (i : ℕ) → is_old_level i ≡ true → IsAccepted (content_view_propagation_name_by_index i)
unfolding content_view_propagation_name_by_index is_old_level
old_content_view-IsAccepted i e = elim (Bool-cases (i == 1)) [
  | inl one ↦ (ContentViewPropagation.none, rw one refl)
  | inr other ↦ elim (Bool-cases (i == 2)) [
    | inl two ↦ (ContentViewPropagation.as_info, rw (other, two) refl)
    | inr higher ↦ (
      ContentViewPropagation.as_content,
      rw (other, higher, let h : (i == 3) ≡ true = ground (arith, e, other, higher) in h) refl,
    )
  ]
]

old_upper_view_levels-IsAccepted :
    (i : ℕ) → is_old_level i ≡ true → IsAccepted (upper_view_levels_propagation_name_by_index i)
unfolding upper_view_levels_propagation_name_by_index is_old_level
old_upper_view_levels-IsAccepted i e = elim (Bool-cases (i == 1)) [
  | inl one ↦ (UpperViewLevelsPropagation.use_content_view_propagation, rw one refl)
  | inr other ↦ elim (Bool-cases (i == 2)) [
    | inl two ↦ (UpperViewLevelsPropagation.as_content_with_descendants, rw (other, two) refl)
    | inr higher ↦ (
      UpperViewLevelsPropagation.as_is,
      rw (other, higher, let h : (i == 3) ≡ true = ground (arith, e, other, higher) in h) refl,
    )
  ]
]

unfoldable pub is_old_value : Option ℕ → Bool
is_old_value none = true
is_old_value (some i) = is_old_level i

pub content_view-IsAccepted :
    (is_set : Bool) (level : ContentViewPropagation) (old : Option ℕ) (value : ℕ)
    → leb 1 value ≡ true
    → (not is_set
        || is_level_allowed
            (content_view_propagation_index_by_name level)
            (content_view_limit value)
            old)
      ≡ true
    → is_old_value old ≡ true
    → IsAccepted (validate_child_content_view is_set level old value)
unfolding validate_child_content_view default_or_old_content_view is_old_value
content_view-IsAccepted true level old value one allowed range =
    if_fails-IsAccepted (is_not_raised (content_view_propagation_index_by_name level) old)
      (content_view_fails level value) level ChildField.content_view_field
      (λ raised. ground (
        arith,
        content_view-limit level value one,
        level_passes (content_view_propagation_index_by_name level) (content_view_limit value) old
            allowed raised,
      ))
content_view-IsAccepted false level (some old) value one allowed range =
    old_content_view-IsAccepted old range
content_view-IsAccepted false level none value one allowed range =
    (default_content_view_propagation value, refl)

pub upper_view_levels-IsAccepted :
    (is_set : Bool) (level : UpperViewLevelsPropagation) (old : Option ℕ) (value : ℕ)
    → (not is_set
        || is_level_allowed
            (upper_view_levels_propagation_index_by_name level)
            (upper_view_levels_limit value)
            old)
      ≡ true
    → is_old_value old ≡ true
    → IsAccepted (validate_child_upper_view_levels is_set level old value)
unfolding validate_child_upper_view_levels default_or_old_upper_view_levels is_old_value
upper_view_levels-IsAccepted true level old value allowed range =
    if_fails-IsAccepted (is_not_raised (upper_view_levels_propagation_index_by_name level) old)
      (upper_view_levels_fails level value) level ChildField.upper_view_levels_field
      (λ raised. ground (
        arith,
        upper_view_levels-limit level value,
        level_passes (upper_view_levels_propagation_index_by_name level)
            (upper_view_levels_limit value) old allowed raised,
      ))
upper_view_levels-IsAccepted false level (some old) value allowed range =
    old_upper_view_levels-IsAccepted old range
upper_view_levels-IsAccepted false level none value allowed range =
    (default_upper_view_levels_propagation value, refl)

pub flag-IsAccepted :
    (field : ChildField) (is_set value : Bool) (old : Option Bool) (permission required : ℕ)
    → (not is_set || is_flag_allowed value (leb required permission) old) ≡ true
    → IsAccepted (validate_child_boolean field is_set value old permission required)
unfolding validate_child_boolean
flag-IsAccepted field false value (some old) permission required e = (old, refl)
flag-IsAccepted field false value none permission required e = (leb required permission, refl)
flag-IsAccepted field true value (some old) permission required e =
    if_fails-IsAccepted (not value || old) (value && ltb permission required) value field
      (λ raised. ground arith)
flag-IsAccepted field true value none permission required e =
    if_fails-IsAccepted false (value && ltb permission required) value field
      (λ raised. ground arith)
