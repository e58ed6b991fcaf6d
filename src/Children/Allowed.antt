-- ===== src/Children/Allowed.antt =====
-- The validators of the children accept what the permissions allow, and nothing else
-- (app/api/items/items.go).
use algorea_backend.Shared.{
  ℕ, ◌≡◌, inl, inr, refl, Bool, true, false, ◌&&◌, ◌||◌, not, Option, none, some, ◌==◌, leb, ltb,
  if◌then◌else◌, arith, Bool-cases,
}
use algorea_backend.Access.Tables.{ContentViewPropagation, UpperViewLevelsPropagation}
use algorea_backend.Children.Types.{ChildField, Checked, accepted, forbidden, panics}
use algorea_backend.Children.Validators.{
  and_then, content_view_propagation_index_by_name, content_view_propagation_name_by_index,
  upper_view_levels_propagation_index_by_name, upper_view_levels_propagation_name_by_index,
  default_content_view_propagation, default_upper_view_levels_propagation, validate_child_boolean,
  is_not_raised, content_view_fails, default_or_old_content_view, validate_child_content_view,
  upper_view_levels_fails, default_or_old_upper_view_levels, validate_child_upper_view_levels,
}
use algorea_backend.Children.Policy.{
  content_view_limit, upper_view_levels_limit, is_level_allowed, is_flag_allowed,
}

-- Does an accepted value satisfy the test?
abbrev pub holds : {A : Type 0} → (A → Bool) → Checked A → Bool
holds test (accepted x) = test x
holds test (forbidden field) = true
holds test panics = true

pub and_then-holds :
    {A B : Type 0} (q : A → Bool) (p : B → Bool) (m : Checked A) (f : A → Checked B)
    → holds q m ≡ true
    → ((x : A) → q x ≡ true → holds p (f x) ≡ true)
    → holds p (and_then m f) ≡ true
and_then-holds q p (accepted x) f e next = next x e
and_then-holds q p (forbidden field) f e next = refl
and_then-holds q p panics f e next = refl

old_content_view :
    (i limit : ℕ)
    → holds
        (λ c. is_level_allowed (content_view_propagation_index_by_name c) limit (some i))
        (content_view_propagation_name_by_index i)
      ≡ true
unfolding content_view_propagation_name_by_index content_view_propagation_index_by_name
old_content_view i limit = elim (Bool-cases (i == 1)) [
  | inl one ↦ rw one (ground arith)
  | inr other ↦ elim (Bool-cases (i == 2)) [
    | inl two ↦ rw (other, two) (ground arith)
    | inr higher ↦ elim (Bool-cases (i == 3)) [
      | inl three ↦ rw (other, higher, three) (ground arith)
      | inr out ↦ rw (other, higher, out) refl
    ]
  ]
]

old_upper_view_levels :
    (i limit : ℕ)
    → holds
        (λ c. is_level_allowed (upper_view_levels_propagation_index_by_name c) limit (some i))
        (upper_view_levels_propagation_name_by_index i)
      ≡ true
unfolding upper_view_levels_propagation_name_by_index upper_view_levels_propagation_index_by_name
old_upper_view_levels i limit = elim (Bool-cases (i == 1)) [
  | inl one ↦ rw one (ground arith)
  | inr other ↦ elim (Bool-cases (i == 2)) [
    | inl two ↦ rw (other, two) (ground arith)
    | inr higher ↦ elim (Bool-cases (i == 3)) [
      | inl three ↦ rw (other, higher, three) (ground arith)
      | inr out ↦ rw (other, higher, out) refl
    ]
  ]
]

checked-holds :
    {A : Type 0} (test : A → Bool) (kept fails : Bool) (x : A) (field : ChildField)
    → (kept ≡ true → test x ≡ true)
    → (fails ≡ false → test x ≡ true)
    → holds test (if kept then accepted x else if fails then forbidden field else accepted x) ≡ true
checked-holds test true fails x field keep pass = keep refl
checked-holds test false true x field keep pass = refl
checked-holds test false false x field keep pass = pass refl

pub not_raised-allowed :
    (level limit : ℕ) (old : Option ℕ)
    → is_not_raised level old ≡ true
    → is_level_allowed level limit old ≡ true
unfolding is_not_raised
not_raised-allowed level limit none e = absurd (ground arith)
not_raised-allowed level limit (some old) e = rw e refl

under_limit-allowed :
    (level limit : ℕ) (old : Option ℕ)
    → leb level limit ≡ true
    → is_level_allowed level limit old ≡ true
under_limit-allowed level limit none e = e
under_limit-allowed level limit (some old) e = ground arith

pub content_view-limit :
    (level : ContentViewPropagation) (value : ℕ)
    → leb 1 value ≡ true
    → content_view_fails level value
      ≡ not (leb (content_view_propagation_index_by_name level) (content_view_limit value))
unfolding content_view_fails content_view_propagation_index_by_name
content_view-limit ContentViewPropagation.none value one = ground arith
content_view-limit ContentViewPropagation.as_info value one = ground arith
content_view-limit ContentViewPropagation.as_content value one = ground arith

pub upper_view_levels-limit :
    (level : UpperViewLevelsPropagation) (value : ℕ)
    → upper_view_levels_fails level value
      ≡ not
          (leb (upper_view_levels_propagation_index_by_name level) (upper_view_levels_limit value))
unfolding upper_view_levels_fails upper_view_levels_propagation_index_by_name
upper_view_levels-limit UpperViewLevelsPropagation.use_content_view_propagation value = ground arith
upper_view_levels-limit UpperViewLevelsPropagation.as_content_with_descendants value = ground arith
upper_view_levels-limit UpperViewLevelsPropagation.as_is value = ground arith

pub content_view-holds :
    (is_set : Bool) (level : ContentViewPropagation) (old : Option ℕ) (value : ℕ)
    → leb 1 value ≡ true
    → holds
        (λ c.
          is_level_allowed
            (content_view_propagation_index_by_name c)
            (content_view_limit value)
            old)
        (validate_child_content_view is_set level old value)
      ≡ true
unfolding validate_child_content_view default_or_old_content_view default_content_view_propagation
    content_view_propagation_index_by_name
content_view-holds true level old value one =
    checked-holds
      (λ c.
        is_level_allowed (content_view_propagation_index_by_name c) (content_view_limit value) old)
      (is_not_raised (content_view_propagation_index_by_name level) old)
      (content_view_fails level value) level ChildField.content_view_field
      (not_raised-allowed (content_view_propagation_index_by_name level) (content_view_limit value)
        old)
      (λ e.
        under_limit-allowed (content_view_propagation_index_by_name level)
          (content_view_limit value) old (ground (arith, content_view-limit level value one)))
content_view-holds false level (some old) value one =
    old_content_view old (content_view_limit value)
content_view-holds false level none value one = elim (Bool-cases (ltb 1 value)) [
  | inl two ↦ rw two (ground arith)
  | inr low ↦ rw low (ground arith)
]

pub upper_view_levels-holds :
    (is_set : Bool) (level : UpperViewLevelsPropagation) (old : Option ℕ) (value : ℕ)
    → holds
        (λ c.
          is_level_allowed
            (upper_view_levels_propagation_index_by_name c)
            (upper_view_levels_limit value)
            old)
        (validate_child_upper_view_levels is_set level old value)
      ≡ true
unfolding validate_child_upper_view_levels default_or_old_upper_view_levels
    default_upper_view_levels_propagation upper_view_levels_propagation_index_by_name
upper_view_levels-holds true level old value =
    checked-holds
      (λ c.
        is_level_allowed (upper_view_levels_propagation_index_by_name c)
          (upper_view_levels_limit value) old)
      (is_not_raised (upper_view_levels_propagation_index_by_name level) old)
      (upper_view_levels_fails level value) level ChildField.upper_view_levels_field
      (not_raised-allowed (upper_view_levels_propagation_index_by_name level)
        (upper_view_levels_limit value) old)
      (λ e.
        under_limit-allowed (upper_view_levels_propagation_index_by_name level)
          (upper_view_levels_limit value) old (ground (arith, upper_view_levels-limit level value)))
upper_view_levels-holds false level (some old) value =
    old_upper_view_levels old (upper_view_levels_limit value)
upper_view_levels-holds false level none value = elim (Bool-cases (leb 5 value)) [
  | inl five ↦ rw five (ground arith)
  | inr low ↦ elim (Bool-cases (leb 4 value)) [
    | inl four ↦ rw (low, four) (ground arith)
    | inr lower ↦ rw (low, lower) (ground arith)
  ]
]

pub flag-holds :
    (field : ChildField) (is_set value : Bool) (old : Option Bool) (permission required : ℕ)
    → holds
        (λ c. is_flag_allowed c (leb required permission) old)
        (validate_child_boolean field is_set value old permission required)
      ≡ true
unfolding validate_child_boolean
flag-holds field false value (some old) permission required = ground arith
flag-holds field false value none permission required = ground arith
flag-holds field true value none permission required =
    elim (Bool-cases (value && ltb permission required)) [
      | inl fails ↦ rw fails refl
      | inr passes ↦ rw passes (ground arith)
    ]
flag-holds field true value (some old) permission required =
    checked-holds (λ c. is_flag_allowed c (leb required permission) (some old)) (not value || old)
      (value && ltb permission required) value field (λ e. ground arith) (λ e. ground arith)
