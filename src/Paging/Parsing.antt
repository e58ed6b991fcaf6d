-- ===== src/Paging/Parsing.antt =====
-- What `parseSortingRules` returns (app/service/sorting.go).
use algorea_backend.Shared.{
  ◌≡◌, refl, ap, Bool, true, false, ◌&&◌, ◌||◌, not, Option, none, some, is_some, List, [], ◌∷◌,
  ◌++◌, Text, text_eq, text_eq-eq, arith, if◌then◌else◌, Bool-cases, inl, inr,
}
use algorea_backend.Paging.Conditions.{SortingType}
use algorea_backend.Paging.Order.{is_unplaced}
use algorea_backend.Paging.Rules.{
  FieldSortingParams, Fields, field, get_field_name_and_sorting_type, strip_dollar, is_last,
  validate_sorting_field, with_default_placement, missing_tie_breakers, ascending,
}
use algorea_backend.Paging.Names.{mem, are_distinct, is_disjoint}

unfoldable pub field_names {ℓ} : {V : Type ℓ} → Fields V → List Text
field_names [] = []
field_names ((name, v) ∷ fields) = name ∷ field_names fields

-- A nullable field has a place for NULL, and no other field has.
unfoldable pub is_well_placed : Option FieldSortingParams → SortingType → Bool
is_well_placed none t = false
is_well_placed (some params) t =
    if params.nullable then not (is_unplaced t.null_placement) else is_unplaced t.null_placement

unfoldable pub are_well_placed : Fields FieldSortingParams → Fields SortingType → Bool
are_well_placed configured [] = true
are_well_placed configured ((name, t) ∷ types) =
    is_well_placed (field name configured) t && are_well_placed configured types

abbrev is_tie_breaker : Option FieldSortingParams → Bool
is_tie_breaker none = false
is_tie_breaker (some params) = not params.nullable

-- `mustHaveValidTieBreakerFieldsList`, which panics otherwise.
unfoldable pub has_valid_tie_breakers {ℓ} :
    {V : Type ℓ} → Fields FieldSortingParams → Fields V → Bool
has_valid_tie_breakers configured [] = true
has_valid_tie_breakers configured ((name, v) ∷ fields) =
    is_tie_breaker (field name configured) && has_valid_tie_breakers configured fields

unfoldable pub all_used : List Text → List Text → Bool
all_used used [] = true
all_used used (name ∷ names) = mem name used && all_used used names

pub well_placed-++ :
    (configured : Fields FieldSortingParams) (types others : Fields SortingType)
    → are_well_placed configured (types ++ others)
      ≡ (are_well_placed configured types && are_well_placed configured others)
unfolding are_well_placed
well_placed-++ configured [] others = refl
well_placed-++ configured ((name, t) ∷ types) others =
    ground (arith, well_placed-++ configured types others)

-- A field that passes the validation is placed well.
pub validated_lem :
    (types : Fields SortingType) (name : Text) (params : Option FieldSortingParams)
    (sorting : SortingType)
    → validate_sorting_field types name params sorting ≡ none
    → (is_unplaced sorting.null_placement || is_last sorting.null_placement) ≡ true
    → (is_well_placed params (with_default_placement params sorting) ≡ true)
      × (is_some (field name types) ≡ false)
unfolding validate_sorting_field is_well_placed with_default_placement
validated_lem types name params sorting valid from_statement = ground arith

pub statement_placement :
    (s : Text)
    → (is_unplaced (get_field_name_and_sorting_type s).1.null_placement
        || is_last (get_field_name_and_sorting_type s).1.null_placement)
      ≡ true
unfolding get_field_name_and_sorting_type strip_dollar
statement_placement [] = ground arith
statement_placement (c ∷ s) = ground arith

pub field-ascending :
    (x : Text) (names : List Text) → is_some (field x (ascending names)) ≡ mem x names
unfolding field ascending mem
field-ascending x [] = refl
field-ascending x (name ∷ names) = ground (arith, field-ascending x names)

module _ {ℓ} {V : Type ℓ} (types : Fields SortingType) where
  pub mem-missing :
      (x : Text) (fields : Fields V)
      → mem x (missing_tie_breakers types fields)
        ≡ (mem x (field_names fields) && not (is_some (field x types)))
  unfolding mem missing_tie_breakers field_names
  mem-missing x [] = refl
  mem-missing x ((name, v) ∷ fields) = elim (Bool-cases (text_eq name x)) [
    | inl e ↦ ground (arith, mem-missing x fields, ap (λ y. field y types) (text_eq-eq name x e))
    | inr e ↦ ground (arith, mem-missing x fields)
  ]

  pub distinct-missing :
      (fields : Fields V)
      → are_distinct (field_names fields) ≡ true
      → are_distinct (missing_tie_breakers types fields) ≡ true
  unfolding are_distinct missing_tie_breakers field_names
  distinct-missing [] distinct = refl
  distinct-missing ((name, v) ∷ fields) distinct =
      ground (arith, distinct-missing fields, mem-missing name fields)

  pub disjoint-missing :
      (used : List Text) (fields : Fields V)
      → ((x : Text) → is_some (field x types) ≡ mem x used)
      → is_disjoint used (missing_tie_breakers types fields) ≡ true
  unfolding is_disjoint missing_tie_breakers
  disjoint-missing used [] same = refl
  disjoint-missing used ((name, v) ∷ fields) same =
      ground (arith, disjoint-missing used fields same, same name)

  pub well_placed-missing :
      (configured : Fields FieldSortingParams) (fields : Fields V)
      → has_valid_tie_breakers configured fields ≡ true
      → are_well_placed configured (ascending (missing_tie_breakers types fields)) ≡ true
  unfolding are_well_placed ascending missing_tie_breakers has_valid_tie_breakers is_well_placed
  well_placed-missing configured [] valid = refl
  well_placed-missing configured ((name, v) ∷ fields) valid =
      ground (arith, well_placed-missing configured fields)
