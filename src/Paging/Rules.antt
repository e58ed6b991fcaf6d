-- ===== src/Paging/Rules.antt =====
-- The sorting rules of a request: `parseSortingRules` with the functions that it calls
-- (app/service/sorting.go). The Go maps are association lists in the order of insertion.
use algorea_backend.Shared.{
  ℕ, Bool, true, false, ◌&&◌, ◌||◌, not, Option, none, some, is_some, List, [], ◌∷◌, ◌++◌, ltb,
  ◌==◌, if◌then◌else◌, Text, text_eq, split,
}
use algorea_backend.Paging.Conditions.{
  SortingDirection, asc, desc, NullPlacement, unplaced, first, last, SortingType,
}

-- `FieldSortingParams`.
pub record FieldSortingParams : Type 0 where
  pub column_name : Text
  pub nullable : Bool

abbrev pub Fields {ℓ} : Type ℓ → Type ℓ
Fields V = List (Text × V)

unfoldable pub field {ℓ} : {V : Type ℓ} → Text → Fields V → Option V
field name [] = none
field name ((other, v) ∷ fields) = if text_eq other name then some v else field name fields

-- Is the last byte of the text the one given?
unfoldable pub ends_with : ℕ → Text → Bool
ends_with c [] = false
ends_with c (d ∷ []) = d == c
ends_with c (d ∷ e ∷ s) = ends_with c (e ∷ s)

unfoldable pub without_last : Text → Text
without_last [] = []
without_last (d ∷ []) = []
without_last (d ∷ e ∷ s) = d ∷ without_last (e ∷ s)

-- The suffix '$' places NULL last.
unfoldable pub strip_dollar : SortingDirection → Text → Text × SortingType
strip_dollar direction s =
    if ends_with 36 s
    then (without_last s, record { sorting_direction = direction; null_placement = last })
    else (s, record { sorting_direction = direction; null_placement = unplaced })

-- `getFieldNameAndSortingTypeFromSortStatement`: the prefix '-' asks for the descending order.
unfoldable pub get_field_name_and_sorting_type : Text → Text × SortingType
get_field_name_and_sorting_type [] = strip_dollar asc []
get_field_name_and_sorting_type (c ∷ s) =
    if c == 45 then strip_dollar desc s else strip_dollar asc (c ∷ s)

pub data SortingError : Type 0 where
  duplicate unallowed non_nullable : SortingError

abbrev pub is_last : NullPlacement → Bool
is_last last = true
is_last _ = false

-- `validateSortingField`, for a field with its configuration; `none` is no error.
unfoldable pub validate_sorting_field :
    Fields SortingType → Text → Option FieldSortingParams → SortingType → Option SortingError
validate_sorting_field types name none sorting =
    if is_some (field name types) then some duplicate else some unallowed
validate_sorting_field types name (some params) sorting =
    if is_some (field name types)
    then some duplicate
    else if not params.nullable && is_last sorting.null_placement
    then some non_nullable
    else none

-- A nullable field that has no '$' has NULL first.
unfoldable pub with_default_placement : Option FieldSortingParams → SortingType → SortingType
with_default_placement none sorting = sorting
with_default_placement (some params) sorting =
    if params.nullable && not (is_last sorting.null_placement)
    then record sorting { null_placement = first }
    else sorting

pub data Parsed : Type 0 where
  parsed : List Text → Fields SortingType → Parsed
  rejected : SortingError → Parsed

-- The loop over the tie-breakers: the fields that are not used yet, in the order of the map.
unfoldable pub missing_tie_breakers {ℓ} : {V : Type ℓ} → Fields SortingType → Fields V → List Text
missing_tie_breakers types [] = []
missing_tie_breakers types ((name, v) ∷ fields) =
    let others = missing_tie_breakers types fields in
    if is_some (field name types) then others else name ∷ others

unfoldable pub ascending : List Text → Fields SortingType
ascending [] = []
ascending (name ∷ names) =
    (name, record { sorting_direction = asc; null_placement = unplaced }) ∷ ascending names

-- The order of the bytes, as `sort.Strings` compares.
unfoldable pub text_le : Text → Text → Bool
text_le [] t = true
text_le (c ∷ s) [] = false
text_le (c ∷ s) (d ∷ t) = let rest = text_le s t in ltb c d || (c == d && rest)

unfoldable pub insert_sorted : Text → List Text → List Text
insert_sorted s [] = s ∷ []
insert_sorted s (t ∷ ts) =
    let rest = insert_sorted s ts in if text_le s t then s ∷ t ∷ ts else t ∷ rest

-- `sort.Strings`.
unfoldable pub sort_strings : List Text → List Text
sort_strings [] = []
sort_strings (s ∷ ss) = insert_sorted s (sort_strings ss)

module _ {ℓ} {V : Type ℓ} (configured : Fields FieldSortingParams) (tie_breakers : Fields V) where
  abbrev pub finish : List Text → Fields SortingType → Parsed
  finish used types =
      let added = missing_tie_breakers types tie_breakers in
      parsed (used ++ sort_strings added) (types ++ ascending added)

  -- The loop over the statements.
  unfoldable pub parse_statements : List Text → List Text → Fields SortingType → Parsed
  parse_statements [] used types = finish used types
  parse_statements (statement ∷ statements) used types =
      let name = (get_field_name_and_sorting_type statement).0 in
      let sorting =
        with_default_placement (field name configured)
          (get_field_name_and_sorting_type statement).1 in
      let rest =
        parse_statements statements (used ++ (name ∷ [])) (types ++ ((name, sorting) ∷ [])) in
      elim (validate_sorting_field types name (field name configured)
        (get_field_name_and_sorting_type statement).1) [ none ↦ rest | some error ↦ rejected error ]

  -- `parseSortingRules`.
  unfoldable pub parse_sorting_rules : Text → Parsed
  parse_sorting_rules rules = parse_statements (split 44 rules) [] []
