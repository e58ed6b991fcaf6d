-- ===== src/Paging/Examples.antt =====
-- A list that is sorted by a nullable name and an id: tests of the definitions and instances of the
-- theorems.
use algorea_backend.Shared.{
  ℕ, ◌≡◌, refl, Bool, true, false, Option, none, some, List, [], ◌∷◌, Text, text_eq, codes, split,
  if◌then◌else◌, ◌⊎◌, ◌-◌,
}
use algorea_backend.Paging.Conditions.{
  asc, desc, unplaced, last, UsedField, condition_sign, place_nulls, field_condition,
  field_equality, construct_paging_conditions, sql_and, sql_or, is_true, sql_compare, sql_equal,
  sql_null_safe_equal, Row, eval_condition, eval_all, eval_any, is_on_page,
}
use algorea_backend.Paging.Order.{is_after, has_values, has_all_values}
use algorea_backend.Paging.Pages.{are_unplaced, agree, is_on_page-is_after, is_on_page-plain}
use algorea_backend.Paging.Rules.{
  FieldSortingParams, Fields, field, ends_with, without_last, strip_dollar,
  get_field_name_and_sorting_type, validate_sorting_field, with_default_placement, Parsed, parsed,
  rejected, duplicate, missing_tie_breakers, ascending, text_le, insert_sorted, sort_strings,
  parse_statements, parse_sorting_rules,
}
use algorea_backend.Paging.Names.{mem, are_distinct}
use algorea_backend.Paging.Parsing.{field_names, has_valid_tie_breakers}
use algorea_backend.Paging.Completeness.{is_complete, parse_sorting_rules-is_complete}
use algorea_backend.Paging.Statements.{starts_with, statement, get_field_name-statement}
use algorea_backend.Paging.Parameters.{
  without_prefix, PagingParameters, incomplete, has_unknown_field, collect_values,
  parse_paging_parameters, parse_paging_parameters-names,
}

abbrev name : Text
name = codes "name"

abbrev id : Text
id = codes "id"

abbrev configured : Fields FieldSortingParams
configured =
    (name, record { column_name = codes "groups.name"; nullable = true })
    ∷ (id, record { column_name = codes "groups.id"; nullable = false })
    ∷ []

abbrev tie_breakers : Fields ℕ
tie_breakers = (id, 0) ∷ []

abbrev by_name : List UsedField
by_name =
    (name, record { sorting_direction = desc; null_placement = last })
    ∷ (id, record { sorting_direction = asc; null_placement = unplaced })
    ∷ []

abbrev by_id : List UsedField
by_id = (id, record { sorting_direction = asc; null_placement = unplaced }) ∷ []

abbrev row_of : Option ℕ → ℕ → Row
row_of n i f = if text_eq f name then n else some i

-- What the tests unfold.
run_page : Row → Row → Bool
unfolding text_eq is_on_page construct_paging_conditions field_condition field_equality place_nulls
    condition_sign eval_any eval_all eval_condition sql_and sql_or is_true sql_compare sql_equal
    sql_null_safe_equal has_values has_all_values are_unplaced agree
run_page a b = is_on_page a b true by_name

run_rules : Text → Parsed
unfolding text_eq parse_sorting_rules parse_statements split get_field_name_and_sorting_type
    strip_dollar ends_with without_last field validate_sorting_field with_default_placement
    missing_tie_breakers ascending sort_strings insert_sorted text_le mem are_distinct field_names
    has_valid_tie_breakers starts_with
run_rules rules = parse_sorting_rules configured tie_breakers rules

null_comes_last : run_page (row_of none 3) (row_of (some 5) 2) ≡ true
unfolding run_page
null_comes_last = refl

name_after_null : run_page (row_of (some 5) 3) (row_of none 2) ≡ false
unfolding run_page
name_after_null = refl

rules_of_name : run_rules (codes "-name$") ≡ parsed (name ∷ id ∷ []) by_name
unfolding run_rules
rules_of_name = refl

name_twice : run_rules (codes "name,-name") ≡ rejected duplicate
unfolding run_rules
name_twice = refl

is_on_page-is_after_example :
    is_on_page (row_of none 3) (row_of (some 5) 2) true by_name
    ≡ is_after by_name (row_of none 3) (row_of (some 5) 2)
unfolding run_page
is_on_page-is_after_example =
    is_on_page-is_after (row_of none 3) (row_of (some 5) 2) by_name refl refl

is_on_page-plain_example :
    is_on_page (row_of none 3) (row_of none 2) false by_id
    ≡ is_after by_id (row_of none 3) (row_of none 2)
unfolding run_page
is_on_page-plain_example = is_on_page-plain (row_of none 3) (row_of none 2) by_id refl refl refl

parse_sorting_rules-is_complete_example :
    is_complete configured tie_breakers
      (parse_sorting_rules configured tie_breakers (codes "-name$"))
    ≡ true
unfolding run_rules
parse_sorting_rules-is_complete_example =
    parse_sorting_rules-is_complete configured tie_breakers (codes "-name$") refl refl

get_field_name-statement_example :
    get_field_name_and_sorting_type (statement desc true (codes "name"))
    ≡ (codes "name", record { sorting_direction = desc; null_placement = last })
unfolding run_rules
get_field_name-statement_example = get_field_name-statement desc true 110 (codes "ame") refl refl

abbrev digit : ℕ → Text → Option ℕ
digit type (c ∷ []) = some (c - 48)
digit type _ = none

run_parameters : Fields (List Text) → PagingParameters
unfolding text_eq field without_prefix has_unknown_field collect_values parse_paging_parameters
    field_names
run_parameters query = parse_paging_parameters digit query ((name, 1) ∷ tie_breakers)

name_is_missing : run_parameters ((codes "from.id", codes "3" ∷ []) ∷ []) ≡ incomplete
unfolding run_parameters
name_is_missing = refl

abbrev three : Fields ℕ
three = (id, 3) ∷ []

parse_paging_parameters-names_example :
    (has_unknown_field digit tie_breakers ((codes "from.id", codes "3" ∷ []) ∷ []) ≡ false)
    × ((three ≡ []) ⊎ (field_names three ≡ field_names tie_breakers))
unfolding run_parameters
parse_paging_parameters-names_example =
    parse_paging_parameters-names digit ((codes "from.id", codes "3" ∷ []) ∷ []) tie_breakers three
      refl
