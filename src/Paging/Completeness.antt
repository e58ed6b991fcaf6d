-- ===== src/Paging/Completeness.antt =====
-- The sorting that `parseSortingRules` accepts is complete (app/service/sorting.go).
use algorea_backend.Shared.{
  ◌≡◌, refl, sym, ap, ◌∙◌, Bool, true, false, ◌&&◌, ◌||◌, not, is_some, List, [], ◌∷◌, ◌++◌, Text,
  text_eq_refl, arith, Option-cases, inl, inr, split,
}
use algorea_backend.Paging.Conditions.{SortingType}
use algorea_backend.Paging.Rules.{
  FieldSortingParams, Fields, field, get_field_name_and_sorting_type, SortingError,
  validate_sorting_field, with_default_placement, Parsed, parsed, rejected, missing_tie_breakers,
  ascending, sort_strings, finish, parse_statements, parse_sorting_rules,
}
use algorea_backend.Paging.Names.{
  mem, are_distinct, mem-++, mem-sort_strings, are_distinct-sort_strings, is_disjoint,
  are_distinct-++, is_disjoint-sort_strings, field-++,
}
use algorea_backend.Paging.Parsing.{
  field_names, is_well_placed, are_well_placed, has_valid_tie_breakers, all_used, well_placed-++,
  validated_lem, statement_placement, field-ascending, mem-missing, distinct-missing,
  disjoint-missing, well_placed-missing,
}

unfoldable pub all_typed : Fields SortingType → List Text → Bool
all_typed types [] = true
all_typed types (name ∷ names) = is_some (field name types) && all_typed types names

all_used_lem :
    (used names : List Text)
    → ((x : Text) → (not (mem x names) || mem x used) ≡ true)
    → all_used used names ≡ true
unfolding all_used mem
all_used_lem used [] included = refl
all_used_lem used (name ∷ names) included = ground (
  arith,
  all_used_lem used names (λ x. ground (arith, included x)),
  included name,
  text_eq_refl name,
)

all_typed_lem :
    (types : Fields SortingType) (names : List Text)
    → ((x : Text) → (not (mem x names) || is_some (field x types)) ≡ true)
    → all_typed types names ≡ true
unfolding all_typed mem
all_typed_lem types [] included = refl
all_typed_lem types (name ∷ names) included = ground (
  arith,
  all_typed_lem types names (λ x. ground (arith, included x)),
  included name,
  text_eq_refl name,
)

module _ {V : Type 0} (configured : Fields FieldSortingParams) (tie_breakers : Fields V) where
  -- A sorting that names a field once, names every tie-breaker, gives every field its type, and
  -- places NULL for the nullable fields and for no other. A rejection is no sorting.
  unfoldable pub is_complete : Parsed → Bool
  is_complete (rejected error) = true
  is_complete (parsed used types) =
      are_distinct used
      && (all_used used (field_names tie_breakers)
          && (all_typed types used && are_well_placed configured types))

  finish-is_complete :
      (used : List Text) (types : Fields SortingType)
      → has_valid_tie_breakers configured tie_breakers ≡ true
      → are_distinct (field_names tie_breakers) ≡ true
      → ((x : Text) → is_some (field x types) ≡ mem x used)
      → are_distinct used ≡ true
      → are_well_placed configured types ≡ true
      → is_complete (finish configured tie_breakers used types) ≡ true
  unfolding is_complete
  finish-is_complete used types valid distinct same used_distinct placed =
      let added = missing_tie_breakers types tie_breakers in
      let mem_used : (x : Text)
          → mem x (used ++ sort_strings added)
            ≡ (mem x used || (mem x (field_names tie_breakers) && not (is_some (field x types)))) =
        λ x.
          mem-++ x used (sort_strings added)
          ∙ ap (λ b. mem x used || b)
              (mem-sort_strings x added ∙ mem-missing types x tie_breakers) in
      rw (
        are_distinct-++ used (sort_strings added),
        are_distinct-sort_strings added,
        is_disjoint-sort_strings used added,
        distinct-missing types tie_breakers distinct,
        disjoint-missing types used tie_breakers same,
        used_distinct,
        all_used_lem (used ++ sort_strings added) (field_names tie_breakers)
            (λ x. ground (arith, mem_used x, same x)),
        all_typed_lem (types ++ ascending added) (used ++ sort_strings added) (λ x. ground (
          arith,
          mem_used x,
          same x,
          field-++ x types (ascending added),
          field-ascending x added,
          mem-missing types x tie_breakers,
        )),
        well_placed-++ configured types (ascending added),
        placed,
        well_placed-missing types configured tie_breakers valid,
      )

  extended_same :
      (used : List Text) (types : Fields SortingType) (name : Text) (t : SortingType)
      → ((x : Text) → is_some (field x types) ≡ mem x used)
      → (x : Text) → is_some (field x (types ++ ((name, t) ∷ []))) ≡ mem x (used ++ (name ∷ []))
  unfolding mem field
  extended_same used types name t same x =
      ground (arith, same x, field-++ x types ((name, t) ∷ []), mem-++ x used (name ∷ []))

  extended_distinct :
      (used : List Text) (name : Text)
      → are_distinct used ≡ true
      → mem name used ≡ false
      → are_distinct (used ++ (name ∷ [])) ≡ true
  unfolding are_distinct is_disjoint mem
  extended_distinct used name distinct fresh = ground (arith, are_distinct-++ used (name ∷ []))

  extended_placed :
      (types : Fields SortingType) (name : Text) (t : SortingType)
      → are_well_placed configured types ≡ true
      → is_well_placed (field name configured) t ≡ true
      → are_well_placed configured (types ++ ((name, t) ∷ [])) ≡ true
  unfolding are_well_placed
  extended_placed types name t placed well =
      ground (arith, well_placed-++ configured types ((name, t) ∷ []))

  is_complete_rejected : (error : SortingError) → is_complete (rejected error) ≡ true
  unfolding is_complete
  is_complete_rejected error = refl

  parse_statements-is_complete :
      (statements used : List Text) (types : Fields SortingType)
      → has_valid_tie_breakers configured tie_breakers ≡ true
      → are_distinct (field_names tie_breakers) ≡ true
      → ((x : Text) → is_some (field x types) ≡ mem x used)
      → are_distinct used ≡ true
      → are_well_placed configured types ≡ true
      → is_complete (parse_statements configured tie_breakers statements used types) ≡ true
  unfolding parse_statements
  parse_statements-is_complete [] used types valid distinct same used_distinct placed =
      finish-is_complete used types valid distinct same used_distinct placed
  parse_statements-is_complete (s ∷ statements) used types valid distinct same used_distinct
        placed =
      let name = (get_field_name_and_sorting_type s).0 in
      let asked = (get_field_name_and_sorting_type s).1 in
      let params = field name configured in
      elim (Option-cases (validate_sorting_field types name params asked)) [
        | inr (error, e) ↦ rw (e, parse_statements) (is_complete_rejected error)
        | inl e ↦
            let (well, fresh) = validated_lem types name params asked e (statement_placement s) in
            rw (e, parse_statements)
              (parse_statements-is_complete statements (used ++ (name ∷ []))
                (types ++ ((name, with_default_placement params asked) ∷ [])) valid distinct
                (extended_same used types name _ same)
                (extended_distinct used name used_distinct (sym (same name) ∙ fresh))
                (extended_placed types name _ placed well))
      ]

  -- The rules that are accepted name each used field once, use every tie-breaker, give every used
  -- field its sorting type, and place NULL for the nullable fields only. The tie-breakers are
  -- configured, not nullable and different from each other.
  pub parse_sorting_rules-is_complete :
      (rules : Text)
      → has_valid_tie_breakers configured tie_breakers ≡ true
      → are_distinct (field_names tie_breakers) ≡ true
      → is_complete (parse_sorting_rules configured tie_breakers rules) ≡ true
  unfolding parse_sorting_rules field mem are_distinct are_well_placed
  parse_sorting_rules-is_complete rules valid distinct =
      parse_statements-is_complete (split 44 rules) [] [] valid distinct (λ x. refl) refl refl
