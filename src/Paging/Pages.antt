-- ===== src/Paging/Pages.antt =====
-- A page holds the rows that come after its starting row in the order of the list
-- (app/service/sorting.go).
use algorea_backend.Shared.{◌≡◌, Bool, true, false, ◌&&◌, ◌||◌, List, [], ◌∷◌, ◌++◌, ◌==◌, arith}
use algorea_backend.Paging.Conditions.{
  UsedField, Condition, field_condition, field_equality, construct_paging_conditions, is_true,
  sql_null_safe_equal, Row, eval_all, eval_any, is_on_page,
}
use algorea_backend.Paging.Order.{
  value_key, is_field_after, is_after, is_unplaced, has_values, has_all_values, field_condition_lem,
  plain_condition_lem, null_safe_lem, equal_lem, is_true-sql_or, is_true-eval_all,
}

distribute_lem : (p a e r : Bool) → ((p && a) || ((p && e) && r)) ≡ (p && (a || (e && r)))
distribute_lem p a e r = ground arith

prefix_nil_lem : (p : Bool) → false ≡ (p && false)
prefix_nil_lem p = ground arith

-- No column has a place for NULL.
unfoldable pub are_unplaced : List UsedField → Bool
are_unplaced [] = true
are_unplaced ((f, t) ∷ fields) = is_unplaced t.null_placement && are_unplaced fields

module _ (row from_page : Row) where
  -- The disjunction under a prefix.
  is_true-construct :
      (prefix : List Condition) (fields : List UsedField)
      → has_values fields row ≡ true
      → has_values fields from_page ≡ true
      → is_true (eval_any row from_page (construct_paging_conditions true prefix fields))
        ≡ (is_true (eval_all row from_page prefix) && is_after fields row from_page)
  unfolding eval_any construct_paging_conditions is_after has_values is_true
  is_true-construct prefix [] has_row has_from = prefix_nil_lem _
  is_true-construct prefix ((f, t) ∷ fields) has_row has_from =
      rw
        (
          is_true-sql_or _ _,
          is_true-construct (prefix ++ (field_equality true (f, t) ∷ [])) fields (ground arith)
              (ground arith),
          is_true-eval_all row from_page prefix (field_condition true (f, t)),
          is_true-eval_all row from_page prefix (field_equality true (f, t)),
          field_condition_lem row from_page f t (ground arith) (ground arith),
          null_safe_lem row from_page f t,
        )
        (distribute_lem (is_true (eval_all row from_page prefix))
          (is_field_after t (row f) (from_page f)) (value_key (row f) == value_key (from_page f))
          (is_after fields row from_page))

  is_true-construct_plain :
      (prefix : List Condition) (fields : List UsedField)
      → are_unplaced fields ≡ true
      → has_all_values fields row ≡ true
      → has_all_values fields from_page ≡ true
      → is_true (eval_any row from_page (construct_paging_conditions false prefix fields))
        ≡ (is_true (eval_all row from_page prefix) && is_after fields row from_page)
  unfolding eval_any construct_paging_conditions is_after has_all_values are_unplaced is_true
  is_true-construct_plain prefix [] placed has_row has_from = prefix_nil_lem _
  is_true-construct_plain prefix ((f, t) ∷ fields) placed has_row has_from =
      rw
        (
          is_true-sql_or _ _,
          is_true-construct_plain (prefix ++ (field_equality false (f, t) ∷ [])) fields
              (ground arith) (ground arith) (ground arith),
          is_true-eval_all row from_page prefix (field_condition false (f, t)),
          is_true-eval_all row from_page prefix (field_equality false (f, t)),
          plain_condition_lem row from_page f t (ground arith) (ground arith) (ground arith),
          equal_lem row from_page f t (ground arith) (ground arith),
        )
        (distribute_lem (is_true (eval_all row from_page prefix))
          (is_field_after t (row f) (from_page f)) (value_key (row f) == value_key (from_page f))
          (is_after fields row from_page))

  -- With a starting row that a sub-query gives, the condition of a page, in the three-valued logic of
  -- SQL, keeps exactly the rows that the order of the list puts after the starting row. A column that
  -- is not nullable has a value in both rows.
  pub is_on_page-is_after :
      (fields : List UsedField)
      → has_values fields row ≡ true
      → has_values fields from_page ≡ true
      → is_on_page row from_page true fields ≡ is_after fields row from_page
  unfolding is_on_page eval_all is_true
  is_on_page-is_after fields has_row has_from = is_true-construct [] fields has_row has_from

  -- With a starting row that the request gives, the condition of a page keeps exactly the rows that
  -- the order of the list puts after the starting row. The fields are tie-breakers: none is nullable,
  -- and each has a value in both rows.
  pub is_on_page-plain :
      (fields : List UsedField)
      → are_unplaced fields ≡ true
      → has_all_values fields row ≡ true
      → has_all_values fields from_page ≡ true
      → is_on_page row from_page false fields ≡ is_after fields row from_page
  unfolding is_on_page eval_all is_true
  is_on_page-plain fields placed has_row has_from =
      is_true-construct_plain [] fields placed has_row has_from

-- Do two rows agree on the fields?
unfoldable pub agree : List UsedField → Row → Row → Bool
agree [] a b = true
agree ((f, t) ∷ fields) a b = sql_null_safe_equal (a f) (b f) && agree fields a b
