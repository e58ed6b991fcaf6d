-- ===== src/Paging/Order.antt =====
-- The order of the rows that `sortingType.asSQL` asks for (app/service/sorting.go), and the pages.
use algorea_backend.Shared.{
  ℕ, ◌≡◌, suc, Bool, true, false, ◌&&◌, ◌||◌, not, Option, none, some, is_some, List, [], ◌∷◌, ◌++◌,
  ltb, ◌==◌, Text, arith,
}
use algorea_backend.Paging.Conditions.{
  SortingDirection, asc, desc, NullPlacement, unplaced, first, last, SortingType, UsedField,
  condition_sign, Condition, place_nulls, field_condition, field_equality, sql_and, sql_or, is_true,
  sql_compare, sql_equal, sql_null_safe_equal, Row, eval_condition, eval_all,
}

-- The first sorting key of a column: `col IS NULL` or `col IS NOT NULL`, where there is one.
unfoldable pub null_key : NullPlacement → Option ℕ → ℕ
null_key unplaced v = 0
null_key last none = 1
null_key last (some n) = 0
null_key first none = 0
null_key first (some n) = 1

-- The second: the column, with NULL under every value.
unfoldable pub value_key : Option ℕ → ℕ
value_key none = 0
value_key (some n) = suc n

unfoldable pub is_sorted_after : SortingDirection → ℕ → ℕ → Bool
is_sorted_after asc a b = ltb b a
is_sorted_after desc a b = ltb a b

-- `asSQL`: does the order of the column put a value after another?
unfoldable pub is_field_after : SortingType → Option ℕ → Option ℕ → Bool
is_field_after t a b =
    ltb (null_key t.null_placement b) (null_key t.null_placement a)
    || (null_key t.null_placement a == null_key t.null_placement b
        && is_sorted_after t.sorting_direction (value_key a) (value_key b))

-- `applyOrder`: the lexicographic order of the used fields.
unfoldable pub is_after : List UsedField → Row → Row → Bool
is_after [] row from_page = false
is_after ((f, t) ∷ fields) row from_page =
    is_field_after t (row f) (from_page f)
    || (value_key (row f) == value_key (from_page f) && is_after fields row from_page)

abbrev pub is_unplaced : NullPlacement → Bool
is_unplaced unplaced = true
is_unplaced _ = false

-- A column without a place for NULL has none.
unfoldable pub has_values : List UsedField → Row → Bool
has_values [] row = true
has_values ((f, t) ∷ fields) row =
    (not (is_unplaced t.null_placement) || is_some (row f)) && has_values fields row

-- The columns of the tie-breakers have no NULL.
unfoldable pub has_all_values : List UsedField → Row → Bool
has_all_values [] row = true
has_all_values ((f, t) ∷ fields) row = is_some (row f) && has_all_values fields row

module _ (row from_page : Row) where
  pub field_condition_lem :
      (f : Text) (t : SortingType)
      → (not (is_unplaced t.null_placement) || is_some (row f)) ≡ true
      → (not (is_unplaced t.null_placement) || is_some (from_page f)) ≡ true
      → is_true (eval_condition row from_page (field_condition true (f, t)))
        ≡ is_field_after t (row f) (from_page f)
  unfolding is_true eval_condition field_condition condition_sign place_nulls sql_compare sql_or
      is_field_after null_key value_key is_sorted_after
  field_condition_lem f t has_row has_from = ground arith

  pub plain_condition_lem :
      (f : Text) (t : SortingType)
      → is_some (row f) ≡ true
      → is_some (from_page f) ≡ true
      → is_unplaced t.null_placement ≡ true
      → is_true (eval_condition row from_page (field_condition false (f, t)))
        ≡ is_field_after t (row f) (from_page f)
  unfolding is_true eval_condition field_condition condition_sign sql_compare is_field_after
      null_key value_key is_sorted_after
  plain_condition_lem f t has_row has_from placed = ground arith

  pub null_safe_lem :
      (f : Text) (t : SortingType)
      → is_true (eval_condition row from_page (field_equality true (f, t)))
        ≡ (value_key (row f) == value_key (from_page f))
  unfolding is_true eval_condition field_equality sql_null_safe_equal value_key
  null_safe_lem f t = ground arith

  pub equal_lem :
      (f : Text) (t : SortingType)
      → is_some (row f) ≡ true
      → is_some (from_page f) ≡ true
      → is_true (eval_condition row from_page (field_equality false (f, t)))
        ≡ (value_key (row f) == value_key (from_page f))
  unfolding is_true eval_condition field_equality sql_equal value_key
  equal_lem f t has_row has_from = ground arith

pub is_true-sql_or : (a b : Option Bool) → is_true (sql_or a b) ≡ (is_true a || is_true b)
unfolding is_true sql_or
is_true-sql_or a b = ground arith

is_true-sql_and : (a b : Option Bool) → is_true (sql_and a b) ≡ (is_true a && is_true b)
unfolding is_true sql_and
is_true-sql_and a b = ground arith

module _ (row from_page : Row) where
  pub is_true-eval_all :
      (cs : List Condition) (c : Condition)
      → is_true (eval_all row from_page (cs ++ (c ∷ [])))
        ≡ (is_true (eval_all row from_page cs) && is_true (eval_condition row from_page c))
  unfolding eval_all
  is_true-eval_all [] c =
      ground (arith, is_true-sql_and (eval_condition row from_page c) (some true))
  is_true-eval_all (d ∷ cs) c = ground (
    arith,
    is_true-eval_all cs c,
    is_true-sql_and (eval_condition row from_page d) (eval_all row from_page (cs ++ (c ∷ []))),
    is_true-sql_and (eval_condition row from_page d) (eval_all row from_page cs),
  )
