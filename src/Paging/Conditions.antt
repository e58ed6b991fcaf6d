-- ===== src/Paging/Conditions.antt =====
-- The SQL that app/service/sorting.go builds for a page: `constructPagingConditions` and
-- `sortingType`, as expressions, with the meaning of the expressions in the three-valued logic of
-- SQL. Values are natural numbers in the order of their column, and NULL is `none`.
use algorea_backend.Shared.{
  ℕ, Bool, true, false, not, Option, none, some, is_some, List, [], ◌∷◌, ◌++◌, ltb, ◌==◌,
  if◌then◌else◌, Text,
}

pub data SortingDirection : Type 0 where
  asc desc : SortingDirection

-- `unplaced` is 0: the field is not nullable.
pub data NullPlacement : Type 0 where
  unplaced first last : NullPlacement

-- `sortingType`.
pub record SortingType : Type 0 where
  pub sorting_direction : SortingDirection
  pub null_placement : NullPlacement

-- A used field with its sorting type.
abbrev pub UsedField : Type 0
UsedField = Text × SortingType

-- `conditionSign`.
pub data Sign : Type 0 where
  greater less : Sign

unfoldable pub condition_sign : SortingType → Sign
condition_sign t = elim t.sorting_direction [ asc ↦ greater | desc ↦ less ]

-- The expressions of a condition on the column of a field and its value in the starting row.
pub data Condition : Type 0 where
  -- col > from, or col < from
  compare_with : Sign → Text → Condition
  -- IF(from IS NULL, col IS NOT NULL, condition)
  if_null_first : Text → Condition → Condition
  -- IF(from IS NULL, FALSE, col IS NULL OR condition)
  if_null_last : Text → Condition → Condition
  -- col <=> from
  null_safe_equal : Text → Condition
  -- col = from
  equal : Text → Condition

unfoldable pub place_nulls : NullPlacement → Text → Condition → Condition
place_nulls unplaced f c = c
place_nulls first f c = if_null_first f c
place_nulls last f c = if_null_last f c

-- The condition for a field alone.
unfoldable pub field_condition : Bool → UsedField → Condition
field_condition true (f, t) = place_nulls t.null_placement f (compare_with (condition_sign t) f)
field_condition false (f, t) = compare_with (condition_sign t) f

-- What the field adds to the prefix of the conditions of the next fields.
unfoldable pub field_equality : Bool → UsedField → Condition
field_equality true (f, t) = null_safe_equal f
field_equality false (f, t) = equal f

-- `constructPagingConditions`: a disjunction of conjunctions, with the prefix so far.
unfoldable pub construct_paging_conditions :
    Bool → List Condition → List UsedField → List (List Condition)
construct_paging_conditions sub_query_needed condition_prefix [] = []
construct_paging_conditions sub_query_needed condition_prefix (field ∷ fields) =
    (condition_prefix ++ (field_condition sub_query_needed field ∷ []))
    ∷ construct_paging_conditions sub_query_needed
        (condition_prefix ++ (field_equality sub_query_needed field ∷ [])) fields

-- A truth value of SQL.
abbrev pub SqlBool : Type 0
SqlBool = Option Bool

unfoldable pub sql_and : SqlBool → SqlBool → SqlBool
sql_and (some false) b = some false
sql_and (some true) b = b
sql_and none (some false) = some false
sql_and none b = none

unfoldable pub sql_or : SqlBool → SqlBool → SqlBool
sql_or (some true) b = some true
sql_or (some false) b = b
sql_or none (some true) = some true
sql_or none b = none

-- WHERE keeps a row if its condition is true, and neither false nor NULL.
unfoldable pub is_true : SqlBool → Bool
is_true none = false
is_true (some b) = b

unfoldable pub sql_compare : Sign → Option ℕ → Option ℕ → SqlBool
sql_compare sign none b = none
sql_compare sign (some a) none = none
sql_compare greater (some a) (some b) = some (ltb b a)
sql_compare less (some a) (some b) = some (ltb a b)

unfoldable pub sql_equal : Option ℕ → Option ℕ → SqlBool
sql_equal none b = none
sql_equal (some a) none = none
sql_equal (some a) (some b) = some (a == b)

unfoldable pub sql_null_safe_equal : Option ℕ → Option ℕ → Bool
sql_null_safe_equal none none = true
sql_null_safe_equal none (some b) = false
sql_null_safe_equal (some a) none = false
sql_null_safe_equal (some a) (some b) = a == b

abbrev pub Row : Type 0
Row = Text → Option ℕ

module _ (row from_page : Row) where
  unfoldable pub eval_condition : Condition → SqlBool
  eval_condition (compare_with sign f) = sql_compare sign (row f) (from_page f)
  eval_condition (if_null_first f c) =
      let inner = eval_condition c in
      if not (is_some (from_page f)) then some (is_some (row f)) else inner
  eval_condition (if_null_last f c) =
      let inner = eval_condition c in
      if not (is_some (from_page f))
      then some false
      else sql_or (some (not (is_some (row f)))) inner
  eval_condition (null_safe_equal f) = some (sql_null_safe_equal (row f) (from_page f))
  eval_condition (equal f) = sql_equal (row f) (from_page f)

  unfoldable pub eval_all : List Condition → SqlBool
  eval_all [] = some true
  eval_all (c ∷ cs) = sql_and (eval_condition c) (eval_all cs)

  unfoldable pub eval_any : List (List Condition) → SqlBool
  eval_any [] = some false
  eval_any (cs ∷ css) = sql_or (eval_all cs) (eval_any css)

  -- The condition that `applyPagingConditions` adds to the query lets the row through.
  unfoldable pub is_on_page : Bool → List UsedField → Bool
  is_on_page sub_query_needed fields =
      is_true (eval_any (construct_paging_conditions sub_query_needed [] fields))
