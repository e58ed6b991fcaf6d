-- ===== src/Paging/Statements.antt =====
-- One statement of the sorting rules (app/service/sorting.go): how it is written and read.
use algorea_backend.Shared.{ℕ, ◌≡◌, refl, ap, Bool, true, false, [], ◌∷◌, ◌++◌, ◌==◌, Text, arith}
use algorea_backend.Paging.Conditions.{SortingDirection, asc, desc, NullPlacement, unplaced, last}
use algorea_backend.Paging.Rules.{
  ends_with, without_last, strip_dollar, get_field_name_and_sorting_type,
}

abbrev pub with_suffix : Bool → Text → Text
with_suffix true name = name ++ (36 ∷ [])
with_suffix false name = name

abbrev pub placement : Bool → NullPlacement
placement true = last
placement false = unplaced

-- A statement as the comment of `getFieldNameAndSortingTypeFromSortStatement` writes it.
unfoldable pub statement : SortingDirection → Bool → Text → Text
statement asc null_last name = with_suffix null_last name
statement desc null_last name = 45 ∷ with_suffix null_last name

unfoldable pub starts_with : ℕ → Text → Bool
starts_with c [] = false
starts_with c (d ∷ s) = d == c

ends_with-++ : (c : ℕ) (s : Text) → ends_with c (s ++ (c ∷ [])) ≡ true
unfolding ends_with
ends_with-++ c [] = ground arith
ends_with-++ c (d ∷ []) = ground arith
ends_with-++ c (d ∷ e ∷ s) = ends_with-++ c (e ∷ s)

without_last-++ : (c : ℕ) (s : Text) → without_last (s ++ (c ∷ [])) ≡ s
unfolding without_last
without_last-++ c [] = refl
without_last-++ c (d ∷ []) = refl
without_last-++ c (d ∷ e ∷ s) = ap (λ t. d ∷ t) (without_last-++ c (e ∷ s))

strip_lem :
    (direction : SortingDirection) (null_last : Bool) (name : Text)
    → ends_with 36 name ≡ false
    → strip_dollar direction (with_suffix null_last name)
      ≡ (name, record { sorting_direction = direction; null_placement = placement null_last })
unfolding strip_dollar
strip_lem direction true name plain = rw (ends_with-++ 36 name, without_last-++ 36 name)
strip_lem direction false name plain = rw plain

-- A statement is read as the field name, the direction and the place of NULL that it is written for.
-- The name is not empty, does not start with '-' and does not end with '$'.
pub get_field_name-statement :
    (direction : SortingDirection) (null_last : Bool) (c : ℕ) (s : Text)
    → starts_with 45 (c ∷ s) ≡ false
    → ends_with 36 (c ∷ s) ≡ false
    → get_field_name_and_sorting_type (statement direction null_last (c ∷ s))
      ≡ ((c ∷ s), record { sorting_direction = direction; null_placement = placement null_last })
unfolding get_field_name_and_sorting_type statement starts_with
get_field_name-statement asc true c s no_minus plain =
    rw no_minus (strip_lem asc true (c ∷ s) plain)
get_field_name-statement asc false c s no_minus plain =
    rw no_minus (strip_lem asc false (c ∷ s) plain)
get_field_name-statement desc null_last c s no_minus plain = strip_lem desc null_last (c ∷ s) plain
