-- ===== src/Paging/Parameters.antt =====
-- The parameters from.* of a request: `ParsePagingParameters` (app/service/sorting.go). The
-- conversion of a value by the type of its field is a parameter.
use algorea_backend.Shared.{
  ℕ, ◌≡◌, ◌⊎◌, inl, inr, refl, sym, ap, ◌∙◌, Bool, true, false, ◌&&◌, ◌||◌, not, Option, none, some,
  is_some, List, [], ◌∷◌, ◌++◌, ◌==◌, if◌then◌else◌, Text, arith,
}
use algorea_backend.Paging.Rules.{Fields, field}
use algorea_backend.Paging.Parsing.{field_names}

-- The rest of a text after a prefix.
unfoldable pub without_prefix : Text → Text → Option Text
without_prefix [] s = some s
without_prefix (c ∷ p) [] = none
without_prefix (c ∷ p) (d ∷ s) = if c == d then without_prefix p s else none

-- "from."
abbrev pub from_prefix : Text
from_prefix = 102 ∷ 114 ∷ 111 ∷ 109 ∷ 46 ∷ []

abbrev pub head_of : Option (List Text) → Option Text
head_of none = none
head_of (some []) = none
head_of (some (value ∷ values)) = some value

-- The values of the fields, and whether one is missing and one is accepted.
pub record FromValues : Type 0 where
  pub is_missing : Bool
  pub is_accepted : Bool
  pub values : Fields ℕ

pub data PagingParameters : Type 0 where
  unallowed_parameters invalid_value incomplete : PagingParameters
  from_values : Fields ℕ → PagingParameters

abbrev pub is_unknown {ℓ} : {V : Type ℓ} → Fields V → Option Text → Bool
is_unknown expected none = false
is_unknown expected (some name) = not (is_some (field name expected))

abbrev pub accept_value : Text → Option ℕ → Option FromValues → Option FromValues
accept_value name none others = none
accept_value name (some value) none = none
accept_value name (some value) (some others) =
    some (record others { is_accepted = true; values = (name, value) ∷ others.values })

abbrev pub skip_value : Option FromValues → Option FromValues
skip_value none = none
skip_value (some others) = some (record others { is_missing = true })

abbrev pub all_or_none : Option FromValues → PagingParameters
all_or_none none = invalid_value
all_or_none (some found) =
    if found.is_accepted && found.is_missing then incomplete else from_values found.values

module _ {V : Type 0} (convert : V → Text → Option ℕ) where
  -- Is there a parameter from.* that is not expected?
  unfoldable pub has_unknown_field : Fields V → Fields (List Text) → Bool
  has_unknown_field expected [] = false
  has_unknown_field expected ((name, values) ∷ query) =
      is_unknown expected (without_prefix from_prefix name) || has_unknown_field expected query

  -- The loop over the expected fields; `none` is a value that cannot be converted.
  unfoldable pub collect_values : Fields (List Text) → Fields V → Option FromValues
  collect_values query [] = some (record { is_missing = false; is_accepted = false; values = [] })
  collect_values query ((name, type) ∷ expected) =
      let others = collect_values query expected in
      elim (head_of (field (from_prefix ++ name) query)) [
        | none ↦ skip_value others
        | some text ↦ accept_value name (convert type text) others
      ]

  -- `ParsePagingParameters`.
  unfoldable pub parse_paging_parameters : Fields (List Text) → Fields V → PagingParameters
  parse_paging_parameters query expected =
      if has_unknown_field expected query
      then unallowed_parameters
      else all_or_none (collect_values query expected)

-- The values are those of all the fields unless one is missing, and there is none unless one is
-- accepted.
abbrev IsFair : List Text → Option FromValues → Type 0
IsFair names none = true ≡ true
IsFair names (some found) =
    ((found.is_missing ≡ true) ⊎ (field_names found.values ≡ names))
    × ((found.is_accepted ≡ true) ⊎ (found.values ≡ []))

skip_value-IsFair :
    (name : Text) (names : List Text) (o : Option FromValues)
    → IsFair names o
    → IsFair (name ∷ names) (skip_value o)
skip_value-IsFair name names none fair = refl
skip_value-IsFair name names (some found) (complete, alone) = (inl refl, alone)

accept_value-IsFair :
    (name : Text) (v : Option ℕ) (names : List Text) (o : Option FromValues)
    → IsFair names o
    → IsFair (name ∷ names) (accept_value name v o)
unfolding field_names
accept_value-IsFair name none names o fair = refl
accept_value-IsFair name (some v) names none fair = refl
accept_value-IsFair name (some v) names (some found) (inl missing, alone) = (inl missing, inl refl)
accept_value-IsFair name (some v) names (some found) (inr complete, alone) =
    (inr (ap (λ others. name ∷ others) complete), inl refl)

found_lem :
    (found : FromValues) (values : Fields ℕ)
    → all_or_none (some found) ≡ from_values values
    → (found.values ≡ values) × ((found.is_accepted && found.is_missing) ≡ false)
found_lem found values e = ground arith

known_lem :
    (unknown : Bool) (o : Option FromValues) (values : Fields ℕ)
    → (if unknown then unallowed_parameters else all_or_none o) ≡ from_values values
    → (unknown ≡ false) × (all_or_none o ≡ from_values values)
known_lem unknown o values e = ground arith

all_or_none_lem :
    (names : List Text) (o : Option FromValues) (values : Fields ℕ)
    → IsFair names o
    → all_or_none o ≡ from_values values
    → (values ≡ []) ⊎ (field_names values ≡ names)
all_or_none_lem names none values fair e = absurd (ground arith)
all_or_none_lem names (some found) values (inr complete, alone) e =
    let (same, both) = found_lem found values e in
    inr (sym (ap (λ v. field_names v) same) ∙ complete)
all_or_none_lem names (some found) values (inl missing, inr none_accepted) e =
    let (same, both) = found_lem found values e in inl (sym same ∙ none_accepted)
all_or_none_lem names (some found) values (inl missing, inl accepted) e =
    absurd (ground (arith, found_lem found values e))

module _ {V : Type 0} (convert : V → Text → Option ℕ) where
  step-IsFair :
      (name : Text) (type : V) (names : List Text) (h : Option Text) (others : Option FromValues)
      → IsFair names others
      → IsFair (name ∷ names) (elim h [
        | none ↦ skip_value others
        | some text ↦ accept_value name (convert type text) others
      ])
  step-IsFair name type names none others fair = skip_value-IsFair name names others fair
  step-IsFair name type names (some text) others fair =
      accept_value-IsFair name (convert type text) names others fair

  collect_values-IsFair :
      (query : Fields (List Text)) (expected : Fields V)
      → IsFair (field_names expected) (collect_values convert query expected)
  unfolding collect_values field_names
  collect_values-IsFair query [] = (inr refl, inr refl)
  collect_values-IsFair query ((name, type) ∷ expected) =
      step-IsFair name type (field_names expected) (head_of (field (from_prefix ++ name) query))
        (collect_values convert query expected) (collect_values-IsFair query expected)

  -- Where the paging parameters of a request are accepted, there is a value for each of the expected
  -- fields or for none of them, and the request has no other parameter from.*.
  pub parse_paging_parameters-names :
      (query : Fields (List Text)) (expected : Fields V) (values : Fields ℕ)
      → parse_paging_parameters convert query expected ≡ from_values values
      → (has_unknown_field convert expected query ≡ false)
        × ((values ≡ []) ⊎ (field_names values ≡ field_names expected))
  unfolding parse_paging_parameters
  parse_paging_parameters-names query expected values accepted =
      let (known, kept) = known_lem (has_unknown_field convert expected query) _ values accepted in
      (known, all_or_none_lem _ _ values (collect_values-IsFair query expected) kept)
