-- ===== src/Paging/Names.antt =====
-- Lists of field names: membership, duplicates and sorting.
use algorea_backend.Shared.{
  ◌≡◌, refl, Bool, true, false, ◌&&◌, ◌||◌, not, is_some, List, [], ◌∷◌, ◌++◌, Text, text_eq, arith,
}
use algorea_backend.Paging.Rules.{Fields, field, insert_sorted, sort_strings}

unfoldable pub mem : Text → List Text → Bool
mem x [] = false
mem x (s ∷ ss) = text_eq s x || mem x ss

unfoldable pub are_distinct : List Text → Bool
are_distinct [] = true
are_distinct (s ∷ ss) = not (mem s ss) && are_distinct ss

pub text_eq_sym : (s t : Text) → text_eq s t ≡ text_eq t s
unfolding text_eq
text_eq_sym [] [] = refl
text_eq_sym [] (d ∷ t) = refl
text_eq_sym (c ∷ s) [] = refl
text_eq_sym (c ∷ s) (d ∷ t) = ground (arith, text_eq_sym s t)

pub mem-++ : (x : Text) (ss ts : List Text) → mem x (ss ++ ts) ≡ (mem x ss || mem x ts)
unfolding mem
mem-++ x [] ts = refl
mem-++ x (s ∷ ss) ts = ground (arith, mem-++ x ss ts)

pub mem-insert_sorted :
    (x s : Text) (ts : List Text) → mem x (insert_sorted s ts) ≡ (text_eq s x || mem x ts)
unfolding mem insert_sorted
mem-insert_sorted x s [] = refl
mem-insert_sorted x s (t ∷ ts) = ground (arith, mem-insert_sorted x s ts)

pub mem-sort_strings : (x : Text) (ss : List Text) → mem x (sort_strings ss) ≡ mem x ss
unfolding mem sort_strings
mem-sort_strings x [] = refl
mem-sort_strings x (s ∷ ss) =
    ground (arith, mem-insert_sorted x s (sort_strings ss), mem-sort_strings x ss)

are_distinct-insert_sorted :
    (s : Text) (ts : List Text)
    → are_distinct (insert_sorted s ts) ≡ (not (mem s ts) && are_distinct ts)
unfolding are_distinct mem insert_sorted
are_distinct-insert_sorted s [] = refl
are_distinct-insert_sorted s (t ∷ ts) =
    ground (arith, are_distinct-insert_sorted s ts, mem-insert_sorted t s ts, text_eq_sym s t)

pub are_distinct-sort_strings : (ss : List Text) → are_distinct (sort_strings ss) ≡ are_distinct ss
unfolding are_distinct sort_strings
are_distinct-sort_strings [] = refl
are_distinct-sort_strings (s ∷ ss) = ground (
  arith,
  are_distinct-insert_sorted s (sort_strings ss),
  are_distinct-sort_strings ss,
  mem-sort_strings s ss,
)

unfoldable pub is_disjoint : List Text → List Text → Bool
is_disjoint ss [] = true
is_disjoint ss (t ∷ ts) = not (mem t ss) && is_disjoint ss ts

is_disjoint_cons :
    (s : Text) (ss ts : List Text) → is_disjoint (s ∷ ss) ts ≡ (not (mem s ts) && is_disjoint ss ts)
unfolding is_disjoint mem
is_disjoint_cons s ss [] = refl
is_disjoint_cons s ss (t ∷ ts) = ground (arith, is_disjoint_cons s ss ts, text_eq_sym s t)

is_disjoint_nil : (ts : List Text) → is_disjoint [] ts ≡ true
unfolding is_disjoint mem
is_disjoint_nil [] = refl
is_disjoint_nil (t ∷ ts) = is_disjoint_nil ts

pub are_distinct-++ :
    (ss ts : List Text)
    → are_distinct (ss ++ ts) ≡ (are_distinct ss && (are_distinct ts && is_disjoint ss ts))
unfolding are_distinct
are_distinct-++ [] ts = ground (arith, is_disjoint_nil ts)
are_distinct-++ (s ∷ ss) ts =
    ground (arith, are_distinct-++ ss ts, is_disjoint_cons s ss ts, mem-++ s ss ts)

is_disjoint-insert_sorted :
    (ss : List Text) (t : Text) (ts : List Text)
    → is_disjoint ss (insert_sorted t ts) ≡ (not (mem t ss) && is_disjoint ss ts)
unfolding is_disjoint insert_sorted
is_disjoint-insert_sorted ss t [] = refl
is_disjoint-insert_sorted ss t (u ∷ ts) = ground (arith, is_disjoint-insert_sorted ss t ts)

pub is_disjoint-sort_strings :
    (ss ts : List Text) → is_disjoint ss (sort_strings ts) ≡ is_disjoint ss ts
unfolding is_disjoint sort_strings
is_disjoint-sort_strings ss [] = refl
is_disjoint-sort_strings ss (t ∷ ts) =
    ground (arith, is_disjoint-insert_sorted ss t (sort_strings ts), is_disjoint-sort_strings ss ts)

pub field-++ :
    {V : Type 0} (x : Text) (fields others : Fields V)
    → is_some (field x (fields ++ others)) ≡ (is_some (field x fields) || is_some (field x others))
unfolding field
field-++ x [] others = refl
field-++ x ((name, v) ∷ fields) others = ground (arith, field-++ x fields others)
