-- ===== src/Ancestors/Marks.antt =====
-- What the statements of `createNewAncestors` do to the marks (app/database/ancestors.go).
use algorea_backend.Shared.{
  ℕ, ◌≡◌, inl, inr, refl, true, false, ◌&&◌, ◌||◌, not, List, [], ◌∷◌, ◌==◌, arith, Bool-cases,
}
use algorea_backend.Ancestors.Tables.{PropagateTable, is_todo, is_listed, has_pair}
use algorea_backend.Ancestors.Rounds.{
  mark_todo, mark_descendants, has_todo_parent, mark_as_processing, mark_as_done, is_empty,
}

pub is_todo-mark_todo :
    (i : ℕ) (rows : PropagateTable) (k : ℕ)
    → is_todo (mark_todo i rows) k ≡ (i == k || is_todo rows k)
unfolding is_todo mark_todo
is_todo-mark_todo i [] k = ground arith
is_todo-mark_todo i ((j, state) ∷ rows) k = ground (arith, is_todo-mark_todo i rows k)

pub is_todo-mark_descendants :
    (pairs : List (ℕ × ℕ)) (rows : PropagateTable) (i : ℕ)
    → is_todo (mark_descendants pairs rows) i ≡ (has_todo_parent pairs rows i || is_todo rows i)
unfolding mark_descendants has_todo_parent
is_todo-mark_descendants [] rows i = refl
is_todo-mark_descendants ((a, c) ∷ pairs) rows i = ground (
  arith,
  is_todo-mark_descendants pairs rows i,
  is_todo-mark_todo c (mark_descendants pairs rows) i,
)

pub is_listed-mark_as_processing :
    (relations : List (ℕ × ℕ)) (rows selected : PropagateTable) (i : ℕ)
    → is_listed (mark_as_processing relations rows selected) i
      ≡ (is_todo selected i && not (has_todo_parent relations rows i))
unfolding is_listed mark_as_processing is_todo
is_listed-mark_as_processing relations rows [] i = refl
is_listed-mark_as_processing relations rows ((j, state) ∷ selected) i =
    ground (arith, is_listed-mark_as_processing relations rows selected i)

pub is_todo-mark_as_done :
    (ids : List ℕ) (rows : PropagateTable) (i : ℕ)
    → is_todo (mark_as_done ids rows) i ≡ (is_todo rows i && not (is_listed ids i))
unfolding is_todo mark_as_done
is_todo-mark_as_done ids [] i = refl
is_todo-mark_as_done ids ((j, state) ∷ rows) i = ground (arith, is_todo-mark_as_done ids rows i)

pub todo_parent :
    (relations : List (ℕ × ℕ)) (rows : PropagateTable) (i : ℕ)
    → has_todo_parent relations rows i ≡ true
    → (p : ℕ) × (is_todo rows p ≡ true) × (has_pair relations p i ≡ true)
unfolding has_todo_parent has_pair
todo_parent [] rows i e = absurd (ground arith)
todo_parent ((p, c) ∷ relations) rows i e = elim (Bool-cases (has_todo_parent relations rows i)) [
  | inl later ↦ let (q, mark, edge) = todo_parent relations rows i later in (q, mark, ground arith)
  | inr over ↦ (p, ground arith, ground arith)
]

pub has_todo_parent_lem :
    (relations : List (ℕ × ℕ)) (rows : PropagateTable) (p i : ℕ)
    → has_pair relations p i ≡ true
    → is_todo rows p ≡ true
    → has_todo_parent relations rows i ≡ true
unfolding has_todo_parent has_pair
has_todo_parent_lem [] rows p i e mark = absurd (ground arith)
has_todo_parent_lem ((q, c) ∷ relations) rows p i e mark =
    ground (arith, has_todo_parent_lem relations rows p i)

pub empty_listed : (ids : List ℕ) (i : ℕ) → is_empty ids ≡ true → is_listed ids i ≡ false
unfolding is_listed
empty_listed [] i e = refl
empty_listed (j ∷ ids) i e = ground arith

pub is_empty_lem : (ids : List ℕ) → ((i : ℕ) → is_listed ids i ≡ false) → is_empty ids ≡ true
unfolding is_listed
is_empty_lem [] out = refl
is_empty_lem (j ∷ ids) out = ground (arith, out j)
