-- ===== src/Access/Invariant.antt =====
-- The invariant of the rounds of `computeAllAccess`
-- (app/database/permission_granted_store_compute_all_access.go): what is out of date is marked, and
-- the marks move away from the roots of the items.
use algorea_backend.Shared.{
  Bool-cases, ℕ, suc, ◌≡◌, ◌≤◌, ◌<◌, ◌⊎◌, inl, inr, ◌∙◌, true, false, ◌&&◌, ◌||◌, not, some,
  is_some, get_or, List, if◌then◌else◌, arith,
}
use algorea_backend.Access.Tables.{
  Generated, Propagate, GeneratedTable, generated_row, Items, State,
}
use algorea_backend.Access.Computation.{computed_permissions}
use algorea_backend.Access.Rounds.{
  is_self, is_children, is_ancestor_row, has_self_ancestor, is_processed, current_marks, to_process,
  propagation_step,
}
use algorea_backend.Access.Marks.{
  is_child, is_selected, is_children-delete, is_self-current, child_selected,
  is_processed-processing, is_self-mark_self_as_children, is_children-mark_self_as_children,
}
use algorea_backend.Access.Rows.{generated_row-update, no_access}

-- The permissions of a pair, those of nobody where it has no row.
abbrev pub access_of : GeneratedTable → ℕ → ℕ → Generated
access_of table g i = get_or (generated_row g i table) no_access

-- The row is what the query computes from the rows of the parents.
abbrev pub IsSettled : Items → GeneratedTable → ℕ → ℕ → Type 0
IsSettled items table g i =
    access_of table g i ≡ computed_permissions items (λ p. generated_row g p table) g i

-- A pair is waiting for its parent, which is marked.
abbrev pub IsWaiting : Items → List Propagate → ℕ → ℕ → Type 0
IsWaiting items rows g i =
    (p : ℕ) × ((is_children rows g p || is_self rows g p) ≡ true)
    × (is_child items.items_items p i ≡ true)

-- The items have no cycle: an ancestor has a smaller rank, and a parent is an ancestor.
pub record IsRanked (items : Items) (rank : ℕ → ℕ) (height : ℕ) : Type 0 where
  pub above : (a i : ℕ) → is_ancestor_row a i items.items_ancestors ≡ true → rank a < rank i
  pub covered :
      (p i : ℕ)
      → is_child items.items_items p i ≡ true
      → is_ancestor_row p i items.items_ancestors ≡ true
  pub bounded : (i : ℕ) → rank i < height

-- What is out of date is marked 'self' or is waiting, and a pair marked 'children' has a row.
pub record IsMarked (items : Items) (s : State) : Type 0 where
  pub stale :
      (g i : ℕ)
      → IsSettled items s.permissions_generated g i
        ⊎ ((is_self s.permissions_propagate g i ≡ true)
            ⊎ IsWaiting items s.permissions_propagate g i)
  pub has_row :
      (g i : ℕ)
      → is_children s.permissions_propagate g i ≡ true
      → is_some (generated_row g i s.permissions_generated) ≡ true

-- In the round k, the marks are at the rank k at least.
pub record IsBelow (rank : ℕ → ℕ) (k : ℕ) (rows : List Propagate) : Type 0 where
  pub self_rank : (g i : ℕ) → is_self rows g i ≡ true → k ≤ rank i
  pub children_rank : (g i : ℕ) → is_children rows g i ≡ true → k ≤ suc (rank i)

module _ (items : Items) (s : State) where
  abbrev marks : List Propagate
  marks = current_marks items s

  pub current-is_self :
      (g i : ℕ)
      → is_self (current_marks items s) g i ≡ (
          is_selected items s.permissions_generated s.permissions_propagate g i
          || is_self s.permissions_propagate g i)
  unfolding current_marks
  current-is_self g i = is_self-current items s.permissions_generated s.permissions_propagate g i

  pub current-is_children : (g i : ℕ) → is_children (current_marks items s) g i ≡ false
  unfolding current_marks
  current-is_children g i = is_children-delete _ g i

  -- At the start of a round every pair out of date is marked 'self', or a parent is.
  pub current_stale :
      IsMarked items s
      → (g i : ℕ)
      → IsSettled items s.permissions_generated g i
        ⊎ ((is_self marks g i ≡ true)
            ⊎ ((p : ℕ) × (is_self marks g p ≡ true) × (is_child items.items_items p i ≡ true)))
  current_stale m g i = elim (m.stale g i) [
    | inl settled ↦ inl settled
    | inr (inl mark) ↦ inr (inl (current-is_self g i ∙ ground (arith, mark)))
    | inr (inr (p, mark, child)) ↦ elim (Bool-cases (is_children s.permissions_propagate g p)) [
      | inl e ↦ inr (
          inl (
            current-is_self g i
            ∙ ground (
              arith,
              child_selected items s.permissions_generated s.permissions_propagate g p i e
                  (m.has_row g p e) child,
            )))
      | inr e ↦ inr (inr (p, current-is_self g p ∙ ground (arith, mark, e), child))
    ]
  ]

  pub to_process-is_processed :
      (g i : ℕ)
      → is_processed (to_process items s) g i ≡ (
          is_self (current_marks items s) g i
          && not (has_self_ancestor items (current_marks items s) g i))
  unfolding to_process
  to_process-is_processed g i =
      is_processed-processing items (current_marks items s) (current_marks items s) g i

  pub next_row :
      (g i : ℕ)
      → generated_row g i (propagation_step items s).permissions_generated ≡ (
          if is_processed (to_process items s) g i
          then some
              (computed_permissions items (λ p. generated_row g p s.permissions_generated) g i)
          else generated_row g i s.permissions_generated)
  unfolding propagation_step
  next_row g i = generated_row-update items s.permissions_generated (to_process items s) g i

  pub next-is_self :
      (g i : ℕ)
      → is_self (propagation_step items s).permissions_propagate g i
        ≡ (is_self marks g i && not (is_processed (to_process items s) g i))
  unfolding propagation_step
  next-is_self g i = is_self-mark_self_as_children (to_process items s) marks g i

  pub next-is_children :
      (g i : ℕ)
      → is_children (propagation_step items s).permissions_propagate g i
        ≡ is_processed (to_process items s) g i
  unfolding propagation_step
  next-is_children g i =
      is_children-mark_self_as_children (to_process items s) marks g i
      ∙ ground (arith, current-is_children g i, to_process-is_processed g i)
