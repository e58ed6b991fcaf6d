-- ===== src/Access/Steps.antt =====
-- Each round of `computeAllAccess` keeps the invariant
-- (app/database/permission_granted_store_compute_all_access.go).
use algorea_backend.Shared.{
  ℕ, suc, ◌≡◌, ◌≤◌, ◌⊎◌, inl, inr, sym, ap, ◌∙◌, Bool, true, false, ◌&&◌, ◌||◌, get_or, List, [],
  ◌∷◌, ◌==◌, arith, Bool-cases,
}
use algorea_backend.Access.Tables.{ItemItem, generated_row, Items, State}
use algorea_backend.Access.Rounds.{
  is_self, is_processed, current_marks, to_process, propagation_step,
}
use algorea_backend.Access.Marks.{is_child, selected_parent, self_ancestor, has_self_ancestor_lem}
use algorea_backend.Access.Rows.{computed_same, no_access}
use algorea_backend.Access.Invariant.{
  IsSettled, IsWaiting, IsRanked, IsMarked, IsBelow, current-is_self, current_stale,
  to_process-is_processed, next_row, next-is_self, next-is_children,
}

-- Is a parent of the item processed for the group?
unfoldable has_processed_parent : List ItemItem → List (ℕ × ℕ) → ℕ → ℕ → Bool
has_processed_parent [] pairs g i = false
has_processed_parent (r ∷ relations) pairs g i =
    (r.child_item_id == i && is_processed pairs g r.parent_item_id)
    || has_processed_parent relations pairs g i

processed_parent :
    (relations : List ItemItem) (pairs : List (ℕ × ℕ)) (g i : ℕ)
    → has_processed_parent relations pairs g i ≡ true
    → (p : ℕ) × (is_processed pairs g p ≡ true) × (is_child relations p i ≡ true)
unfolding has_processed_parent is_child
processed_parent [] pairs g i has = absurd (ground arith)
processed_parent (r ∷ relations) pairs g i has =
    elim (Bool-cases (has_processed_parent relations pairs g i)) [
      | inl later ↦
          let (p, processed, child) = processed_parent relations pairs g i later in
          (p, processed, ground arith)
      | inr never ↦ (r.parent_item_id, ground arith, ground arith)
    ]

no_processed_parent :
    (relations : List ItemItem) (pairs : List (ℕ × ℕ)) (g p i : ℕ)
    → has_processed_parent relations pairs g i ≡ false
    → is_child relations p i ≡ true
    → is_processed pairs g p ≡ false
unfolding has_processed_parent is_child
no_processed_parent [] pairs g p i has child = ground arith
no_processed_parent (r ∷ relations) pairs g p i has child =
    ground (arith, no_processed_parent relations pairs g p i)

module _ (items : Items) (rank : ℕ → ℕ) (height : ℕ) (ranked : IsRanked items rank height)
    (s : State) where
  abbrev next : State
  next = propagation_step items s

  abbrev pairs : List (ℕ × ℕ)
  pairs = to_process items s

  -- A parent of a processed item is not processed.
  parent_not_processed :
      (g p i : ℕ)
      → is_processed pairs g i ≡ true
      → is_child items.items_items p i ≡ true
      → is_processed pairs g p ≡ false
  parent_not_processed g p i processed child = ground (
    arith,
    to_process-is_processed items s g i,
    to_process-is_processed items s g p,
    has_self_ancestor_lem items (current_marks items s) g p i,
    ranked.covered p i child,
  )

  row_kept :
      (g i : ℕ)
      → is_processed pairs g i ≡ false
      → generated_row g i s.permissions_generated ≡ generated_row g i next.permissions_generated
  row_kept g i other = sym (rw (next_row items s g i, other))

  processed-IsSettled :
      (g i : ℕ) → is_processed pairs g i ≡ true → IsSettled items next.permissions_generated g i
  processed-IsSettled g i processed =
      rw (next_row items s g i, processed)
        (computed_same items (λ p. generated_row g p s.permissions_generated)
          (λ p. generated_row g p next.permissions_generated) i
          (λ p child. row_kept g p (parent_not_processed g p i processed child)) g)

  kept-IsSettled :
      (g i : ℕ)
      → is_processed pairs g i ≡ false
      → ((p : ℕ) → is_child items.items_items p i ≡ true → is_processed pairs g p ≡ false)
      → IsSettled items s.permissions_generated g i
      → IsSettled items next.permissions_generated g i
  kept-IsSettled g i other others settled =
      ap (λ o. get_or o no_access) (sym (row_kept g i other))
      ∙ (settled
          ∙ computed_same items (λ p. generated_row g p s.permissions_generated)
              (λ p. generated_row g p next.permissions_generated) i
              (λ p child. row_kept g p (others p child)) g)

  next_stale :
      IsMarked items s
      → (g i : ℕ)
      → IsSettled items next.permissions_generated g i
        ⊎ ((is_self next.permissions_propagate g i ≡ true)
            ⊎ IsWaiting items next.permissions_propagate g i)
  next_stale m g i = elim (Bool-cases (is_processed pairs g i)) [
    | inl processed ↦ inl (processed-IsSettled g i processed)
    | inr other ↦ elim (Bool-cases (has_processed_parent items.items_items pairs g i)) [
      | inl parent ↦
          let (p, processed, child) = processed_parent items.items_items pairs g i parent in
          inr (inr (p, ground (arith, next-is_children items s g p, processed), child))
      | inr none_processed ↦ elim (current_stale items s m g i) [
        | inl settled ↦ inl (
            kept-IsSettled g i other
              (λ p child. no_processed_parent items.items_items pairs g p i none_processed child)
              settled)
        | inr (inl mark) ↦ inr (inl (next-is_self items s g i ∙ rw (mark, other)))
        | inr (inr (p, mark, child)) ↦
            let waits = no_processed_parent items.items_items pairs g p i none_processed child in
            inr (inr (p, ground (arith, next-is_self items s g p, mark, waits), child))
      ]
    ]
  ]

  pub next-IsMarked : IsMarked items s → IsMarked items (propagation_step items s)
  next-IsMarked m = record {
    stale = next_stale m;
    has_row = λ g i mark. rw (next_row items s g i, sym (next-is_children items s g i) ∙ mark);
  }

  pub current_rank :
      (k : ℕ)
      → IsBelow rank k s.permissions_propagate
      → (g i : ℕ) → is_self (current_marks items s) g i ≡ true
      → k ≤ rank i
  current_rank k below g i mark = elim (Bool-cases (is_self s.permissions_propagate g i)) [
    | inl old ↦ below.self_rank g i old
    | inr fresh ↦
        let (p, parent, child) =
          selected_parent items s.permissions_generated s.permissions_propagate g i
            (ground (arith, current-is_self items s g i)) in
        omega (arith, below.children_rank g p parent, ranked.above p i (ranked.covered p i child))
  ]

  pub next-IsBelow :
      (k : ℕ)
      → IsBelow rank k s.permissions_propagate
      → IsBelow rank (suc k) (propagation_step items s).permissions_propagate
  next-IsBelow k below = record {
    self_rank = λ g i mark.
        let (a, ancestor, above) =
          self_ancestor items (current_marks items s) g i
            (ground (arith, next-is_self items s g i, to_process-is_processed items s g i)) in
        omega (arith, current_rank k below g a ancestor, ranked.above a i above);
    children_rank = λ g i mark. omega (
      arith,
      current_rank k below g i
          (ground (arith, next-is_children items s g i, to_process-is_processed items s g i)),
    );
  }
