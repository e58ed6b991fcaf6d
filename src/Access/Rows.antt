-- ===== src/Access/Rows.antt =====
-- The rows of permissions_generated after `queryUpdatePermissionsGenerated`, and what the computed
-- permissions depend on (app/database/permission_granted_store_compute_all_access.go).
use algorea_backend.Shared.{
  ℕ, ◌≡◌, refl, ap, Bool, true, false, Option, none, some, leb, List, [], ◌∷◌, if◌then◌else◌, arith,
  Bool-cases, inl, inr, get_or,
}
use algorea_backend.Access.Tables.{
  Generated, ItemItem, GeneratedTable, same_pair, generated_row, put_generated, Items,
}
use algorea_backend.Access.Computation.{
  max_from_parents, view_from_parent, level_from_parent, column_of, inherited_view,
  inherited_grant_view, inherited_watch, inherited_edit, computed_permissions, least,
}
use algorea_backend.Access.Rounds.{is_processed, update_permissions_generated}
use algorea_backend.Access.Marks.{is_child}

generated_row-put :
    (h j g i : ℕ) (p : Generated) (table : GeneratedTable)
    → generated_row g i (put_generated h j p table)
      ≡ (if same_pair h j g i then some p else generated_row g i table)
unfolding generated_row put_generated
generated_row-put h j g i p [] = ground arith
generated_row-put h j g i p ((k, l, old) ∷ table) =
    ground (arith, generated_row-put h j g i p table)

module _ (items : Items) (table : GeneratedTable) where
  abbrev recomputed : ℕ → ℕ → Generated
  recomputed g i = computed_permissions items (λ p. generated_row g p table) g i

  recomputed_same : (h j g i : ℕ) → same_pair h j g i ≡ true → recomputed h j ≡ recomputed g i
  recomputed_same h j g i same =
      let e : h ≡ g = ground arith in let e' : j ≡ i = ground arith in rw (e, e')

  pub generated_row-update :
      (pairs : List (ℕ × ℕ)) (g i : ℕ)
      → generated_row g i (update_permissions_generated items table pairs)
        ≡ (if is_processed pairs g i then some (recomputed g i) else generated_row g i table)
  unfolding update_permissions_generated is_processed
  generated_row-update [] g i = refl
  generated_row-update ((h, j) ∷ pairs) g i = elim (Bool-cases (same_pair h j g i)) [
    | inl same ↦
        rw
          (
            generated_row-put h j g i (recomputed h j)
                (update_permissions_generated items table pairs),
            same,
          )
          (ap some (recomputed_same h j g i same))
    | inr other ↦
        rw
          (
            generated_row-put h j g i (recomputed h j)
                (update_permissions_generated items table pairs),
            other,
          )
          (generated_row-update pairs g i)
  ]

max_from_parents_same :
    (f f' : ItemItem → ℕ) (i : ℕ) (relations : List ItemItem)
    → ((r : ItemItem)
        → is_child relations r.parent_item_id i ≡ true
        → r.child_item_id ≡ i
        → f r ≡ f' r)
    → max_from_parents f i relations ≡ max_from_parents f' i relations
unfolding max_from_parents is_child
max_from_parents_same f f' i [] same = refl
max_from_parents_same f f' i (r ∷ relations) same = ground (
  arith,
  max_from_parents_same f f' i relations (λ s above child. same s (ground arith) child),
  same r,
)

module _ (items : Items) (f f' : ℕ → Option Generated) (i : ℕ)
    (same : (p : ℕ) → is_child items.items_items p i ≡ true → f p ≡ f' p) where
  inherits_same :
      (level : ItemItem → Option Generated → ℕ)
      → max_from_parents (λ r. level r (f r.parent_item_id)) i items.items_items
        ≡ max_from_parents (λ r. level r (f' r.parent_item_id)) i items.items_items
  inherits_same level =
      max_from_parents_same _ _ i items.items_items
        (λ r above child. ap (level r) (same r.parent_item_id above))

  -- The permissions depend on the rows of the parents only.
  pub computed_same : (g : ℕ) → computed_permissions items f g i ≡ computed_permissions items f' g i
  unfolding computed_permissions
  computed_same g = rw (
    inherits_same view_from_parent,
    inherits_same
        (λ r o. level_from_parent r.grant_view_propagation 5 (column_of (λ p. p.can_grant_view) o)),
    inherits_same (λ r o. level_from_parent r.watch_propagation 3 (column_of (λ p. p.can_watch) o)),
    inherits_same (λ r o. level_from_parent r.edit_propagation 3 (column_of (λ p. p.can_edit) o)),
  )

-- A pair without a row has no access.
abbrev pub no_access : Generated
no_access = record {
  can_view = 1;
  can_grant_view = 1;
  can_watch = 1;
  can_edit = 1;
  is_owner = false;
}

view_no_access :
    (r : ItemItem) (o : Option Generated)
    → view_from_parent r o ≡ view_from_parent r (some (get_or o no_access))
unfolding view_from_parent
view_no_access r none = refl
view_no_access r (some p) = refl

level_no_access :
    (propagation : Bool) (limit : ℕ) (column : Generated → ℕ) (o : Option Generated)
    → leb 1 limit ≡ true
    → column no_access ≡ 1
    → level_from_parent propagation limit (column_of column o)
      ≡ level_from_parent propagation limit (column_of column (some (get_or o no_access)))
unfolding level_from_parent least
level_no_access propagation limit column none bound one = ground arith
level_no_access propagation limit column (some p) bound one = refl

module _ (items : Items) (f : ℕ → Option Generated) (g i : ℕ) where
  -- A parent without a row counts as one without access.
  pub computed_no_access :
      computed_permissions items f g i
      ≡ computed_permissions items (λ p. some (get_or (f p) no_access)) g i
  unfolding computed_permissions
  computed_no_access = rw (
    max_from_parents_same (inherited_view items f) _ i items.items_items
        (λ r above child. view_no_access r (f r.parent_item_id)),
    max_from_parents_same (inherited_grant_view items f) _ i items.items_items (λ r above child.
        level_no_access r.grant_view_propagation 5 (λ p. p.can_grant_view) (f r.parent_item_id) refl
          refl),
    max_from_parents_same (inherited_watch items f) _ i items.items_items (λ r above child.
        level_no_access r.watch_propagation 3 (λ p. p.can_watch) (f r.parent_item_id) refl refl),
    max_from_parents_same (inherited_edit items f) _ i items.items_items (λ r above child.
        level_no_access r.edit_propagation 3 (λ p. p.can_edit) (f r.parent_item_id) refl refl),
  )
