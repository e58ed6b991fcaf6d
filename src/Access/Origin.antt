-- ===== src/Access/Origin.antt =====
-- Where a right to view comes from (app/database/permission_granted_store_compute_all_access.go).
use algorea_backend.Shared.{
  ℕ, zero, suc, ◌≡◌, ◌⊎◌, inl, inr, sym, ◌∙◌, true, some, List, [], ◌∷◌, leb, arith, Bool-cases,
}
use algorea_backend.Access.Tables.{Generated, ItemItem, Items}
use algorea_backend.Access.Computation.{
  greatest, is_owner_granted, view_from_parent, max_from_parents, inherited_view,
  computed_permissions,
}
use algorea_backend.Access.Marks.{is_child}
use algorea_backend.Access.Loop.{access}
use algorea_backend.Access.Policy.{is_granted_at, max_granted_at}

-- The second item is the first or lies under it.
pub data IsUnder (relations : List ItemItem) (a : ℕ) : ℕ → Type 0 where
  here : IsUnder relations a a
  below :
      {p : ℕ} (i : ℕ)
      → IsUnder relations a p
      → is_child relations p i ≡ true
      → IsUnder relations a i

view_not_raised :
    (r : ItemItem) (p : Generated) (level : ℕ)
    → leb 2 level ≡ true
    → leb level (view_from_parent r (some p)) ≡ true
    → leb level p.can_view ≡ true
unfolding view_from_parent
view_not_raised r p level two reached = ground arith

parent_of_level :
    (f : ItemItem → ℕ) (level i : ℕ) (relations : List ItemItem)
    → leb 2 level ≡ true
    → leb level (max_from_parents f i relations) ≡ true
    → (r : ItemItem) × (is_child relations r.parent_item_id i ≡ true) × (leb level (f r) ≡ true)
unfolding max_from_parents is_child greatest
parent_of_level f level i [] two reached = absurd (ground arith)
parent_of_level f level i (r ∷ relations) two reached =
    elim (Bool-cases (leb level (max_from_parents f i relations))) [
      | inl later ↦
          let (s, child, high) = parent_of_level f level i relations two later in
          (s, ground arith, high)
      | inr low ↦ (r, ground arith, ground arith)
    ]

greatest_cases :
    (a b level : ℕ) → leb level (greatest a b) ≡ true → (leb level a ≡ true) ⊎ (leb level b ≡ true)
unfolding greatest
greatest_cases a b level reached = ground arith

-- The group has the level of view on the item by a row of permissions_granted, or owns the item.
abbrev pub IsGranted : Items → ℕ → ℕ → ℕ → Type 0
IsGranted items level g a =
    (is_granted_at (λ row. row.can_view_value) level g a items.permissions_granted ≡ true)
    ⊎ (is_owner_granted g a items.permissions_granted ≡ true)

module _ (items : Items) (level g : ℕ) (two : leb 2 level ≡ true) where
  -- A right to view comes from a grant that is at least as high: the group has it on the item or on
  -- an item above, by can_view or as an owner. The level is above "none".
  pub access-IsGranted :
      (n i : ℕ)
      → leb level (access items n g i).can_view ≡ true
      → (a : ℕ) × IsUnder items.items_items a i × IsGranted items level g a
  unfolding access computed_permissions
  access-IsGranted zero i reached = absurd (ground arith)
  access-IsGranted (suc n) i reached =
      elim (Bool-cases (is_owner_granted g i items.permissions_granted)) [
        | inl owner ↦ (i, here, inr owner)
        | inr other ↦ elim (greatest_cases _ _ level (rw other at reached)) [
          | inl granted ↦ (
            i,
            here,
            inl (
                sym (
                  max_granted_at (λ row. row.can_view_value) level g i items.permissions_granted
                    two)
                ∙ granted),
          )
          | inr inherited ↦
              let (r, child, high) =
                parent_of_level (inherited_view items (λ p. some (access items n g p))) level i
                  items.items_items two inherited in
              let (a, under, granted) =
                access-IsGranted n r.parent_item_id
                  (view_not_raised r (access items n g r.parent_item_id) level two high) in
              (a, below i under child, granted)
        ]
      ]
