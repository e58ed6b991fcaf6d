-- ===== src/Access/Policy.antt =====
-- What a group can get from the permissions granted on an item and on its ancestors
-- (app/database/permission_granted_store_compute_all_access.go).
use algorea_backend.Shared.{
  ℕ, suc, ◌≡◌, inl, inr, refl, ◌∙◌, Bool, true, false, ◌&&◌, ◌||◌, Option, none, some, List, [],
  ◌∷◌, ltb, leb, arith, Bool-cases,
}
use algorea_backend.Access.Tables.{Generated, Granted, ItemItem, Items, same_pair}
use algorea_backend.Access.Computation.{
  greatest, least, max_granted, is_owner_granted, level_from_parent, max_from_parents,
  inherited_grant_view, inherited_watch, inherited_edit, computed_permissions,
}
use algorea_backend.Access.Loop.{access}

-- Is one of the granted values of the pair at least the level?
unfoldable pub is_granted_at : (Granted → ℕ) → ℕ → ℕ → ℕ → List Granted → Bool
is_granted_at column level g i [] = false
is_granted_at column level g i (row ∷ rows) =
    (same_pair row.group_id row.item_id g i && leb level (column row))
    || is_granted_at column level g i rows

max_from_parents_bound :
    (level : ItemItem → ℕ) (limit i : ℕ) (relations : List ItemItem)
    → leb 1 limit ≡ true
    → ((r : ItemItem) → leb (level r) limit ≡ true)
    → leb (max_from_parents level i relations) limit ≡ true
unfolding max_from_parents greatest
max_from_parents_bound level limit i [] one bound = one
max_from_parents_bound level limit i (r ∷ relations) one bound =
    ground (arith, max_from_parents_bound level limit i relations one bound, bound r)

level_bound :
    (propagation : Bool) (limit : ℕ) (o : Option ℕ)
    → leb 1 limit ≡ true
    → leb (level_from_parent propagation limit o) limit ≡ true
unfolding level_from_parent least
level_bound propagation limit none one = one
level_bound propagation limit (some v) one = ground arith

pub max_granted_at :
    (column : Granted → ℕ) (level g i : ℕ) (rows : List Granted)
    → leb 2 level ≡ true
    → leb level (max_granted column g i rows) ≡ is_granted_at column level g i rows
unfolding max_granted is_granted_at greatest
max_granted_at column level g i [] two = ground arith
max_granted_at column level g i (row ∷ rows) two =
    ground (arith, max_granted_at column level g i rows two)

greatest_at :
    (a b limit level : ℕ)
    → leb b limit ≡ true
    → ltb limit level ≡ true
    → leb level (greatest a b) ≡ leb level a
unfolding greatest
greatest_at a b limit level low high = ground arith

module _ (items : Items) (n g i : ℕ) where
  abbrev rows : List Granted
  rows = items.permissions_granted

  abbrev parents : ℕ → Option Generated
  parents p = some (access items n g p)

  -- The rights to grant are never inherited: solution_with_grant, answer_with_grant, all_with_grant
  -- and the ownership of an item are those that permissions_granted has for the group and the item
  -- itself, and the ownership gives the three others.
  pub access-with_grant :
      (leb 6 (access items (suc n) g i).can_grant_view ≡ (
        is_owner_granted g i items.permissions_granted
        || is_granted_at (λ row. row.can_grant_view_value) 6 g i items.permissions_granted))
      × (leb 4 (access items (suc n) g i).can_watch ≡ (
          is_owner_granted g i items.permissions_granted
          || is_granted_at (λ row. row.can_watch_value) 4 g i items.permissions_granted))
      × (leb 4 (access items (suc n) g i).can_edit ≡ (
          is_owner_granted g i items.permissions_granted
          || is_granted_at (λ row. row.can_edit_value) 4 g i items.permissions_granted))
      × ((access items (suc n) g i).is_owner ≡ is_owner_granted g i items.permissions_granted)
  unfolding access computed_permissions
  access-with_grant = elim (Bool-cases (is_owner_granted g i rows)) [
    | inl owner ↦ rw owner (refl, refl, refl, refl)
    | inr other ↦ rw other (
      greatest_at _ _ 5 6
            (max_from_parents_bound (inherited_grant_view items parents) 5 i items.items_items refl
              (λ r. level_bound r.grant_view_propagation 5 _ refl))
            refl
          ∙ max_granted_at (λ row. row.can_grant_view_value) 6 g i rows refl,
      greatest_at _ _ 3 4
            (max_from_parents_bound (inherited_watch items parents) 3 i items.items_items refl
              (λ r. level_bound r.watch_propagation 3 _ refl))
            refl
          ∙ max_granted_at (λ row. row.can_watch_value) 4 g i rows refl,
      greatest_at _ _ 3 4
            (max_from_parents_bound (inherited_edit items parents) 3 i items.items_items refl
              (λ r. level_bound r.edit_propagation 3 _ refl))
            refl
          ∙ max_granted_at (λ row. row.can_edit_value) 4 g i rows refl,
      refl,
    )
  ]
