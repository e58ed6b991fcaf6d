-- ===== src/Ancestors/Composition.antt =====
-- The two recomputations after a change of the relations of items: `createNewAncestors` in the
-- transaction (app/database/ancestors.go), then `computeAllAccess`, which reads the ancestors
-- (app/database/permission_granted_store_compute_all_access.go).
use algorea_backend.Shared.{ℕ, suc, ◌≡◌, ◌<◌, ◌↔◌, refl, sym, ◌∙◌, true, some, List, [], ◌∷◌, arith}
use algorea_backend.Ancestors.Tables.{has_pair, AncestorsState}
use algorea_backend.Ancestors.Rounds.{create_new_ancestors}
use algorea_backend.Ancestors.Invariant.{IsForest}
use algorea_backend.Ancestors.Items.{item_tables}
use algorea_backend.Ancestors.ItemClosure.{
  IsAbove, parent, higher, ItemsMarked, create_new_ancestors-IsAbove,
}
use algorea_backend.Access.Tables.{ItemItem, Granted, Items, State}
use algorea_backend.Access.Rounds.{is_ancestor_row, compute_all_access}
use algorea_backend.Access.Marks.{is_child}
use algorea_backend.Access.Invariant.{access_of, IsRanked, IsMarked}
use algorea_backend.Access.Loop.{access, compute_all_access-access}

-- The columns of items_items that the ancestors depend on.
abbrev pub parent_pairs : List ItemItem → List (ℕ × ℕ)
parent_pairs [] = []
parent_pairs (r ∷ items_items) = (r.parent_item_id, r.child_item_id) ∷ parent_pairs items_items

parent_pairs-is_child :
    (items_items : List ItemItem) (p c : ℕ)
    → is_child items_items p c ≡ has_pair (parent_pairs items_items) p c
unfolding is_child has_pair
parent_pairs-is_child [] p c = refl
parent_pairs-is_child (r ∷ items_items) p c = ground (arith, parent_pairs-is_child items_items p c)

same_rows : (pairs : List (ℕ × ℕ)) (a c : ℕ) → is_ancestor_row a c pairs ≡ has_pair pairs a c
unfolding is_ancestor_row has_pair
same_rows [] a c = refl
same_rows ((x, y) ∷ pairs) a c = rw (same_rows pairs a c) refl

IsAbove-rank :
    (relations : List (ℕ × ℕ)) (rank : ℕ → ℕ) (height : ℕ) (a c : ℕ)
    → IsForest relations rank height
    → IsAbove relations a c
    → rank a < rank c
IsAbove-rank relations rank height a c forest (parent edge) = forest.above a c edge
IsAbove-rank relations rank height a c forest (higher {p} above edge) =
    omega (arith, IsAbove-rank relations rank height a p forest above, forest.above p c edge)

-- The tables of items after the recomputation of the ancestors.
abbrev pub with_ancestors : List Granted → List ItemItem → List (ℕ × ℕ) → Items
with_ancestors permissions_granted items_items items_ancestors = record {
  permissions_granted = permissions_granted;
  items_items = items_items;
  items_ancestors = items_ancestors;
}

module _ (permissions_granted : List Granted) (items_items : List ItemItem) (rank : ℕ → ℕ)
    (height : ℕ) (forest : IsForest (parent_pairs items_items) rank height) where
  closed-IsRanked :
      (rows : List (ℕ × ℕ))
      → ((a c : ℕ) → (has_pair rows a c ≡ true) ↔ IsAbove (parent_pairs items_items) a c)
      → IsRanked (with_ancestors permissions_granted items_items rows) rank height
  closed-IsRanked rows exact = record {
    above = λ a c row.
        IsAbove-rank (parent_pairs items_items) rank height a c forest
          (let (to, from) = exact a c in to (sym (same_rows rows a c) ∙ row));
    covered = λ p c child.
        same_rows rows p c
        ∙ (let (to, from) = exact p c in
            from (parent (sym (parent_pairs-is_child items_items p c) ∙ child)));
    bounded = forest.bounded;
  }

  -- The recomputation of items_ancestors makes the propagation of permissions work: where
  -- items_items has no cycle, the items with outdated ancestors are marked 'todo' and the pairs with
  -- outdated permissions are marked, the one ends, then the other, and every group has on every item
  -- the permissions that the recursion on the parents gives.
  pub create_new_ancestors-compute_all_access :
      (t : AncestorsState (List (ℕ × ℕ))) (s : State)
      → ItemsMarked (parent_pairs items_items) t
      → ((rows : List (ℕ × ℕ)) → IsMarked (with_ancestors permissions_granted items_items rows) s)
      → (ancestors : AncestorsState (List (ℕ × ℕ))) × (create_new_ancestors
            (item_tables (parent_pairs items_items))
            (suc height)
            t
          ≡ some ancestors)
        × (done : State) × (compute_all_access
              (suc height)
              (with_ancestors permissions_granted items_items ancestors.ancestors)
              s
            ≡ some done)
        × ((g i : ℕ)
            → access_of done.permissions_generated g i
              ≡ access
                  (with_ancestors permissions_granted items_items ancestors.ancestors)
                  height
                  g
                  i)
  create_new_ancestors-compute_all_access t s outdated marked =
      let (ancestors, runs, result) =
        create_new_ancestors-IsAbove (parent_pairs items_items) rank height forest t outdated in
      let ranked =
        closed-IsRanked ancestors.ancestors (λ a c. let (finished, exact) = result c in exact a) in
      let (done, propagates, permissions) =
        compute_all_access-access
          (with_ancestors permissions_granted items_items ancestors.ancestors) rank height ranked s
          (marked ancestors.ancestors) in
      (ancestors, runs, done, propagates, λ g i. let (same, clean) = permissions g i in same)
