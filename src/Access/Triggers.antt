-- ===== src/Access/Triggers.antt =====
-- The triggers that mark what the propagation of permissions has to compute
-- (db/migrations/2501232006_rework_triggers_to_store_connection_id_for_sync_permissions_and_results_propagations.sql,
-- db/migrations/2411181747_modify_trigger_after_insert_items_items_to_recompute_parent_results.sql).
use algorea_backend.Shared.{
  ℕ, ◌≡◌, ◌⊎◌, inl, inr, refl, sym, ap, ◌∙◌, true, false, ◌&&◌, ◌||◌, Option, none, some, is_some,
  List, [], ◌∷◌, ◌==◌, ltb, arith, Bool-cases,
}
use algorea_backend.Access.Tables.{
  Generated, Granted, ItemItem, Propagate, GeneratedTable, same_pair, generated_row, Items, State,
}
use algorea_backend.Access.Computation.{
  greatest, max_granted, is_owner_granted, view_from_parent, level_from_parent, column_of,
  max_from_parents, computed_permissions,
}
use algorea_backend.Access.Rounds.{is_self, is_children, mark_self}
use algorea_backend.Access.Marks.{is_child, is_self-mark_self, is_children-mark_self}
use algorea_backend.Access.Invariant.{IsMarked}
use algorea_backend.Access.Removal.{mark_parent_as_children, removed-is_self}

abbrev pub with_granted : List Granted → Items → Items
with_granted rows items = record {
  permissions_granted = rows;
  items_items = items.items_items;
  items_ancestors = items.items_ancestors;
}

abbrev pub with_relation : ItemItem → Items → Items
with_relation r items = record {
  permissions_granted = items.permissions_granted;
  items_items = r ∷ items.items_items;
  items_ancestors = items.items_ancestors;
}

-- `after_insert_permissions_granted` and `after_delete_permissions_granted`: REPLACE with 'self'.
unfoldable pub mark_granted : Granted → State → State
mark_granted row s = record {
  permissions_generated = s.permissions_generated;
  permissions_propagate = mark_self row.group_id row.item_id s.permissions_propagate;
}

-- `after_insert_items_items`.
unfoldable pub mark_inserted_relation : ItemItem → State → State
mark_inserted_relation r s = record {
  permissions_generated = s.permissions_generated;
  permissions_propagate =
      mark_parent_as_children r.parent_item_id s.permissions_generated s.permissions_propagate;
}

-- The permissions of the other pairs do not depend on the row.
granted_elsewhere :
    (row : Granted) (rows : List Granted) (items : Items) (f : ℕ → Option Generated) (g i : ℕ)
    → same_pair row.group_id row.item_id g i ≡ false
    → computed_permissions (with_granted (row ∷ rows) items) f g i
      ≡ computed_permissions (with_granted rows items) f g i
unfolding computed_permissions max_granted is_owner_granted
granted_elsewhere row rows items f g i other = rw other refl

granted_step :
    (row : Granted) (old new : List Granted) (items : Items) (s : State)
    → ((f : ℕ → Option Generated) (g i : ℕ)
        → same_pair row.group_id row.item_id g i ≡ false
        → computed_permissions (with_granted old items) f g i
          ≡ computed_permissions (with_granted new items) f g i)
    → IsMarked (with_granted old items) s
    → IsMarked (with_granted new items) (mark_granted row s)
unfolding mark_granted
granted_step row old new items s same m = record {
  stale = λ g i. elim (Bool-cases (same_pair row.group_id row.item_id g i)) [
    | inl here ↦ inr (
        inl (
          ground
            (arith, here, is_self-mark_self row.group_id row.item_id g i s.permissions_propagate)))
    | inr other ↦ elim (m.stale g i) [
      | inl settled ↦
          inl (settled ∙ same (λ p. generated_row g p s.permissions_generated) g i other)
      | inr (inl mark) ↦ inr (
          inl (
            ground (
              arith,
              mark,
              is_self-mark_self row.group_id row.item_id g i s.permissions_propagate,
            )))
      | inr (inr (p, mark, child)) ↦ inr (
          inr (
            p,
            ground (
              arith,
              mark,
              is_self-mark_self row.group_id row.item_id g p s.permissions_propagate,
              is_children-mark_self row.group_id row.item_id g p s.permissions_propagate,
            ),
            child,
          ))
    ]
  ];
  has_row = λ g i mark. m.has_row g i (
      ground
        (arith, mark, is_children-mark_self row.group_id row.item_id g i s.permissions_propagate));
}

-- The trigger on an insertion into permissions_granted keeps what is out of date marked: every pair
-- whose permissions are out of date after it is marked 'self', or one of its parents is marked, if
-- it was so before.
pub inserted_grant-IsMarked :
    (row : Granted) (rows : List Granted) (items : Items) (s : State)
    → IsMarked (with_granted rows items) s
    → IsMarked (with_granted (row ∷ rows) items) (mark_granted row s)
inserted_grant-IsMarked row rows items s m =
    granted_step row rows (row ∷ rows) items s
      (λ f g i other. sym (granted_elsewhere row rows items f g i other)) m

-- The trigger on a deletion from permissions_granted keeps what is out of date marked: every pair
-- whose permissions are out of date after it is marked 'self', or one of its parents is marked, if
-- it was so before.
pub deleted_grant-IsMarked :
    (row : Granted) (rows : List Granted) (items : Items) (s : State)
    → IsMarked (with_granted (row ∷ rows) items) s
    → IsMarked (with_granted rows items) (mark_granted row s)
deleted_grant-IsMarked row rows items s m =
    granted_step row (row ∷ rows) rows items s
      (λ f g i other. granted_elsewhere row rows items f g i other) m

option_cases : {A : Type 0} (o : Option A) → (o ≡ none) ⊎ (is_some o ≡ true)
option_cases none = inl refl
option_cases (some x) = inr refl

max_at_least_one :
    (level : ItemItem → ℕ) (i : ℕ) (relations : List ItemItem)
    → ltb (max_from_parents level i relations) 1 ≡ false
unfolding max_from_parents greatest
max_at_least_one level i [] = ground arith
max_at_least_one level i (r ∷ relations) = ground (arith, max_at_least_one level i relations)

one_more_parent :
    (level : ItemItem → ℕ) (r : ItemItem) (i : ℕ) (relations : List ItemItem)
    → ((r.child_item_id == i) ≡ false) ⊎ (level r ≡ 1)
    → max_from_parents level i (r ∷ relations) ≡ max_from_parents level i relations
unfolding max_from_parents greatest
one_more_parent level r i relations (inl other) = rw other refl
one_more_parent level r i relations (inr one) =
    ground (arith, one, max_at_least_one level i relations)

-- A relation to another item, or from a parent without a row, gives nothing.
module _ (r : ItemItem) (items : Items) (f : ℕ → Option Generated) (i : ℕ)
    (idle : ((r.child_item_id == i) ≡ false) ⊎ (f r.parent_item_id ≡ none)) where
  nothing_more :
      (level : ItemItem → Option Generated → ℕ)
      → level r none ≡ 1
      → max_from_parents (λ q. level q (f q.parent_item_id)) i (r ∷ items.items_items)
        ≡ max_from_parents (λ q. level q (f q.parent_item_id)) i items.items_items
  nothing_more level one = elim idle [
    | inl other ↦
        one_more_parent (λ q. level q (f q.parent_item_id)) r i items.items_items (inl other)
    | inr absent ↦
        one_more_parent (λ q. level q (f q.parent_item_id)) r i items.items_items
          (inr (ap (level r) absent ∙ one))
  ]

  relation_elsewhere :
      (g : ℕ)
      → computed_permissions (with_relation r items) f g i ≡ computed_permissions items f g i
  unfolding computed_permissions view_from_parent level_from_parent
  relation_elsewhere g = rw (
    nothing_more view_from_parent refl,
    nothing_more
        (λ q o. level_from_parent q.grant_view_propagation 5 (column_of (λ p. p.can_grant_view) o))
        refl,
    nothing_more (λ q o. level_from_parent q.watch_propagation 3 (column_of (λ p. p.can_watch) o))
        refl,
    nothing_more (λ q o. level_from_parent q.edit_propagation 3 (column_of (λ p. p.can_edit) o))
        refl,
  )

-- The parent is marked for each group with a row.
parent_marked :
    (parent : ℕ) (rows : GeneratedTable) (marks : List Propagate) (g : ℕ)
    → is_some (generated_row g parent rows) ≡ true
    → (is_children (mark_parent_as_children parent rows marks) g parent
        || is_self (mark_parent_as_children parent rows marks) g parent)
      ≡ true
unfolding mark_parent_as_children generated_row is_children is_self
parent_marked parent [] marks g e = absurd (ground arith)
parent_marked parent ((h, j, p) ∷ rows) marks g e =
    ground (arith, parent_marked parent rows marks g)

mark_kept :
    (parent : ℕ) (rows : GeneratedTable) (marks : List Propagate) (g i : ℕ)
    → is_children marks g i ≡ true
    → is_children (mark_parent_as_children parent rows marks) g i ≡ true
unfolding mark_parent_as_children is_children
mark_kept parent [] marks g i e = e
mark_kept parent ((h, j, p) ∷ rows) marks g i e = ground (arith, mark_kept parent rows marks g i e)

marked_parent :
    (parent : ℕ) (rows : GeneratedTable) (marks : List Propagate) (g i : ℕ)
    → is_children (mark_parent_as_children parent rows marks) g i ≡ true
    → (is_children marks g i || is_some (generated_row g i rows)) ≡ true
unfolding mark_parent_as_children generated_row is_children
marked_parent parent [] marks g i e = ground (arith, e)
marked_parent parent ((h, j, p) ∷ rows) marks g i e =
    ground (arith, marked_parent parent rows marks g i)

idle_relation :
    (r : ItemItem) (table : GeneratedTable) (g i : ℕ)
    → (r.child_item_id == i && is_some (generated_row g r.parent_item_id table)) ≡ false
    → ((r.child_item_id == i) ≡ false) ⊎ (generated_row g r.parent_item_id table ≡ none)
idle_relation r table g i idle = elim (option_cases (generated_row g r.parent_item_id table)) [
  | inl absent ↦ inr absent
  | inr present ↦ inl (ground (arith, idle, present))
]

-- The trigger on items_items keeps what is out of date marked when a relation is inserted: every
-- pair whose permissions are out of date after it is marked 'self', or one of its parents is marked,
-- if it was so before.
pub mark_inserted_relation-IsMarked :
    (r : ItemItem) (items : Items) (s : State)
    → IsMarked items s
    → IsMarked (with_relation r items) (mark_inserted_relation r s)
unfolding mark_inserted_relation is_child
mark_inserted_relation-IsMarked r items s m =
    let table = s.permissions_generated in
    let marks = s.permissions_propagate in
    record {
      stale = λ g i.
          elim (Bool-cases
            ((r.child_item_id == i) && is_some (generated_row g r.parent_item_id table))) [
              | inl gains ↦ inr (
                  inr (
                    r.parent_item_id,
                    parent_marked r.parent_item_id table marks g (ground (arith, gains)),
                    ground (arith, gains),
                  ))
              | inr idle ↦ elim (m.stale g i) [
                | inl settled ↦ inl (
                    settled
                    ∙ sym (
                        relation_elsewhere r items (λ p. generated_row g p table) i
                          (idle_relation r table g i idle) g))
                | inr (inl mark) ↦
                    inr (inl (removed-is_self r.parent_item_id table marks g i ∙ mark))
                | inr (inr (p, mark, child)) ↦ inr (
                    inr (
                      p,
                      ground (
                        arith,
                        mark,
                        removed-is_self r.parent_item_id table marks g p,
                        mark_kept r.parent_item_id table marks g p,
                      ),
                      ground (arith, child),
                    ))
              ]
            ];
      has_row = λ g i mark.
          ground (arith, marked_parent r.parent_item_id table marks g i mark, m.has_row g i);
    }
