-- ===== src/Ancestors/ItemClosure.antt =====
-- `createNewAncestors` makes items_ancestors the transitive closure of items_items
-- (app/database/ancestors.go).
use algorea_backend.Shared.{
  ℕ, zero, suc, ◌≡◌, ◌<◌, ◌↔◌, inl, inr, refl, sym, ◌∙◌, Bool, true, false, ◌&&◌, ◌||◌, some, List,
  [], ◌∷◌, ◌==◌, arith, Bool-cases,
}
use algorea_backend.Ancestors.Tables.{is_todo, has_pair, AncestorsState}
use algorea_backend.Ancestors.Rounds.{mark_descendants, has_todo_parent, create_new_ancestors}
use algorea_backend.Ancestors.Marks.{is_todo-mark_descendants, todo_parent, has_todo_parent_lem}
use algorea_backend.Ancestors.Invariant.{IsForest, IsInProgress}
use algorea_backend.Ancestors.Loop.{closure, recompute_until_done-closure}
use algorea_backend.Ancestors.Items.{item_tables}
use algorea_backend.Ancestors.ItemLaws.{
  is_inherited, item_local, item_value, item_own, is_item_relation, items-IsRecomputation,
}

-- The first item is a parent of the second, a parent of a parent, and so on.
pub data IsAbove (relations : List (ℕ × ℕ)) (a : ℕ) : ℕ → Type 0 where
  parent : {c : ℕ} → has_pair relations a c ≡ true → IsAbove relations a c
  higher : {p c : ℕ} → IsAbove relations a p → has_pair relations p c ≡ true → IsAbove relations a c

pub inherited_parent :
    (relations : List (ℕ × ℕ)) (v : ℕ → ℕ → Bool) (c a : ℕ)
    → is_inherited relations v c a ≡ true
    → (p : ℕ) × (has_pair relations p c ≡ true) × (v p a ≡ true)
unfolding is_inherited has_pair
inherited_parent [] v c a e = absurd (ground arith)
inherited_parent ((p, y) ∷ relations) v c a e = elim (Bool-cases (is_inherited relations v c a)) [
  | inl later ↦
      let (q, edge, high) = inherited_parent relations v c a later in (q, ground arith, high)
  | inr over ↦ (p, ground arith, ground arith)
]

pub is_inherited_lem :
    (relations : List (ℕ × ℕ)) (v : ℕ → ℕ → Bool) (p c a : ℕ)
    → has_pair relations p c ≡ true
    → v p a ≡ true
    → is_inherited relations v c a ≡ true
unfolding is_inherited has_pair
is_inherited_lem [] v p c a edge high = absurd (ground arith)
is_inherited_lem ((q, y) ∷ relations) v p c a edge high = elim (Bool-cases (q == p && y == c)) [
  | inl found ↦ ground arith
  | inr other ↦ ground (arith, is_inherited_lem relations v p c a (ground arith) high)
]

-- An item that is not 'todo' has the rows of its parents and of their ancestors.
abbrev pub ItemsMarked : List (ℕ × ℕ) → AncestorsState (List (ℕ × ℕ)) → Type 0
ItemsMarked relations s =
    (c : ℕ)
    → is_todo s.propagate c ≡ false
    → (a : ℕ)
    → has_pair s.ancestors a c
      ≡ (has_pair relations a c || is_inherited relations (λ p b. has_pair s.ancestors b p) c a)

module _ (relations : List (ℕ × ℕ)) (rank : ℕ → ℕ) (height : ℕ)
    (forest : IsForest relations rank height) where
  abbrev reach : ℕ → ℕ → ℕ → Bool
  reach n c a = closure (item_local relations) false (λ i. false) n c a

  reach-IsAbove : (n c a : ℕ) → reach n c a ≡ true → IsAbove relations a c
  unfolding closure item_local
  reach-IsAbove zero c a e = absurd (ground arith)
  reach-IsAbove (suc n) c a e = elim (Bool-cases (has_pair relations a c)) [
    | inl edge ↦ parent edge
    | inr over ↦
        let (p, edge, high) =
          inherited_parent relations (closure (item_local relations) false (λ i. false) n) c a
            (ground arith) in
        higher (reach-IsAbove n p a high) edge
  ]

  IsAbove-reach : (n c a : ℕ) → rank c < n → IsAbove relations a c → reach n c a ≡ true
  unfolding closure item_local
  IsAbove-reach zero c a low above = absurd (omega arith)
  IsAbove-reach (suc n) c a low (parent edge) = rw edge refl
  IsAbove-reach (suc n) c a low (higher {p} above edge) = ground (
    arith,
    is_inherited_lem relations (closure (item_local relations) false (λ i. false) n) p c a edge
        (IsAbove-reach n p a (omega (arith, forest.above p c edge)) above),
  )

  start-IsInProgress :
      (s : AncestorsState (List (ℕ × ℕ)))
      → ItemsMarked relations s
      → IsInProgress
          (item_tables relations)
          item_value
          item_own
          (item_local relations)
          (is_item_relation relations)
          (items-IsRecomputation relations)
          (λ c. has_todo_parent s.ancestors s.propagate c || is_todo s.propagate c)
          (record { ancestors = s.ancestors; propagate = mark_descendants s.ancestors s.propagate })
  unfolding item_local
  start-IsInProgress s m = record {
    settled = λ c clean a. m c (ground (arith, clean)) a;
    closed = λ p c stale edge. elim (Bool-cases (is_todo s.propagate c)) [
      | inl mark ↦ ground arith
      | inr fresh ↦ elim (Bool-cases (is_todo s.propagate p)) [
        | inl mark ↦
            let row : has_pair s.ancestors p c ≡ true = m c fresh p ∙ rw edge refl in
            ground (arith, has_todo_parent_lem s.ancestors s.propagate p c row mark)
        | inr quiet ↦
            let (a, mark, above) = todo_parent s.ancestors s.propagate p (ground arith) in
            let inherits =
              is_inherited_lem relations (λ q b. has_pair s.ancestors b q) p c a edge above in
            let row : has_pair s.ancestors a c ≡ true = m c fresh a ∙ ground (arith, inherits) in
            ground (arith, has_todo_parent_lem s.ancestors s.propagate a c row mark)
      ]
    ];
    marked = λ c stale. is_todo-mark_descendants s.ancestors s.propagate c ∙ stale;
  }

  -- The recomputation of items_ancestors ends: where items_items has no cycle and the items whose
  -- rows are out of date are marked 'todo', as many rounds as the height of the items, and one more,
  -- are enough. It leaves no item 'todo', and items_ancestors has the pairs of an item and one under
  -- it, and no other.
  pub create_new_ancestors-IsAbove :
      (s : AncestorsState (List (ℕ × ℕ)))
      → ItemsMarked relations s
      → (done : AncestorsState (List (ℕ × ℕ))) × (create_new_ancestors
            (item_tables relations)
            (suc height)
            s
          ≡ some done)
        × ((c : ℕ)
            → (is_todo done.propagate c ≡ false)
              × ((a : ℕ) → (has_pair done.ancestors a c ≡ true) ↔ IsAbove relations a c))
  unfolding create_new_ancestors
  create_new_ancestors-IsAbove s m =
      let (done, runs, result) =
        recompute_until_done-closure (item_tables relations) item_value item_own
          (item_local relations) (is_item_relation relations) (items-IsRecomputation relations) rank
          height forest false
          (λ c. has_todo_parent s.ancestors s.propagate c || is_todo s.propagate c)
          (record { ancestors = s.ancestors; propagate = mark_descendants s.ancestors s.propagate })
          (start-IsInProgress s m) in
      (
        done,
        runs,
        λ c.
            let (finished, values) = result c in
            (
              finished,
              λ a. (
                λ row. reach-IsAbove height c a (sym (values a) ∙ row),
                λ above. values a ∙ IsAbove-reach height c a (forest.bounded c) above,
              ),
            ),
      )
