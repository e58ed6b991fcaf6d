-- ===== src/Children/Cycles.antt =====
-- The update of the children leaves the items without a cycle and items_ancestors up to date
-- (app/api/items/update_item.go).
use algorea_backend.Shared.{
  ℕ, ◌+◌, ◌≡◌, ◌↔◌, inl, inr, refl, sym, ◌∙◌, Bool, true, false, ◌&&◌, ◌||◌, List, [], ◌∷◌, ◌==◌,
  if◌then◌else◌, arith, Bool-cases,
}
use algorea_backend.Ancestors.Tables.{is_listed, has_pair}
use algorea_backend.Ancestors.Invariant.{IsForest}
use algorea_backend.Ancestors.ItemLaws.{is_inherited}
use algorea_backend.Ancestors.ItemClosure.{
  IsAbove, parent, higher, inherited_parent, is_inherited_lem,
}
use algorea_backend.Children.Update.{check_items_relations_cycles}

-- items_ancestors is the closure of the relations.
abbrev pub IsClosed : List (ℕ × ℕ) → List (ℕ × ℕ) → Type 0
IsClosed relations ancestors = (a c : ℕ) → (has_pair ancestors a c ≡ true) ↔ IsAbove relations a c

pub same_truth : (a b : Bool) → (a ≡ true → b ≡ true) → (b ≡ true → a ≡ true) → a ≡ b
same_truth true true f g = refl
same_truth true false f g = sym (f refl)
same_truth false true f g = g refl
same_truth false false f g = refl

module _ (relations ancestors : List (ℕ × ℕ)) (closed : IsClosed relations ancestors) where
  row_of : (a c : ℕ) → IsAbove relations a c → has_pair ancestors a c ≡ true
  row_of a c above = let (to, from) = closed a c in from above

  row-IsAbove : (a c : ℕ) → has_pair ancestors a c ≡ true → IsAbove relations a c
  row-IsAbove a c row = let (to, from) = closed a c in to row

  last_step :
      (other : List (ℕ × ℕ)) (a c : ℕ)
      → ((p : ℕ) → has_pair other p c ≡ has_pair relations p c)
      → IsAbove relations a c
      → (has_pair other a c || is_inherited other (λ p b. has_pair ancestors b p) c a) ≡ true
  last_step other a c same (parent edge) = rw (same a ∙ edge) refl
  last_step other a c same (higher {p} above edge) = ground (
    arith,
    is_inherited_lem other (λ q b. has_pair ancestors b q) p c a (same p ∙ edge) (row_of a p above),
  )

  -- An item whose parents have not changed has the right rows.
  pub kept_rows :
      (other : List (ℕ × ℕ)) (c : ℕ)
      → ((p : ℕ) → has_pair other p c ≡ has_pair relations p c)
      → (a : ℕ)
      → has_pair ancestors a c
        ≡ (has_pair other a c || is_inherited other (λ p b. has_pair ancestors b p) c a)
  kept_rows other c same a =
      same_truth _ _ (λ row. last_step other a c same (row-IsAbove a c row))
        (λ found. elim (Bool-cases (has_pair other a c)) [
          | inl edge ↦ row_of a c (parent (sym (same a) ∙ edge))
          | inr over ↦
              let (p, edge, above) =
                inherited_parent other (λ q b. has_pair ancestors b q) c a (ground arith) in
              row_of a c (higher (row-IsAbove a p above) (sym (same p) ∙ edge))
        ])

  -- Is the item a new child, or under one?
  unfoldable is_lifted : List ℕ → ℕ → Bool
  is_lifted [] x = false
  is_lifted (c ∷ ids) x = (c == x || has_pair ancestors c x) || is_lifted ids x

  lifted_child : (ids : List ℕ) (x : ℕ) → is_listed ids x ≡ true → is_lifted ids x ≡ true
  unfolding is_lifted is_listed
  lifted_child [] x e = absurd (ground arith)
  lifted_child (c ∷ ids) x e = ground (arith, lifted_child ids x)

  lifted_under :
      (ids : List ℕ) (p x : ℕ)
      → has_pair relations p x ≡ true
      → is_lifted ids p ≡ true
      → is_lifted ids x ≡ true
  unfolding is_lifted
  lifted_under [] p x edge e = absurd (ground arith)
  lifted_under (c ∷ ids) p x edge e = elim (Bool-cases (is_lifted ids p)) [
    | inl later ↦ ground (arith, lifted_under ids p x edge later)
    | inr first ↦ elim (Bool-cases (has_pair ancestors c p)) [
      | inl above ↦ ground (arith, row_of c x (higher (row-IsAbove c p above) edge))
      | inr over ↦ ground (arith, row_of p x (parent edge))
    ]
  ]

  unlifted :
      (ids : List ℕ) (item : ℕ)
      → check_items_relations_cycles ancestors item ids ≡ true
      → is_lifted ids item ≡ false
  unfolding is_lifted check_items_relations_cycles
  unlifted [] item e = refl
  unlifted (c ∷ ids) item e = ground (arith, unlifted ids item)

  -- The ranks after the update: what is under a new child moves over the rest.
  pub new_rank : (ℕ → ℕ) → ℕ → List ℕ → ℕ → ℕ
  new_rank rank height ids x = if is_lifted ids x then rank x + height else rank x

  pub lifted-IsForest :
      (rank : ℕ → ℕ) (height item : ℕ) (ids : List ℕ) (other : List (ℕ × ℕ))
      → IsForest relations rank height
      → check_items_relations_cycles ancestors item ids ≡ true
      → ((p c : ℕ)
          → has_pair other p c ≡ true
          → ((item == p && is_listed ids c) || has_pair relations p c) ≡ true)
      → IsForest other (new_rank rank height ids) (height + height)
  unfolding new_rank
  lifted-IsForest rank height item ids other forest check source = record {
    above = λ p c edge. elim (Bool-cases (has_pair relations p c)) [
      | inl old ↦ ground (arith, forest.above p c old, lifted_under ids p c old)
      | inr new ↦
          ground
            (arith, source p c edge, unlifted ids item check, lifted_child ids c, forest.bounded p)
    ];
    bounded = λ c. ground (arith, forest.bounded c);
  }
