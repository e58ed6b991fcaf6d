-- ===== src/Ancestors/Invariant.antt =====
-- The invariant of the rounds of `createNewAncestors` (app/database/ancestors.go): what is out of
-- date lies under objects that are 'todo'.
use algorea_backend.Shared.{
  ℕ, ◌≡◌, ◌<◌, inl, inr, sym, ◌∙◌, Bool, true, false, ◌&&◌, not, List, arith, Bool-cases,
}
use algorea_backend.Ancestors.Tables.{is_todo, is_listed, has_pair, ObjectTables, AncestorsState}
use algorea_backend.Ancestors.Rounds.{has_todo_parent, objects_to_process, recompute_ancestors}
use algorea_backend.Ancestors.Laws.{IsRecomputation}
use algorea_backend.Ancestors.Marks.{
  is_listed-mark_as_processing, is_todo-mark_as_done, has_todo_parent_lem,
}

-- The relations have no cycle.
pub record IsForest (relations : List (ℕ × ℕ)) (rank : ℕ → ℕ) (height : ℕ) : Type 0 where
  pub above : (p c : ℕ) → has_pair relations p c ≡ true → rank p < rank c
  pub bounded : (c : ℕ) → rank c < height

module _ {A V : Type 0} (object : ObjectTables A) (value : A → ℕ → ℕ → V) (own : A → ℕ → V)
    (local : (ℕ → V) → (ℕ → ℕ → V) → ℕ → ℕ → V) (is_active : ℕ → ℕ → Bool)
    (laws : IsRecomputation object value own local is_active) where
  -- What is out of date lies under the objects `dirty`, which are 'todo'.
  pub record IsInProgress (dirty : ℕ → Bool) (s : AncestorsState A) : Type 0 where
    pub settled :
        (c : ℕ)
        → dirty c ≡ false
        → (a : ℕ) → value s.ancestors c a ≡ local (own s.ancestors) (value s.ancestors) c a
    pub closed : (p c : ℕ) → dirty p ≡ true → is_active p c ≡ true → dirty c ≡ true
    pub marked : (c : ℕ) → dirty c ≡ true → is_todo s.propagate c ≡ true

  abbrev ids : AncestorsState A → List ℕ
  ids s = objects_to_process object s.propagate

  pub ids_lem :
      (s : AncestorsState A) (c : ℕ)
      → is_listed (ids s) c
        ≡ (is_todo s.propagate c && not (has_todo_parent object.relations s.propagate c))
  unfolding objects_to_process
  ids_lem s c = is_listed-mark_as_processing object.relations s.propagate s.propagate c

  pub next_todo :
      (s : AncestorsState A) (c : ℕ)
      → is_todo (recompute_ancestors object s).propagate c
        ≡ (is_todo s.propagate c && not (is_listed (ids s) c))
  unfolding recompute_ancestors
  next_todo s c = is_todo-mark_as_done (ids s) s.propagate c

  -- A parent of an object to process is not to be processed.
  parent_listed :
      (s : AncestorsState A) (p c : ℕ)
      → is_listed (ids s) c ≡ true
      → is_active p c ≡ true
      → is_listed (ids s) p ≡ false
  parent_listed s p c e active = ground (
    arith,
    ids_lem s c,
    ids_lem s p,
    has_todo_parent_lem object.relations s.propagate p c (laws.active_relation p c active),
  )

  next_recomputed :
      (s : AncestorsState A) (c : ℕ)
      → is_listed (ids s) c ≡ true
      → (a : ℕ)
      → value (recompute_ancestors object s).ancestors c a
        ≡ local (own s.ancestors) (value s.ancestors) c a
  unfolding recompute_ancestors
  next_recomputed s c e a =
      laws.recomputed (ids s) s.ancestors c e (λ p active. parent_listed s p c e active) a

  next_kept :
      (s : AncestorsState A) (c : ℕ)
      → is_listed (ids s) c ≡ false
      → (a : ℕ) → value (recompute_ancestors object s).ancestors c a ≡ value s.ancestors c a
  unfolding recompute_ancestors
  next_kept s c e a = laws.kept (ids s) s.ancestors c e a

  pub next_own :
      (s : AncestorsState A) (c : ℕ)
      → own (recompute_ancestors object s).ancestors c ≡ own s.ancestors c
  unfolding recompute_ancestors
  next_own s c = laws.own_kept (ids s) s.ancestors c

  -- Recomputing what is up to date changes nothing.
  clean_kept :
      (dirty : ℕ → Bool) (s : AncestorsState A)
      → IsInProgress dirty s
      → (c : ℕ) → dirty c ≡ false
      → (a : ℕ) → value (recompute_ancestors object s).ancestors c a ≡ value s.ancestors c a
  clean_kept dirty s m c clean a = elim (Bool-cases (is_listed (ids s) c)) [
    | inl e ↦ next_recomputed s c e a ∙ sym (m.settled c clean a)
    | inr e ↦ next_kept s c e a
  ]

  unfoldable pub still_dirty : (ℕ → Bool) → AncestorsState A → ℕ → Bool
  still_dirty dirty s c = dirty c && not (is_listed (ids s) c)

  next_local :
      (s : AncestorsState A) (c : ℕ)
      → ((p : ℕ)
          → is_active p c ≡ true
          → (a : ℕ) → value (recompute_ancestors object s).ancestors p a ≡ value s.ancestors p a)
      → (a : ℕ)
      → local (own s.ancestors) (value s.ancestors) c a
        ≡ local
            (own (recompute_ancestors object s).ancestors)
            (value (recompute_ancestors object s).ancestors)
            c
            a
  next_local s c same a =
      laws.local_same (own s.ancestors) (own (recompute_ancestors object s).ancestors)
        (value s.ancestors) (value (recompute_ancestors object s).ancestors) c (sym (next_own s c))
        (λ p active b. sym (same p active b)) a

  pub next-IsInProgress :
      (dirty : ℕ → Bool) (s : AncestorsState A)
      → IsInProgress dirty s
      → IsInProgress (still_dirty dirty s) (recompute_ancestors object s)
  unfolding still_dirty
  next-IsInProgress dirty s m = record {
    settled = λ c clean a. elim (Bool-cases (dirty c)) [
      | inl stale ↦
          let e : is_listed (ids s) c ≡ true = ground (arith, clean) in
          next_recomputed s c e a
          ∙ next_local s c (λ p active. next_kept s p (parent_listed s p c e active)) a
      | inr fresh ↦
          clean_kept dirty s m c fresh a
          ∙ (m.settled c fresh a
              ∙ next_local s c (λ p active. clean_kept dirty s m p (ground (arith, m.closed p c)))
                  a)
    ];
    closed = λ p c stale active. ground (
      arith,
      m.closed p c,
      m.marked p,
      ids_lem s c,
      has_todo_parent_lem object.relations s.propagate p c (laws.active_relation p c active),
    );
    marked = λ c stale. next_todo s c ∙ ground (arith, m.marked c);
  }
