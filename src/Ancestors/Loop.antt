-- ===== src/Ancestors/Loop.antt =====
-- The loop of `createNewAncestors` ends, and leaves the ancestors that the recursion on the parents
-- gives (app/database/ancestors.go).
use algorea_backend.Shared.{
  ℕ, zero, suc, ◌+◌, ◌≡◌, ◌≤◌, ◌<◌, inl, inr, refl, ◌∙◌, Bool, true, false, some, arith, Bool-cases,
}
use algorea_backend.Ancestors.Tables.{PropagateTable, is_todo, ObjectTables, AncestorsState}
use algorea_backend.Ancestors.Rounds.{
  has_todo_parent, is_empty, objects_to_process, recompute_ancestors, recompute_until_done,
}
use algorea_backend.Ancestors.Laws.{IsRecomputation}
use algorea_backend.Ancestors.Marks.{todo_parent, empty_listed, is_empty_lem}
use algorea_backend.Ancestors.Invariant.{
  IsForest, IsInProgress, ids_lem, next_todo, next_own, still_dirty, next-IsInProgress,
}

-- The values that depend on the parents', and so on, `nothing` above the given rank.
unfoldable pub closure :
    {V : Type 0} → ((ℕ → V) → (ℕ → ℕ → V) → ℕ → ℕ → V) → V → (ℕ → V) → ℕ → ℕ → ℕ → V
closure local nothing o zero c a = nothing
closure local nothing o (suc n) c a = local o (closure local nothing o n) c a

module _ {A V : Type 0} (object : ObjectTables A) (value : A → ℕ → ℕ → V) (own : A → ℕ → V)
    (local : (ℕ → V) → (ℕ → ℕ → V) → ℕ → ℕ → V) (is_active : ℕ → ℕ → Bool)
    (laws : IsRecomputation object value own local is_active) (rank : ℕ → ℕ) (height : ℕ)
    (forest : IsForest object.relations rank height) where
  abbrev InProgress : (ℕ → Bool) → AncestorsState A → Type 0
  InProgress dirty s = IsInProgress object value own local is_active laws dirty s

  abbrev next : AncestorsState A → AncestorsState A
  next s = recompute_ancestors object s

  abbrev stops : AncestorsState A → Bool
  stops s = is_empty (objects_to_process object s.propagate)

  abbrev IsBelow : ℕ → PropagateTable → Type 0
  IsBelow k rows = (c : ℕ) → is_todo rows c ≡ true → k ≤ rank c

  next-IsBelow :
      (s : AncestorsState A) (k : ℕ) → IsBelow k s.propagate → IsBelow (suc k) (next s).propagate
  next-IsBelow s k below c mark =
      let kept = next_todo object value own local is_active laws s c in
      let listed = ids_lem object value own local is_active laws s c in
      let waits : has_todo_parent object.relations s.propagate c ≡ true =
        ground (arith, kept, listed) in
      let (p, todo_p, edge) = todo_parent object.relations s.propagate c waits in
      omega (arith, below p todo_p, forest.above p c edge)

  -- Where nothing is processed, nothing is 'todo'.
  stops_todo :
      (s : AncestorsState A) (n c : ℕ) → stops s ≡ true → rank c < n → is_todo s.propagate c ≡ false
  stops_todo s zero c stop low = absurd (omega arith)
  stops_todo s (suc n) c stop low =
      let listed = ids_lem object value own local is_active laws s c in
      let unlisted = empty_listed (objects_to_process object s.propagate) c stop in
      elim (Bool-cases (has_todo_parent object.relations s.propagate c)) [
        | inr free ↦ ground (arith, listed, unlisted)
        | inl waits ↦
            let (p, todo_p, edge) = todo_parent object.relations s.propagate c waits in
            ground (arith, stops_todo s n p stop (omega (arith, forest.above p c edge)))
      ]

  high-stops : (s : AncestorsState A) (k : ℕ) → IsBelow k s.propagate → height ≤ k → stops s ≡ true
  high-stops s k below high = is_empty_lem (objects_to_process object s.propagate) λ c.
      elim (Bool-cases (is_todo s.propagate c)) [
        | inl mark ↦ absurd (omega (arith, below c mark, forest.bounded c))
        | inr done ↦ ids_lem object value own local is_active laws s c ∙ rw done refl
      ]

  abbrev IsUpToDate : AncestorsState A → Type 0
  IsUpToDate s =
      (c : ℕ)
      → (is_todo s.propagate c ≡ false)
        × ((a : ℕ) → value s.ancestors c a ≡ local (own s.ancestors) (value s.ancestors) c a)

  stops-IsUpToDate :
      (dirty : ℕ → Bool) (s : AncestorsState A)
      → InProgress dirty s
      → stops s ≡ true
      → IsUpToDate (next s)
  unfolding still_dirty
  stops-IsUpToDate dirty s m stop c =
      let clean = stops_todo s height c stop (forest.bounded c) in
      (
        next_todo object value own local is_active laws s c ∙ rw clean refl,
        (next-IsInProgress object value own local is_active laws dirty s m).settled c
            (ground (arith, m.marked c, clean)),
      )

  loop-IsUpToDate :
      (n k : ℕ) (dirty : ℕ → Bool) (s : AncestorsState A)
      → height ≤ k + n
      → InProgress dirty s
      → IsBelow k s.propagate
      → (done : AncestorsState A) × (recompute_until_done object (suc n) s ≡ some done)
        × IsUpToDate done
        × ((c : ℕ) → own done.ancestors c ≡ own s.ancestors c)
  unfolding recompute_until_done
  loop-IsUpToDate zero k dirty s bound m below =
      let stop = high-stops s k below (omega arith) in
      (
        next s,
        rw (stop, recompute_until_done) refl,
        stops-IsUpToDate dirty s m stop,
        next_own object value own local is_active laws s,
      )
  loop-IsUpToDate (suc n) k dirty s bound m below = elim (Bool-cases (stops s)) [
    | inl stop ↦ (
      next s,
      rw (stop, recompute_until_done) refl,
      stops-IsUpToDate dirty s m stop,
      next_own object value own local is_active laws s,
    )
    | inr go ↦
        let (done, runs, fresh, same) =
          loop-IsUpToDate n (suc k) (still_dirty object value own local is_active laws dirty s)
            (next s) (omega arith)
            (next-IsInProgress object value own local is_active laws dirty s m)
            (next-IsBelow s k below) in
        (
          done,
          rw (go, recompute_until_done) runs,
          fresh,
          λ c. same c ∙ next_own object value own local is_active laws s c,
        )
  ]

  value-closure :
      (nothing : V) (o : ℕ → V) (s : AncestorsState A)
      → IsUpToDate s
      → ((c : ℕ) → own s.ancestors c ≡ o c)
      → (n c : ℕ) → rank c < n
      → (a : ℕ) → value s.ancestors c a ≡ closure local nothing o n c a
  unfolding closure
  value-closure nothing o s fresh same zero c low a = absurd (omega arith)
  value-closure nothing o s fresh same (suc n) c low a =
      let (done, settled) = fresh c in
      settled a
      ∙ laws.local_same (own s.ancestors) o (value s.ancestors) (closure local nothing o n) c
          (same c)
          (λ p active.
            value-closure nothing o s fresh same n p
              (omega (arith, forest.above p c (laws.active_relation p c active))))
          a

  -- The loop ends with no object to do, and the values are those of the recursion on the parents.
  pub recompute_until_done-closure :
      (nothing : V) (dirty : ℕ → Bool) (s : AncestorsState A)
      → InProgress dirty s
      → (done : AncestorsState A) × (recompute_until_done object (suc height) s ≡ some done)
        × ((c : ℕ)
            → (is_todo done.propagate c ≡ false)
              × ((a : ℕ)
                  → value done.ancestors c a ≡ closure local nothing (own s.ancestors) height c a))
  recompute_until_done-closure nothing dirty s m =
      let (done, runs, fresh, same) =
        loop-IsUpToDate height 0 dirty s (omega arith) m (λ c mark. omega arith) in
      (
        done,
        runs,
        λ c.
            let (finished, settled) = fresh c in
            (
              finished,
              value-closure nothing (own s.ancestors) done fresh same height c (forest.bounded c),
            ),
      )
