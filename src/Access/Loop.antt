-- ===== src/Access/Loop.antt =====
-- `computeAllAccess` ends, and leaves the permissions that the definition by recursion on the parents
-- gives (app/database/permission_granted_store_compute_all_access.go).
use algorea_backend.Shared.{
  ℕ, zero, suc, ◌+◌, ◌≡◌, ◌≤◌, ◌<◌, inl, inr, refl, ap, ◌∙◌, true, false, some, List, [], ◌∷◌,
  arith, Bool-cases,
}
use algorea_backend.Access.Tables.{
  Generated, Propagate, GeneratedTable, generated_row, Items, State,
}
use algorea_backend.Access.Computation.{computed_permissions}
use algorea_backend.Access.Rounds.{
  is_self, is_children, has_self_ancestor, is_processed, current_marks, to_process,
  propagation_step, is_nil, compute_all_access,
}
use algorea_backend.Access.Marks.{self_ancestor}
use algorea_backend.Access.Rows.{computed_same, no_access, computed_no_access}
use algorea_backend.Access.Invariant.{
  access_of, IsSettled, IsRanked, IsMarked, IsBelow, to_process-is_processed, next-is_self,
  next-is_children,
}
use algorea_backend.Access.Steps.{current_rank, next-IsMarked, next-IsBelow}

-- The permissions by recursion on the parents, for the items under the given rank.
unfoldable pub access : Items → ℕ → ℕ → ℕ → Generated
access items zero g i = no_access
access items (suc n) g i = computed_permissions items (λ p. some (access items n g p)) g i

abbrev pub HasNoMarks : List Propagate → Type 0
HasNoMarks rows = (g i : ℕ) → (is_self rows g i ≡ false) × (is_children rows g i ≡ false)

is_nil_lem :
    (pairs : List (ℕ × ℕ)) → ((g i : ℕ) → is_processed pairs g i ≡ false) → is_nil pairs ≡ true
unfolding is_processed
is_nil_lem [] out = refl
is_nil_lem ((g, i) ∷ pairs) out = ground (arith, out g i)

nil_processed :
    (pairs : List (ℕ × ℕ)) (g i : ℕ) → is_nil pairs ≡ true → is_processed pairs g i ≡ false
unfolding is_processed
nil_processed [] g i e = refl
nil_processed (p ∷ pairs) g i e = ground arith

module _ (items : Items) (rank : ℕ → ℕ) (height : ℕ) (ranked : IsRanked items rank height) where
  -- Where nothing is processed, nothing is marked: a mark of least rank would be processed.
  no_self :
      (s : State) (n : ℕ) (g i : ℕ)
      → is_nil (to_process items s) ≡ true
      → rank i < n
      → is_self (current_marks items s) g i ≡ false
  no_self s zero g i stop low = absurd (omega arith)
  no_self s (suc n) g i stop low =
      elim (Bool-cases (has_self_ancestor items (current_marks items s) g i)) [
        | inr free ↦ ground (
          arith,
          to_process-is_processed items s g i,
          nil_processed (to_process items s) g i stop,
        )
        | inl blocked ↦
            let (a, mark, above) = self_ancestor items (current_marks items s) g i blocked in
            ground (arith, no_self s n g a stop (omega (arith, ranked.above a i above)))
      ]

  stop-IsSettled :
      (s : State)
      → IsMarked items s
      → is_nil (to_process items s) ≡ true
      → (g i : ℕ) → IsSettled items (propagation_step items s).permissions_generated g i
  stop-IsSettled s m stop g i = elim ((next-IsMarked items rank height ranked s m).stale g i) [
    | inl settled ↦ settled
    | inr (inl mark) ↦
        absurd
          (ground (arith, next-is_self items s g i, no_self s height g i stop (ranked.bounded i)))
    | inr (inr (p, mark, child)) ↦ absurd (
        ground (
          arith,
          mark,
          next-is_children items s g p,
          next-is_self items s g p,
          no_self s height g p stop (ranked.bounded p),
          nil_processed (to_process items s) g p stop,
        ))
  ]

  stop_marks :
      (s : State)
      → is_nil (to_process items s) ≡ true
      → HasNoMarks (propagation_step items s).permissions_propagate
  stop_marks s stop g i = (
    next-is_self items s g i ∙ rw (no_self s height g i stop (ranked.bounded i)) refl,
    next-is_children items s g i ∙ nil_processed (to_process items s) g i stop,
  )

  pub high_stop :
      (s : State) (k : ℕ)
      → IsBelow rank k s.permissions_propagate
      → height ≤ k
      → is_nil (to_process items s) ≡ true
  high_stop s k below high = is_nil_lem (to_process items s) λ g i.
      elim (Bool-cases (is_self (current_marks items s) g i)) [
        | inl mark ↦ absurd (
            omega
              (arith, current_rank items rank height ranked s k below g i mark, ranked.bounded i))
        | inr clean ↦ to_process-is_processed items s g i ∙ rw clean refl
      ]

  -- The result of the loop.
  abbrev pub Propagates : ℕ → State → Type 0
  Propagates fuel s =
      (done : State) × (compute_all_access fuel items s ≡ some done)
      × ((g i : ℕ) → IsSettled items done.permissions_generated g i)
      × HasNoMarks done.permissions_propagate

  loop-Propagates :
      (n k : ℕ) (s : State)
      → height ≤ k + n
      → IsMarked items s
      → IsBelow rank k s.permissions_propagate
      → Propagates (suc n) s
  unfolding compute_all_access
  loop-Propagates zero k s bound m below =
      let stop = high_stop s k below (omega arith) in
      (
        propagation_step items s,
        rw (stop, compute_all_access) refl,
        stop-IsSettled s m stop,
        stop_marks s stop,
      )
  loop-Propagates (suc n) k s bound m below = elim (Bool-cases (is_nil (to_process items s))) [
    | inl stop ↦ (
      propagation_step items s,
      rw (stop, compute_all_access) refl,
      stop-IsSettled s m stop,
      stop_marks s stop,
    )
    | inr go ↦
        let (done, runs, settled, clean) =
          loop-Propagates n (suc k) (propagation_step items s) (omega arith)
            (next-IsMarked items rank height ranked s m)
            (next-IsBelow items rank height ranked s k below) in
        (done, rw (go, compute_all_access) runs, settled, clean)
  ]

  settled-access :
      (table : GeneratedTable)
      → ((g i : ℕ) → IsSettled items table g i)
      → (n g i : ℕ) → rank i < n
      → access_of table g i ≡ access items n g i
  unfolding access
  settled-access table settled zero g i low = absurd (omega arith)
  settled-access table settled (suc n) g i low =
      settled g i
      ∙ (computed_no_access items (λ p. generated_row g p table) g i
          ∙ computed_same items (λ p. some (access_of table g p)) (λ p. some (access items n g p)) i
              (λ p child. ap some (
                settled-access table settled n g p
                  (omega (arith, ranked.above p i (ranked.covered p i child)))))
              g)

  -- The propagation of permissions ends: where the items have no cycle and what is out of date is
  -- marked, as many rounds as the height of the items, and one more, are enough. It leaves no mark,
  -- and for every group and item the permissions that the definition by recursion on the parents
  -- gives, whatever permissions_generated held before. `IsRanked` says that items_ancestors has the
  -- parents, and that an ancestor has a smaller rank.
  pub compute_all_access-access :
      (s : State)
      → IsMarked items s
      → (done : State) × (compute_all_access (suc height) items s ≡ some done)
        × ((g i : ℕ)
            → (access_of done.permissions_generated g i ≡ access items height g i)
              × ((is_self done.permissions_propagate g i ≡ false)
                  × (is_children done.permissions_propagate g i ≡ false)))
  compute_all_access-access s m =
      let (done, runs, settled, clean) =
        loop-Propagates height 0 s (omega arith) m (record {
          self_rank = λ g i mark. omega arith;
          children_rank = λ g i mark. omega arith;
        }) in
      (
        done,
        runs,
        λ g i. (
          settled-access done.permissions_generated settled height g i (ranked.bounded i),
          clean g i,
        ),
      )
