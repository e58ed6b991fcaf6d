-- ===== src/Access/Examples.antt =====
-- A chapter with one child, which a group may view: tests of the definitions and instances of the
-- theorems.
use algorea_backend.Shared.{
  ℕ, ◌≡◌, inl, inr, refl, true, false, ◌||◌, Option, none, some, [], ◌∷◌, ◌==◌, leb, if◌then◌else◌,
  arith, Bool-cases,
}
use algorea_backend.Access.Tables.{
  Generated, Granted, ContentViewPropagation, UpperViewLevelsPropagation, self, same_pair,
  generated_row, put_generated, Items, State,
}
use algorea_backend.Access.Computation.{
  greatest, least, max_granted, is_owner_granted, view_from_parent, level_from_parent,
  max_from_parents, computed_permissions,
}
use algorea_backend.Access.Rounds.{
  is_self, is_children, without_pair, mark_self, mark_children_of,
  mark_children_of_children_as_self, delete_processed_children, is_ancestor_row, has_self_ancestor,
  processing, is_processed, update_permissions_generated, mark_self_as_children, current_marks,
  to_process, propagation_step, compute_all_access,
}
use algorea_backend.Access.Marks.{is_child}
use algorea_backend.Access.Invariant.{access_of, IsSettled, IsRanked, IsMarked}
use algorea_backend.Access.Loop.{access, compute_all_access-access}
use algorea_backend.Access.Policy.{is_granted_at, access-with_grant}
use algorea_backend.Access.Origin.{IsUnder, IsGranted, access-IsGranted}

-- The group 7 has "solution" and "solution_with_grant" on the item 1.
abbrev pub granted : Granted
granted = record {
  group_id = 7;
  item_id = 1;
  can_view_value = 5;
  can_grant_view_value = 6;
  can_watch_value = 1;
  can_edit_value = 1;
  is_owner_value = false;
}

abbrev pub chapter : Items
chapter = record {
  permissions_granted = granted ∷ [];
  items_items =
      record {
        parent_item_id = 1;
        child_item_id = 2;
        content_view_propagation = ContentViewPropagation.as_info;
        upper_view_levels_propagation = UpperViewLevelsPropagation.as_content_with_descendants;
        grant_view_propagation = true;
        watch_propagation = false;
        edit_propagation = false;
      }
      ∷ [];
  items_ancestors = (1, 2) ∷ [];
}

-- The rights of the group on the chapter are to be computed.
abbrev pub start : State
start = record {
  permissions_generated = [];
  permissions_propagate = record { group_id = 7; item_id = 1; propagate_to = self } ∷ [];
}

abbrev pub rank : ℕ → ℕ
rank i = if i == 2 then 1 else 0

chapter-IsRanked : IsRanked chapter rank 2
unfolding is_ancestor_row is_child
chapter-IsRanked = record {
  above = λ a i e. ground arith;
  covered = λ p i e. ground arith;
  bounded = λ i. ground arith;
}

start-IsSettled :
    (g i : ℕ) → same_pair 7 1 g i ≡ false → IsSettled chapter start.permissions_generated g i
unfolding generated_row computed_permissions max_granted is_owner_granted max_from_parents
    view_from_parent level_from_parent greatest
start-IsSettled g i e = elim (Bool-cases (2 == i)) [
  | inl f ↦ rw (e, f) refl
  | inr f ↦ rw (e, f) refl
]

pub start-IsMarked : IsMarked chapter start
unfolding is_self is_children
start-IsMarked = record {
  stale = λ g i. elim (Bool-cases (same_pair 7 1 g i)) [
    | inl e ↦ inr (inl (rw e refl))
    | inr e ↦ inl (start-IsSettled g i e)
  ];
  has_row = λ g i e. absurd (ground arith);
}

run_access : (fuel : ℕ) → Option State
unfolding compute_all_access propagation_step to_process current_marks mark_self_as_children
    update_permissions_generated is_processed processing has_self_ancestor is_ancestor_row
    delete_processed_children mark_children_of_children_as_self mark_children_of mark_self
    without_pair generated_row put_generated computed_permissions max_granted is_owner_granted
    max_from_parents view_from_parent level_from_parent greatest least
run_access fuel = compute_all_access fuel chapter start

propagated : Generated
unfolding run_access access
propagated = access chapter 2 7 2

-- The child gets "content_with_descendants" and "solution", without the right to grant it.
child_gets :
    propagated
    ≡ record { can_view = 4; can_grant_view = 5; can_watch = 1; can_edit = 1; is_owner = false }
unfolding propagated
child_gets = refl

two_rounds_do_not_end : run_access 2 ≡ none
unfolding run_access
two_rounds_do_not_end = refl

compute_all_access-access_example :
    (done : State) × (compute_all_access 3 chapter start ≡ some done)
    × ((g i : ℕ)
        → (access_of done.permissions_generated g i ≡ access chapter 2 g i)
          × ((is_self done.permissions_propagate g i ≡ false)
              × (is_children done.permissions_propagate g i ≡ false)))
compute_all_access-access_example =
    compute_all_access-access chapter rank 2 chapter-IsRanked start start-IsMarked

access-with_grant_example :
    (leb 6 (access chapter 2 7 2).can_grant_view ≡ (
      is_owner_granted 7 2 chapter.permissions_granted
      || is_granted_at (λ row. row.can_grant_view_value) 6 7 2 chapter.permissions_granted))
    × (leb 4 (access chapter 2 7 2).can_watch ≡ (
        is_owner_granted 7 2 chapter.permissions_granted
        || is_granted_at (λ row. row.can_watch_value) 4 7 2 chapter.permissions_granted))
    × (leb 4 (access chapter 2 7 2).can_edit ≡ (
        is_owner_granted 7 2 chapter.permissions_granted
        || is_granted_at (λ row. row.can_edit_value) 4 7 2 chapter.permissions_granted))
    × ((access chapter 2 7 2).is_owner ≡ is_owner_granted 7 2 chapter.permissions_granted)
access-with_grant_example = access-with_grant chapter 1 7 2

child_reached : leb 4 (access chapter 2 7 2).can_view ≡ true
unfolding access computed_permissions max_granted is_owner_granted max_from_parents view_from_parent
    level_from_parent greatest least
child_reached = refl

access-IsGranted_example : (a : ℕ) × IsUnder chapter.items_items a 2 × IsGranted chapter 4 7 a
access-IsGranted_example = access-IsGranted chapter 4 7 refl 2 2 child_reached
