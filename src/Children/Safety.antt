-- ===== src/Children/Safety.antt =====
-- What the validators of the children accept is allowed (app/api/items/items.go).
use algorea_backend.Shared.{
  ℕ, suc, ◌≡◌, inl, inr, refl, sym, ap, ◌∙◌, Bool, true, ◌&&◌, Option, none, some, List, [], ◌∷◌,
  ◌==◌, leb, arith, Bool-cases,
}
use algorea_backend.Children.Types.{ItemChild, ChildField, Permission, ItemsRelationData, accepted}
use algorea_backend.Children.Validators.{old_value}
use algorea_backend.Children.Fields.{
  content_view, upper_view_levels, grant_view, watch, edit, request_help, validate_child, find_item,
  validate_with, validate_children,
}
use algorea_backend.Children.Policy.{is_child_allowed, is_allowed_with, are_allowed, are_levels}
use algorea_backend.Children.Allowed.{
  holds, and_then-holds, content_view-holds, upper_view_levels-holds, flag-holds,
}

child-holds :
    (is_set : ChildField → Bool) (permission : Permission) (old : Option ItemsRelationData)
    (child : ItemChild)
    → leb 1 permission.can_grant_view_generated_value ≡ true
    → holds
        (λ saved. saved.item_id == child.item_id && is_child_allowed permission old saved)
        (validate_child is_set permission old child)
      ≡ true
unfolding validate_child content_view upper_view_levels grant_view watch edit request_help
    is_child_allowed
child-holds is_set permission old child one =
    and_then-holds _ _ (content_view is_set permission old child) _
      (content_view-holds (is_set ChildField.content_view_field) child.content_view_propagation
        (old_value (λ o. o.content_view_propagation_value) old)
        permission.can_grant_view_generated_value one)
      λ content e1.
        and_then-holds _ _ (upper_view_levels is_set permission old child) _
          (upper_view_levels-holds (is_set ChildField.upper_view_levels_field)
            child.upper_view_levels_propagation
            (old_value (λ o. o.upper_view_levels_propagation_value) old)
            permission.can_grant_view_generated_value)
          λ upper e2.
            and_then-holds _ _ (grant_view is_set permission old child) _
              (flag-holds ChildField.grant_view_field (is_set ChildField.grant_view_field)
                child.grant_view_propagation (old_value (λ o. o.grant_view_propagation) old)
                permission.can_grant_view_generated_value 6)
              λ grant e3.
                and_then-holds _ _ (watch is_set permission old child) _
                  (flag-holds ChildField.watch_field (is_set ChildField.watch_field)
                    child.watch_propagation (old_value (λ o. o.watch_propagation) old)
                    permission.can_watch_generated_value 4)
                  λ watches e4.
                    and_then-holds _ _ (edit is_set permission old child) _
                      (flag-holds ChildField.edit_field (is_set ChildField.edit_field)
                        child.edit_propagation (old_value (λ o. o.edit_propagation) old)
                        permission.can_edit_generated_value 4)
                      λ edits e5.
                        and_then-holds _ _ (request_help is_set permission old child) _
                          (flag-holds ChildField.request_help_field
                            (is_set ChildField.request_help_field) child.request_help_propagation
                            (old_value (λ o. o.request_help_propagation) old)
                            permission.can_grant_view_generated_value 3)
                          λ help e6. rw (e1, e2, e3, e4, e5, e6) (ground arith)

abbrev pub IsLevel : Option Permission → Type 0
IsLevel permission =
    (p : Permission) → permission ≡ some p → leb 1 p.can_grant_view_generated_value ≡ true

pub find_item-IsLevel :
    (permissions : List (ℕ × Permission)) (i : ℕ)
    → are_levels permissions ≡ true
    → IsLevel (find_item i permissions)
unfolding find_item are_levels
find_item-IsLevel [] i levels p e = absurd (ground arith)
find_item-IsLevel ((j, q) ∷ permissions) i levels p e = elim (Bool-cases (j == i)) [
  | inl same ↦ ground (arith, levels, rw same at e)
  | inr other ↦ find_item-IsLevel permissions i (ground arith) p (rw other at e)
]

with-holds :
    (is_set : ChildField → Bool) (permission : Option Permission) (old : Option ItemsRelationData)
    (child : ItemChild)
    → IsLevel permission
    → holds
        (λ saved. saved.item_id == child.item_id && is_allowed_with permission old saved)
        (validate_with is_set permission old child)
      ≡ true
unfolding validate_with
with-holds is_set none old child level = refl
with-holds is_set (some permission) old child level =
    child-holds is_set permission old child (level permission refl)

children-holds :
    (is_set : ℕ → ChildField → Bool) (permissions : List (ℕ × Permission))
    (old : List (ℕ × ItemsRelationData)) (index : ℕ) (children : List ItemChild)
    → are_levels permissions ≡ true
    → holds
        (are_allowed permissions old children)
        (validate_children is_set permissions old index children)
      ≡ true
unfolding validate_children are_allowed
children-holds is_set permissions old index [] levels = refl
children-holds is_set permissions old index (child ∷ children) levels =
    and_then-holds _ _
      (validate_with (is_set index) (find_item child.item_id permissions)
        (find_item child.item_id old) child)
      _
      (with-holds (is_set index) (find_item child.item_id permissions) (find_item child.item_id old)
        child (find_item-IsLevel permissions child.item_id levels))
      λ first e1.
        and_then-holds _ _ (validate_children is_set permissions old (suc index) children) _
          (children-holds is_set permissions old (suc index) children levels)
          λ others e2. rw (e1, e2) refl

-- The relations that are saved for the children of a request, in their order, propagate nothing but
-- what the permissions of the user on the child allow, or what the relation had already: the levels
-- of view, the rights to grant, to watch and to edit, and the requests for help. The levels of
-- can_grant_view are 1 at least.
pub validate_children-is_allowed :
    (is_set : ℕ → ChildField → Bool) (permissions : List (ℕ × Permission))
    (old : List (ℕ × ItemsRelationData)) (children saved : List ItemChild)
    → are_levels permissions ≡ true
    → validate_children is_set permissions old 0 children ≡ accepted saved
    → are_allowed permissions old children saved ≡ true
validate_children-is_allowed is_set permissions old children saved levels e =
    sym (ap (holds (are_allowed permissions old children)) e)
    ∙ children-holds is_set permissions old 0 children levels
