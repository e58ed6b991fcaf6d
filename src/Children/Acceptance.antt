-- ===== src/Children/Acceptance.antt =====
-- A request that sets only what is allowed is accepted (app/api/items/items.go).
use algorea_backend.Shared.{
  ℕ, suc, ◌≡◌, refl, Bool, true, Option, none, some, List, [], ◌∷◌, leb, arith,
}
use algorea_backend.Children.Types.{ItemChild, ChildField, Permission, ItemsRelationData, accepted}
use algorea_backend.Children.Validators.{old_value}
use algorea_backend.Children.Fields.{
  content_view, upper_view_levels, grant_view, watch, edit, request_help, validate_child, find_item,
  validate_with, validate_children,
}
use algorea_backend.Children.Policy.{
  is_request_allowed, are_allowed, is_old_relation, is_requested_with, are_requested, are_levels,
}
use algorea_backend.Children.Safety.{IsLevel, find_item-IsLevel, validate_children-is_allowed}
use algorea_backend.Children.Requested.{
  IsAccepted, and_then-IsAccepted, is_old_value, content_view-IsAccepted,
  upper_view_levels-IsAccepted, flag-IsAccepted,
}

old_levels :
    (old : Option ItemsRelationData)
    → is_old_relation old ≡ true
    → (is_old_value (old_value (λ o. o.content_view_propagation_value) old) ≡ true)
      × (is_old_value (old_value (λ o. o.upper_view_levels_propagation_value) old) ≡ true)
unfolding is_old_value
old_levels none range = (refl, refl)
old_levels (some old) range = (ground arith, ground arith)

child-IsAccepted :
    (is_set : ChildField → Bool) (permission : Permission) (old : Option ItemsRelationData)
    (child : ItemChild)
    → leb 1 permission.can_grant_view_generated_value ≡ true
    → is_request_allowed permission old child is_set ≡ true
    → is_old_relation old ≡ true
    → IsAccepted (validate_child is_set permission old child)
unfolding validate_child content_view upper_view_levels grant_view watch edit request_help
    is_request_allowed
child-IsAccepted is_set permission old child one allowed range =
    let (first, second) = old_levels old range in
    and_then-IsAccepted (content_view is_set permission old child) _
      (content_view-IsAccepted (is_set ChildField.content_view_field) child.content_view_propagation
        (old_value (λ o. o.content_view_propagation_value) old)
        permission.can_grant_view_generated_value one (ground arith) first)
      λ content.
        and_then-IsAccepted (upper_view_levels is_set permission old child) _
          (upper_view_levels-IsAccepted (is_set ChildField.upper_view_levels_field)
            child.upper_view_levels_propagation
            (old_value (λ o. o.upper_view_levels_propagation_value) old)
            permission.can_grant_view_generated_value (ground arith) second)
          λ upper.
            and_then-IsAccepted (grant_view is_set permission old child) _
              (flag-IsAccepted ChildField.grant_view_field (is_set ChildField.grant_view_field)
                child.grant_view_propagation (old_value (λ o. o.grant_view_propagation) old)
                permission.can_grant_view_generated_value 6 (ground arith))
              λ grant.
                and_then-IsAccepted (watch is_set permission old child) _
                  (flag-IsAccepted ChildField.watch_field (is_set ChildField.watch_field)
                    child.watch_propagation (old_value (λ o. o.watch_propagation) old)
                    permission.can_watch_generated_value 4 (ground arith))
                  λ watches.
                    and_then-IsAccepted (edit is_set permission old child) _
                      (flag-IsAccepted ChildField.edit_field (is_set ChildField.edit_field)
                        child.edit_propagation (old_value (λ o. o.edit_propagation) old)
                        permission.can_edit_generated_value 4 (ground arith))
                      λ edits.
                        and_then-IsAccepted (request_help is_set permission old child) _
                          (flag-IsAccepted ChildField.request_help_field
                            (is_set ChildField.request_help_field) child.request_help_propagation
                            (old_value (λ o. o.request_help_propagation) old)
                            permission.can_grant_view_generated_value 3 (ground arith))
                          λ help. (_, refl)

with-IsAccepted :
    (is_set : ChildField → Bool) (permission : Option Permission) (old : Option ItemsRelationData)
    (child : ItemChild)
    → IsLevel permission
    → is_requested_with is_set permission old child ≡ true
    → IsAccepted (validate_with is_set permission old child)
unfolding validate_with
with-IsAccepted is_set none old child level e = absurd (ground arith)
with-IsAccepted is_set (some permission) old child level e =
    child-IsAccepted is_set permission old child (level permission refl) (ground arith)
      (ground arith)

children-IsAccepted :
    (is_set : ℕ → ChildField → Bool) (permissions : List (ℕ × Permission))
    (old : List (ℕ × ItemsRelationData)) (index : ℕ) (children : List ItemChild)
    → are_levels permissions ≡ true
    → are_requested is_set permissions old index children ≡ true
    → IsAccepted (validate_children is_set permissions old index children)
unfolding validate_children are_requested
children-IsAccepted is_set permissions old index [] levels e = ([], refl)
children-IsAccepted is_set permissions old index (child ∷ children) levels e =
    and_then-IsAccepted
      (validate_with (is_set index) (find_item child.item_id permissions)
        (find_item child.item_id old) child)
      _
      (with-IsAccepted (is_set index) (find_item child.item_id permissions)
        (find_item child.item_id old) child (find_item-IsLevel permissions child.item_id levels)
        (ground arith))
      λ first.
        and_then-IsAccepted (validate_children is_set permissions old (suc index) children) _
          (children-IsAccepted is_set permissions old (suc index) children levels (ground arith))
          λ others. (first ∷ others, refl)

-- A request whose children set only what the permissions of the user allow, or what the relation has
-- already, is accepted, and no lookup of an enum panics: a field that is not set never makes it
-- fail. The permissions of every child are known, the levels of can_grant_view are 1 at least, and
-- the levels of the old relations are values of their enums.
pub validate_children-accepts :
    (is_set : ℕ → ChildField → Bool) (permissions : List (ℕ × Permission))
    (old : List (ℕ × ItemsRelationData)) (children : List ItemChild)
    → are_levels permissions ≡ true
    → are_requested is_set permissions old 0 children ≡ true
    → (saved : List ItemChild) × (validate_children is_set permissions old 0 children
        ≡ accepted saved)
      × (are_allowed permissions old children saved ≡ true)
validate_children-accepts is_set permissions old children levels e =
    let (saved, h) = children-IsAccepted is_set permissions old 0 children levels e in
    (saved, h, validate_children-is_allowed is_set permissions old children saved levels h)
