-- ===== src/Children/Ids.antt =====
-- The validators keep the items of the children (app/api/items/items.go).
use algorea_backend.Shared.{
  ℕ, suc, ◌≡◌, refl, sym, ap, ◌∙◌, Bool, true, false, ◌&&◌, Option, none, some, List, [], ◌∷◌, ◌==◌,
  arith,
}
use algorea_backend.Children.Types.{
  ItemChild, ChildField, Permission, ItemsRelationData, Checked, accepted, forbidden, panics,
}
use algorea_backend.Children.Fields.{
  content_view, upper_view_levels, grant_view, watch, edit, request_help, validate_child, find_item,
  validate_with, validate_children,
}
use algorea_backend.Children.Allowed.{holds, and_then-holds}
use algorea_backend.Children.Update.{children_ids}

trivial : {A : Type 0} (m : Checked A) → holds (λ x. true) m ≡ true
trivial (accepted x) = refl
trivial (forbidden field) = refl
trivial panics = refl

child_id :
    (is_set : ChildField → Bool) (permission : Option Permission) (old : Option ItemsRelationData)
    (child : ItemChild)
    → holds (λ saved. saved.item_id == child.item_id) (validate_with is_set permission old child)
      ≡ true
unfolding validate_with validate_child
child_id is_set none old child = refl
child_id is_set (some permission) old child =
    and_then-holds _ _ (content_view is_set permission old child) _ (trivial _) λ x1 e1.
      and_then-holds _ _ (upper_view_levels is_set permission old child) _ (trivial _) λ x2 e2.
        and_then-holds _ _ (grant_view is_set permission old child) _ (trivial _) λ x3 e3.
          and_then-holds _ _ (watch is_set permission old child) _ (trivial _) λ x4 e4.
            and_then-holds _ _ (edit is_set permission old child) _ (trivial _) λ x5 e5.
              and_then-holds _ _ (request_help is_set permission old child) _ (trivial _)
                λ x6 e6. ground arith

are_same : List ItemChild → List ItemChild → Bool
are_same [] [] = true
are_same [] (saved ∷ rest) = false
are_same (child ∷ children) [] = false
are_same (child ∷ children) (saved ∷ rest) =
    saved.item_id == child.item_id && are_same children rest

validate-are_same :
    (is_set : ℕ → ChildField → Bool) (permissions : List (ℕ × Permission))
    (old : List (ℕ × ItemsRelationData)) (index : ℕ) (children : List ItemChild)
    → holds (are_same children) (validate_children is_set permissions old index children) ≡ true
unfolding validate_children are_same
validate-are_same is_set permissions old index [] = refl
validate-are_same is_set permissions old index (child ∷ children) =
    and_then-holds _ _
      (validate_with (is_set index) (find_item child.item_id permissions)
        (find_item child.item_id old) child)
      _
      (child_id (is_set index) (find_item child.item_id permissions) (find_item child.item_id old)
        child)
      λ first e1.
        and_then-holds _ _ (validate_children is_set permissions old (suc index) children) _
          (validate-are_same is_set permissions old (suc index) children)
          λ others e2. rw (e1, e2) refl

same-children_ids :
    (children saved : List ItemChild)
    → are_same children saved ≡ true
    → children_ids saved ≡ children_ids children
unfolding are_same children_ids
same-children_ids [] [] e = refl
same-children_ids [] (saved ∷ rest) e = absurd (ground arith)
same-children_ids (child ∷ children) [] e = absurd (ground arith)
same-children_ids (child ∷ children) (saved ∷ rest) e =
    let same : saved.item_id ≡ child.item_id = ground arith in
    rw (same, same-children_ids children rest (ground arith)) refl

pub children_ids-validate :
    (is_set : ℕ → ChildField → Bool) (permissions : List (ℕ × Permission))
    (old : List (ℕ × ItemsRelationData)) (children saved : List ItemChild)
    → validate_children is_set permissions old 0 children ≡ accepted saved
    → children_ids saved ≡ children_ids children
children_ids-validate is_set permissions old children saved e =
    same-children_ids children saved
      (sym (ap (holds (are_same children)) e) ∙ validate-are_same is_set permissions old 0 children)
