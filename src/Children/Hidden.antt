-- ===== src/Children/Hidden.antt =====
-- What a request can do with items that the user does not see
-- (app/api/items/create_item.go, app/api/items/items.go).
use algorea_backend.Shared.{
  ℕ, ◌≡◌, inl, inr, refl, sym, ap, subst, get_or, ◌∙◌, Bool, true, false, ◌&&◌, ◌||◌, not, Option,
  none, some, is_some, List, [], ◌∷◌, ◌==◌, leb, arith, Bool-cases,
}
use algorea_backend.Ancestors.Tables.{is_listed}
use algorea_backend.Children.Types.{ItemChild, Permission, ItemsRelationData}
use algorea_backend.Children.Validators.{
  content_view_propagation_index_by_name, upper_view_levels_propagation_index_by_name,
}
use algorea_backend.Children.Fields.{find_item}
use algorea_backend.Children.Policy.{is_child_allowed, is_allowed_with, are_allowed, are_levels}
use algorea_backend.Children.Update.{children_ids}
use algorea_backend.Children.Listing.{ChildInfo, info_of, add_info, children_infos, permissions_of}

-- The relation propagates no more than the old one, and nothing where there was none.
unfoldable pub is_kept : Option ItemsRelationData → ItemChild → Bool
is_kept none saved = false
is_kept (some old) saved =
    ((leb (content_view_propagation_index_by_name saved.content_view_propagation)
          old.content_view_propagation_value
        || leb (content_view_propagation_index_by_name saved.content_view_propagation) 1)
      && (leb (upper_view_levels_propagation_index_by_name saved.upper_view_levels_propagation)
            old.upper_view_levels_propagation_value
          || leb (upper_view_levels_propagation_index_by_name saved.upper_view_levels_propagation)
              1))
    && ((not saved.grant_view_propagation || old.grant_view_propagation)
        && ((not saved.watch_propagation || old.watch_propagation)
            && ((not saved.edit_propagation || old.edit_propagation)
                && (not saved.request_help_propagation || old.request_help_propagation))))

-- Each saved child is visible to the user, or is kept.
unfoldable pub are_hidden_kept :
    List (ℕ × ChildInfo) → List (ℕ × ItemsRelationData) → List ItemChild → Bool
are_hidden_kept visible old [] = true
are_hidden_kept visible old (saved ∷ rest) =
    (is_some (find_item saved.item_id visible) || is_kept (find_item saved.item_id old) saved)
    && are_hidden_kept visible old rest

unfoldable pub are_info_levels : List (ℕ × ChildInfo) → Bool
are_info_levels [] = true
are_info_levels ((i, info) ∷ infos) =
    leb 1 info.permission.can_grant_view_generated_value && are_info_levels infos

abbrev permission_of : Option ChildInfo → Option Permission
permission_of (some info) = some info.permission
permission_of none = none

abbrev infos_or_none : Option (List (ℕ × ChildInfo)) → List (ℕ × ChildInfo)
infos_or_none (some infos) = infos
infos_or_none none = []

added :
    (j : ℕ) (o : Option ChildInfo) (rest : Option (List (ℕ × ChildInfo)))
    (infos : List (ℕ × ChildInfo))
    → add_info j o rest ≡ some infos
    → (info : ChildInfo) × (tail : List (ℕ × ChildInfo)) × (o ≡ some info)
      × (rest ≡ some tail)
      × (infos ≡ ((j, info) ∷ tail))
added j (some info) (some tail) infos e = (info, tail, refl, refl, sym (ap infos_or_none e))
added j (some info) none infos e = absurd (ground (arith, ap is_some e))
added j none rest infos e = absurd (ground (arith, ap is_some e))

-- A listed child has the permissions of the user, or is hidden and was a child before.
pub listed_info :
    (visible : List (ℕ × ChildInfo)) (old : List (ℕ × ItemsRelationData)) (ids : List ℕ)
    (infos : List (ℕ × ChildInfo))
    → children_infos visible old ids ≡ some infos
    → (i : ℕ) → is_listed ids i ≡ true
    → find_item i (permissions_of infos)
      ≡ permission_of (info_of (find_item i visible) (find_item i old))
unfolding children_infos is_listed permissions_of find_item
listed_info visible old [] infos e i listed = absurd (ground arith)
listed_info visible old (j ∷ ids) infos e i listed =
    let (info, tail, here, rest, shape) =
      added j (info_of (find_item j visible) (find_item j old)) (children_infos visible old ids)
        infos e in
    elim (Bool-cases (j == i)) [
      | inl same ↦
          let path : j ≡ i = ground (arith, same) in
          ap (λ entries. find_item i (permissions_of entries)) shape
          ∙ (rw same refl
              ∙ (sym (ap permission_of here)
                  ∙ ap (λ k. permission_of (info_of (find_item k visible) (find_item k old))) path))
      | inr other ↦
          ap (λ entries. find_item i (permissions_of entries)) shape
          ∙ (rw other refl
              ∙ listed_info visible old ids tail rest i (ground (arith, listed, other)))
    ]

found-levels :
    (visible : List (ℕ × ChildInfo)) (i : ℕ) (info : ChildInfo)
    → are_info_levels visible ≡ true
    → find_item i visible ≡ some info
    → leb 1 info.permission.can_grant_view_generated_value ≡ true
unfolding are_info_levels find_item
found-levels [] i info levels e = absurd (ground (arith, ap is_some e))
found-levels ((j, first) ∷ visible) i info levels e = elim (Bool-cases (j == i)) [
  | inl same ↦
      let path : some first ≡ some info = rw same at e in
      subst (λ p. leb 1 p.permission.can_grant_view_generated_value ≡ true)
        (ap (λ o. get_or o first) path) (ground (arith, levels))
  | inr other ↦ found-levels visible i info (ground (arith, levels)) (rw other at e)
]

info_level :
    (o : Option ChildInfo) (old : Option ItemsRelationData) (info : ChildInfo)
    → ((seen : ChildInfo)
        → o ≡ some seen
        → leb 1 seen.permission.can_grant_view_generated_value ≡ true)
    → info_of o old ≡ some info
    → leb 1 info.permission.can_grant_view_generated_value ≡ true
unfolding info_of
info_level (some seen) old info level e = level info e
info_level none (some relation) info level e =
    subst (λ p. leb 1 p.permission.can_grant_view_generated_value ≡ true)
      (ap (λ o. get_or o info) e) refl
info_level none none info level e = absurd (ground (arith, ap is_some e))

pub infos-levels :
    (visible : List (ℕ × ChildInfo)) (old : List (ℕ × ItemsRelationData)) (ids : List ℕ)
    (infos : List (ℕ × ChildInfo))
    → are_info_levels visible ≡ true
    → children_infos visible old ids ≡ some infos
    → are_levels (permissions_of infos) ≡ true
unfolding children_infos permissions_of are_levels
infos-levels visible old [] infos levels e =
    ap (λ entries. are_levels (permissions_of entries)) (sym (ap infos_or_none e))
infos-levels visible old (j ∷ ids) infos levels e =
    let (info, tail, here, rest, shape) =
      added j (info_of (find_item j visible) (find_item j old)) (children_infos visible old ids)
        infos e in
    let level =
      info_level (find_item j visible) (find_item j old) info
        (λ seen path. found-levels visible j seen levels path) here in
    ap (λ entries. are_levels (permissions_of entries)) shape
    ∙ rw (level, infos-levels visible old ids tail levels rest) refl

hidden_kept :
    (seen : Option ChildInfo) (old : Option ItemsRelationData) (saved : ItemChild)
    → is_allowed_with (permission_of (info_of seen old)) old saved ≡ true
    → (is_some seen || is_kept old saved) ≡ true
unfolding info_of is_kept is_child_allowed
hidden_kept (some info) old saved e = refl
hidden_kept none none saved e = absurd (ground arith)
hidden_kept none (some relation) saved e = ground arith

pub saved_hidden :
    (visible infos : List (ℕ × ChildInfo)) (old : List (ℕ × ItemsRelationData))
    (children saved : List ItemChild)
    → ((i : ℕ)
        → is_listed (children_ids children) i ≡ true
        → find_item i (permissions_of infos)
          ≡ permission_of (info_of (find_item i visible) (find_item i old)))
    → are_allowed (permissions_of infos) old children saved ≡ true
    → are_hidden_kept visible old saved ≡ true
unfolding are_allowed are_hidden_kept children_ids is_listed
saved_hidden visible infos old [] [] known e = refl
saved_hidden visible infos old [] (first ∷ rest) known e = absurd (ground arith)
saved_hidden visible infos old (child ∷ children) [] known e = refl
saved_hidden visible infos old (child ∷ children) (first ∷ rest) known e =
    let same : first.item_id ≡ child.item_id = ground arith in
    let allowed : is_allowed_with (find_item child.item_id (permissions_of infos))
          (find_item child.item_id old) first
        ≡ true =
      ground arith in
    let kept = hidden_kept (find_item child.item_id visible) (find_item child.item_id old) first (
      sym (
        ap (λ p. is_allowed_with p (find_item child.item_id old) first)
          (known child.item_id (ground arith)))
      ∙ allowed) in
    let here =
      subst (λ i. (is_some (find_item i visible) || is_kept (find_item i old) first) ≡ true)
        (sym same) kept in
    rw here (
      saved_hidden visible infos old children rest (λ i listed. known i (ground (arith, listed)))
        (ground arith))
