-- ===== src/Permissions/Corrections.antt =====
-- What `correctPermissionsDataMap` and the flag of the helper group make of the saved row (app/api/groups/update_permissions.go).
use algorea_backend.Shared.{
  ℕ, zero, suc, inl, inr, Bool-cases, ◌≡◌, refl, Bool, true, ◌&&◌, ◌||◌, not, Option, none, some,
  leb, ltb, ◌==◌, ap, sym, if◌then◌else◌, get_or, is_some, arith,
}
use algorea_backend.Permissions.Levels.{
  CanView, CanGrantView, CanWatch, CanEdit, view_index_by_name, grant_view_index_by_name,
  watch_index_by_name, edit_index_by_name, grant_view_name_by_index,
}
use algorea_backend.Permissions.Checks.{UserPermissions}
use algorea_backend.Permissions.Validators.{UpdatePermissionsInput}
use algorea_backend.Permissions.Update.{
  DataMap, correct_grant_view, correct_others, replace_flag, insert_or_update_map, index_or,
}
use algorea_backend.Permissions.Passed.{asked}
use algorea_backend.Permissions.Intended.{cut_grant_view, cut_at_content, is_in_range}

grant_view_name_by_index_lem :
    (i : ℕ)
    → (leb 1 i && leb i 5) ≡ true
    → (name : CanGrantView) × (grant_view_name_by_index i ≡ some name)
      × (grant_view_index_by_name name ≡ i)
unfolding grant_view_name_by_index grant_view_index_by_name
grant_view_name_by_index_lem (suc zero) h = (CanGrantView.none, refl, refl)
grant_view_name_by_index_lem (suc (suc zero)) h = (CanGrantView.enter, refl, refl)
grant_view_name_by_index_lem (suc (suc (suc zero))) h = (CanGrantView.content, refl, refl)
grant_view_name_by_index_lem (suc (suc (suc (suc zero)))) h =
    (CanGrantView.content_with_descendants, refl, refl)
grant_view_name_by_index_lem (suc (suc (suc (suc (suc zero))))) h =
    (CanGrantView.solution, refl, refl)
grant_view_name_by_index_lem zero h = ground arith
grant_view_name_by_index_lem (suc (suc (suc (suc (suc (suc i)))))) h = ground arith

-- The condition under which `correctPermissionsDataMap` corrects can_grant_view.
abbrev is_cut : UserPermissions → Bool
is_cut p =
    (p.can_grant_view_value == 6 && not (p.can_view_value == 5))
    || (ltb p.can_grant_view_value 6 && ltb p.can_view_value p.can_grant_view_value)

cut_grant_view_lem :
    (p : UserPermissions)
    → leb p.can_grant_view_value 6 ≡ true
    → cut_grant_view p.can_view_value p.can_grant_view_value
      ≡ (if is_cut p then p.can_view_value else p.can_grant_view_value)
unfolding cut_grant_view
cut_grant_view_lem p grant = ground arith

module _ (p : UserPermissions) (d : DataMap) where
  pub correct_grant_view_lem :
      (old : ℕ)
      → (leb 1 p.can_view_value && leb p.can_view_value 5) ≡ true
      → leb p.can_grant_view_value 6 ≡ true
      → index_or grant_view_index_by_name d.can_grant_view old ≡ p.can_grant_view_value
      → (o : Option CanGrantView) × (correct_grant_view p d
          ≡ some (record d { can_grant_view = o }))
        × (index_or grant_view_index_by_name o old
            ≡ cut_grant_view p.can_view_value p.can_grant_view_value)
  unfolding correct_grant_view
  correct_grant_view_lem old view grant given =
      let (name, by_index, index) = grant_view_name_by_index_lem p.can_view_value view in
      elim (Bool-cases (is_cut p)) [
        | inl e ↦ (some name, rw (e, by_index), rw (cut_grant_view_lem p grant, e) index)
        | inr e ↦ (d.can_grant_view, rw e, rw (cut_grant_view_lem p grant, e) given)
      ]

  correct_others-watch :
      (old : ℕ)
      → leb 1 p.can_watch_value ≡ true
      → index_or watch_index_by_name d.can_watch old ≡ p.can_watch_value
      → index_or watch_index_by_name (correct_others p d).can_watch old
        ≡ cut_at_content p.can_view_value p.can_watch_value
  unfolding correct_others cut_at_content watch_index_by_name
  correct_others-watch old range given = ground arith

  correct_others-edit :
      (old : ℕ)
      → leb 1 p.can_edit_value ≡ true
      → index_or edit_index_by_name d.can_edit old ≡ p.can_edit_value
      → index_or edit_index_by_name (correct_others p d).can_edit old
        ≡ cut_at_content p.can_view_value p.can_edit_value
  unfolding correct_others cut_at_content edit_index_by_name
  correct_others-edit old range given = ground arith

  correct_others-official :
      (old : Bool)
      → get_or d.can_make_session_official old ≡ p.can_make_session_official
      → get_or (correct_others p d).can_make_session_official old
        ≡ (leb 2 p.can_view_value && p.can_make_session_official)
  unfolding correct_others
  correct_others-official old given = ground arith

pub insert-replace_flag :
    (all_users_group : ℕ) (d : DataMap) (old : UserPermissions)
    → insert_or_update_map (replace_flag all_users_group d) old
      ≡ record (insert_or_update_map d old) {
        can_request_help_to =
            if is_some d.is_all_users_group
            then some all_users_group
            else get_or (d.can_request_help_to) (old.can_request_help_to);
      }
unfolding insert_or_update_map replace_flag
insert-replace_flag all_users_group d old = elim (Bool-cases (is_some d.is_all_users_group)) [
  | inl e ↦ rw e
  | inr e ↦ rw e
]

pub correct_others_frame :
    (p : UserPermissions) (d : DataMap)
    → correct_others p d ≡ record d {
      can_watch = (correct_others p d).can_watch;
      can_edit = (correct_others p d).can_edit;
      can_make_session_official = (correct_others p d).can_make_session_official;
    }
unfolding correct_others
correct_others_frame p d = elim (Bool-cases (ltb p.can_view_value 3)) [
  | inl e ↦ rw e
  | inr e ↦ rw e
]

-- What `correctPermissionsDataMap` makes of the row, for a map whose values are those of p.
pub insert-correct_others :
    (p : UserPermissions) (d : DataMap) (old : UserPermissions)
    → leb 1 p.can_watch_value ≡ true
    → leb 1 p.can_edit_value ≡ true
    → index_or watch_index_by_name d.can_watch old.can_watch_value ≡ p.can_watch_value
    → index_or edit_index_by_name d.can_edit old.can_edit_value ≡ p.can_edit_value
    → get_or d.can_make_session_official old.can_make_session_official ≡ p.can_make_session_official
    → insert_or_update_map (correct_others p d) old ≡ record (insert_or_update_map d old) {
      can_watch_value = cut_at_content (p.can_view_value) (p.can_watch_value);
      can_edit_value = cut_at_content (p.can_view_value) (p.can_edit_value);
      can_make_session_official = leb 2 p.can_view_value && p.can_make_session_official;
    }
unfolding insert_or_update_map
insert-correct_others p d old watch_range edit_range watch edit official =
    rw
      (
        sym (correct_others-watch p d old.can_watch_value watch_range watch),
        sym (correct_others-edit p d old.can_edit_value edit_range edit),
        sym (correct_others-official p d old.can_make_session_official official),
      )
      (ap (λ changed. insert_or_update_map changed old) (correct_others_frame p d))

index_lem : (v : CanView) → (leb 1 (view_index_by_name v) && leb (view_index_by_name v) 5) ≡ true
unfolding view_index_by_name
index_lem v = ground arith

grant_view_index_lem :
    (v : CanGrantView)
    → (leb 1 (grant_view_index_by_name v) && leb (grant_view_index_by_name v) 6) ≡ true
unfolding grant_view_index_by_name
grant_view_index_lem v = ground arith

watch_index_lem :
    (v : CanWatch) → (leb 1 (watch_index_by_name v) && leb (watch_index_by_name v) 4) ≡ true
unfolding watch_index_by_name
watch_index_lem v = ground arith

edit_index_lem :
    (v : CanEdit) → (leb 1 (edit_index_by_name v) && leb (edit_index_by_name v) 4) ≡ true
unfolding edit_index_by_name
edit_index_lem v = ground arith

pub index_or_range :
    {V : Type 0} (index : V → ℕ) (most : ℕ) (o : Option V) (old : ℕ)
    → ((v : V) → (leb 1 (index v) && leb (index v) most) ≡ true)
    → (leb 1 old && leb old most) ≡ true
    → (leb 1 (index_or index o old) && leb (index_or index o old) most) ≡ true
index_or_range index most none old each range = range
index_or_range index most (some v) old each range = each v

pub asked_range :
    (old : UserPermissions) (input : UpdatePermissionsInput)
    → is_in_range old ≡ true
    → is_in_range (asked old input) ≡ true
unfolding is_in_range
asked_range old input range = ground (
  arith,
  index_or_range view_index_by_name 5 input.can_view old.can_view_value index_lem,
  index_or_range grant_view_index_by_name 6 input.can_grant_view old.can_grant_view_value
      grant_view_index_lem,
  index_or_range watch_index_by_name 4 input.can_watch old.can_watch_value watch_index_lem,
  index_or_range edit_index_by_name 4 input.can_edit old.can_edit_value edit_index_lem,
)
