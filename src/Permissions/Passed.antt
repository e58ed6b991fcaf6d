-- ===== src/Permissions/Passed.antt =====
-- The run of all the validators of `updatePermissions` (app/api/groups/update_permissions.go): what
-- each has checked when all have passed, and the permissions that they leave.
use algorea_backend.Shared.{ℕ, ◌≡◌, refl, ap, subst, ◌∙◌, Bool, true, false}
use algorea_backend.Permissions.Checks.{
  UserPermissions, ManagerGeneratedPermissions, check_can_view, check_can_grant_view,
  check_can_watch, check_can_edit, check_can_make_session_official, check_can_enter_from,
  check_can_enter_until,
}
use algorea_backend.Permissions.Validators.{
  UpdatePermissionsInput, Validation, check_is_owner, validate_is_owner, validate_can_view,
  validate_can_grant_view, validate_can_watch, validate_can_edit,
  validate_can_make_session_official, validate_can_enter_from, validate_can_enter_until,
  validate_can_request_help_to, validate,
}
use algorea_backend.Permissions.Accepted.{
  with_view, with_grant_view, with_watch, with_edit, with_official, passes, check_help,
  validate_can_view_lem, validate_can_grant_view_lem, validate_can_watch_lem, validate_can_edit_lem,
  validate_can_make_session_official_lem, validate_can_enter_from_lem, validate_can_enter_until_lem,
  validate_is_owner_lem, validate_can_request_help_to_lem,
}

-- A validator that passes after those of the fields before it.
chain :
    (run : Validation → Validation) (update : UserPermissions → UserPermissions)
    (check : UserPermissions → Bool)
    → ((v : Validation)
        → (run v).valid ≡ true
        → (check v.current ≡ true) × (v.valid ≡ true) × ((run v).current ≡ update v.current))
    → {Earlier : Type 0} → (v : Validation) (p : UserPermissions)
    → (v.valid ≡ true → (v.current ≡ p) × Earlier)
    → (run v).valid ≡ true
    → ((run v).current ≡ update p) × ((check p ≡ true) × Earlier)
chain run update check law v p before valid =
    let (passed, earlier, after) = law v valid in
    let (same, others) = before earlier in
    (after ∙ ap update same, (subst (λ q. check q ≡ true) same passed, others))

-- The permissions with the five values that the validators track.
abbrev pub asked : UserPermissions → UpdatePermissionsInput → UserPermissions
asked p input = with_official input.can_make_session_official (
    with_edit input.can_edit (
      with_watch input.can_watch
        (with_grant_view input.can_grant_view (with_view input.can_view p))))

module _ (u g : ℕ → Bool) (manager : ManagerGeneratedPermissions) where
  module _ (p : UserPermissions) (input : UpdatePermissionsInput) where
    abbrev v₀ : Validation
    v₀ = record { current = p; modified = false; valid = true }

    abbrev v₁ : Validation
    v₁ = validate_is_owner u g manager input.is_owner v₀

    abbrev v₂ : Validation
    v₂ = validate_can_view u g manager input.can_view v₁

    abbrev v₃ : Validation
    v₃ = validate_can_grant_view u g manager input.can_grant_view v₂

    abbrev v₄ : Validation
    v₄ = validate_can_watch u g manager input.can_watch v₃

    abbrev v₅ : Validation
    v₅ = validate_can_edit u g manager input.can_edit v₄

    abbrev v₆ : Validation
    v₆ = validate_can_make_session_official u g manager input.can_make_session_official v₅

    abbrev v₇ : Validation
    v₇ = validate_can_enter_from u g manager input.can_enter_from v₆

    abbrev v₈ : Validation
    v₈ = validate_can_enter_until u g manager input.can_enter_until v₇

    abbrev pub OwnerPassed : Type 0
    OwnerPassed = (passes (check_is_owner p manager) input.is_owner ≡ true) × (v₀.valid ≡ true)

    passed_is_owner : v₁.valid ≡ true → (v₁.current ≡ p) × OwnerPassed
    passed_is_owner =
        chain (validate_is_owner u g manager input.is_owner) (λ q. q)
          (λ q. passes (check_is_owner q manager) input.is_owner)
          (validate_is_owner_lem u g manager input.is_owner) v₀ p (λ _. (refl, refl))

    abbrev pub ViewPassed : Type 0
    ViewPassed = (passes (check_can_view p manager) input.can_view ≡ true) × OwnerPassed

    passed_can_view : v₂.valid ≡ true → (v₂.current ≡ (with_view input.can_view p)) × ViewPassed
    passed_can_view =
        chain (validate_can_view u g manager input.can_view) (with_view input.can_view)
          (λ q. passes (check_can_view q manager) input.can_view)
          (validate_can_view_lem u g manager input.can_view) v₁ p passed_is_owner

    abbrev pub GrantViewPassed : Type 0
    GrantViewPassed =
        (passes (check_can_grant_view (with_view input.can_view p) manager) input.can_grant_view
          ≡ true)
        × ViewPassed

    passed_can_grant_view :
        v₃.valid ≡ true
        → (v₃.current ≡ (with_grant_view input.can_grant_view (with_view input.can_view p)))
          × GrantViewPassed
    passed_can_grant_view =
        chain (validate_can_grant_view u g manager input.can_grant_view)
          (with_grant_view input.can_grant_view)
          (λ q. passes (check_can_grant_view q manager) input.can_grant_view)
          (validate_can_grant_view_lem u g manager input.can_grant_view) v₂
          (with_view input.can_view p) passed_can_view

    abbrev pub WatchPassed : Type 0
    WatchPassed =
        (passes
            (check_can_watch (with_grant_view input.can_grant_view (with_view input.can_view p))
              manager)
            input.can_watch
          ≡ true)
        × GrantViewPassed

    passed_can_watch :
        v₄.valid ≡ true
        → (v₄.current ≡ (
            with_watch input.can_watch
              (with_grant_view input.can_grant_view (with_view input.can_view p))))
          × WatchPassed
    passed_can_watch =
        chain (validate_can_watch u g manager input.can_watch) (with_watch input.can_watch)
          (λ q. passes (check_can_watch q manager) input.can_watch)
          (validate_can_watch_lem u g manager input.can_watch) v₃
          (with_grant_view input.can_grant_view (with_view input.can_view p)) passed_can_grant_view

    abbrev pub EditPassed : Type 0
    EditPassed =
        (passes
            (check_can_edit
              (with_watch input.can_watch
                (with_grant_view input.can_grant_view (with_view input.can_view p)))
              manager)
            input.can_edit
          ≡ true)
        × WatchPassed

    passed_can_edit :
        v₅.valid ≡ true
        → (v₅.current ≡ (
            with_edit input.can_edit (
              with_watch input.can_watch
                (with_grant_view input.can_grant_view (with_view input.can_view p)))))
          × EditPassed
    passed_can_edit =
        chain (validate_can_edit u g manager input.can_edit) (with_edit input.can_edit)
          (λ q. passes (check_can_edit q manager) input.can_edit)
          (validate_can_edit_lem u g manager input.can_edit) v₄
          (with_watch input.can_watch
            (with_grant_view input.can_grant_view (with_view input.can_view p)))
          passed_can_watch

    abbrev pub OfficialPassed : Type 0
    OfficialPassed =
        (passes
            (check_can_make_session_official
              (with_edit input.can_edit (
                with_watch input.can_watch
                  (with_grant_view input.can_grant_view (with_view input.can_view p))))
              manager)
            input.can_make_session_official
          ≡ true)
        × EditPassed

    passed_can_make_session_official :
        v₆.valid ≡ true → (v₆.current ≡ (asked p input)) × OfficialPassed
    passed_can_make_session_official =
        chain (validate_can_make_session_official u g manager input.can_make_session_official)
          (with_official input.can_make_session_official)
          (λ q. passes (check_can_make_session_official q manager) input.can_make_session_official)
          (validate_can_make_session_official_lem u g manager input.can_make_session_official) v₅
          (with_edit input.can_edit (
            with_watch input.can_watch
              (with_grant_view input.can_grant_view (with_view input.can_view p))))
          passed_can_edit

    abbrev pub EnterFromPassed : Type 0
    EnterFromPassed =
        (passes (check_can_enter_from (asked p input) manager) input.can_enter_from ≡ true)
        × OfficialPassed

    passed_can_enter_from : v₇.valid ≡ true → (v₇.current ≡ (asked p input)) × EnterFromPassed
    passed_can_enter_from =
        chain (validate_can_enter_from u g manager input.can_enter_from) (λ q. q)
          (λ q. passes (check_can_enter_from q manager) input.can_enter_from)
          (validate_can_enter_from_lem u g manager input.can_enter_from) v₆ (asked p input)
          passed_can_make_session_official

    abbrev pub EnterUntilPassed : Type 0
    EnterUntilPassed =
        (passes (check_can_enter_until (asked p input) manager) input.can_enter_until ≡ true)
        × EnterFromPassed

    passed_can_enter_until : v₈.valid ≡ true → (v₈.current ≡ (asked p input)) × EnterUntilPassed
    passed_can_enter_until =
        chain (validate_can_enter_until u g manager input.can_enter_until) (λ q. q)
          (λ q. passes (check_can_enter_until q manager) input.can_enter_until)
          (validate_can_enter_until_lem u g manager input.can_enter_until) v₇ (asked p input)
          passed_can_enter_from

    abbrev pub AllPassed : Type 0
    AllPassed =
        (passes (check_help u g manager p.can_request_help_to) input.can_request_help_to ≡ true)
        × EnterUntilPassed

    pub validate-Passed :
        (validate u g manager p input).valid ≡ true
        → ((validate u g manager p input).current ≡ (asked p input)) × AllPassed
    unfolding validate
    validate-Passed =
        chain (validate_can_request_help_to u g manager input.can_request_help_to) (λ q. q)
          (λ q. passes (check_help u g manager q.can_request_help_to) input.can_request_help_to)
          (validate_can_request_help_to_lem u g manager input.can_request_help_to) v₈
          (asked p input) passed_can_enter_until
