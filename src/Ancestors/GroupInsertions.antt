-- ===== src/Ancestors/GroupInsertions.antt =====
-- The rows that `createNewAncestors` inserts for the groups to process (app/database/ancestors.go).
use algorea_backend.Shared.{
  ℕ, ◌≡◌, inl, inr, refl, ◌∙◌, true, ◌&&◌, not, List, [], ◌∷◌, ◌==◌, ltb, if◌then◌else◌, arith,
  Bool-cases,
}
use algorea_backend.Ancestors.Tables.{is_listed, has_pair}
use algorea_backend.Ancestors.Laws.{IsRecomputation}
use algorea_backend.Ancestors.Groups.{
  GroupAncestor, GroupRelation, delete_group_ancestors, latest, max_expires_at, is_ancestor_of,
  rows_to_insert, insert_group_ancestors, recompute_groups, relation_pairs, group_tables,
}
use algorea_backend.Ancestors.GroupLaws.{
  expiry, has_membership, through, via_parents, group_local, max_expires_at-via, via_active,
  expiry_append, expiry-delete, no_ancestor,
}

is_ancestor_of-rows_to_insert :
    (now : ℕ) (relations : List GroupRelation) (joined : List GroupAncestor) (c : ℕ)
    (rows : List GroupAncestor) (a : ℕ)
    → is_ancestor_of (rows_to_insert now relations joined c rows) a ≡ (
        is_ancestor_of rows a
        && (not (a == c) && ltb now (max_expires_at now relations joined c a)))
unfolding is_ancestor_of rows_to_insert
is_ancestor_of-rows_to_insert now relations joined c [] a = refl
is_ancestor_of-rows_to_insert now relations joined c (row ∷ rows) a =
    ground (arith, is_ancestor_of-rows_to_insert now relations joined c rows a)

expiry-rows_to_insert :
    (now : ℕ) (relations : List GroupRelation) (joined : List GroupAncestor) (c : ℕ)
    (rows : List GroupAncestor) (i a : ℕ)
    → expiry now (rows_to_insert now relations joined c rows) i a ≡ (
        if (c == i && not (a == c))
          && (is_ancestor_of rows a && ltb now (max_expires_at now relations joined c a))
        then max_expires_at now relations joined c a
        else 0)
unfolding expiry rows_to_insert is_ancestor_of latest
expiry-rows_to_insert now relations joined c [] i a = ground arith
expiry-rows_to_insert now relations joined c (row ∷ rows) i a = ground (
  arith,
  expiry-rows_to_insert now relations joined c rows i a,
  is_ancestor_of-rows_to_insert now relations joined c rows a,
)

via_zero :
    (now : ℕ) (relations : List GroupRelation) (above : ℕ → ℕ → ℕ) (c a : ℕ)
    → ((p : ℕ) → above p a ≡ 0)
    → via_parents now relations above c a ≡ 0
unfolding via_parents through latest
via_zero now [] above c a none = refl
via_zero now (r ∷ relations) above c a none =
    ground (arith, via_zero now relations above c a none, none r.parent_group_id)

-- The inserted rows of a group have what its parents give it.
inserted_expiry :
    (now : ℕ) (relations : List GroupRelation) (joined : List GroupAncestor) (c i a : ℕ)
    → expiry now (rows_to_insert now relations joined c joined) i a
      ≡ (if c == i && not (a == c) then via_parents now relations (expiry now joined) c a else 0)
inserted_expiry now relations joined c i a = elim (Bool-cases (is_ancestor_of joined a)) [
  | inl found ↦ ground (
    arith,
    expiry-rows_to_insert now relations joined c joined i a,
    max_expires_at-via now relations joined c a,
    via_active now relations (expiry now joined) c a,
  )
  | inr absent ↦ ground (
    arith,
    expiry-rows_to_insert now relations joined c joined i a,
    via_zero now relations (expiry now joined) c a (λ p. no_ancestor now joined p a absent),
  )
]

expiry-insert :
    (now : ℕ) (relations : List GroupRelation) (joined : List GroupAncestor) (ids : List ℕ)
    (c a : ℕ)
    → expiry now (insert_group_ancestors now relations joined ids) c a ≡ (
        if is_listed ids c && not (a == c)
        then via_parents now relations (expiry now joined) c a
        else 0)
unfolding insert_group_ancestors is_listed expiry latest
expiry-insert now relations joined [] c a = refl
expiry-insert now relations joined (i ∷ ids) c a =
    expiry_append now (rows_to_insert now relations joined i joined)
      (insert_group_ancestors now relations joined ids) c a
    ∙ ground (
      arith,
      expiry-insert now relations joined ids c a,
      inserted_expiry now relations joined i c a,
    )

via-same :
    (now : ℕ) (relations : List GroupRelation) (v w : ℕ → ℕ → ℕ) (c a : ℕ)
    → ((p : ℕ) → has_membership now relations p c ≡ true → v p a ≡ w p a)
    → via_parents now relations v c a ≡ via_parents now relations w c a
unfolding via_parents has_membership through
via-same now [] v w c a same = refl
via-same now (r ∷ relations) v w c a same = ground (
  arith,
  via-same now relations v w c a (λ p e. same p (ground (arith, e))),
  same r.parent_group_id,
)

group_local-same :
    (now : ℕ) (relations : List GroupRelation) (o u : ℕ → ℕ) (v w : ℕ → ℕ → ℕ) (c : ℕ)
    → o c ≡ u c
    → ((p : ℕ) → has_membership now relations p c ≡ true → (a : ℕ) → v p a ≡ w p a)
    → (a : ℕ) → group_local now relations o v c a ≡ group_local now relations u w c a
unfolding group_local
group_local-same now relations o u v w c own same a =
    rw (own, via-same now relations v w c a (λ p e. same p e a)) refl

expiry-recompute :
    (now : ℕ) (relations : List GroupRelation) (ids : List ℕ) (rows : List GroupAncestor) (c a : ℕ)
    → expiry now (recompute_groups now relations ids rows) c a ≡ (
        if is_listed ids c && not (a == c)
        then via_parents now relations (expiry now (delete_group_ancestors ids rows)) c a
        else expiry now rows c a)
unfolding recompute_groups latest
expiry-recompute now relations ids rows c a =
    let kept = delete_group_ancestors ids rows in
    expiry_append now kept (insert_group_ancestors now relations kept ids) c a
    ∙ ground (arith, expiry-insert now relations kept ids c a, expiry-delete now ids rows c a)

pub membership_relation :
    (now : ℕ) (relations : List GroupRelation) (p c : ℕ)
    → has_membership now relations p c ≡ true
    → has_pair (relation_pairs relations) p c ≡ true
unfolding has_membership has_pair relation_pairs
membership_relation now [] p c e = absurd (ground arith)
membership_relation now (r ∷ relations) p c e =
    ground (arith, membership_relation now relations p c)

abbrev pub own_expiry : ℕ → List GroupAncestor → ℕ → ℕ
own_expiry now rows c = expiry now rows c c

pub groups-IsRecomputation :
    (now : ℕ) (relations : List GroupRelation)
    → IsRecomputation
        (group_tables now relations)
        (expiry now)
        (own_expiry now)
        (group_local now relations)
        (has_membership now relations)
unfolding group_local
groups-IsRecomputation now relations = record {
  recomputed = λ ids table c e free a. ground (
    arith,
    expiry-recompute now relations ids table c a,
    via-same now relations (expiry now (delete_group_ancestors ids table)) (expiry now table) c a
        (λ p active. expiry-delete now ids table p a ∙ rw (free p active) refl),
  );
  kept = λ ids table c e a. expiry-recompute now relations ids table c a ∙ rw e refl;
  own_kept = λ ids table c. ground (arith, expiry-recompute now relations ids table c c);
  local_same = λ o u v w c own same a. group_local-same now relations o u v w c own same a;
  active_relation = λ p c e. membership_relation now relations p c e;
}
