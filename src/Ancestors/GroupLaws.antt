-- ===== src/Ancestors/GroupLaws.antt =====
-- What the statements of `createNewAncestors` compute for a group (app/database/ancestors.go).
use algorea_backend.Shared.{
  ℕ, ◌≡◌, refl, Bool, false, ◌&&◌, ◌||◌, not, List, [], ◌∷◌, ◌++◌, ◌==◌, ltb, if◌then◌else◌, arith,
}
use algorea_backend.Ancestors.Tables.{is_listed}
use algorea_backend.Ancestors.Groups.{
  GroupAncestor, GroupRelation, delete_group_ancestors, earliest, latest, is_joined,
  max_of_relation, max_expires_at, is_ancestor_of,
}

-- The time at which the rows of an ancestor and a child expire, 0 where none is active.
unfoldable pub expiry : ℕ → List GroupAncestor → ℕ → ℕ → ℕ
expiry now [] c a = 0
expiry now (row ∷ rows) c a =
    let rest = expiry now rows c a in
    if (row.child_group_id == c && row.ancestor_group_id == a) && ltb now row.expires_at
    then latest row.expires_at rest
    else rest

-- Is the first group a parent of the second after the given time?
unfoldable pub has_membership : ℕ → List GroupRelation → ℕ → ℕ → Bool
has_membership t [] p c = false
has_membership t (r ∷ relations) p c =
    ((r.parent_group_id == p && r.child_group_id == c)
      && (not r.is_team_membership && ltb t r.expires_at))
    || has_membership t relations p c

-- The expiry by a relation: that of the parent, but not after the relation.
unfoldable pub through : ℕ → GroupRelation → ℕ → ℕ
through now r parent =
    if not r.is_team_membership && (ltb now r.expires_at && ltb now parent)
    then earliest parent r.expires_at
    else 0

unfoldable pub via_parents : ℕ → List GroupRelation → (ℕ → ℕ → ℕ) → ℕ → ℕ → ℕ
via_parents now [] above c a = 0
via_parents now (r ∷ relations) above c a =
    let rest = via_parents now relations above c a in
    if r.child_group_id == c then latest (through now r (above r.parent_group_id a)) rest else rest

-- A group is an ancestor of itself by its own row, and of others by way of their parents.
unfoldable pub group_local : ℕ → List GroupRelation → (ℕ → ℕ) → (ℕ → ℕ → ℕ) → ℕ → ℕ → ℕ
group_local now relations own above c a =
    if a == c then own c else via_parents now relations above c a

max_of_relation-expiry :
    (now : ℕ) (r : GroupRelation) (a : ℕ) (rows : List GroupAncestor)
    → max_of_relation now r a rows ≡ through now r (expiry now rows r.parent_group_id a)
unfolding max_of_relation through expiry is_joined latest earliest
max_of_relation-expiry now r a [] = ground arith
max_of_relation-expiry now r a (row ∷ rows) = ground (arith, max_of_relation-expiry now r a rows)

pub max_expires_at-via :
    (now : ℕ) (relations : List GroupRelation) (rows : List GroupAncestor) (c a : ℕ)
    → max_expires_at now relations rows c a ≡ via_parents now relations (expiry now rows) c a
unfolding max_expires_at via_parents
max_expires_at-via now [] rows c a = refl
max_expires_at-via now (r ∷ relations) rows c a =
    rw (max_expires_at-via now relations rows c a, max_of_relation-expiry now r a rows) refl

pub via_active :
    (now : ℕ) (relations : List GroupRelation) (above : ℕ → ℕ → ℕ) (c a : ℕ)
    → (if ltb now (via_parents now relations above c a)
        then via_parents now relations above c a
        else 0)
      ≡ via_parents now relations above c a
unfolding via_parents through latest earliest
via_active now [] above c a = ground arith
via_active now (r ∷ relations) above c a = ground (arith, via_active now relations above c a)

pub expiry_append :
    (now : ℕ) (xs ys : List GroupAncestor) (c a : ℕ)
    → expiry now (xs ++ ys) c a ≡ latest (expiry now xs c a) (expiry now ys c a)
unfolding expiry latest
expiry_append now [] ys c a = ground arith
expiry_append now (x ∷ xs) ys c a = ground (arith, expiry_append now xs ys c a)

pub expiry-delete :
    (now : ℕ) (ids : List ℕ) (rows : List GroupAncestor) (c a : ℕ)
    → expiry now (delete_group_ancestors ids rows) c a
      ≡ (if is_listed ids c && not (a == c) then 0 else expiry now rows c a)
unfolding expiry delete_group_ancestors
expiry-delete now ids [] c a = ground arith
expiry-delete now ids (row ∷ rows) c a = ground (arith, expiry-delete now ids rows c a)

-- An ancestor that no row has is no ancestor of a parent.
pub no_ancestor :
    (now : ℕ) (rows : List GroupAncestor) (c a : ℕ)
    → is_ancestor_of rows a ≡ false
    → expiry now rows c a ≡ 0
unfolding expiry is_ancestor_of
no_ancestor now [] c a e = refl
no_ancestor now (row ∷ rows) c a e = ground (arith, no_ancestor now rows c a)
