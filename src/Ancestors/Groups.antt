-- ===== src/Ancestors/Groups.antt =====
-- The statements of `createNewAncestors` on groups_ancestors (app/database/ancestors.go). All of
-- them run at the same time `now`.
use algorea_backend.Shared.{
  ℕ, Bool, false, ◌&&◌, ◌||◌, not, List, [], ◌∷◌, ◌++◌, ◌==◌, ltb, if◌then◌else◌,
}
use algorea_backend.Ancestors.Tables.{is_listed, ObjectTables}

-- A row of groups_ancestors.
pub record GroupAncestor : Type 0 where
  pub ancestor_group_id : ℕ
  pub child_group_id : ℕ
  pub expires_at : ℕ

-- A row of groups_groups.
pub record GroupRelation : Type 0 where
  pub parent_group_id : ℕ
  pub child_group_id : ℕ
  pub expires_at : ℕ
  pub is_team_membership : Bool

-- The first of `recomputeQueries`: the row of a group for itself stays.
unfoldable pub delete_group_ancestors : List ℕ → List GroupAncestor → List GroupAncestor
delete_group_ancestors ids [] = []
delete_group_ancestors ids (row ∷ rows) =
    let rest = delete_group_ancestors ids rows in
    if is_listed ids row.child_group_id && not (row.ancestor_group_id == row.child_group_id)
    then rest
    else row ∷ rest

unfoldable pub earliest : ℕ → ℕ → ℕ
earliest a b = if ltb a b then a else b

unfoldable pub latest : ℕ → ℕ → ℕ
latest a b = if ltb a b then b else a

-- The rows of the join that the condition keeps.
unfoldable pub is_joined : ℕ → GroupRelation → GroupAncestor → Bool
is_joined now r row =
    (row.child_group_id == r.parent_group_id && not r.is_team_membership)
    && (ltb now r.expires_at && ltb now row.expires_at)

-- MAX(LEAST(...)) of a group of the join; 0 where it has no row. No time that counts is 0.
unfoldable pub max_of_relation : ℕ → GroupRelation → ℕ → List GroupAncestor → ℕ
max_of_relation now r a [] = 0
max_of_relation now r a (row ∷ rows) =
    let rest = max_of_relation now r a rows in
    if row.ancestor_group_id == a && is_joined now r row
    then latest (earliest row.expires_at r.expires_at) rest
    else rest

unfoldable pub max_expires_at : ℕ → List GroupRelation → List GroupAncestor → ℕ → ℕ → ℕ
max_expires_at now [] rows c a = 0
max_expires_at now (r ∷ relations) rows c a =
    let rest = max_expires_at now relations rows c a in
    if r.child_group_id == c then latest (max_of_relation now r a rows) rest else rest

unfoldable pub is_ancestor_of : List GroupAncestor → ℕ → Bool
is_ancestor_of [] a = false
is_ancestor_of (row ∷ rows) a = row.ancestor_group_id == a || is_ancestor_of rows a

-- The inserted rows of one group: GROUP BY the ancestors of the joined rows, and HAVING. A group in
-- a cycle would get a second row for itself, which the primary key refuses: the row is left out
-- here.
unfoldable pub rows_to_insert :
    ℕ → List GroupRelation → List GroupAncestor → ℕ → List GroupAncestor → List GroupAncestor
rows_to_insert now relations joined c [] = []
rows_to_insert now relations joined c (row ∷ rows) =
    let rest = rows_to_insert now relations joined c rows in
    let expires = max_expires_at now relations joined c row.ancestor_group_id in
    if ltb now expires
      && (not (row.ancestor_group_id == c) && not (is_ancestor_of rest row.ancestor_group_id))
    then record {
      ancestor_group_id = row.ancestor_group_id;
      child_group_id = c;
      expires_at = expires;
    }
      ∷ rest
    else rest

-- The second of `recomputeQueries`.
unfoldable pub insert_group_ancestors :
    ℕ → List GroupRelation → List GroupAncestor → List ℕ → List GroupAncestor
insert_group_ancestors now relations joined [] = []
insert_group_ancestors now relations joined (c ∷ ids) =
    rows_to_insert now relations joined c joined ++ insert_group_ancestors now relations joined ids

unfoldable pub recompute_groups :
    ℕ → List GroupRelation → List ℕ → List GroupAncestor → List GroupAncestor
recompute_groups now relations ids rows =
    let kept = delete_group_ancestors ids rows in
    kept ++ insert_group_ancestors now relations kept ids

-- Memberships of teams do not count.
unfoldable pub relation_pairs : List GroupRelation → List (ℕ × ℕ)
relation_pairs [] = []
relation_pairs (r ∷ relations) =
    let rest = relation_pairs relations in
    if r.is_team_membership then rest else (r.parent_group_id, r.child_group_id) ∷ rest

unfoldable pub ancestor_pairs : List GroupAncestor → List (ℕ × ℕ)
ancestor_pairs [] = []
ancestor_pairs (row ∷ rows) = (row.ancestor_group_id, row.child_group_id) ∷ ancestor_pairs rows

abbrev pub group_tables : ℕ → List GroupRelation → ObjectTables (List GroupAncestor)
group_tables now groups_groups = record {
  relations = relation_pairs groups_groups;
  pairs = ancestor_pairs;
  recompute = recompute_groups now groups_groups;
}
