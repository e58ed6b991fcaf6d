-- ===== src/Ancestors/Items.antt =====
-- The statements of `createNewAncestors` on items_ancestors (app/database/ancestors.go).
use algorea_backend.Shared.{ℕ, List, [], ◌∷◌, ◌==◌, if◌then◌else◌}
use algorea_backend.Ancestors.Tables.{is_listed, has_pair, ObjectTables}

-- The first of `recomputeQueries`: the rows of the objects to process are deleted.
unfoldable pub delete_ancestors : List ℕ → List (ℕ × ℕ) → List (ℕ × ℕ)
delete_ancestors ids [] = []
delete_ancestors ids ((ancestor, child) ∷ rows) =
    let rest = delete_ancestors ids rows in
    if is_listed ids child then rest else (ancestor, child) ∷ rest

-- INSERT IGNORE.
unfoldable pub insert_ignore : ℕ → ℕ → List (ℕ × ℕ) → List (ℕ × ℕ)
insert_ignore ancestor child rows =
    if has_pair rows ancestor child then rows else (ancestor, child) ∷ rows

-- The rows of a parent, for its child; they are read from the first list.
unfoldable pub insert_ancestors_of : ℕ → ℕ → List (ℕ × ℕ) → List (ℕ × ℕ) → List (ℕ × ℕ)
insert_ancestors_of parent child [] rows = rows
insert_ancestors_of parent child ((ancestor, i) ∷ joined) rows =
    let rest = insert_ancestors_of parent child joined rows in
    if i == parent then insert_ignore ancestor child rest else rest

-- The second of `recomputeQueries`: the ancestors of the parents.
unfoldable pub insert_inherited : List (ℕ × ℕ) → List ℕ → List (ℕ × ℕ) → List (ℕ × ℕ) → List (ℕ × ℕ)
insert_inherited [] ids joined rows = rows
insert_inherited ((parent, child) ∷ relations) ids joined rows =
    let rest = insert_inherited relations ids joined rows in
    if is_listed ids child then insert_ancestors_of parent child joined rest else rest

-- The third: the parents.
unfoldable pub insert_parents : List (ℕ × ℕ) → List ℕ → List (ℕ × ℕ) → List (ℕ × ℕ)
insert_parents [] ids rows = rows
insert_parents ((parent, child) ∷ relations) ids rows =
    let rest = insert_parents relations ids rows in
    if is_listed ids child then insert_ignore parent child rest else rest

unfoldable pub recompute_items : List (ℕ × ℕ) → List ℕ → List (ℕ × ℕ) → List (ℕ × ℕ)
recompute_items relations ids rows =
    let kept = delete_ancestors ids rows in
    insert_parents relations ids (insert_inherited relations ids kept kept)

-- Items: every row of items_items counts.
abbrev pub item_tables : List (ℕ × ℕ) → ObjectTables (List (ℕ × ℕ))
item_tables items_items = record {
  relations = items_items;
  pairs = λ rows. rows;
  recompute = recompute_items items_items;
}
