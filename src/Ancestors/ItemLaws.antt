-- ===== src/Ancestors/ItemLaws.antt =====
-- What the statements of `createNewAncestors` compute for an item (app/database/ancestors.go).
use algorea_backend.Shared.{
  ℕ, ◌≡◌, refl, ◌∙◌, Bool, true, false, ◌&&◌, ◌||◌, not, List, [], ◌∷◌, ◌==◌, if◌then◌else◌, arith,
}
use algorea_backend.Ancestors.Tables.{is_listed, has_pair}
use algorea_backend.Ancestors.Laws.{IsRecomputation}
use algorea_backend.Ancestors.Items.{
  delete_ancestors, insert_ignore, insert_ancestors_of, insert_inherited, insert_parents,
  recompute_items, item_tables,
}

-- Is the first item an ancestor of a parent of the second?
unfoldable pub is_inherited : List (ℕ × ℕ) → (ℕ → ℕ → Bool) → ℕ → ℕ → Bool
is_inherited [] above c a = false
is_inherited ((parent, child) ∷ relations) above c a =
    (child == c && above parent a) || is_inherited relations above c a

-- The ancestors of an item are its parents and their ancestors.
unfoldable pub item_local : List (ℕ × ℕ) → (ℕ → Bool) → (ℕ → ℕ → Bool) → ℕ → ℕ → Bool
item_local relations own above c a = has_pair relations a c || is_inherited relations above c a

has_pair-delete :
    (ids : List ℕ) (rows : List (ℕ × ℕ)) (a c : ℕ)
    → has_pair (delete_ancestors ids rows) a c ≡ (has_pair rows a c && not (is_listed ids c))
unfolding has_pair delete_ancestors
has_pair-delete ids [] a c = refl
has_pair-delete ids ((x, y) ∷ rows) a c = ground (arith, has_pair-delete ids rows a c)

has_pair-insert_ignore :
    (x y : ℕ) (rows : List (ℕ × ℕ)) (a c : ℕ)
    → has_pair (insert_ignore x y rows) a c ≡ ((x == a && y == c) || has_pair rows a c)
unfolding has_pair insert_ignore
has_pair-insert_ignore x y rows a c = ground arith

has_pair-insert_ancestors_of :
    (p y : ℕ) (joined rows : List (ℕ × ℕ)) (a c : ℕ)
    → has_pair (insert_ancestors_of p y joined rows) a c
      ≡ ((y == c && has_pair joined a p) || has_pair rows a c)
unfolding has_pair insert_ancestors_of
has_pair-insert_ancestors_of p y [] rows a c = ground arith
has_pair-insert_ancestors_of p y ((x, i) ∷ joined) rows a c = ground (
  arith,
  has_pair-insert_ancestors_of p y joined rows a c,
  has_pair-insert_ignore x y (insert_ancestors_of p y joined rows) a c,
)

has_pair-insert_inherited :
    (relations : List (ℕ × ℕ)) (ids : List ℕ) (joined rows : List (ℕ × ℕ)) (a c : ℕ)
    → has_pair (insert_inherited relations ids joined rows) a c ≡ (
        (is_listed ids c && is_inherited relations (λ p b. has_pair joined b p) c a)
        || has_pair rows a c)
unfolding insert_inherited is_inherited
has_pair-insert_inherited [] ids joined rows a c = ground arith
has_pair-insert_inherited ((p, y) ∷ relations) ids joined rows a c = ground (
  arith,
  has_pair-insert_inherited relations ids joined rows a c,
  has_pair-insert_ancestors_of p y joined (insert_inherited relations ids joined rows) a c,
)

has_pair-insert_parents :
    (relations : List (ℕ × ℕ)) (ids : List ℕ) (rows : List (ℕ × ℕ)) (a c : ℕ)
    → has_pair (insert_parents relations ids rows) a c
      ≡ ((is_listed ids c && has_pair relations a c) || has_pair rows a c)
unfolding insert_parents has_pair
has_pair-insert_parents [] ids rows a c = ground arith
has_pair-insert_parents ((p, y) ∷ relations) ids rows a c = ground (
  arith,
  has_pair-insert_parents relations ids rows a c,
  has_pair-insert_ignore p y (insert_parents relations ids rows) a c,
)

is_inherited-same :
    (relations : List (ℕ × ℕ)) (v w : ℕ → ℕ → Bool) (c a : ℕ)
    → ((p : ℕ) → has_pair relations p c ≡ true → v p a ≡ w p a)
    → is_inherited relations v c a ≡ is_inherited relations w c a
unfolding is_inherited has_pair
is_inherited-same [] v w c a same = refl
is_inherited-same ((p, y) ∷ relations) v w c a same =
    ground (arith, is_inherited-same relations v w c a (λ q e. same q (ground (arith, e))), same p)

has_pair-recompute :
    (relations : List (ℕ × ℕ)) (ids : List ℕ) (rows : List (ℕ × ℕ)) (a c : ℕ)
    → has_pair (recompute_items relations ids rows) a c ≡ (
        if is_listed ids c
        then item_local relations
            (λ i. false)
            (λ p b. has_pair rows b p && not (is_listed ids p))
            c
            a
        else has_pair rows a c)
unfolding recompute_items item_local
has_pair-recompute relations ids rows a c =
    let kept = delete_ancestors ids rows in
    ground (
      arith,
      has_pair-insert_parents relations ids (insert_inherited relations ids kept kept) a c,
      has_pair-insert_inherited relations ids kept kept a c,
      has_pair-delete ids rows a c,
      is_inherited-same relations (λ p b. has_pair kept b p)
          (λ p b. has_pair rows b p && not (is_listed ids p)) c a
          (λ p e. has_pair-delete ids rows a p),
    )

item_local-same :
    (relations : List (ℕ × ℕ)) (o u : ℕ → Bool) (v w : ℕ → ℕ → Bool) (c : ℕ)
    → ((p : ℕ) → has_pair relations p c ≡ true → (a : ℕ) → v p a ≡ w p a)
    → (a : ℕ) → item_local relations o v c a ≡ item_local relations u w c a
unfolding item_local
item_local-same relations o u v w c same a =
    rw (is_inherited-same relations v w c a (λ p e. same p e a)) refl

abbrev pub item_value : List (ℕ × ℕ) → ℕ → ℕ → Bool
item_value rows c a = has_pair rows a c

abbrev pub item_own : List (ℕ × ℕ) → ℕ → Bool
item_own rows i = false

abbrev pub is_item_relation : List (ℕ × ℕ) → ℕ → ℕ → Bool
is_item_relation relations p c = has_pair relations p c

pub items-IsRecomputation :
    (relations : List (ℕ × ℕ))
    → IsRecomputation
        (item_tables relations)
        item_value
        item_own
        (item_local relations)
        (is_item_relation relations)
items-IsRecomputation relations = record {
  recomputed = λ ids table c e free a.
      has_pair-recompute relations ids table a c
      ∙ rw e (
          item_local-same relations (λ i. false) (item_own table)
            (λ p b. has_pair table b p && not (is_listed ids p)) (item_value table) c
            (λ p active b. ground (arith, free p active)) a);
  kept = λ ids table c e a. has_pair-recompute relations ids table a c ∙ rw e refl;
  own_kept = λ ids table c. refl;
  local_same = λ o u v w c own same a. item_local-same relations o u v w c same a;
  active_relation = λ p c e. e;
}
