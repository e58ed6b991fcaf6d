-- ===== src/Ancestors/Laws.antt =====
-- The contract between the loop of `createNewAncestors` and the statements that recompute the
-- ancestors of the objects to process (app/database/ancestors.go).
use algorea_backend.Shared.{ℕ, ◌≡◌, Bool, true, false, List}
use algorea_backend.Ancestors.Tables.{is_listed, has_pair, ObjectTables}

-- A table gives each child and ancestor a value (for items whether there is a row, for groups the
-- time at which the row expires), `own` is the value for the object itself, and `local` is what the
-- statements compute from the values of the parents.
pub record IsRecomputation {A V : Type 0} (object : ObjectTables A) (value : A → ℕ → ℕ → V)
    (own : A → ℕ → V) (local : (ℕ → V) → (ℕ → ℕ → V) → ℕ → ℕ → V) (is_active : ℕ → ℕ → Bool)
    : Type 0 where
  -- The parents of an object to process are not to be processed.
  pub recomputed :
      (ids : List ℕ) (table : A) (c : ℕ)
      → is_listed ids c ≡ true
      → ((p : ℕ) → is_active p c ≡ true → is_listed ids p ≡ false)
      → (a : ℕ) → value (object.recompute ids table) c a ≡ local (own table) (value table) c a
  pub kept :
      (ids : List ℕ) (table : A) (c : ℕ)
      → is_listed ids c ≡ false
      → (a : ℕ) → value (object.recompute ids table) c a ≡ value table c a
  pub own_kept :
      (ids : List ℕ) (table : A) (c : ℕ) → own (object.recompute ids table) c ≡ own table c
  -- The result depends on the values of the parents and on the object's own value only.
  pub local_same :
      (o u : ℕ → V) (v w : ℕ → ℕ → V) (c : ℕ)
      → o c ≡ u c
      → ((p : ℕ) → is_active p c ≡ true → (a : ℕ) → v p a ≡ w p a)
      → (a : ℕ) → local o v c a ≡ local u w c a
  pub active_relation : (p c : ℕ) → is_active p c ≡ true → has_pair object.relations p c ≡ true
